-- ===== src/Http/Tests.antt =====
-- internal/delivery/http/v2: the theorems at a query, and at a list of one private dataset.
use dataset_service.Base.{
  ℕ, ◌≡◌, refl, true, false, Option, none, some, List, [], ◌∷◌, map, All, select,
}
use dataset_service.Base.Time.{pos}
use dataset_service.Text.{Text, text_eq}
use dataset_service.Services.Dataset.{list_datasets}
use dataset_service.Services.Review.{add_ratings, get_rating_summary}
use dataset_service.Http.Sample.{rain, parts, reviews, bob}
use dataset_service.Http.Policies.{is_admin, equal_fold, ensure_dataset_readable}
use dataset_service.Http.Query.{page}
use dataset_service.Http.Listing.{
  DatasetListParams, DatasetVisibility, DatasetView, resolve_dataset_visibility, build_dataset_view,
  collect_dataset_views, show_datasets,
}
use dataset_service.Http.Listing.Shown.{
  may_read, is_shown, collect_dataset_views-select, show_datasets-may_read,
}

abbrev sample : List ℕ
sample = 7 ∷ 8 ∷ 9 ∷ 10 ∷ []

abbrev all : DatasetListParams
all = record {
  owner_id = none;
  category_id = none;
  public = none;
  search = [];
  min_rating = none;
  max_rating = none;
}

abbrev lower : Text → Text
lower s = s

abbrev view : DatasetView
view = record { ds = rain; summary = record { sum = pos 0; count = 0 } }

collect_dataset_views-select_example :
    map (λ v. v.ds) (view ∷ [])
    ≡ select (is_shown lower parts reviews (some bob) all none tt) (rain ∷ [])
unfolding collect_dataset_views build_dataset_view ensure_dataset_readable get_rating_summary
    add_ratings
collect_dataset_views-select_example =
    collect_dataset_views-select lower parts reviews (some bob) (rain ∷ []) all none tt (view ∷ [])
      refl

show_datasets-may_read_example : All (λ v. may_read (some bob) v.ds ≡ true) (view ∷ [])
unfolding show_datasets resolve_dataset_visibility list_datasets collect_dataset_views
    build_dataset_view ensure_dataset_readable get_rating_summary add_ratings page is_admin
    equal_fold text_eq
show_datasets-may_read_example =
    show_datasets-may_read lower parts reviews (some bob) all 20 0 tt (view ∷ []) 1 refl

abbrev no_owner : Option ℕ
no_owner = none

abbrev own_list : DatasetVisibility
own_list = record { owner_filter = some 2; public_filter = some false; only_public = false }
