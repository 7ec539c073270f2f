-- ===== src/Http/Listing.antt =====
-- internal/delivery/http/v2/datasets.go: the list of datasets that a user sees.
pub mod Shown
use dataset_service.Base.{
  ℕ, zero, suc, ◌*◌, Bool, true, false, not, ◌&&◌, ◌||◌, Option, none, some, List, [], ◌∷◌, ◌==◌,
  ltb, length, if◌then◌else◌,
}
use dataset_service.Base.Time.{ℤ, pos, negsuc}
use dataset_service.Text.{Text, is_empty}
use dataset_service.Errors.{Error, service, wrap, annotate, invalid_credentials, request_forbidden}
use dataset_service.Exec.{Result, ok, err}
use dataset_service.Entities.{Dataset, User}
use dataset_service.Repositories.{ReviewRepository}
use dataset_service.Services.Dataset.{Parts, list_datasets}
use dataset_service.Services.Review.{RatingSummary, get_rating_summary}
use dataset_service.Http.Policies.{is_admin, ensure_dataset_readable}
use dataset_service.Http.Query.{page}

-- `datasetListParams`; a bound of the ratings is a whole number from 1 to 5.
pub record DatasetListParams : Type 0 where
  pub owner_id : Option ℕ
  pub category_id : Option ℕ
  pub public : Option Bool
  pub search : Text
  pub min_rating : Option ℕ
  pub max_rating : Option ℕ

-- `datasetVisibility`
pub record DatasetVisibility : Type 0 where
  pub owner_filter : Option ℕ
  pub public_filter : Option Bool
  pub only_public : Bool

-- `datasetView`
pub record DatasetView : Type 0 where
  pub ds : Dataset
  pub summary : RatingSummary

-- `resolveOwnerFilter`
abbrev pub resolve_owner_filter : User → Option ℕ → Result (Option ℕ)
resolve_owner_filter actor none = ok none
resolve_owner_filter actor (some owner_id) =
    if is_admin (some actor) || owner_id == actor.id
    then ok (some owner_id)
    else err (service request_forbidden)

-- The filter asks for private datasets.
abbrev pub wants_private : Option Bool → Bool
wants_private (some false) = true
wants_private _ = false

-- An ordinary user who asks for private datasets sees the own ones.
abbrev own_only : User → Option ℕ → Result (Option ℕ)
own_only actor none = ok (some actor.id)
own_only actor (some owner_id) =
    if owner_id == actor.id then ok (some owner_id) else err (service request_forbidden)

abbrev narrow : User → Option Bool → Result (Option ℕ) → Result DatasetVisibility
narrow actor public_filter (err e) = err e
narrow actor public_filter (ok owner_filter) =
    elim (if wants_private public_filter && not (is_admin (some actor))
      then own_only actor owner_filter
      else ok owner_filter) [
        | err e ↦ err e
        | ok owner ↦
            ok (record { owner_filter = owner; public_filter = public_filter; only_public = false })
      ]

-- `resolveDatasetVisibility`
unfoldable pub resolve_dataset_visibility :
    Option User → Option ℕ → Option Bool → Result DatasetVisibility
resolve_dataset_visibility none owner_param public_filter = ok (record {
  owner_filter = none;
  public_filter = if wants_private public_filter then none else public_filter;
  only_public = true;
})
resolve_dataset_visibility (some actor) owner_param public_filter =
    narrow actor public_filter (resolve_owner_filter actor owner_param)

abbrev starts_with : Text → Text → Bool
starts_with s [] = true
starts_with [] (c ∷ t) = false
starts_with (d ∷ s) (c ∷ t) = d == c && starts_with s t

-- `strings.Contains(s, t)`
abbrev pub contains : Text → Text → Bool
contains [] t = is_empty t
contains (c ∷ s) t = starts_with (c ∷ s) t || contains s t

abbrev matches_value {ℓ} : {A : Type ℓ} → (A → A → Bool) → A → Option A → Bool
matches_value same a none = true
matches_value same a (some b) = same a b

abbrev same_flag : Bool → Bool → Bool
same_flag a b = (a && b) || (not a && not b)

-- `summary.Average < bound`; without reviews the average is zero.
abbrev pub is_below : RatingSummary → ℕ → Bool
is_below summary bound = elim summary.sum [
  | pos n ↦ if summary.count == 0 then ltb 0 bound else ltb n (bound * summary.count)
  | negsuc n ↦ true
]

-- `summary.Average > bound`
abbrev pub is_above : RatingSummary → ℕ → Bool
is_above summary bound = elim summary.sum [
  | pos n ↦ not (summary.count == 0) && ltb (bound * summary.count) n
  | negsuc n ↦ false
]

-- `matchesRating`
abbrev pub matches_rating : RatingSummary → Option ℕ → Option ℕ → Bool
matches_rating summary min_rating max_rating =
    elim min_rating [ none ↦ true | some bound ↦ not (is_below summary bound) ]
    && elim max_rating [ none ↦ true | some bound ↦ not (is_above summary bound) ]

-- `errors.Is(err, ErrInvalidCredentials) || errors.Is(err, ErrRequestForbidden)`
unfoldable pub is_denied : Error → Bool
is_denied (service invalid_credentials) = true
is_denied (service request_forbidden) = true
is_denied (wrap s e) = is_denied e
is_denied (annotate e d) = is_denied e
is_denied _ = false

-- `lower` is `strings.ToLower` on all letters.
module _ {S : Type 0} (lower : Text → Text) (parts : Parts S) (reviews : ReviewRepository S) where
  -- `matchesSearch`
  abbrev pub matches_search : Dataset → Text → Bool
  matches_search ds search =
      contains (lower ds.name) search || contains (lower ds.description) search

  -- `datasetPassesFilters`
  abbrev pub dataset_passes_filters : Dataset → DatasetListParams → Option Bool → Bool
  dataset_passes_filters ds params public_filter =
      matches_value (λ a b. a == b) ds.category_id params.category_id
      && matches_value same_flag ds.is_public public_filter
      && (is_empty params.search || matches_search ds params.search)

  abbrev rated_view :
      Dataset → DatasetListParams → Result RatingSummary → Result (Option DatasetView)
  rated_view ds params (err e) = err e
  rated_view ds params (ok summary) =
      if matches_rating summary params.min_rating params.max_rating
      then ok (some (record { ds = ds; summary = summary }))
      else ok none

  -- `buildDatasetView`
  unfoldable pub build_dataset_view :
      Option User → Dataset → DatasetListParams → S → Result (Option DatasetView)
  build_dataset_view actor ds params s =
      elim (ensure_dataset_readable actor ds.owner_id ds.is_public) [
        | err e ↦ err e
        | ok _ ↦ rated_view ds params (get_rating_summary reviews ds.id s)
      ]

  -- One round of the loop, before the views of the later datasets.
  abbrev add_view :
      Result (Option DatasetView) → Result (List DatasetView) → Result (List DatasetView)
  add_view (err e) later = if is_denied e then later else err e
  add_view (ok none) later = later
  add_view (ok (some view)) (err e) = err e
  add_view (ok (some view)) (ok views) = ok (view ∷ views)

  -- `collectDatasetViews`
  unfoldable pub collect_dataset_views :
      Option User → List Dataset → DatasetListParams → Option Bool → S → Result (List DatasetView)
  collect_dataset_views actor [] params public_filter s = ok []
  collect_dataset_views actor (ds ∷ list) params public_filter s =
      let later = collect_dataset_views actor list params public_filter s in
      if dataset_passes_filters ds params public_filter
      then add_view (build_dataset_view actor ds params s) later
      else later

  abbrev show_page : ℕ → ℕ → Result (List DatasetView) → Result (List DatasetView × ℕ)
  show_page limit offset (err e) = err e
  show_page limit offset (ok views) = ok (page limit offset views, length views)

  abbrev show_list :
      Option User
      → DatasetListParams
      → ℕ
      → ℕ
      → Option Bool
      → S
      → Result (List Dataset)
      → Result (List DatasetView × ℕ)
  show_list actor params limit offset public_filter s (err e) = err e
  show_list actor params limit offset public_filter s (ok list) =
      show_page limit offset (collect_dataset_views actor list params public_filter s)

  -- `ListDatasets` on a query that is read already: the datasets of the page and the number of all.
  unfoldable pub show_datasets :
      Option User → DatasetListParams → ℕ → ℕ → S → Result (List DatasetView × ℕ)
  show_datasets actor params limit offset s =
      elim (resolve_dataset_visibility actor params.owner_id params.public) [
        | err e ↦ err e
        | ok visibility ↦
            show_list actor params limit offset visibility.public_filter s
              (list_datasets parts visibility.only_public visibility.owner_filter s)
      ]
