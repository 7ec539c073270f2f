-- ===== src/Http/Listing/Shown.antt =====
-- datasets.go: which datasets a list shows, and to whom.
use dataset_service.Base.{
  ℕ, zero, suc, ◌≡◌, refl, inl, inr, ◌⊎◌, Bool, true, false, ◌&&◌, ◌||◌, Option, none, some, List,
  [], ◌∷◌, map, arith, ◌==◌, take, drop, select, All, Bool-cases,
}
use dataset_service.Text.{Text}
use dataset_service.Errors.{Error, service, invalid_credentials, request_forbidden}
use dataset_service.Exec.{ok, err, Result-cases}
use dataset_service.Entities.{Dataset, User}
use dataset_service.Repositories.{ReviewRepository}
use dataset_service.Services.Dataset.{Parts, list_datasets}
use dataset_service.Services.Review.{get_rating_summary}
use dataset_service.Http.Policies.{is_admin, ensure_dataset_readable}
use dataset_service.Http.Query.{page}
use dataset_service.Http.Query.Pages.{page-take-drop}
use dataset_service.Http.Listing.{
  DatasetListParams, DatasetVisibility, DatasetView, resolve_dataset_visibility, matches_rating,
  wants_private, dataset_passes_filters, build_dataset_view, collect_dataset_views, show_datasets,
}

-- A public dataset may be read by everybody, a private one by its owner and by administrators.
abbrev pub may_read : Option User → Dataset → Bool
may_read none ds = ds.is_public
may_read (some user) ds = ds.is_public || user.id == ds.owner_id || is_admin (some user)

-- The code's check lets through exactly those.
readable-may_read :
    (actor : Option User) (ds : Dataset)
    → ((ensure_dataset_readable actor ds.owner_id ds.is_public ≡ ok tt)
        × (may_read actor ds ≡ true))
      ⊎ ((e : Error) × (ensure_dataset_readable actor ds.owner_id ds.is_public ≡ err e)
          × (may_read actor ds ≡ false))
unfolding ensure_dataset_readable
readable-may_read none ds = elim (Bool-cases ds.is_public) [
  | inl open_to_all ↦ inl (ground arith, open_to_all)
  | inr private ↦ inr (service invalid_credentials, ground arith, private)
]
readable-may_read (some user) ds = elim (Bool-cases ds.is_public) [
  | inl open_to_all ↦ inl (ground arith, ground arith)
  | inr private ↦ elim (Bool-cases (user.id == ds.owner_id || is_admin (some user))) [
    | inl may ↦ inl (ground arith, ground arith)
    | inr may_not ↦ inr (service request_forbidden, ground arith, ground arith)
  ]
]

module _ {ℓ κ} {A : Type ℓ} (P : A → Type κ) where
  All-take : (n : ℕ) (xs : List A) → All P xs → All P (take n xs)
  All-take zero xs h = tt
  All-take (suc n) [] h = tt
  All-take (suc n) (x ∷ xs) h = (h.0, All-take n xs h.1)

  All-drop : (n : ℕ) (xs : List A) → All P xs → All P (drop n xs)
  All-drop zero xs h = h
  All-drop (suc n) [] h = tt
  All-drop (suc n) (x ∷ xs) h = All-drop n xs h.1

module _ {S : Type 0} (lower : Text → Text) (parts : Parts S) (reviews : ReviewRepository S) where
  -- The dataset passes the filters, may be read, and its ratings can be fetched and lie within the
  -- bounds.
  abbrev pub is_shown : Option User → DatasetListParams → Option Bool → S → Dataset → Bool
  is_shown actor params public_filter s ds =
      dataset_passes_filters lower parts reviews ds params public_filter
      && may_read actor ds
      && elim (get_rating_summary reviews ds.id s) [
        | err e ↦ false
        | ok summary ↦ matches_rating summary params.min_rating params.max_rating
      ]

  -- What `buildDatasetView` answers for a dataset.
  build-cases :
      (actor : Option User) (ds : Dataset) (params : DatasetListParams)
      (public_filter : Option Bool) (s : S)
      → dataset_passes_filters lower parts reviews ds params public_filter ≡ true
      → ((v : DatasetView) × (build_dataset_view lower parts reviews actor ds params s
            ≡ ok (some v))
          × (v.ds ≡ ds)
          × (is_shown actor params public_filter s ds ≡ true)
          × (may_read actor ds ≡ true))
        ⊎ ((build_dataset_view lower parts reviews actor ds params s ≡ ok none)
            × (is_shown actor params public_filter s ds ≡ false))
        ⊎ ((e : Error) × (build_dataset_view lower parts reviews actor ds params s ≡ err e)
            × (is_shown actor params public_filter s ds ≡ false))
  unfolding build_dataset_view
  build-cases actor ds params public_filter s passes = elim (readable-may_read actor ds) [
    | inr (e, refused, hidden) ↦ inr (inr (e, ground arith, ground arith))
    | inl (readable, visible) ↦ elim (Result-cases (get_rating_summary reviews ds.id s)) [
      | inr (e, failed) ↦ inr (inr (e, ground arith, ground arith))
      | inl (summary, found) ↦
          elim (Bool-cases (matches_rating summary params.min_rating params.max_rating)) [
            | inl good ↦
                inl
                  (record { ds = ds; summary = summary }, ground arith, refl, ground arith, visible)
            | inr bad ↦ inr (inl (ground arith, ground arith))
          ]
    ]
  ]

  -- What a successful round of the loop leaves.
  collect_dataset_views-step :
      (actor : Option User) (ds : Dataset) (list : List Dataset) (params : DatasetListParams)
      (public_filter : Option Bool) (s : S) (views : List DatasetView)
      → collect_dataset_views lower parts reviews actor (ds ∷ list) params public_filter s
        ≡ ok views
      → ((v : DatasetView) × (later : List DatasetView) × (views ≡ v ∷ later)
          × (v.ds ≡ ds)
          × (collect_dataset_views lower parts reviews actor list params public_filter s ≡ ok later)
          × (is_shown actor params public_filter s ds ≡ true)
          × (may_read actor ds ≡ true))
        ⊎ ((collect_dataset_views lower parts reviews actor list params public_filter s ≡ ok views)
            × (is_shown actor params public_filter s ds ≡ false))
  unfolding collect_dataset_views
  collect_dataset_views-step actor ds list params public_filter s views h =
      elim (Bool-cases (dataset_passes_filters lower parts reviews ds params public_filter)) [
        | inr left_out ↦ inr (ground arith, ground arith)
        | inl passes ↦
            elim (Result-cases
              (collect_dataset_views lower parts reviews actor list params public_filter s)) [
                | inr (e, failed) ↦ elim (build-cases actor ds params public_filter s passes) [
                  | inl (v, built, same, shown, visible) ↦ absurd (ground arith)
                  | inr (inl (built, hidden)) ↦ absurd (ground arith)
                  | inr (inr (e2, built, hidden)) ↦ absurd (ground arith)
                ]
                | inl (later, rest) ↦ elim (build-cases actor ds params public_filter s passes) [
                  | inl (v, built, same, shown, visible) ↦
                      inl (v, later, ground arith, same, rest, shown, visible)
                  | inr (inl (built, hidden)) ↦ inr (ground arith, hidden)
                  | inr (inr (e2, built, hidden)) ↦ inr (ground arith, hidden)
                ]
              ]
      ]

  -- If the loop over a list of datasets succeeds, its views are those of the datasets that pass the
  -- filters, may be read by the user, and have ratings that can be fetched and lie within the
  -- bounds: all of them, once each, in the order of the list.
  pub collect_dataset_views-select :
      (actor : Option User) (list : List Dataset) (params : DatasetListParams)
      (public_filter : Option Bool) (s : S) (views : List DatasetView)
      → collect_dataset_views lower parts reviews actor list params public_filter s ≡ ok views
      → map (λ v. v.ds) views ≡ select (is_shown actor params public_filter s) list
  collect_dataset_views-select actor [] params public_filter s views h =
      unfold collect_dataset_views in ground arith
  collect_dataset_views-select actor (ds ∷ list) params public_filter s views h =
      elim (collect_dataset_views-step actor ds list params public_filter s views h) [
        | inl (v, later, same, own, rest, shown, visible) ↦
            let tail = collect_dataset_views-select actor list params public_filter s later rest in
            rw (same, shown) (ground (arith, own, tail))
        | inr (rest, hidden) ↦
            rw hidden (collect_dataset_views-select actor list params public_filter s views rest)
      ]

  collect_dataset_views-may_read :
      (actor : Option User) (list : List Dataset) (params : DatasetListParams)
      (public_filter : Option Bool) (s : S) (views : List DatasetView)
      → collect_dataset_views lower parts reviews actor list params public_filter s ≡ ok views
      → All (λ v. may_read actor v.ds ≡ true) views
  collect_dataset_views-may_read actor [] params public_filter s [] h = tt
  collect_dataset_views-may_read actor [] params public_filter s (v ∷ views) h =
      absurd (unfold collect_dataset_views in ground arith)
  collect_dataset_views-may_read actor (ds ∷ list) params public_filter s views h =
      elim (collect_dataset_views-step actor ds list params public_filter s views h) [
        | inl (v, later, same, own, rest, shown, visible) ↦ rw (same) (
          rw own visible,
          collect_dataset_views-may_read actor list params public_filter s later rest,
        )
        | inr (rest, hidden) ↦
            collect_dataset_views-may_read actor list params public_filter s views rest
      ]

  -- Every dataset on a page of the list may be read by the user who asked for it: it is public, or
  -- it is the user's own, or the user is an administrator.
  pub show_datasets-may_read :
      (actor : Option User) (params : DatasetListParams) (limit offset : ℕ) (s : S)
      (items : List DatasetView) (total : ℕ)
      → show_datasets lower parts reviews actor params limit offset s ≡ ok (items, total)
      → All (λ v. may_read actor v.ds ≡ true) items
  unfolding show_datasets
  show_datasets-may_read actor params limit offset s items total h =
      elim (Result-cases (resolve_dataset_visibility actor params.owner_id params.public)) [
        | inr (e, refused) ↦ absurd (ground arith)
        | inl (visibility, resolved) ↦
            elim (Result-cases
              (list_datasets parts visibility.only_public visibility.owner_filter s)) [
                | inr (e, failed) ↦ absurd (ground arith)
                | inl (list, found) ↦
                    elim (Result-cases (
                      collect_dataset_views lower parts reviews actor list params
                        visibility.public_filter s)) [
                          | inr (e, failed) ↦ absurd (ground arith)
                          | inl (views, collected) ↦
                              let is_page : items ≡ page limit offset views = ground arith in
                              rw (is_page, page-take-drop limit offset views)
                                (All-take _ limit (drop offset views) (
                                  All-drop _ offset views (
                                    collect_dataset_views-may_read actor list params
                                      visibility.public_filter s views collected)))
                        ]
              ]
      ]

-- A query of a user who is no administrator is refused, or it reads the datasets of that user, or
-- it names no owner and does not ask for private datasets. The filter for public datasets stays.
pub resolve_dataset_visibility-own :
    (actor : User) (owner_param : Option ℕ) (public_filter : Option Bool)
    (visibility : DatasetVisibility)
    → is_admin (some actor) ≡ false
    → resolve_dataset_visibility (some actor) owner_param public_filter ≡ ok visibility
    → ((visibility.owner_filter ≡ some actor.id)
        ⊎ ((owner_param ≡ none)
            × (visibility.owner_filter ≡ none)
            × (wants_private public_filter ≡ false)))
      × (visibility.public_filter ≡ public_filter)
unfolding resolve_dataset_visibility
resolve_dataset_visibility-own actor none public_filter visibility ordinary h =
    elim (Bool-cases (wants_private public_filter)) [
      | inl private ↦ (inl (ground arith), ground arith)
      | inr any ↦ (inr (refl, ground arith, any), ground arith)
    ]
resolve_dataset_visibility-own actor (some owner_id) public_filter visibility ordinary h =
    elim (Bool-cases (owner_id == actor.id)) [
      | inr other ↦ absurd (ground arith)
      | inl own ↦ elim (Bool-cases (wants_private public_filter)) [
        | inl private ↦ (inl (ground arith), ground arith)
        | inr any ↦ (inl (ground arith), ground arith)
      ]
    ]
