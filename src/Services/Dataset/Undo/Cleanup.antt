-- ===== src/Services/Dataset/Undo/Cleanup.antt =====
-- dataset_service_impl.go: `cleanupDataset` undoes the steps that came before it.
use dataset_service.Base.{
  ℕ, ◌≡◌, ◌≢◌, refl, ◌∙◌, ◌⊎◌, inl, inr, true, false, Option, none, some, arith, ◌==◌, Bool-cases,
}
use dataset_service.Text.{Text, text_eq, is_empty}
use dataset_service.Exec.{ok}
use dataset_service.Entities.{DatasetVersion}
use dataset_service.Services.Dataset.{Parts, cleanup_dataset}
use dataset_service.Services.Dataset.Undo.Stores.{
  without, SameDatasets, SameVersions, Same, LawfulStores,
}

pub without-some :
    (id : ℕ) (row : Option DatasetVersion)
    → ((ver : DatasetVersion) → row ≡ some ver → ver.dataset_id ≢ id)
    → without id row ≡ row
without-some id none h = refl
without-some id (some ver) h = elim (Bool-cases (ver.dataset_id == id)) [
  | inl same ↦ absurd (h ver refl (ground arith))
  | inr other ↦ ground arith
]

module _ {S : Type 0} (parts : Parts S) (laws : LawfulStores parts) where
  open laws use {views}
  open views use {dataset_row, version_row, object}

  -- From `s` to `t` only the dataset `id`, its versions and the object `key` may have changed.
  pub record OnlyNew (id : ℕ) (key : Text) (s t : S) : Type 0 where
    pub datasets_kept : (j : ℕ) → (id == j) ≡ false → dataset_row t j ≡ dataset_row s j
    pub versions_kept : (j : ℕ) → without id (version_row t j) ≡ version_row s j
    pub objects_kept : (k : Text) → text_eq key k ≡ false → object t k ≡ object s k

  -- The rows are those before, and there is no object that was not there.
  abbrev pub Undone : S → S → Type 0
  Undone s t =
      SameDatasets views s t
      × SameVersions views s t
      × ((k : Text) → (object t k ≡ false) ⊎ (object t k ≡ object s k))

  module _ (id : ℕ) (key : Text) (s : S) where
    pub Same-OnlyNew : (t u : S) → Same views t u → OnlyNew id key s t → OnlyNew id key s u
    Same-OnlyNew t u (d, v, o) h = record {
      datasets_kept = λ j other. d j ∙ h.datasets_kept j other;
      versions_kept = λ j. ground (arith, v j, h.versions_kept j);
      objects_kept = λ k other. o k ∙ h.objects_kept k other;
    }

    pub upload-OnlyNew :
        (size : ℕ) (t : S)
        → OnlyNew id key s t
        → OnlyNew id key s (parts.storage.upload key size t).1
    upload-OnlyNew size t h =
        let (d, v, o) = laws.uploaded key size t in
        record {
          datasets_kept = λ j other. d j ∙ h.datasets_kept j other;
          versions_kept = λ j. ground (arith, v j, h.versions_kept j);
          objects_kept = λ k other. o k other ∙ h.objects_kept k other;
        }

    pub created_version-OnlyNew :
        (ver new : DatasetVersion) (t : S)
        → OnlyNew id key s t
        → ver.dataset_id ≡ id
        → (parts.versions.create ver t).0 ≡ ok new
        → OnlyNew id key s (parts.versions.create ver t).1 × (version_row s new.id ≡ none)
    created_version-OnlyNew ver new t h of made =
        let (same, free, rows, d, o) = laws.version_created ver new t made in
        (
          record {
            datasets_kept = λ j other. d j ∙ h.datasets_kept j other;
            versions_kept = λ j. elim (Bool-cases (new.id == j)) [
              | inl here ↦ ground (arith, rows j, h.versions_kept j, free)
              | inr other ↦ ground (arith, rows j, h.versions_kept j)
            ];
            objects_kept = λ k other. o k ∙ h.objects_kept k other;
          },
          ground (arith, h.versions_kept new.id, free),
        )

    -- The last deletion, after the object and the version are gone.
    drop_dataset-Undone :
        (t : S)
        → dataset_row s id ≡ none
        → ((j : ℕ) → (id == j) ≡ false → dataset_row t j ≡ dataset_row s j)
        → ((j : ℕ) → without id (version_row t j) ≡ version_row s j)
        → ((k : Text) → (object t k ≡ false) ⊎ (object t k ≡ object s k))
        → Undone s (parts.datasets.delete id t).1
    drop_dataset-Undone t new d v o =
        let (rows, vers, objects) = laws.dataset_deleted id t in
        (
          λ j. elim (Bool-cases (id == j)) [
            | inl here ↦ ground (arith, rows j, new)
            | inr other ↦ ground (arith, rows j, d j other)
          ],
          λ j. vers j ∙ v j,
          λ k. elim (o k) [ inl gone ↦ inl (objects k ∙ gone) | inr same ↦ inr (objects k ∙ same) ],
        )

    after_object_delete :
        (t : S)
        → OnlyNew id key s t
        → let u = (parts.storage.delete key t).1 in
          OnlyNew id key s u × ((k : Text) → (object u k ≡ false) ⊎ (object u k ≡ object s k))
    after_object_delete t h =
        let (o, d, v) = laws.object_deleted key t in
        (
          record {
            datasets_kept = λ j other. d j ∙ h.datasets_kept j other;
            versions_kept = λ j. ground (arith, v j, h.versions_kept j);
            objects_kept = λ k other. ground (arith, o k, h.objects_kept k other);
          },
          λ k. elim (Bool-cases (text_eq key k)) [
            | inl here ↦ inl (ground (arith, o k))
            | inr other ↦ inr (ground (arith, o k, h.objects_kept k other))
          ],
        )

    -- Cleaning up after steps that touched nothing else undoes them.
    pub cleanup_dataset-Undone :
        (version_id : ℕ) (t : S)
        → OnlyNew id key s t
        → (id == 0) ≡ false
        → is_empty key ≡ false
        → dataset_row s id ≡ none
        → ((version_id == 0) ≡ true) ⊎ (version_row s version_id ≡ none)
        → Undone s (cleanup_dataset parts id key version_id t).1
    unfolding cleanup_dataset
    cleanup_dataset-Undone version_id t h nonzero has_key new fresh =
        let u = (parts.storage.delete key t).1 in
        let (only, o) = after_object_delete t h in
        elim (Bool-cases (version_id == 0)) [
          | inl no_version ↦
              rw (nonzero, has_key, no_version)
                (drop_dataset-Undone u new only.datasets_kept only.versions_kept o)
          | inr some_version ↦
              let (v, d, o2) = laws.version_deleted version_id u in
              rw (nonzero, has_key, some_version)
                (drop_dataset-Undone (parts.versions.delete version_id u).1 new
                  (λ j other. d j ∙ only.datasets_kept j other)
                  (λ j. elim (Bool-cases (version_id == j)) [
                    | inl here ↦ ground (arith, v j, fresh)
                    | inr other ↦ ground (arith, v j, only.versions_kept j)
                  ])
                  (λ k. elim (o k) [ inl gone ↦ inl (o2 k ∙ gone) | inr same ↦ inr (o2 k ∙ same) ]))
        ]
