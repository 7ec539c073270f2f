-- ===== src/Services/Dataset/Undo/Failure.antt =====
-- dataset_service_impl.go: a `CreateDataset` that fails leaves no row and no object behind.
use dataset_service.Base.{
  ℕ, ◌≡◌, refl, ◌⊎◌, inl, inr, true, false, none, [], arith, ◌==◌, ◌&&◌, Bool-cases,
}
use dataset_service.Text.{Text, is_empty}
use dataset_service.Errors.{Error}
use dataset_service.Exec.{Exec, ok, err, Result-cases}
use dataset_service.Entities.{Dataset, DatasetVersion, new_metadata, new_dataset_version}
use dataset_service.Services.Dataset.{
  CreateDataset, Clock, Parts, cleanup_dataset, persist_metadata, build_dataset_version,
  fill_dataset, create_dataset, init_dataset_entity,
}
use dataset_service.Services.Dataset.Naming.{initial_dataset_version, dataset_object_key}
use dataset_service.Services.Dataset.Undo.Stores.{Same, LawfulStores}
use dataset_service.Services.Dataset.Undo.Cleanup.{
  OnlyNew, Undone, without-some, Same-OnlyNew, upload-OnlyNew, created_version-OnlyNew,
  cleanup_dataset-Undone,
}

new_version-fields :
    (number url log : Text) (id uploaded now : ℕ) (ver : DatasetVersion)
    → new_dataset_version number url log id uploaded now ≡ ok ver
    → (ver.id ≡ 0) × (ver.dataset_id ≡ id)
unfolding new_dataset_version
new_version-fields number url log id uploaded now ver h = ground arith

key-not_empty :
    (id : ℕ) (version name : Text) → is_empty (dataset_object_key id version name) ≡ false
unfolding dataset_object_key
key-not_empty id version name = refl

module _ {S : Type 0} (parts : Parts S) (laws : LawfulStores parts) where
  open laws use {views}
  open views use {dataset_row, version_row, object}

  -- A failure to store the metadata runs `undo` in a state with the same rows and objects.
  persist_metadata_failed :
      (format tags : Text) (size version_id : ℕ) (undo : Exec S Unit) (t : S) (e : Error)
      → (persist_metadata parts format tags size version_id undo t).0 ≡ err e
      → (u : S) × Same views t u
        × ((persist_metadata parts format tags size version_id undo t).1 ≡ (undo u).1)
  unfolding persist_metadata
  persist_metadata_failed format tags size version_id undo t e h =
      elim (Bool-cases (is_empty format && size == 0)) [
        | inl no_metadata ↦ absurd (ground arith)
        | inr given ↦ elim (Result-cases (new_metadata format tags size version_id)) [
          | inr (e2, invalid) ↦ (t, ((λ j. refl), (λ j. refl), (λ k. refl)), ground arith)
          | inl (md, made) ↦ elim (Result-cases (parts.metadata.create md t).0) [
            | inr (e2, failed) ↦
                ((parts.metadata.create md t).1, laws.metadata_created md t, ground arith)
            | inl (new, done) ↦ absurd (ground arith)
          ]
        ]
      ]

  module _ (cmd : CreateDataset) (size : ℕ) (clock : Clock) (s : S) where
    abbrev key_of : ℕ → Text
    key_of id = dataset_object_key id initial_dataset_version cmd.file_name

    clean :
        (id version_id : ℕ) (t : S)
        → OnlyNew parts laws id (key_of id) s t
        → (id == 0) ≡ false
        → dataset_row s id ≡ none
        → ((version_id == 0) ≡ true) ⊎ (version_row s version_id ≡ none)
        → Undone parts laws s (cleanup_dataset parts id (key_of id) version_id t).1
    clean id version_id t only nonzero new fresh =
        cleanup_dataset-Undone parts laws id (key_of id) s version_id t only nonzero
          (key-not_empty id initial_dataset_version cmd.file_name) new fresh

    built-fields :
        (ds : Dataset) (url : Text) (ver : DatasetVersion)
        → build_dataset_version parts initial_dataset_version url [] ds.id clock ≡ ok ver
        → (ver.id ≡ 0) × (ver.dataset_id ≡ ds.id)
    built-fields ds url ver built =
        new_version-fields initial_dataset_version url [] ds.id clock.uploaded clock.uploaded_check
          ver (ground arith)

    version_stored-Undone :
        (ds : Dataset) (ver : DatasetVersion) (url : Text) (t : S) (e : Error)
        → OnlyNew parts laws ds.id (key_of ds.id) s t
        → (ds.id == 0) ≡ false
        → dataset_row s ds.id ≡ none
        → (parts.storage.upload (key_of ds.id) size t).0 ≡ ok url
        → build_dataset_version parts initial_dataset_version url [] ds.id clock ≡ ok ver
        → (fill_dataset parts cmd size clock ds t).0 ≡ err e
        → Undone parts laws s (fill_dataset parts cmd size clock ds t).1
    version_stored-Undone ds ver url t e h nonzero new up built failed =
        let key = key_of ds.id in
        let u = (parts.storage.upload key size t).1 in
        let w = (parts.versions.create ver u).1 in
        let uploaded = upload-OnlyNew parts laws ds.id key s size t h in
        let (no_id, of) = built-fields ds url ver built in
        elim (Result-cases (parts.versions.create ver u).0) [
          | inr (e1, refused) ↦
              let state : (fill_dataset parts cmd size clock ds t).1
                  ≡ (cleanup_dataset parts ds.id key ver.id w).1 =
                unfold fill_dataset in ground arith in
              rw state (
                clean ds.id ver.id w
                  (Same-OnlyNew parts laws ds.id key s u w
                    (laws.version_not_created ver e1 u refused) uploaded)
                  nonzero new (inl (ground arith)))
          | inl (stored, made) ↦
              let (only, fresh) =
                created_version-OnlyNew parts laws ds.id key s ver stored u uploaded of made in
              let (x, same, state) =
                persist_metadata_failed cmd.meta_format cmd.meta_tags cmd.meta_size stored.id
                  (cleanup_dataset parts ds.id key stored.id) w e
                  (unfold fill_dataset in ground arith) in
              let end : (fill_dataset parts cmd size clock ds t).1
                  ≡ (cleanup_dataset parts ds.id key stored.id x).1 =
                unfold fill_dataset in ground arith in
              rw end (
                clean ds.id stored.id x (Same-OnlyNew parts laws ds.id key s w x same only) nonzero
                  new (inr fresh))
        ]

    fill_dataset-Undone :
        (ds : Dataset) (t : S) (e : Error)
        → OnlyNew parts laws ds.id (key_of ds.id) s t
        → (ds.id == 0) ≡ false
        → dataset_row s ds.id ≡ none
        → (fill_dataset parts cmd size clock ds t).0 ≡ err e
        → Undone parts laws s (fill_dataset parts cmd size clock ds t).1
    fill_dataset-Undone ds t e h nonzero new failed =
        let key = key_of ds.id in
        let u = (parts.storage.upload key size t).1 in
        let uploaded = upload-OnlyNew parts laws ds.id key s size t h in
        elim (Result-cases (parts.storage.upload key size t).0) [
          | inr (e1, no_upload) ↦
              let state : (fill_dataset parts cmd size clock ds t).1
                  ≡ (cleanup_dataset parts ds.id key 0 u).1 =
                unfold fill_dataset in ground arith in
              rw state (clean ds.id 0 u uploaded nonzero new (inl refl))
          | inl (url, up) ↦
              elim (Result-cases
                (build_dataset_version parts initial_dataset_version url [] ds.id clock)) [
                  | inr (e1, invalid) ↦
                      let state : (fill_dataset parts cmd size clock ds t).1
                          ≡ (cleanup_dataset parts ds.id key 0 u).1 =
                        unfold fill_dataset in ground arith in
                      rw state (clean ds.id 0 u uploaded nonzero new (inl refl))
                  | inl (ver, built) ↦
                      version_stored-Undone ds ver url t e h nonzero new up built failed
                ]
        ]

    created_dataset-OnlyNew :
        (ds new : Dataset)
        → (parts.datasets.create ds s).0 ≡ ok new
        → (key : Text) → OnlyNew parts laws new.id key s (parts.datasets.create ds s).1
    created_dataset-OnlyNew ds new made key =
        let (same, nonzero, free, d, v, o) = laws.dataset_created ds new s made in
        record {
          datasets_kept = λ j other. ground (arith, d j);
          versions_kept = λ j. ground (
            arith,
            v j,
            without-some new.id (version_row s j)
                (λ ver row is. laws.no_orphans s j ver row (ground (arith, is, free))),
          );
          objects_kept = λ k other. o k;
        }

    -- If `CreateDataset` answers with an error, the datasets and the versions are those before the
    -- call, and the bucket holds no object that it did not hold before. The repositories have to
    -- behave as tables with a foreign key, and deletions have to take effect.
    pub create_dataset-Undone :
        (e : Error)
        → (create_dataset parts cmd size clock s).0 ≡ err e
        → Undone parts laws s (create_dataset parts cmd size clock s).1
    unfolding create_dataset
    create_dataset-Undone e failed = elim (Result-cases (init_dataset_entity parts cmd clock)) [
      | inr (e1, invalid) ↦ rw invalid ((λ j. refl), (λ j. refl), (λ k. inr refl))
      | inl (ds, built) ↦ elim (Result-cases (parts.datasets.create ds s).0) [
        | inr (e1, refused) ↦
            let (d, v, o) = laws.dataset_not_created ds e1 s refused in
            rw (built, refused) (d, v, λ k. inr (o k))
        | inl (new, made) ↦
            let (same, nonzero, free, d, v, o) = laws.dataset_created ds new s made in
            rw (built, made)
              (fill_dataset-Undone new (parts.datasets.create ds s).1 e
                (created_dataset-OnlyNew ds new made _) nonzero free (ground arith))
      ]
    ]
