-- ===== src/Services/Dataset/Undo/Success.antt =====
-- dataset_service_impl.go: what stands in the tables and in the bucket after a `CreateDataset` that
-- succeeds.
use dataset_service.Base.{
  ℕ, ◌≡◌, refl, ◌∙◌, inl, inr, Bool, true, some, [], arith, ◌==◌, ◌&&◌, Bool-cases,
}
use dataset_service.Text.{Text, is_empty, is_space, trim_space}
use dataset_service.Text.Trim.{IsSolid, trim_space_of_IsSolid}
use dataset_service.Exec.{Exec, ok, Result-cases}
use dataset_service.Entities.{
  Dataset, DatasetVersion, new_dataset, new_metadata, new_dataset_version,
}
use dataset_service.Services.Dataset.{
  CreateDataset, Clock, Parts, persist_metadata, cleanup_dataset, build_dataset_version,
  fill_dataset, create_dataset, init_dataset_entity,
}
use dataset_service.Services.Dataset.Naming.{initial_dataset_version, dataset_object_key}
use dataset_service.Services.Dataset.Undo.Stores.{Same, LawfulStores}

initial-IsSolid : IsSolid initial_dataset_version
unfolding is_space
initial-IsSolid = (refl, (refl, (refl, (refl, tt))))

initial_version-fields :
    (url log : Text) (id uploaded now : ℕ) (ver : DatasetVersion)
    → new_dataset_version initial_dataset_version url log id uploaded now ≡ ok ver
    → (ver.number ≡ initial_dataset_version) × (ver.dataset_id ≡ id)
unfolding new_dataset_version
initial_version-fields url log id uploaded now ver h =
    ground (arith, trim_space_of_IsSolid initial_dataset_version initial-IsSolid)

new_dataset-fields :
    (name description : Text) (owner category : ℕ) (is_public : Bool) (at now : ℕ) (ds : Dataset)
    → new_dataset name description owner category is_public at now ≡ ok ds
    → (ds.name ≡ trim_space name) × (ds.owner_id ≡ owner) × (ds.is_public ≡ is_public)
unfolding new_dataset
new_dataset-fields name description owner category is_public at now ds h = ground arith

module _ {S : Type 0} (parts : Parts S) (laws : LawfulStores parts) where
  open laws use {views}
  open views use {dataset_row, version_row, object}

  persist_metadata_done :
      (format tags : Text) (size version_id : ℕ) (undo : Exec S Unit) (t : S)
      → (persist_metadata parts format tags size version_id undo t).0 ≡ ok tt
      → Same views t (persist_metadata parts format tags size version_id undo t).1
  unfolding persist_metadata
  persist_metadata_done format tags size version_id undo t h =
      elim (Bool-cases (is_empty format && size == 0)) [
        | inl no_metadata ↦ rw no_metadata ((λ j. refl), (λ j. refl), (λ k. refl))
        | inr given ↦ elim (Result-cases (new_metadata format tags size version_id)) [
          | inr (e, invalid) ↦ absurd (ground arith)
          | inl (md, made) ↦ elim (Result-cases (parts.metadata.create md t).0) [
            | inr (e, failed) ↦ absurd (ground arith)
            | inl (new, done) ↦
                let state : (persist_metadata parts format tags size version_id undo t).1
                    ≡ (parts.metadata.create md t).1 =
                  ground arith in
                rw state (laws.metadata_created md t)
          ]
        ]
      ]

  -- The dataset stands under its number, with a version and with the uploaded file.
  pub record IsComplete (cmd : CreateDataset) (id : ℕ) (t : S) : Type 0 where
    pub ds : Dataset
    pub ver : DatasetVersion
    pub version_id : ℕ
    pub dataset_stored : dataset_row t id ≡ some ds
    pub named : ds.name ≡ trim_space cmd.name
    pub owned : ds.owner_id ≡ cmd.actor_id
    pub access : ds.is_public ≡ cmd.is_public
    pub version_stored : version_row t version_id ≡ some ver
    pub numbered : ver.number ≡ initial_dataset_version
    pub of_dataset : ver.dataset_id ≡ id
    pub file_stored : object t (dataset_object_key id initial_dataset_version cmd.file_name) ≡ true

  module _ (cmd : CreateDataset) (size : ℕ) (clock : Clock) (s : S) where
    abbrev key_of : ℕ → Text
    key_of id = dataset_object_key id initial_dataset_version cmd.file_name

    -- What is there once the version is stored and the rest succeeds.
    version_stored-done :
        (ds : Dataset) (url : Text) (ver stored : DatasetVersion) (t : S)
        → let u = (parts.storage.upload (key_of ds.id) size t).1 in
          let w = (parts.versions.create ver u).1 in
          let x =
            (persist_metadata parts cmd.meta_format cmd.meta_tags cmd.meta_size stored.id
              (cleanup_dataset parts ds.id (key_of ds.id) stored.id)
              w).1 in
          (parts.storage.upload (key_of ds.id) size t).0 ≡ ok url
          → (parts.versions.create ver u).0 ≡ ok stored
          → (persist_metadata parts cmd.meta_format cmd.meta_tags cmd.meta_size stored.id
              (cleanup_dataset parts ds.id (key_of ds.id) stored.id)
              w).0
            ≡ ok tt
          → ((j : ℕ) → dataset_row x j ≡ dataset_row t j)
            × (version_row x stored.id ≡ some stored)
            × (stored ≡ record ver { id = stored.id })
            × (object x (key_of ds.id) ≡ true)
    version_stored-done ds url ver stored t up made done =
        let u = (parts.storage.upload (key_of ds.id) size t).1 in
        let w = (parts.versions.create ver u).1 in
        let (d1, v1, o1) = laws.uploaded (key_of ds.id) size t in
        let (same, free, rows, d2, o2) = laws.version_created ver stored u made in
        let (d3, v3, o3) =
          persist_metadata_done cmd.meta_format cmd.meta_tags cmd.meta_size stored.id
            (cleanup_dataset parts ds.id (key_of ds.id) stored.id) w done in
        (
          λ j. d3 j ∙ (d2 j ∙ d1 j),
          ground (arith, v3 stored.id, rows stored.id),
          same,
          o3 (key_of ds.id) ∙ (o2 (key_of ds.id) ∙ laws.stored (key_of ds.id) url size t up),
        )

    fill_dataset-done :
        (ds : Dataset) (t : S) (id : ℕ)
        → (fill_dataset parts cmd size clock ds t).0 ≡ ok id
        → let x = (fill_dataset parts cmd size clock ds t).1 in
          (ds.id ≡ id)
          × ((j : ℕ) → dataset_row x j ≡ dataset_row t j)
          × (stored : DatasetVersion) × (version_row x stored.id ≡ some stored)
          × (stored.number ≡ initial_dataset_version)
          × (stored.dataset_id ≡ id)
          × (object x (key_of id) ≡ true)
    fill_dataset-done ds t id done =
        elim (Result-cases (parts.storage.upload (key_of ds.id) size t).0) [
          | inr (e, no_upload) ↦ absurd (unfold fill_dataset in ground arith)
          | inl (url, up) ↦
              let u = (parts.storage.upload (key_of ds.id) size t).1 in
              elim (Result-cases
                (build_dataset_version parts initial_dataset_version url [] ds.id clock)) [
                  | inr (e, invalid) ↦ absurd (unfold fill_dataset in ground arith)
                  | inl (ver, built) ↦ elim (Result-cases (parts.versions.create ver u).0) [
                    | inr (e, refused) ↦ absurd (unfold fill_dataset in ground arith)
                    | inl (stored, made) ↦
                        let w = (parts.versions.create ver u).1 in
                        let rest =
                          persist_metadata parts cmd.meta_format cmd.meta_tags cmd.meta_size
                            stored.id (cleanup_dataset parts ds.id (key_of ds.id) stored.id) w in
                        elim (Result-cases rest.0) [
                          | inr (e, failed) ↦ absurd (unfold fill_dataset in ground arith)
                          | inl (_, last) ↦
                              let end : (ds.id ≡ id)
                                  × ((fill_dataset parts cmd size clock ds t).1 ≡ rest.1) =
                                unfold fill_dataset in ground arith in
                              let (d, v, same, o) =
                                version_stored-done ds url ver stored t up made last in
                              let (number, of) =
                                initial_version-fields url [] ds.id clock.uploaded
                                  clock.uploaded_check ver (ground arith) in
                              (
                                end.0,
                                rw (end.1) d,
                                stored,
                                rw (end.1) v,
                                ground arith,
                                ground arith,
                                rw (← end.0, end.1) o,
                              )
                        ]
                  ]
                ]
        ]

    -- If `CreateDataset` answers with a number, the dataset stands under it with the trimmed name,
    -- the owner and the access that were asked for; it has a version numbered v0.1, and the
    -- bucket holds the uploaded file under the key of that version.
    pub create_dataset-IsComplete :
        (id : ℕ)
        → (create_dataset parts cmd size clock s).0 ≡ ok id
        → IsComplete cmd id (create_dataset parts cmd size clock s).1
    unfolding create_dataset
    create_dataset-IsComplete id done = elim (Result-cases (init_dataset_entity parts cmd clock)) [
      | inr (e, invalid) ↦ absurd (ground arith)
      | inl (ds, built) ↦ elim (Result-cases (parts.datasets.create ds s).0) [
        | inr (e, refused) ↦ absurd (ground arith)
        | inl (new, made) ↦
            let (same, nonzero, free, rows, v, o) = laws.dataset_created ds new s made in
            let (here, kept, stored, row, number, of, file) =
              fill_dataset-done new (parts.datasets.create ds s).1 id (ground arith) in
            let (name, owner, access) =
              new_dataset-fields cmd.name cmd.description cmd.actor_id cmd.category_id cmd.is_public
                clock.created clock.created_check ds (ground arith) in
            rw (built, made)
              (record {
                ds = new;
                ver = stored;
                version_id = stored.id;
                dataset_stored = ground (arith, kept id, rows id);
                named = ground arith;
                owned = ground arith;
                access = ground arith;
                version_stored = row;
                numbered = number;
                of_dataset = of;
                file_stored = file;
              })
      ]
    ]
