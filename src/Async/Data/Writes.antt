-- ===== src/Async/Data/Writes.antt =====
-- cmd/data/main.go over postqbuild/dataset_repo.go: what the commands on datasets may do to the
-- stored dataset with a number, whether they succeed or not.
use dataset_service.Base.{
  ℕ, String, ◌≡◌, refl, ap, sym, ◌∙◌, ◌⊎◌, inl, inr, Option, none, some, [], ◌∷◌, arith,
  Option-cases,
}
use dataset_service.Text.{Text}
use dataset_service.Exec.{ok, Result-cases}
use dataset_service.Entities.{Dataset, new_dataset}
use dataset_service.Postgres.Statements.{Pool}
use dataset_service.Postgres.Tables.{LawfulPool}
use dataset_service.Postgres.Datasets
use dataset_service.Postgres.Datasets.Changes.{
  DatasetTable, dataset_rows, overwrite, find_by_id-number,
}
use dataset_service.Postgres.Datasets.Writes.{create-one, update-one, delete-one}
use dataset_service.Async.Contracts.{
  Field, Fields, Schema, uint64, fit, get_field, decode, get_number, get_text, get_flag,
  dataset_create_fields, dataset_update_fields, id_fields,
}
use dataset_service.Async.Core.{required, unmarshal, passed}
use dataset_service.Async.Data.{Repos, decoded, postgres_repos}
use dataset_service.Async.Data.Commands.{
  dataset_create, dataset_update, dataset_delete, dataset_with,
}

-- The number that a payload names, as far as it fits.
named : Option Field → ℕ
named none = 0
named (some v) = get_number "id" (("id", v) ∷ [])

decode-named :
    (schema : Schema) (fields req : Fields)
    → decode (("id", uint64) ∷ schema) fields ≡ some req
    → get_number "id" req ≡ named (fit uint64 (get_field "id" fields))
unfolding decode get_number named
decode-named schema fields req h = elim (Option-cases (fit uint64 (get_field "id" fields))) [
  | inl unfit ↦ absurd (cc (rw unfit at h))
  | inr (v, fits) ↦ elim (Option-cases (decode schema fields)) [
    | inl rest ↦ absurd (cc (rw (fits, rest) at h))
    | inr (others, rest) ↦
        let same : some (("id", v) ∷ others) ≡ some req = rw (fits, rest) at h in
        let e : ("id", v) ∷ others ≡ req = cc in rw fits (ap (get_number "id") (sym e))
  ]
]

-- Two readings of the number of a payload agree, whatever else they decode.
pub same_number :
    (s : String) (t : Text) (a b : Schema) (payload : Option Fields) (req : Fields) (id : ℕ)
    → decoded s ("id" ∷ []) (("id", uint64) ∷ a) payload ≡ ok req
    → required t "id" (unmarshal (("id", uint64) ∷ b) payload) ≡ passed id
    → get_number "id" req ≡ id
unfolding decoded
same_number s t a b none req id h k = absurd (cc)
same_number s t a b (some fields) req id h k =
    elim (Option-cases (decode (("id", uint64) ∷ a) fields)) [
      | inl undecoded ↦ absurd (cc (rw undecoded at h))
      | inr (x, e) ↦ elim (Option-cases (decode (("id", uint64) ∷ b) fields)) [
        | inl undecoded ↦ absurd (cc (rw undecoded at k))
        | inr (y, f) ↦ ground (arith, decode-named a fields x e, decode-named b fields y f)
      ]
    ]

module _ {S : Type 0} (pool : Pool S) (laws : LawfulPool pool) (schema : DatasetTable laws)
    (at now : ℕ) (payload : Option Fields) (s : S) (j : ℕ) where
  abbrev repos : Repos S
  repos = postgres_repos pool

  -- The stored dataset with the number `j`.
  abbrev stored : S → Option Dataset
  stored t = dataset_rows pool laws schema t j

  pub dataset_create-one :
      (stored (dataset_create repos at now payload s).1 ≡ stored s) ⊎ (stored s ≡ none)
  unfolding dataset_create
  dataset_create-one =
      elim (Result-cases (decoded "invalid dataset payload" [] dataset_create_fields payload)) [
        | inr (e, x) ↦ inl (rw x refl)
        | inl (req, x) ↦
            elim (Result-cases (
              new_dataset (get_text "name" req) (get_text "description" req)
                (get_number "owner_id" req) (get_number "category_id" req)
                (get_flag "is_public" req) at now)) [
                  | inr (e, y) ↦ inl (rw (x, y) refl)
                  | inl (ds, y) ↦ elim (create-one pool laws schema ds s j) [
                    | inr free ↦ inr free
                    | inl kept ↦ elim (Result-cases (Datasets.create pool ds s).0) [
                      | inr (e, z) ↦ inl (rw (x, y, z) kept)
                      | inl (new, z) ↦ inl (rw (x, y, z) kept)
                    ]
                  ]
                ]
      ]

  -- An update keeps all but the dataset that it names, and the owner of that one.
  pub dataset_update-one :
      (stored (dataset_update repos at now payload s).1 ≡ stored s)
      ⊎ ((req : Fields) × (d : Dataset) × (decoded "invalid dataset payload"
              ("id" ∷ [])
              dataset_update_fields
              payload
            ≡ ok req)
          × (get_number "id" req ≡ j)
          × (stored (dataset_update repos at now payload s).1 ≡ overwrite d (stored s)))
  unfolding dataset_update
  dataset_update-one =
      elim (Result-cases
        (decoded "invalid dataset payload" ("id" ∷ []) dataset_update_fields payload)) [
          | inr (e, x) ↦ inl (rw x refl)
          | inl (req, x) ↦ elim (Result-cases (Datasets.find_by_id pool (get_number "id" req) s)) [
            | inr (e, y) ↦ inl (rw (x, y) refl)
            | inl (none, y) ↦ inl (rw (x, y) refl)
            | inl (some ds, y) ↦
                let (number, stands) =
                  find_by_id-number pool laws schema (get_number "id" req) s ds y in
                elim (Result-cases (Datasets.update pool (dataset_with req ds) s).0) [
                  | inr (e, z) ↦ elim (update-one pool laws schema (dataset_with req ds) s j) [
                    | inl kept ↦ inl (rw (x, y, z) kept)
                    | inr (here, wrote) ↦
                        inr (req, dataset_with req ds, x, sym number ∙ here, rw (x, y, z) wrote)
                  ]
                  | inl (u, z) ↦ elim (update-one pool laws schema (dataset_with req ds) s j) [
                    | inl kept ↦ inl (rw (x, y, z) kept)
                    | inr (here, wrote) ↦
                        inr (req, dataset_with req ds, x, sym number ∙ here, rw (x, y, z) wrote)
                  ]
                ]
          ]
        ]

  pub dataset_delete-one :
      (stored (dataset_delete repos at now payload s).1 ≡ stored s)
      ⊎ ((req : Fields) × (decoded "invalid dataset id" ("id" ∷ []) (id_fields "id") payload
            ≡ ok req)
          × (get_number "id" req ≡ j)
          × (stored (dataset_delete repos at now payload s).1 ≡ none))
  unfolding dataset_delete
  dataset_delete-one =
      elim (Result-cases (decoded "invalid dataset id" ("id" ∷ []) (id_fields "id") payload)) [
        | inr (e, x) ↦ inl (rw x refl)
        | inl (req, x) ↦ elim (Result-cases (Datasets.delete pool (get_number "id" req) s).0) [
          | inr (e, z) ↦ elim (delete-one pool laws schema (get_number "id" req) s j) [
            | inl kept ↦ inl (rw (x, z) kept)
            | inr (here, gone) ↦ inr (req, x, here, rw (x, z) gone)
          ]
          | inl (u, z) ↦ elim (delete-one pool laws schema (get_number "id" req) s j) [
            | inl kept ↦ inl (rw (x, z) kept)
            | inr (here, gone) ↦ inr (req, x, here, rw (x, z) gone)
          ]
        ]
      ]
