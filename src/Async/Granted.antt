-- ===== src/Async/Granted.antt =====
-- cmd/core/main.go: the right that a message of a type needs, and that `enforceAccess` asks for it.
use dataset_service.Base.{
  ℕ, ◌≡◌, ◌≢◌, ◌⊎◌, inl, inr, Bool, Option, none, some, List, arith, ◌==◌, Bool-cases,
}
use dataset_service.Text.{Text, codes, text_eq, text_eq_iff}
use dataset_service.Entities.{Dataset, role_admin, role_guest}
use dataset_service.Async.Contracts.{
  Kind, access_update_request, dataset_update_request, dataset_delete_request, version_add_request,
  version_delete_request, subscription_create_request, subscription_delete_request,
  category_create_request, category_update_request, category_delete_request, user_create_request,
  user_update_request, user_delete_request, Envelope, Rpc, dataset_update_fields,
  version_add_fields, version_delete_fields,
}
use dataset_service.Async.Core.{
  Core, passed, Step, role_of, require_actor, require_admin_role, required, unmarshal, owner_check,
  fetch_dataset, fetch_dataset_id_by_version, ensure_dataset_owner, own_dataset, own_version,
  own_version_target, user_of, same_user, access_of,
}
use dataset_service.Async.Asking.{Checked-cases}

guest_refused : (msg : Envelope) → role_of msg ≡ role_guest → require_actor msg ≡ passed tt → ⊥
unfolding require_actor
guest_refused msg e h = ground (arith, (text_eq_iff (role_of msg) role_guest).1 e)

pub require_actor-passed :
    (msg : Envelope)
    → require_actor msg ≡ passed tt
    → (msg.actor_id ≢ 0) × (role_of msg ≢ role_guest)
unfolding require_actor
require_actor-passed msg h = (λ e. cc (rw e at h), λ e. guest_refused msg e h)

require_admin_role-passed :
    (msg : Envelope) → require_admin_role msg ≡ passed tt → role_of msg ≡ role_admin
require_admin_role-passed msg h = elim (Bool-cases (text_eq (role_of msg) role_admin)) [
  | inl e ↦ (text_eq_iff (role_of msg) role_admin).0 e
  | inr e ↦ absurd (ground arith)
]

same_user-passed :
    (msg : Envelope)
    → same_user msg ≡ passed tt
    → (user_of msg.payload ≡ 0)
      ⊎ ((user_of msg.payload ≡ msg.actor_id) ⊎ (role_of msg ≡ role_admin))
same_user-passed msg h = elim (Bool-cases (user_of msg.payload == 0)) [
  | inl e ↦ inl (ground arith)
  | inr e ↦ elim (Bool-cases (user_of msg.payload == msg.actor_id)) [
    | inl f ↦ inr (inl (ground arith))
    | inr f ↦ elim (Bool-cases (text_eq (role_of msg) role_admin)) [
      | inl g ↦ inr (inr ((text_eq_iff (role_of msg) role_admin).0 g))
      | inr g ↦ absurd (cc (rw (e, f, g) at h))
    ]
  ]
]

owner_or_admin :
    (msg : Envelope) (ds : Dataset)
    → owner_check msg (some ds) ≡ passed tt
    → (ds.owner_id ≡ msg.actor_id) ⊎ (role_of msg ≡ role_admin)
owner_or_admin msg ds h = elim (Bool-cases (ds.owner_id == msg.actor_id)) [
  | inl e ↦ inl (ground arith)
  | inr e ↦ elim (Bool-cases (text_eq (role_of msg) role_admin)) [
    | inl f ↦ inr ((text_eq_iff (role_of msg) role_admin).0 f)
    | inr f ↦ absurd (ground arith)
  ]
]

module _ (data_service : List Envelope → Envelope → Rpc) (uuid : List Envelope → ℕ → Text)
    (publishes : Envelope → Bool) where
  abbrev fetch : Envelope → ℕ → Step (Option Dataset)
  fetch msg id = fetch_dataset data_service uuid publishes msg id

  -- The data process has the dataset, and its owner is the actor, or the actor is an admin.
  pub record MayChange (msg : Envelope) (dataset_id : ℕ) (c : Core) : Type 0 where
    pub ds : Dataset
    pub fetched : (fetch msg dataset_id c).0 ≡ passed (some ds)
    pub entitled : (ds.owner_id ≡ msg.actor_id) ⊎ (role_of msg ≡ role_admin)

  -- The right that a message of a type needs.
  abbrev pub Right : Kind → Envelope → Core → Type 0
  Right category_create_request msg c = role_of msg ≡ role_admin
  Right category_update_request msg c = role_of msg ≡ role_admin
  Right category_delete_request msg c = role_of msg ≡ role_admin
  Right user_create_request msg c = role_of msg ≡ role_admin
  Right user_update_request msg c = role_of msg ≡ role_admin
  Right user_delete_request msg c = role_of msg ≡ role_admin
  Right access_update_request msg c = role_of msg ≡ role_admin
  Right dataset_update_request msg c =
      (id : ℕ) × (required (codes "invalid dataset payload") "id"
          (unmarshal dataset_update_fields msg.payload)
        ≡ passed id)
      × MayChange msg id c
  Right dataset_delete_request msg c =
      (id : ℕ) × (required (codes "invalid dataset payload") "id"
          (unmarshal dataset_update_fields msg.payload)
        ≡ passed id)
      × MayChange msg id c
  Right version_add_request msg c =
      (id : ℕ) × (required (codes "invalid version payload") "dataset_id"
          (unmarshal version_add_fields msg.payload)
        ≡ passed id)
      × MayChange msg id c
  Right version_delete_request msg c =
      (id : ℕ) × (d : ℕ) × (required (codes "invalid version payload") "version_id"
          (unmarshal version_delete_fields msg.payload)
        ≡ passed id)
      × ((fetch_dataset_id_by_version data_service uuid publishes msg id c).0 ≡ passed d)
      × MayChange msg d (fetch_dataset_id_by_version data_service uuid publishes msg id c).1
  Right subscription_create_request msg c =
      (user_of msg.payload ≡ 0)
      ⊎ ((user_of msg.payload ≡ msg.actor_id) ⊎ (role_of msg ≡ role_admin))
  Right subscription_delete_request msg c =
      (user_of msg.payload ≡ 0)
      ⊎ ((user_of msg.payload ≡ msg.actor_id) ⊎ (role_of msg ≡ role_admin))
  Right _ msg c = Unit

  owner_check-passed :
      (msg : Envelope) (id : ℕ) (c : Core) (o : Option Dataset)
      → (fetch msg id c).0 ≡ passed o
      → owner_check msg o ≡ passed tt
      → MayChange msg id c
  owner_check-passed msg id c none f h = absurd (cc)
  owner_check-passed msg id c (some ds) f h = record {
    ds = ds;
    fetched = f;
    entitled = owner_or_admin msg ds h;
  }

  ensure-MayChange :
      (msg : Envelope) (id : ℕ) (c : Core)
      → (ensure_dataset_owner data_service uuid publishes msg id c).0 ≡ passed tt
      → MayChange msg id c
  unfolding ensure_dataset_owner
  ensure-MayChange msg id c h = elim (Checked-cases (fetch msg id c).0) [
    | inr (t, e) ↦ absurd (ground arith)
    | inl (o, e) ↦ owner_check-passed msg id c o e (rw e at h)
  ]

  own_dataset-Right :
      (msg : Envelope) (c : Core)
      → (own_dataset data_service uuid publishes msg c).0 ≡ passed tt
      → Right dataset_update_request msg c
  own_dataset-Right msg c h =
      elim (Checked-cases (
        required (codes "invalid dataset payload") "id"
          (unmarshal dataset_update_fields msg.payload))) [
            | inr (t, e) ↦ absurd (ground arith)
            | inl (id, e) ↦ (id, e, ensure-MayChange msg id c (rw e at h))
          ]

  own_version_target-Right :
      (msg : Envelope) (c : Core)
      → (own_version_target data_service uuid publishes msg c).0 ≡ passed tt
      → Right version_add_request msg c
  own_version_target-Right msg c h =
      elim (Checked-cases (
        required (codes "invalid version payload") "dataset_id"
          (unmarshal version_add_fields msg.payload))) [
            | inr (t, e) ↦ absurd (ground arith)
            | inl (id, e) ↦ (id, e, ensure-MayChange msg id c (rw e at h))
          ]

  own_version-Right :
      (msg : Envelope) (c : Core)
      → (own_version data_service uuid publishes msg c).0 ≡ passed tt
      → Right version_delete_request msg c
  own_version-Right msg c h =
      elim (Checked-cases (
        required (codes "invalid version payload") "version_id"
          (unmarshal version_delete_fields msg.payload))) [
            | inr (t, e) ↦ absurd (ground arith)
            | inl (id, e) ↦
                elim (Checked-cases
                  (fetch_dataset_id_by_version data_service uuid publishes msg id c).0) [
                    | inr (t, f) ↦ absurd (ground arith)
                    | inl (d, f) ↦ (
                      id,
                      d,
                      e,
                      f,
                      ensure-MayChange msg d
                          (fetch_dataset_id_by_version data_service uuid publishes msg id c).1
                          (rw (e, f) at h),
                    )
                  ]
          ]

  pub access_of-Right :
      (k : Kind) (msg : Envelope) (c : Core)
      → (access_of data_service uuid publishes k msg c).0 ≡ passed tt
      → Right k msg c
  access_of-Right category_create_request msg c h = require_admin_role-passed msg h
  access_of-Right category_update_request msg c h = require_admin_role-passed msg h
  access_of-Right category_delete_request msg c h = require_admin_role-passed msg h
  access_of-Right user_create_request msg c h = require_admin_role-passed msg h
  access_of-Right user_update_request msg c h = require_admin_role-passed msg h
  access_of-Right user_delete_request msg c h = require_admin_role-passed msg h
  access_of-Right access_update_request msg c h = require_admin_role-passed msg h
  access_of-Right dataset_update_request msg c h = own_dataset-Right msg c h
  access_of-Right dataset_delete_request msg c h = own_dataset-Right msg c h
  access_of-Right version_add_request msg c h = own_version_target-Right msg c h
  access_of-Right version_delete_request msg c h = own_version-Right msg c h
  access_of-Right subscription_create_request msg c h = same_user-passed msg h
  access_of-Right subscription_delete_request msg c h = same_user-passed msg h
  access_of-Right _ msg c h = tt
