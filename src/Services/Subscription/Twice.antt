-- ===== src/Services/Subscription/Twice.antt =====
-- subscription_service_impl.go: subscribing and unsubscribing one after the other.
use dataset_service.Base.{
  ℕ, ◌≡◌, refl, ap, ◌∙◌, inl, inr, Bool, true, false, arith, ◌==◌, ◌||◌, ◌&&◌, if◌then◌else◌,
  Bool-cases,
}
use dataset_service.Errors.{service, ServiceError}
use dataset_service.Exec.{ok, err, Result-cases}
use dataset_service.Entities.{Subscription, new_subscription}
use dataset_service.Repositories.{SubscriptionRepository}
use dataset_service.Services.Subscription.{subscribe, unsubscribe}

-- The repository shows a set of pairs of a user and a dataset: an answer to the question whether a
-- pair is in it is right, and a call that succeeds adds or removes its pair and no other.
pub record LawfulSubscriptions {S : Type 0} (r : SubscriptionRepository S) : Type 0 where
  pub has : S → ℕ → ℕ → Bool
  pub answered :
      (user_id dataset_id : ℕ) (s : S) (b : Bool)
      → r.is_subscribed user_id dataset_id s ≡ ok b
      → has s user_id dataset_id ≡ b
  pub created :
      (sub new : Subscription) (s : S)
      → (r.create sub s).0 ≡ ok new
      → let t = (r.create sub s).1 in
        (u d : ℕ) → has t u d ≡ ((sub.user_id == u && sub.dataset_id == d) || has s u d)
  pub removed :
      (user_id dataset_id : ℕ) (s : S)
      → (r.unsubscribe user_id dataset_id s).0 ≡ ok tt
      → let t = (r.unsubscribe user_id dataset_id s).1 in
        (u d : ℕ) → has t u d ≡ (if user_id == u && dataset_id == d then false else has s u d)

new_subscription-fields :
    (user_id dataset_id created_at now : ℕ) (sub : Subscription)
    → new_subscription user_id dataset_id created_at now ≡ ok sub
    → (sub.user_id ≡ user_id) × (sub.dataset_id ≡ dataset_id)
unfolding new_subscription
new_subscription-fields user_id dataset_id created_at now sub h = ground arith

module _ {S : Type 0} (repo : SubscriptionRepository S) (laws : LawfulSubscriptions repo) where
  open laws use {has}

  -- A `Subscribe` that succeeds was made by a user who was not subscribed, with numbers other than
  -- zero, and it adds the pair of its user and dataset and no other.
  pub subscribe-has :
      (user_id dataset_id created_at now : ℕ) (s : S) (u d : ℕ)
      → (subscribe repo user_id dataset_id created_at now s).0 ≡ ok tt
      → ((user_id == 0) ≡ false)
        × ((dataset_id == 0) ≡ false)
        × (has s user_id dataset_id ≡ false)
        × (has (subscribe repo user_id dataset_id created_at now s).1 u d
            ≡ ((user_id == u && dataset_id == d) || has s u d))
  unfolding subscribe
  subscribe-has user_id dataset_id created_at now s u d done =
      elim (Result-cases (repo.is_subscribed user_id dataset_id s)) [
        | inr (e, failed) ↦ absurd (ground arith)
        | inl (true, answer) ↦ absurd (ground arith)
        | inl (false, answer) ↦
            elim (Result-cases (new_subscription user_id dataset_id created_at now)) [
              | inr (e, invalid) ↦ absurd (ground arith)
              | inl (sub, built) ↦ elim (Result-cases (repo.create sub s).0) [
                | inr (e, refused) ↦ absurd (ground arith)
                | inl (new, made) ↦
                    let (user, dataset) =
                      new_subscription-fields user_id dataset_id created_at now sub built in
                    (
                      ground arith,
                      ground arith,
                      laws.answered user_id dataset_id s false answer,
                      ground (arith, laws.created sub new s made u d, user, dataset),
                    )
              ]
            ]
      ]

  -- An `Unsubscribe` that succeeds was made by a user who was subscribed, and it removes the pair
  -- of its user and dataset and no other.
  pub unsubscribe-has :
      (user_id dataset_id : ℕ) (s : S) (u d : ℕ)
      → (unsubscribe repo user_id dataset_id s).0 ≡ ok tt
      → (has s user_id dataset_id ≡ true)
        × (has (unsubscribe repo user_id dataset_id s).1 u d
            ≡ (if user_id == u && dataset_id == d then false else has s u d))
  unfolding unsubscribe
  unsubscribe-has user_id dataset_id s u d done =
      elim (Result-cases (repo.is_subscribed user_id dataset_id s)) [
        | inr (e, failed) ↦ absurd (ground arith)
        | inl (false, answer) ↦ absurd (ground arith)
        | inl (true, answer) ↦ elim (Result-cases (repo.unsubscribe user_id dataset_id s).0) [
          | inr (e, refused) ↦ absurd (ground arith)
          | inl (_, gone) ↦ (
            laws.answered user_id dataset_id s true answer,
            ground (arith, laws.removed user_id dataset_id s gone u d),
          )
        ]
      ]

  again :
      (user_id dataset_id later check : ℕ) (t : S) (b : Bool)
      → (user_id == 0) ≡ false
      → (dataset_id == 0) ≡ false
      → repo.is_subscribed user_id dataset_id t ≡ ok b
      → b ≡ true
      → subscribe repo user_id dataset_id later check t
        ≡ (err (service ServiceError.already_subscribed), t)
  unfolding subscribe
  again user_id dataset_id later check t b user dataset answer there = ground arith

  -- After a `Subscribe` that succeeds, a second one of the same pair fails and changes nothing, as
  -- long as the repository answers: the user is subscribed already.
  pub subscribe_twice :
      (user_id dataset_id created_at now later check : ℕ) (s : S) (b : Bool)
      → let t = (subscribe repo user_id dataset_id created_at now s).1 in
        (subscribe repo user_id dataset_id created_at now s).0 ≡ ok tt
        → repo.is_subscribed user_id dataset_id t ≡ ok b
        → subscribe repo user_id dataset_id later check t
          ≡ (err (service ServiceError.already_subscribed), t)
  subscribe_twice user_id dataset_id created_at now later check s b done answer =
      let t = (subscribe repo user_id dataset_id created_at now s).1 in
      let (user, dataset, new, has_it) =
        subscribe-has user_id dataset_id created_at now s user_id dataset_id done in
      let right = laws.answered user_id dataset_id t b answer in
      again user_id dataset_id later check t b user dataset answer (ground (arith, right, has_it))

  -- A pair that was not there before is not there again.
  same_pair :
      (user_id dataset_id : ℕ) (s : S) (u d : ℕ) {b : Bool}
      → (user_id == u && dataset_id == d) ≡ true
      → has s user_id dataset_id ≡ false
      → b ≡ false
      → b ≡ has s u d
  same_pair user_id dataset_id s u d here new gone =
      let first : user_id ≡ u = ground arith in
      let second : dataset_id ≡ d = ground arith in
      ground (arith, ap (λ k. has s k dataset_id) first, ap (λ k. has s u k) second)

  -- A `Subscribe` that succeeds and then an `Unsubscribe` of the same pair that succeeds leave the
  -- subscriptions as they were.
  pub unsubscribe-subscribe :
      (user_id dataset_id created_at now : ℕ) (s : S) (u d : ℕ)
      → let t = (subscribe repo user_id dataset_id created_at now s).1 in
        (subscribe repo user_id dataset_id created_at now s).0 ≡ ok tt
        → (unsubscribe repo user_id dataset_id t).0 ≡ ok tt
        → has (unsubscribe repo user_id dataset_id t).1 u d ≡ has s u d
  unsubscribe-subscribe user_id dataset_id created_at now s u d done undone =
      let t = (subscribe repo user_id dataset_id created_at now s).1 in
      let (_, _, new, added) = subscribe-has user_id dataset_id created_at now s u d done in
      let (_, dropped) = unsubscribe-has user_id dataset_id t u d undone in
      elim (Bool-cases (user_id == u && dataset_id == d)) [
        | inl here ↦ same_pair user_id dataset_id s u d here new (dropped ∙ rw here refl)
        | inr other ↦ ground (arith, dropped, added)
      ]
