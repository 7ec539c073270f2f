-- ===== src/Services/Subscription.antt =====
-- internal/services/subscription_service_impl.go and subscription_helpers.go: subscriptions of
-- users to datasets.
pub mod Codes
pub mod Twice
mod Tests
use dataset_service.Base.{
  ℕ, zero, suc, ◌+◌, ◌*◌, ◌/◌, ◌%◌, ◌^◌, Bool, true, false, List, [], ◌∷◌, ◌==◌, ◌||◌,
  if◌then◌else◌,
}
use dataset_service.Errors.{Error, service, message, wrap, is_repo, RepoError, ServiceError}
use dataset_service.Exec.{
  Result, ok, err, Exec, pure, raise, read, lift, map_error, on_error, ◌>>=◌, ◌>>◌,
}
use dataset_service.Entities.{Subscription, new_subscription}
use dataset_service.Repositories.{SubscriptionRepository}

-- One bit of `a | b` from the last bits of both.
abbrev bit_or : ℕ → ℕ → ℕ
bit_or zero zero = 0
bit_or zero (suc n) = 1
bit_or (suc m) n = 1

-- `a | b` on the last `bits` bits.
or_bits : ℕ → ℕ → ℕ → ℕ
or_bits zero a b = 0
or_bits (suc bits) a b = bit_or (a % 2) (b % 2) + 2 * or_bits bits (a / 2) (b / 2)

-- `EncodeSubscriptionID`
unfoldable pub encode_subscription_id : ℕ → ℕ → ℕ
unfolding or_bits
encode_subscription_id user_id dataset_id = or_bits 64 (user_id * 2 ^ 32 % 2 ^ 64) dataset_id

-- `DecodeSubscriptionID`; masking with 32 ones keeps the remainder.
unfoldable pub decode_subscription_id : ℕ → ℕ × ℕ
decode_subscription_id id = (id / 2 ^ 32, id % 2 ^ 32)

module _ {S : Type 0} (repo : SubscriptionRepository S) where
  abbrev create_error : Error → Error
  create_error e =
      if is_repo RepoError.already_subscribed e
      then service ServiceError.already_subscribed
      else wrap "subscribe: %w" e

  abbrev subscribe_new : Bool → ℕ → ℕ → ℕ → ℕ → Exec S Unit
  subscribe_new true user_id dataset_id created_at now =
      raise (service ServiceError.already_subscribed)
  subscribe_new false user_id dataset_id created_at now = do
    sub ← lift (new_subscription user_id dataset_id created_at now)
    on_error create_error (repo.create sub)
    pure tt

  -- `Subscribe`, with two readings of the clock.
  unfoldable pub subscribe : ℕ → ℕ → ℕ → ℕ → Exec S Unit
  subscribe user_id dataset_id created_at now s =
      if user_id == 0 || dataset_id == 0
      then raise (message "invalid IDs: user=%d, dataset=%d" (user_id ∷ dataset_id ∷ [])) s
      else (do
        exists ←
            on_error (wrap "check subscription: %w") (read (repo.is_subscribed user_id dataset_id))
        subscribe_new exists user_id dataset_id created_at now)
          s

  abbrev unsubscribe_error : Error → Error
  unsubscribe_error e =
      if is_repo RepoError.subscription_not_found e
      then service ServiceError.not_subscribed
      else wrap "unsubscribe: %w" e

  abbrev unsubscribe_old : Bool → ℕ → ℕ → Exec S Unit
  unsubscribe_old false user_id dataset_id = raise (service ServiceError.not_subscribed)
  unsubscribe_old true user_id dataset_id =
      on_error unsubscribe_error (repo.unsubscribe user_id dataset_id)

  unfoldable pub unsubscribe : ℕ → ℕ → Exec S Unit
  unsubscribe user_id dataset_id s =
      if user_id == 0 || dataset_id == 0
      then raise (message "invalid IDs: user=%d, dataset=%d" (user_id ∷ dataset_id ∷ [])) s
      else (do
        exists ←
            on_error (wrap "check subscription: %w") (read (repo.is_subscribed user_id dataset_id))
        unsubscribe_old exists user_id dataset_id)
          s

  unfoldable pub list_subscribers : ℕ → S → Result (List Subscription)
  list_subscribers dataset_id s =
      if dataset_id == 0
      then err (message "invalid datasetID: %d" (dataset_id ∷ []))
      else map_error (wrap "list subscribers: %w") (repo.get_subscribers dataset_id s)

  unfoldable pub list_subscriptions : ℕ → S → Result (List Subscription)
  list_subscriptions user_id s =
      if user_id == 0
      then err (message "invalid userID: %d" (user_id ∷ []))
      else map_error (wrap "list subscriptions: %w") (repo.get_by_user user_id s)

  unfoldable pub list_all_subscriptions : S → Result (List Subscription)
  list_all_subscriptions s = map_error (wrap "list all subscriptions: %w") (repo.get_all s)

  unfoldable pub is_subscribed : ℕ → ℕ → S → Result Bool
  is_subscribed user_id dataset_id s =
      map_error (wrap "check subscription: %w") (repo.is_subscribed user_id dataset_id s)
