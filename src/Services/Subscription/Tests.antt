-- ===== src/Services/Subscription/Tests.antt =====
-- subscription_service_impl.go and subscription_helpers.go: the theorems at a repository that
-- keeps the set of pairs as a test.
use dataset_service.Base.{
  ℕ, ◌<◌, ◌^◌, ◌≡◌, refl, Bool, false, [], arith, ◌==◌, ◌||◌, ◌&&◌, if◌then◌else◌,
}
use dataset_service.Exec.{ok, err}
use dataset_service.Entities.{new_subscription}
use dataset_service.Repositories.{SubscriptionRepository}
use dataset_service.Services.Subscription.{
  subscribe, unsubscribe, encode_subscription_id, decode_subscription_id,
}
use dataset_service.Services.Subscription.Codes.{decode-encode_subscription_id}
use dataset_service.Services.Subscription.Twice.{LawfulSubscriptions, unsubscribe-subscribe}

abbrev Pairs : Type 0
Pairs = ℕ → ℕ → Bool

abbrev with_pair : ℕ → ℕ → Pairs → Pairs
with_pair user_id dataset_id s u d = (user_id == u && dataset_id == d) || s u d

abbrev without_pair : ℕ → ℕ → Pairs → Pairs
without_pair user_id dataset_id s u d = if user_id == u && dataset_id == d then false else s u d

abbrev repo : SubscriptionRepository Pairs
repo = record {
  create = λ sub s. (ok (record sub { id = 1 }), with_pair sub.user_id sub.dataset_id s);
  is_subscribed = λ user_id dataset_id s. ok (s user_id dataset_id);
  get_subscribers = λ dataset_id s. ok [];
  unsubscribe = λ user_id dataset_id s. (ok tt, without_pair user_id dataset_id s);
  get_by_user = λ user_id s. ok [];
  get_all = λ s. ok [];
}

answered_at : (b c : Bool) → Path (dataset_service.Exec.Result Bool) (ok b) (ok c) → b ≡ c
answered_at b c h = ground arith

abbrev laws : LawfulSubscriptions repo
laws = record {
  has = λ s. s;
  answered = λ user_id dataset_id s b h. answered_at (s user_id dataset_id) b h;
  created = λ sub new s h u d. refl;
  removed = λ user_id dataset_id s h u d. refl;
}

abbrev nobody : Pairs
nobody u d = false

abbrev fans : Pairs
fans = with_pair 3 5 nobody

decode-encode_subscription_id_example :
    (decode_subscription_id (encode_subscription_id 3 5) ≡ (3, 5))
    × (encode_subscription_id 3 5 < 2 ^ 64)
decode-encode_subscription_id_example =
    decode-encode_subscription_id 3 5 (omega arith) (omega arith)

unsubscribe-subscribe_example :
    (unsubscribe repo 3 5 (subscribe repo 3 5 1 2 nobody).1).1 3 5 ≡ nobody 3 5
unfolding subscribe unsubscribe new_subscription
unsubscribe-subscribe_example = unsubscribe-subscribe repo laws 3 5 1 2 nobody 3 5 refl refl
