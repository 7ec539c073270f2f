-- ===== src/Async/Gateway/Pending.antt =====
-- cmd/gateway/main.go: the requests that wait for a reply, `gatewayApp.pending`. Each has a channel
-- of capacity one; `rpc` registers it, waits on it and removes it, and the listener of replies
-- sends to it without waiting.
use dataset_service.Base.{
  ◌≡◌, refl, inl, inr, Bool, false, Option, none, some, List, [], ◌∷◌, arith, if◌then◌else◌,
  Bool-cases,
}
use dataset_service.Base.Dict.{Dict, lookup, insert, delete, lookup-insert, lookup-delete}
use dataset_service.Text.{Text, codes, is_empty, text_eq, text_eq_iff, text_keys}
use dataset_service.Async.Contracts.{Envelope, Rpc, answered, failed}

-- The channels by the correlation identifiers; a channel is empty or holds a reply.
abbrev pub Pending : Type 0
Pending = Dict Text (Option Envelope)

-- `a.pending.Store(msg.CorrelationID, waitCh)`
unfoldable pub register_waiter : Text → Pending → Pending
register_waiter corr p = insert corr none p

-- The send with a `default` case: a channel that is full drops the reply.
abbrev offer : Envelope → Option (Option Envelope) → Pending → Pending
offer msg none p = p
offer msg (some none) p = insert msg.correlation_id (some msg) p
offer msg (some (some earlier)) p = p

-- The handler of `startReplyListener`
unfoldable pub deliver : Envelope → Pending → Pending
deliver msg p = if is_empty msg.correlation_id then p else offer msg (lookup msg.correlation_id p) p

-- The `select` of `rpc` and the deferred `Delete`: what stands in the channel, or the deadline.
abbrev received : Option (Option Envelope) → Rpc
received (some (some msg)) = answered msg
received _ = failed (codes "context deadline exceeded")

unfoldable pub finish : Text → Pending → Rpc × Pending
finish corr p = (received (lookup corr p), delete corr p)

-- What the goroutines of the gateway do to the map, one after the other; `drop` is an `rpc` whose
-- deadline passes, whatever stands in its channel.
pub data Event : Type 0 where
  begin : Text → Event
  reply : Envelope → Event
  end : Text → Event
  drop : Text → Event

unfoldable pub perform : Event → Pending → Pending
unfolding register_waiter deliver finish
perform (begin corr) p = register_waiter corr p
perform (reply msg) p = deliver msg p
perform (end corr) p = (finish corr p).1
perform (drop corr) p = delete corr p

unfoldable pub perform_all : List Event → Pending → Pending
perform_all [] p = p
perform_all (e ∷ events) p = perform_all events (perform e p)

-- Every reply that waits in a channel carries the identifier of its channel.
abbrev pub IsAddressed : Pending → Type 0
IsAddressed p = (k : Text) (msg : Envelope) → lookup k p ≡ some (some msg) → msg.correlation_id ≡ k

offer-IsAddressed :
    (m : Envelope) (o : Option (Option Envelope)) (p : Pending)
    → IsAddressed p
    → IsAddressed (offer m o p)
offer-IsAddressed m none p ok k msg h = ok k msg h
offer-IsAddressed m (some none) p ok k msg h =
    ground
      (arith, lookup-insert m.correlation_id k (some m) p, text_eq_iff m.correlation_id k, ok k msg)
offer-IsAddressed m (some (some earlier)) p ok k msg h = ok k msg h

deliver-IsAddressed : (m : Envelope) (p : Pending) → IsAddressed p → IsAddressed (deliver m p)
unfolding deliver
deliver-IsAddressed m p ok k msg h = elim (Bool-cases (is_empty m.correlation_id)) [
  | inl nameless ↦ ok k msg (rw nameless at h)
  | inr named ↦ offer-IsAddressed m (lookup m.correlation_id p) p ok k msg (rw named at h)
]

perform-IsAddressed : (e : Event) (p : Pending) → IsAddressed p → IsAddressed (perform e p)
unfolding perform register_waiter finish
perform-IsAddressed (begin corr) p ok k msg h =
    ground (arith, lookup-insert corr k none p, ok k msg)
perform-IsAddressed (reply m) p ok k msg h = deliver-IsAddressed m p ok k msg h
perform-IsAddressed (end corr) p ok k msg h = ground (arith, lookup-delete corr k p, ok k msg)
perform-IsAddressed (drop corr) p ok k msg h = ground (arith, lookup-delete corr k p, ok k msg)

perform_all-IsAddressed :
    (events : List Event) (p : Pending) → IsAddressed p → IsAddressed (perform_all events p)
unfolding perform_all
perform_all-IsAddressed [] p ok = ok
perform_all-IsAddressed (e ∷ events) p ok =
    perform_all-IsAddressed events (perform e p) (perform-IsAddressed e p ok)

start-IsAddressed : IsAddressed []
unfolding lookup
start-IsAddressed k msg h = absurd (cc)

received-answered :
    (o : Option (Option Envelope)) (msg : Envelope)
    → received o ≡ answered msg
    → o ≡ some (some msg)
received-answered none msg h = absurd (cc)
received-answered (some none) msg h = absurd (cc)
received-answered (some (some m)) msg h = cc

-- Whatever the gateway did since it started, a request that ends with a reply ends with one that
-- carries the request's own correlation identifier.
pub finish-addressed :
    (events : List Event) (corr : Text) (msg : Envelope)
    → (finish corr (perform_all events [])).0 ≡ answered msg
    → msg.correlation_id ≡ corr
unfolding finish
finish-addressed events corr msg h =
    perform_all-IsAddressed events [] start-IsAddressed corr msg
      (received-answered (lookup corr (perform_all events [])) msg h)

-- Whether an event registers a request with an identifier, or ends it.
abbrev pub concerns : Text → Event → Bool
concerns corr (begin k) = text_eq k corr
concerns corr (reply msg) = false
concerns corr (end k) = text_eq k corr
concerns corr (drop k) = text_eq k corr

abbrev pub NoneConcern : Text → List Event → Type 0
NoneConcern corr [] = Unit
NoneConcern corr (e ∷ events) = (concerns corr e ≡ false) × NoneConcern corr events

-- A channel that holds a reply keeps it, whatever else is offered.
offer-holds :
    (m : Envelope) (o : Option (Option Envelope)) (corr : Text) (msg : Envelope) (p : Pending)
    → lookup m.correlation_id p ≡ o
    → lookup corr p ≡ some (some msg)
    → lookup corr (offer m o p) ≡ some (some msg)
offer-holds m none corr msg p e held = held
offer-holds m (some none) corr msg p e held =
    ground
      (arith, lookup-insert m.correlation_id corr (some m) p, text_eq_iff m.correlation_id corr)
offer-holds m (some (some earlier)) corr msg p e held = held

perform-holds :
    (e : Event) (corr : Text) (msg : Envelope) (p : Pending)
    → concerns corr e ≡ false
    → lookup corr p ≡ some (some msg)
    → lookup corr (perform e p) ≡ some (some msg)
unfolding perform register_waiter finish deliver
perform-holds (begin k) corr msg p h held = ground (arith, lookup-insert k corr none p)
perform-holds (reply m) corr msg p h held = elim (Bool-cases (is_empty m.correlation_id)) [
  | inl nameless ↦ rw nameless held
  | inr named ↦ rw named (offer-holds m (lookup m.correlation_id p) corr msg p refl held)
]
perform-holds (end k) corr msg p h held = ground (arith, lookup-delete k corr p)
perform-holds (drop k) corr msg p h held = ground (arith, lookup-delete k corr p)

perform_all-holds :
    (events : List Event) (corr : Text) (msg : Envelope) (p : Pending)
    → NoneConcern corr events
    → lookup corr p ≡ some (some msg)
    → lookup corr (perform_all events p) ≡ some (some msg)
unfolding perform_all
perform_all-holds [] corr msg p none_concern held = held
perform_all-holds (e ∷ events) corr msg p (here, later) held =
    perform_all-holds events corr msg (perform e p) later (perform-holds e corr msg p here held)

delivered :
    (msg : Envelope) (p : Pending)
    → is_empty msg.correlation_id ≡ false
    → lookup msg.correlation_id p ≡ some none
    → lookup msg.correlation_id (deliver msg p) ≡ some (some msg)
unfolding deliver
delivered msg p named waiting =
    rw (named, waiting)
      (ground (
        arith,
        lookup-insert msg.correlation_id msg.correlation_id (some msg) p,
        text_eq_iff msg.correlation_id msg.correlation_id,
      ))

-- A reply that is delivered while its request waits with an empty channel is the one that the
-- request gets, whatever else happens before it looks, further replies with the same identifier
-- included, as long as no other event registers or ends that request.
pub finish-deliver :
    (msg : Envelope) (p : Pending) (events : List Event)
    → is_empty msg.correlation_id ≡ false
    → lookup msg.correlation_id p ≡ some none
    → NoneConcern msg.correlation_id events
    → (finish msg.correlation_id (perform_all events (deliver msg p))).0 ≡ answered msg
unfolding finish
finish-deliver msg p events named waiting none_concern =
    rw
      (perform_all-holds events msg.correlation_id msg (deliver msg p) none_concern
        (delivered msg p named waiting))
      refl
