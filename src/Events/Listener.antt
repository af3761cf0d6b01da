-- ===== src/Events/Listener.antt =====
-- src/grpc_helper/events/events_listener.py: the loop of `EventsListener`.
use grpc_helper.Base.{
  ℕ, ◌*◌, Bool, true, false, ◌&&◌, Option, none, some, List, [], ◌∷◌, ◌++◌, is_some, if◌then◌else◌,
  ◌==◌, arith, ◌≡◌, refl, All, Option-cases, inl, inr,
}
use grpc_helper.Base.{string_eq}
use grpc_helper.Errors.{Exception, rpc_exception, error_item_unknown}
use grpc_helper.Events.Manager.{Event}

-- A status that the events service streams: an event with an empty name is none.
pub record EventStatus : Type 0 where
  pub client_id : ℕ
  pub event : Event

-- The state of the listener: its ID, whether it was ready once, and the delay before the next try,
-- in half seconds.
pub record EventsListener : Type 0 where
  pub client_id : Option ℕ
  pub ready : Bool
  pub retry_delay : ℕ

abbrev pub first_delay : ℕ
first_delay = 1

-- The statuses of one call of `listen`, and its end: `none` where the stream ends by itself.
pub record Stream : Type 0 where
  pub statuses : List EventStatus
  pub error : Option Exception

-- The loop over the statuses: the listener after it, and the events that `on_event` gets.
unfoldable pub receive : List EventStatus → EventsListener → EventsListener × List Event
receive [] l = (l, [])
receive (s ∷ rest) l =
    let heard : EventsListener = record {
      client_id = if l.ready then l.client_id else some s.client_id;
      ready = true;
      retry_delay = first_delay;
    } in
    let (after, events) = receive rest heard in
    (after, (if s.event.name == "" then events else s.event ∷ events))

-- `isinstance(e, RpcException) and e.rc == ResultCode.ERROR_ITEM_UNKNOWN`
unfoldable pub is_unknown : Exception → Bool
is_unknown (rpc_exception message error_item_unknown) = true
is_unknown _ = false

-- The handling of an exception: an unknown ID is dropped; after another error the listener sleeps.
unfoldable pub recover : Exception → EventsListener → EventsListener
unfolding is_unknown
recover e l =
    if is_unknown e && is_some l.client_id
    then record l { client_id = none }
    else record l { retry_delay = 2 * l.retry_delay }

-- The rounds of `__listen_to_events`, each with what its call of `listen` meets: the IDs that are
-- asked for, the events, and the listener at the end.
unfoldable pub listen_rounds :
    List Stream → EventsListener → List (Option ℕ) × List Event × EventsListener
unfolding receive recover
listen_rounds [] l = ([], [], l)
listen_rounds (stream ∷ rest) l =
    let (heard, events) = receive stream.statuses l in
    elim stream.error [
      | none ↦ (l.client_id ∷ [], events, heard)
      | some e ↦
          let (ids, more, last) = listen_rounds rest (recover e heard) in
          (l.client_id ∷ ids, events ++ more, last)
    ]

-- The ID that `interrupt` sends.
unfoldable pub interrupt_id : EventsListener → Option ℕ
interrupt_id l = l.client_id

-- A listener that was ready once, with the given ID or with none.
abbrev HasId : Option ℕ → EventsListener → Type 0
HasId id l = (l.ready ≡ true) × (l.client_id ≡ id)

receive-HasId :
    (id : Option ℕ) (statuses : List EventStatus) (l : EventsListener)
    → HasId id l
    → HasId id (receive statuses l).0
unfolding receive
receive-HasId id [] l has = has
receive-HasId id (s ∷ rest) l (ready, known) =
    receive-HasId id rest
      (record {
        client_id = if l.ready then l.client_id else some s.client_id;
        ready = true;
        retry_delay = first_delay;
      })
      (refl, ground (arith, ready, known))

-- The service does not answer that the ID is unknown.
abbrev pub IsKnown : Option ℕ → Stream → Type 0
IsKnown id stream = (e : Exception) → stream.error ≡ some e → (is_unknown e && is_some id) ≡ false

recover-HasId :
    (id : Option ℕ) (e : Exception) (l : EventsListener)
    → (is_unknown e && is_some id) ≡ false
    → HasId id l
    → HasId id (recover e l)
unfolding recover
recover-HasId id e l known (ready, same) = ground (arith, known, ready, same)

abbrev pub AllSame : Option ℕ → List (Option ℕ) → Type 0
AllSame id ids = All (λ asked. asked ≡ id) ids

keeps_id :
    (id : Option ℕ) (streams : List Stream) (l : EventsListener)
    → HasId id l
    → All (λ stream. IsKnown id stream) streams
    → AllSame id (listen_rounds streams l).0 × (interrupt_id (listen_rounds streams l).2 ≡ id)
unfolding listen_rounds interrupt_id
keeps_id id [] l (ready, same) known = (tt, same)
keeps_id id (stream ∷ rest) l (ready, same) (one, known) =
    let heard = receive-HasId id stream.statuses l (ready, same) in
    elim (Option-cases stream.error) [
      | inl ends ↦ ground (arith, ends, heard, same)
      | inr (e, failed) ↦
          let (all, last) =
            keeps_id id rest (recover e (receive stream.statuses l).0)
              (recover-HasId id e (receive stream.statuses l).0 (one e failed) heard) known in
          ground (arith, failed, all, last, same)
    ]

-- A listener that is ready asks for its own ID in each of its calls, whatever errors end the streams,
-- as long as the service knows the ID; and it can be interrupted by it.
pub listen_rounds-some :
    (id : ℕ) (streams : List Stream) (l : EventsListener)
    → l.ready ≡ true
    → l.client_id ≡ some id
    → All (λ stream. IsKnown (some id) stream) streams
    → AllSame (some id) (listen_rounds streams l).0
      × (interrupt_id (listen_rounds streams l).2 ≡ some id)
listen_rounds-some id streams l ready same known = keeps_id (some id) streams l (ready, same) known

none-IsKnown : (streams : List Stream) → All (λ stream. IsKnown none stream) streams
none-IsKnown [] = tt
none-IsKnown (stream ∷ rest) = (λ e failed. ground arith, none-IsKnown rest)

-- A listener that was ready and whose ID became unknown never gets an ID again, whatever the service
-- answers: each later call asks for a new queue, and no ID is there to interrupt it.
pub listen_rounds-none :
    (streams : List Stream) (l : EventsListener)
    → l.ready ≡ true
    → l.client_id ≡ none
    → AllSame none (listen_rounds streams l).0 × (interrupt_id (listen_rounds streams l).2 ≡ none)
listen_rounds-none streams l ready unknown =
    keeps_id none streams l (ready, unknown) (none-IsKnown streams)
