-- ===== src/Operations/Dispatcher/Invariant.antt =====
-- The invariant of `AlertDispatcher` in src/investment_tracker/operations.py.
use investment_tracker.Prelude.{
  is_blank, ℕ, ◌≤◌, ◌<◌, String, ◌≡◌, refl, Bool, true, false, some, none, Option, arith,
  Option-cases, Bool-cases, inl, inr, eq_iff,
}
use investment_tracker.Dict.{pair_beq, string_key, pair_key, get, put, get-put, get-put_self}
use investment_tracker.Timestamp.{Timestamp, is_aware}
use investment_tracker.Operations.Dispatcher.{
  acknowledge_alert, is_acknowledged, can_acknowledge, Alert, AlertStatus, Dispatcher, Delivery,
  pending, retry_pending, delivered, escalated, acknowledged, raise_alert, deliver, acknowledge,
  is_settled, attempted, was_delivered,
}

-- What an alert's status says of its attempts and of its acknowledgement, under a limit of `m`.
abbrev pub Consistent : ℕ → AlertStatus → ℕ → Option String → Type 0
Consistent m pending attempts by = (attempts ≡ 0) × (by ≡ none)
Consistent m retry_pending attempts by = (0 < attempts) × (attempts < m) × (by ≡ none)
Consistent m delivered attempts by = (0 < attempts) × (attempts ≤ m) × (by ≡ none)
Consistent m escalated attempts by = (attempts ≡ m) × (by ≡ none)
Consistent m acknowledged attempts by =
    (0 < attempts) × (attempts ≤ m) × ((actor : String) × (by ≡ some actor))

abbrev pub IsConsistent : ℕ → Alert → Type 0
IsConsistent m a = Consistent m a.status a.attempts a.acknowledged_by

-- Attempts are allowed, every stored alert is consistent, and every event has its alert.
pub record IsValid (d : Dispatcher) : Type 0 where
  pub positive : 0 < d.max_attempts
  pub alerts : (id : String) (a : Alert) → get d.alerts id ≡ some a → IsConsistent d.max_attempts a
  pub events :
      (run code id : String)
      → get d.event_ids (run, code) ≡ some id
      → (a : Alert) × (get d.alerts id ≡ some a)

attempted-IsConsistent :
    (m : ℕ) (a : Alert) (through : Bool)
    → 0 < m
    → is_settled a.status ≡ false
    → IsConsistent m a
    → IsConsistent m (attempted m a through)
unfolding attempted
attempted-IsConsistent m a through p open_yet c = ground arith

store-IsValid :
    (d : Dispatcher) (key : String) (a : Alert)
    → IsValid d
    → IsConsistent d.max_attempts a
    → IsValid (record d { alerts = put d.alerts key a })
store-IsValid d key a v c = record {
  positive = v.positive;
  alerts = λ id b e. ground (arith, get-put d.alerts key id a, v.alerts id b, eq_iff key id);
  events = λ run code id e.
      let (b, held) = v.events run code id e in
      elim (Option-cases (get (put d.alerts key a) id)) [
        | inl gone ↦ absurd (ground (arith, get-put d.alerts key id a))
        | inr found ↦ found
      ];
}

new_event-IsValid :
    (d : Dispatcher) (run code key : String) (a : Alert)
    → IsValid d
    → IsConsistent d.max_attempts a
    → IsValid
        (record d { alerts = put d.alerts key a; event_ids = put d.event_ids (run, code) key })
new_event-IsValid d run code key a v c = record {
  positive = v.positive;
  alerts = (store-IsValid d key a v c).alerts;
  events = λ run' code' id e. elim (Option-cases (get (put d.alerts key a) id)) [
    | inr found ↦ found
    | inl gone ↦ elim (Bool-cases (pair_beq (run, code) (run', code'))) [
      | inl same ↦ absurd (
          ground
            (arith, get-put d.event_ids (run, code) (run', code') key, get-put_self d.alerts key a))
      | inr other ↦
          let (b, held) =
            v.events run' code' id
              (ground (arith, get-put d.event_ids (run, code) (run', code') key)) in
          absurd (ground (arith, get-put d.alerts key id a))
    ]
  ];
}

raise_alert-IsValid :
    (sha256 : String → String) (run code message : String) (at : Timestamp) (d : Dispatcher)
    → IsValid d
    → IsValid (raise_alert sha256 run code message at d).1
unfolding raise_alert
raise_alert-IsValid sha256 run code message at d v = elim (Bool-cases (is_aware at)) [
  | inr no_zone ↦ rw no_zone v
  | inl zoned ↦ rw zoned (elim (Option-cases (get d.event_ids (run, code))) [
    | inr (id, known) ↦ rw known v
    | inl new ↦ rw new (new_event-IsValid d run code _ _ v (refl, refl))
  ])
]

pub deliver-IsValid :
    (id : String) (answer : Delivery) (d : Dispatcher) → IsValid d → IsValid (deliver id answer d).1
unfolding deliver
deliver-IsValid id answer d v = elim (Option-cases (get d.alerts id)) [
  | inl unknown ↦ rw unknown v
  | inr (a, found) ↦ rw found (elim (Bool-cases (is_settled a.status)) [
    | inl settled ↦ rw settled v
    | inr open_yet ↦ rw open_yet (
        store-IsValid d id (attempted d.max_attempts a (was_delivered answer)) v (
          attempted-IsConsistent d.max_attempts a (was_delivered answer) v.positive open_yet
            (v.alerts id a found)))
  ])
]

acknowledged-IsConsistent :
    (m : ℕ) (a : Alert) (actor : String)
    → 0 < m
    → can_acknowledge a.status ≡ true
    → IsConsistent m a
    → Consistent m acknowledged a.attempts (some actor)
acknowledged-IsConsistent m a actor p ready c = (ground arith, ground arith, (actor, refl))

acknowledge_alert-IsValid :
    (id actor : String) (at : Timestamp) (a : Alert) (d : Dispatcher)
    → IsValid d
    → IsConsistent d.max_attempts a
    → IsValid (acknowledge_alert id actor at a d).1
unfolding acknowledge_alert
acknowledge_alert-IsValid id actor at a d v c = elim (Bool-cases (is_acknowledged a.status)) [
  | inl done ↦ rw done v
  | inr open_yet ↦ rw open_yet (elim (Bool-cases (can_acknowledge a.status)) [
    | inr early ↦ rw early v
    | inl ready ↦ rw ready (elim (Bool-cases (is_blank actor)) [
      | inl nobody ↦ rw nobody v
      | inr named ↦ rw named (
          store-IsValid d id _ v
            (acknowledged-IsConsistent d.max_attempts a actor v.positive ready c))
    ])
  ])
]

acknowledge-IsValid :
    (id actor : String) (at : Timestamp) (d : Dispatcher)
    → IsValid d
    → IsValid (acknowledge id actor at d).1
unfolding acknowledge
acknowledge-IsValid id actor at d v = elim (Bool-cases (is_aware at)) [
  | inr no_zone ↦ rw no_zone v
  | inl zoned ↦ rw zoned (elim (Option-cases (get d.alerts id)) [
    | inl unknown ↦ rw unknown v
    | inr (a, found) ↦ rw found (acknowledge_alert-IsValid id actor at a d v (v.alerts id a found))
  ])
]

-- The methods as calls, with what the sink does.
pub data Call : Type 0 where
  raise_call : String → String → String → Timestamp → Call
  deliver_call : String → Delivery → Call
  acknowledge_call : String → String → Timestamp → Call

-- The dispatcher after a call, whether it returned or raised.
pub perform : (String → String) → Call → Dispatcher → Dispatcher
perform sha256 (raise_call run code message at) d = (raise_alert sha256 run code message at d).1
perform sha256 (deliver_call id answer) d = (deliver id answer d).1
perform sha256 (acknowledge_call id actor at) d = (acknowledge id actor at d).1

-- Every call keeps the alerts consistent: an alert is tried at most as often as is allowed, is given up
-- exactly at that number, is acknowledged by somebody and only after an attempt; and every event that
-- is recorded has an alert.
pub perform-keeps_alerts :
    (sha256 : String → String) (call : Call) (d : Dispatcher)
    → IsValid d
    → IsValid (perform sha256 call d)
unfolding perform
perform-keeps_alerts sha256 (raise_call run code message at) d v =
    raise_alert-IsValid sha256 run code message at d v
perform-keeps_alerts sha256 (deliver_call id answer) d v = deliver-IsValid id answer d v
perform-keeps_alerts sha256 (acknowledge_call id actor at) d v = acknowledge-IsValid id actor at d v
