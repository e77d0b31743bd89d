-- ===== src/Operations/Dispatcher/Settling.antt =====
-- Deliveries end: src/investment_tracker/operations.py.
use investment_tracker.Prelude.{
  if◌then◌else◌, ℕ, ◌+◌, ◌≤◌, ◌<◌, String, ◌≡◌, true, false, some, List, [], ◌∷◌, arith, Bool-cases,
  inl, inr, length,
}
use investment_tracker.Dict.{string_key, pair_key, get, get-put_self}
use investment_tracker.Operations.Dispatcher.{
  Alert, Dispatcher, Delivery, deliver, is_settled, attempted, was_delivered,
}
use investment_tracker.Operations.Dispatcher.Invariant.{IsValid, IsConsistent, deliver-IsValid}

-- The attempts to deliver one alert, with the sink's answers in turn.
pub deliver_all : String → List Delivery → Dispatcher → Dispatcher
deliver_all id [] d = d
deliver_all id (answer ∷ answers) d = deliver_all id answers (deliver id answer d).1

deliver_all-IsValid :
    (id : String) (answers : List Delivery) (d : Dispatcher)
    → IsValid d
    → IsValid (deliver_all id answers d)
unfolding deliver_all
deliver_all-IsValid id [] d v = v
deliver_all-IsValid id (answer ∷ answers) d v =
    deliver_all-IsValid id answers (deliver id answer d).1 (deliver-IsValid id answer d v)

-- The alert after one more attempt: a settled one stays as it is.
after_attempt : ℕ → Alert → Delivery → Alert
after_attempt m a answer = if is_settled a.status then a else attempted m a (was_delivered answer)

deliver-after_attempt :
    (id : String) (answer : Delivery) (d : Dispatcher) (a : Alert)
    → get d.alerts id ≡ some a
    → (get (deliver id answer d).1.alerts id ≡ some (after_attempt d.max_attempts a answer))
      × ((deliver id answer d).1.max_attempts ≡ d.max_attempts)
unfolding deliver after_attempt
deliver-after_attempt id answer d a found =
    ground (arith, get-put_self d.alerts id (attempted d.max_attempts a (was_delivered answer)))

-- An alert that is not settled has used up one more attempt, or is settled now.
after_attempt-counts :
    (m : ℕ) (a : Alert) (answer : Delivery)
    → is_settled (after_attempt m a answer).status ≡ false
    → (is_settled a.status ≡ false) × ((after_attempt m a answer).attempts ≡ a.attempts + 1)
unfolding after_attempt attempted
after_attempt-counts m a answer h = ground arith

unsettled-lt :
    (m : ℕ) (a : Alert) → 0 < m → IsConsistent m a → is_settled a.status ≡ false → a.attempts < m
unsettled-lt m a p c h = ground arith

settles :
    (id : String) (answers : List Delivery) (d : Dispatcher) (a : Alert)
    → IsValid d
    → get d.alerts id ≡ some a
    → (is_settled a.status ≡ false → d.max_attempts ≤ a.attempts + length answers)
    → (b : Alert) × (get (deliver_all id answers d).alerts id ≡ some b)
      × (is_settled b.status ≡ true)
unfolding deliver_all
settles id [] d a v found enough = elim (Bool-cases (is_settled a.status)) [
  | inl done ↦ (a, found, done)
  | inr open_yet ↦ absurd (
      omega (
        arith,
        enough open_yet,
        unsettled-lt d.max_attempts a v.positive (v.alerts id a found) open_yet,
      ))
]
settles id (answer ∷ answers) d a v found enough =
    let (stored, same) = deliver-after_attempt id answer d a found in
    settles id answers (deliver id answer d).1 (after_attempt d.max_attempts a answer)
      (deliver-IsValid id answer d v) stored
      (λ open_yet.
        let (was_open, counts) = after_attempt-counts d.max_attempts a answer open_yet in
        omega (arith, enough was_open, same))

-- Whatever the sink answers, and also if it raises each time, as many attempts as are allowed leave
-- an alert delivered, escalated or acknowledged: none is retried for ever.
pub deliver_all-settles :
    (id : String) (answers : List Delivery) (d : Dispatcher) (a : Alert)
    → IsValid d
    → get d.alerts id ≡ some a
    → d.max_attempts ≤ length answers
    → (b : Alert) × (get (deliver_all id answers d).alerts id ≡ some b)
      × (is_settled b.status ≡ true)
deliver_all-settles id answers d a v found enough =
    settles id answers d a v found (λ h. omega arith)
