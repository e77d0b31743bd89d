-- ===== src/Operations/Dispatcher/Examples.antt =====
-- The theorems on the dispatcher of src/investment_tracker/operations.py at concrete alerts.
use Prim.Native.String.{◌++◌ as str_append}
use investment_tracker.Prelude.{
  String, ◌≡◌, ◌≢◌, refl, true, false, some, none, List, [], ◌∷◌, arith, ok, eq_iff,
}
use investment_tracker.Dict.{string_key, pair_key, get}
use investment_tracker.Timestamp.{aware}
use investment_tracker.Operations.Dispatcher.{
  Alert, Dispatcher, Delivery, returned, raised, retry_pending, is_settled, raise_alert, new_alert,
}
use investment_tracker.Operations.Dispatcher.Invariant.{
  IsValid, perform, perform-keeps_alerts, deliver_call,
}
use investment_tracker.Operations.Dispatcher.Settling.{deliver_all, deliver_all-settles}
use investment_tracker.Operations.Dispatcher.Collision.{raise_alert-collides}

-- A stand-in for the digest.
abbrev token_digest : String → String
token_digest t = t

abbrev alert : Alert
alert = record {
  alert_id = "id";
  run_id = "run";
  code = "STALE_RUN";
  message = "m";
  raised_at = aware 7;
  status = retry_pending;
  attempts = 1;
  acknowledged_by = none;
  acknowledged_at = none;
}

abbrev dispatcher : Dispatcher
dispatcher = record {
  has_escalation_sink = false;
  max_attempts = 3;
  alerts = ("id", alert) ∷ [];
  event_ids = [];
}

stored : get dispatcher.alerts "id" ≡ some alert
unfolding get
stored = refl

dispatcher-IsValid : IsValid dispatcher
unfolding get
dispatcher-IsValid = record {
  positive = omega arith;
  alerts = λ id a e. ground (arith, eq_iff "id" id);
  events = λ run code id e. cc;
}

perform-keeps_alerts_example : IsValid (perform token_digest (deliver_call "id" raised) dispatcher)
perform-keeps_alerts_example =
    perform-keeps_alerts token_digest (deliver_call "id" raised) dispatcher dispatcher-IsValid

abbrev answers : List Delivery
answers = raised ∷ returned false ∷ returned false ∷ []

deliver_all-settles_example :
    (b : Alert) × (get (deliver_all "id" answers dispatcher).alerts "id" ≡ some b)
    × (is_settled b.status ≡ true)
deliver_all-settles_example =
    deliver_all-settles "id" answers dispatcher alert dispatcher-IsValid stored (omega arith)

no_event : get dispatcher.event_ids ("a\0b", "c") ≡ none
unfolding get
no_event = refl

no_other : get dispatcher.event_ids ("a", "b\0c") ≡ none
unfolding get
no_other = refl

differ : str_append "a" (str_append "\0" "b") ≢ "a"
differ e = ground (arith, eq_iff (str_append "a" (str_append "\0" "b")) "a")

raise_alert-collides_example :
    let d₁ = (raise_alert token_digest "a\0b" "c" "m" (aware 9) dispatcher).1 in
    let d₂ = (raise_alert token_digest "a" "b\0c" "m" (aware 9) d₁).1 in
    (raise_alert token_digest "a\0b" "c" "m" (aware 9) d₂).0
    ≡ ok (new_alert token_digest "a" "b\0c" "m" (aware 9))
raise_alert-collides_example =
    raise_alert-collides token_digest "m" 9 "a" "b" "c" dispatcher no_event no_other differ
