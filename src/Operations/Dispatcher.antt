-- ===== src/Operations/Dispatcher.antt =====
-- `AlertDispatcher` of src/investment_tracker/operations.py. What a sink does in a call is an argument
-- of the call; `sha256` (of a text's UTF-8 bytes, in hexadecimal) is a parameter.
pub mod Invariant
pub mod Settling
pub mod Collision
mod Examples
use Prim.Native.String.{◌++◌ as str_append}
use investment_tracker.Prelude.{
  ℕ, ◌+◌, String, Bool, true, false, not, Option, none, some, [], ltb, if◌then◌else◌, is_blank,
  Exec, ok, or_raise, pure, gets, raise_if, ◌>>=◌, ◌>>◌,
}
use investment_tracker.Dict.{Dict, string_key, pair_key, get, put}
use investment_tracker.Timestamp.{Timestamp, is_aware}

pub data AlertStatus : Type 0 where
  pending retry_pending delivered escalated acknowledged : AlertStatus

pub record Alert : Type 0 where
  pub alert_id : String
  pub run_id : String
  pub code : String
  pub message : String
  pub raised_at : Timestamp
  pub status : AlertStatus
  pub attempts : ℕ
  pub acknowledged_by : Option String
  pub acknowledged_at : Option Timestamp

-- The dispatcher's own state; the sinks are outside it.
pub record Dispatcher : Type 0 where
  pub has_escalation_sink : Bool
  pub max_attempts : ℕ
  pub alerts : Dict String Alert
  pub event_ids : Dict (String × String) String

pub data AlertError : Type 0 where
  value_error key_error : AlertError

abbrev pub Action : Type 0 → Type 0
Action A = Exec Dispatcher AlertError A

-- What `sink.deliver(alert)` does: it returns a value, or raises.
pub data Delivery : Type 0 where
  returned : Bool → Delivery
  raised : Delivery

-- `__init__`; `max_attempts` below 1 is refused (a negative one too, which ℕ leaves out).
pub new_dispatcher : Bool → ℕ → Option Dispatcher
new_dispatcher has_sink max_attempts =
    if ltb max_attempts 1
    then none
    else some (record {
      has_escalation_sink = has_sink;
      max_attempts = max_attempts;
      alerts = [];
      event_ids = [];
    })

pub require_aware : Timestamp → Action Unit
require_aware value = raise_if (not (is_aware value)) value_error

-- f"{run_id}\0{code}"
abbrev pub event_token : String → String → String
event_token run_id code = str_append run_id (str_append "\0" code)

-- A statuses' set membership: `{DELIVERED, ESCALATED, ACKNOWLEDGED}` and `{DELIVERED, ESCALATED}`.
abbrev pub is_settled : AlertStatus → Bool
is_settled pending = false
is_settled retry_pending = false
is_settled _ = true

abbrev pub is_acknowledged : AlertStatus → Bool
is_acknowledged acknowledged = true
is_acknowledged _ = false

abbrev pub can_acknowledge : AlertStatus → Bool
can_acknowledge delivered = true
can_acknowledge escalated = true
can_acknowledge _ = false

abbrev pub was_delivered : Delivery → Bool
was_delivered (returned b) = b
was_delivered raised = false

-- `self._alerts[alert_id] = alert`
store_alert : String → Alert → Action Alert
store_alert alert_id alert d = (ok alert, record d { alerts = put d.alerts alert_id alert })

module _ (sha256 : String → String) where
  abbrev pub new_alert : String → String → String → Timestamp → Alert
  new_alert run_id code message raised_at = record {
    alert_id = sha256 (event_token run_id code);
    run_id = run_id;
    code = code;
    message = message;
    raised_at = raised_at;
    status = pending;
    attempts = 0;
    acknowledged_by = none;
    acknowledged_at = none;
  }

  -- `raise_alert`, on what is recorded for the event.
  raise_event : String → String → String → Timestamp → Option String → Action Alert
  unfolding store_alert
  raise_event run_id code message raised_at (some alert_id) d =
      (or_raise key_error (get d.alerts alert_id), d)
  raise_event run_id code message raised_at none d =
      let alert = new_alert run_id code message raised_at in
      store_alert alert.alert_id alert
        (record d { event_ids = put d.event_ids (run_id, code) alert.alert_id })

  pub raise_alert : String → String → String → Timestamp → Action Alert
  unfolding raise_event require_aware
  raise_alert run_id code message raised_at = do
    require_aware raised_at
    known ← gets (λ d. get d.event_ids (run_id, code))
    raise_event run_id code message raised_at known

-- The alert after an attempt: delivered, to be tried again, or escalated.
pub attempted : ℕ → Alert → Bool → Alert
attempted max_attempts alert got_through =
    let attempts : ℕ = alert.attempts + 1 in
    if got_through
    then record alert { attempts = attempts; status = delivered }
    else if ltb attempts max_attempts
    then record alert { attempts = attempts; status = retry_pending }
    else record alert { attempts = attempts; status = escalated }

-- `deliver`; the escalation sink's own answer is dropped, so it is no argument.
pub deliver_alert : String → Delivery → Alert → Action Alert
unfolding attempted store_alert
deliver_alert alert_id answer alert d =
    if is_settled alert.status
    then (ok alert, d)
    else store_alert alert_id (attempted d.max_attempts alert (was_delivered answer)) d

pub deliver : String → Delivery → Action Alert
unfolding deliver_alert
deliver alert_id answer = do
  alert ← (λ d. (or_raise key_error (get d.alerts alert_id), d))
  deliver_alert alert_id answer alert

pub acknowledge_alert : String → String → Timestamp → Alert → Action Alert
unfolding store_alert
acknowledge_alert alert_id actor acknowledged_at alert =
    if is_acknowledged alert.status then pure alert else do
      raise_if (not (can_acknowledge alert.status)) value_error
      raise_if (is_blank actor) value_error
      store_alert alert_id (record alert {
        status = acknowledged;
        acknowledged_by = some actor;
        acknowledged_at = some acknowledged_at;
      })

pub acknowledge : String → String → Timestamp → Action Alert
unfolding acknowledge_alert require_aware
acknowledge alert_id actor acknowledged_at = do
  require_aware acknowledged_at
  alert ← (λ d. (or_raise key_error (get d.alerts alert_id), d))
  acknowledge_alert alert_id actor acknowledged_at alert
