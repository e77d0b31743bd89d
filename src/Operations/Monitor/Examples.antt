-- ===== src/Operations/Monitor/Examples.antt =====
-- The theorem on the heartbeats of src/investment_tracker/operations.py at concrete calls, and tests.
use investment_tracker.Prelude.{◌≡◌, refl, false, [], ◌∷◌, err}
use investment_tracker.Dict.{get, put, string_key}
use investment_tracker.Timestamp.{aware}
use investment_tracker.Operations.Dispatcher.{value_error}
use investment_tracker.Operations.Monitor.{Monitor, heartbeat}
use investment_tracker.Operations.Monitor.Heartbeats.{
  NotBefore, heartbeat_call, detect_call, perform_all, perform_all-NotBefore,
}

abbrev watching : Monitor
watching = record {
  dispatcher = record {
    has_escalation_sink = false;
    max_attempts = 1;
    alerts = [];
    event_ids = [];
  };
  stale_after = 10;
  heartbeats = ("run-1", 5) ∷ [];
}

backwards : heartbeat "run-1" (aware 4) watching ≡ (err value_error, watching)
unfolding heartbeat get put
backwards = refl

perform_all-NotBefore_example : NotBefore (get watching.heartbeats "run-1") (
    get
      (perform_all
        (λ s. s)
        (heartbeat_call "run-1" (aware 4)
          ∷ heartbeat_call "run-1" (aware 7)
          ∷ detect_call (aware 30)
          ∷ [])
        watching).heartbeats
      "run-1")
perform_all-NotBefore_example =
    perform_all-NotBefore (λ s. s)
      (heartbeat_call "run-1" (aware 4)
        ∷ heartbeat_call "run-1" (aware 7)
        ∷ detect_call (aware 30)
        ∷ [])
      watching "run-1"
