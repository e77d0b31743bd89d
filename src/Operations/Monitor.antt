-- ===== src/Operations/Monitor.antt =====
-- `RunMonitor` of src/investment_tracker/operations.py. The dispatcher is the one object that the
-- monitor shares, so it is part of the state. A heartbeat is kept as its instant: `heartbeat` lets
-- only aware times in.
pub mod Heartbeats
mod Examples
use Prim.Native.Nat.{Ordering}
use Prim.Native.String.{compare as str_compare}
use investment_tracker.Prelude.{
  ℕ, ◌+◌, String, Bool, true, false, not, Option, none, some, List, [], ◌∷◌, ltb, if◌then◌else◌,
  Exec, Result, ok, err, raise_if, pure, gets, modify, lift, ◌>>=◌, ◌>>◌,
}
use investment_tracker.Dict.{Dict, get, put, string_key}
use investment_tracker.Timestamp.{
  Timestamp, aware, naive, is_aware, instant, Duration, is_positive, micros,
}
use investment_tracker.Operations.Dispatcher.{
  Alert, AlertError, value_error, Dispatcher, raise_alert,
}

pub record Monitor : Type 0 where
  pub dispatcher : Dispatcher
  pub stale_after : ℕ
  pub heartbeats : Dict String ℕ

-- `__init__`
pub new_monitor : Dispatcher → Duration → Option Monitor
new_monitor dispatcher stale_after =
    if is_positive stale_after
    then some
        (record { dispatcher = dispatcher; stale_after = micros stale_after; heartbeats = [] })
    else none

abbrev pub Action : Type 0 → Type 0
Action A = Exec Monitor AlertError A

-- `current is not None and observed_at < current`
abbrev pub moves_back : Option ℕ → Timestamp → Bool
moves_back none observed_at = false
moves_back (some current) observed_at = ltb (instant observed_at) current

unfoldable pub heartbeat : String → Timestamp → Action Unit
heartbeat run_id observed_at = do
  raise_if (not (is_aware observed_at)) value_error
  current ← gets (λ m. get m.heartbeats run_id)
  raise_if (moves_back current observed_at) value_error
  modify (λ m. record m { heartbeats = put m.heartbeats run_id (instant observed_at) })

-- `sorted(self._heartbeats.items())`: by the run, as no two items have one.
insert_run : String → ℕ → Dict String ℕ → Dict String ℕ
insert_run run at [] = (run, at) ∷ []
insert_run run at ((r, t) ∷ items) = elim (str_compare run r) [
  | Ordering.gt ↦ (r, t) ∷ insert_run run at items
  | _ ↦ (run, at) ∷ (r, t) ∷ items
]

unfoldable pub by_run : Dict String ℕ → Dict String ℕ
unfolding insert_run
by_run [] = []
by_run ((run, at) ∷ items) = insert_run run at (by_run items)

-- `observed_at - heartbeat > self._stale_after`
abbrev pub is_stale : ℕ → ℕ → Timestamp → Bool
is_stale stale_after at observed_at = ltb (at + stale_after) (instant observed_at)

-- The dispatcher's method, on the monitor's dispatcher.
abbrev pub on_dispatcher : {A : Type 0} → Exec Dispatcher AlertError A → Action A
on_dispatcher f m = let r = f m.dispatcher in (r.0, record m { dispatcher = r.1 })

module _ (sha256 : String → String) where
  -- The comprehension of `detect_stale`: it stops at the first alert that raises.
  unfoldable pub raise_stale : Timestamp → Dict String ℕ → Action (List Alert)
  raise_stale observed_at [] m = pure [] m
  raise_stale observed_at ((run, at) ∷ items) m = elim (is_stale m.stale_after at observed_at) [
    | false ↦ raise_stale observed_at items m
    | true ↦
        (do
          alert ←
              on_dispatcher
                (raise_alert sha256 run "STALE_RUN" "worker heartbeat expired" observed_at)
          alerts ← raise_stale observed_at items
          pure (alert ∷ alerts))
          m
  ]

  unfoldable pub detect_stale : Timestamp → Action (List Alert)
  unfolding raise_stale by_run
  detect_stale observed_at = do
    raise_if (not (is_aware observed_at)) value_error
    heartbeats ← gets (λ m. m.heartbeats)
    raise_stale observed_at (by_run heartbeats)
