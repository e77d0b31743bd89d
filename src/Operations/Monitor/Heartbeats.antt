-- ===== src/Operations/Monitor/Heartbeats.antt =====
-- The heartbeats of src/investment_tracker/operations.py over sequences of calls.
use investment_tracker.Prelude.{
  ℕ, ◌≤◌, String, ◌≡◌, inl, inr, refl, subst, sym, none, some, Option, List, [], ◌∷◌, arith, eq_iff,
  Option-cases,
}
use investment_tracker.Dict.{Dict, get, get-put, string_key}
use investment_tracker.Timestamp.{Timestamp, instant}
use investment_tracker.Operations.Dispatcher.{raise_alert}
use investment_tracker.Operations.Monitor.{Monitor, heartbeat, raise_stale, detect_stale, by_run}

pub data Call : Type 0 where
  heartbeat_call : String → Timestamp → Call
  detect_call : Timestamp → Call

-- A run's recorded time is there after, and not earlier than before.
abbrev pub NotBefore : Option ℕ → Option ℕ → Type 0
NotBefore none after = Unit
NotBefore (some t) none = ⊥
NotBefore (some t) (some u) = t ≤ u

NotBefore-trans : (a b c : Option ℕ) → NotBefore a b → NotBefore b c → NotBefore a c
NotBefore-trans none b c h k = tt
NotBefore-trans (some t) none c h k = absurd h
NotBefore-trans (some t) (some u) none h k = absurd k
NotBefore-trans (some t) (some u) (some v) h k = omega (arith, h, k)

NotBefore-refl : (a : Option ℕ) → NotBefore a a
NotBefore-refl none = tt
NotBefore-refl (some t) = omega arith

heartbeat-NotBefore :
    (run : String) (at : Timestamp) (m : Monitor) (other : String)
    → NotBefore (get m.heartbeats other) (get (heartbeat run at m).1.heartbeats other)
unfolding heartbeat
heartbeat-NotBefore run at m other =
    let old = get m.heartbeats other in
    elim (Option-cases old) [
      | inl new ↦ ground (arith, new)
      | inr (t, known) ↦
          ground (arith, get-put m.heartbeats run other (instant at), eq_iff run other)
    ]

module _ (sha256 : String → String) where
  unfoldable pub perform : Call → Monitor → Monitor
  perform (heartbeat_call run at) m = (heartbeat run at m).1
  perform (detect_call at) m = (detect_stale sha256 at m).1

  unfoldable pub perform_all : List Call → Monitor → Monitor
  perform_all [] m = m
  perform_all (call ∷ calls) m = perform_all calls (perform call m)

  raise_stale-keeps :
      (at : Timestamp) (items : Dict String ℕ) (m : Monitor)
      → (raise_stale sha256 at items m).1.heartbeats ≡ m.heartbeats
  unfolding raise_stale
  raise_stale-keeps at [] m = refl
  raise_stale-keeps at ((run, t) ∷ items) m =
      let after =
        (raise_alert sha256 run "STALE_RUN" "worker heartbeat expired" at m.dispatcher).1 in
      ground (
        arith,
        raise_stale-keeps at items m,
        raise_stale-keeps at items (record m { dispatcher = after }),
      )

  detect_stale-keeps :
      (at : Timestamp) (m : Monitor) → (detect_stale sha256 at m).1.heartbeats ≡ m.heartbeats
  unfolding detect_stale
  detect_stale-keeps at m = ground (arith, raise_stale-keeps at (by_run m.heartbeats) m)

  perform-NotBefore :
      (call : Call) (m : Monitor) (run : String)
      → NotBefore (get m.heartbeats run) (get (perform call m).heartbeats run)
  unfolding perform
  perform-NotBefore (heartbeat_call r at) m run = heartbeat-NotBefore r at m run
  perform-NotBefore (detect_call at) m run =
      subst (λ h. NotBefore (get m.heartbeats run) (get h run)) (sym (detect_stale-keeps at m))
        (NotBefore-refl (get m.heartbeats run))

  -- Over any sequence of calls a run's recorded heartbeat is never lost and never moves back.
  pub perform_all-NotBefore :
      (calls : List Call) (m : Monitor) (run : String)
      → NotBefore (get m.heartbeats run) (get (perform_all calls m).heartbeats run)
  unfolding perform_all
  perform_all-NotBefore [] m run = NotBefore-refl (get m.heartbeats run)
  perform_all-NotBefore (call ∷ calls) m run =
      NotBefore-trans _ _ _ (perform-NotBefore call m run)
        (perform_all-NotBefore calls (perform call m) run)
