-- ===== src/Replay/V1.antt =====
-- src/investment_tracker/replay.py.
use investment_tracker.Prelude.{
  Bool, true, false, not, ◌&&◌, ◌||◌, Option, none, some, [], ◌∷◌, any, if◌then◌else◌,
}
use investment_tracker.Replay.{Number, SignalState, accumulate, watch, wait, trim_avoid, abstain}

-- The strings PASS, FAIL and UNKNOWN, the only ones that the gates return.
pub data Gate : Type 0 where
  passed failed unknown : Gate

abbrev pub is_passed : Gate → Bool
is_passed passed = true
is_passed _ = false

abbrev pub is_failed : Gate → Bool
is_failed failed = true
is_failed _ = false

abbrev pub is_unknown : Gate → Bool
is_unknown unknown = true
is_unknown _ = false

abbrev pub gate_of : Bool → Gate
gate_of true = passed
gate_of false = failed

module _ (F : Number) where
  unfoldable pub trend_gate : F.N → Option F.N → Gate
  trend_gate close none = unknown
  trend_gate close (some sma200) = gate_of (F.lt sma200 close)

  unfoldable pub pullback_gate : F.N → Option F.N → Gate
  pullback_gate close none = unknown
  pullback_gate close (some high) =
      if F.le high (F.hundredths 0)
      then unknown
      else gate_of (
          F.le (F.times (F.hundredths 85) high) close
          && F.le close (F.times (F.hundredths 95) high))

  unfoldable pub stabilization_gate : F.N → Option F.N → Option F.N → Gate
  stabilization_gate close (some prior_close) (some sma5) =
      gate_of (F.lt prior_close close && F.le sma5 close)
  stabilization_gate close _ _ = unknown

  unfoldable pub relative_strength_gate : Option F.N → Option F.N → Gate
  relative_strength_gate (some asset_ret20) (some spy_ret20) =
      gate_of (F.le (F.minus spy_ret20 (F.hundredths 5)) asset_ret20)
  relative_strength_gate _ _ = unknown

  unfoldable pub chase_gate : F.N → Option F.N → Option F.N → Gate
  chase_gate close (some high) (some ret20) =
      if F.le high (F.hundredths 0)
      then unknown
      else gate_of
          (not (F.le (F.times (F.hundredths 98) high) close && F.le (F.hundredths 8) ret20))
  chase_gate close _ _ = unknown

  unfoldable pub signal_state : Gate → Gate → Gate → Gate → Gate → Option F.N → SignalState
  signal_state trend pullback stabilization relative_strength chase none = abstain
  signal_state trend pullback stabilization relative_strength chase (some ret20) =
      if any is_unknown (trend ∷ pullback ∷ stabilization ∷ relative_strength ∷ chase ∷ [])
      then abstain
      else if is_failed trend && F.lt ret20 (F.negate (F.hundredths 10))
      then trim_avoid
      else if is_failed trend || is_failed chase
      then wait
      else if is_passed trend && any is_failed (pullback ∷ stabilization ∷ relative_strength ∷ [])
      then watch
      else if is_passed trend
          && is_passed pullback
          && is_passed stabilization
          && is_passed relative_strength
          && is_passed chase
      then accumulate
      else abstain

abbrev pub is_accumulate : SignalState → Bool
is_accumulate accumulate = true
is_accumulate _ = false

-- `is_episode_start`; no previous state is `none`.
unfoldable pub is_episode_start : Option SignalState → SignalState → Bool
is_episode_start none current = is_accumulate current
is_episode_start (some previous) current = is_accumulate current && not (is_accumulate previous)
