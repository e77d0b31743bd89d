-- ===== src/Replay/V2.antt =====
-- src/investment_tracker/replay_v2.py.
use investment_tracker.Prelude.{String, Bool, not, ◌&&◌, ◌||◌, Option, none, some, if◌then◌else◌}
use investment_tracker.Replay.{Number, SignalState, accumulate, watch, wait, trim_avoid, abstain}

pub record ReplayV2Inputs (N : Type 0) : Type 0 where
  pub asset_close : Option N
  pub asset_sma200 : Option N
  pub prior60_high : Option N
  pub prior_close : Option N
  pub asset_sma5 : Option N
  pub asset_ret20 : Option N
  pub spy_ret20 : Option N
  pub spy_close : Option N
  pub spy_sma200 : Option N

pub record ReplayV2Decision : Type 0 where
  pub version : String
  pub state : SignalState
  pub asset_trend_gate : Option Bool
  pub market_regime_gate : Option Bool
  pub pullback_gate : Option Bool
  pub stabilization_gate : Option Bool
  pub rs_gate : Option Bool
  pub chase_gate : Option Bool

abbrev pub abstention : ReplayV2Decision
abstention = record {
  version = "REPLAY-v2.0";
  state = abstain;
  asset_trend_gate = none;
  market_regime_gate = none;
  pullback_gate = none;
  stabilization_gate = none;
  rs_gate = none;
  chase_gate = none;
}

-- The state by the gates, after `asset_ret20 < -0.10`.
unfoldable pub state_v2 : Bool → Bool → Bool → Bool → Bool → Bool → Bool → SignalState
state_v2 falling asset_trend market_regime pullback stabilization rs chase =
    if not asset_trend && falling
    then trim_avoid
    else if not asset_trend || not market_regime || not chase
    then wait
    else if not (pullback && stabilization && rs)
    then watch
    else accumulate

abbrev pub decided : Bool → Bool → Bool → Bool → Bool → Bool → Bool → ReplayV2Decision
decided falling asset_trend market_regime pullback stabilization rs chase = record {
  version = "REPLAY-v2.0";
  state = state_v2 falling asset_trend market_regime pullback stabilization rs chase;
  asset_trend_gate = some asset_trend;
  market_regime_gate = some market_regime;
  pullback_gate = some pullback;
  stabilization_gate = some stabilization;
  rs_gate = some rs;
  chase_gate = some chase;
}

module _ (F : Number) where
  -- The rule on nine known values: close, sma200, prior high, prior close, sma5, the two returns
  -- and the benchmark's close and sma200.
  unfoldable pub evaluate_known :
      F.N → F.N → F.N → F.N → F.N → F.N → F.N → F.N → F.N → ReplayV2Decision
  evaluate_known close sma200 high prior sma5 ret20 spy_ret20 spy_close spy_sma200 =
      decided (F.lt ret20 (F.negate (F.hundredths 10))) (F.lt sma200 close)
        (F.lt spy_sma200 spy_close)
        (F.le (F.times (F.hundredths 85) high) close && F.le close (F.times (F.hundredths 95) high))
        (F.lt prior close && F.le sma5 close) (F.le spy_ret20 ret20)
        (not (F.le (F.times (F.hundredths 98) high) close && F.le (F.hundredths 8) ret20))

  -- The test that no value is None, then the rule.
  unfoldable pub evaluate_options :
      Option F.N
      → Option F.N
      → Option F.N
      → Option F.N
      → Option F.N
      → Option F.N
      → Option F.N
      → Option F.N
      → Option F.N
      → ReplayV2Decision
  evaluate_options (some a) (some b) (some c) (some d) (some e) (some f) (some g) (some h)
        (some i) =
      evaluate_known a b c d e f g h i
  evaluate_options _ _ _ _ _ _ _ _ _ = abstention

  unfoldable pub evaluate_replay_v2 : ReplayV2Inputs F.N → ReplayV2Decision
  unfolding evaluate_options evaluate_known
  evaluate_replay_v2 inputs =
      evaluate_options inputs.asset_close inputs.asset_sma200 inputs.prior60_high inputs.prior_close
        inputs.asset_sma5 inputs.asset_ret20 inputs.spy_ret20 inputs.spy_close inputs.spy_sma200
