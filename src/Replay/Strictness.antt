-- ===== src/Replay/Strictness.antt =====
-- What an accumulating signal of the rules in src/investment_tracker/replay_v2.py and replay_v2_1.py
-- says, and how the two rules compare on the same numbers.
use investment_tracker.Prelude.{◌≡◌, ◌↔◌, Bool, true, false, not, ◌&&◌, Option, some, arith, none}
use investment_tracker.Replay.{Number, SignalState, accumulate, watch}
use investment_tracker.Replay.V2.{
  ReplayV2Inputs, ReplayV2Decision, state_v2, decided, evaluate_known, evaluate_options,
  evaluate_replay_v2,
}
use investment_tracker.Replay.V21.{ReplayV21Inputs, state_v2_1, evaluate_replay_v2_1}
use investment_tracker.Replay.V21.{
  evaluate_known as evaluate_known_v2_1, evaluate_options as evaluate_options_v2_1,
}

-- Every gate that a decision records is known and open.
pub record AllOpen (d : ReplayV2Decision) : Type 0 where
  pub trend : d.asset_trend_gate ≡ some true
  pub market : d.market_regime_gate ≡ some true
  pub pullback : d.pullback_gate ≡ some true
  pub stabilization : d.stabilization_gate ≡ some true
  pub strength : d.rs_gate ≡ some true
  pub chase : d.chase_gate ≡ some true

decided_iff :
    (falling trend market pullback stabilization rs chase : Bool)
    → ((decided falling trend market pullback stabilization rs chase).state ≡ accumulate)
      ↔ AllOpen (decided falling trend market pullback stabilization rs chase)
unfolding state_v2
decided_iff falling trend market pullback stabilization rs chase =
    (λ h. ground arith, λ h. ground arith)

-- An accumulating state, if the gate is closed, becomes one to watch.
abbrev pub demoted : Option Bool → SignalState → SignalState
demoted (some false) accumulate = watch
demoted _ s = s

module _ (F : Number) where
  -- Whether the close is at least 1.00 + 0.05 times the long average, if both are known.
  abbrev pub above_cushion : Option F.N → Option F.N → Option Bool
  above_cushion (some close) (some sma200) =
      some (F.le (F.times sma200 (F.plus (F.hundredths 100) (F.hundredths 5))) close)
  above_cushion _ _ = none

  evaluate_options_iff :
      (a b c d e f g h i : Option F.N)
      → ((evaluate_options F a b c d e f g h i).state ≡ accumulate)
        ↔ AllOpen (evaluate_options F a b c d e f g h i)
  unfolding evaluate_options evaluate_known
  evaluate_options_iff (some a) (some b) (some c) (some d) (some e) (some f) (some g) (some h)
        (some i) =
      decided_iff (F.lt f (F.negate (F.hundredths 10))) (F.lt b a) (F.lt i h)
        (F.le (F.times (F.hundredths 85) c) a && F.le a (F.times (F.hundredths 95) c))
        (F.lt d a && F.le e a) (F.le g f)
        (not (F.le (F.times (F.hundredths 98) c) a && F.le (F.hundredths 8) f))
  evaluate_options_iff _ _ _ _ _ _ _ _ _ = (λ h. cc, λ h. cc h.trend)

  -- The rule signals to accumulate exactly when all nine values are known and every gate that the
  -- decision records is open.
  evaluate_replay_v2_iff :
      (inputs : ReplayV2Inputs F.N)
      → ((evaluate_replay_v2 F inputs).state ≡ accumulate) ↔ AllOpen (evaluate_replay_v2 F inputs)
  unfolding evaluate_replay_v2
  evaluate_replay_v2_iff inputs =
      evaluate_options_iff inputs.asset_close inputs.asset_sma200 inputs.prior60_high
        inputs.prior_close inputs.asset_sma5 inputs.asset_ret20 inputs.spy_ret20 inputs.spy_close
        inputs.spy_sma200

  -- The two rules' states on the same nine values.
  abbrev as_v2 : ReplayV21Inputs F.N → ReplayV2Inputs F.N
  as_v2 x = record {
    asset_close = x.asset_close;
    asset_sma200 = x.asset_sma200;
    prior60_high = x.prior60_high;
    prior_close = x.prior_close;
    asset_sma5 = x.asset_sma5;
    asset_ret20 = x.asset_ret20;
    spy_ret20 = x.spy_ret20;
    spy_close = x.spy_close;
    spy_sma200 = x.spy_sma200;
  }

  options_demoted :
      (a b c d e f g h i : Option F.N)
      → (evaluate_options_v2_1 F a b c d e f g h i).state
        ≡ demoted (above_cushion a b) (evaluate_options F a b c d e f g h i).state
  unfolding evaluate_options evaluate_known evaluate_options_v2_1 evaluate_known_v2_1 state_v2
      state_v2_1
  options_demoted (some a) (some b) (some c) (some d) (some e) (some f) (some g) (some h) (some i) =
      ground arith
  options_demoted _ _ _ _ _ _ _ _ _ = ground arith

  -- The rule v2.1 agrees with v2 on every input, but for one change: where v2 says to accumulate and
  -- the close is less than 1.00 + 0.05 times its 200-day average, v2.1 says to watch.
  pub evaluate_replay_v2_1_demotes :
      (inputs : ReplayV21Inputs F.N)
      → (evaluate_replay_v2_1 F inputs).state
        ≡ demoted
            (above_cushion inputs.asset_close inputs.asset_sma200)
            (evaluate_replay_v2 F (as_v2 inputs)).state
  unfolding evaluate_replay_v2 evaluate_replay_v2_1
  evaluate_replay_v2_1_demotes x =
      options_demoted x.asset_close x.asset_sma200 x.prior60_high x.prior_close x.asset_sma5
        x.asset_ret20 x.spy_ret20 x.spy_close x.spy_sma200
