-- ===== src/Backtest/Report/Verified.antt =====
-- What a report of src/investment_tracker/backtest_v1.py vouches for.
use investment_tracker.Prelude.{
  ℕ, ◌≡◌, subst, String, true, not, List, [], map, All, arith, leb, ok, and_then-ok_then, or_raise,
  Option, refl, ◌∷◌,
}
use investment_tracker.Backtest.{
  Decimals, value_error, FrozenBacktestProtocol, QualificationAttempt, EpisodeObservation,
  BaselineObservation, IndependentCluster, BacktestReport,
}
use investment_tracker.Backtest.Protocol.{
  ProtocolPayload, require, calendar, verify_protocol_digest, assert_qualification_dataset_unused,
  validate_protocol_calendar,
}
use investment_tracker.Backtest.Protocol.Frozen.{require-true}
use investment_tracker.Backtest.Protocol.Embargo.{calendar-same}
use investment_tracker.Backtest.Statistics.{bootstrap_median_interval}
use investment_tracker.Backtest.Episodes.{independent_clusters}
use investment_tracker.Backtest.Observations.{
  Collected, nothing_collected, collect, clean_baselines,
}
use investment_tracker.Backtest.Observations.Lookahead.{NoLookahead, collect-NoLookahead}
use investment_tracker.Backtest.Verdict.{is_nonempty}
use investment_tracker.Backtest.Report.{evidence_of, report_of, evaluate_backtest}

quiet-errors : {A : Type 0} (errors : List A) → not (is_nonempty errors) ≡ true → errors ≡ []
quiet-errors [] h = refl
quiet-errors (e ∷ errors) h = absurd (ground arith)

module _ (D : Decimals) (strip_upper : String → String) (digest_of : ProtocolPayload → String)
    (comb : ℕ → ℕ → ℕ) (year_of : ℕ → ℕ) (rng : String → ℕ → ℕ → List (List ℕ)) where
  module _ (protocol : FrozenBacktestProtocol) (observations : List (EpisodeObservation D.N))
      (baselines : List (BaselineObservation D.N)) (sessions : List ℕ)
      (attempts : List QualificationAttempt) (draws : ℕ) where
    -- The steps of an evaluation that returned.
    pub record Evaluated (report : BacktestReport D.N) : Type 0 where
      pub c : Collected D.N
      pub clusters : List (IndependentCluster D.N)
      pub clean : List D.N
      pub interval : Option D.N × Option D.N
      pub verified : verify_protocol_digest digest_of protocol ≡ true
      pub unused : assert_qualification_dataset_unused protocol attempts ≡ ok tt
      pub in_calendar : validate_protocol_calendar protocol sessions ≡ ok tt
      pub collected : collect D strip_upper protocol sessions observations nothing_collected ≡ ok c
      pub on_time : not (is_nonempty c.timing_errors) ≡ true
      pub clustered : independent_clusters D c.clean_primary_rows sessions ≡ ok clusters
      pub reported :
          report
          ≡ report_of D protocol (evidence_of D comb year_of protocol c clusters clean) interval

    pub evaluate_backtest-Evaluated :
        {report : BacktestReport D.N}
        → evaluate_backtest D strip_upper digest_of comb year_of rng protocol observations baselines
            sessions attempts draws
          ≡ ok report
        → Evaluated report
    unfolding evaluate_backtest
    evaluate_backtest-Evaluated {report} h =
        and_then-ok_then (require (verify_protocol_digest digest_of protocol)) h λ _ verified h1.
          and_then-ok_then (assert_qualification_dataset_unused protocol attempts) h1 λ _ unused h2.
            and_then-ok_then (validate_protocol_calendar protocol sessions) h2 λ _ in_calendar h3.
              and_then-ok_then (require (leb 100 draws)) h3 λ _ enough h4.
                and_then-ok_then (calendar sessions) h4 λ days same h5.
                  and_then-ok_then
                    (collect D strip_upper protocol days observations nothing_collected) h5
                    λ c collected h6.
                      and_then-ok_then (require (not (is_nonempty c.timing_errors))) h6
                        λ _ on_time h7.
                          and_then-ok_then (independent_clusters D c.clean_primary_rows days) h7
                            λ clusters clustered h8.
                              and_then-ok_then (clean_baselines D strip_upper protocol baselines) h8
                                λ clean _ h9.
                                  and_then-ok_then
                                    (or_raise value_error (
                                      bootstrap_median_interval D rng
                                        (map (λ (k : IndependentCluster D.N). k.net_excess_spy)
                                          clusters)
                                        protocol.protocol_digest draws))
                                    h9
                                    λ interval _ h10.
                                      let is = (calendar-same sessions same).1 in
                                      record {
                                        c = c;
                                        clusters = clusters;
                                        clean = clean;
                                        interval = interval;
                                        verified = require-true _ verified;
                                        unused = unused;
                                        in_calendar = in_calendar;
                                        collected =
                                            subst
                                              (λ (ds : List ℕ).
                                                collect D strip_upper protocol ds observations
                                                  nothing_collected
                                                ≡ ok c)
                                              is collected;
                                        on_time = require-true _ on_time;
                                        clustered =
                                            subst
                                              (λ (ds : List ℕ).
                                                independent_clusters D c.clean_primary_rows ds
                                                ≡ ok clusters)
                                              is clustered;
                                        reported = ground arith;
                                      }

    -- If an evaluation returns, then every clean observation of the primary horizon was entered at the
    -- session after its signal and closed twenty sessions after it, all within its own fold.
    pub evaluate_backtest-NoLookahead :
        {report : BacktestReport D.N}
        → evaluate_backtest D strip_upper digest_of comb year_of rng protocol observations baselines
            sessions attempts draws
          ≡ ok report
        → All (NoLookahead D strip_upper protocol sessions) observations
    evaluate_backtest-NoLookahead h =
        let e = evaluate_backtest-Evaluated h in
        (collect-NoLookahead D strip_upper protocol sessions observations nothing_collected e.c
          e.collected (quiet-errors e.c.timing_errors e.on_time)).1
