-- ===== src/Backtest/Protocol/Frozen.antt =====
-- What a protocol that src/investment_tracker/backtest_v1.py froze has.
use investment_tracker.Prelude.{
  ◌≤◌, String, ◌≡◌, ◌≢◌, refl, sym, Bool, true, false, not, ◌||◌, none, List, [], leb, subst, any,
  length, arith, ok, and_then-ok_then, str_eq, eq_iff,
}
use investment_tracker.Timestamp.{Timestamp, aware, naive, is_aware, instant}
use investment_tracker.Backtest.{FrozenBacktestProtocol}
use investment_tracker.Backtest.Protocol.{
  ProtocolPayload, require, require_aware, frozen, with_digest, accessed_early, allowed,
  allowed_all, has_duplicates, protocol_payload, validate_fold_order, freeze_backtest_protocol,
  verify_protocol_digest,
}
use investment_tracker.Backtest.Protocol.Folds.{Chronological, validate_fold_order-Chronological}

pub require-true : (b : Bool) → require b ≡ ok tt → b ≡ true
require-true b h = ground arith

accessed_early-le :
    (accessed preregistered : Timestamp)
    → is_aware accessed ≡ true
    → is_aware preregistered ≡ true
    → not (accessed_early accessed preregistered) ≡ true
    → instant preregistered ≤ instant accessed
accessed_early-le (aware a) (aware b) h k e = ground arith
accessed_early-le (aware a) (naive b) h k e = absurd (ground arith)
accessed_early-le (naive a) b h k e = absurd (ground arith)

-- The history was not read before the instant of the preregistration, the panel has no symbol twice
-- and not the benchmark, and there are three folds or more, in order.
pub record Sound (p : FrozenBacktestProtocol) : Type 0 where
  pub named : (p.candidate_id ≢ "") × (p.qualification_dataset_id ≢ "")
  pub aware : (is_aware p.preregistered_at ≡ true) × (is_aware p.history_accessed_at ≡ true)
  pub in_time : instant p.preregistered_at ≤ instant p.history_accessed_at
  pub unique : has_duplicates p.panel ≡ false
  pub outside : any (str_eq p.benchmark) p.panel ≡ false
  pub enough : 3 ≤ length p.folds
  pub ordered : Chronological p.folds

module _ (strip_upper : String → String) (digest_of : ProtocolPayload → String) where
  -- What the checks of a freeze establish before its record is made.
  record Checked (a : ProtocolPayload) (panel : List String) (benchmark : String) : Type 0 where
    named : not (str_eq a.candidate_id "" || str_eq a.qualification_dataset_id "") ≡ true
    aware : (is_aware a.preregistered_at ≡ true) × (is_aware a.history_accessed_at ≡ true)
    in_time : not (accessed_early a.history_accessed_at a.preregistered_at) ≡ true
    unique : not (has_duplicates panel) ≡ true
    outside : not (any (str_eq benchmark) panel) ≡ true
    enough : leb 3 (length a.folds) ≡ true
    ordered : validate_fold_order [] none a.folds ≡ ok tt

  freeze_backtest_protocol-Checked :
      (a : ProtocolPayload) {p : FrozenBacktestProtocol}
      → freeze_backtest_protocol strip_upper digest_of a ≡ ok p
      → (panel : List String) × (benchmark : String) × Checked a panel benchmark
        × (p ≡ with_digest digest_of (frozen a panel benchmark))
  unfolding freeze_backtest_protocol
  freeze_backtest_protocol-Checked a {p} h =
      and_then-ok_then
        (require (not (str_eq a.candidate_id "" || str_eq a.qualification_dataset_id ""))) h
        λ _ named h1. and_then-ok_then (require_aware a.preregistered_at) h1 λ _ wrote h2.
          and_then-ok_then (require_aware a.history_accessed_at) h2 λ _ read h3.
            and_then-ok_then
              (require (not (accessed_early a.history_accessed_at a.preregistered_at))) h3
              λ _ in_time h4. and_then-ok_then (allowed_all strip_upper a.panel) h4 λ panel _ h5.
                and_then-ok_then (allowed strip_upper a.benchmark) h5 λ benchmark _ h6.
                  and_then-ok_then (require (not (has_duplicates panel))) h6 λ _ unique h7.
                    and_then-ok_then (require (not (any (str_eq benchmark) panel))) h7
                      λ _ outside h8.
                        and_then-ok_then (require (leb 3 (length a.folds))) h8 λ _ enough h9.
                          and_then-ok_then (validate_fold_order [] none a.folds) h9 λ _ ordered h10.
                            (
                              panel,
                              benchmark,
                              record {
                                named = require-true _ named;
                                aware = (require-true _ wrote, require-true _ read);
                                in_time = require-true _ in_time;
                                unique = require-true _ unique;
                                outside = require-true _ outside;
                                enough = require-true _ enough;
                                ordered = ordered;
                              },
                              cc,
                            )

  -- A protocol that was frozen verifies against its own digest.
  pub freeze_backtest_protocol-verifies :
      (a : ProtocolPayload) {p : FrozenBacktestProtocol}
      → freeze_backtest_protocol strip_upper digest_of a ≡ ok p
      → verify_protocol_digest digest_of p ≡ true
  unfolding verify_protocol_digest
  freeze_backtest_protocol-verifies a {p} h =
      let (panel, benchmark, checks, is) = freeze_backtest_protocol-Checked a h in
      let d = digest_of (protocol_payload (frozen a panel benchmark)) in
      subst (λ q. verify_protocol_digest digest_of q ≡ true) (sym is) ((eq_iff d d).1 refl)

  -- A protocol that was frozen had its history read at the instant of the preregistration or later,
  -- has no symbol twice
  -- in the panel and not the benchmark, and at least three folds in order, which do not overlap.
  pub freeze_backtest_protocol-Sound :
      (a : ProtocolPayload) {p : FrozenBacktestProtocol}
      → freeze_backtest_protocol strip_upper digest_of a ≡ ok p
      → Sound p
  freeze_backtest_protocol-Sound a {p} h =
      let (panel, benchmark, c, is) = freeze_backtest_protocol-Checked a h in
      subst Sound (sym is) (record {
        named = (
          λ e. let n = c.named in ground (arith, eq_iff a.candidate_id ""),
          λ e. let n = c.named in ground (arith, eq_iff a.qualification_dataset_id ""),
        );
        aware = c.aware;
        in_time =
            accessed_early-le a.history_accessed_at a.preregistered_at c.aware.1 c.aware.0
              c.in_time;
        unique = ground arith;
        outside = ground arith;
        enough = ground arith;
        ordered = validate_fold_order-Chronological [] none a.folds c.ordered;
      })
