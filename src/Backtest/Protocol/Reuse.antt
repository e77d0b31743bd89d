-- ===== src/Backtest/Protocol/Reuse.antt =====
-- When src/investment_tracker/backtest_v1.py takes a qualification dataset as unused.
use investment_tracker.Prelude.{
  ◌≡◌, ◌↔◌, inl, inr, List, [], ◌∷◌, arith, All, ok, true, Bool-cases, str_eq, eq_iff,
}
use investment_tracker.Backtest.{FrozenBacktestProtocol, QualificationAttempt}
use investment_tracker.Backtest.Protocol.{same_protocol, assert_qualification_dataset_unused}

-- An attempt on the protocol's dataset was a qualification of that very protocol.
abbrev pub Recomputes : FrozenBacktestProtocol → QualificationAttempt → Type 0
Recomputes protocol attempt =
    attempt.qualification_dataset_id ≡ protocol.qualification_dataset_id
    → (attempt.candidate_id ≡ protocol.candidate_id)
      × (attempt.protocol_digest ≡ protocol.protocol_digest)
      × (attempt.purpose ≡ "QUALIFICATION")

same_protocol_iff :
    (protocol : FrozenBacktestProtocol) (attempt : QualificationAttempt)
    → (same_protocol protocol attempt ≡ true) ↔ (
        (attempt.candidate_id ≡ protocol.candidate_id)
        × (attempt.protocol_digest ≡ protocol.protocol_digest)
        × (attempt.purpose ≡ "QUALIFICATION"))
same_protocol_iff protocol attempt =
    let one = eq_iff attempt.candidate_id protocol.candidate_id in
    let two = eq_iff attempt.protocol_digest protocol.protocol_digest in
    let three = eq_iff attempt.purpose "QUALIFICATION" in
    (
      λ h. (one.0 (ground arith), two.0 (ground arith), three.0 (ground arith)),
      λ h. let a = one.1 h.0 in let b = two.1 h.1 in let c = three.1 h.2 in ground arith,
    )

-- A dataset is taken as unused exactly if every earlier attempt on it was a qualification of the same
-- candidate under the same protocol digest.
pub assert_qualification_dataset_unused_iff :
    (protocol : FrozenBacktestProtocol) (attempts : List QualificationAttempt)
    → (assert_qualification_dataset_unused protocol attempts ≡ ok tt)
      ↔ All (Recomputes protocol) attempts
unfolding assert_qualification_dataset_unused
assert_qualification_dataset_unused_iff protocol [] = (λ h. tt, λ h. cc)
assert_qualification_dataset_unused_iff protocol (attempt ∷ attempts) =
    let rest = assert_qualification_dataset_unused_iff protocol attempts in
    let mine = eq_iff attempt.qualification_dataset_id protocol.qualification_dataset_id in
    let same = same_protocol_iff protocol attempt in
    elim (Bool-cases (str_eq attempt.qualification_dataset_id protocol.qualification_dataset_id)) [
      | inr other ↦ (
        λ h. (λ e. absurd (ground (arith, mine.1 e)), rest.0 (ground arith)),
        λ h. let tail = rest.1 h.1 in ground arith,
      )
      | inl hit ↦ elim (Bool-cases (same_protocol protocol attempt)) [
        | inl fits ↦ (
          λ h. (λ e. same.0 fits, rest.0 (ground arith)),
          λ h. let tail = rest.1 h.1 in ground arith,
        )
        | inr differs ↦ (
          λ h. absurd (ground arith),
          λ h. let fits = same.1 (h.0 (mine.0 hit)) in absurd (ground arith),
        )
      ]
    ]
