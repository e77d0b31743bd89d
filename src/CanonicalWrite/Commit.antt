-- ===== src/CanonicalWrite/Commit.antt =====
-- What `prepare` and `commit` of src/investment_tracker/canonical_write.py do on each branch.
use investment_tracker.Prelude.{
  String, ◌≡◌, Bool, false, some, none, arith, ok, eq_iff, Option-cases, inl, inr,
}
use investment_tracker.Dict.{string_key, get, get-put_self}
use investment_tracker.Timestamp.{Timestamp}
use investment_tracker.CanonicalWrite.{
  Coordinator, WriteLease, CommittedWrite, commit, prepare, assert_current, ready,
  already_committed,
}

pub assert_current-keeps :
    (lease : WriteLease) (now : Timestamp) (expired : Bool) (c : Coordinator)
    → (assert_current lease now expired c).1 ≡ c
unfolding assert_current
assert_current-keeps lease now expired c = ground arith

pub prepare-keeps :
    (lease : WriteLease) (key payload : String) (now : Timestamp) (c : Coordinator)
    → (prepare lease key payload now c).1 ≡ c
unfolding prepare
prepare-keeps lease key payload now c = ground (arith)

-- A key that `prepare` calls ready is not committed.
pub prepare-ready :
    (lease : WriteLease) (key payload : String) (now : Timestamp) (c : Coordinator)
    → (prepare lease key payload now c).0 ≡ ok ready
    → (get c.committed key ≡ none) × ((assert_current lease now false c).0 ≡ ok tt)
unfolding prepare
prepare-ready lease key payload now c h = ground arith

pub prepare-already :
    (lease : WriteLease) (key payload : String) (now : Timestamp) (c : Coordinator)
    → (prepare lease key payload now c).0 ≡ ok already_committed
    → (w : CommittedWrite) × (get c.committed key ≡ some w) × (w.payload_digest ≡ payload)
unfolding prepare
prepare-already lease key payload now c h = elim (Option-cases (get c.committed key)) [
  | inl fresh ↦ ground arith
  | inr (w, e) ↦ (w, e, ground (arith, eq_iff w.payload_digest payload))
]

-- A successful commit leaves its record under the key, with the payload's digest.
pub commit_writes :
    (lease : WriteLease) (key payload readback : String) (now : Timestamp) (c : Coordinator)
    {w : CommittedWrite} {c' : Coordinator}
    → commit lease key payload readback now c ≡ (ok w, c')
    → (get c'.committed key ≡ some w) × (w.payload_digest ≡ payload)
unfolding commit
commit_writes lease key payload readback now c {w} h = ground (
  arith,
  prepare-keeps lease key payload now c,
  prepare-already lease key payload now c,
  get-put_self c.committed key w,
)
