-- ===== src/WriteLock/Exclusion.antt =====
-- The lock of src/investment_tracker/coordinator_lock.py over sequences of calls.
use investment_tracker.Prelude.{
  ℕ, String, ◌≡◌, ◌≢◌, refl, Bool, true, false, ◌∙◌, ap, subst, some, List, [], ◌∷◌, All, arith,
  eq_iff, IsErr, ok,
}
use investment_tracker.WriteLock.{LockFile, LockRecord, absent, holding, acquire, release}

pub data Call : Type 0 where
  acquire_call : ℕ → ℕ → Bool → String → String → String → Call
  release_call : String → Call

unfoldable pub perform : Call → LockFile → LockFile
perform (acquire_call stale now writes run scope snapshot) file =
    (acquire stale now writes run scope snapshot file).1
perform (release_call run) file = (release run file).1

unfoldable pub perform_all : List Call → LockFile → LockFile
perform_all [] file = file
perform_all (call ∷ calls) file = perform_all calls (perform call file)

-- The call is no release by this run.
abbrev pub SparesOwner : String → Call → Type 0
SparesOwner owner (acquire_call stale now writes run scope snapshot) = Unit
SparesOwner owner (release_call run) = owner ≢ run

held_by-perform :
    (call : Call) (r : LockRecord) (owner : String)
    → r.run_id ≡ some owner
    → SparesOwner owner call
    → perform call (holding r) ≡ holding r
unfolding perform acquire release
held_by-perform (acquire_call stale now writes run scope snapshot) r owner e spares = refl
held_by-perform (release_call run) r owner e spares = ground (arith, eq_iff owner run)

held_by-perform_all :
    (calls : List Call) (r : LockRecord) (owner : String)
    → r.run_id ≡ some owner
    → All (SparesOwner owner) calls
    → perform_all calls (holding r) ≡ holding r
unfolding perform_all
held_by-perform_all [] r owner e spares = refl
held_by-perform_all (call ∷ calls) r owner e spares =
    ap (perform_all calls) (held_by-perform call r owner e spares.0)
    ∙ held_by-perform_all calls r owner e spares.1

acquire-holding :
    (stale now : ℕ) (writes : Bool) (owner scope snapshot : String) (file : LockFile)
    {held : LockFile}
    → acquire stale now writes owner scope snapshot file ≡ (ok tt, held)
    → (r : LockRecord) × (r.run_id ≡ some owner) × (holding r ≡ held)
unfolding acquire
acquire-holding stale now true owner scope snapshot absent h = (
  record {
    run_id = some owner;
    scope = some scope;
    snapshot_id = some snapshot;
    acquired_at = some now;
  },
  refl,
  ap (λ p. p.1) h,
)
acquire-holding stale now false owner scope snapshot absent h = absurd (ground arith)
acquire-holding stale now writes owner scope snapshot _ h = absurd (ground arith)

release-holding :
    (owner : String) (r : LockRecord)
    → r.run_id ≡ some owner
    → release owner (holding r) ≡ (ok tt, absent)
unfolding release
release-holding owner r e = ground (arith, eq_iff owner owner)

-- Once a run has the lock, then after any further calls, none of them its own release, the file is
-- unchanged, every call to acquire raises, and a release by the run frees the path.
pub acquire-excludes :
    (stale now : ℕ) (writes : Bool) (owner scope snapshot : String) (file : LockFile)
    {held : LockFile} (calls : List Call) (later : ℕ) (their_writes : Bool)
    (run their_scope their_snapshot : String)
    → acquire stale now writes owner scope snapshot file ≡ (ok tt, held)
    → All (SparesOwner owner) calls
    → (perform_all calls held ≡ held)
      × IsErr (acquire stale later their_writes run their_scope their_snapshot held).0
      × (release owner held ≡ (ok tt, absent))
unfolding acquire
acquire-excludes stale now writes owner scope snapshot file calls later their_writes run their_scope
      their_snapshot h spares =
    let (r, own, is) = acquire-holding stale now writes owner scope snapshot file h in
    subst
      (λ held.
        (perform_all calls held ≡ held)
        × IsErr (acquire stale later their_writes run their_scope their_snapshot held).0
        × (release owner held ≡ (ok tt, absent)))
      is (held_by-perform_all calls r owner own spares, tt, release-holding owner r own)
