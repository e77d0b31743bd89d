-- ===== src/WriteLock/Examples.antt =====
-- The theorem on src/investment_tracker/coordinator_lock.py at two concrete runs, and tests.
use investment_tracker.Prelude.{◌≡◌, refl, true, some, arith, eq_iff, [], ◌∷◌, IsErr, ok, err}
use investment_tracker.WriteLock.{LockFile, absent, holding, acquire, release, stale_lock}
use investment_tracker.WriteLock.Exclusion.{
  acquire_call, release_call, perform_all, acquire-excludes,
}

abbrev ours : LockFile
ours = holding (record {
  run_id = some "run-1";
  scope = some "CIBR";
  snapshot_id = some "S1";
  acquired_at = some 5;
})

taken : acquire 1 5 true "run-1" "CIBR" "S1" absent ≡ (ok tt, ours)
unfolding acquire
taken = refl

-- A second later the lock is stale, and is still not displaced.
stale : acquire 1 1000006 true "run-2" "CIBR" "S2" ours ≡ (err stale_lock, ours)
unfolding acquire
stale = refl

acquire-excludes_example :
    (perform_all (acquire_call 1 2000000 true "run-2" "CIBR" "S2" ∷ release_call "run-2" ∷ []) ours
      ≡ ours)
    × IsErr (acquire 1 9 true "run-3" "CIBR" "S3" ours).0
    × (release "run-1" ours ≡ (ok tt, absent))
acquire-excludes_example =
    acquire-excludes 1 5 true "run-1" "CIBR" "S1" absent
      (acquire_call 1 2000000 true "run-2" "CIBR" "S2" ∷ release_call "run-2" ∷ []) 9 true "run-3"
      "CIBR" "S3" taken (tt, (λ e. ground (arith, eq_iff "run-1" "run-2"), tt))
