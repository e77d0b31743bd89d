-- ===== src/CanonicalWrite/Examples.antt =====
-- The theorems on src/investment_tracker/canonical_write.py at concrete calls, and tests.
use investment_tracker.Prelude.{
  String, ◌≡◌, refl, some, none, List, [], ◌∷◌, arith, ok, IsErr, is_blank,
}
use investment_tracker.Dict.{string_key, get, put}
use investment_tracker.Timestamp.{aware, ahead}
use investment_tracker.CanonicalWrite.{
  Coordinator, WriteLease, CommittedWrite, new_coordinator, acquire, commit, write_of,
}
use investment_tracker.CanonicalWrite.History.{
  Call, acquire_call, commit_call, perform, perform_all, perform_all-stays,
}
use investment_tracker.CanonicalWrite.Fencing.{Granted, acquire-Granted, commit-fenced}

abbrev digest_a : String
digest_a = "aaaaaaaaaaaaaaaaaaaaaaaaaaaaaaaaaaaaaaaaaaaaaaaaaaaaaaaaaaaaaaaa"

abbrev digest_b : String
digest_b = "bbbbbbbbbbbbbbbbbbbbbbbbbbbbbbbbbbbbbbbbbbbbbbbbbbbbbbbbbbbbbbbb"

abbrev first_lease : WriteLease
first_lease = record {
  writer_id = "worker-1";
  run_id = "run-1";
  acquired_at = aware 100;
  expires_at = aware 110;
  generation = 1;
}

abbrev second_lease : WriteLease
second_lease = record {
  writer_id = "worker-2";
  run_id = "run-2";
  acquired_at = aware 120;
  expires_at = aware 150;
  generation = 2;
}

abbrev held : Coordinator
held = record { lease = some first_lease; generation = 1; committed = [] }

abbrev taken_over : Coordinator
taken_over = record { lease = some second_lease; generation = 2; committed = [] }

abbrev first_call : List Call
first_call = acquire_call "worker-1" "run-1" (aware 100) (ahead 10) none ∷ []

takeover :
    acquire "worker-2" "run-2"
      (aware 120)
      (ahead 30)
      (some 1)
      (perform_all first_call new_coordinator)
    ≡ (ok second_lease, taken_over)
unfolding perform_all perform acquire is_blank
takeover = refl

-- The old writer tries to commit after the takeover.
commit-fenced_example :
    IsErr
      (commit first_lease "key" digest_a digest_a (aware 105) (
        perform_all
          (commit_call second_lease "other" digest_b digest_b (aware 125) ∷ [])
          taken_over)).0
    × ((commit first_lease "key" digest_a digest_a (aware 105) (
          perform_all
            (commit_call second_lease "other" digest_b digest_b (aware 125) ∷ [])
            taken_over)).1
        ≡ perform_all
            (commit_call second_lease "other" digest_b digest_b (aware 125) ∷ [])
            taken_over)
commit-fenced_example =
    commit-fenced first_call (commit_call second_lease "other" digest_b digest_b (aware 125) ∷ [])
      "worker-2" "run-2" (aware 120) (ahead 30) (some 1) first_lease "key" digest_a digest_a
      (aware 105) takeover (omega arith)

acquire-Granted_example :
    Granted (aware 120) (some 1) (perform_all first_call new_coordinator) second_lease taken_over
acquire-Granted_example =
    acquire-Granted "worker-2" "run-2" (aware 120) (ahead 30) (some 1)
      (perform_all first_call new_coordinator) takeover

abbrev written : CommittedWrite
written = write_of first_lease "key" digest_a (aware 101)

abbrev committed : Coordinator
committed = record { lease = some first_lease; generation = 1; committed = put [] "key" written }

key_written : get committed.committed "key" ≡ some written
unfolding get put
key_written = refl

-- Another writer takes over and commits under the same key.
perform_all-stays_example :
    get
      (perform_all
        (acquire_call "worker-2" "run-2" (aware 120) (ahead 30) (some 1)
          ∷ commit_call second_lease "key" digest_b digest_b (aware 125)
          ∷ [])
        committed).committed
      "key"
    ≡ some written
perform_all-stays_example =
    perform_all-stays
      (acquire_call "worker-2" "run-2" (aware 120) (ahead 30) (some 1)
        ∷ commit_call second_lease "key" digest_b digest_b (aware 125)
        ∷ [])
      committed "key" written key_written
