-- ===== src/WriteLock.antt =====
-- src/investment_tracker/coordinator_lock.py: the lock file of canonical writes. The state is what
-- stands at the path: nothing, a file that is no JSON, or the JSON object that was written. A call
-- brings its own reading of the clock, in microseconds, and whether its write succeeds.
pub mod Exclusion
mod Examples
use investment_tracker.Prelude.{
  ℕ, ◌+◌, ◌*◌, String, Bool, true, false, not, Option, none, some, if◌then◌else◌, ltb, str_eq,
  Result, ok, err, Exec,
}

-- `json.dumps(record)` read back; a field that is missing is `none`, and so is an `acquired_at`
-- that is no time.
pub record LockRecord : Type 0 where
  pub run_id : Option String
  pub scope : Option String
  pub snapshot_id : Option String
  pub acquired_at : Option ℕ

pub data LockFile : Type 0 where
  absent unreadable : LockFile
  holding : LockRecord → LockFile

-- `StaleLockError` is a `LockHeldError`; `write_failed` is what the file system raised.
pub data LockError : Type 0 where
  lock_held stale_lock write_failed : LockError

-- `age > stale_after_seconds`
abbrev pub is_stale : ℕ → ℕ → ℕ → Bool
is_stale stale_after_seconds now acquired = ltb (acquired + stale_after_seconds * 1000000) now

-- `_raise_existing`: which error.
unfoldable pub existing_error : ℕ → ℕ → LockFile → LockError
existing_error stale_after_seconds now absent = lock_held
existing_error stale_after_seconds now unreadable = lock_held
existing_error stale_after_seconds now (holding r) = elim r.acquired_at [
  | none ↦ lock_held
  | some acquired ↦ if is_stale stale_after_seconds now acquired then stale_lock else lock_held
]

abbrev pub Action : Type 0 → Type 0
Action A = Exec LockFile LockError A

-- `os.open` with O_EXCL fails on a path that exists; a write that fails takes the file away again.
unfoldable pub acquire : ℕ → ℕ → Bool → String → String → String → Action Unit
unfolding existing_error
acquire stale_after_seconds now writes run_id scope snapshot_id absent =
    if writes
    then (
      ok tt,
      holding (record {
        run_id = some run_id;
        scope = some scope;
        snapshot_id = some snapshot_id;
        acquired_at = some now;
      }),
    )
    else (err write_failed, absent)
acquire stale_after_seconds now writes run_id scope snapshot_id file =
    (err (existing_error stale_after_seconds now file), file)

-- `data.get("run_id") != run_id`, negated
abbrev pub is_owner : Option String → String → Bool
is_owner none run_id = false
is_owner (some owner) run_id = str_eq owner run_id

unfoldable pub release : String → Action Unit
release run_id absent = (err lock_held, absent)
release run_id unreadable = (err lock_held, unreadable)
release run_id (holding r) =
    if is_owner r.run_id run_id then (ok tt, absent) else (err lock_held, holding r)
