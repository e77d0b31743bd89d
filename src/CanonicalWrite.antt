-- ===== src/CanonicalWrite.antt =====
-- src/investment_tracker/canonical_write.py: the process-local single-writer and idempotency guard.
-- A method of `CanonicalWriteCoordinator` is an action that gives its result or the exception, and
-- the coordinator as it left it. Texts are native strings; a payload's digest comes from outside.
pub mod Commit
pub mod History
pub mod Fencing
mod Examples
use investment_tracker.Prelude.{
  ℕ, ◌+◌, String, Bool, true, false, not, ◌&&◌, Option, none, some, [], ◌==◌, if◌then◌else◌, str_eq,
  is_blank, is_digest, Exec, ok, err, pure, raise, lift, or_raise, gets, modify, raise_if, ◌>>=◌,
  ◌>>◌,
}
use investment_tracker.Dict.{Dict, string_key, get, put}
use investment_tracker.Timestamp.{
  Timestamp, is_aware, same_time, before, plus, Duration, is_positive, micros,
}

-- The exception classes, Python's own included.
pub data WriteError : Type 0 where
  concurrent_writer stale_lease_takeover write_conflict readback_mismatch lease_state : WriteError
  value_error type_error overflow_error key_error : WriteError

pub data WriteDisposition : Type 0 where
  ready already_committed : WriteDisposition

pub record WriteLease : Type 0 where
  pub writer_id : String
  pub run_id : String
  pub acquired_at : Timestamp
  pub expires_at : Timestamp
  pub generation : ℕ

pub record CommittedWrite : Type 0 where
  pub semantic_key : String
  pub payload_digest : String
  pub run_id : String
  pub writer_id : String
  pub committed_at : Timestamp

pub record Coordinator : Type 0 where
  pub lease : Option WriteLease
  pub generation : ℕ
  pub committed : Dict String CommittedWrite

abbrev pub Action : Type 0 → Type 0
Action A = Exec Coordinator WriteError A

-- `__init__`
abbrev pub new_coordinator : Coordinator
new_coordinator = record { lease = none; generation = 0; committed = [] }

pub require_text : String → Action Unit
require_text value = raise_if (is_blank value) value_error

pub require_digest : String → Action Unit
require_digest value = raise_if (not (is_digest value)) value_error

pub require_aware : Timestamp → Action Unit
require_aware value = raise_if (not (is_aware value)) value_error

-- The dataclass equality of two leases.
pub same_lease : WriteLease → WriteLease → Bool
same_lease a b =
    str_eq a.writer_id b.writer_id
    && str_eq a.run_id b.run_id
    && same_time a.acquired_at b.acquired_at
    && same_time a.expires_at b.expires_at
    && a.generation == b.generation

-- `expected_stale_generation != current.generation`, negated
abbrev observed : Option ℕ → ℕ → Bool
observed none g = false
observed (some n) g = n == g

-- The end of `acquire`: the generation moves before the expiry is computed.
grant_lease : String → String → Timestamp → Duration → Action WriteLease
grant_lease writer run now ttl = do
  modify (λ c. record c { generation = c.generation + 1 })
  expires ← lift (or_raise overflow_error (plus now (micros ttl)))
  generation ← gets (λ c. c.generation)
  let granted : WriteLease = record {
    writer_id = writer;
    run_id = run;
    acquired_at = now;
    expires_at = expires;
    generation = generation;
  }
  modify (λ c. record c { lease = some granted })
  pure granted

-- A lease that has not expired is given again to its own writer and run, and to no other.
keep_lease : String → String → WriteLease → Action WriteLease
keep_lease writer run current =
    if str_eq current.writer_id writer && str_eq current.run_id run
    then pure current
    else raise concurrent_writer

-- The middle of `acquire`, on the lease that is held.
contend : String → String → Timestamp → Duration → Option ℕ → Option WriteLease → Action WriteLease
unfolding grant_lease keep_lease
contend writer run now ttl expected none = grant_lease writer run now ttl
contend writer run now ttl expected (some current) = do
  active ← lift (or_raise type_error (before now current.expires_at))
  if active then keep_lease writer run current else do
    raise_if (not (observed expected current.generation)) stale_lease_takeover
    grant_lease writer run now ttl

pub acquire : String → String → Timestamp → Duration → Option ℕ → Action WriteLease
unfolding contend require_text require_aware
acquire writer run now ttl expected = do
  require_text writer
  require_text run
  require_aware now
  raise_if (not (is_positive ttl)) value_error
  current ← gets (λ c. c.lease)
  contend writer run now ttl expected current

-- `_assert_current`, after its own check of `now`, on the lease that is held.
match_lease : WriteLease → Timestamp → Bool → Option WriteLease → Action Unit
match_lease lease now allow_expired none = raise lease_state
match_lease lease now allow_expired (some current) = do
  raise_if (not (same_lease current lease)) lease_state
  if allow_expired then pure tt else do
    live ← lift (or_raise type_error (before now current.expires_at))
    raise_if (not live) lease_state

pub assert_current : WriteLease → Timestamp → Bool → Action Unit
unfolding match_lease require_aware
assert_current lease now allow_expired = do
  require_aware now
  current ← gets (λ c. c.lease)
  match_lease lease now allow_expired current

pub renew : WriteLease → Timestamp → Duration → Action WriteLease
unfolding require_aware
renew lease now ttl = do
  require_aware now
  raise_if (not (is_positive ttl)) value_error
  assert_current lease now false
  expires ← lift (or_raise overflow_error (plus now (micros ttl)))
  let renewed : WriteLease = record lease { expires_at = expires }
  modify (λ c. record c { lease = some renewed })
  pure renewed

-- The end of `prepare`, on what is committed under the key.
disposition : String → Option CommittedWrite → Action WriteDisposition
disposition payload none = pure ready
disposition payload (some existing) =
    if str_eq existing.payload_digest payload then pure already_committed else raise write_conflict

pub prepare : WriteLease → String → String → Timestamp → Action WriteDisposition
unfolding assert_current require_text require_digest disposition
prepare lease key payload now = do
  require_text key
  require_digest payload
  assert_current lease now false
  existing ← gets (λ c. get c.committed key)
  disposition payload existing

-- The record that `commit` makes.
abbrev pub write_of : WriteLease → String → String → Timestamp → CommittedWrite
write_of lease key payload now = record {
  semantic_key = key;
  payload_digest = payload;
  run_id = lease.run_id;
  writer_id = lease.writer_id;
  committed_at = now;
}

-- The end of `commit`, by what `prepare` answered. A KeyError is not reachable: `prepare` found it.
finish :
    WriteLease → String → String → String → Timestamp → WriteDisposition → Action CommittedWrite
unfolding require_digest
finish lease key payload readback now already_committed = do
  existing ← gets (λ c. get c.committed key)
  lift (or_raise key_error existing)
finish lease key payload readback now ready = do
  require_digest readback
  raise_if (not (str_eq readback payload)) readback_mismatch
  modify (λ c. record c { committed = put c.committed key (write_of lease key payload now) })
  pure (write_of lease key payload now)

pub commit : WriteLease → String → String → String → Timestamp → Action CommittedWrite
unfolding finish
commit lease key payload readback now = do
  answer ← prepare lease key payload now
  finish lease key payload readback now answer

pub release : WriteLease → Timestamp → Action Unit
unfolding require_aware
release lease now = do
  require_aware now
  assert_current lease now true
  modify (λ c. record c { lease = none })

-- `committed`
pub committed_write : Coordinator → String → Option CommittedWrite
committed_write c key = get c.committed key
