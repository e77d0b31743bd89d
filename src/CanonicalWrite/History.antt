-- ===== src/CanonicalWrite/History.antt =====
-- Sequences of calls on one coordinator (src/investment_tracker/canonical_write.py).
use investment_tracker.Prelude.{
  ℕ, ◌≤◌, ◌<◌, String, ◌≡◌, Bool, true, false, some, Option, List, [], ◌∷◌, arith, ok, eq_iff,
  Option-cases, inl, inr, IsErr, IsErr-cases, ==_iff, sym, ◌∙◌,
}
use investment_tracker.Dict.{string_key, get, get-put}
use investment_tracker.Timestamp.{Timestamp, Duration}
use investment_tracker.CanonicalWrite.{
  write_of, Coordinator, WriteLease, CommittedWrite, acquire, renew, prepare, commit, release,
  assert_current, same_lease,
}
use investment_tracker.CanonicalWrite.Commit.{assert_current-keeps, prepare-keeps, prepare-ready}

pub data Call : Type 0 where
  acquire_call : String → String → Timestamp → Duration → Option ℕ → Call
  renew_call : WriteLease → Timestamp → Duration → Call
  prepare_call : WriteLease → String → String → Timestamp → Call
  commit_call : WriteLease → String → String → String → Timestamp → Call
  release_call : WriteLease → Timestamp → Call

-- The coordinator after a call, whether it returned or raised.
unfoldable pub perform : Call → Coordinator → Coordinator
perform (acquire_call writer run now ttl expected) c = (acquire writer run now ttl expected c).1
perform (renew_call lease now ttl) c = (renew lease now ttl c).1
perform (prepare_call lease key payload now) c = (prepare lease key payload now c).1
perform (commit_call lease key payload readback now) c = (commit lease key payload readback now c).1
perform (release_call lease now) c = (release lease now c).1

unfoldable pub perform_all : List Call → Coordinator → Coordinator
perform_all [] c = c
perform_all (call ∷ calls) c = perform_all calls (perform call c)

-- Of the methods only `commit` writes to the committed records.
acquire-committed :
    (writer run : String) (now : Timestamp) (ttl : Duration) (expected : Option ℕ) (c : Coordinator)
    → (acquire writer run now ttl expected c).1.committed ≡ c.committed
unfolding acquire
acquire-committed writer run now ttl expected c = ground arith

renew-committed :
    (lease : WriteLease) (now : Timestamp) (ttl : Duration) (c : Coordinator)
    → (renew lease now ttl c).1.committed ≡ c.committed
unfolding renew
renew-committed lease now ttl c = ground (arith, assert_current-keeps lease now false c)

release-committed :
    (lease : WriteLease) (now : Timestamp) (c : Coordinator)
    → (release lease now c).1.committed ≡ c.committed
unfolding release
release-committed lease now c = ground (arith, assert_current-keeps lease now true c)

commit-stays :
    (lease : WriteLease) (key payload readback : String) (now : Timestamp) (c : Coordinator)
    (k : String) (w : CommittedWrite)
    → get c.committed k ≡ some w
    → get (commit lease key payload readback now c).1.committed k ≡ some w
unfolding commit
commit-stays lease key payload readback now c k w e = ground (
  arith,
  prepare-keeps lease key payload now c,
  prepare-ready lease key payload now c,
  get-put c.committed key k (write_of lease key payload now),
  eq_iff key k,
)

perform-stays :
    (call : Call) (c : Coordinator) (k : String) (w : CommittedWrite)
    → get c.committed k ≡ some w
    → get (perform call c).committed k ≡ some w
unfolding perform
perform-stays (acquire_call writer run now ttl expected) c k w e =
    rw (acquire-committed writer run now ttl expected c) e
perform-stays (renew_call lease now ttl) c k w e = rw (renew-committed lease now ttl c) e
perform-stays (prepare_call lease key payload now) c k w e =
    rw (prepare-keeps lease key payload now c) e
perform-stays (commit_call lease key payload readback now) c k w e =
    commit-stays lease key payload readback now c k w e
perform-stays (release_call lease now) c k w e = rw (release-committed lease now c) e

-- A committed write is never changed or lost: after any further calls, by any writers and also such
-- as raise, the key still has the same record.
pub perform_all-stays :
    (calls : List Call) (c : Coordinator) (k : String) (w : CommittedWrite)
    → get c.committed k ≡ some w
    → get (perform_all calls c).committed k ≡ some w
unfolding perform_all
perform_all-stays [] c k w e = e
perform_all-stays (call ∷ calls) c k w e =
    perform_all-stays calls (perform call c) k w (perform-stays call c k w e)

-- The lease that is held, if any, came after generation `g`, and so will every later one.
abbrev pub Fenced : ℕ → Coordinator → Type 0
Fenced g c = (g < c.generation) × ((held : WriteLease) → c.lease ≡ some held → g < held.generation)

pub assert_current-Fenced :
    (lease : WriteLease) (now : Timestamp) (expired : Bool) (c : Coordinator)
    → Fenced lease.generation c
    → IsErr (assert_current lease now expired c).0
unfolding assert_current same_lease
assert_current-Fenced lease now expired c h = elim (Option-cases c.lease) [
  | inl free ↦ ground arith
  | inr (held, e) ↦ ground (arith, h.1 held e, ==_iff held.generation lease.generation)
]

pub assert_current-held :
    (lease : WriteLease) (now : Timestamp) (expired : Bool) (c : Coordinator)
    → (assert_current lease now expired c).0 ≡ ok tt
    → (held : WriteLease) × (c.lease ≡ some held) × (held.generation ≡ lease.generation)
unfolding assert_current same_lease
assert_current-held lease now expired c h = elim (Option-cases c.lease) [
  | inl free ↦ ground arith
  | inr (held, e) ↦ (held, e, ground (arith, ==_iff held.generation lease.generation))
]

acquire-Fenced :
    (g : ℕ) (writer run : String) (now : Timestamp) (ttl : Duration) (expected : Option ℕ)
    (c : Coordinator)
    → Fenced g c
    → Fenced g (acquire writer run now ttl expected c).1
unfolding acquire
acquire-Fenced g writer run now ttl expected c h =
    (ground arith, λ held e. ground (arith, h.1 held))

-- A renewed lease keeps its generation, so it came after `g` as the lease that it replaces did.
renew-Fenced :
    (g : ℕ) (lease : WriteLease) (now : Timestamp) (ttl : Duration) (c : Coordinator)
    → Fenced g c
    → Fenced g (renew lease now ttl c).1
unfolding renew
renew-Fenced g lease now ttl c h = (
  ground (arith, assert_current-keeps lease now false c),
  λ held e. elim (IsErr-cases (assert_current lease now false c).0) [
    | inl refused ↦ ground (arith, assert_current-keeps lease now false c, h.1 held)
    | inr (a, passed) ↦
        let (old, at, same) = assert_current-held lease now false c passed in
        ground (arith, assert_current-keeps lease now false c, h.1 held, h.1 old at)
  ],
)

release-Fenced :
    (g : ℕ) (lease : WriteLease) (now : Timestamp) (c : Coordinator)
    → Fenced g c
    → Fenced g (release lease now c).1
unfolding release
release-Fenced g lease now c h = (
  ground (arith, assert_current-keeps lease now true c),
  λ held e. ground (arith, assert_current-keeps lease now true c, h.1 held),
)

pub commit-lease :
    (lease : WriteLease) (key payload readback : String) (now : Timestamp) (c : Coordinator)
    → let c' = (commit lease key payload readback now c).1 in
      (c'.lease ≡ c.lease) × (c'.generation ≡ c.generation)
unfolding commit
commit-lease lease key payload readback now c =
    ground (arith, prepare-keeps lease key payload now c)

perform-Fenced : (g : ℕ) (call : Call) (c : Coordinator) → Fenced g c → Fenced g (perform call c)
unfolding perform
perform-Fenced g (acquire_call writer run now ttl expected) c h =
    acquire-Fenced g writer run now ttl expected c h
perform-Fenced g (renew_call lease now ttl) c h = renew-Fenced g lease now ttl c h
perform-Fenced g (prepare_call lease key payload now) c h =
    rw (prepare-keeps lease key payload now c) h
perform-Fenced g (commit_call lease key payload readback now) c h =
    let (same, count) = commit-lease lease key payload readback now c in
    (rw count h.0, λ held e. h.1 held (sym same ∙ e))
perform-Fenced g (release_call lease now) c h = release-Fenced g lease now c h

pub perform_all-Fenced :
    (g : ℕ) (calls : List Call) (c : Coordinator) → Fenced g c → Fenced g (perform_all calls c)
unfolding perform_all
perform_all-Fenced g [] c h = h
perform_all-Fenced g (call ∷ calls) c h =
    perform_all-Fenced g calls (perform call c) (perform-Fenced g call c h)

pub acquire-starts_Fenced :
    (g : ℕ) (writer run : String) (now : Timestamp) (ttl : Duration) (expected : Option ℕ)
    (c : Coordinator) {new : WriteLease} {c' : Coordinator}
    → acquire writer run now ttl expected c ≡ (ok new, c')
    → new.generation ≤ c'.generation
    → g < new.generation
    → Fenced g c'
unfolding acquire
acquire-starts_Fenced g writer run now ttl expected c {new} {c'} e valid later =
    (omega arith, λ held e'. ground arith)

pub commit-of_refused :
    (lease : WriteLease) (key payload readback : String) (now : Timestamp) (c : Coordinator)
    → IsErr (assert_current lease now false c).0
    → IsErr (commit lease key payload readback now c).0
      × ((commit lease key payload readback now c).1 ≡ c)
unfolding commit prepare
commit-of_refused lease key payload readback now c h =
    ground (arith, assert_current-keeps lease now false c)
