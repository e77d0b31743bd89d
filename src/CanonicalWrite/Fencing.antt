-- ===== src/CanonicalWrite/Fencing.antt =====
-- Leases of src/investment_tracker/canonical_write.py: one live writer at a time, and none comes back.
use investment_tracker.Prelude.{
  ℕ, ◌+◌, ◌≤◌, ◌<◌, String, ◌≡◌, true, false, some, none, Option, List, [], ◌∷◌, arith, ok,
  Option-cases, inl, inr, ◌⊎◌, IsErr, IsErr-cases, sym, ◌∙◌,
}
use investment_tracker.Timestamp.{Timestamp, Duration, is_aware, before}
use investment_tracker.CanonicalWrite.{
  Coordinator, WriteLease, new_coordinator, acquire, renew, commit, release, assert_current,
}
use investment_tracker.CanonicalWrite.Commit.{assert_current-keeps, prepare-keeps}
use investment_tracker.CanonicalWrite.History.{
  Call, acquire_call, renew_call, prepare_call, commit_call, release_call, perform, perform_all,
  assert_current-held, commit-lease, Fenced, perform_all-Fenced, acquire-starts_Fenced,
  assert_current-Fenced, commit-of_refused,
}

-- The lease that is held has a generation that was given out, and an expiry with a zone.
abbrev pub IsValid : Coordinator → Type 0
IsValid c =
    (held : WriteLease)
    → c.lease ≡ some held
    → (held.generation ≤ c.generation) × (is_aware held.expires_at ≡ true)

acquire-IsValid :
    (writer run : String) (now : Timestamp) (ttl : Duration) (expected : Option ℕ) (c : Coordinator)
    → IsValid c
    → IsValid (acquire writer run now ttl expected c).1
unfolding acquire
acquire-IsValid writer run now ttl expected c v held e = ground (arith, v held)

renew-IsValid :
    (lease : WriteLease) (now : Timestamp) (ttl : Duration) (c : Coordinator)
    → IsValid c
    → IsValid (renew lease now ttl c).1
unfolding renew
renew-IsValid lease now ttl c v held e = elim (IsErr-cases (assert_current lease now false c).0) [
  | inl refused ↦ ground (arith, assert_current-keeps lease now false c, v held)
  | inr (a, passed) ↦
      let (old, at, same) = assert_current-held lease now false c passed in
      ground (arith, assert_current-keeps lease now false c, v held, v old at)
]

release-IsValid :
    (lease : WriteLease) (now : Timestamp) (c : Coordinator)
    → IsValid c
    → IsValid (release lease now c).1
unfolding release
release-IsValid lease now c v held e = ground (arith, assert_current-keeps lease now true c, v held)

-- Every call keeps the invariant, whether it returns or raises.
perform-IsValid : (call : Call) (c : Coordinator) → IsValid c → IsValid (perform call c)
unfolding perform
perform-IsValid (acquire_call writer run now ttl expected) c v =
    acquire-IsValid writer run now ttl expected c v
perform-IsValid (renew_call lease now ttl) c v = renew-IsValid lease now ttl c v
perform-IsValid (prepare_call lease key payload now) c v =
    rw (prepare-keeps lease key payload now c) v
perform-IsValid (commit_call lease key payload readback now) c v =
    let (same, count) = commit-lease lease key payload readback now c in
    λ held e. rw count (v held (sym same ∙ e))
perform-IsValid (release_call lease now) c v = release-IsValid lease now c v

perform_all-IsValid :
    (calls : List Call) (c : Coordinator) → IsValid c → IsValid (perform_all calls c)
unfolding perform_all
perform_all-IsValid [] c v = v
perform_all-IsValid (call ∷ calls) c v =
    perform_all-IsValid calls (perform call c) (perform-IsValid call c v)

new_coordinator-IsValid : IsValid new_coordinator
new_coordinator-IsValid held e = cc

-- What holds when `acquire` hands out `new`: either it is the lease that is held already, still live,
-- and nothing changed; or no live lease stood in the way, the new one is stored with a generation
-- above all earlier ones, and the caller knew the generation of an expired one.
abbrev pub Granted : Timestamp → Option ℕ → Coordinator → WriteLease → Coordinator → Type 0
Granted now expected c new c' =
    ((c.lease ≡ some new) × (before now new.expires_at ≡ some true) × (c' ≡ c))
    ⊎ ((new.generation ≡ c.generation + 1)
        × (c'.lease ≡ some new)
        × ((held : WriteLease)
            → c.lease ≡ some held
            → (before now held.expires_at ≡ some false) × (expected ≡ some held.generation)))

module _ (writer run : String) (now : Timestamp) (ttl : Duration) (expected : Option ℕ)
    (c : Coordinator) {new : WriteLease} {c' : Coordinator}
    (h : acquire writer run now ttl expected c ≡ (ok new, c')) where
  Granted-free : c.lease ≡ none → Granted now expected c new c'
  unfolding acquire
  Granted-free free = inr (ground arith, ground arith, λ held e. cc)

  Granted-live :
      (held : WriteLease)
      → c.lease ≡ some held
      → before now held.expires_at ≡ some true
      → Granted now expected c new c'
  unfolding acquire
  Granted-live held e live = inl (ground arith, ground arith, ground arith)

  Granted-stale :
      (held : WriteLease)
      → c.lease ≡ some held
      → before now held.expires_at ≡ some false
      → Granted now expected c new c'
  unfolding acquire
  Granted-stale held e stale =
      inr (ground arith, ground arith, λ other e'. (ground arith, ground arith))

  Granted-no_order :
      (held : WriteLease)
      → c.lease ≡ some held
      → before now held.expires_at ≡ none
      → Granted now expected c new c'
  unfolding acquire
  Granted-no_order held e mixed = absurd (ground arith)

  Granted-held : (held : WriteLease) → c.lease ≡ some held → Granted now expected c new c'
  Granted-held held e = elim (Option-cases (before now held.expires_at)) [
    | inl mixed ↦ Granted-no_order held e mixed
    | inr (true, live) ↦ Granted-live held e live
    | inr (false, stale) ↦ Granted-stale held e stale
  ]

  -- A lease is handed out only so: a live lease is never displaced, and an expired one is taken over
  -- only by a caller that observed its generation.
  pub acquire-Granted : Granted now expected c new c'
  acquire-Granted = elim (Option-cases c.lease) [
    | inl free ↦ Granted-free free
    | inr (held, e) ↦ Granted-held held e
  ]

acquire-gives_known :
    (writer run : String) (now : Timestamp) (ttl : Duration) (expected : Option ℕ) (c : Coordinator)
    {new : WriteLease} {c' : Coordinator}
    → IsValid c
    → acquire writer run now ttl expected c ≡ (ok new, c')
    → new.generation ≤ c'.generation
unfolding acquire
acquire-gives_known writer run now ttl expected c {new} v h = ground (arith, v new)

-- Once a lease is handed out, no lease of an earlier generation can commit again, after any further
-- calls: the commit raises and changes nothing.
pub commit-fenced :
    (earlier later : List Call) (writer run : String) (now : Timestamp) (ttl : Duration)
    (expected : Option ℕ) {new : WriteLease} {c' : Coordinator} (old : WriteLease)
    (key payload readback : String) (at : Timestamp)
    → acquire writer run now ttl expected (perform_all earlier new_coordinator) ≡ (ok new, c')
    → old.generation < new.generation
    → IsErr (commit old key payload readback at (perform_all later c')).0
      × ((commit old key payload readback at (perform_all later c')).1 ≡ perform_all later c')
commit-fenced earlier later writer run now ttl expected {new} {c'} old key payload readback at h
      older =
    let c = perform_all earlier new_coordinator in
    let valid : IsValid c = perform_all-IsValid earlier new_coordinator new_coordinator-IsValid in
    let fenced : Fenced old.generation c' =
      acquire-starts_Fenced old.generation writer run now ttl expected c h
        (acquire-gives_known writer run now ttl expected c valid h) older in
    commit-of_refused old key payload readback at (perform_all later c') (
      assert_current-Fenced old at false (perform_all later c')
        (perform_all-Fenced old.generation later c' fenced))
