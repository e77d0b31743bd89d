-- ===== src/Journal/Append.antt =====
-- `append` of src/investment_tracker/quant/phase4/preregistration/journal.py.
use investment_tracker.Prelude.{
  Bool, refl, ◌∙◌, ◌↔◌, false, some, [], ◌∷◌, Option-cases, any, str_eq, eq_iff, String, ◌≡◌, true,
  Option, List, arith, ok, Result-cases, inl, inr,
}
use investment_tracker.Journal.Chain.{NewIds, ReadsField, read_records-Chain}
use investment_tracker.Journal.{
  append, append_again, same_record, first_match, with_line, JournalKind, Gate1JournalRecord, Codec,
  Bytes, read_records, append_locked, last_record, next_record, is_record,
}

module _ {P J : Type 0} (codec : Codec P J) where
  append_locked-ok :
      (kind : JournalKind) (id : String) (payload : P) (at : String) (file : Option Bytes)
      {r : Gate1JournalRecord P} {file' : Option Bytes}
      → append_locked codec kind id payload at file ≡ (ok r, file')
      → (current : List (Gate1JournalRecord P)) × (rs : List (Gate1JournalRecord P)) × (read_records
            codec kind file
          ≡ ok current)
        × (r ≡ next_record codec kind id payload at current)
        × (file' ≡ with_line codec file r)
        × (read_records codec kind file' ≡ ok rs)
        × (is_record codec r (last_record codec rs) ≡ true)
  unfolding append_locked
  append_locked-ok kind id payload at file {r} {file'} e =
      elim (Result-cases (read_records codec kind file)) [
        | inl (x, bad) ↦ absurd (ground arith)
        | inr (current, reads) ↦
            let n = next_record codec kind id payload at current in
            elim (Result-cases (read_records codec kind (with_line codec file n))) [
              | inl (x, bad) ↦ absurd (ground arith)
              | inr (rs, fine) ↦
                  (current, rs, reads, ground arith, ground arith, ground arith, ground arith)
            ]
      ]

  -- The last of records with distinct identities has an identity of its own.
  last-IsNew :
      (ids : List String) (rs : List (Gate1JournalRecord P)) (q : Gate1JournalRecord P)
      → NewIds codec ids rs
      → last_record codec rs ≡ some q
      → any (str_eq q.record_id) ids ≡ false
  unfolding last_record
  last-IsNew ids [] q n e = cc
  last-IsNew ids (r ∷ []) q n e = ground arith
  last-IsNew ids (r ∷ s ∷ rs) q n e =
      ground (arith, last-IsNew (r.record_id ∷ ids) (s ∷ rs) q n.1 e)

  first_match-last :
      (ids : List String) (rs : List (Gate1JournalRecord P)) (q : Gate1JournalRecord P)
      → NewIds codec ids rs
      → last_record codec rs ≡ some q
      → first_match codec q.record_id rs ≡ some q
  unfolding last_record first_match
  first_match-last ids [] q n e = cc
  first_match-last ids (r ∷ []) q n e = ground (arith, eq_iff r.record_id r.record_id)
  first_match-last ids (r ∷ s ∷ rs) q n e = ground (
    arith,
    last-IsNew (r.record_id ∷ ids) (s ∷ rs) q n.1 e,
    first_match-last (r.record_id ∷ ids) (s ∷ rs) q n.1 e,
    eq_iff r.record_id q.record_id,
    eq_iff q.record_id r.record_id,
  )

  -- `==` of payloads is equality.
  abbrev pub ComparesPayloads : Type 0
  ComparesPayloads = (p q : P) → (codec.same_payload p q ≡ true) ↔ (p ≡ q)

  same_record_iff :
      (a b : Gate1JournalRecord P) → ComparesPayloads → (same_record codec a b ≡ true) ↔ (a ≡ b)
  unfolding same_record
  same_record_iff a b law = (
    λ h. ground (
      arith,
      eq_iff a.record_id b.record_id,
      eq_iff a.recorded_at b.recorded_at,
      eq_iff a.predecessor_digest b.predecessor_digest,
      eq_iff a.record_digest b.record_digest,
      law a.payload b.payload,
    ),
    λ h. ground (
      arith,
      eq_iff a.record_id b.record_id,
      eq_iff a.recorded_at b.recorded_at,
      eq_iff a.predecessor_digest b.predecessor_digest,
      eq_iff a.record_digest b.record_digest,
      law a.payload b.payload,
    ),
  )

  -- `append_again` accepts the last record's own payload and time.
  append_again-last :
      (q : Gate1JournalRecord P)
      → ComparesPayloads
      → append_again codec q.payload q.recorded_at (some q) q ≡ ok q
  unfolding append_again
  append_again-last q compares = ground (
    arith,
    (same_record_iff q q compares).1 refl,
    (compares q.payload q.payload).1 refl,
    eq_iff q.recorded_at q.recorded_at,
  )

  -- Appending is idempotent: after a record has been appended, the same call on the journal that it
  -- left gives the same record again and leaves the file alone, whether or not the lock is free.
  pub append-append :
      (kind : JournalKind) (id : String) (payload : P) (at : String) (file : Option Bytes)
      (locked : Bool) {r : Gate1JournalRecord P} {file' : Option Bytes}
      → ReadsField codec
      → ComparesPayloads
      → append_locked codec kind id payload at file ≡ (ok r, file')
      → append codec false kind id payload at file' locked file' ≡ (ok r, file')
  unfolding append next_record
  append-append kind id payload at file locked {r} {file'} law compares e =
      let (current, rs, reads, new, lengthened, again, ends) =
        append_locked-ok kind id payload at file e in
      elim (Option-cases (last_record codec rs)) [
        | inl nothing ↦ absurd (ground arith)
        | inr (q, last) ↦
            let same : q ≡ r = (same_record_iff q r compares).0 (ground arith) in
            let made : q ≡ next_record codec kind id payload at current = same ∙ new in
            let named =
              first_match-last [] rs q (read_records-Chain codec kind file' law again).1 last in
            let unchanged = append_again-last q compares in ground arith
      ]
