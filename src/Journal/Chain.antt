-- ===== src/Journal/Chain.antt =====
-- Journals of src/investment_tracker/quant/phase4/preregistration/journal.py as hash chains.
use investment_tracker.Prelude.{
  All, refl, ◌≢◌, sym, ap, ◌∙◌, none, Option, Result-cases, String, ◌≡◌, false, some, List, [], ◌∷◌,
  arith, ok, Option-cases, inl, inr, any, str_eq, eq_iff, subst,
}
use investment_tracker.Journal.{
  genesis_digest, read_lines, read_records, split_from, but_last, JournalKind, Base,
  Gate1JournalRecord, Codec, Bytes, read_line, model_validate,
}

module _ {P : Type 0} (sha : Base P → String) where
  -- From the digest `start`, each record names the digest before it and has its own, up to `end`.
  abbrev pub Chain : String → List (Gate1JournalRecord P) → String → Type 0
  Chain start [] end = start ≡ end
  Chain start (r ∷ rs) end =
      (r.predecessor_digest ≡ start) × (r.record_digest ≡ sha r.base) × Chain r.record_digest rs end

-- `records[-1].record_digest if records else GENESIS_DIGEST`, from a first digest.
pub terminal_digest : {P : Type 0} → String → List (Gate1JournalRecord P) → String
terminal_digest start [] = start
terminal_digest start (r ∷ rs) = terminal_digest r.record_digest rs

module _ {P J : Type 0} (codec : Codec P J) where
  -- The record has its own digest, its identity is new, and it names the digest before it.
  abbrev Checked : String → List String → Gate1JournalRecord P → Type 0
  Checked pred ids r =
      (any (str_eq r.record_id) ids ≡ false)
      × (r.record_digest ≡ codec.canonical_sha256 r.base)
      × (r.predecessor_digest ≡ pred)

  -- The validated record and the mapping behind it hold the same predecessor.
  abbrev pub ReadsField : Type 0
  ReadsField =
      (j : J) (r : Gate1JournalRecord P)
      → codec.fields j ≡ some r
      → codec.predecessor j ≡ some r.predecessor_digest

  read_line-Checked :
      (kind : JournalKind) (pred : String) (ids digests : List String) (line : Bytes)
      {r : Gate1JournalRecord P}
      → ReadsField
      → read_line codec kind pred ids digests line ≡ ok r
      → Checked pred ids r
  unfolding read_line model_validate
  read_line-Checked kind pred ids digests line {r} law e = elim (Option-cases (codec.parse line)) [
    | inl bad ↦ absurd (ground arith)
    | inr (j, parsed) ↦ elim (Option-cases (codec.fields j)) [
      | inl untyped ↦ absurd (ground arith)
      | inr (q, typed) ↦ ground (
        arith,
        law j q typed,
        eq_iff q.record_digest (codec.canonical_sha256 q.base),
        eq_iff q.predecessor_digest pred,
      )
    ]
  ]

  -- No record of the list has an identity among `ids`, or that of one before it.
  abbrev pub NewIds : List String → List (Gate1JournalRecord P) → Type 0
  NewIds ids [] = Unit
  NewIds ids (r ∷ rs) = (any (str_eq r.record_id) ids ≡ false) × NewIds (r.record_id ∷ ids) rs

  read_lines-Chain :
      (kind : JournalKind) (pred : String) (ids digests : List String) (lines : List Bytes)
      {rs : List (Gate1JournalRecord P)}
      → ReadsField
      → read_lines codec kind pred ids digests lines ≡ ok rs
      → Chain codec.canonical_sha256 pred rs (terminal_digest pred rs) × NewIds ids rs
  unfolding read_lines terminal_digest
  read_lines-Chain kind pred ids digests [] law e = ground arith
  read_lines-Chain kind pred ids digests (line ∷ lines) law e =
      elim (Result-cases (read_line codec kind pred ids digests line)) [
        | inl (x, bad) ↦ absurd (ground arith)
        | inr (r, good) ↦
            let (new, own, linked) = read_line-Checked kind pred ids digests line law good in
            elim (Result-cases (
              read_lines codec kind r.record_digest (r.record_id ∷ ids) (r.record_digest ∷ digests)
                lines)) [
                  | inl (x, bad) ↦ absurd (ground arith)
                  | inr (rest, fine) ↦
                      let later =
                        read_lines-Chain kind r.record_digest (r.record_id ∷ ids)
                          (r.record_digest ∷ digests) lines law fine in
                      ground arith
                ]
      ]

  -- The records of a journal that is read are a hash chain from the genesis digest, each with the
  -- digest of its own content, and no two have one identity.
  pub read_records-Chain :
      (kind : JournalKind) (file : Option Bytes) {rs : List (Gate1JournalRecord P)}
      → ReadsField
      → read_records codec kind file ≡ ok rs
      → Chain codec.canonical_sha256 genesis_digest rs (terminal_digest genesis_digest rs)
        × NewIds [] rs
  unfolding read_records terminal_digest
  read_records-Chain kind none law e = ground arith
  read_records-Chain kind (some []) law e = ground arith
  read_records-Chain kind (some (b ∷ rest)) law e =
      read_lines-Chain kind genesis_digest [] [] (split_from [] (but_last (b ∷ rest))) law
        (ground arith)

-- The list backwards, before `acc`.
back_onto : {A : Type 0} → List A → List A → List A
back_onto [] acc = acc
back_onto (x ∷ xs) acc = back_onto xs (x ∷ acc)

back_onto-back_onto :
    {A : Type 0} (xs acc : List A) → back_onto (back_onto xs acc) [] ≡ back_onto acc xs
unfolding back_onto
back_onto-back_onto [] acc = refl
back_onto-back_onto (x ∷ xs) acc = back_onto-back_onto xs (x ∷ acc)

back_onto-injective : {A : Type 0} (xs ys : List A) → back_onto xs [] ≡ back_onto ys [] → xs ≡ ys
unfolding back_onto
back_onto-injective xs ys e =
    sym (back_onto-back_onto xs [])
    ∙ ap (λ (zs : List _). back_onto zs []) e
    ∙ back_onto-back_onto ys []

-- The contents in use, among which the digest has no collision and is never the genesis digest.
module _ {P : Type 0} (sha : Base P → String) (IsUsed : Base P → Type 0)
    (no_collision : (a b : Base P) → IsUsed a → IsUsed b → sha a ≡ sha b → a ≡ b)
    (no_genesis : (a : Base P) → IsUsed a → sha a ≢ genesis_digest) where
  -- A chain from its last record back to the genesis digest.
  abbrev Backwards : List (Gate1JournalRecord P) → String → Type 0
  Backwards [] end = end ≡ genesis_digest
  Backwards (r ∷ older) end =
      (r.record_digest ≡ end)
      × (r.record_digest ≡ sha r.base)
      × IsUsed r.base
      × Backwards older r.predecessor_digest

  Chain-Backwards :
      (rs acc : List (Gate1JournalRecord P)) (start end : String)
      → Backwards acc start
      → All (λ r. IsUsed r.base) rs
      → Chain sha start rs end
      → Backwards (back_onto rs acc) end
  unfolding back_onto
  Chain-Backwards [] acc start end b u c = rw (← c) b
  Chain-Backwards (r ∷ rs) acc start end b u c =
      Chain-Backwards rs (r ∷ acc) r.record_digest end (refl, c.1, u.0, rw c.0 b) u.1 c.2

  Backwards-unique :
      (rs qs : List (Gate1JournalRecord P)) (end : String)
      → Backwards rs end
      → Backwards qs end
      → rs ≡ qs
  Backwards-unique [] [] end b c = refl
  Backwards-unique [] (q ∷ qs) end b c = absurd (no_genesis q.base c.2 (sym c.1 ∙ c.0 ∙ b))
  Backwards-unique (r ∷ rs) [] end b c = absurd (no_genesis r.base b.2 (sym b.1 ∙ b.0 ∙ c))
  Backwards-unique (r ∷ rs) (q ∷ qs) end b c =
      let same = no_collision r.base q.base b.2 c.2 (sym b.1 ∙ b.0 ∙ sym c.0 ∙ c.1) in
      let older =
        Backwards-unique rs qs r.predecessor_digest b.3
          (rw (ap (λ (x : Base P). x.predecessor_digest) same) c.3) in
      cc (same, older, b.0, c.0)

  Chain-unique :
      (rs qs : List (Gate1JournalRecord P)) (end : String)
      → All (λ r. IsUsed r.base) rs
      → All (λ r. IsUsed r.base) qs
      → Chain sha genesis_digest rs end
      → Chain sha genesis_digest qs end
      → rs ≡ qs
  Chain-unique rs qs end u w c d = back_onto-injective rs qs (
      Backwards-unique (back_onto rs []) (back_onto qs []) end
        (Chain-Backwards rs [] genesis_digest end refl u c)
        (Chain-Backwards qs [] genesis_digest end refl w d))

module _ {P J : Type 0} (codec : Codec P J) (IsUsed : Base P → Type 0)
    (no_collision : (a b : Base P)
      → IsUsed a
      → IsUsed b
      → codec.canonical_sha256 a ≡ codec.canonical_sha256 b
      → a ≡ b)
    (no_genesis : (a : Base P) → IsUsed a → codec.canonical_sha256 a ≢ genesis_digest) where
  -- Tampering shows: of two files that are both read without an error, whose last records have the same
  -- digest, the records are the same, if the digest has no collision among the contents that they
  -- hold and is the genesis digest of none.
  pub read_records_unique :
      (kind kind' : JournalKind) (file file' : Option Bytes) {rs qs : List (Gate1JournalRecord P)}
      → ReadsField codec
      → read_records codec kind file ≡ ok rs
      → read_records codec kind' file' ≡ ok qs
      → terminal_digest genesis_digest rs ≡ terminal_digest genesis_digest qs
      → All (λ r. IsUsed r.base) rs
      → All (λ r. IsUsed r.base) qs
      → rs ≡ qs
  read_records_unique kind kind' file file' {rs} {qs} law read again same u w =
      let one = (read_records-Chain codec kind file law read).0 in
      let two = (read_records-Chain codec kind' file' law again).0 in
      Chain-unique codec.canonical_sha256 IsUsed no_collision no_genesis rs qs
        (terminal_digest genesis_digest rs) u w one
        (subst (Chain codec.canonical_sha256 genesis_digest qs) (sym same) two)
