-- ===== src/Journal/Examples.antt =====
-- The theorems on src/investment_tracker/quant/phase4/preregistration/journal.py, with a stand-in for
-- the JSON library: a line is the record's payload, one byte.
use investment_tracker.Prelude.{
  ℕ, String, ◌≡◌, ◌≢◌, ◌⊎◌, inl, inr, refl, sym, ap, ◌∙◌, true, false, none, some, List, [], ◌∷◌,
  arith, ok, ◌==◌, ==_iff, eq_iff, if◌then◌else◌,
}
use investment_tracker.Journal.{
  source, Base, Gate1JournalRecord, Codec, Bytes, genesis_digest, read_records, read_lines,
  read_line, split_from, but_last, same_bytes, model_validate, append, append_locked, with_line,
  last_record, same_record, next_record,
}
use investment_tracker.Journal.Chain.{
  Chain, terminal_digest, NewIds, ReadsField, read_records-Chain, read_records_unique,
}
use investment_tracker.Journal.Append.{ComparesPayloads, append-append}

abbrev one_digest : String
one_digest = "1111111111111111111111111111111111111111111111111111111111111111"

abbrev two_digest : String
two_digest = "2222222222222222222222222222222222222222222222222222222222222222"

-- Digest 1 for the payload 1, and digest 2 for any other.
abbrev sha : Base ℕ → String
sha b = if b.payload == 1 then one_digest else two_digest

abbrev first_record : Gate1JournalRecord ℕ
first_record = record {
  base = record {
    record_kind = source;
    record_id = "S1";
    recorded_at = "t";
    predecessor_digest = genesis_digest;
    payload = 1;
  };
  record_digest = one_digest;
}

abbrev second_record : Gate1JournalRecord ℕ
second_record = record {
  base = record {
    record_kind = source;
    record_id = "S2";
    recorded_at = "t";
    predecessor_digest = one_digest;
    payload = 2;
  };
  record_digest = two_digest;
}

-- A mapping stands for the record with its payload.
abbrev codec : Codec ℕ ℕ
codec = record {
  parse = λ line. elim line [ [] ↦ none | b ∷ rest ↦ some b ];
  is_object = λ j. true;
  canonical_json_bytes = λ j. j ∷ [];
  predecessor = λ j. some (if j == 1 then genesis_digest else one_digest);
  fields = λ j. some (if j == 1 then first_record else second_record);
  dump = λ r. r.payload;
  is_well_formed = λ r. true;
  is_canonical_time = λ t. true;
  canonical_sha256 = sha;
  same_payload = λ p q. p == q;
}

reads_field : ReadsField codec
reads_field j r e = ground arith

compares : ComparesPayloads codec
compares p q = ==_iff p q

abbrev journal : Bytes
journal = 1 ∷ 10 ∷ 2 ∷ 10 ∷ []

abbrev records : List (Gate1JournalRecord ℕ)
records = first_record ∷ second_record ∷ []

journal_reads : read_records codec source (some journal) ≡ ok records
unfolding read_records read_lines read_line split_from but_last same_bytes model_validate
journal_reads = refl

read_records-Chain_example :
    Chain sha genesis_digest records (terminal_digest genesis_digest records)
    × NewIds codec [] records
read_records-Chain_example =
    read_records-Chain codec source (some journal) reads_field journal_reads

abbrev IsUsed : Base ℕ → Type 0
IsUsed b = (b ≡ first_record.base) ⊎ (b ≡ second_record.base)

one≢two : one_digest ≢ two_digest
one≢two e = ground (arith, eq_iff one_digest two_digest)

one≢genesis : one_digest ≢ genesis_digest
one≢genesis e = ground (arith, eq_iff one_digest genesis_digest)

two≢genesis : two_digest ≢ genesis_digest
two≢genesis e = ground (arith, eq_iff two_digest genesis_digest)

no_collision : (a b : Base ℕ) → IsUsed a → IsUsed b → sha a ≡ sha b → a ≡ b
no_collision a b (inl p) (inl q) e = p ∙ sym q
no_collision a b (inl p) (inr q) e = absurd (one≢two (sym (ap sha p) ∙ e ∙ ap sha q))
no_collision a b (inr p) (inl q) e = absurd (one≢two (sym (sym (ap sha p) ∙ e ∙ ap sha q)))
no_collision a b (inr p) (inr q) e = p ∙ sym q

no_genesis : (a : Base ℕ) → IsUsed a → sha a ≢ genesis_digest
no_genesis a (inl p) e = one≢genesis (sym (ap sha p) ∙ e)
no_genesis a (inr p) e = two≢genesis (sym (ap sha p) ∙ e)

read_records_unique_example : records ≡ first_record ∷ second_record ∷ []
read_records_unique_example =
    read_records_unique codec IsUsed no_collision no_genesis source source (some journal)
      (some journal) reads_field journal_reads journal_reads refl (inl refl, (inr refl, tt))
      (inl refl, (inr refl, tt))

appended :
    append_locked codec source "S2" 2 "t" (some (1 ∷ 10 ∷ [])) ≡ (ok second_record, some journal)
unfolding append_locked read_records read_lines read_line split_from but_last same_bytes
    model_validate last_record same_record next_record with_line
appended = refl

append-append_example :
    append codec false source "S2" 2 "t" (some journal) true (some journal)
    ≡ (ok second_record, some journal)
append-append_example =
    append-append codec source "S2" 2 "t" (some (1 ∷ 10 ∷ [])) true reads_field compares appended
