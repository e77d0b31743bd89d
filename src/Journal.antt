-- ===== src/Journal.antt =====
-- src/investment_tracker/quant/phase4/preregistration/journal.py: the append-only journal of records,
-- each with the digest of the one before it. JSON, pydantic's field checks, the time format and the
-- digest of canonical JSON (canonical.py) are parameters; a file is its bytes. Paths, symbolic links
-- and errors of the operating system are left out, and a write is complete.
pub mod Chain
pub mod Append
mod Examples
use investment_tracker.Prelude.{
  ℕ, String, Bool, true, false, not, ◌&&◌, ◌||◌, Option, none, some, List, [], ◌∷◌, ◌++◌, map, any,
  ◌==◌, if◌then◌else◌, str_eq, Result, ok, err, and_then, or_raise,
}

pub data JournalKind : Type 0 where
  source hypothesis : JournalKind

abbrev pub same_kind : JournalKind → JournalKind → Bool
same_kind source source = true
same_kind hypothesis hypothesis = true
same_kind _ _ = false

-- What a record's digest is of; `P` is the type of payloads, and the schema version is constant.
pub record Base (P : Type 0) : Type 0 where
  pub record_kind : JournalKind
  pub record_id : String
  pub recorded_at : String
  pub predecessor_digest : String
  pub payload : P

pub record Gate1JournalRecord (P : Type 0) : Type 0 where
  pub base : Base P
  pub open base use *
  pub record_digest : String

pub data JournalError : Type 0 where
  partial_record wrong_line_ending blank_line invalid_json not_canonical : JournalError
  chain_mismatch invalid_record kind_mismatch duplicate_id duplicate_digest : JournalError
  sealed_journal lock_held unverified attribute_error : JournalError

-- "0" * 64
abbrev pub genesis_digest : String
genesis_digest = "0000000000000000000000000000000000000000000000000000000000000000"

abbrev pub Bytes : Type 0
Bytes = List ℕ

-- `a == b` of two byte strings.
unfoldable pub same_bytes : Bytes → Bytes → Bool
same_bytes [] [] = true
same_bytes (a ∷ xs) (b ∷ ys) = a == b && same_bytes xs ys
same_bytes _ _ = false

-- `raw.split(b"\n")`, with the line that is being read.
pub split_from : Bytes → Bytes → List Bytes
split_from line [] = line ∷ []
split_from line (b ∷ rest) =
    let go_on = split_from (line ++ b ∷ []) rest in
    let cut = split_from [] rest in if b == 10 then line ∷ cut else go_on

-- `raw.endswith(b"\n")`
ends_line : Bytes → Bool
ends_line [] = false
ends_line (b ∷ []) = b == 10
ends_line (b ∷ c ∷ rest) = ends_line (c ∷ rest)

-- `raw[:-1]`
pub but_last : Bytes → Bytes
but_last [] = []
but_last (b ∷ []) = []
but_last (b ∷ c ∷ rest) = b ∷ but_last (c ∷ rest)

abbrev is_empty : Bytes → Bool
is_empty [] = true
is_empty (b ∷ rest) = false

-- What the library code gives: JSON with the record's fields, time stamps and digests.
pub record Codec (P J : Type 0) : Type 0 where
  -- `json.loads` of the decoded line
  pub parse : Bytes → Option J
  -- the value is an object, which has `get`
  pub is_object : J → Bool
  -- `canonical_json_bytes`
  pub canonical_json_bytes : J → Bytes
  -- `payload.get("predecessor_digest")`
  pub predecessor : J → Option String
  -- the fields, if they have their declared types
  pub fields : J → Option (Gate1JournalRecord P)
  -- `record.model_dump(mode="json")`
  pub dump : Gate1JournalRecord P → J
  -- the patterns and lengths that the fields of a record declare
  pub is_well_formed : Gate1JournalRecord P → Bool
  -- `strptime` and `strftime` agree
  pub is_canonical_time : String → Bool
  pub canonical_sha256 : Base P → String
  -- `==` of payloads
  pub same_payload : P → P → Bool

module _ {P J : Type 0} (codec : Codec P J) where
  open codec use {
    parse, is_object, canonical_json_bytes, predecessor, fields, dump, is_well_formed,
    is_canonical_time, canonical_sha256, same_payload,
  }

  -- `validate_record`, after the fields
  validate_record : Gate1JournalRecord P → Bool
  validate_record r =
      is_canonical_time r.recorded_at && str_eq r.record_digest (canonical_sha256 r.base)

  -- `Gate1JournalRecord.model_validate(payload)`
  model_validate : J → Result JournalError (Gate1JournalRecord P)
  unfolding validate_record
  model_validate j =
      and_then (or_raise invalid_record (fields j))
        λ r. if validate_record r then ok r else err invalid_record

  -- One turn of the loop of `_read_records`.
  pub read_line :
      JournalKind
      → String
      → List String
      → List String
      → Bytes
      → Result JournalError (Gate1JournalRecord P)
  read_line kind pred ids digests line = and_then (or_raise invalid_json (parse line)) λ j.
      if not (same_bytes (canonical_json_bytes j) line)
      then err not_canonical
      else if not (is_object j)
      then err attribute_error
      else if not (elim (predecessor j) [ none ↦ false | some p ↦ str_eq p pred ])
      then err chain_mismatch
      else and_then (model_validate j) λ r.
        if not (same_kind r.record_kind kind)
        then err kind_mismatch
        else if any (str_eq r.record_id) ids
        then err duplicate_id
        else if any (str_eq r.record_digest) digests
        then err duplicate_digest
        else ok r

  pub read_lines :
      JournalKind
      → String
      → List String
      → List String
      → List Bytes
      → Result JournalError (List (Gate1JournalRecord P))
  read_lines kind pred ids digests [] = ok []
  read_lines kind pred ids digests (line ∷ lines) =
      and_then (read_line kind pred ids digests line) λ r.
        and_then
          (read_lines kind r.record_digest (r.record_id ∷ ids) (r.record_digest ∷ digests) lines)
          λ rs. ok (r ∷ rs)

  -- `_read_records`; `none` is a file that does not exist.
  pub read_records : JournalKind → Option Bytes → Result JournalError (List (Gate1JournalRecord P))
  unfolding ends_line
  read_records kind none = ok []
  read_records kind (some []) = ok []
  read_records kind (some (b ∷ rest)) =
      if not (ends_line (b ∷ rest))
      then err partial_record
      else if any (λ c. c == 13) (b ∷ rest)
      then err wrong_line_ending
      else (let lines = split_from [] (but_last (b ∷ rest)) in
          if any is_empty lines then err blank_line else read_lines kind genesis_digest [] [] lines)

  -- `matches[0]`
  pub first_match : String → List (Gate1JournalRecord P) → Option (Gate1JournalRecord P)
  first_match id [] = none
  first_match id (r ∷ rs) = if str_eq r.record_id id then some r else first_match id rs

  -- `records[-1]`
  pub last_record : List (Gate1JournalRecord P) → Option (Gate1JournalRecord P)
  last_record [] = none
  last_record (r ∷ []) = some r
  last_record (r ∷ q ∷ rs) = last_record (q ∷ rs)

  -- `a == b` of two records.
  pub same_record : Gate1JournalRecord P → Gate1JournalRecord P → Bool
  same_record a b =
      same_kind a.record_kind b.record_kind
      && str_eq a.record_id b.record_id
      && str_eq a.recorded_at b.recorded_at
      && str_eq a.predecessor_digest b.predecessor_digest
      && same_payload a.payload b.payload
      && str_eq a.record_digest b.record_digest

  abbrev pub is_record : Gate1JournalRecord P → Option (Gate1JournalRecord P) → Bool
  is_record r none = false
  is_record r (some q) = same_record q r

  abbrev digest_of : Option (Gate1JournalRecord P) → String
  digest_of none = genesis_digest
  digest_of (some r) = r.record_digest

  -- The answer of `append` where the identity is in use.
  pub append_again :
      P
      → String
      → Option (Gate1JournalRecord P)
      → Gate1JournalRecord P
      → Result JournalError (Gate1JournalRecord P)
  append_again payload recorded_at last match =
      if is_record match last
        && same_payload match.payload payload
        && str_eq match.recorded_at recorded_at
      then ok match
      else err duplicate_id

  -- The record that `append` writes after `current`.
  pub next_record :
      JournalKind → String → P → String → List (Gate1JournalRecord P) → Gate1JournalRecord P
  next_record kind id payload recorded_at current =
      let base : Base P = record {
        record_kind = kind;
        record_id = id;
        recorded_at = recorded_at;
        predecessor_digest = digest_of (last_record current);
        payload = payload;
      } in
      record { base = base; record_digest = canonical_sha256 base }

  -- The bytes of the file, none where there is no file.
  abbrev content : Option Bytes → Bytes
  content none = []
  content (some raw) = raw

  -- The file with one more line.
  pub with_line : Option Bytes → Gate1JournalRecord P → Option Bytes
  with_line file r = some (content file ++ canonical_json_bytes (dump r) ++ 10 ∷ [])

  -- `append` once the lock is held: the answer, and the file that it leaves.
  pub append_locked :
      JournalKind
      → String
      → P
      → String
      → Option Bytes
      → Result JournalError (Gate1JournalRecord P) × Option Bytes
  unfolding validate_record
  append_locked kind id payload recorded_at file = elim (read_records kind file) [
    | err e ↦ (err e, file)
    | ok current ↦
        let r = next_record kind id payload recorded_at current in
        let written = with_line file r in
        if any (λ q. str_eq q.record_id id) current
        then (err duplicate_id, file)
        else if not (is_well_formed r && validate_record r)
        then (err invalid_record, file)
        else elim (read_records kind written) [
          | err e ↦ (err e, written)
          | ok verified ↦
              if is_record r (last_record verified)
              then (ok r, written)
              else (err unverified, written)
        ]
  ]

  -- `append`, with the file as it is before the lock is taken (`seen`) and after (`file`): another
  -- writer may have changed it in between. The lock is released on every path.
  pub append :
      Bool
      → JournalKind
      → String
      → P
      → String
      → Option Bytes
      → Bool
      → Option Bytes
      → Result JournalError (Gate1JournalRecord P) × Option Bytes
  unfolding append_again append_locked
  append sealed kind id payload recorded_at seen locked file =
      if sealed then (err sealed_journal, file) else elim (read_records kind seen) [
        | err e ↦ (err e, file)
        | ok existing ↦ elim (first_match id existing) [
          | some match ↦ (append_again payload recorded_at (last_record existing) match, file)
          | none ↦
              if locked
              then (err lock_held, file)
              else append_locked kind id payload recorded_at file
        ]
      ]
