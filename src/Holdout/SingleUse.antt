-- ===== src/Holdout/SingleUse.antt =====
-- The audit directories of src/investment_tracker/quant/validation/holdout.py over sequences of
-- evaluations.
use investment_tracker.Prelude.{
  String, ◌≡◌, false, List, [], ◌∷◌, arith, eq_iff, err, ok, lift-keeps, or_raise, ◌>>=◌, lift,
  ◌>>◌,
}
use investment_tracker.Dict.{Dict, get, put, get-put, string_key, get-put_self}
use investment_tracker.Holdout.{
  FrozenCandidateManifest, Metric, Audit, Disk, Sealed, audit_at, update, is_missing,
  allowed_symbols, load_all, start, record_result, evaluate, holdout_reuse, evaluation_raised,
  finish, HoldoutEvaluationResult,
}

-- The candidate's holdout is used up in the directory.
abbrev pub Consumed : String → String → Disk → Type 0
Consumed directory digest d = is_missing (get (audit_at directory d).started digest) ≡ false

-- A change that forgets no started file.
abbrev Keeps : (Audit → Audit) → Type 0
Keeps change =
    (a : Audit) (digest : String)
    → is_missing (get a.started digest) ≡ false
    → is_missing (get (change a).started digest) ≡ false

update-Consumed :
    (there directory digest : String) (change : Audit → Audit) (d : Disk)
    → Keeps change
    → Consumed directory digest d
    → Consumed directory digest (update there change d)
unfolding update
update-Consumed there directory digest change d keeps used = ground (
  arith,
  keeps (audit_at there d) digest,
  get-put d.audits there directory (change (audit_at there d)),
  eq_iff there directory,
)

-- A call of `evaluate`: the evaluator, the candidate and the audit directory.
pub record Evaluation (Data : Type 0) : Type 0 where
  pub sealed : Sealed Data
  pub candidate : FrozenCandidateManifest
  pub directory : String

module _ (strip_upper : String → String) where
  record_result-Consumed :
      (c : FrozenCandidateManifest) (there : String) (metrics : Dict String Metric) (d : Disk)
      (directory digest : String)
      → Consumed directory digest d
      → Consumed directory digest (record_result strip_upper c there metrics d).1
  unfolding record_result
  record_result-Consumed c there metrics d directory digest used =
      let result : HoldoutEvaluationResult = record {
        candidate_digest = c.digest;
        status = "FROZEN_CANDIDATE_NOT_PRODUCTION_APPROVED";
        metrics = metrics;
      } in
      ground (
        arith,
        update-Consumed there directory digest
            (λ a. record a { results = put a.results c.digest result }) d (λ a k h. h) used,
      )

  start-Consumed :
      (c : FrozenCandidateManifest) (there : String) (d : Disk) (directory digest : String)
      → Consumed directory digest d
      → Consumed directory digest (start strip_upper c there d).1
  unfolding start
  start-Consumed c there d directory digest used = ground (
    arith,
    update-Consumed there directory digest (λ a. record a { started = put a.started c.digest tt }) d
        (λ a k h. ground (arith, get-put a.started c.digest k tt)) used,
  )

  start-consumes :
      (c : FrozenCandidateManifest) (directory : String) (d : Disk)
      → Consumed directory c.digest (start strip_upper c directory d).1
  unfolding start update
  start-consumes c directory d =
      let marked : Audit = record (audit_at directory d) {
        started = put (audit_at directory d).started c.digest tt;
      } in
      ground (
        arith,
        get-put_self d.audits directory marked,
        get-put_self (audit_at directory d).started c.digest tt,
      )

module _ (strip_upper : String → String) {Data : Type 0} where
  -- Evaluations one after the other, in any directories, whether they return or raise.
  unfoldable pub evaluate_all : List (Evaluation Data) → Disk → Disk
  evaluate_all [] d = d
  evaluate_all (e ∷ calls) d =
      evaluate_all calls (evaluate strip_upper e.sealed e.candidate e.directory d).1

  load_all-Consumed :
      (sealed : Sealed Data) (symbols : List String) (by_symbol : Dict String Data) (d : Disk)
      (directory digest : String)
      → Consumed directory digest d
      → Consumed directory digest (load_all strip_upper sealed symbols by_symbol d).1
  unfolding load_all
  load_all-Consumed sealed [] by_symbol d directory digest used = used
  load_all-Consumed sealed (symbol ∷ symbols) by_symbol d directory digest used =
      lift-keeps (Consumed directory digest) (or_raise evaluation_raised (sealed.load symbol)) _ _
        used
        λ found _.
          load_all-Consumed sealed symbols (put by_symbol symbol found) _ directory digest used

  finish-Consumed :
      (sealed : Sealed Data) (c : FrozenCandidateManifest) (there : String) (symbols : List String)
      (d : Disk) (directory digest : String)
      → Consumed directory digest d
      → Consumed directory digest (finish strip_upper sealed c there symbols d).1
  unfolding finish
  finish-Consumed sealed c there symbols d directory digest used =
      let loaded = load_all-Consumed sealed symbols [] d directory digest used in
      lift-keeps (Consumed directory digest) (load_all strip_upper sealed symbols [] d).0
        (λ by_symbol.
          lift (or_raise evaluation_raised (sealed.run c by_symbol))
          >>= record_result strip_upper c there)
        (load_all strip_upper sealed symbols [] d).1 loaded
        λ by_symbol _.
          lift-keeps (Consumed directory digest)
            (or_raise evaluation_raised (sealed.run c by_symbol))
            (record_result strip_upper c there) (load_all strip_upper sealed symbols [] d).1 loaded
            λ metrics _.
              record_result-Consumed strip_upper c there metrics
                (load_all strip_upper sealed symbols [] d).1 directory digest loaded

  -- The start of an evaluation, and the rest of it.
  abbrev started_then : Sealed Data → FrozenCandidateManifest → String → List String → Disk → Disk
  started_then sealed c there symbols d =
      ((start strip_upper c there >> finish strip_upper sealed c there symbols) d).1

  started-Consumed :
      (sealed : Sealed Data) (c : FrozenCandidateManifest) (there : String) (symbols : List String)
      (d : Disk) (directory digest : String)
      → Consumed directory digest (start strip_upper c there d).1
      → Consumed directory digest (started_then sealed c there symbols d)
  started-Consumed sealed c there symbols d directory digest used =
      lift-keeps (Consumed directory digest) (start strip_upper c there d).0
        (λ _. finish strip_upper sealed c there symbols) (start strip_upper c there d).1 used
        λ _ _.
          finish-Consumed sealed c there symbols (start strip_upper c there d).1 directory digest
            used

  evaluate-Consumed :
      (sealed : Sealed Data) (c : FrozenCandidateManifest) (there : String) (d : Disk)
      (directory digest : String)
      → Consumed directory digest d
      → Consumed directory digest (evaluate strip_upper sealed c there d).1
  unfolding evaluate
  evaluate-Consumed sealed c there d directory digest used =
      lift-keeps (Consumed directory digest) (allowed_symbols strip_upper c.data_manifest_hashes)
        (λ symbols. start strip_upper c there >> finish strip_upper sealed c there symbols) d used
        λ symbols _.
          started-Consumed sealed c there symbols d directory digest
            (start-Consumed strip_upper c there d directory digest used)

  evaluate_all-Consumed :
      (calls : List (Evaluation Data)) (d : Disk) (directory digest : String)
      → Consumed directory digest d
      → Consumed directory digest (evaluate_all calls d)
  unfolding evaluate_all
  evaluate_all-Consumed [] d directory digest used = used
  evaluate_all-Consumed (e ∷ calls) d directory digest used =
      evaluate_all-Consumed calls _ directory digest
        (evaluate-Consumed e.sealed e.candidate e.directory d directory digest used)

  evaluate-consumes :
      (sealed : Sealed Data) (c : FrozenCandidateManifest) (directory : String) (d : Disk)
      {symbols : List String}
      → allowed_symbols strip_upper c.data_manifest_hashes ≡ ok symbols
      → Consumed directory c.digest (evaluate strip_upper sealed c directory d).1
  unfolding evaluate
  evaluate-consumes sealed c directory d {symbols} allowed =
      let is =
        started-Consumed sealed c directory symbols d directory c.digest
          (start-consumes strip_upper c directory d) in
      ground arith

  evaluate-refuses :
      (sealed : Sealed Data) (c : FrozenCandidateManifest) (directory : String) (d : Disk)
      {symbols : List String}
      → allowed_symbols strip_upper c.data_manifest_hashes ≡ ok symbols
      → Consumed directory c.digest d
      → evaluate strip_upper sealed c directory d ≡ (err holdout_reuse, d)
  unfolding evaluate start
  evaluate-refuses sealed c directory d allowed used = ground arith

  -- In one audit directory, a candidate whose symbols are allowed is evaluated at most once: after its
  -- first evaluation there, whatever that gave, and any further evaluations in any directories, another
  -- evaluation of it there raises HoldoutReuseError, loads no holdout data and changes nothing.
  pub evaluate-once :
      (first again : Sealed Data) (c : FrozenCandidateManifest) (directory : String) (d : Disk)
      (calls : List (Evaluation Data)) {symbols : List String}
      → allowed_symbols strip_upper c.data_manifest_hashes ≡ ok symbols
      → let later = evaluate_all calls (evaluate strip_upper first c directory d).1 in
        evaluate strip_upper again c directory later ≡ (err holdout_reuse, later)
  evaluate-once first again c directory d calls allowed =
      evaluate-refuses again c directory _ allowed (
        evaluate_all-Consumed calls _ directory c.digest
          (evaluate-consumes first c directory d allowed))
