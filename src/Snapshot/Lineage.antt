-- ===== src/Snapshot/Lineage.antt =====
-- What a manifest that passes src/investment_tracker/snapshot.py stands on.
use investment_tracker.Prelude.{
  ℕ, String, ◌≡◌, sym, ◌∙◌, refl, true, none, some, Option, [], ◌∷◌, arith, str_eq, eq_iff,
  Option-cases, Bool-cases, inl, inr, ok,
}
use investment_tracker.Dict.{Dict, get, string_key}
use investment_tracker.Snapshot.{
  WorkerManifest, InputSnapshot, keys_within, unchanged, digests_fresh, verify_snapshot_fresh,
  verify_manifest_snapshot_lineage, same_text, same_day, spy_agrees,
}

keys_within-none :
    (a b : Dict String String) (key : String)
    → keys_within a b ≡ true
    → get b key ≡ none
    → get a key ≡ none
unfolding keys_within get
keys_within-none [] b key h e = refl
keys_within-none ((k, v) ∷ a) b key h e = elim (Option-cases (get b k)) [
  | inl missing ↦ absurd (ground arith)
  | inr (w, found) ↦
      let rest = keys_within-none a b key (ground arith) e in ground (arith, eq_iff k key)
]

unchanged-some :
    (a b : Dict String String) (key : String) {value : String}
    → unchanged a b ≡ true
    → get a key ≡ some value
    → get b key ≡ some value
unfolding unchanged get
unchanged-some [] b key h e = absurd (ground arith)
unchanged-some ((k, v) ∷ a) b key h e = elim (Option-cases (get b k)) [
  | inl missing ↦ absurd (ground arith)
  | inr (w, found) ↦ elim (Bool-cases (str_eq k key)) [
    | inl same ↦ ground (arith, eq_iff k key, eq_iff w v)
    | inr other ↦ unchanged-some a b key (ground arith) (ground arith)
  ]
]

-- Both dicts answer every key alike.
abbrev pub Agrees : Option (Dict String String) → Dict String String → Type 0
Agrees none current = ⊥
Agrees (some expected) current = (key : String) → get expected key ≡ get current key

digests_fresh-Agrees :
    (digests : Option (Dict String String)) (current : Dict String String)
    → digests_fresh digests current ≡ ok tt
    → Agrees digests current
unfolding digests_fresh
digests_fresh-Agrees none current h = cc
digests_fresh-Agrees (some []) current h = cc
digests_fresh-Agrees (some (item ∷ items)) current h = λ key.
    let expected : Dict String String = item ∷ items in
    elim (Option-cases (get expected key)) [
      | inl missing ↦ missing ∙ sym (keys_within-none current expected key (ground arith) missing)
      | inr (value, found) ↦ found ∙ sym (unchanged-some expected current key (ground arith) found)
    ]

-- A manifest that passes the check of freshness recorded exactly the current inputs: for every key,
-- its digest is the current one, and neither side has a key that the other lacks.
verify_snapshot_fresh-Agrees :
    (manifest : WorkerManifest) (current : Dict String String)
    → verify_snapshot_fresh manifest current ≡ ok tt
    → Agrees manifest.input_snapshot_digests current
unfolding verify_snapshot_fresh
verify_snapshot_fresh-Agrees manifest current h =
    digests_fresh-Agrees manifest.input_snapshot_digests current h

same_text-same : (a b : Option String) → same_text a b ≡ true → a ≡ b
same_text-same none none h = refl
same_text-same (some a) (some b) h = ground (arith, eq_iff a b)
same_text-same _ _ h = cc

same_day-same : (a b : Option ℕ) → same_day a b ≡ true → a ≡ b
same_day-same none none h = refl
same_day-same (some a) (some b) h = ground arith
same_day-same _ _ h = cc

-- A manifest that passes the check of lineage has its snapshot's identity, asset and dates, and the
-- snapshot's benchmark digest is the one among its inputs; its own digests are the current ones.
pub verify_manifest_snapshot_lineage-Agrees :
    (manifest : WorkerManifest) (snapshot : InputSnapshot) (current : Dict String String)
    → verify_manifest_snapshot_lineage manifest snapshot current ≡ ok tt
    → (manifest.input_snapshot_id ≡ snapshot.snapshot_id)
      × (manifest.asset ≡ snapshot.asset)
      × (manifest.start_date ≡ snapshot.start_date)
      × (manifest.end_date ≡ snapshot.end_date)
      × (spy_agrees snapshot.input_digests snapshot.spy_digest ≡ true)
      × Agrees manifest.input_snapshot_digests current
unfolding verify_manifest_snapshot_lineage
verify_manifest_snapshot_lineage-Agrees manifest snapshot current h = (
  same_text-same _ _ (ground arith),
  same_text-same _ _ (ground arith),
  same_day-same _ _ (ground arith),
  same_day-same _ _ (ground arith),
  ground arith,
  verify_snapshot_fresh-Agrees manifest current (ground arith),
)
