-- ===== src/Cache/Found.antt =====
-- That the cache of src/investment_tracker/quant/data/cache.py finds what it admitted.
use investment_tracker.Prelude.{
  String, ◌≡◌, ◌⊎◌, inl, inr, sym, ◌∙◌, ap, subst, true, Option, none, some, List, [], ◌∷◌, ◌++◌,
  arith, ok, and_then-ok_then, or_raise, All, All-append, Bool-cases, Result-cases, any, ◌==◌,
}
use investment_tracker.Timestamp.{Timestamp, is_aware}
use investment_tracker.Cache.{
  Frames, DataRequest, CachedDataset, Cache, guarded, listed, read_dataset, read_all, find,
  find_by_hash, admit, admit_new, version_of, cache_integrity, is_named,
}
use investment_tracker.Cache.Lookup.{NoLater}
use investment_tracker.Cache.Reading.{
  Aware, latest_of-returns, read_all-append, listed-append, find_by_hash-In, All-last,
  same_request_self, place-fresh,
}

module _ (P : Frames) (strip_upper : String → String) (request : DataRequest) (frame : P.Frame)
    (api_version : Option String) (moment : Timestamp) {I : Type 0} (c : Cache P I) where
  -- What an admission that returns has done.
  abbrev Done : CachedDataset P → Cache P I → DataRequest → Type 0
  Done d c' asked =
      ((find_by_hash P asked (P.content_hash frame) (listed P asked c.versions) ≡ ok (some d))
        × (c' ≡ c))
      ⊎ ((read_dataset P (version_of P asked frame api_version moment) asked ≡ ok d)
          × (c'.versions ≡ c.versions ++ version_of P asked frame api_version moment ∷ []))

  admit_new-Done :
      (asked : DataRequest) {d : CachedDataset P} {c' : Cache P I}
      → admit_new P asked frame api_version moment c ≡ (ok d, c')
      → Done d c' asked
  unfolding admit_new
  admit_new-Done asked {d} {c'} h =
      elim (Bool-cases
        (any (is_named P moment (P.content_hash frame)) (listed P asked c.versions))) [
          | inl there ↦ absurd (ground arith)
          | inr fresh ↦
              let new = version_of P asked frame api_version moment in
              let placed = place-fresh P new c.versions fresh in inr (ground arith, ground arith)
        ]

  admit-Done :
      (issues : List I) {d : CachedDataset P} {c' : Cache P I}
      → admit P strip_upper request frame issues api_version moment c ≡ (ok d, c')
      → (asked : DataRequest) × (guarded strip_upper request ≡ ok asked)
        × (is_aware moment ≡ true)
        × Done d c' asked
  unfolding admit
  admit-Done (issue ∷ issues) {d} {c'} h = elim (Result-cases (guarded strip_upper request)) [
    | inl (e, bad) ↦ absurd (ground arith)
    | inr (asked, allowed) ↦ elim (Bool-cases (is_aware moment)) [
      | inr naive_time ↦ absurd (ground arith)
      | inl aware_time ↦ absurd (ground arith)
    ]
  ]
  admit-Done [] {d} {c'} h = elim (Result-cases (guarded strip_upper request)) [
    | inl (e, bad) ↦ absurd (ground arith)
    | inr (asked, allowed) ↦ elim (Bool-cases (is_aware moment)) [
      | inr naive_time ↦ absurd (ground arith)
      | inl aware_time ↦ elim (Bool-cases (P.row_count frame == 0)) [
        | inl empty ↦ absurd (ground arith)
        | inr rows ↦
            elim (Result-cases
              (find_by_hash P asked (P.content_hash frame) (listed P asked c.versions))) [
                | inl (e, bad) ↦ absurd (ground arith)
                | inr (none, absent) ↦ (
                  asked,
                  allowed,
                  aware_time,
                  admit_new-Done asked {d = d} {c' = c'} (ground arith),
                )
                | inr (some e, there) ↦
                    (asked, allowed, aware_time, inl (ground arith, ground arith))
              ]
      ]
    ]
  ]

  Aware-version_of :
      (asked : DataRequest) {d : CachedDataset P}
      → is_aware moment ≡ true
      → read_dataset P (version_of P asked frame api_version moment) asked ≡ ok d
      → Aware P d
  unfolding read_dataset
  Aware-version_of asked {d} h read =
      and_then-ok_then (or_raise cache_integrity (P.reread frame)) read λ f again rest.
        let is : moment ≡ d.metadata.retrieved_at = ground arith in
        subst (λ (t : Timestamp). is_aware t ≡ true) is h

  find-In :
      (asked : DataRequest) (c' : Cache P I) (d : CachedDataset P) {ds : List (CachedDataset P)}
      → guarded strip_upper request ≡ ok asked
      → read_all P asked (listed P asked c'.versions) ≡ ok ds
      → ((Q : CachedDataset P → Type 0) → All Q ds → Q d)
      → All (Aware P) ds
      → (top : CachedDataset P) × (find P strip_upper request c' ≡ (ok (some top), c'))
        × NoLater P top d
  unfolding find
  find-In asked c' d {ds} allowed read member times =
      let (top, is, later) = latest_of-returns P ds d member times in (top, ground arith, later)

  -- After an admission that returned a data set, a lookup of the same request returns one too, which
  -- was not retrieved earlier, provided that the request's versions before were readable and their
  -- times aware.
  pub admit-find :
      (issues : List I) {d : CachedDataset P} {c' : Cache P I} {asked : DataRequest}
      {ds : List (CachedDataset P)}
      → admit P strip_upper request frame issues api_version moment c ≡ (ok d, c')
      → guarded strip_upper request ≡ ok asked
      → read_all P asked (listed P asked c.versions) ≡ ok ds
      → All (Aware P) ds
      → (top : CachedDataset P) × (find P strip_upper request c' ≡ (ok (some top), c'))
        × NoLater P top d
  admit-find issues {d} {c'} {asked} {ds} h allowed read times =
      let (target, allowed', aware_time, done) = admit-Done issues {d = d} {c' = c'} h in
      let is : target ≡ asked = ground arith in
      elim (subst (Done d c') is done) [
        | inl (known, same) ↦
            find-In asked c' d {ds = ds} allowed
              (subst (λ (k : Cache P I). read_all P asked (listed P asked k.versions) ≡ ok ds)
                (sym same) read)
              (find_by_hash-In P asked (P.content_hash frame) (listed P asked c.versions) known
                read)
              times
        | inr (back, grown) ↦
            let new = version_of P asked frame api_version moment in
            let whole : listed P asked c'.versions ≡ listed P asked c.versions ++ new ∷ [] =
              ap (listed P asked) grown
              ∙ listed-append P asked c.versions new (same_request_self P asked) in
            find-In asked c' d {ds = ds ++ d ∷ []} allowed
              (ap (read_all P asked) whole
                ∙ read_all-append P asked (listed P asked c.versions) new read back)
              (λ Q q. (All-last Q ds d q))
              (All-append (Aware P) ds (d ∷ []) times (Aware-version_of asked aware_time back, tt))
      ]
