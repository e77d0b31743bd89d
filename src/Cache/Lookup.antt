-- ===== src/Cache/Lookup.antt =====
-- What the cache of src/investment_tracker/quant/data/cache.py finds.
use investment_tracker.Prelude.{
  String, ◌≡◌, inl, inr, subst, true, false, some, List, [], ◌∷◌, arith, ok, and_then-ok_then,
  or_raise, All, Bool-cases, eq_iff, Result-cases,
}
use investment_tracker.Timestamp.{Timestamp, naive, aware, before}
use investment_tracker.Cache.{
  Frames, DataRequest, CachedDataset, Version, Cache, guarded, listed, identifies, read_dataset,
  read_all, latest, latest_of, find, type_error, cache_integrity, validated,
}

-- `a` is not after `b`.
abbrev pub NotAfter : Timestamp → Timestamp → Type 0
NotAfter a b = before b a ≡ some false

before-irreflexive : (t : Timestamp) → NotAfter t t
before-irreflexive (naive t) = ground arith
before-irreflexive (aware t) = ground arith

before-NotAfter : (a b c : Timestamp) → before a b ≡ some true → NotAfter b c → NotAfter a c
before-NotAfter (naive a) (naive b) (naive c) h k = ground arith
before-NotAfter (aware a) (aware b) (aware c) h k = ground arith
before-NotAfter (naive a) (aware b) c h k = cc
before-NotAfter (aware a) (naive b) c h k = cc
before-NotAfter (naive a) (naive b) (aware c) h k = cc
before-NotAfter (aware a) (aware b) (naive c) h k = cc

same-NotAfter : (a b c : Timestamp) → before a b ≡ some false → NotAfter a c → NotAfter b c
same-NotAfter (naive a) (naive b) (naive c) h k = ground arith
same-NotAfter (aware a) (aware b) (aware c) h k = ground arith
same-NotAfter (naive a) (aware b) c h k = cc
same-NotAfter (aware a) (naive b) c h k = cc
same-NotAfter (naive a) (naive b) (aware c) h k = cc
same-NotAfter (aware a) (aware b) (naive c) h k = cc

module _ (P : Frames) where
  abbrev pub NoLater : CachedDataset P → CachedDataset P → Type 0
  NoLater top d = NotAfter d.metadata.retrieved_at top.metadata.retrieved_at

  -- Its metadata names the request, and its frame has the rows and the digest of the metadata.
  pub record Intact (request : DataRequest) (d : CachedDataset P) : Type 0 where
    pub named : identifies P request d.metadata ≡ true
    pub rows : d.metadata.row_count ≡ P.row_count d.frame
    pub digest : P.content_hash d.frame ≡ d.metadata.content_hash

  pub latest-NoLater :
      (top : CachedDataset P) (candidates : List (CachedDataset P)) {best : CachedDataset P}
      → latest P top candidates ≡ ok best
      → NoLater best top × All (NoLater best) candidates
  unfolding latest
  latest-NoLater top [] {best} h =
      let is : top ≡ best = ground arith in
      (
        subst (λ (b : CachedDataset P). NoLater b top) is
            (before-irreflexive top.metadata.retrieved_at),
        tt,
      )
  latest-NoLater top (d ∷ candidates) {best} h =
      and_then-ok_then
        (or_raise type_error (before top.metadata.retrieved_at d.metadata.retrieved_at)) h
        λ newer compared rest. elim (Bool-cases newer) [
          | inl later ↦
              let (here, others) = latest-NoLater d candidates {best = best} (ground arith) in
              (
                before-NotAfter top.metadata.retrieved_at d.metadata.retrieved_at
                    best.metadata.retrieved_at (ground arith) here,
                (here, others),
              )
          | inr earlier ↦
              let (here, others) = latest-NoLater top candidates {best = best} (ground arith) in
              (
                here,
                (
                  same-NotAfter top.metadata.retrieved_at d.metadata.retrieved_at
                      best.metadata.retrieved_at (ground arith) here,
                  others,
                ),
              )
        ]

  latest-In :
      (Q : CachedDataset P → Type 0) (top : CachedDataset P) (candidates : List (CachedDataset P))
      {best : CachedDataset P}
      → latest P top candidates ≡ ok best
      → Q top
      → All Q candidates
      → Q best
  unfolding latest
  latest-In Q top [] {best} h q qs = subst Q (ground arith) q
  latest-In Q top (d ∷ candidates) {best} h q qs =
      and_then-ok_then
        (or_raise type_error (before top.metadata.retrieved_at d.metadata.retrieved_at)) h
        λ newer compared rest. elim (Bool-cases newer) [
          | inl later ↦ latest-In Q d candidates {best = best} (ground arith) qs.0 qs.1
          | inr earlier ↦ latest-In Q top candidates {best = best} (ground arith) q qs.1
        ]

  read_dataset-Intact :
      (v : Version P) (request : DataRequest) {d : CachedDataset P}
      → read_dataset P v request ≡ ok d
      → Intact request d
  unfolding read_dataset
  read_dataset-Intact v request {d} h =
      and_then-ok_then (or_raise cache_integrity (validated v.metadata)) h λ m _ h1.
        and_then-ok_then (or_raise cache_integrity v.frame) h1 λ frame _ h2.
          let one : identifies P request m ≡ true = ground arith in
          let two : m.row_count ≡ P.row_count frame = ground arith in
          let three : P.content_hash frame ≡ m.content_hash =
            ground (arith, eq_iff (P.content_hash frame) m.content_hash) in
          let is : record { metadata = m; frame = frame } ≡ d = ground arith in
          subst (Intact request) is (record { named = one; rows = two; digest = three })

  read_all-Intact :
      (request : DataRequest) (versions : List (Version P)) {ds : List (CachedDataset P)}
      → read_all P request versions ≡ ok ds
      → All (Intact request) ds
  unfolding read_all
  read_all-Intact request [] h = ground arith
  read_all-Intact request (v ∷ versions) {ds} h =
      and_then-ok_then (read_dataset P v request) h λ d read h1.
        and_then-ok_then (read_all P request versions) h1 λ rest others h2.
          let is : d ∷ rest ≡ ds = ground arith in
          subst (λ (l : List (CachedDataset P)). All (Intact request) l) is
            (read_dataset-Intact v request read, read_all-Intact request versions others)

  latest_of-best :
      (request : DataRequest) (ds : List (CachedDataset P)) {d : CachedDataset P}
      → latest_of P ds ≡ ok (some d)
      → All (Intact request) ds
      → Intact request d × All (NoLater d) ds
  latest_of-best request [] h intact = absurd (ground arith)
  latest_of-best request (top ∷ candidates) {d} h intact =
      and_then-ok_then (latest P top candidates) h λ best chosen is.
        let same : best ≡ d = ground arith in
        let (here, others) = latest-NoLater top candidates {best = best} chosen in
        subst (λ (b : CachedDataset P). Intact request b × All (NoLater b) (top ∷ candidates)) same
          (
            latest-In (Intact request) top candidates {best = best} chosen intact.0 intact.1,
            (here, others),
          )

  -- A lookup that finds a data set leaves the cache as it is; every version of the request could be
  -- read, the one found is intact, and none of them was retrieved later.
  pub find-Latest :
      {I : Type 0} (strip_upper : String → String) (request : DataRequest) (c : Cache P I)
      {d : CachedDataset P} {c' : Cache P I}
      → find P strip_upper request c ≡ (ok (some d), c')
      → (c' ≡ c)
        × (asked : DataRequest) × (guarded strip_upper request ≡ ok asked)
        × (ds : List (CachedDataset P)) × (read_all P asked (listed P asked c.versions) ≡ ok ds)
        × Intact asked d
        × All (NoLater d) ds
  unfolding find
  find-Latest strip_upper request c {d} {c'} h = elim (Result-cases (guarded strip_upper request)) [
    | inl (e, bad) ↦ absurd (ground arith)
    | inr (asked, allowed) ↦ elim (Result-cases (read_all P asked (listed P asked c.versions))) [
      | inl (e, bad) ↦ absurd (ground arith)
      | inr (ds, read) ↦
          let best : latest_of P ds ≡ ok (some d) = ground arith in
          let (intact, latest_one) =
            latest_of-best asked ds best (read_all-Intact asked (listed P asked c.versions) read) in
          (ground arith, asked, allowed, ds, read, intact, latest_one)
    ]
  ]
