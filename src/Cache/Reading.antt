-- ===== src/Cache/Reading.antt =====
-- Reading the versions of a request in src/investment_tracker/quant/data/cache.py.
use investment_tracker.Prelude.{
  String, ◌≡◌, inl, inr, refl, sym, ◌∙◌, ap, subst, true, some, List, [], ◌∷◌, ◌++◌, arith, ok,
  and_then, and_then-ok_then, All, Bool-cases, eq_iff, ==_iff, Bool, ltb, any, false,
}
use investment_tracker.Timestamp.{Timestamp, naive, aware, before, is_aware}
use investment_tracker.Cache.{
  Frames, DataRequest, CachedDataset, Version, same_request, listed, read_dataset, read_all, latest,
  latest_of, find_by_hash, raw_hash, has_hash, place, is_named,
}
use investment_tracker.Cache.Lookup.{NoLater, latest-NoLater}

before-aware :
    (a b : Timestamp) → is_aware a ≡ true → is_aware b ≡ true → (r : Bool) × (before a b ≡ some r)
before-aware (aware a) (aware b) h k = (ltb a b, refl)
before-aware (naive a) b h k = cc
before-aware (aware a) (naive b) h k = cc

module _ (P : Frames) where
  abbrev pub Aware : CachedDataset P → Type 0
  Aware d = is_aware d.metadata.retrieved_at ≡ true

  latest-returns :
      (top : CachedDataset P) (candidates : List (CachedDataset P))
      → Aware top
      → All Aware candidates
      → (best : CachedDataset P) × (latest P top candidates ≡ ok best)
  unfolding latest
  latest-returns top [] one others = (top, refl)
  latest-returns top (d ∷ candidates) one others =
      let (newer, compared) =
        before-aware top.metadata.retrieved_at d.metadata.retrieved_at one others.0 in
      elim (Bool-cases newer) [
        | inl later ↦
            let (best, is) = latest-returns d candidates others.0 others.1 in (best, ground arith)
        | inr earlier ↦
            let (best, is) = latest-returns top candidates one others.1 in (best, ground arith)
      ]

  -- Among aware data sets there is a latest, and no given one of them is later.
  pub latest_of-returns :
      (ds : List (CachedDataset P)) (d : CachedDataset P)
      → ((Q : CachedDataset P → Type 0) → All Q ds → Q d)
      → All Aware ds
      → (top : CachedDataset P) × (latest_of P ds ≡ ok (some top)) × NoLater P top d
  latest_of-returns [] d member times = absurd (member (λ x. ⊥) tt)
  latest_of-returns (e ∷ ds) d member times =
      let (best, is) = latest-returns e ds times.0 times.1 in
      (best, ground arith, member (NoLater P best) (latest-NoLater P e ds {best = best} is))

  pub read_all-append :
      (request : DataRequest) (versions : List (Version P)) (v : Version P)
      {ds : List (CachedDataset P)} {d : CachedDataset P}
      → read_all P request versions ≡ ok ds
      → read_dataset P v request ≡ ok d
      → read_all P request (versions ++ v ∷ []) ≡ ok (ds ++ d ∷ [])
  unfolding read_all
  read_all-append request [] v {ds} {d} h k =
      let is : ds ≡ [] = ground arith in
      ap (λ r. and_then r (λ x. ok (x ∷ []))) k
      ∙ ap (λ (l : List (CachedDataset P)). ok (l ++ d ∷ [])) (sym is)
  read_all-append request (w ∷ versions) v {ds} {d} h k =
      and_then-ok_then (read_dataset P w request) h λ e first h1.
        and_then-ok_then (read_all P request versions) h1 λ rest others h2.
          let is : e ∷ rest ≡ ds = ground arith in
          let tail = read_all-append request versions v others k in
          let whole : read_all P request (w ∷ (versions ++ v ∷ [])) ≡ ok (e ∷ (rest ++ d ∷ [])) =
            ground arith in
          whole ∙ ap (λ (l : List (CachedDataset P)). ok (l ++ d ∷ [])) is

  -- Where no version of the directory has the new one's name, the new one is put behind the others.
  pub place-fresh :
      (new : Version P) (versions : List (Version P))
      → any (is_named P new.stamp new.digest) (listed P new.directory versions) ≡ false
      → place P new versions ≡ versions ++ new ∷ []
  unfolding place listed
  place-fresh new [] h = refl
  place-fresh new (v ∷ versions) h = elim (Bool-cases (same_request P v.directory new.directory)) [
    | inl same ↦
        let named : is_named P new.stamp new.digest v ≡ false = ground arith in
        let rest = place-fresh new versions (ground arith) in ground arith
    | inr other ↦ let rest = place-fresh new versions (ground arith) in ground arith
  ]

  pub listed-append :
      (request : DataRequest) (versions : List (Version P)) (v : Version P)
      → same_request P v.directory request ≡ true
      → listed P request (versions ++ v ∷ []) ≡ listed P request versions ++ v ∷ []
  unfolding listed
  listed-append request [] v h = ground arith
  listed-append request (w ∷ versions) v h =
      let rest = listed-append request versions v h in ground arith

  pub find_by_hash-In :
      (request : DataRequest) (digest : String) (versions : List (Version P))
      {ds : List (CachedDataset P)} {d : CachedDataset P}
      → find_by_hash P request digest versions ≡ ok (some d)
      → read_all P request versions ≡ ok ds
      → (Q : CachedDataset P → Type 0) → All Q ds
      → Q d
  unfolding find_by_hash read_all
  find_by_hash-In request digest [] h k Q q = absurd (ground arith)
  find_by_hash-In request digest (v ∷ versions) {ds} {d} h k Q q =
      and_then-ok_then (read_dataset P v request) k λ e first k1.
        and_then-ok_then (read_all P request versions) k1 λ rest others k2.
          let is : ds ≡ e ∷ rest = ground arith in
          let here : All Q (e ∷ rest) = subst (λ (l : List (CachedDataset P)). All Q l) is q in
          and_then-ok_then (raw_hash v.metadata) h λ hash known h1.
            elim (Bool-cases (has_hash digest hash)) [
              | inl hit ↦ let same : e ≡ d = ground arith in subst Q same here.0
              | inr miss ↦
                  find_by_hash-In request digest versions {ds = rest} {d = d} (ground arith) others
                    Q here.1
            ]

pub All-last : {A : Type 0} (Q : A → Type 0) (xs : List A) (x : A) → All Q (xs ++ x ∷ []) → Q x
All-last Q [] x h = h.0
All-last Q (y ∷ xs) x h = All-last Q xs x h.1

pub same_request_self : (P : Frames) (r : DataRequest) → same_request P r r ≡ true
same_request_self P r = ground (
  arith,
  (eq_iff r.symbol r.symbol).1 refl,
  (==_iff r.start r.start).1 refl,
  (==_iff r.end r.end).1 refl,
)
