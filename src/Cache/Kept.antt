-- ===== src/Cache/Kept.antt =====
-- What admissions to the cache of src/investment_tracker/quant/data/cache.py leave in it.
use investment_tracker.Prelude.{String, ◌≡◌, ◌≢◌, ◌⊎◌, true, Option, List, [], ◌∷◌, ◌++◌, ok}
use investment_tracker.Timestamp.{Timestamp, is_aware}
use investment_tracker.Cache.{Frames, DataRequest, Version, Cache, guarded, version_of, admit}

module _ (P : Frames) (strip_upper : String → String) where
  -- An admission of a frame that was found clean, has rows and is for a symbol that is allowed.
  abbrev pub Admitted : Version P → Type 0
  Admitted v =
      (request : DataRequest) × (asked : DataRequest) × (frame : P.Frame) × (api_version : Option
        String)
      × (moment : Timestamp) × (guarded strip_upper request ≡ ok asked)
      × (is_aware moment ≡ true)
      × (P.row_count frame ≢ 0)
      × (v ≡ version_of P asked frame api_version moment)

  module _ (request : DataRequest) (frame : P.Frame) (api_version : Option String)
      (moment : Timestamp) {I : Type 0} (c : Cache P I) where
    abbrev Grown : List (Version P) → Type 0
    Grown versions =
        (versions ≡ c.versions) ⊎ ((v : Version P) × (versions ≡ c.versions ++ v ∷ []) × Admitted v)

-- The arguments of `admit`.
pub record Admission (P : Frames) (I : Type 0) : Type 0 where
  pub request : DataRequest
  pub frame : P.Frame
  pub issues : List I
  pub api_version : Option String
  pub moment : Timestamp

module _ (P : Frames) (strip_upper : String → String) {I : Type 0} where
  -- Admissions one after the other, whether they return or raise.
  unfoldable pub admit_all : List (Admission P I) → Cache P I → Cache P I
  admit_all [] c = c
  admit_all (a ∷ calls) c =
      admit_all calls (admit P strip_upper a.request a.frame a.issues a.api_version a.moment c).1
