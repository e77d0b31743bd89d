-- ===== src/Cache/Examples.antt =====
-- The theorems on src/investment_tracker/quant/data/cache.py at a concrete cache, and tests.
use investment_tracker.Prelude.{ℕ, String, ◌≡◌, refl, some, none, List, [], ◌∷◌, All, ok, err}
use investment_tracker.Timestamp.{aware}
use investment_tracker.Governance.{assert_symbol_allowed}
use investment_tracker.Cache.{
  Frames, DataRequest, DatasetMetadata, CachedDataset, Version, Cache, guarded, listed, read_all,
  read_dataset, find, admit, data_quality, object,
}
use investment_tracker.Cache.Kept.{Admission}
use investment_tracker.Cache.Lookup.{Intact, NoLater, find-Latest}
use investment_tracker.Cache.Found.{admit-find}

-- A frame is its number of rows and its digest.
abbrev frames : Frames
frames = record {
  Frame = ℕ × String;
  content_hash = λ f. f.1;
  row_count = λ f. f.0;
  first_timestamp = λ f. aware 0;
  last_timestamp = λ f. aware f.0;
  reread = λ f. some f;
}

abbrev plain : String → String
plain s = s

abbrev request : DataRequest
request = record { symbol = "SPY"; start = 1; end = 9 }

abbrev admission : ℕ → String → ℕ → Admission frames ℕ
admission rows digest moment = record {
  request = request;
  frame = (rows, digest);
  issues = [];
  api_version = none;
  moment = aware moment;
}

abbrev metadata : ℕ → String → ℕ → DatasetMetadata
metadata rows digest moment = record {
  provider_api_version = none;
  symbol = "SPY";
  requested_start = 1;
  requested_end = 9;
  retrieved_at = aware moment;
  first_timestamp = aware 0;
  last_timestamp = aware rows;
  row_count = rows;
  content_hash = digest;
}

abbrev version : ℕ → String → ℕ → Version frames
version rows digest moment = record {
  directory = request;
  stamp = aware moment;
  digest = digest;
  metadata = object (some digest) (some (metadata rows digest moment));
  frame = some (rows, digest);
}

abbrev filled : Cache frames ℕ
filled = record { versions = version 5 "d1" 100 ∷ version 6 "d2" 90 ∷ []; quarantine = [] }

abbrev dataset : CachedDataset frames
dataset = record { metadata = metadata 5 "d1" 100; frame = (5, "d1") }

admits_unknown :
    (admit frames plain request (7, "d3") [] none (aware 80) filled).1.versions
    ≡ version 5 "d1" 100 ∷ version 6 "d2" 90 ∷ version 7 "d3" 80 ∷ []
unfolding admit assert_symbol_allowed
admits_unknown = refl

-- A frame whose content is there is answered with what is there.
admits_known :
    admit frames plain request (5, "d1") [] none (aware 200) filled ≡ (ok dataset, filled)
unfolding admit assert_symbol_allowed read_dataset
admits_known = refl

quarantines :
    (admit frames plain request (5, "d1") (3 ∷ []) none (aware 200) filled).0 ≡ err data_quality
unfolding admit assert_symbol_allowed
quarantines = refl

finds : find frames plain request filled ≡ (ok (some dataset), filled)
unfolding find assert_symbol_allowed
finds = refl

find-Latest_example :
    (filled ≡ filled)
    × (asked : DataRequest) × (guarded plain request ≡ ok asked)
    × (ds : List (CachedDataset frames)) × (read_all frames asked
          (listed frames asked filled.versions)
        ≡ ok ds)
    × Intact frames asked dataset
    × All (NoLater frames dataset) ds
find-Latest_example = find-Latest frames plain request filled finds

abbrev readable : List (CachedDataset frames)
readable = dataset ∷ record { metadata = metadata 6 "d2" 90; frame = (6, "d2") } ∷ []

reads : read_all frames request (listed frames request filled.versions) ≡ ok readable
unfolding read_all listed read_dataset
reads = refl

allows : guarded plain request ≡ ok request
unfolding assert_symbol_allowed
allows = refl

admit-find_example :
    (top : CachedDataset frames) × (find frames plain request filled ≡ (ok (some top), filled))
    × NoLater frames top dataset
admit-find_example =
    admit-find frames plain request (5, "d1") none (aware 200) filled [] admits_known allows reads
      (refl, (refl, tt))
