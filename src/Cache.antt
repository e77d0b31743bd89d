-- ===== src/Cache.antt =====
-- src/investment_tracker/quant/data/cache.py: the immutable cache of data sets. The state is the versions
-- that stand in the request directories, in the order in which a directory lists them, and the
-- quarantine's reports; a version that was damaged from outside has unreadable parts. Frames are a
-- parameter with what pandas gives of them, and so is a frame that parquet gives back.
pub mod Kept
pub mod Lookup
pub mod Reading
pub mod Found
mod Examples
use investment_tracker.Prelude.{
  ℕ, String, Bool, true, false, not, ◌&&◌, Option, none, some, List, [], ◌∷◌, ◌++◌, any, ◌==◌,
  if◌then◌else◌, str_eq, Result, ok, err, and_then, or_raise, Exec, raise_if, raise, pure, gets,
  modify, lift, ◌>>=◌, ◌>>◌,
}
use investment_tracker.Timestamp.{Timestamp, is_aware, before, same_time}
use investment_tracker.Governance.{assert_symbol_allowed}

pub record Frames : Type 1 where
  pub Frame : Type 0
  pub content_hash : Frame → String
  pub row_count : Frame → ℕ
  pub first_timestamp : Frame → Timestamp
  pub last_timestamp : Frame → Timestamp
  -- What reading gives of a frame that was written, if it can be read.
  pub reread : Frame → Option Frame

pub data CacheError : Type 0 where
  symbol_refused value_error data_quality cache_integrity type_error decode_error attribute_error :
      CacheError

-- The provider, the interval and the adjustment have one value each.
pub record DataRequest : Type 0 where
  pub symbol : String
  pub start : ℕ
  pub end : ℕ

pub record DatasetMetadata : Type 0 where
  pub provider_api_version : Option String
  pub symbol : String
  pub requested_start : ℕ
  pub requested_end : ℕ
  pub retrieved_at : Timestamp
  pub first_timestamp : Timestamp
  pub last_timestamp : Timestamp
  pub row_count : ℕ
  pub content_hash : String

-- A version's metadata.json: a text that `json.loads` refuses, a JSON value that is not an object, or
-- an object, with the text under its key content_hash and what `model_validate_json` makes of it.
pub data MetadataFile : Type 0 where
  not_json not_object : MetadataFile
  object : Option String → Option DatasetMetadata → MetadataFile

-- `json.loads(...)` and then `.get("content_hash")`
abbrev pub raw_hash : MetadataFile → Result CacheError (Option String)
raw_hash not_json = err decode_error
raw_hash not_object = err attribute_error
raw_hash (object hash fields) = ok hash

abbrev pub validated : MetadataFile → Option DatasetMetadata
validated (object hash fields) = fields
validated _ = none

abbrev pub has_hash : String → Option String → Bool
has_hash digest none = false
has_hash digest (some hash) = str_eq hash digest

-- The request with its symbol in normal form.
abbrev pub guarded : (String → String) → DataRequest → Result CacheError DataRequest
guarded strip_upper request = elim (assert_symbol_allowed strip_upper request.symbol) [
  | ok symbol ↦ ok (record request { symbol = symbol })
  | err e ↦ err symbol_refused
]

module _ (P : Frames) where
  -- A version: its request directory, its name there, and its files, where they can be read.
  pub record Version : Type 0 where
    pub directory : DataRequest
    pub stamp : Timestamp
    pub digest : String
    pub metadata : MetadataFile
    pub frame : Option P.Frame

  pub record CachedDataset : Type 0 where
    pub metadata : DatasetMetadata
    pub frame : P.Frame

  -- `I` is what a validation report says of an unclean frame.
  pub record Cache (I : Type 0) : Type 0 where
    pub versions : List Version
    pub quarantine : List (DataRequest × List I × Timestamp)

  abbrev pub same_request : DataRequest → DataRequest → Bool
  same_request a b = str_eq a.symbol b.symbol && a.start == b.start && a.end == b.end

  abbrev pub identifies : DataRequest → DatasetMetadata → Bool
  identifies request m =
      str_eq m.symbol request.symbol
      && m.requested_start == request.start
      && m.requested_end == request.end

  -- `request_dir.glob("*/metadata.json")`
  unfoldable pub listed : DataRequest → List Version → List Version
  listed request [] = []
  listed request (v ∷ versions) =
      if same_request v.directory request
      then v ∷ listed request versions
      else listed request versions

  abbrev pub checked : DataRequest → DatasetMetadata → P.Frame → Result CacheError CachedDataset
  checked request m frame =
      if not (identifies request m)
      then err cache_integrity
      else if not (m.row_count == P.row_count frame)
      then err cache_integrity
      else if not (str_eq (P.content_hash frame) m.content_hash)
      then err cache_integrity
      else ok (record { metadata = m; frame = frame })

  unfoldable pub read_dataset : Version → DataRequest → Result CacheError CachedDataset
  read_dataset v request =
      and_then (or_raise cache_integrity (validated v.metadata))
        λ m. and_then (or_raise cache_integrity v.frame) λ frame. checked request m frame

  unfoldable pub read_all : DataRequest → List Version → Result CacheError (List CachedDataset)
  unfolding read_dataset
  read_all request [] = ok []
  read_all request (v ∷ versions) =
      and_then (read_dataset v request)
        λ d. and_then (read_all request versions) λ rest. ok (d ∷ rest)

  -- `max(candidates, key=retrieved_at)` from the first: a later one must be greater.
  unfoldable pub latest : CachedDataset → List CachedDataset → Result CacheError CachedDataset
  latest top [] = ok top
  latest top (d ∷ candidates) =
      and_then (or_raise type_error (before top.metadata.retrieved_at d.metadata.retrieved_at))
        λ newer. elim newer [ true ↦ latest d candidates | false ↦ latest top candidates ]

  abbrev pub latest_of : List CachedDataset → Result CacheError (Option CachedDataset)
  latest_of [] = ok none
  latest_of (d ∷ candidates) = and_then (latest d candidates) λ top. ok (some top)

  -- `_find_by_hash`
  unfoldable pub find_by_hash :
      DataRequest → String → List Version → Result CacheError (Option CachedDataset)
  unfolding read_dataset
  find_by_hash request digest [] = ok none
  find_by_hash request digest (v ∷ versions) = and_then (raw_hash v.metadata) λ hash.
      elim (has_hash digest hash) [
        | true ↦ and_then (read_dataset v request) λ d. ok (some d)
        | false ↦ find_by_hash request digest versions
      ]

  abbrev pub is_named : Timestamp → String → Version → Bool
  is_named stamp digest v = same_time v.stamp stamp && str_eq v.digest digest

  abbrev pub metadata_of : DataRequest → P.Frame → Option String → Timestamp → DatasetMetadata
  metadata_of asked frame api_version moment = record {
    provider_api_version = api_version;
    symbol = asked.symbol;
    requested_start = asked.start;
    requested_end = asked.end;
    retrieved_at = moment;
    first_timestamp = P.first_timestamp frame;
    last_timestamp = P.last_timestamp frame;
    row_count = P.row_count frame;
    content_hash = P.content_hash frame;
  }

  abbrev pub version_of : DataRequest → P.Frame → Option String → Timestamp → Version
  version_of asked frame api_version moment = record {
    directory = asked;
    stamp = moment;
    digest = P.content_hash frame;
    metadata =
        object (some (P.content_hash frame)) (some (metadata_of asked frame api_version moment));
    frame = P.reread frame;
  }

  -- `os.replace(temp_path, final_path)`: a version that has the new one's path is replaced by it.
  unfoldable pub place : Version → List Version → List Version
  place new [] = new ∷ []
  place new (v ∷ versions) =
      if same_request v.directory new.directory && is_named new.stamp new.digest v
      then new ∷ versions
      else v ∷ place new versions

  module _ {I : Type 0} where
    -- The new version is moved to its place, and read back.
    unfoldable pub admit_new :
        DataRequest → P.Frame → Option String → Timestamp → Exec (Cache I) CacheError CachedDataset
    unfolding listed read_dataset place
    admit_new asked frame api_version moment = do
      versions ← gets (λ (c : Cache I). c.versions)
      raise_if (any (is_named moment (P.content_hash frame)) (listed asked versions))
          cache_integrity
      let new = version_of asked frame api_version moment
      modify (λ (c : Cache I). record c { versions = place new c.versions })
      lift (read_dataset new asked)

    abbrev pub existing_or :
        Option CachedDataset
        → Exec (Cache I) CacheError CachedDataset
        → Exec (Cache I) CacheError CachedDataset
    existing_or none admission = admission
    existing_or (some d) admission = pure d

    abbrev pub quarantined : DataRequest → List I → Timestamp → Exec (Cache I) CacheError (Unit {0})
    quarantined asked [] moment = pure tt
    quarantined asked (issue ∷ issues) moment = do
      modify (λ (c : Cache I). record c {
        quarantine = c.quarantine ++ (asked, issue ∷ issues, moment) ∷ [];
      })
      raise data_quality

  module _ {I : Type 0} (strip_upper : String → String) where
    unfoldable pub find : DataRequest → Exec (Cache I) CacheError (Option CachedDataset)
    unfolding listed read_all latest
    find request = do
      asked ← lift (guarded strip_upper request)
      versions ← gets (λ (c : Cache I). c.versions)
      candidates ← lift (read_all asked (listed asked versions))
      lift (latest_of candidates)

    -- `moment` is the time that was passed, or the clock's. A report is clean if it has no issues.
    unfoldable pub admit :
        DataRequest
        → P.Frame
        → List I
        → Option String
        → Timestamp
        → Exec (Cache I) CacheError CachedDataset
    unfolding listed find_by_hash admit_new
    admit request frame issues api_version moment = do
      asked ← lift (guarded strip_upper request)
      raise_if (not (is_aware moment)) value_error
      quarantined asked issues moment
      raise_if (P.row_count frame == 0) value_error
      versions ← gets (λ (c : Cache I). c.versions)
      existing ← lift (find_by_hash asked (P.content_hash frame) (listed asked versions))
      existing_or existing (admit_new asked frame api_version moment)
