-- ===== src/Snapshot.antt =====
-- src/investment_tracker/snapshot.py: whether a worker's manifest stands on the current inputs. An
-- attribute that an object lacks, or a digest map that is no mapping, is `none`. Dates are numbers of
-- days; the versions are a dict, as `as_dict` gives them.
pub mod Lineage
mod Examples
use investment_tracker.Prelude.{
  ℕ, String, Bool, true, false, not, ◌&&◌, Option, none, some, [], ◌∷◌, if◌then◌else◌, ◌==◌, str_eq,
  Result, ok, err, and_then,
}
use investment_tracker.Dict.{Dict, get, string_key}

pub data SnapshotError : Type 0 where
  stale_snapshot lineage : SnapshotError

pub record WorkerManifest : Type 0 where
  pub input_snapshot_id : Option String
  pub asset : Option String
  pub start_date : Option ℕ
  pub end_date : Option ℕ
  pub versions : Option (Dict String String)
  pub input_snapshot_digests : Option (Dict String String)

pub record InputSnapshot : Type 0 where
  pub snapshot_id : Option String
  pub asset : Option String
  pub start_date : Option ℕ
  pub end_date : Option ℕ
  pub versions : Option (Dict String String)
  pub input_digests : Option (Dict String String)
  pub spy_digest : Option String

-- `a == b` of two values that may be None.
abbrev pub same_text : Option String → Option String → Bool
same_text none none = true
same_text (some a) (some b) = str_eq a b
same_text _ _ = false

abbrev pub same_day : Option ℕ → Option ℕ → Bool
same_day none none = true
same_day (some a) (some b) = a == b
same_day _ _ = false

-- Every key of the first is a key of the second.
unfoldable pub keys_within : Dict String String → Dict String String → Bool
keys_within [] b = true
keys_within ((k, v) ∷ a) b = elim (get b k) [ none ↦ false | some w ↦ keys_within a b ]

-- No item of the first has another digest, or none, in the second.
unfoldable pub unchanged : Dict String String → Dict String String → Bool
unchanged [] b = true
unchanged ((k, v) ∷ a) b = same_text (get b k) (some v) && unchanged a b

-- `a == b` of two dicts: the same items, in any order.
abbrev pub same_dict : Option (Dict String String) → Option (Dict String String) → Bool
same_dict none none = true
same_dict (some a) (some b) = unchanged a b && unchanged b a
same_dict _ _ = false

-- `verify_snapshot_fresh`, on the manifest's digests.
unfoldable pub digests_fresh :
    Option (Dict String String) → Dict String String → Result SnapshotError Unit
digests_fresh none current = err stale_snapshot
digests_fresh (some []) current = err stale_snapshot
digests_fresh (some (item ∷ items)) current =
    let expected = item ∷ items in
    if not (keys_within expected current && keys_within current expected)
    then err stale_snapshot
    else if not (unchanged expected current)
    then err stale_snapshot
    else ok tt

unfoldable pub verify_snapshot_fresh :
    WorkerManifest → Dict String String → Result SnapshotError Unit
unfolding digests_fresh
verify_snapshot_fresh manifest current = digests_fresh manifest.input_snapshot_digests current

-- `isinstance(snapshot_digests, Mapping) and snapshot_digests.get("spy") == snapshot_spy_digest`
abbrev pub spy_agrees : Option (Dict String String) → Option String → Bool
spy_agrees none digest = false
spy_agrees (some digests) digest = same_text (get digests "spy") digest

unfoldable pub verify_manifest_snapshot_lineage :
    WorkerManifest → InputSnapshot → Dict String String → Result SnapshotError Unit
verify_manifest_snapshot_lineage manifest snapshot current =
    if not (same_text manifest.input_snapshot_id snapshot.snapshot_id)
    then err lineage
    else if not (same_text manifest.asset snapshot.asset)
    then err lineage
    else if not (
        same_day manifest.start_date snapshot.start_date
        && same_day manifest.end_date snapshot.end_date)
    then err lineage
    else if not (same_dict manifest.versions snapshot.versions)
    then err lineage
    else if not (same_dict manifest.input_snapshot_digests snapshot.input_digests)
    then err lineage
    else if not (spy_agrees snapshot.input_digests snapshot.spy_digest)
    then err lineage
    else verify_snapshot_fresh manifest current
