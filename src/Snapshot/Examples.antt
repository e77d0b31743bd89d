-- ===== src/Snapshot/Examples.antt =====
-- The theorems on src/investment_tracker/snapshot.py at a concrete manifest.
use investment_tracker.Prelude.{String, ◌≡◌, refl, true, some, [], ◌∷◌, ok}
use investment_tracker.Dict.{Dict, get}
use investment_tracker.Snapshot.{
  WorkerManifest, InputSnapshot, keys_within, unchanged, digests_fresh, verify_snapshot_fresh,
  verify_manifest_snapshot_lineage, spy_agrees,
}
use investment_tracker.Snapshot.Lineage.{Agrees, verify_manifest_snapshot_lineage-Agrees}

abbrev digests : Dict String String
digests = ("spy", "d1") ∷ ("bars", "d2") ∷ []

abbrev current : Dict String String
current = ("bars", "d2") ∷ ("spy", "d1") ∷ []

abbrev manifest : WorkerManifest
manifest = record {
  input_snapshot_id = some "S1";
  asset = some "CIBR";
  start_date = some 1;
  end_date = some 9;
  versions = some (("replay", "v1") ∷ []);
  input_snapshot_digests = some digests;
}

abbrev snapshot : InputSnapshot
snapshot = record {
  snapshot_id = some "S1";
  asset = some "CIBR";
  start_date = some 1;
  end_date = some 9;
  versions = some (("replay", "v1") ∷ []);
  input_digests = some digests;
  spy_digest = some "d1";
}

fresh : verify_snapshot_fresh manifest current ≡ ok tt
unfolding verify_snapshot_fresh digests_fresh keys_within unchanged get
fresh = refl

lineage_kept : verify_manifest_snapshot_lineage manifest snapshot current ≡ ok tt
unfolding verify_manifest_snapshot_lineage verify_snapshot_fresh digests_fresh keys_within unchanged
    get
lineage_kept = refl

verify_manifest_snapshot_lineage-Agrees_example :
    (manifest.input_snapshot_id ≡ snapshot.snapshot_id)
    × (manifest.asset ≡ snapshot.asset)
    × (manifest.start_date ≡ snapshot.start_date)
    × (manifest.end_date ≡ snapshot.end_date)
    × (spy_agrees snapshot.input_digests snapshot.spy_digest ≡ true)
    × Agrees manifest.input_snapshot_digests current
verify_manifest_snapshot_lineage-Agrees_example =
    verify_manifest_snapshot_lineage-Agrees manifest snapshot current lineage_kept
