-- ===== src/Tests/Pulled.antt =====
-- A pull of an image with one layer.
use containerd_rs.Base.{
  ◌≡◌, refl, pos, List, [], ◌∷◌, Bytes, text, Bool, false, none, some, Result, ok, err, lookup,
  insert, remove, str_eq, decimal, split_once,
}
use containerd_rs.CoreTypes.{display, from_str, sha256}
use containerd_rs.Content.{
  writer, write, commit, write_blob, read, from_hasher, staging_name, unlink_staging, is_committed,
}
use containerd_rs.Snapshots.Paths.{root_dir}
use containerd_rs.Images.Pull.{
  Error, PulledImage, Client, fetch_layer, write_chunks, compute_diff_id, unpack_layer,
}
use containerd_rs.Images.Pull.Layers.{Pulling, pull_all, pull_layers, pull_layer}
use containerd_rs.Images.Pull.Config.{Fetched, pull, parse_all}
use containerd_rs.Images.Pull.Verified.{IsVerified, pull-IsVerified}
use containerd_rs.Tests.Hashes.{toy_sha, toy_update, toy_finalize}
use containerd_rs.Tests.Blobs.{all_ok, empty_store, hi}

abbrev client : Client
client = record {
  RegistryError = Bool;
  UnpackError = Bool;
  Files = List Bytes;
  parse_config = λ b. some (record { diff_ids = display (sha256 toy_sha hi) ∷ []; user = [] });
  pull_blob_stream = λ i l. ok (ok hi ∷ []);
  config_io = all_ok;
  layer_io = λ i. all_ok;
  decompress = λ z b. ok b;
  is_populated = λ fs p. false;
  create_dir_all = λ p fs. some fs;
  apply_layer = λ p b z fs. (b ∷ fs, ok tt);
  snapshots_root = root_dir ∷ [];
}

abbrev manifest : Fetched client toy_sha 1
manifest = record {
  config_bytes = text "{}";
  layers =
      record { digest = display (sha256 toy_sha hi); size = pos 2; media_type = text "tar" } ∷ [];
  manifest_digest = [];
}

abbrev run : Result (Error client) PulledImage × Pulling client toy_sha 1
run = pull client toy_sha 1 (text "r") manifest (empty_store, [])

abbrev nothing : PulledImage
nothing = record {
  reference = [];
  image_id = sha256 toy_sha [];
  manifest_digest = none;
  size = 0;
  diff_ids = [];
  chain_ids = [];
  layer_digests = [];
  user = [];
}

abbrev or_nothing : Result (Error client) PulledImage → PulledImage
or_nothing (err e) = nothing
or_nothing (ok pulled) = pulled

run_answer : run ≡ (ok (or_nothing run.0), run.1)
unfolding pull pull_all pull_layers pull_layer fetch_layer write_chunks compute_diff_id unpack_layer
    parse_all writer write commit write_blob read from_hasher staging_name unlink_staging
    is_committed sha256 display from_str lookup insert remove str_eq decimal split_once toy_update
    toy_finalize
run_answer = refl

pull-IsVerified_example : IsVerified client toy_sha 1 manifest (or_nothing run.0) run.1.store
pull-IsVerified_example =
    pull-IsVerified client toy_sha 1 (text "r") manifest empty_store [] run.1 (or_nothing run.0)
      run_answer
