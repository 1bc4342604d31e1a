-- ===== src/Images/Pull/Layers.antt =====
-- crates/images/src/pull.rs: the loop of a pull over the layers, with their checks.
use containerd_rs.Base.{
  ℕ, suc, ◌+◌, ◌%◌, ◌^◌, ℤ, pos, negsuc, List, [], ◌∷◌, ◌++◌, length, Bytes, Result, ok, err, ◌==◌,
  if◌then◌else◌, str_eq,
}
use containerd_rs.CoreTypes.{Sha256, Digest, from_str}
use containerd_rs.Content.{Store, read}
use containerd_rs.Content
use containerd_rs.Snapshots.{snapshot_dirs}
use containerd_rs.Snapshots.Diff.{Compression, from_media_type}
use containerd_rs.Images.Identity.{chain_ids}
use containerd_rs.Images.Pull.{
  Descriptor, Client, Error, content, negative_size, diff_id_mismatch, layer_count_mismatch,
  as_digest, fetch_layer, compute_diff_id, unpack_layer,
}

module _ (client : Client) (sha : Sha256) (pid : ℕ) where
  open client use {Files, snapshots_root}

  -- What the loop over the layers works on.
  pub record Pulling : Type 0 where
    pub store : Store
    pub files : Files
    pub total : ℕ
    pub layer_digests : List Digest

  abbrev pub with_files :
      Pulling → Result (Error client) Unit × Files → Result (Error client) Unit × Pulling
  with_files st (r, fs) = (r, record st { files = fs })

  -- The comparison with the config's diffID, and the unpacking.
  abbrev pub compared :
      ℕ
      → Bytes
      → Compression
      → Digest
      → Digest
      → Result (Error client) Digest
      → Pulling
      → Result (Error client) Unit × Pulling
  compared i blob compression diff_id chain (err e) st = (err e, st)
  compared i blob compression diff_id chain (ok computed) st =
      let done = with_files st (
        unpack_layer client ((snapshot_dirs snapshots_root chain.hex).0) blob compression
          st.files) in
      if str_eq computed.hex diff_id.hex
      then done
      else (err (diff_id_mismatch i diff_id computed), st)

  -- The part of the loop that reads the blob back.
  abbrev pub checked :
      ℕ
      → Compression
      → Digest
      → Digest
      → Result Content.Error Bytes
      → Pulling
      → Result (Error client) Unit × Pulling
  checked i compression diff_id chain (err e) st = (err (content e), st)
  checked i compression diff_id chain (ok blob) st =
      compared i blob compression diff_id chain (compute_diff_id client sha pid blob compression) st

  abbrev pub fetched :
      ℕ
      → Compression
      → ℕ
      → Digest
      → Digest
      → Digest
      → Pulling
      → Result (Error client) Digest × Store
      → Result (Error client) Unit × Pulling
  fetched i compression size expected diff_id chain st (err e, s) = (err e, record st { store = s })
  fetched i compression size expected diff_id chain st (ok layer_digest, s) =
      checked i compression diff_id chain (read s expected) (record st {
        store = s;
        total = (st.total + size) % 2 ^ 64;
        layer_digests = st.layer_digests ++ layer_digest ∷ [];
      })

  abbrev pub sized :
      Bytes
      → ℕ
      → Descriptor
      → Digest
      → Digest
      → Pulling
      → Result (Error client) Digest
      → ℤ
      → Result (Error client) Unit × Pulling
  sized reference i descriptor diff_id chain st (err e) size = (err e, st)
  sized reference i descriptor diff_id chain st (ok expected) (negsuc n) =
      (err (negative_size i), st)
  sized reference i descriptor diff_id chain st (ok expected) (pos size) =
      fetched i (from_media_type descriptor.media_type) size expected diff_id chain st
        (fetch_layer client sha pid reference i descriptor size expected st.store)

  -- The body of the loop over the layers.
  unfoldable pub pull_layer :
      Bytes → ℕ → Descriptor → Digest → Digest → Pulling → Result (Error client) Unit × Pulling
  unfolding fetch_layer compute_diff_id unpack_layer
  pull_layer reference i descriptor diff_id chain st =
      sized reference i descriptor diff_id chain st
        (as_digest client sha pid (from_str descriptor.digest)) descriptor.size

  abbrev pub and_then :
      Result (Error client) Unit × Pulling
      → (Pulling → Result (Error client) Unit × Pulling)
      → Result (Error client) Unit × Pulling
  and_then (err e, st) more = (err e, st)
  and_then (ok done, st) more = more st

  -- The loop, over the layers with their diffIDs and chainIDs.
  unfoldable pub pull_layers :
      Bytes
      → ℕ
      → List Descriptor
      → List Digest
      → List Digest
      → Pulling
      → Result (Error client) Unit × Pulling
  unfolding pull_layer
  pull_layers reference i (l ∷ ls) (f ∷ fs) (c ∷ cs) st =
      and_then (pull_layer reference i l f c st) (pull_layers reference (suc i) ls fs cs)
  pull_layers reference i ls fs cs st = (ok tt, st)

  -- The test of the counts in front of the loop.
  unfoldable pub pull_all :
      Bytes → List Descriptor → List Digest → Pulling → Result (Error client) Unit × Pulling
  unfolding pull_layers chain_ids
  pull_all reference layers diff_ids st =
      let done = pull_layers reference 0 layers diff_ids (chain_ids sha diff_ids) st in
      if length diff_ids == length layers
      then done
      else (err (layer_count_mismatch (length diff_ids) (length layers)), st)
