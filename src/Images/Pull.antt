-- ===== src/Images/Pull.antt =====
-- crates/images/src/pull.rs: what the parts of a pull share, and the fetch and the unpacking of one
-- layer. The registry's client, JSON, the decompressors and the file tree are the interface `Client`;
-- `apply_layer` is crates/snapshots/src/diff.rs on the decompressed blob.
pub mod Layers
pub mod Config
pub mod Blobs
pub mod Verified
use containerd_rs.Base.{
  ℕ, ◌+◌, ◌%◌, ◌^◌, ℤ, List, [], ◌∷◌, ◌++◌, length, Bytes, text, Bool, Option, none, some, Result,
  ok, err, ◌>>=◌, ◌==◌, if◌then◌else◌, decimal,
}
use containerd_rs.CoreTypes.{Sha256, Digest, sha256, from_str}
use containerd_rs.CoreTypes
use containerd_rs.Content.{Store, Io, Writer, writer, write, commit, drop_writer}
use containerd_rs.Content
use containerd_rs.Snapshots.Paths.{PathBuf}
use containerd_rs.Snapshots.Diff.{Compression}
use containerd_rs.Images.Identity.{chain_ids}

-- `OciDescriptor`, as far as it is read.
pub record Descriptor : Type 0 where
  pub digest : Bytes
  pub size : ℤ
  pub media_type : Bytes

-- `struct ImageConfigJson` with its parts.
pub record ImageConfigJson : Type 0 where
  pub diff_ids : List Bytes
  pub user : Bytes

-- `struct PulledImage`
pub record PulledImage : Type 0 where
  pub reference : Bytes
  pub image_id : Digest
  pub manifest_digest : Option Digest
  pub size : ℕ
  pub diff_ids : List Digest
  pub chain_ids : List Digest
  pub layer_digests : List Digest
  pub user : Bytes

-- What a pull uses: the stream of each layer, the outcomes of the system calls of each write, and the
-- file tree of the snapshots.
pub record Client : Type 1 where
  pub RegistryError : Type 0
  pub UnpackError : Type 0
  pub Files : Type 0
  pub parse_config : Bytes → Option ImageConfigJson
  pub pull_blob_stream : ℕ → Descriptor → Result RegistryError (List (Result RegistryError Bytes))
  pub config_io : Io
  pub layer_io : ℕ → Io
  pub decompress : Compression → Bytes → Result UnpackError Bytes
  pub is_populated : Files → PathBuf → Bool
  pub create_dir_all : PathBuf → Files → Option Files
  pub apply_layer : PathBuf → Bytes → Compression → Files → Files × Result UnpackError Unit
  pub snapshots_root : PathBuf

module _ (client : Client) where
  open client use {
    RegistryError, UnpackError, Files, pull_blob_stream, layer_io, decompress, is_populated,
    create_dir_all, apply_layer,
  }

  -- `enum Error`; `negative_size` is its `Reference`, for the size of a layer.
  pub data Error : Type 0 where
    negative_size : ℕ → Error
    registry : RegistryError → Error
    content : Content.Error → Error
    io config : Error
    unpack : UnpackError → Error
    digest : CoreTypes.Error → Error
    diff_id_mismatch : ℕ → Digest → Digest → Error
    layer_count_mismatch : ℕ → ℕ → Error

  -- `apply_layer(..)?` in a directory that has just been made.
  abbrev pub applied : Files × Result UnpackError Unit → Result Error Unit × Files
  applied (fs, err e) = (err (unpack e), fs)
  applied (fs, ok done) = (ok tt, fs)

  abbrev pub unpacked :
      PathBuf → Bytes → Compression → Files → Option Files → Result Error Unit × Files
  unpacked dir blob compression fs none = (err io, fs)
  unpacked dir blob compression fs (some fs') = applied (apply_layer dir blob compression fs')

  -- The unpacking of a layer; a directory that holds anything is reused.
  unfoldable pub unpack_layer : PathBuf → Bytes → Compression → Files → Result Error Unit × Files
  unpack_layer dir blob compression fs =
      let made = unpacked dir blob compression fs (create_dir_all dir fs) in
      if is_populated fs dir then (ok tt, fs) else made

  module _ (sha : Sha256) (pid : ℕ) where
    abbrev pub as_digest : Result CoreTypes.Error Digest → Result Error Digest
    as_digest (err e) = err (digest e)
    as_digest (ok d) = ok d

    abbrev pub hashed : Result UnpackError Bytes → Result Error Digest
    hashed (err e) = err (unpack e)
    hashed (ok bytes) =
        as_digest (from_str (text "sha256:" ++ sha.finalize (sha.update sha.new bytes)))

    -- `compute_diff_id_reader`
    unfoldable pub compute_diff_id : Bytes → Compression → Result Error Digest
    compute_diff_id blob compression = hashed (decompress compression blob)

    -- The loop over the chunks of the stream; an error drops the writer.
    unfoldable pub write_chunks :
        Io
        → List (Result RegistryError Bytes)
        → Writer sha pid
        → Store
        → Result Error (Writer sha pid) × Store
    write_chunks i [] w s = (ok w, s)
    write_chunks i (err e ∷ chunks) w s = (err (registry e), drop_writer sha pid i w s)
    write_chunks i (ok chunk ∷ chunks) w s =
        let (w', s') = write sha pid (length chunk) chunk w s in
        let rest = write_chunks i chunks w' s' in
        if i.write_ok then rest else (err io, drop_writer sha pid i w s)

    abbrev pub committed : Result Content.Error Digest × Store → Result Error Digest × Store
    committed (err e, s) = (err (content e), s)
    committed (ok d, s) = (ok d, s)

    abbrev pub commit_chunks :
        Io → ℕ → Digest → Result Error (Writer sha pid) × Store → Result Error Digest × Store
    commit_chunks i size expected (err e, s) = (err e, s)
    commit_chunks i size expected (ok w, s) = committed (commit sha pid i w size expected s)

    abbrev pub streamed :
        Io
        → ℕ
        → Digest
        → Result RegistryError (List (Result RegistryError Bytes))
        → Writer sha pid
        → Store
        → Result Error Digest × Store
    streamed i size expected (err e) w s = (err (registry e), drop_writer sha pid i w s)
    streamed i size expected (ok chunks) w s =
        commit_chunks i size expected (write_chunks i chunks w s)

    abbrev pub with_writer :
        Io
        → ℕ
        → Digest
        → Result RegistryError (List (Result RegistryError Bytes))
        → Result Content.Error (Writer sha pid) × Store
        → Result Error Digest × Store
    with_writer i size expected stream (err e, s) = (err (content e), s)
    with_writer i size expected stream (ok w, s) = streamed i size expected stream w s

    -- Fetching a layer into the content store.
    unfoldable pub fetch_layer :
        Bytes → ℕ → Descriptor → ℕ → Digest → Store → Result Error Digest × Store
    unfolding write_chunks
    fetch_layer reference i descriptor size expected s =
        with_writer (layer_io i) size expected (pull_blob_stream i descriptor)
          (writer sha pid (layer_io i) (reference ++ (text ":layer:" ++ decimal i)) s)
