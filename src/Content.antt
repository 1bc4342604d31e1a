-- ===== src/Content.antt =====
-- crates/content/src/lib.rs: the content-addressable blob store.
-- The disk is two directories, `blobs/sha256` by the hex of a digest and `ingest` by the staging
-- name, with the contents of their files. `Io` says which system calls of a call succeed.
pub mod Commit
pub mod Kept
pub mod Blob
pub mod Writers
use containerd_rs.Base.{
  is_some, ℕ, ◌+◌, ◌%◌, ◌^◌, List, [], ◌∷◌, ◌++◌, Bytes, text, length, take, Result, ok, err,
  Option, none, some, Bool, true, false, not, ◌&&◌, ◌==◌, if◌then◌else◌, str_eq, lookup, insert,
  remove, decimal,
}
use containerd_rs.CoreTypes.{Sha256, Digest, sha256, from_str}
use containerd_rs.CoreTypes

pub record Store : Type 0 where
  pub blobs : List (Bytes × Bytes)
  pub ingest : List (Bytes × Bytes)
  -- the process-wide counter INGEST_SEQ
  pub seq : ℕ

-- The outcomes of the system calls that a call of the store makes.
pub record Io : Type 0 where
  pub mkdir_ok : Bool
  pub create_ok : Bool
  pub write_ok : Bool
  pub sync_ok : Bool
  pub unlink_ok : Bool
  pub rename_ok : Bool

-- `enum Error`; `panicked` is no value of it: the call panics instead of returning.
pub data Error : Type 0 where
  io : Error
  digest_mismatch : Digest → Digest → Error
  size_mismatch : ℕ → ℕ → Error
  panicked : Error

-- `Store::exists`
unfoldable pub is_committed : Store → Digest → Bool
is_committed s d = is_some (lookup d.hex s.blobs)

found : Option Bytes → Result Error Bytes
found none = err io
found (some b) = ok b

-- `Store::read`
unfoldable pub read : Store → Digest → Result Error Bytes
unfolding found
read s d = found (lookup d.hex s.blobs)

-- `Store::remove`
unfoldable pub remove_blob : Io → Store → Digest → Result Error Bool × Store
unfolding is_committed
remove_blob i s d =
    if is_committed s d
    then if i.unlink_ok then (ok true, record s { blobs = remove d.hex s.blobs }) else (err io, s)
    else (ok false, s)

sizes : List (Bytes × Bytes) → ℕ
sizes [] = 0
sizes ((h, b) ∷ bs) = length b + sizes bs

-- `Store::total_size`, where the directory and the files in it can be read.
unfoldable pub total_size : Store → ℕ
unfolding sizes
total_size s = sizes s.blobs

-- `let _ = fs::remove_file(..)` on a staging file.
unfoldable pub unlink_staging : Io → Bytes → Store → Store
unlink_staging i name s = if i.unlink_ok then record s { ingest = remove name s.ingest } else s

module _ (sha : Sha256) (pid : ℕ) where
  -- `struct Writer`, while its file is open.
  pub record Writer : Type 0 where
    pub staging : Bytes
    pub hasher : sha.Hasher
    pub written : ℕ

  -- The staging name of the n-th writer: the hash of its ref, the process id and n.
  unfoldable pub staging_name : Bytes → ℕ → Bytes
  staging_name ref n = (sha256 sha ref).hex ++ (b'.' ∷ (decimal pid ++ (b'.' ∷ decimal n)))

  -- `Store::writer`. `File::create` truncates; the counter is taken before the file is made.
  unfoldable pub writer : Io → Bytes → Store → Result Error Writer × Store
  writer i ref s =
      let next = (s.seq + 1) % 2 ^ 64 in
      let name = staging_name ref s.seq in
      if not i.mkdir_ok
      then (err io, s)
      else if not i.create_ok
      then (err io, record s { seq = next })
      else (
        ok (record { staging = name; hasher = sha.new; written = 0 }),
        record s { ingest = insert name [] s.ingest; seq = next },
      )

  contents : Option Bytes → Bytes
  contents none = []
  contents (some b) = b

  -- `Write::write` where the system takes the first `n` bytes of `buf`.
  unfoldable pub write : ℕ → Bytes → Writer → Store → Writer × Store
  unfolding contents
  write n buf w s =
      let part = take n buf in
      (
        record w {
          hasher = sha.update w.hasher part;
          written = (w.written + length part) % 2 ^ 64;
        },
        record s {
          ingest = insert w.staging (contents (lookup w.staging s.ingest) ++ part) s.ingest;
        },
      )

  -- `Digest::from_hasher`: the hex text goes through the parser, and an error there panics.
  unfoldable pub from_hasher : sha.Hasher → Result CoreTypes.Error Digest
  from_hasher h = from_str (text "sha256:" ++ sha.finalize h)

  -- The move of the staging file into the blob directory.
  move : Io → Writer → Digest → Option Bytes → Store → Result Error Digest × Store
  move i w computed none s = (err io, s)
  move i w computed (some b) s =
      if not i.mkdir_ok then (err io, s) else if not i.rename_ok then (err io, s) else (
        ok computed,
        record s { blobs = insert computed.hex b s.blobs; ingest = remove w.staging s.ingest },
      )

  commit_digest :
      Io → Writer → Digest → Result CoreTypes.Error Digest → Store → Result Error Digest × Store
  commit_digest i w expected (err e) s = (err panicked, s)
  commit_digest i w expected (ok computed) s =
      if not (str_eq computed.hex expected.hex)
      then (err (digest_mismatch expected computed), unlink_staging i w.staging s)
      else if is_committed s computed
      then (ok computed, unlink_staging i w.staging s)
      else move i w computed (lookup w.staging s.ingest) s

  -- `Writer::commit`
  unfoldable pub commit : Io → Writer → ℕ → Digest → Store → Result Error Digest × Store
  unfolding commit_digest move from_hasher
  commit i w expected_size expected s =
      if not i.sync_ok
      then (err io, s)
      else if not (w.written == expected_size)
      then (err (size_mismatch expected_size w.written), unlink_staging i w.staging s)
      else commit_digest i w expected (from_hasher w.hasher) s

  -- `impl Drop`, for a writer that is dropped before `commit`.
  unfoldable pub drop_writer : Io → Writer → Store → Store
  drop_writer i w s = unlink_staging i w.staging s

  write_opened : Io → Bytes → Digest → Result Error Writer × Store → Result Error Digest × Store
  write_opened i bytes expected (err e, s) = (err e, s)
  write_opened i bytes expected (ok w, s) =
      if i.write_ok
      then (let (w', s') = write (length bytes) bytes w s in commit i w' (length bytes) expected s')
      else (err io, drop_writer i w s)

  -- `Store::write_blob`
  unfoldable pub write_blob : Io → Bytes → Bytes → Digest → Store → Result Error Digest × Store
  unfolding write_opened
  write_blob i ref bytes expected s = write_opened i bytes expected (writer i ref s)
