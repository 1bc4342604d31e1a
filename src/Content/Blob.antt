-- ===== src/Content/Blob.antt =====
-- `Store::write_blob`, `Store::remove` and `Store::total_size` (crates/content/src/lib.rs).
use containerd_rs.Base.{
  ℕ, ◌+◌, ◌%◌, ◌^◌, ◌<◌, ◌≡◌, List, [], Bytes, length, take, take-length_append, append-nil, ok,
  err, none, Bool, true, false, not, ◌&&◌, if◌then◌else◌, str_eq, str_eq_iff, str_eq_refl, lookup,
  insert, lookup-insert, lookup-remove, insert-insert, remove-insert, arith,
}
use containerd_rs.CoreTypes.{Sha256, Digest, sha256}
use containerd_rs.Content.{
  Store, Io, digest_mismatch, is_committed, read, remove_blob, unlink_staging, writer, write,
  commit, write_blob, staging_name,
}
use containerd_rs.Content.Commit.{from_hasher-eq-ok}

abbrev pub IsOk : Io → Type 0
IsOk i =
    (i.mkdir_ok ≡ true)
    × (i.create_ok ≡ true)
    × (i.write_ok ≡ true)
    × (i.sync_ok ≡ true)
    × (i.unlink_ok ≡ true)
    × (i.rename_ok ≡ true)

take_all {ℓ} : {A : Type ℓ} (xs : List A) → take (length xs) xs ≡ xs
take_all xs = rw append-nil at (take-length_append xs [])

module _ (sha : Sha256) (pid : ℕ) where
  abbrev pub stored : Bool → Digest → Bytes → List (Bytes × Bytes) → List (Bytes × Bytes)
  stored true d bytes blobs = insert d.hex bytes blobs
  stored false d bytes blobs = blobs

  -- Where the system calls succeed and the staging name is new, `write_blob` is this function: it
  -- accepts the bytes exactly when they hash to the expected digest, stores them if no blob of that
  -- digest is there, and leaves no staging file behind.
  pub write_blob_lem :
      (i : Io) (ref bytes : Bytes) (d : Digest) (s : Store)
      → IsOk i
      → length bytes < 2 ^ 64
      → lookup (staging_name sha pid ref s.seq) s.ingest ≡ none
      → write_blob sha pid i ref bytes d s ≡ (
        if str_eq (sha256 sha bytes).hex d.hex
            then ok (sha256 sha bytes)
            else err (digest_mismatch d (sha256 sha bytes)),
        record s {
          blobs =
              stored
                (str_eq (sha256 sha bytes).hex d.hex && not (is_committed s d))
                d
                bytes
                s.blobs;
          seq = (s.seq + 1) % 2 ^ 64;
        },
      )
  unfolding write_blob writer write commit unlink_staging is_committed sha256
  write_blob_lem i ref bytes d s h n fresh =
      let name = staging_name sha pid ref s.seq in
      ground (
        arith,
        take_all bytes,
        str_eq_refl name,
        lookup-insert name name [] s.ingest,
        insert-insert name [] bytes s.ingest,
        lookup-insert name name bytes s.ingest,
        remove-insert name bytes s.ingest fresh,
        from_hasher-eq-ok sha pid (sha.update sha.new bytes),
        str_eq_iff (sha.finalize (sha.update sha.new bytes)) d.hex,
      )

  -- Reading a blob back after writing it: the bytes themselves, if the digest was not there yet.
  pub read-write_blob :
      (i : Io) (ref bytes : Bytes) (s : Store)
      → IsOk i
      → length bytes < 2 ^ 64
      → lookup (staging_name sha pid ref s.seq) s.ingest ≡ none
      → is_committed s (sha256 sha bytes) ≡ false
      → read (write_blob sha pid i ref bytes (sha256 sha bytes) s).1 (sha256 sha bytes) ≡ ok bytes
  unfolding read
  read-write_blob i ref bytes s h n fresh new =
      let d = sha256 sha bytes in
      rw (write_blob_lem i ref bytes d s h n fresh)
        (ground (arith, str_eq_refl d.hex, lookup-insert d.hex d.hex bytes s.blobs))

-- Removing a blob reports whether it was there and leaves every other blob; a second time it
-- reports that there is none and changes nothing.
pub remove_blob_idem :
    (i : Io) (s : Store) (d : Digest)
    → i.unlink_ok ≡ true
    → let s' = (remove_blob i s d).1 in
      ((remove_blob i s d).0 ≡ ok (is_committed s d))
      × ((k : Digest)
          → is_committed s' k ≡ (if str_eq d.hex k.hex then false else is_committed s k))
      × (remove_blob i s' d ≡ (ok false, s'))
unfolding remove_blob is_committed
remove_blob_idem i s d h = (
  ground arith,
  λ k. ground (arith, lookup-remove d.hex k.hex s.blobs, str_eq_iff d.hex k.hex),
  ground (arith, lookup-remove d.hex d.hex s.blobs, str_eq_refl d.hex),
)
