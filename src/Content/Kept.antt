-- ===== src/Content/Kept.antt =====
-- crates/content/src/lib.rs: writing keeps the blobs that are there.
use containerd_rs.Base.{
  ◌≡◌, ℕ, Bytes, some, ok, lookup, lookup-insert, str_eq_iff, Option-cases, inl, inr, arith,
}
use containerd_rs.CoreTypes.{Sha256, Digest}
use containerd_rs.Content.{
  Store, Io, Writer, writer, drop_writer, commit, unlink_staging, is_committed, read, found,
}
use containerd_rs.Content.Commit.{from_hasher-eq-ok}

-- No blob is lost or changed.
abbrev pub KeepsBlobs : Store → Store → Type 0
KeepsBlobs s t = (h b : Bytes) → lookup h s.blobs ≡ some b → lookup h t.blobs ≡ some b

module _ (sha : Sha256) (pid : ℕ) where
  pub commit-KeepsBlobs :
      (i : Io) (w : Writer sha pid) (n : ℕ) (d : Digest) (s : Store)
      → KeepsBlobs s (commit sha pid i w n d s).1
  unfolding commit unlink_staging is_committed
  commit-KeepsBlobs i w n d s h b there = elim (Option-cases (lookup w.staging s.ingest)) [
    | inl gone ↦ ground (arith, from_hasher-eq-ok sha pid w.hasher)
    | inr (c, staged) ↦ ground (
      arith,
      from_hasher-eq-ok sha pid w.hasher,
      lookup-insert (sha.finalize w.hasher) h c s.blobs,
      str_eq_iff (sha.finalize w.hasher) h,
    )
  ]

  pub writer-KeepsBlobs :
      (i : Io) (ref : Bytes) (s : Store) → (writer sha pid i ref s).1.blobs ≡ s.blobs
  unfolding writer
  writer-KeepsBlobs i ref s = ground arith

  pub drop_writer-KeepsBlobs :
      (i : Io) (w : Writer sha pid) (s : Store) → (drop_writer sha pid i w s).blobs ≡ s.blobs
  unfolding drop_writer unlink_staging
  drop_writer-KeepsBlobs i w s = ground arith

pub read-lookup :
    (s : Store) (d : Digest) (b : Bytes) → read s d ≡ ok b → lookup d.hex s.blobs ≡ some b
unfolding read found
read-lookup s d b h = elim (Option-cases (lookup d.hex s.blobs)) [
  | inl gone ↦ ground arith
  | inr (c, there) ↦ ground arith
]
