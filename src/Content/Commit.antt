-- ===== src/Content/Commit.antt =====
-- `Writer::commit` and `Store::write_blob` (crates/content/src/lib.rs): what a commit accepts, and
-- that the store holds only blobs that hash to their names.
use containerd_rs.Base.{
  ℕ, ◌%◌, ◌^◌, ◌<◌, ◌≡◌, ◌≢◌, ◌↔◌, inl, inr, [], ◌++◌, Bytes, length, take, ok, err, some, true,
  str_eq_iff, str_eq_refl, length-append, lookup, lookup-insert, arith, Option-cases,
}
use containerd_rs.CoreTypes.{Sha256, Digest, sha256}
use containerd_rs.CoreTypes
use containerd_rs.CoreTypes.Parse.{from_str-display}
use containerd_rs.Content.{
  Store, Io, Error, panicked, is_committed, read, unlink_staging, Writer, writer, write,
  from_hasher, commit, staging_name,
}

module _ (sha : Sha256) (pid : ℕ) where
  -- Every blob hashes to the name that it stands under.
  pub record IsIntact (s : Store) : Type 0 where
    pub at_name : (h b : Bytes) → lookup h s.blobs ≡ some b → (sha256 sha b).hex ≡ h

  -- The writer has hashed and counted exactly the contents `c` of its staging file.
  pub record Tracks (w : Writer sha pid) (s : Store) (c : Bytes) : Type 0 where
    pub staged : lookup w.staging s.ingest ≡ some c
    pub hashed : w.hasher ≡ sha.update sha.new c
    pub counted : w.written ≡ length c % 2 ^ 64

  -- The hash of a hasher that is done.
  abbrev pub digest_of : sha.Hasher → Digest
  digest_of h = record { hex = sha.finalize h }

  -- The parser in `from_hasher` accepts every finished hash, so its `expect` never panics.
  pub from_hasher-eq-ok : (h : sha.Hasher) → from_hasher sha pid h ≡ ok (digest_of h)
  unfolding from_hasher
  from_hasher-eq-ok h =
      unfold CoreTypes.display in from_str-display (digest_of h) (sha.finalize-IsHex h)

  commit-ne-panicked :
      (i : Io) (w : Writer sha pid) (n : ℕ) (d : Digest) (s : Store)
      → (commit sha pid i w n d s).0 ≢ err panicked
  unfolding commit
  commit-ne-panicked i w n d s h = ground (arith, from_hasher-eq-ok w.hasher)

  pub commit-IsIntact :
      (i : Io) (w : Writer sha pid) (n : ℕ) (d : Digest) (s : Store) (c : Bytes)
      → IsIntact s
      → Tracks w s c
      → IsIntact (commit sha pid i w n d s).1
  unfolding commit unlink_staging sha256
  commit-IsIntact i w n d s c t k = record {
    at_name = λ h b e. ground (
      arith,
      from_hasher-eq-ok w.hasher,
      t.at_name h b,
      k.staged,
      k.hashed,
      lookup-insert (sha.finalize w.hasher) h c s.blobs,
      str_eq_iff (sha.finalize w.hasher) h,
    );
  }

  commit_ok_lem :
      (i : Io) (w : Writer sha pid) (n : ℕ) (d d' : Digest) (s : Store)
      → (commit sha pid i w n d s).0 ≡ ok d'
      → (d' ≡ d)
        × (w.written ≡ n)
        × (digest_of w.hasher ≡ d)
        × (is_committed (commit sha pid i w n d s).1 d ≡ true)
  unfolding commit unlink_staging is_committed
  commit_ok_lem i w n d d' s h = (
    ground (arith, from_hasher-eq-ok w.hasher, str_eq_iff (sha.finalize w.hasher) d.hex),
    ground (arith, from_hasher-eq-ok w.hasher),
    ground (arith, from_hasher-eq-ok w.hasher, str_eq_iff (sha.finalize w.hasher) d.hex),
    elim (Option-cases (lookup w.staging s.ingest)) [
      | inl gone ↦
          ground (arith, from_hasher-eq-ok w.hasher, str_eq_iff (sha.finalize w.hasher) d.hex)
      | inr (c, there) ↦ ground (
        arith,
        from_hasher-eq-ok w.hasher,
        str_eq_iff (sha.finalize w.hasher) d.hex,
        lookup-insert (sha.finalize w.hasher) d.hex c s.blobs,
      )
    ],
  )

  -- A commit that fails, for whatever reason, leaves the committed blobs as they were.
  pub commit_err_blobs :
      (i : Io) (w : Writer sha pid) (n : ℕ) (d : Digest) (s : Store) (e : Error)
      → (commit sha pid i w n d s).0 ≡ err e
      → (commit sha pid i w n d s).1.blobs ≡ s.blobs
  unfolding commit unlink_staging
  commit_err_blobs i w n d s e h = ground (arith, from_hasher-eq-ok w.hasher)

  commit_accepts :
      (i : Io) (w : Writer sha pid) (n : ℕ) (d : Digest) (s : Store) (c : Bytes)
      → Tracks w s c
      → i.sync_ok ≡ true
      → i.mkdir_ok ≡ true
      → i.rename_ok ≡ true
      → w.written ≡ n
      → digest_of w.hasher ≡ d
      → (commit sha pid i w n d s).0 ≡ ok d
  unfolding commit unlink_staging
  commit_accepts i w n d s c k a b r e f =
      ground (arith, from_hasher-eq-ok w.hasher, k.staged, str_eq_iff (sha.finalize w.hasher) d.hex)

  -- Where the system calls succeed, a commit is accepted exactly when the bytes that were staged
  -- have the expected size and the expected digest.
  pub commit_iff :
      (i : Io) (w : Writer sha pid) (n : ℕ) (d : Digest) (s : Store) (c : Bytes)
      → Tracks w s c
      → length c < 2 ^ 64
      → i.sync_ok ≡ true
      → i.mkdir_ok ≡ true
      → i.rename_ok ≡ true
      → ((commit sha pid i w n d s).0 ≡ ok d) ↔ ((length c ≡ n) × (sha256 sha c ≡ d))
  unfolding sha256
  commit_iff i w n d s c k l a b r = (
    λ h.
        let (_, e, f, _) = commit_ok_lem i w n d d s h in
        (omega (arith, k.counted), rw k.hashed at f),
    λ (e, f). commit_accepts i w n d s c k a b r (omega (arith, k.counted)) (rw k.hashed f),
  )

  -- After an accepted commit the store returns, under the expected digest, bytes that have it.
  pub commit-read :
      (i : Io) (w : Writer sha pid) (n : ℕ) (d d' : Digest) (s : Store) (c : Bytes)
      → IsIntact s
      → Tracks w s c
      → (commit sha pid i w n d s).0 ≡ ok d'
      → (d' ≡ d) × (b : Bytes) × (read (commit sha pid i w n d s).1 d ≡ ok b) × (sha256 sha b ≡ d)
  commit-read i w n d d' s c t k h =
      let (e, _, _, there) = commit_ok_lem i w n d d' s h in
      let s' = (commit sha pid i w n d s).1 in
      elim (Option-cases (lookup d.hex s'.blobs)) [
        | inl gone ↦ absurd (unfold is_committed in cc)
        | inr (b, at) ↦ (
          e,
          b,
          unfold read in rw at,
          ground (arith, (commit-IsIntact i w n d s c t k).at_name d.hex b at),
        )
      ]

  -- Staging: a new writer tracks the empty contents, and each write appends what was taken.
  pub writer-Tracks :
      (i : Io) (ref : Bytes) (s s' : Store) (w : Writer sha pid)
      → writer sha pid i ref s ≡ (ok w, s')
      → Tracks w s' []
  unfolding writer
  writer-Tracks i ref s s' w h = record {
    staged = ground (
      arith,
      lookup-insert (staging_name sha pid ref s.seq) (staging_name sha pid ref s.seq) [] s.ingest,
      str_eq_refl (staging_name sha pid ref s.seq),
    );
    hashed = ground (arith, sha.update-nil sha.new);
    counted = ground arith;
  }

  pub write-Tracks :
      (n : ℕ) (buf : Bytes) (w : Writer sha pid) (s : Store) (c : Bytes)
      → Tracks w s c
      → Tracks (write sha pid n buf w s).0 (write sha pid n buf w s).1 (c ++ take n buf)
  unfolding write
  write-Tracks n buf w s c k = record {
    staged = ground (
      arith,
      k.staged,
      lookup-insert w.staging w.staging (c ++ take n buf) s.ingest,
      str_eq_refl w.staging,
    );
    hashed = rw k.hashed (sha.update-append sha.new c (take n buf));
    counted = ground (arith, k.counted, length-append c (take n buf));
  }
