-- ===== src/Content/Writers/Sound.antt =====
-- The interleaved calls of Content.Writers keep the store sound (crates/content/src/lib.rs).
use containerd_rs.Base.{
  ℕ, suc, ◌^◌, ◌<◌, ◌≤◌, ◌≡◌, ◌≢◌, sym, subst, ◌∙◌, ◌⊎◌, inl, inr, [], ◌++◌, Bytes, take, ok,
  Option, none, some, ◌==◌, str_eq_iff, str_eq_ne, lookup, lookup-insert, lookup-remove, arith,
  Bool-cases,
}
use containerd_rs.CoreTypes.{Sha256, Digest, sha256}
use containerd_rs.Content.{
  Store, Io, read, remove_blob, unlink_staging, Writer, writer, write, commit, drop_writer,
  staging_name,
}
use containerd_rs.Content.Commit.{
  from_hasher-eq-ok, IsIntact, Tracks, writer-Tracks, write-Tracks, commit-IsIntact,
}
use containerd_rs.Content.Writers.{
  staging_name-injective, System, put, Step, opened, wrote, committed, dropped, removed, Reach,
  here, next, IsSound,
}

module _ (sha : Sha256) (pid : ℕ) where
  -- A writer still tracks its file where a step keeps that file.
  Tracks-kept :
      (w : Writer sha pid) (s t : Store) (c : Bytes)
      → lookup w.staging t.ingest ≡ lookup w.staging s.ingest
      → Tracks sha pid w s c
      → Tracks sha pid w t c
  Tracks-kept w s t c e k = record { staged = e ∙ k.staged; hashed = k.hashed; counted = k.counted }

  write-ingest :
      (n : ℕ) (buf : Bytes) (w : Writer sha pid) (s : Store) (name : Bytes)
      → name ≢ w.staging
      → lookup name (write sha pid n buf w s).1.ingest ≡ lookup name s.ingest
  unfolding write
  write-ingest n buf w s name ne =
      rw lookup-insert (rw (str_eq_ne w.staging name (λ e. ne (sym e))))

  commit-ingest :
      (i : Io) (w : Writer sha pid) (n : ℕ) (d : Digest) (s : Store) (name : Bytes)
      → name ≢ w.staging
      → lookup name (commit sha pid i w n d s).1.ingest ≡ lookup name s.ingest
  unfolding commit unlink_staging
  commit-ingest i w n d s name ne = ground (
    arith,
    from_hasher-eq-ok sha pid w.hasher,
    lookup-remove w.staging name s.ingest,
    str_eq_iff w.staging name,
  )

  commit-seq :
      (i : Io) (w : Writer sha pid) (n : ℕ) (d : Digest) (s : Store)
      → (commit sha pid i w n d s).1.seq ≡ s.seq
  unfolding commit unlink_staging
  commit-seq i w n d s = ground (arith, from_hasher-eq-ok sha pid w.hasher)

  writer-opened :
      (i : Io) (ref : Bytes) (s t : Store) (w : Writer sha pid)
      → suc s.seq < 2 ^ 64
      → writer sha pid i ref s ≡ (ok w, t)
      → (w.staging ≡ staging_name sha pid ref s.seq)
        × (t.seq ≡ suc s.seq)
        × (t.blobs ≡ s.blobs)
        × ((name : Bytes) → name ≢ w.staging → lookup name t.ingest ≡ lookup name s.ingest)
  unfolding writer
  writer-opened i ref s t w n e = (
    ground arith,
    ground arith,
    ground arith,
    λ name ne. ground (
      arith,
      lookup-insert (staging_name sha pid ref s.seq) name [] s.ingest,
      str_eq_iff (staging_name sha pid ref s.seq) name,
    ),
  )

  put-cases :
      (live : ℕ → Option (Writer sha pid)) (h j : ℕ) (o : Option (Writer sha pid))
      (v : Writer sha pid)
      → put sha pid live h o j ≡ some v
      → ((h ≡ j) × (o ≡ some v)) ⊎ ((h ≢ j) × (live j ≡ some v))
  put-cases live h j o v e = elim (Bool-cases (h == j)) [
    | inl same ↦ inl (ground arith, ground arith)
    | inr other ↦ inr (ground arith, ground arith)
  ]

  -- What the writer under one handle must satisfy behind a step that touches only that handle.
  record Fits (s : System sha pid) (t : Store) (h : ℕ) (v : Writer sha pid) : Type 0 where
    tracked : (c : Bytes) × Tracks sha pid v t c
    name_of : (r : Bytes) × (n : ℕ) × (v.staging ≡ staging_name sha pid r n) × (n < t.seq)
    alone : (j : ℕ) (w : Writer sha pid) → h ≢ j → s.live j ≡ some w → v.staging ≢ w.staging

  module _ (s : System sha pid) (k : IsSound sha pid s) where
    changed-IsSound :
        (h : ℕ) (t : Store) (o : Option (Writer sha pid))
        → IsIntact sha pid t
        → s.store.seq ≤ t.seq
        → ((j : ℕ) (v : Writer sha pid)
            → h ≢ j
            → s.live j ≡ some v
            → lookup v.staging t.ingest ≡ lookup v.staging s.store.ingest)
        → ((v : Writer sha pid) → o ≡ some v → Fits s t h v)
        → IsSound sha pid (record { store = t; live = put sha pid s.live h o })
    changed-IsSound h t o good seq others fits = record {
      intact = good;
      tracks = λ j v e. elim (put-cases s.live h j o v e) [
        | inl (_, new) ↦ (fits v new).tracked
        | inr (ne, old) ↦
            let (c, tr) = k.tracks j v old in (c, Tracks-kept v s.store t c (others j v ne old) tr)
      ];
      named = λ j v e. elim (put-cases s.live h j o v e) [
        | inl (_, new) ↦ (fits v new).name_of
        | inr (ne, old) ↦ let (r, n, nm, lt) = k.named j v old in (r, n, nm, omega arith)
      ];
      apart = λ j j' v v' e e' same. elim (put-cases s.live h j o v e) [
        | inl (at, new) ↦ elim (put-cases s.live h j' o v' e') [
          | inl (at', new') ↦ sym at ∙ at'
          | inr (ne', old') ↦ absurd ((fits v new).alone j' v' ne' old' same)
        ]
        | inr (ne, old) ↦ elim (put-cases s.live h j' o v' e') [
          | inl (at', new') ↦ absurd ((fits v' new').alone j v ne old (sym same))
          | inr (ne', old') ↦ k.apart j j' v v' old old' same
        ]
      ];
    }

    -- Another writer's staging file has another name.
    elsewhere :
        (h j : ℕ) (w v : Writer sha pid)
        → s.live h ≡ some w
        → h ≢ j
        → s.live j ≡ some v
        → v.staging ≢ w.staging
    elsewhere h j w v lw ne lv same = ne (k.apart h j w v lw lv (sym same))

    opened-IsSound :
        (i : Io) (ref : Bytes) (h : ℕ) (w : Writer sha pid) (t : Store)
        → suc s.store.seq < 2 ^ 64
        → writer sha pid i ref s.store ≡ (ok w, t)
        → IsSound sha pid (record { store = t; live = put sha pid s.live h (some w) })
    opened-IsSound i ref h w t room e =
        let (name, seq, blobs, others) = writer-opened i ref s.store t w room e in
        let distinct : (j : ℕ) (v : Writer sha pid) → s.live j ≡ some v → v.staging ≢ w.staging =
          λ j v lv same.
            let (r, q, nm, lt) = k.named j v lv in
            omega
              (arith, staging_name-injective sha pid r ref q s.store.seq (sym nm ∙ same ∙ name)) in
        changed-IsSound h t (some w)
          (record { at_name = λ x b l. k.intact.at_name x b (rw blobs at l) }) (omega arith)
          (λ j v _ lv. others v.staging (distinct j v lv))
          (λ v new.
            let same : w ≡ v = cc in
            subst (λ u. Fits s t h u) same
              (record {
                tracked = ([], writer-Tracks sha pid i ref s.store t w e);
                name_of = (ref, s.store.seq, name, omega arith);
                alone = λ j u ne lu x. distinct j u lu (sym x);
              }))

    wrote-IsSound :
        (n : ℕ) (buf : Bytes) (h : ℕ) (w : Writer sha pid)
        → s.live h ≡ some w
        → IsSound sha pid (record {
          store = (write sha pid n buf w s.store).1;
          live = put sha pid s.live h (some (write sha pid n buf w s.store).0);
        })
    unfolding write
    wrote-IsSound n buf h w lw =
        let (w', t) = write sha pid n buf w s.store in
        let (c, tr) = k.tracks h w lw in
        let (r, q, nm, lt) = k.named h w lw in
        changed-IsSound h t (some w') (record { at_name = k.intact.at_name }) (omega arith)
          (λ j v ne lv. write-ingest n buf w s.store v.staging (elsewhere h j w v lw ne lv))
          (λ v new.
            let same : w' ≡ v = cc in
            subst (λ u. Fits s t h u) same
              (record {
                tracked = (c ++ take n buf, write-Tracks sha pid n buf w s.store c tr);
                name_of = (r, q, nm, lt);
                alone = λ j u ne lu x. elsewhere h j w u lw ne lu (sym x);
              }))

    committed-IsSound :
        (i : Io) (n : ℕ) (d : Digest) (h : ℕ) (w : Writer sha pid)
        → s.live h ≡ some w
        → IsSound sha pid (record {
          store = (commit sha pid i w n d s.store).1;
          live = put sha pid s.live h none;
        })
    committed-IsSound i n d h w lw =
        let (c, tr) = k.tracks h w lw in
        changed-IsSound h (commit sha pid i w n d s.store).1 none
          (commit-IsIntact sha pid i w n d s.store c k.intact tr)
          (omega (arith, commit-seq i w n d s.store))
          (λ j v ne lv. commit-ingest i w n d s.store v.staging (elsewhere h j w v lw ne lv))
          (λ v new. cc)

    dropped-IsSound :
        (i : Io) (h : ℕ) (w : Writer sha pid)
        → s.live h ≡ some w
        → IsSound sha pid
            (record { store = drop_writer sha pid i w s.store; live = put sha pid s.live h none })
    unfolding drop_writer unlink_staging
    dropped-IsSound i h w lw =
        changed-IsSound h (drop_writer sha pid i w s.store) none
          (record { at_name = λ x b l. k.intact.at_name x b (ground arith) }) (ground arith)
          (λ j v ne lv.
            let other = elsewhere h j w v lw ne lv in
            ground (
              arith,
              lookup-remove w.staging v.staging s.store.ingest,
              str_eq_iff w.staging v.staging,
            ))
          (λ v new. cc)

    removed-IsSound :
        (i : Io) (d : Digest)
        → IsSound sha pid (record { store = (remove_blob i s.store d).1; live = s.live })
    unfolding remove_blob
    removed-IsSound i d = record {
      intact = record {
        at_name =
            λ x b l. ground (arith, lookup-remove d.hex x s.store.blobs, k.intact.at_name x b);
      };
      tracks = λ h w lw.
          let (c, tr) = k.tracks h w lw in
          (c, Tracks-kept w s.store (remove_blob i s.store d).1 c (ground arith) tr);
      named = λ h w lw. let (r, n, nm, lt) = k.named h w lw in (r, n, nm, ground arith);
      apart = k.apart;
    }

  Step-IsSound : {s t : System sha pid} → Step sha pid s t → IsSound sha pid s → IsSound sha pid t
  Step-IsSound {s} (opened i ref h w t free room e) k = opened-IsSound s k i ref h w t room e
  Step-IsSound {s} (wrote n buf h w lw) k = wrote-IsSound s k n buf h w lw
  Step-IsSound {s} (committed i n d h w lw) k = committed-IsSound s k i n d h w lw
  Step-IsSound {s} (dropped i h w lw) k = dropped-IsSound s k i h w lw
  Step-IsSound {s} (removed i d) k = removed-IsSound s k i d

  -- From a sound state, however the calls of any number of writers, removals and failing system
  -- calls interleave, the store stays sound: each blob hashes to its name, and no two open
  -- writers share a staging file.
  pub Reach-IsSound :
      {s t : System sha pid} → IsSound sha pid s → Reach sha pid s t → IsSound sha pid t
  Reach-IsSound k here = k
  Reach-IsSound k (next r st) = Step-IsSound st (Reach-IsSound k r)

  abbrev pub empty : System sha pid
  empty = record { store = record { blobs = []; ingest = []; seq = 0 }; live = λ h. none }

  pub empty-IsSound : IsSound sha pid empty
  unfolding lookup
  empty-IsSound = record {
    intact = record { at_name = λ h b e. cc };
    tracks = λ h w e. cc;
    named = λ h w e. cc;
    apart = λ h k v w e e' x. cc;
  }

  -- In every state that is reached from the empty store, reading a committed blob returns bytes
  -- that hash to the digest asked for.
  pub reached_read :
      (t : System sha pid) (d : Digest) (b : Bytes)
      → Reach sha pid empty t
      → read t.store d ≡ ok b
      → sha256 sha b ≡ d
  unfolding read
  reached_read t d b r e =
      let hex : (sha256 sha b).hex ≡ d.hex =
        (Reach-IsSound empty-IsSound r).intact.at_name d.hex b (ground arith) in
      λ i. record { hex = hex i }
