-- ===== src/Images/Gc/Trees.antt =====
-- crates/images/src/gc.rs: which snapshot trees a reclaim removes, and the directory that
-- crates/images/src/pull.rs unpacks a layer into.
use containerd_rs.Base.{
  ℕ, ◌≡◌, ◌≢◌, refl, ap, sym, ◌∙◌, List, [], ◌∷◌, ◌++◌, map, Bytes, text, length, Bool, true, false,
  str_eq_ne, All, arith, Bool-cases, inl, inr, append_assoc,
}
use mathlib.Core.Bool.{false≢true}
use containerd_rs.CoreTypes.{Digest, display, IsHex, is_lower_hex}
use containerd_rs.Content.{Store, Io}
use containerd_rs.Snapshots.{snapshot_dirs}
use containerd_rs.Snapshots.Paths.{PathBuf, normal, join, components, components_name, HasNoSlash}
use containerd_rs.Snapshots.Files.{Names, Fs, is_prefix, without}
use containerd_rs.Snapshots.Diff.{names}
use containerd_rs.Snapshots.Diff.Whiteouts.{names-normal}
use containerd_rs.Snapshots.Diff.Removal.{parent-append}
use containerd_rs.Metadata.Records.{ImageRecord}
use containerd_rs.Images.Gc.{
  contains, snapshot_dir, remove_dir, reclaim_chain, reclaim_chains, reclaim, live_chains,
}

-- The directory that a layer of the chain id is unpacked into.
unfoldable pub unpack_dir : PathBuf → Digest → PathBuf
unpack_dir root chain = (snapshot_dirs root chain.hex).0

join_name : (p : PathBuf) (n : Bytes) → join p (normal n ∷ []) ≡ p ++ normal n ∷ []
unfolding join
join_name [] n = refl
join_name (c ∷ p) n = refl

snapshot_base :
    (root : PathBuf) (id : Bytes)
    → components id ≡ normal id ∷ []
    → (snapshot_dirs root id).0
      ≡ ((root ++ normal (text "snapshots") ∷ []) ++ normal id ∷ []) ++ normal (text "fs") ∷ []
unfolding snapshot_dirs
snapshot_base root id e =
    rw
      (
        e,
        join_name root (text "snapshots"),
        join_name (root ++ normal (text "snapshots") ∷ []) id,
        join_name ((root ++ normal (text "snapshots") ∷ []) ++ normal id ∷ []) (text "fs"),
      )
      refl

-- The directory of a snapshot below the root.
names-snapshot_dir :
    (root : PathBuf) (id : Bytes)
    → components id ≡ normal id ∷ []
    → names (snapshot_dir root id) ≡ (names root ++ text "snapshots" ∷ []) ++ id ∷ []
unfolding snapshot_dir
names-snapshot_dir root id e =
    rw
      (
        snapshot_base root id e,
        parent-append ((root ++ normal (text "snapshots") ∷ []) ++ normal id ∷ []) (text "fs"),
        names-normal (root ++ normal (text "snapshots") ∷ []) id,
        names-normal root (text "snapshots"),
      )
      refl

names-unpack_dir :
    (root : PathBuf) (d : Digest)
    → components d.hex ≡ normal d.hex ∷ []
    → names (unpack_dir root d) ≡ (names root ++ text "snapshots" ∷ []) ++ d.hex ∷ text "fs" ∷ []
unfolding unpack_dir
names-unpack_dir root d e =
    rw
      (
        snapshot_base root d.hex e,
        names-normal ((root ++ normal (text "snapshots") ∷ []) ++ normal d.hex ∷ []) (text "fs"),
        names-normal (root ++ normal (text "snapshots") ∷ []) d.hex,
        names-normal root (text "snapshots"),
      )
      (append_assoc (names root ++ text "snapshots" ∷ []) (d.hex ∷ []) (text "fs" ∷ []))

is_prefix_fork :
    (p : Names) (a b : Bytes) (q r : Names) → a ≢ b → is_prefix (p ++ a ∷ q) (p ++ b ∷ r) ≡ false
unfolding is_prefix
is_prefix_fork [] a b q r h = rw (str_eq_ne a b h) refl
is_prefix_fork (n ∷ p) a b q r h = ground (arith, is_prefix_fork p a b q r h)

hex-HasNoSlash : (h : Bytes) → All (λ b. is_lower_hex b ≡ true) h → HasNoSlash h
hex-HasNoSlash [] tt = tt
hex-HasNoSlash (b ∷ h) (k, ks) = (ground arith, hex-HasNoSlash h ks)

hex_name : (d : Digest) → IsHex d.hex → components d.hex ≡ normal d.hex ∷ []
hex_name d (n, h) = components_name d.hex (omega arith) (hex-HasNoSlash d.hex h)

display_name : (d : Digest) → IsHex d.hex → components (display d) ≡ normal (display d) ∷ []
unfolding display
display_name d (n, h) =
    components_name (display d) (omega arith)
      (refl, (refl, (refl, (refl, (refl, (refl, (refl, hex-HasNoSlash d.hex h)))))))

-- A displayed digest is longer than a hex text.
display-ne-hex : (d k : Digest) → IsHex d.hex → IsHex k.hex → display d ≢ k.hex
unfolding display
display-ne-hex d k (n, h) (n', h') e = absurd (let same = ap length e in omega arith)

module _ (bound : ℕ) (rmdir_ok : Names → Bool) (root : PathBuf) (x : Names) where
  remove_dir_keeps :
      (dir : Names) (n : ℕ) (fs : Fs)
      → is_prefix dir x ≡ false
      → (remove_dir bound rmdir_ok dir (n, fs)).1 x ≡ fs x
  unfolding without
  remove_dir_keeps dir n fs out = ground arith

  reclaim_chain_keeps :
      (live : List Bytes) (chain : Bytes) (st : ℕ × Fs)
      → is_prefix (names (snapshot_dir root chain)) x ≡ false
      → (reclaim_chain bound rmdir_ok root live chain st).1 x ≡ st.1 x
  unfolding reclaim_chain
  reclaim_chain_keeps live chain (n, fs) out =
      ground (arith, remove_dir_keeps (names (snapshot_dir root chain)) n fs out)

  reclaim_chains_keeps :
      (live chains : List Bytes) (st : ℕ × Fs)
      → All (λ c. is_prefix (names (snapshot_dir root c)) x ≡ false) chains
      → (reclaim_chains bound rmdir_ok root live chains st).1 x ≡ st.1 x
  unfolding reclaim_chains
  reclaim_chains_keeps live [] st tt = refl
  reclaim_chains_keeps live (c ∷ chains) st (k, ks) =
      reclaim_chains_keeps live chains (reclaim_chain bound rmdir_ok root live c st) ks
      ∙ reclaim_chain_keeps live c st k

other_dirs :
    (root : PathBuf) (k : Digest) (chains : List Digest) (below : Names)
    → IsHex k.hex
    → All (λ d. IsHex d.hex) chains
    → All
        (λ c. is_prefix (names (snapshot_dir root c)) (names (unpack_dir root k) ++ below) ≡ false)
        (map display chains)
other_dirs root k [] below hex tt = tt
other_dirs root k (d ∷ chains) below hex (h, hs) = (
  rw
      (
        names-snapshot_dir root (display d) (display_name d h),
        names-unpack_dir root k (hex_name k hex),
        append_assoc (names root ++ text "snapshots" ∷ []) (k.hex ∷ text "fs" ∷ []) below,
      )
      (is_prefix_fork (names root ++ text "snapshots" ∷ []) (display d) k.hex [] (text "fs" ∷ below)
        (display-ne-hex d k h hex)),
  other_dirs root k chains below hex hs,
)

-- Where the record lists well-formed chain ids as displayed digests, `reclaim` removes nothing in
-- the directory that a layer is unpacked into, whatever its well-formed chain id: not even of the
-- image that is removed.
pub reclaim_keeps_unpacked :
    (io : Digest → Io) (bound : ℕ) (rmdir_ok : Names → Bool) (root : PathBuf)
    (removed : ImageRecord) (live : List ImageRecord) (s : Store) (fs : Fs) (chains : List Digest)
    (k : Digest) (below : Names)
    → removed.chain_ids ≡ map display chains
    → All (λ d. IsHex d.hex) chains
    → IsHex k.hex
    → (reclaim io bound rmdir_ok root removed live (s, fs)).1.1 (names (unpack_dir root k) ++ below)
      ≡ fs (names (unpack_dir root k) ++ below)
unfolding reclaim
reclaim_keeps_unpacked io bound rmdir_ok root removed live s fs chains k below same hexes hex =
    reclaim_chains_keeps bound rmdir_ok root (names (unpack_dir root k) ++ below) (live_chains live)
      removed.chain_ids (0, fs) (rw same (other_dirs root k chains below hex hexes))

names-chain :
    (root : PathBuf) (c k : Bytes) (below : Names)
    → components c ≡ normal c ∷ []
    → components k ≡ normal k ∷ []
    → c ≢ k
    → is_prefix (names (snapshot_dir root c)) (names (snapshot_dir root k) ++ below) ≡ false
names-chain root c k below e e' ne =
    rw
      (
        names-snapshot_dir root c e,
        names-snapshot_dir root k e',
        append_assoc (names root ++ text "snapshots" ∷ []) (k ∷ []) below,
      )
      (is_prefix_fork (names root ++ text "snapshots" ∷ []) c k [] below ne)

differs :
    (live : List Bytes) (c k : Bytes) → contains live k ≡ true → contains live c ≡ false → c ≢ k
differs live c k h h' e = absurd (false≢true (sym h' ∙ ap (contains live) e ∙ h))

module _ (bound : ℕ) (rmdir_ok : Names → Bool) (root : PathBuf) (live : List Bytes) (k : Bytes)
    (name : components k ≡ normal k ∷ []) (listed : contains live k ≡ true) (below : Names) where
  reclaim_chain_live :
      (c : Bytes) (st : ℕ × Fs)
      → components c ≡ normal c ∷ []
      → (reclaim_chain bound rmdir_ok root live c st).1 (names (snapshot_dir root k) ++ below)
        ≡ st.1 (names (snapshot_dir root k) ++ below)
  unfolding reclaim_chain
  reclaim_chain_live c (n, fs) e = elim (Bool-cases (contains live c)) [
    | inl h ↦ rw h refl
    | inr h ↦ rw h (
        remove_dir_keeps bound rmdir_ok root (names (snapshot_dir root k) ++ below)
          (names (snapshot_dir root c)) n fs
          (names-chain root c k below e name (differs live c k listed h)))
  ]

  -- The snapshot that a live image lists is kept with all below it, where the chain ids that the
  -- removed image lists are names of one component.
  pub reclaim_chains_live :
      (chains : List Bytes) (st : ℕ × Fs)
      → All (λ c. components c ≡ normal c ∷ []) chains
      → (reclaim_chains bound rmdir_ok root live chains st).1 (names (snapshot_dir root k) ++ below)
        ≡ st.1 (names (snapshot_dir root k) ++ below)
  unfolding reclaim_chains
  reclaim_chains_live [] st tt = refl
  reclaim_chains_live (c ∷ chains) st (e, es) =
      reclaim_chains_live chains (reclaim_chain bound rmdir_ok root live c st) es
      ∙ reclaim_chain_live c st e
