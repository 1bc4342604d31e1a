-- ===== src/Content/Writers.antt =====
-- Many writers on one store (crates/content/src/lib.rs): their calls interleave, and each works on
-- a staging file of its own, so what a commit moves is what the writer has hashed.
pub mod Sound
use containerd_rs.Base.{
  ℕ, suc, ◌+◌, ◌-◌, ◌%◌, ◌^◌, ◌<◌, ◌≤◌, ◌≡◌, ◌≢◌, refl, sym, ◌∙◌, ◌⊎◌, [], ◌∷◌, ◌++◌, Bytes, length,
  ok, Option, none, some, ◌&&◌, ◌==◌, if◌then◌else◌, decimal, decimal-injective, arith,
}
use containerd_rs.CoreTypes.{Sha256, Digest, sha256}
use containerd_rs.Content.{
  Store, Io, remove_blob, Writer, writer, write, commit, drop_writer, staging_name,
}
use containerd_rs.Content.Commit.{IsIntact, Tracks}

append-cancel : (a b c d : Bytes) → length a ≡ length b → a ++ c ≡ b ++ d → c ≡ d
append-cancel [] [] c d n e = e
append-cancel [] (y ∷ b) c d n e = absurd (omega arith)
append-cancel (x ∷ a) [] c d n e = absurd (omega arith)
append-cancel (x ∷ a) (y ∷ b) c d n e = append-cancel a b c d (omega arith) (cc)

module _ (sha : Sha256) (pid : ℕ) where
  -- Writers of one process with different numbers have different staging names, whatever their refs.
  pub staging_name-injective :
      (r q : Bytes) (m n : ℕ) → staging_name sha pid r m ≡ staging_name sha pid q n → m ≡ n
  unfolding staging_name sha256
  staging_name-injective r q m n e =
      let hr = sha.finalize (sha.update sha.new r) in
      let hq = sha.finalize (sha.update sha.new q) in
      let tails =
        append-cancel hr hq _ _
          ((sha.finalize-IsHex (sha.update sha.new r)).0
            ∙ sym (sha.finalize-IsHex (sha.update sha.new q)).0)
          e in
      decimal-injective m n (
        cc (
          append-cancel (decimal pid) (decimal pid) (b'.' ∷ decimal m) (b'.' ∷ decimal n) refl
            (cc)))

  -- The store and the writers that are open, by the handle that their owner holds.
  pub record System : Type 0 where
    pub store : Store
    pub live : ℕ → Option (Writer sha pid)

  abbrev pub put :
      (ℕ → Option (Writer sha pid)) → ℕ → Option (Writer sha pid) → ℕ → Option (Writer sha pid)
  put live h o k = if h == k then o else live k

  -- One call of the store by any of its users. The counter has not come round yet.
  pub data Step (s : System) : System → Type 0 where
    opened :
        (i : Io) (ref : Bytes) (h : ℕ) (w : Writer sha pid) (t : Store)
        → s.live h ≡ none
        → suc s.store.seq < 2 ^ 64
        → writer sha pid i ref s.store ≡ (ok w, t)
        → Step s (record { store = t; live = put s.live h (some w) })
    wrote :
        (n : ℕ) (buf : Bytes) (h : ℕ) (w : Writer sha pid)
        → s.live h ≡ some w
        → Step s (record {
          store = (write sha pid n buf w s.store).1;
          live = put s.live h (some (write sha pid n buf w s.store).0);
        })
    committed :
        (i : Io) (n : ℕ) (d : Digest) (h : ℕ) (w : Writer sha pid)
        → s.live h ≡ some w
        → Step s (record { store = (commit sha pid i w n d s.store).1; live = put s.live h none })
    dropped :
        (i : Io) (h : ℕ) (w : Writer sha pid)
        → s.live h ≡ some w
        → Step s (record { store = drop_writer sha pid i w s.store; live = put s.live h none })
    removed :
        (i : Io) (d : Digest)
        → Step s (record { store = (remove_blob i s.store d).1; live = s.live })

  pub data Reach (s : System) : System → Type 0 where
    here : Reach s s
    next : {t u : System} → Reach s t → Step t u → Reach s u

  -- The blobs are intact, and every open writer tracks a staging file that no other one shares.
  pub record IsSound (s : System) : Type 0 where
    pub intact : IsIntact sha pid s.store
    pub tracks :
        (h : ℕ) (w : Writer sha pid) → s.live h ≡ some w → (c : Bytes) × Tracks sha pid w s.store c
    pub named :
        (h : ℕ) (w : Writer sha pid)
        → s.live h ≡ some w
        → (r : Bytes) × (n : ℕ) × (w.staging ≡ staging_name sha pid r n) × (n < s.store.seq)
    pub apart :
        (h k : ℕ) (v w : Writer sha pid)
        → s.live h ≡ some v
        → s.live k ≡ some w
        → v.staging ≡ w.staging
        → h ≡ k
