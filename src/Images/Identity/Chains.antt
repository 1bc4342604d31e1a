-- ===== src/Images/Identity/Chains.antt =====
-- crates/images/src/identity.rs: the chain ids follow the recursion of the image specification.
use containerd_rs.Base.{
  ℕ, suc, ◌≡◌, refl, ap, sym, ◌∙◌, List, [], ◌∷◌, ◌++◌, length, take, some, append_assoc,
  append-nil, take-length_append, Bytes, text,
}
use containerd_rs.CoreTypes.{Sha256, Digest, sha256, display}
use containerd_rs.Images.Identity.{last, next, extend_chain, chain_ids}

last-append : (ds : List Digest) (d : Digest) → last (ds ++ d ∷ []) ≡ some d
last-append [] d = refl
last-append (c ∷ []) d = refl
last-append (c ∷ e ∷ ds) d = last-append (e ∷ ds) d

-- What extending a chain adds to it.
data Extends (chain more : List Digest) (n : ℕ) : Type 0 where
  by : (added : List Digest) → more ≡ chain ++ added → length added ≡ n → Extends chain more n

module _ (sha : Sha256) where
  extend_chain-append :
      (chain ds es : List Digest)
      → extend_chain sha chain (ds ++ es) ≡ extend_chain sha (extend_chain sha chain ds) es
  extend_chain-append chain [] es = refl
  extend_chain-append chain (d ∷ ds) es =
      extend_chain-append (chain ++ next sha (last chain) d ∷ []) ds es

  -- The text `sha256:<chain> sha256:<diff>` that the image specification hashes.
  abbrev pub chained : Digest → Digest → Bytes
  chained c d = text "sha256:" ++ (c.hex ++ (text " sha256:" ++ d.hex))

  next-chained :
      (c d : Digest) → (next sha (some c) d).hex ≡ sha.finalize (sha.update sha.new (chained c d))
  unfolding next sha256 display
  next-chained c d =
      ap (λ b. sha.finalize (sha.update sha.new b))
        (append_assoc (text "sha256:") c.hex (text " sha256:" ++ d.hex))

  -- The recursion of the image specification: the chain of one layer is its diffID, and a further
  -- layer behind others appends one chainID, the hash of the text of the last chainID, a space and
  -- the text of the layer's diffID.
  pub chain_ids-append :
      (ds cs : List Digest) (c d : Digest)
      → chain_ids sha ds ≡ cs ++ c ∷ []
      → (chain_ids sha (d ∷ []) ≡ d ∷ [])
        × (chain_ids sha (ds ++ d ∷ [])
            ≡ chain_ids sha ds
              ++ record { hex = sha.finalize (sha.update sha.new (chained c d)) } ∷ [])
  unfolding chain_ids next
  chain_ids-append ds cs c d h = (
    refl,
    extend_chain-append [] ds (d ∷ [])
        ∙ ap (λ e. extend_chain sha [] ds ++ e ∷ [])
            (ap (λ o. next sha o d) (ap last h ∙ last-append cs c)
              ∙ (λ i. record { hex = next-chained c d i })),
  )

  extend_chain-Extends :
      (chain ds : List Digest) → Extends chain (extend_chain sha chain ds) (length ds)
  extend_chain-Extends chain [] = by [] (sym (append-nil chain)) refl
  extend_chain-Extends chain (d ∷ ds) =
      elim (extend_chain-Extends (chain ++ next sha (last chain) d ∷ []) ds) [
        | by added e n ↦
            by (next sha (last chain) d ∷ added)
              (e ∙ append_assoc chain (next sha (last chain) d ∷ []) added) (ap suc n)
      ]

  pub length-chain_ids : (ds : List Digest) → length (chain_ids sha ds) ≡ length ds
  unfolding chain_ids
  length-chain_ids ds = elim (extend_chain-Extends [] ds) [ by added e n ↦ rw e n ]

  -- Images with the same first layers share the chain ids of these layers.
  pub take-chain_ids :
      (ds es : List Digest) → take (length ds) (chain_ids sha (ds ++ es)) ≡ chain_ids sha ds
  unfolding chain_ids
  take-chain_ids ds es = elim (extend_chain-Extends (extend_chain sha [] ds) es) [
    | by added e n ↦
        rw (extend_chain-append [] ds es, e, sym (length-chain_ids ds))
          (take-length_append (extend_chain sha [] ds) added)
  ]
