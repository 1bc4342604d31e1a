-- ===== src/Images/Identity.antt =====
-- crates/images/src/identity.rs: chain ids, platforms and the choice of a manifest.
pub mod Chains
pub mod Platforms
use containerd_rs.Base.{
  List, [], ◌∷◌, ◌++◌, Bytes, text, Bool, true, false, not, ◌&&◌, ◌||◌, Option, none, some,
  if◌then◌else◌, str_eq,
}
use containerd_rs.CoreTypes.{Sha256, Digest, sha256, display}

-- `Vec::last`; the loop's `chain[i - 1]`, since the chain has i elements.
abbrev pub last : List Digest → Option Digest
last [] = none
last (d ∷ []) = some d
last (d ∷ e ∷ ds) = last (e ∷ ds)

module _ (sha : Sha256) where
  -- What the loop pushes for a layer.
  unfoldable pub next : Option Digest → Digest → Digest
  next none diff = diff
  next (some prev) diff = sha256 sha (display prev ++ (b' ' ∷ display diff))

  abbrev pub extend_chain : List Digest → List Digest → List Digest
  extend_chain chain [] = chain
  extend_chain chain (diff ∷ diffs) = extend_chain (chain ++ next (last chain) diff ∷ []) diffs

  -- `chain_ids`
  unfoldable pub chain_ids : List Digest → List Digest
  chain_ids diff_ids = extend_chain [] diff_ids

  -- `chain_id`
  unfoldable pub chain_id : List Digest → Option Digest
  unfolding chain_ids
  chain_id diff_ids = last (chain_ids diff_ids)

-- `struct Platform`
pub record Platform : Type 0 where
  pub os : Bytes
  pub architecture : Bytes
  pub variant : Option Bytes

-- `canonical_variant`
unfoldable pub canonical_variant : Bytes → Option Bytes → Option Bytes
canonical_variant arch none = if str_eq arch (text "arm64") then some (text "v8") else none
canonical_variant arch (some v) = some v

unfoldable pub variants_match : Option Bytes → Option Bytes → Bool
variants_match (some a) (some b) = str_eq a b
variants_match _ _ = true

-- `Platform::matches`
unfoldable pub matches : Platform → Platform → Bool
unfolding canonical_variant variants_match
matches node candidate =
    if not (str_eq node.os candidate.os) || not (str_eq node.architecture candidate.architecture)
    then false
    else variants_match (canonical_variant node.architecture node.variant)
        (canonical_variant candidate.architecture candidate.variant)

-- `select_manifest`
unfoldable pub select_manifest {ℓ} : {T : Type ℓ} → Platform → List (Platform × T) → Option T
unfolding matches
select_manifest target [] = none
select_manifest target ((p, t) ∷ entries) =
    let later = select_manifest target entries in if matches target p then some t else later

-- `architecture_static`, on the name of the build's architecture.
unfoldable pub architecture_static : Bytes → Bytes
architecture_static arch =
    if str_eq arch (text "x86_64")
    then text "amd64"
    else if str_eq arch (text "aarch64")
    then text "arm64"
    else arch

-- `default_variant`
unfoldable pub default_variant : Bytes → Option Bytes
default_variant arch = if str_eq arch (text "arm64") then some (text "v8") else none

-- `Platform::default_host`, on the names of the build's system and architecture.
unfoldable pub default_host : Bytes → Bytes → Platform
unfolding architecture_static default_variant
default_host os arch = record {
  os = os;
  architecture = architecture_static arch;
  variant = default_variant (architecture_static arch);
}
