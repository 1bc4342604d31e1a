-- ===== src/Images/Gc/Blobs.antt =====
-- crates/images/src/gc.rs: which blobs a reclaim removes.
use containerd_rs.Base.{
  ℕ, ◌≡◌, ◌≢◌, subst, str_eq_ne, refl, ap, sym, ◌∙◌, List, [], ◌∷◌, Bytes, Bool, true, not, ◌&&◌,
  none, Option, Result, ok, err, if◌then◌else◌, str_eq, str_eq_iff, lookup, lookup-remove, All,
  arith, Bool-cases, inl, inr,
}
use containerd_rs.CoreTypes.{Digest, from_str, display, IsHex}
use containerd_rs.CoreTypes
use containerd_rs.CoreTypes.Parse.{from_str-display}
use containerd_rs.Content.{Store, Io, remove_blob, is_committed}
use containerd_rs.Images.Gc.{
  contains, remove_counted, reclaim_blob, reclaim_blobs, reclaim, referenced_blobs, live_blobs,
}
use containerd_rs.Snapshots.Paths.{PathBuf}
use containerd_rs.Snapshots.Files.{Names, Fs}
use containerd_rs.Metadata.Records.{ImageRecord}

-- A digest string as `Digest` displays it, if it parses at all.
abbrev pub IsCanonical : Bytes → Type 0
IsCanonical b = (d : Digest) → from_str b ≡ ok d → display d ≡ b

str_eq-display : (d k : Digest) → str_eq (display d) (display k) ≡ str_eq d.hex k.hex
unfolding display str_eq
str_eq-display d k = refl

lookup-remove_blob :
    (i : Io) (s : Store) (d : Digest) (k : Bytes)
    → i.unlink_ok ≡ true
    → lookup k (remove_blob i s d).1.blobs ≡ (if str_eq d.hex k then none else lookup k s.blobs)
unfolding remove_blob is_committed
lookup-remove_blob i s d k h = ground (arith, lookup-remove d.hex k s.blobs, str_eq_iff d.hex k)

err_ne_ok : (e : CoreTypes.Error) (k : Digest) → ¬ (err e ≡ ok k)
err_ne_ok e k h = cc

-- The blob of a digest after one step of the loop.
abbrev pub kept : Bool → Option Bytes → Option Bytes
kept gone o = if gone then none else o

unparsed :
    (blob : Bytes) (e : CoreTypes.Error) (k : Digest)
    → from_str blob ≡ err e
    → IsHex k.hex
    → blob ≢ display k
unparsed blob e k parsed hex same =
    err_ne_ok e k (sym parsed ∙ ap from_str same ∙ from_str-display k hex)

module _ (io : Digest → Io) (works : (d : Digest) → (io d).unlink_ok ≡ true) where
  lookup-remove_counted :
      (blob : Bytes) (r : Result CoreTypes.Error Digest) (k : Digest) (n : ℕ) (s : Store)
      → from_str blob ≡ r
      → IsCanonical blob
      → IsHex k.hex
      → lookup k.hex (remove_counted io r (n, s)).1.blobs
        ≡ kept (str_eq blob (display k)) (lookup k.hex s.blobs)
  lookup-remove_counted blob (err e) k n s parsed canonical hex =
      rw (str_eq_ne blob (display k) (unparsed blob e k parsed hex)) refl
  lookup-remove_counted blob (ok d) k n s parsed canonical hex =
      subst
        (λ b.
          lookup k.hex (remove_blob (io d) s d).1.blobs
          ≡ kept (str_eq b (display k)) (lookup k.hex s.blobs))
        (canonical d parsed)
        (rw (str_eq-display d k) (lookup-remove_blob (io d) s d k.hex (works d)))

  -- One step: a blob goes if it is the one named and no live image names it.
  lookup-reclaim_blob :
      (live : List Bytes) (blob : Bytes) (k : Digest) (st : ℕ × Store)
      → IsCanonical blob
      → IsHex k.hex
      → lookup k.hex (reclaim_blob io live blob st).1.blobs
        ≡ kept
            (str_eq blob (display k) && not (contains live (display k)))
            (lookup k.hex st.1.blobs)
  unfolding reclaim_blob
  lookup-reclaim_blob live blob k (n, s) canonical hex = elim (Bool-cases (contains live blob)) [
    | inl e ↦ rw e (ground (arith, str_eq_iff blob (display k)))
    | inr e ↦ rw e (
        ground (
          arith,
          str_eq_iff blob (display k),
          lookup-remove_counted blob (from_str blob) k n s refl canonical hex,
        ))
  ]

  -- The blob of a digest is gone after the loop exactly if the removed image references it and no
  -- live image does; every other blob is as before.
  pub reclaim_blobs_lem :
      (live blobs : List Bytes) (k : Digest) (st : ℕ × Store)
      → All IsCanonical blobs
      → IsHex k.hex
      → lookup k.hex (reclaim_blobs io live blobs st).1.blobs ≡ (
          if contains blobs (display k) && not (contains live (display k))
          then none
          else lookup k.hex st.1.blobs)
  unfolding reclaim_blobs contains
  reclaim_blobs_lem live [] k st tt hex = refl
  reclaim_blobs_lem live (blob ∷ blobs) k st (c, cs) hex = ground (
    arith,
    reclaim_blobs_lem live blobs k (reclaim_blob io live blob st) cs hex,
    lookup-reclaim_blob live blob k st c hex,
  )

-- Where the removals succeed and the digest strings of the removed image are canonical, `reclaim`
-- removes the blob of a well-formed digest exactly if the removed image references it and no live
-- image does, and keeps every other blob with its content.
pub reclaim_lem :
    (io : Digest → Io) (bound : ℕ) (rmdir_ok : Names → Bool) (root : PathBuf)
    (removed : ImageRecord) (live : List ImageRecord) (s : Store) (fs : Fs) (k : Digest)
    → ((d : Digest) → (io d).unlink_ok ≡ true)
    → All IsCanonical (referenced_blobs removed)
    → IsHex k.hex
    → lookup k.hex (reclaim io bound rmdir_ok root removed live (s, fs)).1.0.blobs ≡ (
        if contains (referenced_blobs removed) (display k)
          && not (contains (live_blobs live) (display k))
        then none
        else lookup k.hex s.blobs)
unfolding reclaim
reclaim_lem io bound rmdir_ok root removed live s fs k works canonical hex =
    reclaim_blobs_lem io works (live_blobs live) (referenced_blobs removed) k (0, s) canonical hex
