-- ===== src/Cri/ImageService/Removal.antt =====
-- crates/cri/src/server.rs: what the removal of an image leaves of it and of the others.
use containerd_rs.Base.{
  ◌≡◌, refl, ap, sym, ◌∙◌, subst, List, Bytes, Bool, true, false, not, ◌&&◌, none, some, Result, ok,
  err, if◌then◌else◌, str_eq_refl, lookup, err_ne_ok, All,
}
use containerd_rs.CoreTypes.{Digest, display}
use containerd_rs.CoreTypes.{IsHex}
use containerd_rs.Metadata.Records.{ImageRecord}
use containerd_rs.Metadata.Store.{image, Store, list, delete}
use containerd_rs.Metadata.Store.Isolation.{IsNamespace, get-delete}
use containerd_rs.Images.Gc.{contains, referenced_blobs, live_blobs}
use containerd_rs.Images.Gc.Blobs.{IsCanonical, reclaim_lem}
use containerd_rs.Cri.Service.{Status}
use containerd_rs.Cri.ImageService.{
  Disk, Env, internal_of, find_image, find_image_by_id, reclaimed, after_delete, removed_found,
  remove_image,
}

-- The images that are left.
abbrev pub images_of : Env → Store → Result Status (List ImageRecord)
images_of env s =
    internal_of env (list env.to_vec env.from_slice env.reads_ok image env.namespace s)

-- What a removal leaves under the id and of the blob of a digest.
abbrev pub IsRemoved : Env → ImageRecord → Disk → Digest → Disk → Type 0
IsRemoved env r d k d' =
    (live : List ImageRecord) × (images_of env d'.metadata ≡ ok live)
    × (find_image_by_id env r.image_id d'.metadata ≡ ok none)
    × (lookup k.hex d'.content.blobs ≡ (
        if contains (referenced_blobs r) (display k) && not (contains (live_blobs live) (display k))
        then none
        else lookup k.hex d.content.blobs))

module _ (env : Env) (ns : IsNamespace env.namespace) (reads : env.reads_ok ≡ true)
    (unlinks : (d : Digest) → (env.unlinks d).unlink_ok ≡ true) where
  get-delete_same :
      (id : Bytes) (s : Store)
      → find_image_by_id env id (delete true image env.namespace id s).1 ≡ ok none
  unfolding find_image_by_id
  get-delete_same id s =
      rw
        (
          reads,
          get-delete env.to_vec env.from_slice image env.namespace env.namespace ns ns id id s,
          str_eq_refl env.namespace,
          str_eq_refl id,
        )
        refl

  reclaimed-IsRemoved :
      (r : ImageRecord) (d d' : Disk) (k : Digest) (live : Result Status (List ImageRecord))
      → images_of env d.metadata ≡ live
      → find_image_by_id env r.image_id d.metadata ≡ ok none
      → All IsCanonical (referenced_blobs r)
      → IsHex k.hex
      → reclaimed env r d live ≡ (ok tt, d')
      → IsRemoved env r d k d'
  reclaimed-IsRemoved r d d' k (err e) listed gone canonical hex h =
      absurd (err_ne_ok (ap (λ q. q.0) h))
  reclaimed-IsRemoved r d d' k (ok live) listed gone canonical hex h =
      subst (IsRemoved env r d k) (ap (λ q. q.1) h) (
        live,
        listed,
        gone,
        reclaim_lem env.unlinks env.links env.rmdir_ok env.snapshots_root r live d.content
            d.snapshots k unlinks canonical hex,
      )

  after_delete-IsRemoved :
      (r : ImageRecord) (d d' : Disk) (k : Digest) (db_ok : Bool)
      → All IsCanonical (referenced_blobs r)
      → IsHex k.hex
      → after_delete env r d (delete db_ok image env.namespace r.image_id d.metadata) ≡ (ok tt, d')
      → IsRemoved env r d k d'
  unfolding delete
  after_delete-IsRemoved r d d' k false canonical hex h = absurd (err_ne_ok (ap (λ q. q.0) h))
  after_delete-IsRemoved r d d' k true canonical hex h =
      reclaimed-IsRemoved r _ d' k _ refl (get-delete_same r.image_id d.metadata) canonical hex h

  -- A removal that succeeds, of a key that an image answers to: behind it no image is found under
  -- that image's id, and the blob of a well-formed digest is gone exactly if the image referenced it
  -- and no image that is still listed does; every other blob is there with its content.
  -- Conditions: reads of the database and the removal of files succeed, the digest strings of the
  -- record are canonical, and the namespace has no slash.
  pub remove_image-IsRemoved :
      (key : Bytes) (r : ImageRecord) (d d' : Disk) (k : Digest)
      → find_image env key d.metadata ≡ ok (some r)
      → All IsCanonical (referenced_blobs r)
      → IsHex k.hex
      → remove_image env (some key) d ≡ (ok tt, d')
      → IsRemoved env r d k d'
  unfolding remove_image
  remove_image-IsRemoved key r d d' k found canonical hex h =
      after_delete-IsRemoved r d d' k env.deletes_ok canonical hex
        (sym (ap (removed_found env d) found) ∙ h)
