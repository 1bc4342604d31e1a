-- ===== src/Cri/ImageService.antt =====
-- crates/cri/src/server.rs: the image service, over the metadata store, the content store and the
-- tree of the snapshots. The messages of a status are kept as the texts of its cause.
pub mod Pulls
pub mod Removal
use containerd_rs.Base.{
  ℕ, zero, suc, ◌+◌, ◌-◌, ◌*◌, ◌^◌, ℤ, pos, negsuc, List, [], ◌∷◌, ◌++◌, map, Bytes, text, Bool,
  not, ◌&&◌, ◌||◌, Option, none, some, Result, ok, err, if◌then◌else◌, ltb, ◌==◌, str_eq, is_nil,
  unwrap_or, and_some, map_some, split_once, some_digits,
}
use containerd_rs.CoreTypes.{Digest, display}
use containerd_rs.Content.{Io}
use containerd_rs.Content
use containerd_rs.Snapshots.Paths.{PathBuf}
use containerd_rs.Snapshots.Files.{Names, Fs}
use containerd_rs.Metadata.Records.{ImageRecord}
use containerd_rs.Metadata.Store.{image, Store, Error, get, list, put, delete}
use containerd_rs.Images.Gc.{contains, reclaim}
use containerd_rs.Images.Pull.{PulledImage}
use containerd_rs.Images.Credentials.{Auth, anonymous, basic, bearer, first_part}
use containerd_rs.Cri.References.{is_digest_ref, repo_name, normalize_image_ref}
use containerd_rs.Cri.Service.{Status, invalid_argument, unauthenticated, internal}

-- `v1::AuthConfig`, as far as it is read.
pub record AuthConfig : Type 0 where
  pub identity_token : Bytes
  pub registry_token : Bytes
  pub username : Bytes
  pub password : Bytes
  pub auth : Bytes

-- `v1::Image`, as far as it is filled.
pub record Image : Type 0 where
  pub id : Bytes
  pub repo_tags : List Bytes
  pub repo_digests : List Bytes
  pub size : ℕ
  pub uid : Option ℤ
  pub username : Bytes

-- `u.parse::<i64>()`
abbrev pub as_positive : Option ℕ → Option ℤ
as_positive none = none
as_positive (some n) = if ltb n (2 ^ 63) then some (pos n) else none

abbrev pub as_negative : Option ℕ → Option ℤ
as_negative none = none
as_negative (some zero) = some (pos 0)
as_negative (some (suc n)) = if ltb n (2 ^ 63) then some (negsuc n) else none

unfoldable pub parse_i64 : Bytes → Option ℤ
parse_i64 [] = none
parse_i64 (b ∷ bs) =
    if b == b'-'
    then as_negative (some_digits bs)
    else if b == b'+'
    then as_positive (some_digits bs)
    else as_positive (some_digits (b ∷ bs))

abbrev pub user_of_parsed : Bytes → Option ℤ → Option ℤ × Bytes
user_of_parsed u none = (none, u)
user_of_parsed u (some n) = (some n, [])

-- The match on the user's first part.
unfoldable pub image_user : Bytes → Option ℤ × Bytes
unfolding parse_i64
image_user [] = (none, [])
image_user (b ∷ bs) = user_of_parsed (b ∷ bs) (parse_i64 (b ∷ bs))

-- `record_to_image`
unfoldable pub record_to_image : ImageRecord → Image
unfolding image_user split_once
record_to_image r =
    let (uid, username) = image_user (first_part r.user (split_once b':' r.user)) in
    record {
      id = r.image_id;
      repo_tags = r.repo_tags;
      repo_digests = r.repo_digests;
      size = r.size;
      uid = uid;
      username = username;
    }

-- Whether a record answers to a key, or to its form with a tag.
unfoldable pub answers : Bytes → Bytes → ImageRecord → Bool
unfolding contains
answers key nkey r =
    str_eq r.image_id key
    || contains r.repo_tags key
    || contains r.repo_tags nkey
    || contains r.repo_digests key

unfoldable pub find_first : Bytes → Bytes → List ImageRecord → Option ImageRecord
unfolding answers
find_first key nkey [] = none
find_first key nkey (r ∷ rs) =
    let rest = find_first key nkey rs in if answers key nkey r then some r else rest

-- `if !v.contains(x) { v.push(x) }`, of an optional `x`.
unfoldable pub push_new : Option Bytes → List Bytes → List Bytes
unfolding contains
push_new none l = l
push_new (some x) l = if contains l x then l else l ++ x ∷ []

-- `repo_name(reference)@digest`
abbrev pub at_digest : Bytes → Digest → Bytes
at_digest reference d = repo_name reference ++ (b'@' ∷ display d)

unfoldable pub digest_ref : Bytes → PulledImage → Option Bytes
unfolding is_digest_ref repo_name
digest_ref reference pulled =
    if is_digest_ref reference
    then some reference
    else map_some (at_digest reference) pulled.manifest_digest

unfoldable pub tag_ref : Bytes → Option Bytes
unfolding is_digest_ref normalize_image_ref
tag_ref reference = if is_digest_ref reference then none else some (normalize_image_ref reference)

-- The record of an image that is not there yet.
unfoldable pub new_record : Bytes → PulledImage → ImageRecord
unfolding tag_ref
new_record reference pulled = record {
  name = unwrap_or reference (tag_ref reference);
  target_digest = unwrap_or [] (map_some display pulled.manifest_digest);
  image_id = display pulled.image_id;
  repo_tags = [];
  repo_digests = [];
  size = pulled.size;
  layer_digests = map display pulled.layer_digests;
  chain_ids = map display pulled.chain_ids;
  user = pulled.user;
}

-- The record with the reference of this pull.
unfoldable pub aggregated : Bytes → PulledImage → ImageRecord → ImageRecord
unfolding push_new tag_ref digest_ref
aggregated reference pulled r = record r {
  repo_tags = push_new (tag_ref reference) r.repo_tags;
  repo_digests = push_new (digest_ref reference pulled) r.repo_digests;
}

-- What the service works on.
pub record Disk : Type 0 where
  pub metadata : Store
  pub content : Content.Store
  pub snapshots : Fs

-- What the service uses: the JSON of the records, the pull itself, and the daemon's settings. The
-- flags say which calls of the database succeed: the reads, the writes and the deletions.
pub record Env : Type 1 where
  pub PullError : Type 0
  pub namespace : Bytes
  pub to_vec : ImageRecord → Result Error Bytes
  pub from_slice : Bytes → Result Error ImageRecord
  pub error_text : Error → Bytes
  pub resolve_auth : Bytes → Auth → Auth
  pub pull : Bytes → Auth → Content.Store × Fs → Result PullError PulledImage × (Content.Store × Fs)
  pub is_auth_error : PullError → Bool
  pub pull_error_text : PullError → Bytes
  pub decode_trimmed : Bytes → Option Bytes
  pub from_utf8 : Bytes → Option Bytes
  pub reads_ok : Bool
  pub puts_ok : Bool
  pub deletes_ok : Bool
  pub unlinks : Digest → Io
  pub links : ℕ
  pub rmdir_ok : Names → Bool
  pub snapshots_root : PathBuf

module _ (env : Env) where
  open env use {
    PullError, namespace, to_vec, from_slice, error_text, resolve_auth, pull, is_auth_error,
    pull_error_text, decode_trimmed, from_utf8, reads_ok, puts_ok, deletes_ok, unlinks, links,
    rmdir_ok, snapshots_root,
  }

  abbrev pub internal_of : {A : Type 0} → Result Error A → Result Status A
  internal_of (ok a) = ok a
  internal_of (err e) = err (internal (error_text e))

  -- `auth_from_config`
  abbrev pub basic_or : Option (Bytes × Bytes) → Auth
  basic_or none = anonymous
  basic_or (some (u, p)) = basic u p

  unfoldable pub decoded_auth : Bytes → Auth
  unfolding split_once
  decoded_auth auth =
      basic_or
        (and_some (decode_trimmed auth) (λ bytes. and_some (from_utf8 bytes) (split_once b':')))

  unfoldable pub auth_from_config : AuthConfig → Auth
  unfolding decoded_auth
  auth_from_config a =
      if not (is_nil a.identity_token)
      then bearer a.identity_token
      else if not (is_nil a.registry_token)
      then bearer a.registry_token
      else if not (is_nil a.username)
      then basic a.username a.password
      else if not (is_nil a.auth)
      then decoded_auth a.auth
      else anonymous

  abbrev pub found_first :
      Bytes → Result Status (List ImageRecord) → Result Status (Option ImageRecord)
  found_first key (err e) = err e
  found_first key (ok all) = ok (find_first key (normalize_image_ref key) all)

  -- What `find_image` goes on with behind the direct read.
  abbrev pub or_listed :
      Bytes → Store → Result Status (Option ImageRecord) → Result Status (Option ImageRecord)
  or_listed key s (err e) = err e
  or_listed key s (ok (some r)) = ok (some r)
  or_listed key s (ok none) =
      found_first key (internal_of (list to_vec from_slice reads_ok image namespace s))

  -- `find_image`
  unfoldable pub find_image : Bytes → Store → Result Status (Option ImageRecord)
  unfolding find_first normalize_image_ref
  find_image key s =
      or_listed key s (internal_of (get to_vec from_slice reads_ok image namespace key s))

  -- `find_image_by_id`
  unfoldable pub find_image_by_id : Bytes → Store → Result Status (Option ImageRecord)
  find_image_by_id id s = internal_of (get to_vec from_slice reads_ok image namespace id s)

  -- Writing the record, at the end of a pull.
  abbrev pub put_status :
      PulledImage → Disk → Result Error Unit × Store → Result Status Bytes × Disk
  put_status pulled d (err e, s) = (err (internal (error_text e)), record d { metadata = s })
  put_status pulled d (ok done, s) = (ok (display pulled.image_id), record d { metadata = s })

  abbrev pub recorded :
      Bytes → PulledImage → Disk → Result Status (Option ImageRecord) → Result Status Bytes × Disk
  recorded reference pulled d (err e) = (err e, d)
  recorded reference pulled d (ok old) = put_status pulled d (
      put to_vec from_slice puts_ok image namespace (display pulled.image_id)
        (aggregated reference pulled (unwrap_or (new_record reference pulled) old)) d.metadata)

  abbrev pub pull_status : Bytes → PullError → Status
  pull_status reference e =
      if is_auth_error e
      then unauthenticated (
          text "pull "
          ++ (reference ++ (text ": registry authentication failed: " ++ pull_error_text e)))
      else internal (text "pull " ++ (reference ++ (text " failed: " ++ pull_error_text e)))

  abbrev pub after_pull :
      Bytes
      → Store
      → Result PullError PulledImage × (Content.Store × Fs)
      → Result Status Bytes × Disk
  after_pull reference s (err e, (content, fs)) =
      (err (pull_status reference e), record { metadata = s; content = content; snapshots = fs })
  after_pull reference s (ok pulled, (content, fs)) =
      recorded reference pulled (record { metadata = s; content = content; snapshots = fs })
        (find_image_by_id (display pulled.image_id) s)

  -- `pull_image`, which runs alone among the pulls of its reference.
  unfoldable pub pull_image : Option Bytes → Option AuthConfig → Disk → Result Status Bytes × Disk
  unfolding find_image_by_id aggregated new_record auth_from_config
  pull_image none config d = (err (invalid_argument (text "image reference required")), d)
  pull_image (some []) config d = (err (invalid_argument (text "image reference required")), d)
  pull_image (some (b ∷ bs)) config d =
      let auth = resolve_auth (b ∷ bs) (unwrap_or anonymous (map_some auth_from_config config)) in
      after_pull (b ∷ bs) d.metadata (pull (b ∷ bs) auth (d.content, d.snapshots))

  abbrev pub map_ok : {A B : Type 0} → (A → B) → Result Status A → Result Status B
  map_ok f (err e) = err e
  map_ok f (ok a) = ok (f a)

  -- `list_images`
  unfoldable pub list_images : Disk → Result Status (List Image)
  unfolding record_to_image
  list_images d =
      map_ok (map record_to_image)
        (internal_of (list to_vec from_slice reads_ok image namespace d.metadata))

  -- `image_status`
  unfoldable pub image_status : Option Bytes → Disk → Result Status (Option Image)
  unfolding find_image record_to_image
  image_status key d = map_ok (map_some record_to_image) (find_image (unwrap_or [] key) d.metadata)

  -- Reclaiming what the removed record referenced.
  abbrev pub reclaimed :
      ImageRecord → Disk → Result Status (List ImageRecord) → Result Status Unit × Disk
  reclaimed r d (err e) = (err e, d)
  reclaimed r d (ok live) =
      let (report, (content, fs)) =
        reclaim unlinks links rmdir_ok snapshots_root r live (d.content, d.snapshots) in
      (ok tt, record d { content = content; snapshots = fs })

  abbrev pub after_delete :
      ImageRecord → Disk → Result Error Bool × Store → Result Status Unit × Disk
  after_delete r d (err e, s) = (err (internal (error_text e)), record d { metadata = s })
  after_delete r d (ok was, s) =
      reclaimed r (record d { metadata = s })
        (internal_of (list to_vec from_slice reads_ok image namespace s))

  abbrev pub removed_found : Disk → Result Status (Option ImageRecord) → Result Status Unit × Disk
  removed_found d (err e) = (err e, d)
  removed_found d (ok none) = (ok tt, d)
  removed_found d (ok (some r)) =
      after_delete r d (delete deletes_ok image namespace r.image_id d.metadata)

  -- `remove_image`
  unfoldable pub remove_image : Option Bytes → Disk → Result Status Unit × Disk
  unfolding find_image
  remove_image key d = removed_found d (find_image (unwrap_or [] key) d.metadata)
