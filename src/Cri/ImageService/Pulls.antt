-- ===== src/Cri/ImageService/Pulls.antt =====
-- crates/cri/src/server.rs: what is found of an image behind a pull.
use containerd_rs.Base.{
  ◌≡◌, refl, ap, sym, subst, List, [], ◌∷◌, ◌++◌, Bytes, Bool, true, false, ◌||◌, Option, none,
  some, Result, ok, err, str_eq_refl, unwrap_or, arith, err_ne_ok, ok-injective, Lacks, ◌∙◌,
  map_some, if_true, if_false,
}
use containerd_rs.CoreTypes.{Digest, display}
use containerd_rs.Content
use containerd_rs.Snapshots.Files.{Fs}
use containerd_rs.Metadata.Records.{ImageRecord}
use containerd_rs.Metadata.Store.{image, Store, Error, get, put, put_bytes}
use containerd_rs.Metadata.Store.Isolation.{IsNamespace, get-put}
use containerd_rs.Images.Gc.{contains}
use containerd_rs.Images.Credentials.{anonymous}
use containerd_rs.Cri.References.{is_digest_ref, repo_name, normalize_image_ref}
use containerd_rs.Cri.Service.{Status}
use containerd_rs.Cri.ImageService.{
  PulledImage, AuthConfig, Disk, Env, push_new, tag_ref, digest_ref, new_record, aggregated,
  internal_of, or_listed, find_image, find_image_by_id, put_status, recorded, after_pull,
  pull_image, auth_from_config,
}

abbrev pub ContainsAll : List Bytes → List Bytes → Type 0
ContainsAll l l' = (x : Bytes) → contains l x ≡ true → contains l' x ≡ true

abbrev pub Holds : List Bytes → Option Bytes → Type 0
Holds l none = Unit
Holds l (some x) = contains l x ≡ true

contains-append :
    (l m : List Bytes) (x : Bytes) → contains (l ++ m) x ≡ (contains l x || contains m x)
unfolding contains
contains-append [] m x = refl
contains-append (y ∷ l) m x = ground (arith, contains-append l m x)

push_new-keeps : (o : Option Bytes) (l : List Bytes) → ContainsAll l (push_new o l)
unfolding push_new
push_new-keeps none l x h = h
push_new-keeps (some y) l x h = ground (arith, contains-append l (y ∷ []) x)

push_new-Holds : (o : Option Bytes) (l : List Bytes) → Holds (push_new o l) o
unfolding push_new contains
push_new-Holds none l = tt
push_new-Holds (some y) l = ground (arith, contains-append l (y ∷ []) y, str_eq_refl y)

-- A reference without an `@` is no digest reference.
abbrev pub HasNoAt : Bytes → Type 0
HasNoAt reference = Lacks b'@' reference

is_digest_ref-HasNoAt : (s : Bytes) → HasNoAt s → is_digest_ref s ≡ false
unfolding is_digest_ref
is_digest_ref-HasNoAt [] h = refl
is_digest_ref-HasNoAt (b ∷ s) (h, hs) = rw (h, is_digest_ref-HasNoAt s hs) refl

is_digest_ref_at : (front back : Bytes) → is_digest_ref (front ++ (b'@' ∷ back)) ≡ true
unfolding is_digest_ref
is_digest_ref_at [] back = refl
is_digest_ref_at (b ∷ front) back = ground (arith, is_digest_ref_at front back)

tag_ref_plain :
    (reference : Bytes)
    → is_digest_ref reference ≡ false
    → tag_ref reference ≡ some (normalize_image_ref reference)
unfolding tag_ref
tag_ref_plain reference h = if_false _ _ (is_digest_ref reference) h

digest_ref_plain :
    (reference : Bytes) (pulled : PulledImage) (d : Digest)
    → is_digest_ref reference ≡ false
    → pulled.manifest_digest ≡ some d
    → digest_ref reference pulled ≡ some (repo_name reference ++ (b'@' ∷ display d))
unfolding digest_ref
digest_ref_plain reference pulled d h e =
    if_false _ _ (is_digest_ref reference) h
    ∙ ap (map_some (λ d'. repo_name reference ++ (b'@' ∷ display d'))) e

digest_ref_at :
    (reference : Bytes) (pulled : PulledImage)
    → is_digest_ref reference ≡ true
    → digest_ref reference pulled ≡ some reference
unfolding digest_ref
digest_ref_at reference pulled h = if_true _ _ (is_digest_ref reference) h

-- What a record says of an image behind a pull of a reference: the tag of one by tag with the digest
-- of its manifest, and that of one by digest.
abbrev pub IsPulled : Bytes → PulledImage → ImageRecord → ImageRecord → Type 0
IsPulled reference pulled old r =
    (HasNoAt reference → contains r.repo_tags (normalize_image_ref reference) ≡ true)
    × ((d : Digest)
        → HasNoAt reference
        → pulled.manifest_digest ≡ some d
        → contains r.repo_digests (repo_name reference ++ (b'@' ∷ display d)) ≡ true)
    × ((front back : Bytes)
        → reference ≡ front ++ (b'@' ∷ back)
        → contains r.repo_digests reference ≡ true)
    × ContainsAll old.repo_tags r.repo_tags
    × ContainsAll old.repo_digests r.repo_digests

aggregated-IsPulled :
    (reference : Bytes) (pulled : PulledImage) (old : ImageRecord)
    → IsPulled reference pulled old (aggregated reference pulled old)
unfolding aggregated
aggregated-IsPulled reference pulled old = (
  λ plain.
      rw (tag_ref_plain reference (is_digest_ref-HasNoAt reference plain))
        (push_new-Holds (some (normalize_image_ref reference)) old.repo_tags),
  λ d plain known.
      rw (digest_ref_plain reference pulled d (is_digest_ref-HasNoAt reference plain) known)
        (push_new-Holds (some (repo_name reference ++ (b'@' ∷ display d))) old.repo_digests),
  λ front back e.
      rw (digest_ref_at reference pulled (ap is_digest_ref e ∙ is_digest_ref_at front back))
        (push_new-Holds (some reference) old.repo_digests),
  push_new-keeps (tag_ref reference) old.repo_tags,
  push_new-keeps (digest_ref reference pulled) old.repo_digests,
)

-- The record that a pull leaves under an id.
abbrev pub Leaves : Env → Bytes → PulledImage → Store → Bytes → Store → Type 0
Leaves env reference pulled s id s' =
    (previous : Option ImageRecord) × (r : ImageRecord) × (find_image_by_id env id s ≡ ok previous)
    × (find_image env id s' ≡ ok (some r))
    × IsPulled reference pulled (unwrap_or (new_record reference pulled) previous) r

module _ (env : Env) (ns : IsNamespace env.namespace) (reads : env.reads_ok ≡ true)
    (round_trip : (r : ImageRecord) (bytes : Bytes)
      → env.to_vec r ≡ ok bytes
      → env.from_slice bytes ≡ ok r) where
  put_status_ok :
      (pulled : PulledImage) (d d' : Disk) (db_ok : Bool) (id k : Bytes) (v : ImageRecord)
      (vec : Result Error Bytes)
      → env.to_vec v ≡ vec
      → put_status env pulled d (put_bytes env.to_vec env.from_slice db_ok image k vec d.metadata)
        ≡ (ok id, d')
      → (bytes : Bytes) × (vec ≡ ok bytes)
        × (db_ok ≡ true)
        × (display pulled.image_id ≡ id)
        × (d' ≡ record d {
          metadata = (put_bytes env.to_vec env.from_slice true image k vec d.metadata).1;
        })
  put_status_ok pulled d d' db_ok id k v (err e) vec h = absurd (err_ne_ok (ap (λ q. q.0) h))
  put_status_ok pulled d d' false id k v (ok bytes) vec h = absurd (err_ne_ok (ap (λ q. q.0) h))
  put_status_ok pulled d d' true id k v (ok bytes) vec h =
      (bytes, refl, refl, ok-injective (ap (λ q. q.0) h), sym (ap (λ q. q.1) h))

  get-put_same :
      (id : Bytes) (v : ImageRecord) (bytes : Bytes) (s : Store)
      → env.to_vec v ≡ ok bytes
      → get env.to_vec env.from_slice env.reads_ok image env.namespace id
          (put env.to_vec env.from_slice true image env.namespace id v s).1
        ≡ ok (some v)
  get-put_same id v bytes s vec =
      rw
        (
          reads,
          get-put env.to_vec env.from_slice image env.namespace env.namespace ns ns id id v bytes s
              vec (round_trip v bytes vec),
          str_eq_refl env.namespace,
          str_eq_refl id,
        )
        refl

  recorded-Leaves :
      (reference : Bytes) (pulled : PulledImage) (d d' : Disk) (id : Bytes)
      (found : Result Status (Option ImageRecord))
      → find_image_by_id env (display pulled.image_id) d.metadata ≡ found
      → recorded env reference pulled d found ≡ (ok id, d')
      → Leaves env reference pulled d.metadata id d'.metadata
  unfolding find_image put
  recorded-Leaves reference pulled d d' id (err e) found h = absurd (err_ne_ok (ap (λ q. q.0) h))
  recorded-Leaves reference pulled d d' id (ok previous) found h =
      let old = unwrap_or (new_record reference pulled) previous in
      let v = aggregated reference pulled old in
      let k = display pulled.image_id in
      let (bytes, vec, works, same, disk) =
        put_status_ok pulled d d' env.puts_ok id _ v (env.to_vec v) refl h in
      (
        previous,
        v,
        subst (λ i. find_image_by_id env i d.metadata ≡ ok previous) same found,
        subst (λ i. find_image env i d'.metadata ≡ ok (some v)) same
            (subst (λ s. find_image env k s ≡ ok (some v)) (sym (ap (λ q. q.metadata) disk))
              (ap
                (λ g.
                  or_listed env k
                    (put env.to_vec env.from_slice true image env.namespace k v d.metadata).1
                    (internal_of env g))
                (get-put_same k v bytes d.metadata vec))),
        aggregated-IsPulled reference pulled old,
      )

  after_pull-Leaves :
      (reference : Bytes) (s : Store) (d' : Disk) (id : Bytes)
      (answer : Result env.PullError PulledImage × (Content.Store × Fs))
      → after_pull env reference s answer ≡ (ok id, d')
      → (pulled : PulledImage) × (answer.0 ≡ ok pulled)
        × Leaves env reference pulled s id d'.metadata
  after_pull-Leaves reference s d' id (err e, (content, fs)) h =
      absurd (err_ne_ok (ap (λ q. q.0) h))
  after_pull-Leaves reference s d' id (ok pulled, (content, fs)) h = (
    pulled,
    refl,
    recorded-Leaves reference pulled _ d' id (find_image_by_id env (display pulled.image_id) s) refl
        h,
  )

  -- A pull that is answered with an id had an answer of the registry, and it leaves an image that is
  -- found by that id. Its record has every tag and digest that the record under the id had before.
  -- Of a reference without an `@` it has the normal form among its tags, and where the answer has a
  -- manifest digest the repository's name with it among its digests; a reference with an `@` is among
  -- its digests. Conditions: reads of the database succeed, a record that is written is read back as
  -- it was, and the namespace has no slash.
  pub pull_image-Leaves :
      (reference : Bytes) (config : Option AuthConfig) (d d' : Disk) (id : Bytes)
      → pull_image env (some reference) config d ≡ (ok id, d')
      → (pulled : PulledImage) × ((env.pull reference
            (env.resolve_auth reference
              (unwrap_or anonymous (map_some (auth_from_config env) config)))
            (d.content, d.snapshots)).0
          ≡ ok pulled)
        × Leaves env reference pulled d.metadata id d'.metadata
  unfolding pull_image
  pull_image-Leaves [] config d d' id h = absurd (err_ne_ok (ap (λ q. q.0) h))
  pull_image-Leaves (b ∷ bs) config d d' id h =
      let (pulled, answered, leaves) = after_pull-Leaves (b ∷ bs) d.metadata d' id _ h in
      (pulled, answered, leaves)
