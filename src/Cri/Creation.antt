-- ===== src/Cri/Creation.antt =====
-- crates/cri/src/server.rs: `create_container`, with the unpacking of the image, the bundle and the
-- record. `Builder` holds what it uses beyond the other calls.
pub mod Request
pub mod Checks
pub mod Created
use containerd_rs.Base.{
  ℕ, List, [], ◌∷◌, ◌++◌, Bytes, text, Bool, not, ◌&&◌, ◌||◌, Option, none, some, Result, ok, err,
  ◌>>=◌, if◌then◌else◌, str_eq, and_some, map_some, unwrap_or, decimal,
}
use containerd_rs.CoreTypes.{Digest, from_str}
use containerd_rs.CoreTypes
use containerd_rs.Content
use containerd_rs.Snapshots.Diff.{Compression, detect}
use containerd_rs.Metadata.Records.{ImageRecord, SandboxRecord}
use containerd_rs.Metadata.Store.{Store, Error, image, list}
use containerd_rs.Images.Gc.{contains}
use containerd_rs.Runtime.Bundle.Request.{ImageConfig, IdMapping, ContainerRequest}
use containerd_rs.Runtime.Bundle.Request as BundleRequest
use containerd_rs.Runtime.Bundle.Spec.{Spec}
use containerd_rs.Runtime.Bundle.Generate.{generate_spec}
use containerd_rs.Runtime.Bundle.Generate
use containerd_rs.Cri.References.{normalize_image_ref}
use containerd_rs.Cri.Convert.{given, is_absolute, join_path}
use containerd_rs.Cri.Service.{
  Status, invalid_argument, internal, created_event, Env, World, internal_of, or_missing,
  read_sandbox, put_container, written, emit_ok, gen_id, bundle_dir,
}
use containerd_rs.Cri.Creation.Request.{
  ContainerConfig, Facts, no_name, check_config, container_request, new_container,
}

-- `OciConfigInner`
pub record OciConfigInner : Type 0 where
  pub env : List Bytes
  pub entrypoint : List Bytes
  pub cmd : List Bytes
  pub working_dir : Bytes
  pub user : Bytes

abbrev pub no_image_config : ImageConfig
no_image_config = record { env = []; entrypoint = []; cmd = []; working_dir = none; user = none }

abbrev pub image_config : OciConfigInner → ImageConfig
image_config oci = record {
  env = oci.env;
  entrypoint = oci.entrypoint;
  cmd = oci.cmd;
  working_dir = given oci.working_dir;
  user = given oci.user;
}

-- Beyond `Env`: the JSON of images, the content store, the unpacking of a layer in a directory, the
-- change of owners, and the files of the bundle; `spec_host` is what `generate_spec` uses.
pub record Builder (env : Env) : Type 1 where
  pub image_to_vec : ImageRecord → Result Error Bytes
  pub image_from_slice : Bytes → Result Error ImageRecord
  pub parse_oci : Bytes → Option OciConfigInner
  pub facts : env.Host → Facts
  pub content : env.Host → Content.Store
  pub apply_layer : Bytes → Bytes → Compression → env.Host → Result Bytes Unit × env.Host
  pub chown_tree : Bytes → ℕ → ℕ → env.Host → Result Bytes Unit × env.Host
  pub spec_host : Generate.Host
  pub files : env.Host → spec_host.Files
  pub with_files : spec_host.Files → env.Host → env.Host
  pub bundle_error : BundleRequest.Error → Bytes
  pub digest_error : CoreTypes.Error → Bytes
  pub content_error : Content.Error → Bytes
  pub write_bundle : Bytes → Spec → env.Host → Result Bytes Unit × env.Host
  pub touch : Bytes → env.Host → env.Host

-- Whether a record answers to the reference of a container's image.
unfoldable pub names_image : Bytes → Bytes → ImageRecord → Bool
unfolding contains str_eq
names_image reference nref r =
    str_eq r.image_id reference
    || contains r.repo_tags reference
    || contains r.repo_tags nref
    || contains r.repo_digests reference
    || str_eq r.name reference

unfoldable pub find_named : Bytes → Bytes → List ImageRecord → Option ImageRecord
unfolding names_image
find_named reference nref [] = none
find_named reference nref (r ∷ rs) =
    let rest = find_named reference nref rs in if names_image reference nref r then some r else rest

abbrev pub image_id_of : Option ImageRecord → Bytes
image_id_of none = []
image_id_of (some r) = r.image_id

abbrev pub layers_of : Option ImageRecord → List Bytes
layers_of none = []
layers_of (some r) = r.layer_digests

abbrev pub to_option : {E A : Type 0} → Result E A → Option A
to_option (err e) = none
to_option (ok a) = some a

module _ (env : Env) (builder : Builder env) where
  open env use {Host, namespace, reads_ok, unix_nanos, create_dir_all}
  open builder use {
    image_to_vec, image_from_slice, parse_oci, facts, content, apply_layer, chown_tree, spec_host,
    files, with_files, bundle_error, digest_error, content_error, write_bundle, touch,
  }

  -- `RuntimeSvc::find_image`
  abbrev pub named : Bytes → Result Status (List ImageRecord) → Result Status (Option ImageRecord)
  named reference (err e) = err e
  named reference (ok all) = ok (find_named reference (normalize_image_ref reference) all)

  unfoldable pub find_image : Bytes → Store → Result Status (Option ImageRecord)
  unfolding find_named normalize_image_ref
  find_image reference s =
      named reference
        (internal_of env (list image_to_vec image_from_slice reads_ok image namespace s))

  -- `parse_image_config`
  unfoldable pub parse_image_config : Bytes → Host → ImageConfig
  unfolding from_str Content.read
  parse_image_config id h = unwrap_or no_image_config (
      map_some image_config (
        and_some (to_option (from_str id))
          (λ d. and_some (to_option (Content.read (content h) d)) parse_oci)))

  -- One layer, and the loop of `unpack_rootfs`.
  abbrev pub layer_applied : Bytes → Result Bytes Unit × Host → Result Status Unit × Host
  layer_applied ld (err e, h) =
      (err (internal (text "unpack layer " ++ (ld ++ (text ": " ++ e)))), h)
  layer_applied ld (ok done, h) = (ok tt, h)

  abbrev pub layer_read :
      Bytes → Bytes → Host → Result Content.Error Bytes → Result Status Unit × Host
  layer_read rootfs ld h (err e) =
      (err (internal (text "read layer " ++ (ld ++ (text ": " ++ content_error e)))), h)
  layer_read rootfs ld h (ok bytes) = layer_applied ld (apply_layer rootfs bytes (detect bytes) h)

  abbrev pub layer_parsed :
      Bytes → Bytes → Host → Result CoreTypes.Error Digest → Result Status Unit × Host
  layer_parsed rootfs ld h (err e) =
      (err (internal (text "bad layer digest " ++ (ld ++ (text ": " ++ digest_error e)))), h)
  layer_parsed rootfs ld h (ok d) = layer_read rootfs ld h (Content.read (content h) d)

  abbrev pub and_more :
      Result Status Unit × Host → (Host → Result Status Unit × Host) → Result Status Unit × Host
  and_more (err e, h) more = (err e, h)
  and_more (ok done, h) more = more h

  -- `unpack_rootfs`
  unfoldable pub unpack_rootfs : List Bytes → Bytes → Host → Result Status Unit × Host
  unfolding from_str Content.read detect
  unpack_rootfs [] rootfs h = (ok tt, h)
  unpack_rootfs (ld ∷ lds) rootfs h =
      and_more (layer_parsed rootfs ld h (from_str ld)) (unpack_rootfs lds rootfs)

  abbrev pub as_internal : Bytes → Result Bytes Unit × Host → Result Status Unit × Host
  as_internal note (err e, h) = (err (internal (note ++ e)), h)
  as_internal note (ok done, h) = (ok tt, h)

  -- The owner of the rootfs in a user namespace: that of the first mappings.
  abbrev pub gid_base : IdMapping → List IdMapping → ℕ
  gid_base base [] = base.host_id
  gid_base base (m ∷ ms) = m.host_id

  abbrev pub owned : List IdMapping → List IdMapping → Bytes → Host → Result Status Unit × Host
  owned [] gids rootfs h = (ok tt, h)
  owned (base ∷ uids) gids rootfs h =
      as_internal (text "chown rootfs for userns: ")
        (chown_tree rootfs base.host_id (gid_base base gids) h)

  -- The specification, and its file.
  abbrev pub generated :
      Bytes → Host → Result BundleRequest.Error Spec × spec_host.Files → Result Status Unit × Host
  generated dir h (err e, fs) = (err (internal (bundle_error e)), with_files fs h)
  generated dir h (ok spec, fs) = as_internal [] (write_bundle dir spec (with_files fs h))

  -- Building the bundle: the directory, the layers, their owner and the specification.
  unfoldable pub build_bundle :
      Bytes → ImageConfig → List Bytes → ContainerRequest → Host → Result Status Unit × Host
  unfolding unpack_rootfs generate_spec
  build_bundle dir cfg layers req h =
      let rootfs = join_path dir (text "rootfs") in
      and_more
        (and_more
          (and_more (as_internal [] (create_dir_all rootfs h)) (unpack_rootfs layers rootfs))
          (owned req.userns_uid_mappings req.userns_gid_mappings rootfs))
        (λ h'. generated dir h' (generate_spec spec_host cfg req rootfs (files h')))

  -- The log file is made where its path is absolute.
  abbrev pub touched : Bytes → Host → Host
  touched log_path h = if is_absolute log_path then touch log_path h else h

  abbrev pub with_id : Bytes → Result Status Unit × World env → Result Status Bytes × World env
  with_id id (err e, w) = (err e, w)
  with_id id (ok done, w) = (ok id, w)

  abbrev pub recorded :
      Bytes
      → Bytes
      → SandboxRecord
      → Bytes
      → ContainerConfig
      → World env
      → Result Status Unit × Host
      → Result Status Bytes × World env
  recorded id sandbox_id sandbox image_id c w (err e, h) = (err e, record w { host = h })
  recorded id sandbox_id sandbox image_id c w (ok done, h) =
      let r = new_container id sandbox_id sandbox image_id (unix_nanos h) c in
      with_id id (
        emit_ok env id created_event
          (written env (record w { host = touched r.log_path h }) (put_container env id r w.store)))

  abbrev pub checked :
      Bytes
      → Bytes
      → SandboxRecord
      → Option ImageRecord
      → ContainerConfig
      → World env
      → Result Status Unit
      → Result Status Bytes × World env
  checked id sandbox_id sandbox found c w (err e) = (err e, w)
  checked id sandbox_id sandbox found c w (ok done) =
      recorded id sandbox_id sandbox (image_id_of found) c w (
        build_bundle (bundle_dir env id) (parse_image_config (image_id_of found) w.host)
          (layers_of found) (container_request (facts w.host) id sandbox c) w.host)

  abbrev pub with_image :
      Bytes
      → SandboxRecord
      → ContainerConfig
      → World env
      → Result Status (Option ImageRecord)
      → Result Status Bytes × World env
  with_image sandbox_id sandbox c w (err e) = (err e, w)
  with_image sandbox_id sandbox c w (ok found) =
      let meta = unwrap_or no_name c.metadata in
      let seed = sandbox_id ++ (b'/' ∷ (meta.name ++ (b'/' ∷ decimal meta.attempt))) in
      checked (gen_id env seed w.host) sandbox_id sandbox found c w (check_config c)

  abbrev pub configured :
      Bytes → SandboxRecord → Option ContainerConfig → World env → Result Status Bytes × World env
  configured sandbox_id sandbox none w =
      (err (invalid_argument (text "container config required")), w)
  configured sandbox_id sandbox (some c) w =
      with_image sandbox_id sandbox c w (find_image (unwrap_or [] c.image) w.store)

  abbrev pub in_sandbox :
      Bytes
      → Option ContainerConfig
      → World env
      → Result Status SandboxRecord
      → Result Status Bytes × World env
  in_sandbox sandbox_id config w (err e) = (err e, w)
  in_sandbox sandbox_id config w (ok sandbox) = configured sandbox_id sandbox config w

  -- `create_container`
  unfoldable pub create_container :
      Bytes → Option ContainerConfig → World env → Result Status Bytes × World env
  unfolding read_sandbox find_image parse_image_config gen_id check_config container_request
      new_container build_bundle put_container decimal
  create_container sandbox_id config w = in_sandbox sandbox_id config w (
      or_missing env (text "sandbox " ++ (sandbox_id ++ text " not found"))
        (internal_of env (read_sandbox env sandbox_id w.store)))
