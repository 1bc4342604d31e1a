-- ===== src/Cri/Creation/Created.antt =====
-- crates/cri/src/server.rs: what a created container is recorded and reported with.
use containerd_rs.Base.{
  ◌≡◌, refl, ap, ℕ, pos, List, [], ◌∷◌, map, Bytes, true, false, Option, none, some, Result, ok,
  err,
}
use containerd_rs.Metadata.Records.{ImageRecord, SandboxRecord, ContainerRecord}
use containerd_rs.Metadata.Store.{Store, Error}
use containerd_rs.Metadata.Store.Isolation.{IsNamespace}
use containerd_rs.Cri.Service.{
  Status, Env, World, internal_of, or_missing, read_sandbox, read_container, get_container, written,
  emit_ok, created_event,
}
use containerd_rs.Cri.Containers.Stored.{RoundTrips, Wrote, put_container-Wrote}
use containerd_rs.Cri.Answers.{container_status}
use containerd_rs.Cri.Answers.Messages.{ContainerStatus, status_of, mount_of}
use containerd_rs.Cri.Convert.{container_state_i32}
use containerd_rs.Cri.Creation.Request.{
  Mount, ContainerConfig, check_config, mount_record, new_container,
}
use containerd_rs.Cri.Creation.{
  Builder, recorded, checked, with_image, configured, in_sandbox, create_container, with_id,
  touched,
}

-- A mount of the request without what its record leaves out.
abbrev pub shown_mount : Mount → Mount
shown_mount m = record m {
  selinux_relabel = false;
  uid_mappings = [];
  gid_mappings = [];
  image = none;
  image_sub_path = [];
}

echoed_mounts : (ms : List Mount) → map mount_of (map mount_record ms) ≡ map shown_mount ms
unfolding mount_record
echoed_mounts [] = refl
echoed_mounts (m ∷ ms) = ap (λ l. shown_mount m ∷ l) (echoed_mounts ms)

-- What a status says of a container that has been created: its labels and annotations are those of
-- the request, and so are its mounts up to the fields that the record leaves out.
pub record Echoes (c : ContainerConfig) (id : Bytes) (s : ContainerStatus) : Type 0 where
  pub same_id : s.id ≡ id
  pub is_created : s.state ≡ pos 0
  pub same_mounts : s.mounts ≡ map shown_mount c.mounts
  pub same_labels : s.labels ≡ c.labels
  pub same_annotations : s.annotations ≡ c.annotations

new_container-Echoes :
    (id sandbox_id : Bytes) (sandbox : SandboxRecord) (image_id : Bytes) (now : ℕ)
    (c : ContainerConfig)
    → Echoes c id (status_of (new_container id sandbox_id sandbox image_id now c))
unfolding status_of new_container container_state_i32
new_container-Echoes id sandbox_id sandbox image_id now c = record {
  same_id = refl;
  is_created = refl;
  same_mounts = echoed_mounts c.mounts;
  same_labels = refl;
  same_annotations = refl;
}

module _ (env : Env) (builder : Builder env) where
  status_found :
      (id : Bytes) (r : ContainerRecord) (s : Store)
      → read_container env id s ≡ ok (some r)
      → container_status env id s ≡ ok (status_of r)
  unfolding container_status get_container
  status_found id r s h = rw h refl

  -- What a creation has done, by its answer.
  abbrev pub Creates :
      Bytes → Option ContainerConfig → World env → Result Status Bytes × World env → Type 0
  Creates sandbox_id config w (err e, w') = (w'.store ≡ w.store) × (w'.events ≡ w.events)
  Creates sandbox_id config w (ok id, w') =
      (c : ContainerConfig) × (sandbox : SandboxRecord) × (s : ContainerStatus) × (config ≡ some c)
      × (read_sandbox env sandbox_id w.store ≡ ok (some sandbox))
      × (check_config c ≡ ok tt)
      × (container_status env id w'.store ≡ ok s)
      × Echoes c id s

  module _ (ns : IsNamespace env.namespace) (reads : env.reads_ok ≡ true) (back : RoundTrips env)
      (sandbox_id : Bytes) where
    put-Creates :
        (id image_id : Bytes) (sandbox : SandboxRecord) (now : ℕ) (c : ContainerConfig)
        (w w1 : World env) (q : Result Error Unit × Store)
        → w1.events ≡ w.events
        → read_sandbox env sandbox_id w.store ≡ ok (some sandbox)
        → check_config c ≡ ok tt
        → Wrote env id (new_container id sandbox_id sandbox image_id now c) w.store q
        → Creates sandbox_id
            (some c)
            w
            (with_id env builder id (emit_ok env id created_event (written env w1 q)))
    put-Creates id image_id sandbox now c w w1 (err e, s) same there passed wrote = (wrote, same)
    put-Creates id image_id sandbox now c w w1 (ok done, s) same there passed wrote = (
      c,
      sandbox,
      status_of (new_container id sandbox_id sandbox image_id now c),
      refl,
      there,
      passed,
      status_found id (new_container id sandbox_id sandbox image_id now c) s wrote,
      new_container-Echoes id sandbox_id sandbox image_id now c,
    )

    recorded-Creates :
        (id image_id : Bytes) (sandbox : SandboxRecord) (c : ContainerConfig) (w : World env)
        (q : Result Status Unit × env.Host)
        → read_sandbox env sandbox_id w.store ≡ ok (some sandbox)
        → check_config c ≡ ok tt
        → Creates sandbox_id (some c) w (recorded env builder id sandbox_id sandbox image_id c w q)
    recorded-Creates id image_id sandbox c w (err e, h) there passed = (refl, refl)
    recorded-Creates id image_id sandbox c w (ok done, h) there passed =
        put-Creates id image_id sandbox (env.unix_nanos h) c w
          (record w {
            host =
                touched env builder
                  (new_container id sandbox_id sandbox image_id (env.unix_nanos h) c).log_path h;
          })
          _ refl there passed
          (put_container-Wrote env ns reads back id
            (new_container id sandbox_id sandbox image_id (env.unix_nanos h) c) w.store)

    checked-Creates :
        (id : Bytes) (sandbox : SandboxRecord) (found : Option ImageRecord) (c : ContainerConfig)
        (w : World env) (q : Result Status Unit)
        → read_sandbox env sandbox_id w.store ≡ ok (some sandbox)
        → check_config c ≡ q
        → Creates sandbox_id (some c) w (checked env builder id sandbox_id sandbox found c w q)
    checked-Creates id sandbox found c w (err e) there passed = (refl, refl)
    checked-Creates id sandbox found c w (ok done) there passed =
        recorded-Creates id _ sandbox c w _ there passed

    with_image-Creates :
        (sandbox : SandboxRecord) (c : ContainerConfig) (w : World env)
        (q : Result Status (Option ImageRecord))
        → read_sandbox env sandbox_id w.store ≡ ok (some sandbox)
        → Creates sandbox_id (some c) w (with_image env builder sandbox_id sandbox c w q)
    with_image-Creates sandbox c w (err e) there = (refl, refl)
    with_image-Creates sandbox c w (ok found) there =
        checked-Creates _ sandbox found c w (check_config c) there refl

    configured-Creates :
        (sandbox : SandboxRecord) (config : Option ContainerConfig) (w : World env)
        → read_sandbox env sandbox_id w.store ≡ ok (some sandbox)
        → Creates sandbox_id config w (configured env builder sandbox_id sandbox config w)
    configured-Creates sandbox none w there = (refl, refl)
    configured-Creates sandbox (some c) w there = with_image-Creates sandbox c w _ there

    in_sandbox-Creates :
        (config : Option ContainerConfig) (w : World env) (m : Bytes)
        (q : Result Error (Option SandboxRecord))
        → read_sandbox env sandbox_id w.store ≡ q
        → Creates sandbox_id config w
            (in_sandbox env builder sandbox_id config w (or_missing env m (internal_of env q)))
    in_sandbox-Creates config w m (err e) h = (refl, refl)
    in_sandbox-Creates config w m (ok none) h = (refl, refl)
    in_sandbox-Creates config w m (ok (some sandbox)) h = configured-Creates sandbox config w h

    -- A creation that answers with an id had a sandbox that is recorded and a request that passes
    -- the checks, and `container_status` then reports the container under that id as created,
    -- with the labels and the annotations of the request, and with its mounts, of which the
    -- relabelling, the ID mappings, the image and its sub-path are not reported. One that fails leaves the
    -- database as it was and sends no event. Conditions: reads of the database work, what
    -- serde_json writes it reads back, and the namespace has no slash.
    pub create_container-Creates :
        (config : Option ContainerConfig) (w : World env)
        → Creates sandbox_id config w (create_container env builder sandbox_id config w)
    unfolding create_container
    create_container-Creates config w =
        in_sandbox-Creates config w _ (read_sandbox env sandbox_id w.store) refl
