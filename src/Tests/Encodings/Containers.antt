-- ===== src/Tests/Encodings/Containers.antt =====
-- The toy encoding of the record of a container.
use containerd_rs.Base.{◌≡◌, refl, ℕ, zero, suc, ℤ, List, Bytes, Bool, Option}
use containerd_rs.Metadata.Records.{
  Labels, ContainerState, created, running, exited, unknown, MountRecord, ResourcesRecord,
  ContainerRecord,
}
use containerd_rs.Tests.Encodings.{Codec, nat, bytes, ◌&◌, via, list, option, bool, int, labels}

abbrev of_state : ContainerState → ℕ
of_state created = 0
of_state running = 1
of_state exited = 2
of_state unknown = 3

abbrev to_state : ℕ → ContainerState
to_state zero = created
to_state (suc zero) = running
to_state (suc (suc zero)) = exited
to_state (suc (suc (suc n))) = unknown

pub state_back : (s : ContainerState) → to_state (of_state s) ≡ s
state_back created = refl
state_back running = refl
state_back exited = refl
state_back unknown = refl

abbrev container_state : Codec ContainerState
container_state = via of_state to_state state_back nat

abbrev of_device : Bytes × Bytes × Bytes → Bytes × (Bytes × Bytes)
of_device (a, b, c) = (a, (b, c))

abbrev to_device : Bytes × (Bytes × Bytes) → Bytes × Bytes × Bytes
to_device p = (p.0, p.1.0, p.1.1)

pub device_back : (p : Bytes × Bytes × Bytes) → to_device (of_device p) ≡ p
device_back (a, b, c) = refl

abbrev devices : Codec (List (Bytes × Bytes × Bytes))
devices = list (via of_device to_device device_back (bytes & bytes & bytes))

abbrev MountType : Type 0
MountType = Bytes × (Bytes × (Bool × (ℤ × (Bool))))

abbrev to_mount : MountRecord → MountType
to_mount r =
    (r.host_path, (r.container_path, (r.readonly, (r.propagation, (r.recursive_read_only)))))

abbrev from_mount : MountType → MountRecord
from_mount t = record {
  host_path = t.0;
  container_path = t.1.0;
  readonly = t.1.1.0;
  propagation = t.1.1.1.0;
  recursive_read_only = t.1.1.1.1;
}

abbrev mount : Codec MountRecord
mount = via to_mount from_mount (λ r. refl) (bytes & bytes & bool & int & bool)

abbrev ResourcesType : Type 0
ResourcesType = ℤ × (ℤ × (ℤ × (ℤ × (Bytes × (Bytes)))))

abbrev to_resources : ResourcesRecord → ResourcesType
to_resources r = (
  r.cpu_period,
  (r.cpu_quota, (r.cpu_shares, (r.memory_limit_in_bytes, (r.cpuset_cpus, (r.cpuset_mems))))),
)

abbrev from_resources : ResourcesType → ResourcesRecord
from_resources t = record {
  cpu_period = t.0;
  cpu_quota = t.1.0;
  cpu_shares = t.1.1.0;
  memory_limit_in_bytes = t.1.1.1.0;
  cpuset_cpus = t.1.1.1.1.0;
  cpuset_mems = t.1.1.1.1.1;
}

abbrev resources : Codec ResourcesRecord
resources = via to_resources from_resources (λ r. refl) (int & int & int & int & bytes & bytes)

abbrev ContainerType : Type 0
ContainerType =
    Bytes
    × (Bytes
        × (Bytes
            × (ℕ
                × (Bytes
                    × (Bytes
                        × (ContainerState
                            × (Bytes
                                × (Bytes
                                    × (ℕ
                                        × ((Option ℕ)
                                            × ((Option ℕ)
                                                × ((Option ℤ)
                                                    × ((Option Bytes)
                                                        × (Labels
                                                            × (Labels
                                                            × ((List MountRecord)
                                                            × ((Option ResourcesRecord)
                                                            × ((Option Bytes)
                                                            × ((Option Bytes)
                                                            × ((Option ℤ)
                                                            × (ℕ
                                                            × (Bool
                                                            × (Bool
                                                            × ((List (
                                                            Bytes × Bytes
                                                            × Bytes))))))))))))))))))))))))))

abbrev to_container : ContainerRecord → ContainerType
to_container r = (
  r.id,
  (
    r.sandbox_id,
    (
      r.name,
      (
        r.attempt,
        (
          r.image_ref,
          (
            r.image_id,
            (
              r.state,
              (
                r.snapshot_key,
                (
                  r.log_path,
                  (
                    r.created_at,
                    (
                      r.started_at,
                      (
                        r.finished_at,
                        (
                          r.exit_code,
                          (
                            r.reason,
                            (
                              r.labels,
                              (
                                r.annotations,
                                (
                                  r.mounts,
                                  (
                                    r.resources,
                                    (
                                      r.crun_root,
                                      (
                                        r.bundle_dir,
                                        (
                                          r.pid,
                                          (r.restart_count, (r.stdin, (r.stdin_once, (r.devices)))),
                                        ),
                                      ),
                                    ),
                                  ),
                                ),
                              ),
                            ),
                          ),
                        ),
                      ),
                    ),
                  ),
                ),
              ),
            ),
          ),
        ),
      ),
    ),
  ),
)

abbrev from_container : ContainerType → ContainerRecord
from_container t = record {
  id = t.0;
  sandbox_id = t.1.0;
  name = t.1.1.0;
  attempt = t.1.1.1.0;
  image_ref = t.1.1.1.1.0;
  image_id = t.1.1.1.1.1.0;
  state = t.1.1.1.1.1.1.0;
  snapshot_key = t.1.1.1.1.1.1.1.0;
  log_path = t.1.1.1.1.1.1.1.1.0;
  created_at = t.1.1.1.1.1.1.1.1.1.0;
  started_at = t.1.1.1.1.1.1.1.1.1.1.0;
  finished_at = t.1.1.1.1.1.1.1.1.1.1.1.0;
  exit_code = t.1.1.1.1.1.1.1.1.1.1.1.1.0;
  reason = t.1.1.1.1.1.1.1.1.1.1.1.1.1.0;
  labels = t.1.1.1.1.1.1.1.1.1.1.1.1.1.1.0;
  annotations = t.1.1.1.1.1.1.1.1.1.1.1.1.1.1.1.0;
  mounts = t.1.1.1.1.1.1.1.1.1.1.1.1.1.1.1.1.0;
  resources = t.1.1.1.1.1.1.1.1.1.1.1.1.1.1.1.1.1.0;
  crun_root = t.1.1.1.1.1.1.1.1.1.1.1.1.1.1.1.1.1.1.0;
  bundle_dir = t.1.1.1.1.1.1.1.1.1.1.1.1.1.1.1.1.1.1.1.0;
  pid = t.1.1.1.1.1.1.1.1.1.1.1.1.1.1.1.1.1.1.1.1.0;
  restart_count = t.1.1.1.1.1.1.1.1.1.1.1.1.1.1.1.1.1.1.1.1.1.0;
  stdin = t.1.1.1.1.1.1.1.1.1.1.1.1.1.1.1.1.1.1.1.1.1.1.0;
  stdin_once = t.1.1.1.1.1.1.1.1.1.1.1.1.1.1.1.1.1.1.1.1.1.1.1.0;
  devices = t.1.1.1.1.1.1.1.1.1.1.1.1.1.1.1.1.1.1.1.1.1.1.1.1;
}

abbrev pub container : Codec ContainerRecord
container =
    via to_container from_container (λ r. refl)
      (bytes
        & bytes
        & bytes
        & nat
        & bytes
        & bytes
        & container_state
        & bytes
        & bytes
        & nat
        & (option nat)
        & (option nat)
        & (option int)
        & (option bytes)
        & labels
        & labels
        & (list mount)
        & (option resources)
        & (option bytes)
        & (option bytes)
        & (option int)
        & nat
        & bool
        & bool
        & devices)
