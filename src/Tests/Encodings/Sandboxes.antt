-- ===== src/Tests/Encodings/Sandboxes.antt =====
-- The toy encoding of the record of a sandbox.
use containerd_rs.Base.{◌≡◌, refl, ℕ, zero, suc, ℤ, List, Bytes, Bool, Option}
use containerd_rs.Metadata.Records.{Labels, SandboxState, ready, not_ready, SandboxRecord}
use containerd_rs.Tests.Encodings.{Codec, nat, bytes, ◌&◌, via, list, option, bool, int, labels}

abbrev of_ready : SandboxState → ℕ
of_ready ready = 0
of_ready not_ready = 1

abbrev to_ready : ℕ → SandboxState
to_ready zero = ready
to_ready (suc n) = not_ready

pub ready_back : (s : SandboxState) → to_ready (of_ready s) ≡ s
ready_back ready = refl
ready_back not_ready = refl

abbrev sandbox_state : Codec SandboxState
sandbox_state = via of_ready to_ready ready_back nat

-- Triples, which are flat.
abbrev of_ids : ℕ × ℕ × ℕ → ℕ × (ℕ × ℕ)
of_ids (a, b, c) = (a, (b, c))

abbrev to_ids : ℕ × (ℕ × ℕ) → ℕ × ℕ × ℕ
to_ids p = (p.0, p.1.0, p.1.1)

pub ids_back : (p : ℕ × ℕ × ℕ) → to_ids (of_ids p) ≡ p
ids_back (a, b, c) = refl

abbrev triples : Codec (List (ℕ × ℕ × ℕ))
triples = list (via of_ids to_ids ids_back (nat & nat & nat))

abbrev SandboxType : Type 0
SandboxType =
    Bytes
    × (Bytes
        × (Bytes
            × (Bytes
                × (ℕ
                    × (SandboxState
                        × ((Option Bytes)
                            × ((Option Bytes)
                                × (Bytes
                                    × ((Option Bytes)
                                        × ((Option Bytes)
                                            × (ℕ
                                                × (Labels
                                                    × (Labels
                                                        × (Bytes
                                                            × (Bool
                                                            × (Bool
                                                            × (Bool
                                                            × (Bool
                                                            × (Bool
                                                            × ((Option ℤ)
                                                            × (Bool
                                                            × ((List (ℕ × ℕ × ℕ))
                                                            × ((List (ℕ × ℕ × ℕ))
                                                            × ((Option Bytes)
                                                            × (Labels
                                                            × (Bytes
                                                            × (Bytes)))))))))))))))))))))))))))

abbrev to_sandbox : SandboxRecord → SandboxType
to_sandbox r = (
  r.id,
  (
    r.name,
    (
      r.k8s_namespace,
      (
        r.uid,
        (
          r.attempt,
          (
            r.state,
            (
              r.netns_path,
              (
                r.ip,
                (
                  r.runtime_handler,
                  (
                    r.pause_container_id,
                    (
                      r.snapshot_key,
                      (
                        r.created_at,
                        (
                          r.labels,
                          (
                            r.annotations,
                            (
                              r.log_directory,
                              (
                                r.host_network,
                                (
                                  r.host_pid,
                                  (
                                    r.host_ipc,
                                    (
                                      r.shared_pid,
                                      (
                                        r.shared_ipc,
                                        (
                                          r.pid_holder_pid,
                                          (
                                            r.userns_mode_pod,
                                            (
                                              r.userns_uid_mappings,
                                              (
                                                r.userns_gid_mappings,
                                                (
                                                  r.resolv_conf_path,
                                                  (r.sysctls, (r.cgroup_parent, (r.hostname))),
                                                ),
                                              ),
                                            ),
                                          ),
                                        ),
                                      ),
                                    ),
                                  ),
                                ),
                              ),
                            ),
                          ),
                        ),
                      ),
                    ),
                  ),
                ),
              ),
            ),
          ),
        ),
      ),
    ),
  ),
)

abbrev from_sandbox : SandboxType → SandboxRecord
from_sandbox t = record {
  id = t.0;
  name = t.1.0;
  k8s_namespace = t.1.1.0;
  uid = t.1.1.1.0;
  attempt = t.1.1.1.1.0;
  state = t.1.1.1.1.1.0;
  netns_path = t.1.1.1.1.1.1.0;
  ip = t.1.1.1.1.1.1.1.0;
  runtime_handler = t.1.1.1.1.1.1.1.1.0;
  pause_container_id = t.1.1.1.1.1.1.1.1.1.0;
  snapshot_key = t.1.1.1.1.1.1.1.1.1.1.0;
  created_at = t.1.1.1.1.1.1.1.1.1.1.1.0;
  labels = t.1.1.1.1.1.1.1.1.1.1.1.1.0;
  annotations = t.1.1.1.1.1.1.1.1.1.1.1.1.1.0;
  log_directory = t.1.1.1.1.1.1.1.1.1.1.1.1.1.1.0;
  host_network = t.1.1.1.1.1.1.1.1.1.1.1.1.1.1.1.0;
  host_pid = t.1.1.1.1.1.1.1.1.1.1.1.1.1.1.1.1.0;
  host_ipc = t.1.1.1.1.1.1.1.1.1.1.1.1.1.1.1.1.1.0;
  shared_pid = t.1.1.1.1.1.1.1.1.1.1.1.1.1.1.1.1.1.1.0;
  shared_ipc = t.1.1.1.1.1.1.1.1.1.1.1.1.1.1.1.1.1.1.1.0;
  pid_holder_pid = t.1.1.1.1.1.1.1.1.1.1.1.1.1.1.1.1.1.1.1.1.0;
  userns_mode_pod = t.1.1.1.1.1.1.1.1.1.1.1.1.1.1.1.1.1.1.1.1.1.0;
  userns_uid_mappings = t.1.1.1.1.1.1.1.1.1.1.1.1.1.1.1.1.1.1.1.1.1.1.0;
  userns_gid_mappings = t.1.1.1.1.1.1.1.1.1.1.1.1.1.1.1.1.1.1.1.1.1.1.1.0;
  resolv_conf_path = t.1.1.1.1.1.1.1.1.1.1.1.1.1.1.1.1.1.1.1.1.1.1.1.1.0;
  sysctls = t.1.1.1.1.1.1.1.1.1.1.1.1.1.1.1.1.1.1.1.1.1.1.1.1.1.0;
  cgroup_parent = t.1.1.1.1.1.1.1.1.1.1.1.1.1.1.1.1.1.1.1.1.1.1.1.1.1.1.0;
  hostname = t.1.1.1.1.1.1.1.1.1.1.1.1.1.1.1.1.1.1.1.1.1.1.1.1.1.1.1;
}

abbrev pub sandbox : Codec SandboxRecord
sandbox =
    via to_sandbox from_sandbox (λ r. refl)
      (bytes
        & bytes
        & bytes
        & bytes
        & nat
        & sandbox_state
        & (option bytes)
        & (option bytes)
        & bytes
        & (option bytes)
        & (option bytes)
        & nat
        & labels
        & labels
        & bytes
        & bool
        & bool
        & bool
        & bool
        & bool
        & (option int)
        & bool
        & triples
        & triples
        & (option bytes)
        & labels
        & bytes
        & bytes)
