-- ===== src/Runtime/Bundle/Generate/Requested.antt =====
-- crates/runtime/src/bundle.rs: the process of a container, by what the image and the request say.
use containerd_rs.Base.{
  ◌≡◌, refl, sym, ap, ℕ, List, [], ◌∷◌, ◌++◌, append-nil, Bytes, text, true, false, Option, none,
  some, All, Lacks, or_else, is_nil, if◌then◌else◌,
}
use containerd_rs.Runtime.Bundle.Request.{ImageConfig, ContainerRequest}
use containerd_rs.Runtime.Bundle.Spec.{Process, CapSet, LinuxCapabilities}
use containerd_rs.Runtime.Bundle.Capabilities.{all_capabilities, member, build_caps}
use containerd_rs.Runtime.Bundle.Security.{with_all_capabilities}
use containerd_rs.Runtime.Bundle.ProcessArgs.{resolve_argv, parse_user}
use containerd_rs.Runtime.Bundle.ProcessArgs.Env.{getenv, last_value, IsKey, getenv-merge_env}
use containerd_rs.Runtime.Bundle.Generate.{user_of, process_of}

-- The capabilities of the kernel in the order of its numbers.
abbrev pub kernel_names : List Bytes
kernel_names =
    text "CHOWN"
    ∷ text "DAC_OVERRIDE"
    ∷ text "DAC_READ_SEARCH"
    ∷ text "FOWNER"
    ∷ text "FSETID"
    ∷ text "KILL"
    ∷ text "SETGID"
    ∷ text "SETUID"
    ∷ text "SETPCAP"
    ∷ text "LINUX_IMMUTABLE"
    ∷ text "NET_BIND_SERVICE"
    ∷ text "NET_BROADCAST"
    ∷ text "NET_ADMIN"
    ∷ text "NET_RAW"
    ∷ text "IPC_LOCK"
    ∷ text "IPC_OWNER"
    ∷ text "SYS_MODULE"
    ∷ text "SYS_RAWIO"
    ∷ text "SYS_CHROOT"
    ∷ text "SYS_PTRACE"
    ∷ text "SYS_PACCT"
    ∷ text "SYS_ADMIN"
    ∷ text "SYS_BOOT"
    ∷ text "SYS_NICE"
    ∷ text "SYS_RESOURCE"
    ∷ text "SYS_TIME"
    ∷ text "SYS_TTY_CONFIG"
    ∷ text "MKNOD"
    ∷ text "LEASE"
    ∷ text "AUDIT_WRITE"
    ∷ text "AUDIT_CONTROL"
    ∷ text "SETFCAP"
    ∷ text "MAC_OVERRIDE"
    ∷ text "MAC_ADMIN"
    ∷ text "SYSLOG"
    ∷ text "WAKE_ALARM"
    ∷ text "BLOCK_SUSPEND"
    ∷ text "AUDIT_READ"
    ∷ text "PERFMON"
    ∷ text "BPF"
    ∷ text "CHECKPOINT_RESTORE"
    ∷ []

-- A set that holds them all.
abbrev pub IsFull : Option CapSet → Type 0
IsFull none = true ≡ false
IsFull (some caps) = All (λ name. caps name ≡ true) kernel_names

abbrev pub AreFull : Option LinuxCapabilities → Type 0
AreFull none = true ≡ false
AreFull (some c) =
    IsFull c.bounding
    × IsFull c.effective
    × IsFull c.permitted
    × IsFull c.inheritable
    × IsFull c.ambient

all_capabilities-IsFull : IsFull (some all_capabilities)
unfolding all_capabilities member
all_capabilities-IsFull = (
  refl,
  (
    refl,
    (
      refl,
      (
        refl,
        (
          refl,
          (
            refl,
            (
              refl,
              (
                refl,
                (
                  refl,
                  (
                    refl,
                    (
                      refl,
                      (
                        refl,
                        (
                          refl,
                          (
                            refl,
                            (
                              refl,
                              (
                                refl,
                                (
                                  refl,
                                  (
                                    refl,
                                    (
                                      refl,
                                      (
                                        refl,
                                        (
                                          refl,
                                          (
                                            refl,
                                            (
                                              refl,
                                              (
                                                refl,
                                                (
                                                  refl,
                                                  (
                                                    refl,
                                                    (
                                                      refl,
                                                      (
                                                        refl,
                                                        (
                                                          refl,
                                                          (
                                                            refl,
                                                            (
                                                            refl,
                                                            (
                                                            refl,
                                                            (
                                                            refl,
                                                            (
                                                            refl,
                                                            (
                                                            refl,
                                                            (
                                                            refl,
                                                            (
                                                            refl,
                                                            (refl, (refl, (refl, (refl, tt)))),
                                                            ),
                                                            ),
                                                            ),
                                                            ),
                                                            ),
                                                            ),
                                                            ),
                                                          ),
                                                        ),
                                                      ),
                                                    ),
                                                  ),
                                                ),
                                              ),
                                            ),
                                          ),
                                        ),
                                      ),
                                    ),
                                  ),
                                ),
                              ),
                            ),
                          ),
                        ),
                      ),
                    ),
                  ),
                ),
              ),
            ),
          ),
        ),
      ),
    ),
  ),
)

-- The process runs what the request says, and the image's where it says nothing.
pub record IsRequested (image : ImageConfig) (req : ContainerRequest) (p : Process) : Type 0 where
  pub same_terminal : p.terminal ≡ req.terminal
  pub same_privileges : p.no_new_privileges ≡ some req.no_new_privileges
  pub own_command :
      (b : Bytes) (bs : List Bytes) → req.command ≡ b ∷ bs → p.args ≡ req.command ++ req.args
  pub own_args :
      (b : Bytes) (bs : List Bytes)
      → req.command ≡ []
      → req.args ≡ b ∷ bs
      → p.args ≡ image.entrypoint ++ req.args
  pub image_args : req.command ≡ [] → req.args ≡ [] → p.args ≡ image.entrypoint ++ image.cmd
  pub variables :
      (k : Bytes)
      → Lacks b'=' k
      → All IsKey req.envs
      → getenv k p.env ≡ or_else (last_value k req.envs) (getenv k image.env)
  pub own_dir : (d : Bytes) → req.working_dir ≡ some d → p.cwd ≡ d
  pub image_dir : (d : Bytes) → req.working_dir ≡ none → image.working_dir ≡ some d → p.cwd ≡ d
  pub root_dir : req.working_dir ≡ none → image.working_dir ≡ none → p.cwd ≡ text "/"
  pub own_user : (u : ℕ) → req.run_as_user ≡ some u → p.user.uid ≡ u
  pub own_group : (g : ℕ) → req.run_as_group ≡ some g → p.user.gid ≡ g
  pub root_user : req.run_as_user ≡ none → image.user ≡ none → p.user.uid ≡ 0
  pub root_group : req.run_as_group ≡ none → image.user ≡ none → p.user.gid ≡ 0
  pub own_groups :
      (g : ℕ) (gs : List ℕ)
      → req.supplemental_groups ≡ g ∷ gs
      → p.user.additional_gids ≡ some (g ∷ gs)
  pub no_groups : req.supplemental_groups ≡ [] → p.user.additional_gids ≡ none

argv_command :
    (e m c a : List Bytes)
    → is_nil c ≡ false
    → (if is_nil c then if is_nil a then e ++ m else e ++ a else if is_nil a then c else c ++ a)
      ≡ c ++ a
argv_command e m c [] h = rw h (sym (append-nil c))
argv_command e m c (b ∷ a) h = rw h refl

process_of-IsRequested :
    (image : ImageConfig) (req : ContainerRequest) → IsRequested image req (process_of image req)
unfolding process_of user_of resolve_argv parse_user
process_of-IsRequested image req = record {
  same_terminal = refl;
  same_privileges = refl;
  own_command =
      λ b bs h. argv_command image.entrypoint image.cmd req.command req.args (ap is_nil h);
  own_args = λ b bs h k. rw (h, k) refl;
  image_args = λ h k. rw (h, k) refl;
  variables = λ k lacks keys. getenv-merge_env k image req lacks keys;
  own_dir = λ d h. rw h refl;
  image_dir = λ d h k. rw (h, k) refl;
  root_dir = λ h k. rw (h, k) refl;
  own_user = λ u h. rw h refl;
  own_group = λ g h. rw h refl;
  root_user = λ h k. rw (h, k) refl;
  root_group = λ h k. rw (h, k) refl;
  own_groups = λ g gs h. rw h refl;
  no_groups = λ h. rw h refl;
}

-- The capabilities are beside all of that.
IsRequested-with_all_capabilities :
    (image : ImageConfig) (req : ContainerRequest) (p : Process)
    → IsRequested image req p
    → IsRequested image req (with_all_capabilities p)
unfolding with_all_capabilities
IsRequested-with_all_capabilities image req p h = record {
  same_terminal = h.same_terminal;
  same_privileges = h.same_privileges;
  own_command = h.own_command;
  own_args = h.own_args;
  image_args = h.image_args;
  variables = h.variables;
  own_dir = h.own_dir;
  image_dir = h.image_dir;
  root_dir = h.root_dir;
  own_user = h.own_user;
  own_group = h.own_group;
  root_user = h.root_user;
  root_group = h.root_group;
  own_groups = h.own_groups;
  no_groups = h.no_groups;
}

pub privileged-IsRequested :
    (image : ImageConfig) (req : ContainerRequest)
    → IsRequested image req (with_all_capabilities (process_of image req))
      × AreFull (with_all_capabilities (process_of image req)).capabilities
unfolding build_caps with_all_capabilities
privileged-IsRequested image req = (
  IsRequested-with_all_capabilities image req (process_of image req)
      (process_of-IsRequested image req),
  let full = all_capabilities-IsFull in (full, full, full, full, full),
)
