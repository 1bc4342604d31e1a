-- ===== src/Cri/Answers.antt =====
-- crates/cri/src/server.rs: the calls of the runtime service that only answer: the status and the
-- lists of sandboxes and containers, and their statistics.
pub mod Messages
pub mod Filters
pub mod Statistics
use containerd_rs.Base.{
  ℤ, pos, negsuc, is_num, List, [], ◌∷◌, ◌++◌, map, Bytes, text, Bool, true, false, not, ◌&&◌, ◌||◌,
  Option, none, some, Result, ok, err, if◌then◌else◌, ◌==◌, str_eq, is_nil, lookup,
}
use containerd_rs.Metadata.Records.{Labels, SandboxRecord, ContainerRecord}
use containerd_rs.Metadata.Store.{Store, container, sandbox, list}
use containerd_rs.Cri.Convert.{sandbox_state_i32, container_state_i32}
use containerd_rs.Cri.Containers.{missing}
use containerd_rs.Cri.Service.{Status, Env, internal_of, or_missing, read_sandbox, get_container}
use containerd_rs.Cri.Answers.Messages.{
  Container, ContainerFilter, ContainerStatus, Sandbox, SandboxFilter, SandboxStatus, container_of,
  sandbox_of, sandbox_status_of, status_of,
}

-- The parts of the filters: an id that may be left out, a state, and labels that all must be there.
abbrev pub id_fits : Bytes → Bytes → Bool
id_fits wanted id = is_nil wanted || str_eq wanted id

abbrev pub same_number : ℤ → ℤ → Bool
same_number (pos n) i = is_num n i
same_number (negsuc n) (pos m) = false
same_number (negsuc n) (negsuc m) = n == m

abbrev pub state_fits : Option ℤ → ℤ → Bool
state_fits none state = true
state_fits (some wanted) state = same_number state wanted

abbrev pub is_value : Bytes → Option Bytes → Bool
is_value v none = false
is_value v (some w) = str_eq w v

unfoldable pub labels_fit : Labels → Labels → Bool
unfolding lookup str_eq
labels_fit [] labels = true
labels_fit ((k, v) ∷ selector) labels = is_value v (lookup k labels) && labels_fit selector labels

-- The filters of the two lists, and that of the containers' statistics.
unfoldable pub container_fits : Option ContainerFilter → ContainerRecord → Bool
unfolding labels_fit container_state_i32 str_eq
container_fits none r = true
container_fits (some f) r =
    id_fits f.id r.id
    && id_fits f.pod_sandbox_id r.sandbox_id
    && state_fits f.state (container_state_i32 r.state)
    && labels_fit f.label_selector r.labels

unfoldable pub sandbox_fits : Option SandboxFilter → SandboxRecord → Bool
unfolding labels_fit sandbox_state_i32 str_eq
sandbox_fits none r = true
sandbox_fits (some f) r =
    id_fits f.id r.id
    && state_fits f.state (sandbox_state_i32 r.state)
    && labels_fit f.label_selector r.labels

unfoldable pub filter {ℓ} : {A : Type ℓ} → (A → Bool) → List A → List A
filter p [] = []
filter p (x ∷ xs) = let rest = filter p xs in if p x then x ∷ rest else rest

module _ (env : Env) where
  open env use {
    Host, namespace, to_vec, from_slice, sandbox_to_vec, sandbox_from_slice, reads_ok, unix_nanos,
  }

  abbrev pub map_ok : {A B : Type 0} → (A → B) → Result Status A → Result Status B
  map_ok f (err e) = err e
  map_ok f (ok a) = ok (f a)

  abbrev pub all_containers : Store → Result Status (List ContainerRecord)
  all_containers s = internal_of env (list to_vec from_slice reads_ok container namespace s)

  abbrev pub all_sandboxes : Store → Result Status (List SandboxRecord)
  all_sandboxes s =
      internal_of env (list sandbox_to_vec sandbox_from_slice reads_ok sandbox namespace s)

  -- `container_status`
  unfoldable pub container_status : Bytes → Store → Result Status ContainerStatus
  unfolding get_container status_of
  container_status id s = map_ok status_of (or_missing env (missing id) (get_container env id s))

  -- `list_containers`
  unfoldable pub list_containers : Option ContainerFilter → Store → Result Status (List Container)
  unfolding container_of container_fits filter
  list_containers f s =
      map_ok (λ all. map container_of (filter (container_fits f) all)) (all_containers s)

  -- `pod_sandbox_status`
  unfoldable pub pod_sandbox_status : Bytes → Store → Result Status SandboxStatus
  unfolding read_sandbox sandbox_status_of
  pod_sandbox_status id s = map_ok sandbox_status_of (
      or_missing env (text "sandbox " ++ (id ++ text " not found"))
        (internal_of env (read_sandbox env id s)))

  -- `list_pod_sandbox`
  unfoldable pub list_pod_sandbox : Option SandboxFilter → Store → Result Status (List Sandbox)
  unfolding sandbox_of sandbox_fits filter
  list_pod_sandbox f s =
      map_ok (λ all. map sandbox_of (filter (sandbox_fits f) all)) (all_sandboxes s)
