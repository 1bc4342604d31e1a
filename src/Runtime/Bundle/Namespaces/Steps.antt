-- ===== src/Runtime/Bundle/Namespaces/Steps.antt =====
-- crates/runtime/src/bundle.rs: what each step makes of the namespaces of one type.
use containerd_rs.Base.{
  ℕ, ◌≡◌, if_same, refl, ap, ◌∙◌, List, [], ◌∷◌, ◌++◌, Bytes, Bool, true, false, ◌&&◌, Option, none,
  some, if◌then◌else◌, is_nil, arith, ◌==◌, append-nil, Bool-cases, inl, inr, str_eq, text,
}
use containerd_rs.Runtime.Bundle.Request.{IdMapping}
use containerd_rs.Runtime.Bundle.Spec.{
  NamespaceType, ipc_ns, user_ns, pid_ns, network_ns, LinuxNamespace,
}
use containerd_rs.Runtime.Bundle.Namespaces.{
  tag, same_type, retain_not, has_type, at_path, network_at, retain_if, with_user,
}

unfoldable pub only : NamespaceType → List LinuxNamespace → List LinuxNamespace
only t [] = []
only t (n ∷ ns) = let rest = only t ns in if same_type n.typ t then n ∷ rest else rest

-- A namespace that is joined by a path stands alone; else the container's own stay.
abbrev pub joined : NamespaceType → Option Bytes → List LinuxNamespace → List LinuxNamespace
joined t none own = own
joined t (some path) own = at_path t path ∷ []

only-append :
    (t : NamespaceType) (ms ns : List LinuxNamespace) → only t (ms ++ ns) ≡ only t ms ++ only t ns
unfolding only
only-append t [] ns = refl
only-append t (m ∷ ms) ns = ground (arith, only-append t ms ns)

only_if :
    (t : NamespaceType) (b : Bool) (n : LinuxNamespace) (ns : List LinuxNamespace)
    → only t (if b then ns else n ∷ ns)
      ≡ (if b then only t ns else (if same_type n.typ t then n ∷ only t ns else only t ns))
unfolding only
only_if t true n ns = refl
only_if t false n ns = refl

-- One namespace, of tag `x`, is taken away for `y` and looked for as `z`.
retained {ℓ} :
    {A : Type ℓ} (x y z : ℕ) (n : A) (rest others : List A)
    → rest ≡ (if z == y then [] else others)
    → (if x == y then rest else (if x == z then n ∷ rest else rest))
      ≡ (if z == y then [] else (if x == z then n ∷ others else others))
retained x y z n rest others h = ground arith

only-retain_not :
    (t u : NamespaceType) (ns : List LinuxNamespace)
    → only t (retain_not u ns) ≡ (if same_type t u then [] else only t ns)
unfolding only retain_not
only-retain_not t u [] = ground arith
only-retain_not t u (n ∷ ns) =
    only_if t (same_type n.typ u) n (retain_not u ns)
    ∙ retained (tag n.typ) (tag u) (tag t) n (only t (retain_not u ns)) (only t ns)
        (only-retain_not t u ns)

only-retain_if :
    (t u : NamespaceType) (b : Bool) (ns : List LinuxNamespace)
    → only t (retain_if b u ns) ≡ (if b && same_type t u then [] else only t ns)
only-retain_if t u true ns = only-retain_not t u ns
only-retain_if t u false ns = refl

-- The namespaces behind each step.
abbrev pub after_network : Option Bytes → List LinuxNamespace → List LinuxNamespace
after_network path ns = retain_not network_ns ns ++ network_at path

abbrev pub after_host : Bool → Bool → List LinuxNamespace → List LinuxNamespace
after_host host_pid host_ipc ns = retain_if host_ipc ipc_ns (retain_if host_pid pid_ns ns)

abbrev pub after_user : List IdMapping → List IdMapping → List LinuxNamespace → List LinuxNamespace
after_user uid gid ns = if is_nil uid && is_nil gid then ns else with_user ns

abbrev pub after_join : NamespaceType → Option Bytes → List LinuxNamespace → List LinuxNamespace
after_join t none ns = ns
after_join t (some path) ns = retain_not t ns ++ at_path t path ∷ []

-- Taken away for a type, and added for it.
replaced {ℓ} :
    {A : Type ℓ} (x y : ℕ) (new others : List A)
    → (if x == y then [] else others) ++ (if y == x then new else [])
      ≡ (if x == y then new else others)
replaced x y new others = ground (arith, append-nil others)

only-network_at :
    (t : NamespaceType) (path : Option Bytes)
    → only t (network_at path) ≡ (if same_type network_ns t then network_at path else [])
unfolding only network_at
only-network_at t none = if_same (same_type network_ns t) []
only-network_at t (some path) = elim (Bool-cases (str_eq path (text "host"))) [
  | inl e ↦ rw e (if_same (same_type network_ns t) [])
  | inr e ↦ rw e refl
]

-- What each step makes of the namespaces of a type.
pub only-after_join :
    (t u : NamespaceType) (path : Option Bytes) (ns : List LinuxNamespace)
    → only t (after_join u path ns)
      ≡ (if same_type t u then joined u path (only t ns) else only t ns)
unfolding only
only-after_join t u none ns = if_same (same_type t u) (only t ns)
only-after_join t u (some path) ns =
    only-append t (retain_not u ns) (at_path u path ∷ [])
    ∙ (ap (λ l. l ++ only t (at_path u path ∷ [])) (only-retain_not t u ns)
        ∙ replaced (tag t) (tag u) (at_path u path ∷ []) (only t ns))

pub only-after_network :
    (t : NamespaceType) (path : Option Bytes) (ns : List LinuxNamespace)
    → only t (after_network path ns)
      ≡ (if same_type t network_ns then network_at path else only t ns)
only-after_network t path ns =
    only-append t (retain_not network_ns ns) (network_at path)
    ∙ (rw (only-retain_not t network_ns ns, only-network_at t path) refl
        ∙ replaced (tag t) (tag network_ns) (network_at path) (only t ns))

pub only-after_host :
    (t : NamespaceType) (host_pid host_ipc : Bool) (ns : List LinuxNamespace)
    → only t (after_host host_pid host_ipc ns) ≡ (
        if host_ipc && same_type t ipc_ns
        then []
        else (if host_pid && same_type t pid_ns then [] else only t ns))
only-after_host t host_pid host_ipc ns =
    rw
      (
        only-retain_if t ipc_ns host_ipc (retain_if host_pid pid_ns ns),
        only-retain_if t pid_ns host_pid ns,
      )
      refl

only-with_user :
    (t : NamespaceType) (ns : List LinuxNamespace)
    → same_type user_ns t ≡ false
    → only t (with_user ns) ≡ only t ns
unfolding only
only-with_user t ns other = elim (Bool-cases (has_type user_ns ns)) [
  | inl e ↦ rw e refl
  | inr e ↦ rw e (
      only-append t ns (record { typ = user_ns; path = none } ∷ [])
      ∙ rw other (append-nil (only t ns)))
]

pub only-after_user :
    (t : NamespaceType) (uid gid : List IdMapping) (ns : List LinuxNamespace)
    → same_type user_ns t ≡ false
    → only t (after_user uid gid ns) ≡ only t ns
only-after_user t uid gid ns other = elim (Bool-cases (is_nil uid && is_nil gid)) [
  | inl e ↦ rw e refl
  | inr e ↦ rw e (only-with_user t ns other)
]
