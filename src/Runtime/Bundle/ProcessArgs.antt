-- ===== src/Runtime/Bundle/ProcessArgs.antt =====
-- crates/runtime/src/bundle.rs: the command line, the environment and the user of the process.
pub mod Env
use containerd_rs.Base.{
  ℕ, ◌+◌, ◌*◌, ◌-◌, ◌^◌, List, [], ◌∷◌, ◌++◌, Bytes, Bool, ◌&&◌, Option, none, some, if◌then◌else◌,
  ◌==◌, split_once, strip_prefix, is_nil, is_some, unwrap_or, digits_from, some_digits, below,
}
use containerd_rs.Runtime.Bundle.Request.{ImageConfig, ContainerRequest}

-- `resolve_argv`
unfoldable pub resolve_argv : ImageConfig → ContainerRequest → List Bytes
resolve_argv image req =
    if is_nil req.command
    then if is_nil req.args then image.entrypoint ++ image.cmd else image.entrypoint ++ req.args
    else if is_nil req.args
    then req.command
    else req.command ++ req.args

abbrev pub starts_with : Bytes → Bytes → Bool
starts_with s prefix = is_some (strip_prefix prefix s)

-- `out.retain(|e| !e.starts_with(&prefix))`
unfoldable pub retain_others : Bytes → List Bytes → List Bytes
retain_others prefix [] = []
retain_others prefix (e ∷ es) =
    let rest = retain_others prefix es in if starts_with e prefix then rest else e ∷ rest

-- The loop of `merge_env` over the requested variables.
unfoldable pub set_envs : List (Bytes × Bytes) → List Bytes → List Bytes
unfolding retain_others
set_envs [] out = out
set_envs ((k, v) ∷ envs) out =
    set_envs envs (retain_others (k ++ b'=' ∷ []) out ++ (k ++ (b'=' ∷ v)) ∷ [])

-- `merge_env`
unfoldable pub merge_env : ImageConfig → ContainerRequest → List Bytes
unfolding set_envs
merge_env image req = set_envs req.envs image.env

-- `p.parse::<u32>()`: one `+` may stand in front.
unfoldable pub parse_u32 : Bytes → Option ℕ
unfolding digits_from
parse_u32 [] = none
parse_u32 (b ∷ bs) = below (2 ^ 32) (if b == b'+' then some_digits bs else digits_from 0 (b ∷ bs))

abbrev pub user_parts : Bytes → Option (Bytes × Bytes) → ℕ × ℕ
user_parts s none = (unwrap_or 0 (parse_u32 s), 0)
user_parts s (some (uid, gid)) = (unwrap_or 0 (parse_u32 uid), unwrap_or 0 (parse_u32 gid))

-- `parse_user`; `splitn(2, ':')` cuts at the first colon.
unfoldable pub parse_user : Option Bytes → ℕ × ℕ
unfolding parse_u32 split_once
parse_user none = (0, 0)
parse_user (some []) = (0, 0)
parse_user (some (b ∷ bs)) = user_parts (b ∷ bs) (split_once b':' (b ∷ bs))
