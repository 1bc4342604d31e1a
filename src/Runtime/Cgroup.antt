-- ===== src/Runtime/Cgroup.antt =====
-- crates/runtime/src/cgroup.rs: the version of the hierarchy and the statistics that the kernel
-- writes into the files of a cgroup. `read` is `read_to_string`, none where it fails; the files
-- are ASCII.
pub mod Written
use containerd_rs.Base.{
  ℕ, ◌+◌, ◌*◌, ◌-◌, ◌^◌, ◌%◌, min, List, [], ◌∷◌, ◌++◌, Bytes, text, Bool, ◌&&◌, ◌||◌, Option, none,
  some, if◌then◌else◌, ltb, leb, ◌==◌, str_eq, strip_prefix, unwrap_or, and_some, some_digits,
  below, digits_from,
}
use containerd_rs.Cri.Convert.{join_path}

-- `enum CgroupVersion`
pub data CgroupVersion : Type 0 where
  v2 v1_or_hybrid : CgroupVersion

-- `version_from_magic`, of the magic number 0x63677270.
unfoldable pub version_from_magic : ℕ → CgroupVersion
version_from_magic magic = if magic == 1667723888 then v2 else v1_or_hybrid

-- `struct CgroupStats`
pub record CgroupStats : Type 0 where
  pub cpu_usage_nanos : ℕ
  pub memory_current_bytes : ℕ
  pub memory_anon_bytes : ℕ
  pub io_rbytes : ℕ
  pub io_wbytes : ℕ
  pub oom_kill : ℕ

abbrev pub no_stats : CgroupStats
no_stats = record {
  cpu_usage_nanos = 0;
  memory_current_bytes = 0;
  memory_anon_bytes = 0;
  io_rbytes = 0;
  io_wbytes = 0;
  oom_kill = 0;
}

-- `v.parse::<u64>()`: one `+` may stand in front.
unfoldable pub parse_u64 : Bytes → Option ℕ
unfolding digits_from
parse_u64 [] = none
parse_u64 (b ∷ bs) = below (2 ^ 64) (if b == b'+' then some_digits bs else digits_from 0 (b ∷ bs))

abbrev pub is_whitespace : ℕ → Bool
is_whitespace b = b == 32 || (leb 9 b && leb b 13)

-- A token that has been read, unless it is empty.
abbrev pub token : Bytes → List Bytes → List Bytes
token [] ts = ts
token (b ∷ bs) ts = (b ∷ bs) ∷ ts

-- `line.split_whitespace()`; `cur` is the token that is being read.
unfoldable pub tokens : Bytes → Bytes → List Bytes
tokens cur [] = token cur []
tokens cur (b ∷ bs) =
    let longer = tokens (cur ++ b ∷ []) bs in
    let next = tokens [] bs in if is_whitespace b then token cur next else longer

-- `content.lines()`. A return before the end of a line stays, since it is white space and no
-- token holds it.
unfoldable pub lines_from : Bytes → Bytes → List Bytes
lines_from cur [] = token cur []
lines_from cur (b ∷ bs) =
    let longer = lines_from (cur ++ b ∷ []) bs in
    let next = cur ∷ lines_from [] bs in if b == 10 then next else longer

-- What one line says of the key: `it.next()` twice.
abbrev pub of_tokens : Bytes → List Bytes → Option ℕ
of_tokens key [] = none
of_tokens key (k ∷ []) = none
of_tokens key (k ∷ v ∷ more) = if str_eq k key then parse_u64 v else none

abbrev pub first_of : Option ℕ → Option ℕ → Option ℕ
first_of none rest = rest
first_of (some n) rest = some n

unfoldable pub find_in : Bytes → List Bytes → Option ℕ
unfolding tokens parse_u64
find_in key [] = none
find_in key (line ∷ lines) = first_of (of_tokens key (tokens [] line)) (find_in key lines)

-- `parse_flat_keyed`
unfoldable pub parse_flat_keyed : Bytes → Bytes → Option ℕ
unfolding lines_from find_in
parse_flat_keyed content key = find_in key (lines_from [] content)

-- The value of a token `field=value`.
abbrev pub field_of : Bytes → Bytes → Option ℕ
field_of field tok =
    and_some (and_some (strip_prefix field tok) (strip_prefix (b'=' ∷ []))) parse_u64

unfoldable pub sum_fields : Bytes → List Bytes → ℕ
unfolding strip_prefix parse_u64
sum_fields field [] = 0
sum_fields field (tok ∷ toks) = unwrap_or 0 (field_of field tok) + sum_fields field toks

unfoldable pub sum_lines : Bytes → List Bytes → ℕ
unfolding tokens sum_fields
sum_lines field [] = 0
sum_lines field (line ∷ lines) = sum_fields field (tokens [] line) + sum_lines field lines

-- `sum_io_field`; the sum wraps around, as without overflow checks.
unfoldable pub sum_io_field : Bytes → Bytes → ℕ
unfolding lines_from sum_lines
sum_io_field content field = sum_lines field (lines_from [] content) % 2 ^ 64

-- `s.trim()` of a single token, as a file of one value holds: its first token, where there is one only.
abbrev pub only_token : List Bytes → Bytes
only_token [] = []
only_token (t ∷ []) = t
only_token (t ∷ u ∷ more) = t ++ (32 ∷ u)

module _ (read : Bytes → Option Bytes) where
  -- `read_single`
  unfoldable pub read_single : Bytes → Bytes → ℕ
  unfolding tokens parse_u64 join_path
  read_single dir file =
      unwrap_or 0 (and_some (read (join_path dir file)) (λ s. parse_u64 (only_token (tokens [] s))))

  -- `read_flat_keyed`
  unfoldable pub read_flat_keyed : Bytes → Bytes → Bytes → ℕ
  unfolding parse_flat_keyed join_path
  read_flat_keyed dir file key =
      unwrap_or 0 (and_some (read (join_path dir file)) (λ s. parse_flat_keyed s key))

  -- `read_stats`
  unfoldable pub read_stats : Bytes → CgroupStats
  unfolding read_single read_flat_keyed sum_io_field join_path
  read_stats dir =
      let io_stat = unwrap_or [] (read (join_path dir (text "io.stat"))) in
      record {
        cpu_usage_nanos =
            min (2 ^ 64 - 1) (read_flat_keyed dir (text "cpu.stat") (text "usage_usec") * 1000);
        memory_current_bytes = read_single dir (text "memory.current");
        memory_anon_bytes = read_flat_keyed dir (text "memory.stat") (text "anon");
        io_rbytes = sum_io_field io_stat (text "rbytes");
        io_wbytes = sum_io_field io_stat (text "wbytes");
        oom_kill = read_flat_keyed dir (text "memory.events") (text "oom_kill");
      }

  -- `was_oom_killed`
  unfoldable pub was_oom_killed : Bytes → Bool
  unfolding read_flat_keyed
  was_oom_killed dir = ltb 0 (read_flat_keyed dir (text "memory.events") (text "oom_kill"))
