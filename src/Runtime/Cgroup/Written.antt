-- ===== src/Runtime/Cgroup/Written.antt =====
-- crates/runtime/src/cgroup.rs: reading what the kernel writes into a flat-keyed file.
use containerd_rs.Base.{
  ◌≡◌, ◌≢◌, refl, ap, sym, ◌∙◌, ℕ, ◌+◌, ◌^◌, ◌<◌, List, [], ◌∷◌, ◌++◌, Bytes, false, none, some,
  if◌then◌else◌, ◌==◌, lookup, All, arith, append-nil, append_assoc, decimal, digits_from,
  digits_from-decimal, decimal-cons, All-decimal, lt→ltb, str_eq,
}
use containerd_rs.Runtime.Cgroup.{
  parse_u64, is_whitespace, token, tokens, lines_from, of_tokens, find_in, parse_flat_keyed,
}

-- A word: something, and without white space.
abbrev pub IsWord : Bytes → Type 0
IsWord w = (w ≢ []) × All (λ b. is_whitespace b ≡ false) w

-- The file that holds the keys with their values.
unfoldable pub written : List (Bytes × ℕ) → Bytes
written [] = []
written ((k, n) ∷ entries) = (k ++ (32 ∷ decimal n)) ++ (10 ∷ written entries)

-- What such a file may hold.
abbrev pub IsEntry : Bytes × ℕ → Type 0
IsEntry (k, n) = IsWord k × (n < 2 ^ 64)

digit_plain : (d : ℕ) → d < 10 → is_whitespace (b'0' + d) ≡ false
digit_plain d h = ground arith

digit_no_plus : (d : ℕ) → d < 10 → ((b'0' + d) == b'+') ≡ false
digit_no_plus d h = ground arith

decimal-IsWord : (n : ℕ) → IsWord (decimal n)
decimal-IsWord n = (decimal-cons n, All-decimal (λ b. is_whitespace b ≡ false) digit_plain n)

parse_from :
    (ds : Bytes) (n : ℕ)
    → ds ≢ []
    → All (λ b. (b == b'+') ≡ false) ds
    → digits_from 0 ds ≡ some n
    → n < 2 ^ 64
    → parse_u64 ds ≡ some n
unfolding parse_u64
parse_from [] n c h e k = absurd (c refl)
parse_from (d ∷ ds) n c (h, hs) e k = rw (h, e, lt→ltb n (2 ^ 64) k) refl

parse_u64-decimal : (n : ℕ) → n < 2 ^ 64 → parse_u64 (decimal n) ≡ some n
parse_u64-decimal n =
    parse_from (decimal n) n (decimal-cons n)
      (All-decimal (λ b. (b == b'+') ≡ false) digit_no_plus n) (digits_from-decimal n)

token_full : (cur w : Bytes) (ts : List Bytes) → w ≢ [] → token (cur ++ w) ts ≡ (cur ++ w) ∷ ts
token_full [] [] ts h = absurd (h refl)
token_full [] (b ∷ w) ts h = refl
token_full (c ∷ cur) w ts h = refl

tokens_last :
    (cur w : Bytes) → All (λ b. is_whitespace b ≡ false) w → tokens cur w ≡ token (cur ++ w) []
unfolding tokens
tokens_last cur [] h = ap (λ c. token c []) (sym (append-nil cur))
tokens_last cur (b ∷ w) (h, hs) =
    rw h (tokens_last (cur ++ b ∷ []) w hs ∙ ap (λ c. token c []) (append_assoc cur (b ∷ []) w))

tokens_next :
    (cur w rest : Bytes)
    → All (λ b. is_whitespace b ≡ false) w
    → tokens cur (w ++ (32 ∷ rest)) ≡ token (cur ++ w) (tokens [] rest)
unfolding tokens
tokens_next cur [] rest h = ap (λ c. token c (tokens [] rest)) (sym (append-nil cur))
tokens_next cur (b ∷ w) rest (h, hs) = rw h (
    tokens_next (cur ++ b ∷ []) w rest hs
    ∙ ap (λ c. token c (tokens [] rest)) (append_assoc cur (b ∷ []) w))

tokens_of_line : (k d : Bytes) → IsWord k → IsWord d → tokens [] (k ++ (32 ∷ d)) ≡ k ∷ d ∷ []
tokens_of_line k d (k_some, k_plain) (d_some, d_plain) =
    tokens_next [] k d k_plain
    ∙ token_full [] k _ k_some
    ∙ ap (λ ts. k ∷ ts) (tokens_last [] d d_plain ∙ token_full [] d [] d_some)

no_newline : (b : ℕ) → is_whitespace b ≡ false → (b == 10) ≡ false
no_newline b h = ground arith

lines_next :
    (cur w rest : Bytes)
    → All (λ b. (b == 10) ≡ false) w
    → lines_from cur (w ++ (10 ∷ rest)) ≡ (cur ++ w) ∷ lines_from [] rest
unfolding lines_from
lines_next cur [] rest h = ap (λ c. c ∷ lines_from [] rest) (sym (append-nil cur))
lines_next cur (b ∷ w) rest (h, hs) = rw h (
    lines_next (cur ++ b ∷ []) w rest hs
    ∙ ap (λ c. c ∷ lines_from [] rest) (append_assoc cur (b ∷ []) w))

line_plain :
    (k d : Bytes)
    → All (λ b. is_whitespace b ≡ false) k
    → All (λ b. is_whitespace b ≡ false) d
    → All (λ b. (b == 10) ≡ false) (k ++ (32 ∷ d))
line_plain [] [] h h' = (refl, tt)
line_plain [] (c ∷ d) h (p, ps) = (refl, (no_newline c p, (line_plain [] d tt ps).1))
line_plain (c ∷ k) d (p, ps) h' = (no_newline c p, line_plain k d ps h')

of_line :
    (key k : Bytes) (n : ℕ)
    → IsEntry (k, n)
    → of_tokens key (tokens [] (k ++ (32 ∷ decimal n))) ≡ (if str_eq k key then some n else none)
of_line key k n (word, bound) =
    rw (tokens_of_line k (decimal n) word (decimal-IsWord n), parse_u64-decimal n bound) refl

-- The value that `parse_flat_keyed` reads under a key in a file of the kernel's form, one key
-- with its number on each line, is that of the first line with the key, and there is none without
-- such a line. The keys are words without white space, and the numbers fit 64 bits.
pub parse_flat_keyed-written :
    (entries : List (Bytes × ℕ)) (key : Bytes)
    → All IsEntry entries
    → parse_flat_keyed (written entries) key ≡ lookup key entries
unfolding parse_flat_keyed written find_in lines_from lookup
parse_flat_keyed-written [] key h = refl
parse_flat_keyed-written ((k, n) ∷ entries) key ((word, bound), hs) =
    rw
      (
        lines_next [] (k ++ (32 ∷ decimal n)) (written entries)
            (line_plain k (decimal n) word.1 (decimal-IsWord n).1),
        of_line key k n (word, bound),
        parse_flat_keyed-written entries key hs,
      )
      (ground arith)
