-- ===== src/Tests/Encodings.antt =====
-- A toy encoding, made of that of the parts; the children have those of the records.
pub mod Containers
pub mod Sandboxes
use containerd_rs.Base.{
  ◌≡◌, refl, ap, sym, ◌∙◌, ℕ, zero, suc, ℤ, pos, negsuc, List, [], ◌∷◌, ◌++◌, Bytes, Bool, true,
  false, Option, none, some, Result, ok, length, take, drop, take-length_append, drop-length_append,
  ok-injective,
}
use containerd_rs.Metadata.Records.{Labels}
use containerd_rs.Metadata.Store.{Error}

-- Writing in front of a text, and reading back what was written with the text behind it.
pub record Codec (A : Type 0) : Type 0 where
  pub enc : A → Bytes → Bytes
  pub dec : Bytes → A × Bytes
  pub law : (a : A) (rest : Bytes) → dec (enc a rest) ≡ (a, rest)

abbrev read_nat : Bytes → ℕ × Bytes
read_nat [] = (0, [])
read_nat (n ∷ rest) = (n, rest)

abbrev pub nat : Codec ℕ
nat = record { enc = λ n rest. n ∷ rest; dec = read_nat; law = λ n rest. refl }

abbrev read_bytes : Bytes → Bytes × Bytes
read_bytes [] = ([], [])
read_bytes (n ∷ rest) = (take n rest, drop n rest)

pub read_bytes-back : (b rest : Bytes) → read_bytes (length b ∷ (b ++ rest)) ≡ (b, rest)
read_bytes-back b rest = rw (take-length_append b rest, drop-length_append b rest) refl

abbrev pub bytes : Codec Bytes
bytes = record { enc = λ b rest. length b ∷ (b ++ rest); dec = read_bytes; law = read_bytes-back }

infixr 4 ◌&◌
abbrev pub ◌&◌ : {A B : Type 0} → Codec A → Codec B → Codec (A × B)
c & d = record {
  enc = λ p rest. c.enc p.0 (d.enc p.1 rest);
  dec = λ s. let r = c.dec s in let q = d.dec r.1 in ((r.0, q.0), q.1);
  law = λ p rest. rw (c.law p.0 (d.enc p.1 rest), d.law p.1 rest) refl;
}

-- The same of what another type stands for.
abbrev pub via :
    {A B : Type 0} (to : A → B) (from : B → A) → ((a : A) → from (to a) ≡ a) → Codec B → Codec A
via to from back c = record {
  enc = λ a rest. c.enc (to a) rest;
  dec = λ s. let r = c.dec s in (from r.0, r.1);
  law = λ a rest. rw (c.law (to a) rest) (ap (λ x. (x, rest)) (back a));
}

module _ {A : Type 0} (c : Codec A) where
  abbrev write_all : List A → Bytes → Bytes
  write_all [] rest = rest
  write_all (a ∷ l) rest = c.enc a (write_all l rest)

  abbrev read_all : ℕ → Bytes → List A × Bytes
  read_all zero s = ([], s)
  read_all (suc n) s = let r = c.dec s in let q = read_all n r.1 in (r.0 ∷ q.0, q.1)

  pub read_all-back :
      (l : List A) (rest : Bytes) → read_all (length l) (write_all l rest) ≡ (l, rest)
  read_all-back [] rest = refl
  read_all-back (a ∷ l) rest = rw (c.law a (write_all l rest), read_all-back l rest) refl

  abbrev read_list : Bytes → List A × Bytes
  read_list [] = ([], [])
  read_list (n ∷ s) = read_all n s

  abbrev pub list : Codec (List A)
  list = record {
    enc = λ l rest. length l ∷ write_all l rest;
    dec = read_list;
    law = read_all-back;
  }

  abbrev first : List A → Option A
  first [] = none
  first (a ∷ l) = some a

  abbrev singles : Option A → List A
  singles none = []
  singles (some a) = a ∷ []

  pub first-singles : (o : Option A) → first (singles o) ≡ o
  first-singles none = refl
  first-singles (some a) = refl

  abbrev pub option : Codec (Option A)
  option = via singles first first-singles list

abbrev of_bool : Bool → ℕ
of_bool true = 1
of_bool false = 0

abbrev to_bool : ℕ → Bool
to_bool zero = false
to_bool (suc n) = true

pub bool_back : (b : Bool) → to_bool (of_bool b) ≡ b
bool_back true = refl
bool_back false = refl

abbrev pub bool : Codec Bool
bool = via of_bool to_bool bool_back nat

abbrev of_int : ℤ → ℕ × ℕ
of_int (pos n) = (0, n)
of_int (negsuc n) = (1, n)

abbrev to_int : ℕ × ℕ → ℤ
to_int (zero, n) = pos n
to_int (suc k, n) = negsuc n

pub int_back : (i : ℤ) → to_int (of_int i) ≡ i
int_back (pos n) = refl
int_back (negsuc n) = refl

abbrev pub int : Codec ℤ
int = via of_int to_int int_back (nat & nat)

abbrev pub labels : Codec Labels
labels = list (bytes & bytes)

module _ {A : Type 0} (c : Codec A) where
  abbrev pub to_json : A → Result Error Bytes
  to_json a = ok (c.enc a [])

  abbrev pub from_json : Bytes → Result Error A
  from_json b = ok (c.dec b).0

  pub json_back : (a : A) (b : Bytes) → to_json a ≡ ok b → from_json b ≡ ok a
  json_back a b h =
      ap (λ s. ok (c.dec s).0) (sym (ok-injective h)) ∙ ap (λ q. ok (q.0)) (c.law a [])
