-- ===== src/Snapshots/Paths.antt =====
-- `std::path`, as far as crates/snapshots uses it: a path is the list of its components.
use containerd_rs.Base.{
  List, [], ◌∷◌, ◌++◌, Bytes, text, false, Option, none, some, ◌==◌, if◌then◌else◌, str_eq,
  str_eq_ne, ◌≡◌, ◌≢◌, ap, sym, ◌∙◌, All, length, ◌<◌, arith, append-nil, append_assoc,
}

pub data Component : Type 0 where
  root_dir cur_dir parent_dir : Component
  normal : Bytes → Component

abbrev pub PathBuf : Type 0
PathBuf = List Component

-- The pieces between the slashes; `cur` is the piece that is being read.
pieces : Bytes → Bytes → List Bytes
pieces cur [] = cur ∷ []
pieces cur (c ∷ cs) =
    let here = pieces (cur ++ c ∷ []) cs in
    let split = cur ∷ pieces [] cs in if c == b'/' then split else here

-- Empty pieces and `.` are dropped, `..` stays.
component : Bytes → PathBuf
component piece =
    if str_eq piece []
    then []
    else if str_eq piece (text ".")
    then []
    else if str_eq piece (text "..")
    then parent_dir ∷ []
    else normal piece ∷ []

inner : List Bytes → PathBuf
inner [] = []
inner (p ∷ ps) = component p ++ inner ps

-- The first piece: empty before a leading slash, and `.` is kept in front of a relative path.
from_pieces : Bytes → List Bytes → PathBuf
from_pieces p ps = if str_eq p (text ".") then cur_dir ∷ inner ps else component p ++ inner ps

-- `PathBuf::components`
unfoldable pub components : Bytes → PathBuf
unfolding pieces component inner from_pieces str_eq
components [] = []
components (c ∷ cs) =
    if c == b'/'
    then root_dir ∷ inner (pieces [] cs)
    else elim (pieces [] (c ∷ cs)) [ [] ↦ [] | p ∷ ps ↦ from_pieces p ps ]

abbrev pub HasNoSlash : Bytes → Type 0
HasNoSlash n = All (λ b. (b == b'/') ≡ false) n

pieces_plain : (cur bs : Bytes) → HasNoSlash bs → pieces cur bs ≡ (cur ++ bs) ∷ []
unfolding pieces
pieces_plain cur [] h = ap (λ r. r ∷ []) (sym (append-nil cur))
pieces_plain cur (b ∷ bs) (h, hs) =
    rw h (pieces_plain (cur ++ b ∷ []) bs hs ∙ ap (λ r. r ∷ []) (append_assoc cur (b ∷ []) bs))

shorter : (n m : Bytes) → length m < length n → n ≢ m
shorter n m h e = absurd (let same = ap length e in omega arith)

-- A name of three bytes or more without a slash is one component.
pub components_name : (n : Bytes) → 2 < length n → HasNoSlash n → components n ≡ normal n ∷ []
unfolding components from_pieces component inner
components_name [] h k = absurd (omega arith)
components_name (c ∷ cs) h (k, ks) =
    let n = c ∷ cs in
    rw (k, pieces_plain (c ∷ []) cs ks)
      (ground (
        arith,
        str_eq_ne n (text ".") (shorter n (text ".") (omega arith)),
        str_eq_ne n (text "..") (shorter n (text "..") (omega arith)),
        str_eq_ne n [] (shorter n [] (omega arith)),
      ))

-- The components that a joined path keeps behind another path.
abbrev pub tail_of : PathBuf → PathBuf
tail_of [] = []
tail_of (cur_dir ∷ cs) = tail_of cs
tail_of (c ∷ cs) = c ∷ tail_of cs

-- `p.join(q)`: an absolute `q` stands for itself.
unfoldable pub join : PathBuf → PathBuf → PathBuf
join p (root_dir ∷ q) = root_dir ∷ q
join [] q = q
join p q = p ++ tail_of q

-- `PathBuf::file_name`
unfoldable pub file_name : PathBuf → Option Bytes
file_name [] = none
file_name (normal n ∷ []) = some n
file_name (c ∷ []) = none
file_name (c ∷ d ∷ p) = file_name (d ∷ p)

-- `PathBuf::parent`, where there is a file name: all components but the last.
unfoldable pub parent : PathBuf → PathBuf
parent [] = []
parent (c ∷ []) = []
parent (c ∷ d ∷ p) = c ∷ parent (d ∷ p)
