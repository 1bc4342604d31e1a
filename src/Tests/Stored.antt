-- ===== src/Tests/Stored.antt =====
-- A toy encoding of image records: every text is written behind its length.
use containerd_rs.Base.{
  ◌≡◌, refl, ap, ℕ, zero, suc, List, [], ◌∷◌, ◌++◌, Bytes, Result, ok, length, take, drop,
  take-length_append, drop-length_append, subst, ok-injective,
}
use containerd_rs.Metadata.Records.{ImageRecord}
use containerd_rs.Metadata.Store.{Error}

write_texts : List Bytes → Bytes → Bytes
write_texts [] rest = rest
write_texts (b ∷ l) rest = length b ∷ (b ++ write_texts l rest)

read_texts : ℕ → Bytes → List Bytes × Bytes
read_texts zero s = ([], s)
read_texts (suc n) [] = ([], [])
read_texts (suc n) (k ∷ s) = let more = read_texts n (drop k s) in (take k s ∷ more.0, more.1)

read_texts-write_texts :
    (l : List Bytes) (rest : Bytes) → read_texts (length l) (write_texts l rest) ≡ (l, rest)
unfolding read_texts write_texts
read_texts-write_texts [] rest = refl
read_texts-write_texts (b ∷ l) rest =
    rw
      (
        take-length_append b (write_texts l rest),
        drop-length_append b (write_texts l rest),
        read_texts-write_texts l rest,
      )
      refl

write_groups : List (List Bytes) → Bytes
unfolding write_texts
write_groups [] = []
write_groups (l ∷ ls) = length l ∷ write_texts l (write_groups ls)

read_groups : ℕ → Bytes → List (List Bytes)
unfolding read_texts
read_groups zero s = []
read_groups (suc n) [] = []
read_groups (suc n) (k ∷ s) = let more = read_texts k s in more.0 ∷ read_groups n more.1

read_groups-write_groups : (ls : List (List Bytes)) → read_groups (length ls) (write_groups ls) ≡ ls
unfolding read_groups write_groups
read_groups-write_groups [] = refl
read_groups-write_groups (l ∷ ls) =
    rw (read_texts-write_texts l (write_groups ls), read_groups-write_groups ls) refl

abbrev groups : ImageRecord → List (List Bytes)
groups r =
    (r.name ∷ r.target_digest ∷ r.image_id ∷ (r.size ∷ []) ∷ r.user ∷ [])
    ∷ r.repo_tags
    ∷ r.repo_digests
    ∷ r.layer_digests
    ∷ r.chain_ids
    ∷ []

abbrev none_such : ImageRecord
none_such = record {
  name = [];
  target_digest = [];
  image_id = [];
  repo_tags = [];
  repo_digests = [];
  size = 0;
  layer_digests = [];
  chain_ids = [];
  user = [];
}

abbrev of_groups : List (List Bytes) → ImageRecord
of_groups ((n ∷ t ∷ i ∷ (s ∷ []) ∷ u ∷ []) ∷ tags ∷ digests ∷ layers ∷ chains ∷ []) = record {
  name = n;
  target_digest = t;
  image_id = i;
  repo_tags = tags;
  repo_digests = digests;
  size = s;
  layer_digests = layers;
  chain_ids = chains;
  user = u;
}
of_groups other = none_such

unfoldable pub write_record : ImageRecord → Result Error Bytes
unfolding write_groups
write_record r = ok (write_groups (groups r))

unfoldable pub read_record : Bytes → Result Error ImageRecord
unfolding read_groups
read_record b = ok (of_groups (read_groups 5 b))

pub read_record-write_record :
    (r : ImageRecord) (bytes : Bytes) → write_record r ≡ ok bytes → read_record bytes ≡ ok r
unfolding write_record read_record
read_record-write_record r bytes h =
    subst (λ b. read_record b ≡ ok r) (ok-injective h)
      (ap (λ ls. ok (of_groups ls)) (read_groups-write_groups (groups r)))
