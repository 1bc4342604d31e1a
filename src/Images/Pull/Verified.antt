-- ===== src/Images/Pull/Verified.antt =====
-- crates/images/src/pull.rs: what a successful pull has verified of its layers.
use containerd_rs.Base.{
  ◌≡◌, refl, ap, sym, ◌∙◌, subst, ℕ, suc, ℤ, pos, negsuc, List, [], ◌∷◌, length, Bytes, true, false,
  Option, none, some, Result, ok, err, ◌==◌, str_eq, str_eq_iff, lookup, arith, err_ne_ok,
  ok-injective, map, ◌>>=◌, Bool-cases, if_true, if_false, inl, inr,
}
use containerd_rs.CoreTypes.{Sha256, Digest, sha256, from_str}
use containerd_rs.CoreTypes
use containerd_rs.Content.{Store, read}
use containerd_rs.Content
use containerd_rs.Content.Kept.{KeepsBlobs, read-lookup}
use containerd_rs.Snapshots.Diff.{Compression, from_media_type}
use containerd_rs.Images.Identity.{chain_ids}
use containerd_rs.Images.Identity.Chains.{length-chain_ids}
use containerd_rs.Images.Pull.{
  Descriptor, Client, Error, fetch_layer, compute_diff_id, as_digest, PulledImage, ImageConfigJson,
}
use containerd_rs.Images.Pull.Layers.{
  Pulling, compared, checked, fetched, sized, pull_layer, and_then, pull_layers, pull_all,
}
use containerd_rs.Images.Pull.Config.{
  Fetched, answered, after_layers, with_diff_ids, with_config, after_config, pull, parse_all,
}
use containerd_rs.Images.Pull.Blobs.{fetch_layer-KeepsBlobs}

module _ (client : Client) (sha : Sha256) (pid : ℕ) where
  -- The store holds a layer's blob, and what it decompresses to has the diffID.
  abbrev pub IsStored : Store → Descriptor → Digest → Type 0
  IsStored s l diff_id =
      (expected : Digest) × (blob : Bytes) × (from_str l.digest ≡ ok expected)
      × (lookup expected.hex s.blobs ≡ some blob)
      × (compute_diff_id client sha pid blob (from_media_type l.media_type) ≡ ok diff_id)

  -- Every layer is stored, with its diffID at the same place of the other list.
  unfoldable pub AllStored : Store → List Descriptor → List Digest → Type 0
  AllStored s [] [] = Unit
  AllStored s (l ∷ ls) (f ∷ fs) = IsStored s l f × AllStored s ls fs
  AllStored s ls fs = false ≡ true

  IsStored-KeepsBlobs :
      (s t : Store) (l : Descriptor) (f : Digest) → KeepsBlobs s t → IsStored s l f → IsStored t l f
  IsStored-KeepsBlobs s t l f keeps (expected, blob, parsed, there, checks) =
      (expected, blob, parsed, keeps expected.hex blob there, checks)

  compared_ok :
      (i : ℕ) (blob : Bytes) (z : Compression) (f c : Digest) (r : Result (Error client) Digest)
      (st st' : Pulling client sha pid)
      → compared client sha pid i blob z f c r st ≡ (ok tt, st')
      → (r ≡ ok f) × (st'.store ≡ st.store)
  compared_ok i blob z f c (err e) st st' h = absurd (err_ne_ok (ap (λ q. q.0) h))
  compared_ok i blob z f c (ok computed) st st' h = elim (Bool-cases (str_eq computed.hex f.hex)) [
    | inl e ↦ (
      (λ j. ok (record { hex = (str_eq_iff computed.hex f.hex).0 e j })),
      sym (
          ap (λ (q : Result (Error client) Unit × Pulling client sha pid). q.1.store)
            (sym (if_true _ _ (str_eq computed.hex f.hex) e) ∙ h)),
    )
    | inr e ↦
        absurd (err_ne_ok (ap (λ q. q.0) (sym (if_false _ _ (str_eq computed.hex f.hex) e) ∙ h)))
  ]

  checked_ok :
      (i : ℕ) (z : Compression) (f c : Digest) (r : Result Content.Error Bytes)
      (st st' : Pulling client sha pid)
      → checked client sha pid i z f c r st ≡ (ok tt, st')
      → (blob : Bytes) × (r ≡ ok blob)
        × (compute_diff_id client sha pid blob z ≡ ok f)
        × (st'.store ≡ st.store)
  checked_ok i z f c (err e) st st' h = absurd (err_ne_ok (ap (λ q. q.0) h))
  checked_ok i z f c (ok blob) st st' h =
      let (computed, same) = compared_ok i blob z f c _ st st' h in (blob, refl, computed, same)

  fetched_ok :
      (i : ℕ) (z : Compression) (size : ℕ) (d f c : Digest) (st st' : Pulling client sha pid)
      (r : Result (Error client) Digest) (s : Store)
      → fetched client sha pid i z size d f c st (r, s) ≡ (ok tt, st')
      → (blob : Bytes) × (lookup d.hex st'.store.blobs ≡ some blob)
        × (compute_diff_id client sha pid blob z ≡ ok f)
        × (st'.store ≡ s)
  fetched_ok i z size d f c st st' (err e) s h = absurd (err_ne_ok (ap (λ q. q.0) h))
  fetched_ok i z size d f c st st' (ok layer_digest) s h =
      let (blob, was_read, computed, same) = checked_ok i z f c (read s d) _ st' h in
      (
        blob,
        ap (λ (t : Store). lookup d.hex t.blobs) same ∙ read-lookup s d blob was_read,
        computed,
        same,
      )

  sized_ok :
      (reference : Bytes) (i : ℕ) (l : Descriptor) (f c : Digest) (st st' : Pulling client sha pid)
      (r : Result CoreTypes.Error Digest) (size : ℤ)
      → from_str l.digest ≡ r
      → sized client sha pid reference i l f c st (as_digest client sha pid r) size ≡ (ok tt, st')
      → IsStored st'.store l f × KeepsBlobs st.store st'.store
  sized_ok reference i l f c st st' (err e) size parsed h = absurd (err_ne_ok (ap (λ q. q.0) h))
  sized_ok reference i l f c st st' (ok d) (negsuc n) parsed h =
      absurd (err_ne_ok (ap (λ q. q.0) h))
  sized_ok reference i l f c st st' (ok d) (pos size) parsed h =
      let fetch = fetch_layer client sha pid reference i l size d st.store in
      let (blob, there, computed, same) = fetched_ok i _ size d f c st st' fetch.0 fetch.1 h in
      (
        (d, blob, parsed, there, computed),
        λ k b old.
            ap (λ (t : Store). lookup k t.blobs) same
            ∙ fetch_layer-KeepsBlobs client sha pid reference i l size d st.store k b old,
      )

  pull_layer_ok :
      (reference : Bytes) (i : ℕ) (l : Descriptor) (f c : Digest) (st st' : Pulling client sha pid)
      → pull_layer client sha pid reference i l f c st ≡ (ok tt, st')
      → IsStored st'.store l f × KeepsBlobs st.store st'.store
  unfolding pull_layer
  pull_layer_ok reference i l f c st st' h =
      sized_ok reference i l f c st st' (from_str l.digest) l.size refl h

  and_then_ok :
      (r : Result (Error client) Unit) (mid st' : Pulling client sha pid)
      (more : Pulling client sha pid → Result (Error client) Unit × Pulling client sha pid)
      → and_then client sha pid (r, mid) more ≡ (ok tt, st')
      → (r ≡ ok tt) × (more mid ≡ (ok tt, st'))
  and_then_ok (err e) mid st' more h = absurd (err_ne_ok (ap (λ q. q.0) h))
  and_then_ok (ok done) mid st' more h = (refl, h)

  -- The loop keeps what it has verified.
  pull_layers_ok :
      (reference : Bytes) (i : ℕ) (ls : List Descriptor) (fs cs : List Digest)
      (st st' : Pulling client sha pid)
      → length fs ≡ length ls
      → length cs ≡ length ls
      → pull_layers client sha pid reference i ls fs cs st ≡ (ok tt, st')
      → AllStored st'.store ls fs × KeepsBlobs st.store st'.store
  unfolding pull_layers AllStored
  pull_layers_ok reference i [] [] cs st st' n m h = (
    tt,
    λ k b old.
        ap (λ (q : Result (Error client) Unit × Pulling client sha pid). lookup k q.1.store.blobs)
          (sym h)
        ∙ old,
  )
  pull_layers_ok reference i [] (f ∷ fs) cs st st' n m h = absurd (omega (arith, n))
  pull_layers_ok reference i (l ∷ ls) [] cs st st' n m h = absurd (omega (arith, n))
  pull_layers_ok reference i (l ∷ ls) (f ∷ fs) [] st st' n m h = absurd (omega (arith, m))
  pull_layers_ok reference i (l ∷ ls) (f ∷ fs) (c ∷ cs) st st' n m h =
      let one = pull_layer client sha pid reference i l f c st in
      let (fine, rest) =
        and_then_ok one.0 one.1 st' (pull_layers client sha pid reference (suc i) ls fs cs) h in
      let (stored, keeps) = pull_layer_ok reference i l f c st one.1 (λ j. (fine j, one.1)) in
      let (others, keeps') =
        pull_layers_ok reference (suc i) ls fs cs one.1 st' (omega (arith, n)) (omega (arith, m))
          rest in
      (
        (IsStored-KeepsBlobs one.1.store st'.store l f keeps' stored, others),
        λ k b old. keeps' k b (keeps k b old),
      )

  pull_all_ok :
      (reference : Bytes) (ls : List Descriptor) (fs : List Digest)
      (st st' : Pulling client sha pid)
      → pull_all client sha pid reference ls fs st ≡ (ok tt, st')
      → AllStored st'.store ls fs
  unfolding pull_all
  pull_all_ok reference ls fs st st' h = elim (Bool-cases (length fs == length ls)) [
    | inl e ↦
        let same : length fs ≡ length ls = ground (arith) in
        (pull_layers_ok reference 0 ls fs (chain_ids sha fs) st st' same
          (length-chain_ids sha fs ∙ same) (sym (if_true _ _ (length fs == length ls) e) ∙ h)).0
    | inr e ↦ absurd (err_ne_ok (ap (λ q. q.0) (sym (if_false _ _ (length fs == length ls) e) ∙ h)))
  ]

  parsed_cons :
      (q : Result CoreTypes.Error Digest) (r : Result (Error client) (List Digest))
      (ds : List Digest)
      → (do d ← as_digest client sha pid q; rest ← r; ok (d ∷ rest)) ≡ ok ds
      → (d : Digest) × (rest : List Digest) × (q ≡ ok d) × (r ≡ ok rest) × (d ∷ rest ≡ ds)
  parsed_cons (err e) r ds h = absurd (err_ne_ok h)
  parsed_cons (ok d) (err e) ds h = absurd (err_ne_ok h)
  parsed_cons (ok d) (ok rest) ds h = (d, rest, refl, refl, ok-injective h)

  -- Every diffID of the config is the text of the digest at its place.
  abbrev pub AreParsed : List Bytes → List Digest → Type 0
  AreParsed ts ds = map from_str ts ≡ map (λ d. ok d) ds

  parse_all_ok :
      (ts : List Bytes) (ds : List Digest) → parse_all client sha pid ts ≡ ok ds → AreParsed ts ds
  unfolding parse_all
  parse_all_ok [] ds h = ap (map (λ d. ok d)) (ok-injective h)
  parse_all_ok (t ∷ ts) ds h =
      let (d, rest, here, others, e) =
        parsed_cons (from_str t) (parse_all client sha pid ts) ds h in
      rw (here, parse_all_ok ts rest others) (ap (map (λ d. ok d)) e)

  -- What a pull that succeeds has verified.
  abbrev pub IsVerified : Fetched client sha pid → PulledImage → Store → Type 0
  IsVerified m pulled s =
      ((c : ImageConfigJson) × (client.parse_config m.config_bytes ≡ some c)
        × AreParsed c.diff_ids pulled.diff_ids)
      × AllStored s m.layers pulled.diff_ids
      × (pulled.chain_ids ≡ chain_ids sha pulled.diff_ids)
      × (pulled.image_id ≡ sha256 sha m.config_bytes)

  -- The diffIDs are those of the config.
  abbrev AreConfigured : Fetched client sha pid → List Digest → Type 0
  AreConfigured m fs =
      (c : ImageConfigJson) × (client.parse_config m.config_bytes ≡ some c)
      × AreParsed c.diff_ids fs

  answered_ok :
      (reference : Bytes) (m : Fetched client sha pid) (fs : List Digest) (user : Bytes)
      (st st' : Pulling client sha pid) (r : Result (Error client) (Option Digest))
      (pulled : PulledImage)
      → AreConfigured m fs
      → AllStored st.store m.layers fs
      → answered client sha pid reference (sha256 sha m.config_bytes) fs user st r
        ≡ (ok pulled, st')
      → IsVerified m pulled st'.store
  answered_ok reference m fs user st st' (err e) pulled from stored h =
      absurd (err_ne_ok (ap (λ q. q.0) h))
  answered_ok reference m fs user st st' (ok d) pulled from stored h =
      subst (λ (q : PulledImage × Pulling client sha pid). IsVerified m q.0 q.1.store)
        (λ j. (ok-injective {E = Error client} (ap (λ q. q.0) h) j, (ap (λ q. q.1) h) j))
        (from, stored, refl, refl)

  after_layers_ok :
      (reference : Bytes) (m : Fetched client sha pid) (fs : List Digest) (user : Bytes)
      (r : Result (Error client) Unit) (st st' : Pulling client sha pid) (pulled : PulledImage)
      → AreConfigured m fs
      → (r ≡ ok tt → AllStored st.store m.layers fs)
      → after_layers client sha pid reference m (sha256 sha m.config_bytes) fs user (r, st)
        ≡ (ok pulled, st')
      → IsVerified m pulled st'.store
  after_layers_ok reference m fs user (err e) st st' pulled from stored h =
      absurd (err_ne_ok (ap (λ q. q.0) h))
  after_layers_ok reference m fs user (ok done) st st' pulled from stored h =
      answered_ok reference m fs user st st' _ pulled from (stored refl) h

  with_diff_ids_ok :
      (reference : Bytes) (m : Fetched client sha pid) (user : Bytes)
      (st st' : Pulling client sha pid) (r : Result (Error client) (List Digest))
      (pulled : PulledImage)
      → ((fs : List Digest) → r ≡ ok fs → AreConfigured m fs)
      → with_diff_ids client sha pid reference m (sha256 sha m.config_bytes) user st r
        ≡ (ok pulled, st')
      → IsVerified m pulled st'.store
  with_diff_ids_ok reference m user st st' (err e) pulled from h =
      absurd (err_ne_ok (ap (λ q. q.0) h))
  with_diff_ids_ok reference m user st st' (ok fs) pulled from h =
      let done = pull_all client sha pid reference m.layers fs st in
      after_layers_ok reference m fs user done.0 done.1 st' pulled (from fs refl)
        (λ fine. pull_all_ok reference m.layers fs st done.1 (λ j. (fine j, done.1))) h

  with_config_ok :
      (reference : Bytes) (m : Fetched client sha pid) (st st' : Pulling client sha pid)
      (c : Option ImageConfigJson) (pulled : PulledImage)
      → client.parse_config m.config_bytes ≡ c
      → with_config client sha pid reference m (sha256 sha m.config_bytes) st c ≡ (ok pulled, st')
      → IsVerified m pulled st'.store
  with_config_ok reference m st st' none pulled is h = absurd (err_ne_ok (ap (λ q. q.0) h))
  with_config_ok reference m st st' (some c) pulled is h =
      with_diff_ids_ok reference m c.user st st' _ pulled
        (λ fs parsed. (c, is, parse_all_ok c.diff_ids fs parsed)) h

  after_config_ok :
      (reference : Bytes) (m : Fetched client sha pid) (fs : client.Files)
      (r : Result Content.Error Digest) (s : Store) (st' : Pulling client sha pid)
      (pulled : PulledImage)
      → after_config client sha pid reference m (sha256 sha m.config_bytes) fs (r, s)
        ≡ (ok pulled, st')
      → IsVerified m pulled st'.store
  after_config_ok reference m fs (err e) s st' pulled h = absurd (err_ne_ok (ap (λ q. q.0) h))
  after_config_ok reference m fs (ok d) s st' pulled h =
      with_config_ok reference m _ st' _ pulled refl h

  -- Behind a pull that succeeds the store holds the blob of every layer of the manifest, under the
  -- digest that the manifest gives, and it decompresses to bytes that hash to the diffID at the same
  -- place of the config; there are as many of these as layers. The diffIDs that it answers with are
  -- what the texts in the config parse to, one for one, the chainIDs are those of the diffIDs, and
  -- the image's id is the hash of the config.
  pub pull-IsVerified :
      (reference : Bytes) (m : Fetched client sha pid) (s : Store) (fs : client.Files)
      (st' : Pulling client sha pid) (pulled : PulledImage)
      → pull client sha pid reference m (s, fs) ≡ (ok pulled, st')
      → IsVerified m pulled st'.store
  unfolding pull
  pull-IsVerified reference m s fs st' pulled h = after_config_ok reference m fs _ _ st' pulled h
