-- ===== src/Images/Pull/Config.antt =====
-- crates/images/src/pull.rs: `pull_with_options` from the config blob on.
use containerd_rs.Base.{
  ℕ, ◌%◌, ◌^◌, List, [], ◌∷◌, ◌++◌, length, Bytes, text, Option, none, some, Result, ok, err, ◌>>=◌,
}
use containerd_rs.CoreTypes.{Sha256, Digest, sha256, from_str}
use containerd_rs.Content.{Store, write_blob}
use containerd_rs.Content
use containerd_rs.Images.Identity.{chain_ids}
use containerd_rs.Images.Pull.{
  Descriptor, Client, ImageConfigJson, PulledImage, Error, content, config, as_digest,
}
use containerd_rs.Images.Pull.Layers.{Pulling, pull_all}

module _ (client : Client) (sha : Sha256) (pid : ℕ) where
  open client use {Files, parse_config, config_io}

  -- `.map(parse).collect()` of the diffIDs; the first that is malformed is the error.
  unfoldable pub parse_all : List Bytes → Result (Error client) (List Digest)
  parse_all [] = ok []
  parse_all (t ∷ ts) = do d ← as_digest client sha pid (from_str t); ds ← parse_all ts; ok (d ∷ ds)

  abbrev pub manifest_digest_of : Bytes → Result (Error client) (Option Digest)
  manifest_digest_of [] = ok none
  manifest_digest_of (b ∷ bs) = do d ← as_digest client sha pid (from_str (b ∷ bs)); ok (some d)

  -- What the manifest says, with the bytes of the config.
  pub record Fetched : Type 0 where
    pub config_bytes : Bytes
    pub layers : List Descriptor
    pub manifest_digest : Bytes

  abbrev pub answered :
      Bytes
      → Digest
      → List Digest
      → Bytes
      → Pulling client sha pid
      → Result (Error client) (Option Digest)
      → Result (Error client) PulledImage × Pulling client sha pid
  answered reference image_id diff_ids user st (err e) = (err e, st)
  answered reference image_id diff_ids user st (ok manifest_digest) = (
    ok (record {
      reference = reference;
      image_id = image_id;
      manifest_digest = manifest_digest;
      size = st.total;
      diff_ids = diff_ids;
      chain_ids = chain_ids sha diff_ids;
      layer_digests = st.layer_digests;
      user = user;
    }),
    st,
  )

  abbrev pub after_layers :
      Bytes
      → Fetched
      → Digest
      → List Digest
      → Bytes
      → Result (Error client) Unit × Pulling client sha pid
      → Result (Error client) PulledImage × Pulling client sha pid
  after_layers reference m image_id diff_ids user (err e, st) = (err e, st)
  after_layers reference m image_id diff_ids user (ok done, st) =
      answered reference image_id diff_ids user st (manifest_digest_of m.manifest_digest)

  abbrev pub with_diff_ids :
      Bytes
      → Fetched
      → Digest
      → Bytes
      → Pulling client sha pid
      → Result (Error client) (List Digest)
      → Result (Error client) PulledImage × Pulling client sha pid
  with_diff_ids reference m image_id user st (err e) = (err e, st)
  with_diff_ids reference m image_id user st (ok diff_ids) =
      after_layers reference m image_id diff_ids user
        (pull_all client sha pid reference m.layers diff_ids st)

  abbrev pub with_config :
      Bytes
      → Fetched
      → Digest
      → Pulling client sha pid
      → Option ImageConfigJson
      → Result (Error client) PulledImage × Pulling client sha pid
  with_config reference m image_id st none = (err config, st)
  with_config reference m image_id st (some c) =
      with_diff_ids reference m image_id c.user st (parse_all c.diff_ids)

  abbrev pub after_config :
      Bytes
      → Fetched
      → Digest
      → Files
      → Result Content.Error Digest × Store
      → Result (Error client) PulledImage × Pulling client sha pid
  after_config reference m image_id fs (err e, s) =
      (err (content e), record { store = s; files = fs; total = 0; layer_digests = [] })
  after_config reference m image_id fs (ok d, s) =
      with_config reference m image_id
        (record {
          store = s;
          files = fs;
          total = length m.config_bytes % 2 ^ 64;
          layer_digests = [];
        })
        (parse_config m.config_bytes)

  -- `pull_with_options`, behind the fetch of the manifest and the config.
  unfoldable pub pull :
      Bytes → Fetched → Store × Files → Result (Error client) PulledImage × Pulling client sha pid
  unfolding pull_all parse_all
  pull reference m (s, fs) =
      let image_id = sha256 sha m.config_bytes in
      after_config reference m image_id fs
        (write_blob sha pid config_io (text "config:" ++ reference) m.config_bytes image_id s)
