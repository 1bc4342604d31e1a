-- ===== src/Tests/Pulls.antt =====
-- crates/images at concrete inputs.
use containerd_rs.Base.{
  ℕ, ◌≡◌, ◌↔◌, refl, sym, ap, ◌∙◌, List, [], ◌∷◌, ◌++◌, Bytes, text, true, not, ◌&&◌, none, some,
  Result, ok, lookup, if◌then◌else◌, str_eq, All,
}
use containerd_rs.CoreTypes.{Digest, display}
use containerd_rs.CoreTypes
use containerd_rs.Content.{Store}
use containerd_rs.Snapshots.Paths.{PathBuf, root_dir, normal, components}
use containerd_rs.Snapshots.Files.{Fs, dir}
use containerd_rs.Snapshots.Diff.{names}
use containerd_rs.Metadata.Records.{ImageRecord}
use containerd_rs.Images.Identity.{chain_ids, Platform, select_manifest}
use containerd_rs.Images.Identity.Chains.{chained, chain_ids-append}
use containerd_rs.Images.Identity.Platforms.{Selection, select_manifest_iff}
use containerd_rs.Images.Gc.{contains, referenced_blobs, live_blobs, reclaim}
use containerd_rs.Images.Gc.Blobs.{IsCanonical, reclaim_lem}
use containerd_rs.Images.Gc.Trees.{unpack_dir, reclaim_keeps_unpacked}
use containerd_rs.Tests.Hashes.{toy_sha, toy_finalize, toy_finalize-IsHex, sevens, sevens_parsed}
use containerd_rs.Tests.Blobs.{all_ok, hi}

abbrev fives : Digest
fives = record { hex = toy_finalize 5 }

abbrev fives_chain : Digest
fives_chain = record {
  hex = toy_sha.finalize (toy_sha.update toy_sha.new (chained toy_sha sevens fives));
}

chain_ids-append_example :
    (chain_ids toy_sha (fives ∷ []) ≡ fives ∷ [])
    × chain_ids toy_sha (sevens ∷ fives ∷ []) ≡ chain_ids toy_sha (sevens ∷ []) ++ fives_chain ∷ []
unfolding chain_ids containerd_rs.Images.Identity.next
chain_ids-append_example = chain_ids-append toy_sha (sevens ∷ []) [] sevens fives refl

abbrev arm : Platform
arm = record { os = text "linux"; architecture = text "arm64"; variant = none }

abbrev arm_v8 : Platform
arm_v8 = record { os = text "linux"; architecture = text "arm64"; variant = some (text "v8") }

abbrev amd : Platform
amd = record { os = text "linux"; architecture = text "amd64"; variant = none }

abbrev index : List (Platform × ℕ)
index = (amd, 1) ∷ (arm_v8, 2) ∷ []

select_manifest_iff_example : (select_manifest arm index ≡ some 2) ↔ Selection arm index 2
select_manifest_iff_example = select_manifest_iff arm index 2

abbrev pub sevens_record : ImageRecord
sevens_record = record {
  name = text "img";
  target_digest = [];
  image_id = display sevens;
  repo_tags = [];
  repo_digests = [];
  size = 0;
  layer_digests = [];
  chain_ids = display sevens ∷ [];
  user = [];
}

ok_injective : (d e : Digest) → ◌≡◌ {A = Result CoreTypes.Error Digest} (ok d) (ok e) → d ≡ e
ok_injective d e h = cc

sevens-IsCanonical : IsCanonical (display sevens)
sevens-IsCanonical d e = ap display (ok_injective d sevens (sym e ∙ sevens_parsed))

abbrev pub snapshots_root : PathBuf
snapshots_root = root_dir ∷ normal (text "s") ∷ []

abbrev pub full : Fs
full p = some dir

abbrev pub one_blob : Store
one_blob = record { blobs = (toy_finalize 7, hi) ∷ []; ingest = []; seq = 1 }

pub references-IsCanonical : All IsCanonical (referenced_blobs sevens_record)
unfolding referenced_blobs
references-IsCanonical = (sevens-IsCanonical, tt)

reclaim_lem_example :
    lookup
      (toy_finalize 7)
      (reclaim
        (λ d. all_ok)
        40
        (λ p. true)
        snapshots_root
        sevens_record
        []
        (one_blob, full)).1.0.blobs
    ≡ (if contains (referenced_blobs sevens_record) (display sevens)
          && not (contains (live_blobs []) (display sevens))
        then none
        else lookup (toy_finalize 7) one_blob.blobs)
reclaim_lem_example =
    reclaim_lem (λ d. all_ok) 40 (λ p. true) snapshots_root sevens_record [] one_blob full sevens
      (λ d. refl) references-IsCanonical (toy_finalize-IsHex 7)

reclaim_keeps_unpacked_example :
    (reclaim (λ d. all_ok) 40 (λ p. true) snapshots_root sevens_record [] (one_blob, full)).1.1
      (names (unpack_dir snapshots_root sevens) ++ text "bin" ∷ [])
    ≡ full (names (unpack_dir snapshots_root sevens) ++ text "bin" ∷ [])
reclaim_keeps_unpacked_example =
    reclaim_keeps_unpacked (λ d. all_ok) 40 (λ p. true) snapshots_root sevens_record [] one_blob
      full (sevens ∷ []) sevens (text "bin" ∷ []) refl (toy_finalize-IsHex 7, tt)
      (toy_finalize-IsHex 7)

abbrev live_chain : List Bytes
live_chain = text "abc" ∷ []

abc_name : components (text "abc") ≡ normal (text "abc") ∷ []
unfolding components
abc_name = refl

def_name : components (text "def") ≡ normal (text "def") ∷ []
unfolding components
def_name = refl

abc_live : contains live_chain (text "abc") ≡ true
unfolding contains str_eq
abc_live = refl
