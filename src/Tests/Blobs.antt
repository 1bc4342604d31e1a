-- ===== src/Tests/Blobs.antt =====
-- crates/content/src/lib.rs at concrete inputs, with the toy hash.
use containerd_rs.Base.{
  ℕ, ◌+◌, ◌%◌, ◌^◌, ◌≡◌, ◌↔◌, refl, [], ◌∷◌, Bytes, text, length, lookup, insert, remove, str_eq,
  decimal, ok, err, Option, none, some, true, not, ◌&&◌, if◌then◌else◌, ◌==◌, arith,
}
use containerd_rs.CoreTypes.{sha256, from_str}
use containerd_rs.Content.{
  Store, Io, size_mismatch, digest_mismatch, is_committed, read, Writer, writer, write, commit,
  write_blob, staging_name,
}
use containerd_rs.Content.Commit.{IsIntact, Tracks, commit_err_blobs, commit_iff}
use containerd_rs.Content.Blob.{IsOk, stored, write_blob_lem}
use containerd_rs.Content.Writers.{System, opened, wrote, committed, Reach, here, next, IsSound}
use containerd_rs.Content.Writers.Sound.{Reach-IsSound, empty, empty-IsSound}
use containerd_rs.Tests.Hashes.{toy_sha, toy_update, toy_finalize}

abbrev pub all_ok : Io
all_ok = record {
  mkdir_ok = true;
  create_ok = true;
  write_ok = true;
  sync_ok = true;
  unlink_ok = true;
  rename_ok = true;
}

abbrev pub empty_store : Store
empty_store = record { blobs = []; ingest = []; seq = 0 }

-- A writer that has staged `hi`.
abbrev pub hi : Bytes
hi = text "hi"

abbrev hi_writer : Writer toy_sha 1
hi_writer = record { staging = text "s"; hasher = toy_update 0 hi; written = 2 }

abbrev hi_store : Store
hi_store = record { blobs = []; ingest = (text "s", hi) ∷ []; seq = 1 }

hi-Tracks : Tracks toy_sha 1 hi_writer hi_store hi
unfolding lookup str_eq
hi-Tracks = record { staged = refl; hashed = refl; counted = refl }

hi-IsIntact : IsIntact toy_sha 1 hi_store
unfolding lookup
hi-IsIntact = record { at_name = λ h b e. cc }

commit_iff_example :
    ((commit toy_sha 1 all_ok hi_writer 2 (sha256 toy_sha hi) hi_store).0 ≡ ok (sha256 toy_sha hi))
    ↔ ((length hi ≡ 2) × (sha256 toy_sha hi ≡ sha256 toy_sha hi))
commit_iff_example =
    commit_iff toy_sha 1 all_ok hi_writer 2 (sha256 toy_sha hi) hi_store hi hi-Tracks (omega arith)
      refl refl refl

hi_committed :
    (commit toy_sha 1 all_ok hi_writer 2 (sha256 toy_sha hi) hi_store).0 ≡ ok (sha256 toy_sha hi)
hi_committed =
    (commit_iff toy_sha 1 all_ok hi_writer 2 (sha256 toy_sha hi) hi_store hi hi-Tracks (omega arith)
        refl refl refl).1
      (refl, refl)

-- Three bytes were announced and two were written.
commit_short :
    (commit toy_sha 1 all_ok hi_writer 3 (sha256 toy_sha hi) hi_store).0 ≡ err (size_mismatch 3 2)
unfolding commit
commit_short = refl

commit_err_blobs_example :
    (commit toy_sha 1 all_ok hi_writer 3 (sha256 toy_sha hi) hi_store).1.blobs ≡ []
commit_err_blobs_example =
    commit_err_blobs toy_sha 1 all_ok hi_writer 3 (sha256 toy_sha hi) hi_store (size_mismatch 3 2)
      commit_short

all_IsOk : IsOk all_ok
all_IsOk = (refl, refl, refl, refl, refl, refl)

write_blob_lem_example :
    write_blob toy_sha 1 all_ok (text "ref") hi (sha256 toy_sha hi) empty_store ≡ (
      if str_eq (sha256 toy_sha hi).hex (sha256 toy_sha hi).hex
          then ok (sha256 toy_sha hi)
          else err (digest_mismatch (sha256 toy_sha hi) (sha256 toy_sha hi)),
      record empty_store {
        blobs =
            stored toy_sha 1
              (str_eq (sha256 toy_sha hi).hex (sha256 toy_sha hi).hex
                && not (is_committed empty_store (sha256 toy_sha hi)))
              (sha256 toy_sha hi)
              hi
              [];
        seq = (0 + 1) % 2 ^ 64;
      },
    )
write_blob_lem_example =
    write_blob_lem toy_sha 1 all_ok (text "ref") hi (sha256 toy_sha hi) empty_store all_IsOk
      (omega arith) (unfold lookup in refl)

-- Two writers for one ref, opened one after the other.
abbrev first : Writer toy_sha 1
first = record { staging = staging_name toy_sha 1 (text "r") 0; hasher = 0; written = 0 }

abbrev first_store : Store
first_store = record { blobs = []; ingest = (first.staging, []) ∷ []; seq = 1 }

first_opened : writer toy_sha 1 all_ok (text "r") empty_store ≡ (ok first, first_store)
unfolding writer insert
first_opened = refl

abbrev one_open : System toy_sha 1
one_open = record { store = first_store; live = λ h. if h == 0 then some first else none }

Reach-IsSound_example :
    IsSound toy_sha 1
      (record { store = first_store; live = λ h. if 0 == h then some first else none })
Reach-IsSound_example =
    Reach-IsSound toy_sha 1 (empty-IsSound toy_sha 1)
      (next here (opened all_ok (text "r") 0 first first_store refl (omega arith) first_opened))

-- `hi` staged by that writer and committed.
abbrev at_zero : Option (Writer toy_sha 1) → ℕ → Option (Writer toy_sha 1)
at_zero o h = if 0 == h then o else none

abbrev wrote_hi : Writer toy_sha 1 × Store
wrote_hi = write toy_sha 1 2 hi first first_store

abbrev committed_hi : System toy_sha 1
committed_hi = record {
  store = (commit toy_sha 1 all_ok wrote_hi.0 2 (sha256 toy_sha hi) wrote_hi.1).1;
  live = λ h. if 0 == h then none else if 0 == h then some wrote_hi.0 else at_zero (some first) h;
}

committed_Reach : Reach toy_sha 1 (empty toy_sha 1) committed_hi
committed_Reach =
    next
      (next
        (next here (opened all_ok (text "r") 0 first first_store refl (omega arith) first_opened))
        (wrote 2 hi 0 first refl))
      (committed all_ok 2 (sha256 toy_sha hi) 0 wrote_hi.0 refl)

committed_read : read committed_hi.store (sha256 toy_sha hi) ≡ ok hi
unfolding read commit write sha256 toy_update toy_finalize lookup insert remove staging_name
    from_str is_committed decimal
committed_read = refl
