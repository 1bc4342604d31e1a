-- ===== src/Images/Pull/Blobs.antt =====
-- crates/images/src/pull.rs: fetching a layer keeps the blobs that are there.
use containerd_rs.Base.{
  ◌≡◌, refl, ap, ◌∙◌, ℕ, List, [], ◌∷◌, ◌++◌, length, Bytes, text, Result, ok, err, lookup,
  Bool-cases, if_true, if_false, inl, inr, decimal,
}
use containerd_rs.CoreTypes.{Sha256, Digest}
use containerd_rs.Content.{Store, Io, Writer, writer, write, commit}
use containerd_rs.Content
use containerd_rs.Content.Kept.{
  KeepsBlobs, commit-KeepsBlobs, writer-KeepsBlobs, drop_writer-KeepsBlobs,
}
use containerd_rs.Images.Pull.{
  Descriptor, Client, Error, write_chunks, committed, commit_chunks, streamed, with_writer,
  fetch_layer,
}

module _ (client : Client) (sha : Sha256) (pid : ℕ) where
  write_chunks-blobs :
      (i : Io) (chunks : List (Result client.RegistryError Bytes)) (w : Writer sha pid) (s : Store)
      → (write_chunks client sha pid i chunks w s).1.blobs ≡ s.blobs
  unfolding write_chunks write
  write_chunks-blobs i [] w s = refl
  write_chunks-blobs i (err e ∷ chunks) w s = drop_writer-KeepsBlobs sha pid i w s
  write_chunks-blobs i (ok chunk ∷ chunks) w s = elim (Bool-cases i.write_ok) [
    | inl e ↦
        ap (λ (q : Result (Error client) (Writer sha pid) × Store). q.1.blobs)
          (if_true _ _ i.write_ok e)
        ∙ write_chunks-blobs i chunks _ (write sha pid (length chunk) chunk w s).1
    | inr e ↦
        ap (λ (q : Result (Error client) (Writer sha pid) × Store). q.1.blobs)
          (if_false _ _ i.write_ok e)
        ∙ drop_writer-KeepsBlobs sha pid i w s
  ]

  committed_store : (q : Result Content.Error Digest × Store) → (committed client sha pid q).1 ≡ q.1
  committed_store (err e, s) = refl
  committed_store (ok d, s) = refl

  commit_chunks-KeepsBlobs :
      (i : Io) (size : ℕ) (d : Digest) (r : Result (Error client) (Writer sha pid)) (s : Store)
      → KeepsBlobs s (commit_chunks client sha pid i size d (r, s)).1
  commit_chunks-KeepsBlobs i size d (err e) s h b there = there
  commit_chunks-KeepsBlobs i size d (ok w) s h b there =
      ap (λ t. lookup h t.blobs) (committed_store (commit sha pid i w size d s))
      ∙ commit-KeepsBlobs sha pid i w size d s h b there

  streamed-KeepsBlobs :
      (i : Io) (size : ℕ) (d : Digest)
      (stream : Result client.RegistryError (List (Result client.RegistryError Bytes)))
      (w : Writer sha pid) (s : Store)
      → KeepsBlobs s (streamed client sha pid i size d stream w s).1
  streamed-KeepsBlobs i size d (err e) w s h b there =
      ap (lookup h) (drop_writer-KeepsBlobs sha pid i w s) ∙ there
  streamed-KeepsBlobs i size d (ok chunks) w s h b there =
      commit_chunks-KeepsBlobs i size d _ _ h b
        (ap (lookup h) (write_chunks-blobs i chunks w s) ∙ there)

  with_writer-KeepsBlobs :
      (i : Io) (size : ℕ) (d : Digest)
      (stream : Result client.RegistryError (List (Result client.RegistryError Bytes)))
      (r : Result Content.Error (Writer sha pid)) (s : Store)
      → KeepsBlobs s (with_writer client sha pid i size d stream (r, s)).1
  with_writer-KeepsBlobs i size d stream (err e) s h b there = there
  with_writer-KeepsBlobs i size d stream (ok w) s h b there =
      streamed-KeepsBlobs i size d stream w s h b there

  pub fetch_layer-KeepsBlobs :
      (reference : Bytes) (i : ℕ) (l : Descriptor) (size : ℕ) (d : Digest) (s : Store)
      → KeepsBlobs s (fetch_layer client sha pid reference i l size d s).1
  unfolding fetch_layer
  fetch_layer-KeepsBlobs reference i l size d s h b there =
      let name = reference ++ (text ":layer:" ++ decimal i) in
      let opened = writer sha pid (client.layer_io i) name s in
      with_writer-KeepsBlobs (client.layer_io i) size d (client.pull_blob_stream i l) opened.0
        opened.1 h b (ap (lookup h) (writer-KeepsBlobs sha pid (client.layer_io i) name s) ∙ there)
