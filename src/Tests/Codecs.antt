-- ===== src/Tests/Codecs.antt =====
-- A header codec without compression that meets the interface `NvCodec`.
use containerd_rs.Base.{
  ◌^◌, ◌<◌, ◌≡◌, refl, [], ◌∷◌, Bytes, Result, ok, ◌>>=◌, All, length, text, arith,
}
use containerd_rs.Cri.Spdy.Words.{Fault}
use containerd_rs.Cri.Spdy.Frame.{Headers}
use containerd_rs.Cri.Spdy.Nv.{write_nv_block, read_nv_block, IsPair, read_nv_block-write_nv_block}
use containerd_rs.Cri.Spdy.Codec.{NvCodec}

abbrev pub as_is : Bytes → Bytes
as_is b = b

abbrev pub plain_read : Unit {0} → Bytes → Result Fault (Headers × Unit {0})
plain_read d b = do hs ← read_nv_block as_is b; ok (hs, tt)

pub plain_law :
    (e d : Unit {0}) (hs : Headers) (b : Bytes) (e' : Unit {0})
    → Unit {0}
    → (length hs < 2 ^ 32) × All (IsPair as_is) hs
    → ◌≡◌ {A = Result Fault (Bytes × Unit {0})} (ok (write_nv_block hs, tt)) (ok (b, e'))
    → (d' : Unit {0}) × (plain_read d b ≡ ok (hs, d')) × Unit {0}
plain_law e d hs b e' s (n, h) w =
    let same : write_nv_block hs ≡ b = cc in
    (tt, rw (← same) (rw (read_nv_block-write_nv_block as_is hs n h)), tt)

abbrev pub plain : NvCodec
plain = record {
  Deflate = Unit {0};
  Inflate = Unit {0};
  compress_nv = λ e hs. ok (write_nv_block hs, tt);
  decompress_nv = plain_read;
  IsSendable = λ hs. (length hs < 2 ^ 32) × All (IsPair as_is) hs;
  Synced = λ e d. Unit {0};
  decompress-compress = plain_law;
}

abbrev pub stdout_header : Headers
stdout_header = (text "streamType", text "stdout") ∷ []

read_nv_block-write_nv_block_example :
    read_nv_block as_is (write_nv_block stdout_header) ≡ ok stdout_header
read_nv_block-write_nv_block_example =
    read_nv_block-write_nv_block as_is stdout_header (omega arith)
      (((refl, omega arith), (refl, omega arith)), tt)
