-- ===== src/Tests/Spdy.antt =====
-- crates/cri/src/spdy.rs: the frame codec and the read loop at concrete inputs.
use containerd_rs.Base.{
  ℕ, ◌≤◌, ◌≡◌, ◌≢◌, refl, inl, [], ◌∷◌, ◌++◌, Bytes, text, length, take, drop, ok, err, none, some,
  Bool, true, false, arith, get_elem?, zero, suc, ◌==◌, if◌then◌else◌,
}
use containerd_rs.Cri.Spdy.Words.{panic, wr_u32, wr_u24, rd_u32}
use containerd_rs.Cri.Spdy.Frame.{Frame, syn_stream, ping, data_frame}
use containerd_rs.Cri.Spdy.Nv.{write_nv_block}
use containerd_rs.Cri.Spdy.Codec.{frame_bytes, parse_frame, parse_control}
use containerd_rs.Cri.Spdy.Codec.RoundTrip.{IsFrame, parse_frame-frame_bytes}
use containerd_rs.Cri.Spdy.Codec.Prefix.{
  parse_frame_bounds, parse_frame_partial, parse_frame_short_panics,
}
use containerd_rs.Cri.Spdy.Conn.{SpdyStream, World, Loop, go, stuck, handle, drain, read_loop}
use containerd_rs.Cri.Spdy.Conn.Chunks.{drain-ne-stuck, read_loop_cuts}
use containerd_rs.Cri.Spdy.Conn.Streams.{IsTable, HasTable, drain-HasTable, data_delivery}
use containerd_rs.Tests.Codecs.{plain, stdout_header}

abbrev syn : Frame
syn = syn_stream 1 0 stdout_header

-- The block of `stdout_header`: one pair, with the lengths of its texts.
abbrev block : Bytes
block = 0 ∷ 0 ∷ 0 ∷ 1 ∷ 0 ∷ 0 ∷ 0 ∷ 10 ∷ (text "streamType" ++ (0 ∷ 0 ∷ 0 ∷ 6 ∷ text "stdout"))

abbrev syn_bytes : Bytes
syn_bytes = 128 ∷ 3 ∷ 0 ∷ 1 ∷ 0 ∷ 0 ∷ 0 ∷ 38 ∷ 0 ∷ 0 ∷ 0 ∷ 1 ∷ 0 ∷ 0 ∷ 0 ∷ 0 ∷ 0 ∷ 0 ∷ block

abbrev syn_IsFrame : IsFrame plain syn
syn_IsFrame = (omega arith, (omega arith, (((refl, omega arith), (refl, omega arith)), tt)))

syn_written : frame_bytes plain tt syn ≡ ok (syn_bytes, tt)
unfolding frame_bytes write_nv_block wr_u32 wr_u24
syn_written = refl

parse_frame-frame_bytes_example :
    (d' : Unit {0}) × (parse_frame plain tt (syn_bytes ++ 7 ∷ [])
      ≡ ok (some (syn, length syn_bytes, d')))
    × Unit {0}
parse_frame-frame_bytes_example =
    parse_frame-frame_bytes plain tt tt tt syn syn_bytes (7 ∷ []) tt syn_IsFrame syn_written
      (omega arith)

parse_frame_partial_example : parse_frame plain tt (take 20 syn_bytes) ≡ ok none
parse_frame_partial_example =
    parse_frame_partial plain tt tt tt syn (take 20 syn_bytes) (drop 20 syn_bytes) tt syn_IsFrame
      syn_written (omega arith) (λ e. cc)

-- A PING frame with the id 42.
abbrev ping_bytes : Bytes
ping_bytes = 128 ∷ 3 ∷ 0 ∷ 6 ∷ 0 ∷ 0 ∷ 0 ∷ 4 ∷ 0 ∷ 0 ∷ 0 ∷ 42 ∷ []

ping_parsed : parse_frame plain tt (ping_bytes ++ 9 ∷ []) ≡ ok (some (ping 42, 12, tt))
unfolding parse_frame parse_control rd_u32
ping_parsed = refl

parse_frame_bounds_example : (8 ≤ 12) × (12 ≤ 13)
parse_frame_bounds_example =
    parse_frame_bounds plain tt tt (ping_bytes ++ 9 ∷ []) (ping 42) 12 ping_parsed

-- A SYN_STREAM whose length field is 2.
parse_frame_short_panics_example :
    parse_frame plain tt (128 ∷ 3 ∷ 0 ∷ 1 ∷ 0 ∷ 0 ∷ 0 ∷ 2 ∷ 5 ∷ 5 ∷ 6 ∷ []) ≡ err panic
parse_frame_short_panics_example =
    parse_frame_short_panics plain tt 128 3 0 1 0 (5 ∷ 5 ∷ []) (6 ∷ []) refl (inl refl)
      (omega arith)

abbrev always : ℕ → Bool
always n = true

abbrev world : World plain
world = record { out = []; enc = tt; writes = 0; accepted = [] }

abbrev fresh_loop : Loop plain
fresh_loop = record { buf = ping_bytes; nv = tt; streams = λ id. none }

drain-ne-stuck_example : drain plain always always 13 fresh_loop world ≢ stuck
drain-ne-stuck_example = drain-ne-stuck plain always always 13 fresh_loop world (omega arith)

read_loop_cuts_example :
    read_loop plain always always (syn_bytes ∷ ping_bytes ∷ []) tt world
    ≡ read_loop plain always always
        (take 9 syn_bytes ∷ (drop 9 syn_bytes ++ ping_bytes) ∷ [])
        tt
        world
read_loop_cuts_example =
    read_loop_cuts plain always always (syn_bytes ∷ ping_bytes ∷ [])
      (take 9 syn_bytes ∷ (drop 9 syn_bytes ++ ping_bytes) ∷ []) tt world
      ((λ e. cc), ((λ e. cc), tt)) ((λ e. cc), ((λ e. cc), tt)) refl

-- One stream with the id 5 is open.
abbrev stream : SpdyStream
stream = record { id = 5; headers = stdout_header; received = []; is_open = true }

abbrev open_loop : Loop plain
open_loop = record { buf = ping_bytes; nv = tt; streams = λ id. if id == 5 then some 0 else none }

abbrev open_world : World plain
open_world = record { out = []; enc = tt; writes = 0; accepted = stream ∷ [] }

open_IsTable : IsTable open_loop.streams open_world.accepted
open_IsTable = record {
  within = λ id i e. ground arith;
  named = λ id i s e g. open_named id i s e g;
  held = λ i s g o. open_held i s g o;
}
  where
    open_named :
        (id i : ℕ) (s : SpdyStream)
        → open_loop.streams id ≡ some i
        → get_elem? open_world.accepted i ≡ some s
        → (s.id ≡ id) × (s.is_open ≡ true)
    open_named id zero s e g = ground arith
    open_named id (suc i) s e g = ground arith

    open_held :
        (i : ℕ) (s : SpdyStream)
        → get_elem? open_world.accepted i ≡ some s
        → s.is_open ≡ true
        → open_loop.streams s.id ≡ some i
    open_held zero s g o = ground arith
    open_held (suc i) s g o = ground arith

drain-HasTable_example :
    HasTable plain always always (drain plain always always 13 open_loop open_world)
drain-HasTable_example = drain-HasTable plain always always 13 open_loop open_world open_IsTable

data_delivery_example :
    (l' : Loop plain) × (w' : World plain) × (handle plain always always
        (data_frame 5 1 (text "hi"))
        open_loop
        open_world
      ≡ go l' w')
    × (get_elem? w'.accepted 0
        ≡ some (record stream { received = text "hi" ∷ []; is_open = false }))
    × ((j : ℕ) → j ≢ 0 → get_elem? w'.accepted j ≡ get_elem? open_world.accepted j)
    × (w'.out ≡ [])
data_delivery_example =
    data_delivery plain always always 5 1 0 b'h' (b'i' ∷ []) stream open_loop open_world refl refl
      refl
