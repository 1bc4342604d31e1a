-- ===== src/Cri/Spdy/Conn.antt =====
-- The connection multiplexer of crates/cri/src/spdy.rs: `SpdyWriter` and `read_loop`.
-- The socket and the consumer of `incoming` are the environment: `write_ok n` says whether the n-th
-- write to the socket succeeds, `send_ok n` whether the n-th stream finds its receiver. A channel is
-- the list of what was sent on it; it is open as long as its sender is in `streams`.
pub mod Chunks
pub mod Streams
use containerd_rs.Base.{
  ℕ, zero, suc, ◌+◌, ◌/◌, ◌%◌, List, [], ◌∷◌, ◌++◌, map, Bytes, length, drop, Result, ok, err,
  ◌>>=◌, ◌==◌, if◌then◌else◌, Option, none, some, Bool, true, false,
}
use containerd_rs.Cri.Spdy.Words.{Fault, io_error, panic}
use containerd_rs.Cri.Spdy.Frame.{
  Headers, Frame, syn_stream, syn_reply, rst_stream, settings, ping, go_away, headers,
  window_update, data_frame, flag_fin,
}
use containerd_rs.Cri.Spdy.Codec.{NvCodec, Parsed, parse_frame, write_frame}

-- `struct SpdyStream`; `received` is what its `data` channel has been sent.
pub record SpdyStream : Type 0 where
  pub id : ℕ
  pub headers : Headers
  pub received : List Bytes
  pub is_open : Bool

abbrev pub shut : SpdyStream → SpdyStream
shut s = record s { is_open = false }

abbrev pub deliver : Bytes → SpdyStream → SpdyStream
deliver payload s = record s { received = s.received ++ payload ∷ [] }

-- Changes the element at an index.
abbrev pub modify : ℕ → (SpdyStream → SpdyStream) → List SpdyStream → List SpdyStream
modify i f [] = []
modify zero f (s ∷ ss) = f s ∷ ss
modify (suc i) f (s ∷ ss) = s ∷ modify i f ss

-- Changes the stream that a sender belongs to, if there is a sender.
abbrev pub modify_at : Option ℕ → (SpdyStream → SpdyStream) → List SpdyStream → List SpdyStream
modify_at none f ss = ss
modify_at (some i) f ss = modify i f ss

-- `streams`: from the stream id to the sender, which is named by the place of its stream.
abbrev pub Senders : Type 0
Senders = ℕ → Option ℕ

abbrev pub put : Senders → ℕ → Option ℕ → Senders
put m id o k = if id == k then o else m k

-- `flags & FLAG_FIN != 0`
abbrev pub has_fin : ℕ → Bool
has_fin flags = flags % 2 == flag_fin

-- What outlives the loop: the bytes written to the socket, the writer's codec, the number of
-- writes, and the streams sent on `incoming`.
pub record World (codec : NvCodec) : Type 0 where
  pub out : Bytes
  pub enc : codec.Deflate
  pub writes : ℕ
  pub accepted : List SpdyStream

-- The local variables of `read_loop`.
pub record Loop (codec : NvCodec) : Type 0 where
  pub buf : Bytes
  pub nv : codec.Inflate
  pub streams : Senders

-- The loop goes on, has returned, or has panicked. `stuck` is no state of the program: the fuel of
-- the model ran out.
pub data Turn (codec : NvCodec) : Type 0 where
  go : Loop codec → World codec → Turn codec
  returned : World codec → Turn codec
  crashed : World codec → Turn codec
  stuck : Turn codec

module _ (codec : NvCodec) (write_ok send_ok : ℕ → Bool) where
  -- Dropping `streams` closes every channel.
  abbrev pub close_all : World codec → World codec
  close_all w = record w { accepted = map shut w.accepted }

  -- `SpdyWriter::write`: whether it succeeded, and the world behind it.
  write_result : World codec → Result Fault (Bytes × codec.Deflate) → Bool × World codec
  write_result w (err e) = (false, w)
  write_result w (ok (b, enc')) =
      if write_ok w.writes
      then (true, record w { out = w.out ++ b; enc = enc'; writes = w.writes + 1 })
      else (false, record w { enc = enc'; writes = w.writes + 1 })

  unfoldable pub write : Frame → World codec → Bool × World codec
  unfolding write_result
  write frame w = write_result w (write_frame codec [] frame w.enc)

  -- The new stream replaces the sender of an old one with its id.
  accept : ℕ → Headers → Loop codec → World codec → Turn codec
  accept id hs l w =
      let old = modify_at (l.streams id) shut w.accepted in
      let place = length w.accepted in
      if send_ok place
      then go (record l { streams = put l.streams id (some place) })
          (record w {
            accepted = old ++ record { id = id; headers = hs; received = []; is_open = true } ∷ [];
          })
      else returned (close_all (record w { accepted = old }))

  -- `streams.remove(&stream_id)`
  forget : ℕ → Loop codec → World codec → Turn codec
  forget id l w =
      go (record l { streams = put l.streams id none })
        (record w { accepted = modify_at (l.streams id) shut w.accepted })

  sent : Bytes → ℕ → Loop codec → World codec → World codec
  sent [] id l w = w
  sent payload id l w = record w {
    accepted = modify_at (l.streams id) (deliver payload) w.accepted;
  }

  -- The `match parsed` of the read loop.
  unfoldable pub handle : Frame → Loop codec → World codec → Turn codec
  unfolding accept forget sent write
  handle (syn_stream id flags hs) l w =
      let (done, w') = write (syn_reply id 0 []) w in
      if done then accept id hs l w' else returned (close_all w')
  handle (data_frame id flags payload) l w =
      if has_fin flags then forget id l (sent payload id l w) else go l (sent payload id l w)
  handle (ping id) l w = go l (write (ping id) w).1
  handle (rst_stream id status) l w = forget id l w
  handle (go_away last status) l w = returned (close_all w)
  handle (settings es) l w = go l w
  handle (window_update id delta) l w = go l w
  handle (headers id flags hs) l w = go l w
  handle (syn_reply id flags hs) l w = go l w

  abbrev pub failed : Fault → World codec → Turn codec
  failed (io_error message) w = returned (close_all w)
  failed panic w = crashed (close_all w)

  -- Goes on with `k` unless the loop has ended.
  abbrev pub next : Turn codec → (Loop codec → World codec → Turn codec) → Turn codec
  next (go l w) k = k l w
  next t k = t

  -- One parse: an incomplete frame ends the inner loop, a frame is taken off the buffer and handled.
  step :
      Parsed codec → Loop codec → World codec → (Loop codec → World codec → Turn codec) → Turn codec
  step (err e) l w again = failed e w
  step (ok none) l w again = go l w
  step (ok (some (f, n, nv'))) l w again =
      next (handle f (record l { buf = drop n l.buf; nv = nv' }) w) again

  -- The inner loop: all complete frames of the buffer.
  unfoldable pub drain : ℕ → Loop codec → World codec → Turn codec
  unfolding step
  drain zero l w = stuck
  drain (suc fuel) l w = step (parse_frame codec l.nv l.buf) l w (drain fuel)

  -- `buf.extend_from_slice(&chunk[..n])`, and the inner loop. A frame takes a byte at least, so
  -- the length of the buffer is fuel enough.
  unfoldable pub extend : Bytes → Loop codec → World codec → Turn codec
  unfolding drain
  extend chunk l w = drain (suc (length (l.buf ++ chunk))) (record l { buf = l.buf ++ chunk }) w

  abbrev pub finish : Turn codec → Turn codec
  finish t = next t (λ l w. returned (close_all w))

  -- The outer loop over what `rd.read` returns; an empty read, or none, is the end of the stream.
  reads : List Bytes → Turn codec → Turn codec
  reads [] t = finish t
  reads ([] ∷ cs) t = finish t
  reads ((b ∷ bs) ∷ cs) t = reads cs (next t (extend (b ∷ bs)))

  unfoldable pub read_loop : List Bytes → codec.Inflate → World codec → Turn codec
  unfolding reads extend
  read_loop chunks fresh w =
      reads chunks (drain 1 (record { buf = []; nv = fresh; streams = λ id. none }) w)
