-- ===== src/Cri/Spdy/Conn/Streams.antt =====
-- The stream table of `read_loop` (crates/cri/src/spdy.rs): which channels are open, and where the
-- payload of a DATA frame goes.
use containerd_rs.Base.{
  ℕ, zero, suc, ◌<◌, ◌≡◌, ◌≢◌, refl, ap, inl, inr, List, [], ◌∷◌, ◌++◌, Bytes, length, get_elem?,
  Option, none, some, arith, Bool, true, not, ◌==◌, if◌then◌else◌, Bool-cases, Option-cases,
  length-append, fun_ext, Result, ok, err, drop,
}
use mathlib.Core.Option
use containerd_rs.Cri.Spdy.Frame.{
  Headers, Frame, syn_stream, syn_reply, rst_stream, settings, ping, go_away, headers,
  window_update, data_frame,
}
use containerd_rs.Cri.Spdy.Words.{Fault, io_error, panic}
use containerd_rs.Cri.Spdy.Codec.{NvCodec, Parsed, parse_frame, write_frame}
use containerd_rs.Cri.Spdy.Conn.{
  SpdyStream, shut, deliver, modify, modify_at, Senders, put, has_fin, Turn, go, returned, crashed,
  stuck, World, Loop, handle, write, write_result, accept, sent, next, step, drain,
}

get_elem?-modify :
    (i j : ℕ) (f : SpdyStream → SpdyStream) (ss : List SpdyStream)
    → get_elem? (modify i f ss) j
      ≡ (if i == j then Option.map f (get_elem? ss j) else get_elem? ss j)
get_elem?-modify i j f [] = ground arith
get_elem?-modify zero zero f (s ∷ ss) = ground arith
get_elem?-modify zero (suc j) f (s ∷ ss) = ground arith
get_elem?-modify (suc i) zero f (s ∷ ss) = ground arith
get_elem?-modify (suc i) (suc j) f (s ∷ ss) = ground (arith, get_elem?-modify i j f ss)

get_elem?-append :
    (ss : List SpdyStream) (s : SpdyStream) (j : ℕ)
    → get_elem? (ss ++ s ∷ []) j ≡ (if j == length ss then some s else get_elem? ss j)
get_elem?-append [] s zero = refl
get_elem?-append [] s (suc j) = ground arith
get_elem?-append (x ∷ ss) s zero = ground arith
get_elem?-append (x ∷ ss) s (suc j) = ground (arith, get_elem?-append ss s j)

length-modify :
    (i : ℕ) (f : SpdyStream → SpdyStream) (ss : List SpdyStream)
    → length (modify i f ss) ≡ length ss
length-modify i f [] = refl
length-modify zero f (s ∷ ss) = refl
length-modify (suc i) f (s ∷ ss) = ap suc (length-modify i f ss)

length-modify_at :
    (o : Option ℕ) (f : SpdyStream → SpdyStream) (ss : List SpdyStream)
    → length (modify_at o f ss) ≡ length ss
length-modify_at none f ss = refl
length-modify_at (some i) f ss = length-modify i f ss

-- A sender's stream has the sender's id and an open channel; an open channel has its sender.
pub record IsTable (streams : Senders) (ss : List SpdyStream) : Type 0 where
  pub within : (id i : ℕ) → streams id ≡ some i → i < length ss
  pub named :
      (id i : ℕ) (s : SpdyStream)
      → streams id ≡ some i
      → get_elem? ss i ≡ some s
      → (s.id ≡ id) × (s.is_open ≡ true)
  pub held :
      (i : ℕ) (s : SpdyStream) → get_elem? ss i ≡ some s → s.is_open ≡ true → streams s.id ≡ some i

module _ (streams : Senders) (ss : List SpdyStream) (t : IsTable streams ss) (id : ℕ) where
  removed_within :
      (k i : ℕ) → put streams id none k ≡ some i → i < length (modify_at (streams id) shut ss)
  removed_within k i e = ground (arith, length-modify_at (streams id) shut ss, t.within k i)

  removed_named :
      (k i : ℕ) (s : SpdyStream)
      → put streams id none k ≡ some i
      → get_elem? (modify_at (streams id) shut ss) i ≡ some s
      → (s.id ≡ k) × (s.is_open ≡ true)
  removed_named k i s e g = elim (Option-cases (streams id)) [
    | inl absent ↦ ground (arith, t.named k i s)
    | inr (i0, there) ↦ elim (Option-cases (get_elem? ss i)) [
      | inl past ↦ ground (arith, get_elem?-modify i0 i shut ss)
      | inr (s0, old) ↦
          ground (arith, get_elem?-modify i0 i shut ss, t.named k i s0, t.named id i s0)
    ]
  ]

  removed_held :
      (i : ℕ) (s : SpdyStream)
      → get_elem? (modify_at (streams id) shut ss) i ≡ some s
      → s.is_open ≡ true
      → put streams id none s.id ≡ some i
  removed_held i s g o = elim (Option-cases (streams id)) [
    | inl absent ↦ ground (arith, t.held i s)
    | inr (i0, there) ↦ elim (Option-cases (get_elem? ss i)) [
      | inl past ↦ ground (arith, get_elem?-modify i0 i shut ss)
      | inr (s0, old) ↦ ground (arith, get_elem?-modify i0 i shut ss, t.held i s0)
    ]
  ]

  removed-IsTable : IsTable (put streams id none) (modify_at (streams id) shut ss)
  removed-IsTable = record { within = removed_within; named = removed_named; held = removed_held }

module _ (streams : Senders) (ss : List SpdyStream) (t : IsTable streams ss) (new : SpdyStream)
    (free : streams new.id ≡ none) (fresh : new.is_open ≡ true) where
  added-IsTable : IsTable (put streams new.id (some (length ss))) (ss ++ new ∷ [])
  added-IsTable = record {
    within = λ k i e. ground (arith, length-append ss (new ∷ []), t.within k i);
    named = λ k i s e g. ground (arith, get_elem?-append ss new i, t.within k i, t.named k i s);
    held = λ i s g o. ground (arith, get_elem?-append ss new i, t.held i s);
  }

put-put : (m : Senders) (id : ℕ) (o o' : Option ℕ) → put (put m id o) id o' ≡ put m id o'
put-put m id o o' = fun_ext λ k. ground arith

delivered-IsTable :
    (streams : Senders) (ss : List SpdyStream) (payload : Bytes) (o : Option ℕ)
    → IsTable streams ss
    → IsTable streams (modify_at o (deliver payload) ss)
delivered-IsTable streams ss payload none t = t
delivered-IsTable streams ss payload (some i0) t = record {
  within = λ k i e. ground (arith, length-modify i0 (deliver payload) ss, t.within k i);
  named = λ k i s e g. elim (Option-cases (get_elem? ss i)) [
    | inl past ↦ ground (arith, get_elem?-modify i0 i (deliver payload) ss)
    | inr (s0, old) ↦ ground (arith, get_elem?-modify i0 i (deliver payload) ss, t.named k i s0)
  ];
  held = λ i s g o. elim (Option-cases (get_elem? ss i)) [
    | inl past ↦ ground (arith, get_elem?-modify i0 i (deliver payload) ss)
    | inr (s0, old) ↦ ground (arith, get_elem?-modify i0 i (deliver payload) ss, t.held i s0)
  ];
}

replaced-IsTable :
    (streams : Senders) (ss : List SpdyStream) (id : ℕ) (hs : Headers)
    → IsTable streams ss
    → IsTable (put streams id (some (length ss))) (
        modify_at (streams id) shut ss
        ++ record { id = id; headers = hs; received = []; is_open = true } ∷ [])
replaced-IsTable streams ss id hs t =
    let old = modify_at (streams id) shut ss in
    let new : SpdyStream = record { id = id; headers = hs; received = []; is_open = true } in
    rw (← length-modify_at (streams id) shut ss) (
      rw (← put-put streams id none (some (length old))) (
        added-IsTable (put streams id none) old (removed-IsTable streams ss t id) new (ground arith)
          refl))

module _ (codec : NvCodec) (write_ok send_ok : ℕ → Bool) where
  write_result-accepted :
      (w : World codec) (r : Result Fault (Bytes × codec.Deflate))
      → (write_result codec write_ok send_ok w r).1.accepted ≡ w.accepted
  unfolding write_result
  write_result-accepted w (err e) = refl
  write_result-accepted w (ok (b, e)) = ground arith

  write-accepted :
      (f : Frame) (w : World codec) → (write codec write_ok send_ok f w).1.accepted ≡ w.accepted
  unfolding write
  write-accepted f w = write_result-accepted w (write_frame codec [] f w.enc)

  -- The state of a running loop has a proper stream table; one that has ended needs none.
  abbrev pub HasTable : Turn codec → Type 0
  HasTable (go l w) = IsTable l.streams w.accepted
  HasTable t = Unit

  accept-HasTable :
      (id : ℕ) (hs : Headers) (l : Loop codec) (w : World codec)
      → IsTable l.streams w.accepted
      → HasTable (accept codec write_ok send_ok id hs l w)
  unfolding accept
  accept-HasTable id hs l w t = elim (Bool-cases (send_ok (length w.accepted))) [
    | inl yes' ↦ rw yes' (replaced-IsTable l.streams w.accepted id hs t)
    | inr no' ↦ rw no' tt
  ]

  sent-IsTable :
      (payload : Bytes) (id : ℕ) (l : Loop codec) (w : World codec)
      → IsTable l.streams w.accepted
      → IsTable l.streams (sent codec write_ok send_ok payload id l w).accepted
  unfolding sent
  sent-IsTable [] id l w t = t
  sent-IsTable (x ∷ xs) id l w t = delivered-IsTable l.streams w.accepted (x ∷ xs) (l.streams id) t

  data-HasTable :
      (id flags : ℕ) (payload : Bytes) (l : Loop codec) (w : World codec)
      → IsTable l.streams w.accepted
      → HasTable (handle codec write_ok send_ok (data_frame id flags payload) l w)
  unfolding handle
  data-HasTable id flags payload l w t =
      let w1 = sent codec write_ok send_ok payload id l w in
      let t1 = sent-IsTable payload id l w t in
      elim (Bool-cases (has_fin flags)) [
        | inl fin ↦ rw fin (removed-IsTable l.streams w1.accepted t1 id)
        | inr open' ↦ rw open' t1
      ]

  syn-HasTable :
      (id flags : ℕ) (hs : Headers) (l : Loop codec) (w : World codec)
      → IsTable l.streams w.accepted
      → HasTable (handle codec write_ok send_ok (syn_stream id flags hs) l w)
  unfolding handle
  syn-HasTable id flags hs l w t =
      let r = write codec write_ok send_ok (syn_reply id 0 []) w in
      elim (Bool-cases r.0) [
        | inl done ↦ rw done (accept-HasTable id hs l r.1 (rw write-accepted t))
        | inr lost ↦ rw lost tt
      ]

  -- Every frame keeps the table: senders and open channels belong to one another.
  pub handle-HasTable :
      (f : Frame) (l : Loop codec) (w : World codec)
      → IsTable l.streams w.accepted
      → HasTable (handle codec write_ok send_ok f l w)
  unfolding handle
  handle-HasTable (syn_stream id flags hs) l w t = syn-HasTable id flags hs l w t
  handle-HasTable (data_frame id flags payload) l w t = data-HasTable id flags payload l w t
  handle-HasTable (ping id) l w t = rw write-accepted t
  handle-HasTable (rst_stream id status) l w t = removed-IsTable l.streams w.accepted t id
  handle-HasTable (go_away last status) l w t = tt
  handle-HasTable (settings es) l w t = t
  handle-HasTable (window_update id delta) l w t = t
  handle-HasTable (headers id flags hs) l w t = t
  handle-HasTable (syn_reply id flags hs) l w t = t

  next-HasTable :
      (turn : Turn codec) (k : Loop codec → World codec → Turn codec)
      → HasTable turn
      → ((l : Loop codec) (w : World codec) → IsTable l.streams w.accepted → HasTable (k l w))
      → HasTable (next codec write_ok send_ok turn k)
  next-HasTable (go l w) k t h = h l w t
  next-HasTable (returned w) k t h = tt
  next-HasTable (crashed w) k t h = tt
  next-HasTable stuck k t h = tt

  step-HasTable :
      (p : Parsed codec) (l : Loop codec) (w : World codec)
      (k : Loop codec → World codec → Turn codec)
      → IsTable l.streams w.accepted
      → ((l : Loop codec) (w : World codec) → IsTable l.streams w.accepted → HasTable (k l w))
      → HasTable (step codec write_ok send_ok p l w k)
  unfolding step
  step-HasTable (err (io_error m)) l w k t h = tt
  step-HasTable (err panic) l w k t h = tt
  step-HasTable (ok none) l w k t h = t
  step-HasTable (ok (some (f, n, d))) l w k t h =
      let l1 = record l { buf = drop n l.buf; nv = d } in
      next-HasTable (handle codec write_ok send_ok f l1 w) k (handle-HasTable f l1 w t) h

  -- From a proper stream table, whatever bytes are buffered, the loop goes on with a proper one.
  pub drain-HasTable :
      (fuel : ℕ) (l : Loop codec) (w : World codec)
      → IsTable l.streams w.accepted
      → HasTable (drain codec write_ok send_ok fuel l w)
  unfolding drain
  drain-HasTable zero l w t = tt
  drain-HasTable (suc fuel) l w t =
      step-HasTable (parse_frame codec l.nv l.buf) l w (drain codec write_ok send_ok fuel) t
        (drain-HasTable fuel)

  -- A non-empty payload on a stream that has a sender is appended to that stream's channel and to
  -- no other; FLAG_FIN then closes the channel. Nothing is written to the socket.
  pub data_delivery :
      (id flags i : ℕ) (x : ℕ) (xs : Bytes) (s : SpdyStream) (l : Loop codec) (w : World codec)
      → l.streams id ≡ some i
      → get_elem? w.accepted i ≡ some s
      → s.is_open ≡ true
      → (l' : Loop codec) × (w' : World codec) × (handle codec write_ok send_ok
            (data_frame id flags (x ∷ xs))
            l
            w
          ≡ go l' w')
        × (get_elem? w'.accepted i
            ≡ some (record s {
              received = s.received ++ (x ∷ xs) ∷ [];
              is_open = not (has_fin flags);
            }))
        × ((j : ℕ) → j ≢ i → get_elem? w'.accepted j ≡ get_elem? w.accepted j)
        × (w'.out ≡ w.out)
  unfolding handle
  data_delivery id flags i x xs s l w e g o =
      let sent' = modify i (deliver (x ∷ xs)) w.accepted in
      elim (Bool-cases (has_fin flags)) [
        | inl fin ↦ (
          record l { streams = put l.streams id none },
          record w { accepted = modify i shut sent' },
          ground arith,
          ground (
            arith,
            get_elem?-modify i i shut sent',
            get_elem?-modify i i (deliver (x ∷ xs)) w.accepted,
          ),
          λ j ne. ground (
            arith,
            get_elem?-modify i j shut sent',
            get_elem?-modify i j (deliver (x ∷ xs)) w.accepted,
          ),
          refl,
        )
        | inr open' ↦ (
          l,
          record w { accepted = sent' },
          ground arith,
          ground (arith, get_elem?-modify i i (deliver (x ∷ xs)) w.accepted),
          λ j ne. ground (arith, get_elem?-modify i j (deliver (x ∷ xs)) w.accepted),
          refl,
        )
      ]
