-- ===== src/Cri/Spdy/Conn/Chunks.antt =====
-- `read_loop` (crates/cri/src/spdy.rs) and the cuts of the byte stream.
use containerd_rs.Base.{
  ℕ, zero, suc, ◌<◌, ◌≡◌, ◌≢◌, refl, sym, ap, ◌∙◌, inl, inr, List, [], ◌∷◌, ◌++◌, Bytes, length,
  drop, ok, err, none, some, arith, Bool, All, append_assoc, append-nil, length-append, length-drop,
  drop-append_le,
}
use containerd_rs.Cri.Spdy.Words.{io_error, panic}
use containerd_rs.Cri.Spdy.Frame.{Frame, data_frame}
use containerd_rs.Cri.Spdy.Codec.{NvCodec, Parsed, parse_frame}
use containerd_rs.Cri.Spdy.Codec.Prefix.{parse_frame-append, parse_frame_bounds}
use containerd_rs.Cri.Spdy.Conn.{
  Turn, go, returned, crashed, stuck, World, Loop, handle, next, step, drain, extend, finish, reads,
  read_loop,
}

module _ (codec : NvCodec) (write_ok send_ok : ℕ → Bool) where
  -- The loop's state with bytes added behind the buffer.
  abbrev add : Bytes → Loop codec → Loop codec
  add b l = record l { buf = l.buf ++ b }

  abbrev add_turn : Bytes → Turn codec → Turn codec
  add_turn b (go l w) = go (add b l) w
  add_turn b t = t

  -- No frame handler looks at the buffer.
  handle-add :
      (f : Frame) (l : Loop codec) (w : World codec) (b : Bytes)
      → handle codec write_ok send_ok f (add b l) w
        ≡ add_turn b (handle codec write_ok send_ok f l w)
  unfolding handle
  handle-add (data_frame id flags []) l w b = ground arith
  handle-add (data_frame id flags (x ∷ xs)) l w b = ground arith
  handle-add f l w b = ground arith

  handle-buf :
      (f : Frame) (l l' : Loop codec) (w w' : World codec)
      → handle codec write_ok send_ok f l w ≡ go l' w'
      → l'.buf ≡ l.buf
  unfolding handle
  handle-buf (data_frame id flags []) l l' w w' h = ground arith
  handle-buf (data_frame id flags (x ∷ xs)) l l' w w' h = ground arith
  handle-buf f l l' w w' h = ground arith

  abbrev Continue : Type 0
  Continue = Loop codec → World codec → Turn codec

  abbrev next' : Turn codec → Continue → Turn codec
  next' = next codec write_ok send_ok

  next-ext :
      (t : Turn codec) (k k' : Continue)
      → ((l : Loop codec) (w : World codec) → t ≡ go l w → k l w ≡ k' l w)
      → next' t k ≡ next' t k'
  next-ext (go l w) k k' h = h l w refl
  next-ext (returned w) k k' h = refl
  next-ext (crashed w) k k' h = refl
  next-ext stuck k k' h = refl

  next-next :
      (t : Turn codec) (k k' : Continue) → next' (next' t k) k' ≡ next' t (λ l w. next' (k l w) k')
  next-next (go l w) k k' = refl
  next-next (returned w) k k' = refl
  next-next (crashed w) k k' = refl
  next-next stuck k k' = refl

  next-add_turn :
      (t : Turn codec) (b : Bytes) (k : Continue)
      → next' (add_turn b t) k ≡ next' t (λ l w. k (add b l) w)
  next-add_turn (go l w) b k = refl
  next-add_turn (returned w) b k = refl
  next-add_turn (crashed w) b k = refl
  next-add_turn stuck b k = refl

  -- A taken frame shortens the buffer that the rest of the inner loop starts from.
  shorter :
      (l l' : Loop codec) (w w' : World codec) (f : Frame) (n : ℕ) (d : codec.Inflate)
      → parse_frame codec l.nv l.buf ≡ ok (some (f, n, d))
      → handle codec write_ok send_ok f (record l { buf = drop n l.buf; nv = d }) w ≡ go l' w'
      → (length l'.buf < length l.buf)
  shorter l l' w w' f n d p h = omega (
    arith,
    parse_frame_bounds codec l.nv d l.buf f n p,
    length-drop n l.buf,
    ap length (handle-buf f (record l { buf = drop n l.buf; nv = d }) l' w w' h),
  )

  abbrev drain' : ℕ → Continue
  drain' = drain codec write_ok send_ok

  abbrev step' : Parsed codec → Loop codec → World codec → Continue → Turn codec
  step' = step codec write_ok send_ok

  -- What the buffer's length bounds, the rest of the inner loop may be exchanged for.
  step-ext :
      (l : Loop codec) (w : World codec) (p : Parsed codec) (k k' : Continue)
      → parse_frame codec l.nv l.buf ≡ p
      → ((l' : Loop codec) (w' : World codec) → length l'.buf < length l.buf → k l' w' ≡ k' l' w')
      → step' p l w k ≡ step' p l w k'
  unfolding step
  step-ext l w (err e) k k' p h = refl
  step-ext l w (ok none) k k' p h = refl
  step-ext l w (ok (some (f, n, d))) k k' p h =
      next-ext (handle codec write_ok send_ok f (record l { buf = drop n l.buf; nv = d }) w) k k'
        (λ l' w' t. h l' w' (shorter l l' w w' f n d p t))

  -- Any fuel above the length of the buffer gives the same result.
  drain_fuel :
      (fuel fuel' : ℕ) (l : Loop codec) (w : World codec)
      → length l.buf < fuel
      → length l.buf < fuel'
      → drain' fuel l w ≡ drain' fuel' l w
  unfolding drain
  drain_fuel zero fuel' l w h h' = absurd (omega arith)
  drain_fuel (suc fuel) zero l w h h' = absurd (omega arith)
  drain_fuel (suc fuel) (suc fuel') l w h h' =
      step-ext l w (parse_frame codec l.nv l.buf) (drain' fuel) (drain' fuel') refl
        (λ l' w' lt. drain_fuel fuel fuel' l' w' (omega arith) (omega arith))

  handle-ne-stuck :
      (f : Frame) (l : Loop codec) (w : World codec) → handle codec write_ok send_ok f l w ≢ stuck
  unfolding handle
  handle-ne-stuck (data_frame id flags []) l w h = ground arith
  handle-ne-stuck (data_frame id flags (x ∷ xs)) l w h = ground arith
  handle-ne-stuck f l w h = ground arith

  next-ne-stuck :
      (t : Turn codec) (k : Continue)
      → t ≢ stuck
      → ((l : Loop codec) (w : World codec) → t ≡ go l w → k l w ≢ stuck)
      → next' t k ≢ stuck
  next-ne-stuck (go l w) k n h = h l w refl
  next-ne-stuck (returned w) k n h = n
  next-ne-stuck (crashed w) k n h = n
  next-ne-stuck stuck k n h = n

  step-ne-stuck :
      (l : Loop codec) (w : World codec) (p : Parsed codec) (k : Continue)
      → parse_frame codec l.nv l.buf ≡ p
      → ((l' : Loop codec) (w' : World codec) → length l'.buf < length l.buf → k l' w' ≢ stuck)
      → step' p l w k ≢ stuck
  unfolding step
  step-ne-stuck l w (err (io_error m)) k e h = λ q. cc
  step-ne-stuck l w (err panic) k e h = λ q. cc
  step-ne-stuck l w (ok none) k e h = λ q. cc
  step-ne-stuck l w (ok (some (f, n, d))) k e h =
      let l1 = record l { buf = drop n l.buf; nv = d } in
      next-ne-stuck (handle codec write_ok send_ok f l1 w) k (handle-ne-stuck f l1 w)
        (λ l' w' t. h l' w' (shorter l l' w w' f n d e t))

  -- The inner loop ends: with more fuel than the buffer has bytes it never runs out.
  pub drain-ne-stuck :
      (fuel : ℕ) (l : Loop codec) (w : World codec)
      → length l.buf < fuel
      → drain codec write_ok send_ok fuel l w ≢ stuck
  unfolding drain
  drain-ne-stuck zero l w h = absurd (omega arith)
  drain-ne-stuck (suc fuel) l w h =
      step-ne-stuck l w (parse_frame codec l.nv l.buf) (drain' fuel) refl
        (λ l' w' lt. drain-ne-stuck fuel l' w' (omega arith))

  abbrev extend' : Bytes → Continue
  extend' = extend codec write_ok send_ok

  extend-drain :
      (fuel : ℕ) (b : Bytes) (l : Loop codec) (w : World codec)
      → length (l.buf ++ b) < fuel
      → drain' fuel (add b l) w ≡ extend' b l w
  unfolding extend
  extend-drain fuel b l w h =
      drain_fuel fuel (suc (length (l.buf ++ b))) (add b l) w h (omega arith)

  drain-partial :
      (fuel : ℕ) (l : Loop codec) (w : World codec)
      → parse_frame codec l.nv l.buf ≡ ok none
      → drain' (suc fuel) l w ≡ go l w
  unfolding drain
  drain-partial fuel l w e = rw (e, drain)

  step-add :
      (l : Loop codec) (w : World codec) (b : Bytes) (p : Parsed codec) (fuel fuel' : ℕ)
      → length (l.buf ++ b) < suc fuel'
      → parse_frame codec l.nv l.buf ≡ p
      → parse_frame codec l.nv (l.buf ++ b) ≡ p
      → ((l' : Loop codec) (w' : World codec)
          → length l'.buf < length l.buf
          → drain' fuel' (add b l') w' ≡ next' (drain' fuel l' w') (extend' b))
      → drain' (suc fuel') (add b l) w ≡ next' (step' p l w (drain' fuel)) (extend' b)
  unfolding step
  step-add l w b (err (io_error m)) fuel fuel' n e e' ih = unfold drain in rw (e', drain)
  step-add l w b (err panic) fuel fuel' n e e' ih = unfold drain in rw (e', drain)
  step-add l w b (ok none) fuel fuel' n e e' ih = extend-drain (suc fuel') b l w n
  step-add l w b (ok (some (f, m, d))) fuel fuel' n e e' ih =
      let l1 = record l { buf = drop m l.buf; nv = d } in
      let t = handle codec write_ok send_ok f l1 w in
      let cut : drop m (l.buf ++ b) ≡ drop m l.buf ++ b =
        drop-append_le m l.buf b (omega (arith, parse_frame_bounds codec l.nv d l.buf f m e)) in
      unfold drain in
      rw (e', drain)
        (rw cut (
          rw (handle-add f l1 w b) (
            next-add_turn t b (drain' fuel')
            ∙ next-ext t (λ l' w'. drain' fuel' (add b l') w')
                (λ l' w'. next' (drain' fuel l' w') (extend' b))
                (λ l' w' q. ih l' w' (shorter l l' w w' f m d e q))
            ∙ sym (next-next t (drain' fuel) (extend' b)))))

  -- Draining what is buffered first and extending then is draining all at once.
  drain-add :
      (fuel fuel' : ℕ) (l : Loop codec) (w : World codec) (b : Bytes)
      → length l.buf < fuel
      → length (l.buf ++ b) < fuel'
      → drain' fuel' (add b l) w ≡ next' (drain' fuel l w) (extend' b)
  drain-add zero fuel' l w b h h' = absurd (omega arith)
  drain-add (suc fuel) zero l w b h h' = absurd (omega arith)
  drain-add (suc fuel) (suc fuel') l w b h h' = elim (parse_frame-append codec l.nv l.buf b) [
    | inl part ↦
        extend-drain (suc fuel') b l w h'
        ∙ ap (λ t. next' t (extend' b)) (sym (drain-partial fuel l w part))
    | inr same ↦
        step-add l w b (parse_frame codec l.nv l.buf) fuel fuel' h' refl same (λ l' w' lt.
          drain-add fuel fuel' l' w' b (omega arith)
            (omega (arith, length-append l'.buf b, length-append l.buf b)))
        ∙ unfold drain in refl
  ]

  -- Two reads in a row do what one read of both chunks does.
  pub extend-append :
      (a b : Bytes) (l : Loop codec) (w : World codec)
      → extend codec write_ok send_ok (a ++ b) l w
        ≡ next codec write_ok send_ok
            (extend codec write_ok send_ok a l w)
            (extend codec write_ok send_ok b)
  unfolding extend
  extend-append a b l w = rw (← append_assoc l.buf a b) (
      drain-add (suc (length (l.buf ++ a))) (suc (length ((l.buf ++ a) ++ b))) (add a l) w b
        (omega arith) (omega arith))

  -- No read in the middle of the stream returns zero bytes: that is its end.
  abbrev pub IsRead : Bytes → Type 0
  IsRead c = c ≢ []

  abbrev pub concat : List Bytes → Bytes
  concat [] = []
  concat (c ∷ cs) = c ++ concat cs

  -- The loop has taken all complete frames from the buffer.
  abbrev IsDrained : Turn codec → Type 0
  IsDrained t = next' t (extend' []) ≡ t

  next-extend-append :
      (a b : Bytes) (t : Turn codec)
      → next' (next' t (extend' a)) (extend' b) ≡ next' t (extend' (a ++ b))
  next-extend-append a b t =
      next-next t (extend' a) (extend' b)
      ∙ next-ext t (λ l w. next' (extend' a l w) (extend' b)) (extend' (a ++ b))
          (λ l w _. sym (extend-append a b l w))

  extend-IsDrained : (c : Bytes) (t : Turn codec) → IsDrained (next' t (extend' c))
  extend-IsDrained c t = rw append-nil at (next-extend-append c [] t)

  reads-concat :
      (cs : List Bytes) (t : Turn codec)
      → All IsRead cs
      → IsDrained t
      → reads codec write_ok send_ok cs t
        ≡ finish codec write_ok send_ok (next' t (extend' (concat cs)))
  unfolding reads
  reads-concat [] t h d = ap (finish codec write_ok send_ok) (sym d)
  reads-concat ([] ∷ cs) t (h, hs) d = absurd (h refl)
  reads-concat ((b ∷ bs) ∷ cs) t (h, hs) d =
      reads-concat cs (next' t (extend' (b ∷ bs))) hs (extend-IsDrained (b ∷ bs) t)
      ∙ ap (finish codec write_ok send_ok) (next-extend-append (b ∷ bs) (concat cs) t)

  abbrev start : codec.Inflate → Loop codec
  start fresh = record { buf = []; nv = fresh; streams = λ id. none }

  read_loop-concat :
      (cs : List Bytes) (fresh : codec.Inflate) (w : World codec)
      → All IsRead cs
      → read_loop codec write_ok send_ok cs fresh w
        ≡ finish codec write_ok send_ok (extend' (concat cs) (start fresh) w)
  unfolding read_loop parse_frame
  read_loop-concat cs fresh w h =
      rw (drain-partial 0 (start fresh) w refl)
        (reads-concat cs (go (start fresh) w) h (drain-partial 0 (start fresh) w refl))

  -- However the transport cuts the byte stream of the peer into reads, the loop does the same: it
  -- accepts the same streams with the same payloads, writes the same bytes and ends the same way.
  pub read_loop_cuts :
      (cs ds : List Bytes) (fresh : codec.Inflate) (w : World codec)
      → All IsRead cs
      → All IsRead ds
      → concat cs ≡ concat ds
      → read_loop codec write_ok send_ok cs fresh w ≡ read_loop codec write_ok send_ok ds fresh w
  read_loop_cuts cs ds fresh w h k e =
      read_loop-concat cs fresh w h
      ∙ ap (λ b. finish codec write_ok send_ok (extend' b (start fresh) w)) e
      ∙ sym (read_loop-concat ds fresh w k)
