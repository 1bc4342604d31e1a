-- ===== src/Cri/Sessions/Tokens.antt =====
-- crates/cri/src/streaming.rs: a token is honoured once, and for its own kind of session.
use containerd_rs.Base.{
  ◌≡◌, ◌≢◌, refl, sym, ℕ, Bytes, Option, none, some, str_eq_refl, str_eq_ne, insert, lookup-insert,
  lookup-remove,
}
use containerd_rs.CoreTypes.{Sha256}
use containerd_rs.Cri.Sessions.{ExecSession, Sessions, token, register_exec, take_exec}

module _ (Bus LogHandle StdinHandle : Type 0) (sha : Sha256) where
  abbrev pub Registry : Type 0
  Registry = Sessions Bus LogHandle StdinHandle

  -- What a dialled token gets.
  abbrev pub taken : Bytes → Registry → Option ExecSession × Registry
  taken = take_exec Bus LogHandle StdinHandle

  -- The token of a registered exec session gets that session when it is dialled, and nothing when it
  -- is dialled again; any other token gets what it got before, and the tokens of the other kinds of
  -- session are as they were.
  pub register_exec-taken :
      (nanos : ℕ) (session : ExecSession) (s : Registry) (other : Bytes)
      → other ≢ (register_exec Bus LogHandle StdinHandle sha nanos session s).0
      → let (t, s') = register_exec Bus LogHandle StdinHandle sha nanos session s in
        ((taken t s').0 ≡ some session)
        × ((taken t (taken t s').1).0 ≡ none)
        × ((taken other s').0 ≡ (taken other s).0)
        × ((taken other (taken t s').1).0 ≡ (taken other s).0)
        × (s'.attach ≡ s.attach)
        × (s'.portforward ≡ s.portforward)
  unfolding register_exec take_exec token
  register_exec-taken nanos session s other ne =
      let t = (register_exec Bus LogHandle StdinHandle sha nanos session s).0 in
      let apart = str_eq_ne t other (λ e. ne (sym e)) in
      (
        rw (lookup-insert t t session s.exec, str_eq_refl t) refl,
        rw (lookup-remove t t (insert t session s.exec), str_eq_refl t) refl,
        rw (lookup-insert t other session s.exec, apart) refl,
        rw
            (
              lookup-remove t other (insert t session s.exec),
              apart,
              lookup-insert t other session s.exec,
              apart,
            )
            refl,
        refl,
        refl,
      )
