-- ===== src/Udp/Held.antt =====
-- The hellos that wait among the jobs of the UDP server, and the tokens in them.
use corshub.Prelude.{
  ℕ, ◌≡◌, refl, ◌∙◌, Option, none, some, String, List, [], ◌∷◌, ◌++◌, All, string_eq, nat_eq, same,
  arith, Bool-cases, Option-cases, inl, inr,
}
use corshub.Dict
use corshub.Float.{Float}
use corshub.Framing.{Bytes}
use corshub.Udp.{Position, out_of_range, scope_allows, resolve_mountpoint}
use corshub.Udp.Sessions.{
  Address, Frame, Job, on_hello, on_switch, teardown, evict, Body, hello, keepalive,
  switch_mountpoint, bye, other, Server, Wire, put, is_nearest, send, spawn, cancel, repoint,
  other_task, run_hello, run_switch, run_teardown, run_evict, run_keepalive, dispatch, refresh,
  handle_body, handle_datagram, run_job,
}
use corshub.Udp.Egress.{sign_frame, pump, teardown_all}
use corshub.Udp.Authorized.{Resolution-cases, follow, positioned, keepalive-follow}

module _ (fl : Float) (w : Wire fl) (Given : String → Type 0) where
  -- A hello that waits holds a token that was given.
  abbrev pub IsHeld : Job fl.F → Type 0
  IsHeld (on_hello addr token requested p) = Given token
  IsHeld (on_switch i requested p) = Unit
  IsHeld (teardown i) = Unit
  IsHeld (evict i code) = Unit

  abbrev pub Holds : Server fl → Type 0
  Holds v = All IsHeld v.jobs

  -- A hello brings such a token.
  abbrev pub Brings : Body fl.F → Type 0
  Brings (hello token requested p) = Given token
  Brings (keepalive p) = Unit
  Brings (switch_mountpoint requested p) = Unit
  Brings bye = Unit
  Brings other = Unit

  append-IsHeld :
      (js : List (Job fl.F)) (j : Job fl.F) → All IsHeld js → IsHeld j → All IsHeld (js ++ j ∷ [])
  append-IsHeld [] j h k = (k, tt)
  append-IsHeld (i ∷ js) j h k = (h.0, append-IsHeld js j h.1 k)

  jobs-cancel : (v : Server fl) (t : Option ℕ) → (cancel fl v t).jobs ≡ v.jobs
  unfolding cancel
  jobs-cancel v none = refl
  jobs-cancel v (some t) = refl

  jobs-repoint : (v : Server fl) (i : ℕ) (m : String) → (repoint fl v i m).jobs ≡ v.jobs
  unfolding repoint
  jobs-repoint v i m = elim (Bool-cases (same m (v.heap i).mountpoint)) [
    | inl e ↦ rw (e, repoint) refl
    | inr e ↦ rw (e, repoint) (jobs-cancel _ (v.heap i).task)
  ]

  jobs-run_hello :
      (v : Server fl) (now drawn : ℕ) (addr : Address) (token requested : String)
      (p : Option (Position fl))
      → (run_hello fl w v now drawn addr token requested p).jobs ≡ v.jobs
  unfolding run_hello send
  jobs-run_hello v now drawn addr token requested p = elim (Option-cases (w.claimed token)) [
    | inl e ↦ rw (e, run_hello) refl
    | inr (scope, e) ↦
        elim (Resolution-cases fl w Given
          (resolve_mountpoint fl v.caster.mountpoints scope requested p)) [
            | inl (c, r) ↦ rw (e, r, run_hello) refl
            | inr (m, r) ↦ rw (e, r, run_hello) refl
          ]
  ]

  jobs-run_switch :
      (v : Server fl) (i : ℕ) (requested : String) (p : Option (Position fl))
      → (run_switch fl v i requested p).jobs ≡ v.jobs
  unfolding run_switch send
  jobs-run_switch v i requested p =
      elim (Resolution-cases fl w Given
        (resolve_mountpoint fl v.caster.mountpoints (v.heap i).scope requested p)) [
          | inl (c, r) ↦ rw (r, run_switch) refl
          | inr (m, r) ↦
              rw (r, run_switch)
                (jobs-repoint
                  (record v {
                    heap =
                        put fl v.heap i (record (v.heap i) { dynamic = is_nearest fl requested });
                  })
                  i m)
        ]

  pub jobs-run_teardown :
      (v : Server fl) (current : Option ℕ) (i : ℕ) → (run_teardown fl v current i).jobs ≡ v.jobs
  unfolding run_teardown
  jobs-run_teardown v current i = elim (Option-cases (Dict.get v.sessions (v.heap i).session_id)) [
    | inl e ↦ rw (e, run_teardown) refl
    | inr (_, e) ↦ rw (e, run_teardown) (jobs-cancel _ (other_task fl current (v.heap i).task))
  ]

  pub jobs-pump :
      (v : Server fl) (now i t : ℕ) (f : Frame) → (pump fl w v now i t f).0.jobs ≡ v.jobs
  unfolding pump send sign_frame
  jobs-pump v now i t f = ground arith

  pub jobs-teardown_all : (v : Server fl) (is : List ℕ) → (teardown_all fl v is).jobs ≡ v.jobs
  unfolding teardown_all
  jobs-teardown_all v [] = refl
  jobs-teardown_all v (i ∷ is) =
      jobs-teardown_all (run_teardown fl v none i) is ∙ jobs-run_teardown v none i

  follow-Holds :
      (v : Server fl) (i : ℕ) (o : Option String) → Holds v → Holds (follow fl w Given v i o)
  unfolding follow spawn
  follow-Holds v i none h = append-IsHeld v.jobs _ h tt
  follow-Holds v i (some best) h = elim (Bool-cases (scope_allows (v.heap i).scope best)) [
    | inl e ↦ rw (e, jobs-repoint v i best) h
    | inr e ↦ rw e h
  ]

  run_keepalive-Holds :
      (v : Server fl) (i : ℕ) (p : Option (Position fl)) → Holds v → Holds (run_keepalive fl v i p)
  unfolding run_keepalive spawn
  run_keepalive-Holds v i none h = h
  run_keepalive-Holds v i (some p) h = elim (Bool-cases (v.heap i).dynamic) [
    | inl e ↦
        rw (keepalive-follow fl w Given v i p e) (follow-Holds (positioned fl w Given v i p) i _ h)
    | inr e ↦ ground (arith, e, h, append-IsHeld v.jobs (evict i out_of_range) h tt)
  ]

  dispatch-Holds : (v : Server fl) (i : ℕ) (b : Body fl.F) → Holds v → Holds (dispatch fl v i b)
  unfolding dispatch spawn
  dispatch-Holds v i (hello token requested p) h = h
  dispatch-Holds v i (keepalive p) h = run_keepalive-Holds v i p h
  dispatch-Holds v i (switch_mountpoint requested p) h = append-IsHeld v.jobs _ h tt
  dispatch-Holds v i bye h = append-IsHeld v.jobs _ h tt
  dispatch-Holds v i other h = h

  -- A datagram of an established session.
  established-Holds :
      (v : Server fl) (now : ℕ) (addr : Address) (o : Option ℕ) (b : Body fl.F)
      → Holds v
      → Holds (elim o [ none ↦ v | some i ↦ dispatch fl (refresh fl v now i addr) i b ])
  unfolding refresh
  established-Holds v now addr none b h = h
  established-Holds v now addr (some i) b h = dispatch-Holds (refresh fl v now i addr) i b h

  handle_body-Holds :
      (v : Server fl) (now : ℕ) (addr : Address) (session_id : ℕ) (b : Body fl.F)
      → Brings b
      → Holds v
      → Holds (handle_body fl v now addr session_id b)
  unfolding handle_body spawn
  handle_body-Holds v now addr k (hello token requested p) g h = append-IsHeld v.jobs _ h g
  handle_body-Holds v now addr k (keepalive p) g h =
      established-Holds v now addr (Dict.get v.sessions k) (keepalive p) h
  handle_body-Holds v now addr k (switch_mountpoint r p) g h =
      established-Holds v now addr (Dict.get v.sessions k) (switch_mountpoint r p) h
  handle_body-Holds v now addr k bye g h =
      established-Holds v now addr (Dict.get v.sessions k) bye h
  handle_body-Holds v now addr k other g h =
      established-Holds v now addr (Dict.get v.sessions k) other h

  -- A hello in a datagram brings such a token.
  abbrev pub BringsRead : Option (ℕ × Body fl.F) → Type 0
  BringsRead none = Unit
  BringsRead (some (k, b)) = Brings b

  pub handle_datagram-Holds :
      (v : Server fl) (now : ℕ) (bytes : Bytes) (addr : Address)
      → BringsRead (w.decode bytes)
      → Holds v
      → Holds (handle_datagram fl w v now bytes addr)
  unfolding handle_datagram
  handle_datagram-Holds v now bytes addr g h = go (w.decode bytes) g
    where
      go :
          (o : Option (ℕ × Body fl.F))
          → BringsRead o
          → Holds (elim o [ none ↦ v | some (k, b) ↦ handle_body fl v now addr k b ])
      go none g = h
      go (some (k, b)) g = handle_body-Holds v now addr k b g h

  pub run_job-Holds :
      (v : Server fl) (now drawn : ℕ) (j : Job fl.F) → Holds v → Holds (run_job fl w v now drawn j)
  unfolding run_job run_evict send
  run_job-Holds v now drawn (on_hello addr token requested p) h =
      rw (jobs-run_hello v now drawn addr token requested p) h
  run_job-Holds v now drawn (on_switch i requested p) h = rw (jobs-run_switch v i requested p) h
  run_job-Holds v now drawn (teardown i) h = rw (jobs-run_teardown v none i) h
  run_job-Holds v now drawn (evict i code) h = rw (jobs-run_teardown _ none i) h
