-- ===== src/Udp/Dispatched.antt =====
-- The scopes of the sessions when a datagram arrives and when a started coroutine runs.
use corshub.Prelude.{
  ℕ, Option, none, some, String, List, [], ◌∷◌, All, string_eq, nat_eq, Option-cases, inl, inr,
}
use corshub.Dict
use corshub.Dict.{Dict}
use corshub.Float.{Float}
use corshub.Framing.{Bytes}
use corshub.Udp.Sessions.{
  Address, Job, on_hello, on_switch, teardown, evict, Body, hello, keepalive, switch_mountpoint,
  bye, other, Server, Wire, spawn, dispatch, refresh, handle_body, handle_datagram, run_job,
  run_next,
}
use corshub.Udp.Authorized.{
  IsAuthorized, put-IsInScope, run_hello-IsAuthorized, run_switch-IsAuthorized,
  run_teardown-IsAuthorized, run_evict-IsAuthorized, run_keepalive-IsAuthorized,
}
use corshub.Udp.Held.{IsHeld, Holds, run_job-Holds}

module _ (fl : Float) (w : Wire fl) (Given : String → Type 0) where
  run_job-IsAuthorized :
      (v : Server fl) (now drawn : ℕ) (j : Job fl.F)
      → IsHeld fl w Given j
      → IsAuthorized fl w Given v
      → IsAuthorized fl w Given (run_job fl w v now drawn j)
  unfolding run_job
  run_job-IsAuthorized v now drawn (on_hello addr token requested p) given a =
      run_hello-IsAuthorized fl w Given v now drawn addr token requested p given a
  run_job-IsAuthorized v now drawn (on_switch i requested p) held a =
      run_switch-IsAuthorized fl w Given v i requested p a
  run_job-IsAuthorized v now drawn (teardown i) held a =
      run_teardown-IsAuthorized fl w Given v none i a
  run_job-IsAuthorized v now drawn (evict i code) held a =
      run_evict-IsAuthorized fl w Given v i code a

  pub run_next-IsAuthorized :
      (v : Server fl) (now drawn : ℕ)
      → Holds fl w Given v
      → IsAuthorized fl w Given v
      → IsAuthorized fl w Given (run_next fl w v now drawn)
  unfolding run_next
  run_next-IsAuthorized v now drawn held a = go v.jobs held
    where
      go :
          (js : List (Job fl.F))
          → All (IsHeld fl w Given) js
          → IsAuthorized fl w Given
              (elim js [ [] ↦ v | k ∷ ks ↦ run_job fl w (record v { jobs = ks }) now drawn k ])
      go [] h = a
      go (k ∷ ks) h = run_job-IsAuthorized (record v { jobs = ks }) now drawn k h.0 a

  dispatch-IsAuthorized :
      (v : Server fl) (i : ℕ) (b : Body fl.F)
      → IsAuthorized fl w Given v
      → IsAuthorized fl w Given (dispatch fl v i b)
  unfolding dispatch spawn
  dispatch-IsAuthorized v i (hello token requested p) a = a
  dispatch-IsAuthorized v i (keepalive p) a = run_keepalive-IsAuthorized fl w Given v i p a
  dispatch-IsAuthorized v i (switch_mountpoint requested p) a = a
  dispatch-IsAuthorized v i bye a = a
  dispatch-IsAuthorized v i other a = a

  refresh-IsAuthorized :
      (v : Server fl) (now i : ℕ) (addr : Address)
      → IsAuthorized fl w Given v
      → IsAuthorized fl w Given (refresh fl v now i addr)
  unfolding refresh
  refresh-IsAuthorized v now i addr a = put-IsInScope fl w Given v.heap i _ a (a i)

  -- A datagram of an established session.
  established-IsAuthorized :
      (v : Server fl) (now : ℕ) (addr : Address) (o : Option ℕ) (b : Body fl.F)
      → IsAuthorized fl w Given v
      → IsAuthorized fl w Given
          (elim o [ none ↦ v | some i ↦ dispatch fl (refresh fl v now i addr) i b ])
  established-IsAuthorized v now addr none b a = a
  established-IsAuthorized v now addr (some i) b a =
      dispatch-IsAuthorized (refresh fl v now i addr) i b (refresh-IsAuthorized v now i addr a)

  handle_body-IsAuthorized :
      (v : Server fl) (now : ℕ) (addr : Address) (session_id : ℕ) (b : Body fl.F)
      → IsAuthorized fl w Given v
      → IsAuthorized fl w Given (handle_body fl v now addr session_id b)
  unfolding handle_body spawn
  handle_body-IsAuthorized v now addr k (hello token requested p) a = a
  handle_body-IsAuthorized v now addr k (keepalive p) a =
      established-IsAuthorized v now addr (Dict.get v.sessions k) (keepalive p) a
  handle_body-IsAuthorized v now addr k (switch_mountpoint r p) a =
      established-IsAuthorized v now addr (Dict.get v.sessions k) (switch_mountpoint r p) a
  handle_body-IsAuthorized v now addr k bye a =
      established-IsAuthorized v now addr (Dict.get v.sessions k) bye a
  handle_body-IsAuthorized v now addr k other a =
      established-IsAuthorized v now addr (Dict.get v.sessions k) other a

  pub handle_datagram-IsAuthorized :
      (v : Server fl) (now : ℕ) (bytes : Bytes) (addr : Address)
      → IsAuthorized fl w Given v
      → IsAuthorized fl w Given (handle_datagram fl w v now bytes addr)
  unfolding handle_datagram
  handle_datagram-IsAuthorized v now bytes addr a = elim (Option-cases (w.decode bytes)) [
    | inl e ↦ rw (e, handle_datagram) a
    | inr ((k, b), e) ↦ rw (e, handle_datagram) (handle_body-IsAuthorized v now addr k b a)
  ]

  pub run_next-Holds :
      (v : Server fl) (now drawn : ℕ)
      → Holds fl w Given v
      → Holds fl w Given (run_next fl w v now drawn)
  unfolding run_next
  run_next-Holds v now drawn held = go v.jobs held
    where
      go :
          (js : List (Job fl.F))
          → All (IsHeld fl w Given) js
          → Holds fl w Given
              (elim js [ [] ↦ v | k ∷ ks ↦ run_job fl w (record v { jobs = ks }) now drawn k ])
      go [] h = held
      go (k ∷ ks) h = run_job-Holds fl w Given (record v { jobs = ks }) now drawn k h.1
