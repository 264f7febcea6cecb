-- ===== src/Udp/Authorized.antt =====
-- Every session stays within the scope of its token.
use corshub.Prelude.{
  ℕ, ◌≡◌, refl, true, Option, none, some, String, ◌==◌, ==_refl, if◌then◌else◌, string_eq, nat_eq,
  same, arith, Bool-cases, Option-cases, ◌⊎◌, inl, inr,
}
use corshub.Dict
use corshub.Dict.{Dict}
use corshub.Float.{Float}
use corshub.Mountpoint.{Mountpoint}
use corshub.Udp.{
  Position, Resolution, resolved, refused, scope_allows, nearest, resolve_mountpoint, out_of_range,
  ErrorCode,
}
use corshub.Caster.Positions.{set_rover_position}
use corshub.Udp.Scope.{Justifies, resolve_mountpoint-Justifies}
use corshub.Udp.Sessions.{
  Address, Session, evict, error, decimal, Server, Wire, put, send, spawn, cancel, repoint,
  other_task, run_hello, run_switch, run_teardown, run_evict, run_keepalive,
}

-- The tokens that are given to the server.
module _ (fl : Float) (w : Wire fl) (Given : String → Type 0) where
  -- The scope of a session is the mountpoint that a given token claims, and it allows the mountpoint.
  abbrev pub IsInScope : Session → Type 0
  IsInScope s =
      ((token : String) × Given token × (w.claimed token ≡ some s.scope))
      × (scope_allows s.scope s.mountpoint ≡ true)

  -- Every session object, of torn down sessions too, is within its scope.
  abbrev pub IsAuthorized : Server fl → Type 0
  IsAuthorized v = (i : ℕ) → IsInScope (v.heap i)

  pub put-IsInScope :
      (h : ℕ → Session) (i : ℕ) (s : Session)
      → ((j : ℕ) → IsInScope (h j))
      → IsInScope s
      → (j : ℕ) → IsInScope (put fl h i s j)
  put-IsInScope h i s v k j = elim (Bool-cases (i == j)) [ inl e ↦ rw e k | inr e ↦ rw e (v j) ]

  heap-cancel : (v : Server fl) (t : Option ℕ) → (cancel fl v t).heap ≡ v.heap
  unfolding cancel
  heap-cancel v none = refl
  heap-cancel v (some t) = refl

  repoint-IsAuthorized :
      (v : Server fl) (i : ℕ) (m : String)
      → IsAuthorized v
      → scope_allows (v.heap i).scope m ≡ true
      → IsAuthorized (repoint fl v i m)
  unfolding repoint
  repoint-IsAuthorized v i m a h = elim (Bool-cases (same m (v.heap i).mountpoint)) [
    | inl e ↦ rw (e, repoint) a
    | inr e ↦
        rw (e, repoint)
          (λ j. rw (heap-cancel _ (v.heap i).task) (put-IsInScope v.heap i _ a ((a i).0, h) j))
  ]

  pub Resolution-cases :
      (r : Resolution) → ((c : ErrorCode) × (r ≡ refused c)) ⊎ ((m : String) × (r ≡ resolved m))
  Resolution-cases (refused c) = inl (c, refl)
  Resolution-cases (resolved m) = inr (m, refl)

  scope_allows-resolve_mountpoint :
      (d : Dict String (Mountpoint fl)) (scope requested m : String) (p : Option (Position fl))
      → resolve_mountpoint fl d scope requested p ≡ resolved m
      → scope_allows scope m ≡ true
  scope_allows-resolve_mountpoint d scope requested m p e =
      go (resolve_mountpoint fl d scope requested p) e
        (resolve_mountpoint-Justifies fl d scope requested p)
    where
      go :
          (r : Resolution)
          → r ≡ resolved m
          → Justifies fl d scope requested p r
          → scope_allows scope m ≡ true
      go (resolved n) q (_, allowed, _) = ground arith
      go (refused c) q j = ground arith

  pub run_hello-IsAuthorized :
      (v : Server fl) (now drawn : ℕ) (addr : Address) (token requested : String)
      (p : Option (Position fl))
      → Given token
      → IsAuthorized v
      → IsAuthorized (run_hello fl w v now drawn addr token requested p)
  unfolding run_hello send
  run_hello-IsAuthorized v now drawn addr token requested p given a =
      elim (Option-cases (w.claimed token)) [
        | inl e ↦ rw (e, run_hello) a
        | inr (scope, e) ↦
            elim (Resolution-cases (resolve_mountpoint fl v.caster.mountpoints scope requested p)) [
              | inl (c, r) ↦ rw (e, r, run_hello) a
              | inr (m, r) ↦
                  rw (e, r, run_hello)
                    (put-IsInScope v.heap v.allocated _ a (
                      (token, given, e),
                      scope_allows-resolve_mountpoint v.caster.mountpoints scope requested m p r,
                    ))
            ]
      ]

  pub run_switch-IsAuthorized :
      (v : Server fl) (i : ℕ) (requested : String) (p : Option (Position fl))
      → IsAuthorized v
      → IsAuthorized (run_switch fl v i requested p)
  unfolding run_switch send
  run_switch-IsAuthorized v i requested p a =
      elim (Resolution-cases
        (resolve_mountpoint fl v.caster.mountpoints (v.heap i).scope requested p)) [
          | inl (c, r) ↦ rw (r, run_switch) a
          | inr (m, r) ↦
              rw (r, run_switch)
                (repoint-IsAuthorized _ i m (put-IsInScope v.heap i _ a (a i)) (
                  rw (==_refl i) (
                    scope_allows-resolve_mountpoint v.caster.mountpoints (v.heap i).scope requested
                      m p r)))
        ]

  pub run_teardown-IsAuthorized :
      (v : Server fl) (current : Option ℕ) (i : ℕ)
      → IsAuthorized v
      → IsAuthorized (run_teardown fl v current i)
  unfolding run_teardown
  run_teardown-IsAuthorized v current i a =
      elim (Option-cases (Dict.get v.sessions (v.heap i).session_id)) [
        | inl e ↦ rw (e, run_teardown) a
        | inr (_, e) ↦
            rw (e, run_teardown)
              (λ j.
                rw (heap-cancel _ (other_task fl current (v.heap i).task))
                  (put-IsInScope v.heap i _ a (a i) j))
      ]

  pub run_evict-IsAuthorized :
      (v : Server fl) (i : ℕ) (code : ErrorCode)
      → IsAuthorized v
      → IsAuthorized (run_evict fl v i code)
  unfolding run_evict send
  run_evict-IsAuthorized v i code a =
      run_teardown-IsAuthorized (send fl v (error (v.heap i).addr code)) none i a

  unfoldable pub follow : Server fl → ℕ → Option String → Server fl
  follow v i none = spawn fl v (evict i out_of_range)
  follow v i (some best) = if scope_allows (v.heap i).scope best then repoint fl v i best else v

  follow-IsAuthorized :
      (v : Server fl) (i : ℕ) (o : Option String) → IsAuthorized v → IsAuthorized (follow v i o)
  unfolding follow spawn
  follow-IsAuthorized v i none a = a
  follow-IsAuthorized v i (some best) a = elim (Bool-cases (scope_allows (v.heap i).scope best)) [
    | inl e ↦ rw e (repoint-IsAuthorized v i best a e)
    | inr e ↦ rw e a
  ]

  -- The server once a keepalive has stored the position.
  abbrev pub positioned : Server fl → ℕ → Position fl → Server fl
  positioned v i p = record v {
    caster = set_rover_position fl v.caster (v.heap i).mountpoint (decimal (v.heap i).session_id) p;
  }

  pub keepalive-follow :
      (v : Server fl) (i : ℕ) (p : Position fl)
      → (v.heap i).dynamic ≡ true
      → run_keepalive fl v i (some p)
        ≡ follow (positioned v i p) i (nearest fl (positioned v i p).caster.mountpoints p)
  unfolding run_keepalive follow
  keepalive-follow v i p e =
      rw e (elim (Option-cases (nearest fl (positioned v i p).caster.mountpoints p)) [
        | inl n ↦ rw n refl
        | inr (_, n) ↦ rw n refl
      ])

  pub run_keepalive-IsAuthorized :
      (v : Server fl) (i : ℕ) (p : Option (Position fl))
      → IsAuthorized v
      → IsAuthorized (run_keepalive fl v i p)
  unfolding run_keepalive spawn
  run_keepalive-IsAuthorized v i none a = a
  run_keepalive-IsAuthorized v i (some p) a = elim (Bool-cases (v.heap i).dynamic) [
    | inl e ↦ rw (keepalive-follow v i p e) (follow-IsAuthorized (positioned v i p) i _ a)
    | inr e ↦ ground (arith, e, a)
  ]
