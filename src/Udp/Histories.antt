-- ===== src/Udp/Histories.antt =====
-- The scopes of the sessions in every history of the server.
use corshub.Prelude.{
  ℕ, ◌≡◌, true, none, some, String, List, [], ◌∷◌, All, string_eq, nat_eq, arith, Bool-cases, inl,
  inr,
}
use corshub.Caster.{NtripCaster}
use corshub.Float.{Float}
use corshub.Framing.{Bytes}
use corshub.Udp.{next_seq, mountpoint_unavailable}
use corshub.Udp.Sessions.{
  Address, Frame, error, Server, Wire, put, send, run_teardown, handle_datagram, run_next,
}
use corshub.Udp.Egress.{
  sign_frame, pump, is_task, egress_unavailable, stale_sessions, teardown_all, reap_sessions,
}
use corshub.Udp.Authorized.{IsAuthorized, put-IsInScope, run_teardown-IsAuthorized}
use corshub.Udp.Held.{
  Holds, BringsRead, jobs-pump, jobs-run_teardown, jobs-teardown_all, handle_datagram-Holds,
}
use corshub.Udp.Dispatched.{handle_datagram-IsAuthorized, run_next-IsAuthorized, run_next-Holds}

module _ (fl : Float) where
  -- The caster changes beside the server: any change of its own is an event.
  pub data Event : Type 0 where
    receives : ℕ → Bytes → Address → Event
    runs : ℕ → ℕ → Event
    pumps : ℕ → ℕ → ℕ → Frame → Event
    finds_no_transport : ℕ → ℕ → Event
    reaps : ℕ → Event
    caster_becomes : NtripCaster fl → Event

  module _ (w : Wire fl) where
    unfoldable pub step : Server fl → Event → Server fl
    step v (receives now bytes addr) = handle_datagram fl w v now bytes addr
    step v (runs now drawn) = run_next fl w v now drawn
    step v (pumps now i t frame) = (pump fl w v now i t frame).0
    step v (finds_no_transport i t) = egress_unavailable fl v i t
    step v (reaps now) = reap_sessions fl v now
    step v (caster_becomes c) = record v { caster = c }

    unfoldable pub run : Server fl → List Event → Server fl
    run v [] = v
    run v (e ∷ es) = run (step v e) es

    module _ (Given : String → Type 0) where
      heap-sign_frame :
          (v : Server fl) (now : ℕ) (m : String) (f : Frame)
          → (sign_frame fl w v now m f).0.heap ≡ v.heap
      unfolding sign_frame
      heap-sign_frame v now m f = ground arith

      heap-pump :
          (v : Server fl) (now i t : ℕ) (f : Frame) (j : ℕ)
          → is_task fl (v.heap i).task t ≡ true
          → (pump fl w v now i t f).0.heap j
            ≡ put fl v.heap i (record (v.heap i) { seq = (next_seq (v.heap i).seq).1 }) j
      unfolding pump send
      heap-pump v now i t f j e = ground (arith, e, heap-sign_frame v now (v.heap i).mountpoint f)

      pump-IsAuthorized :
          (v : Server fl) (now i t : ℕ) (f : Frame)
          → IsAuthorized fl w Given v
          → IsAuthorized fl w Given (pump fl w v now i t f).0
      unfolding pump
      pump-IsAuthorized v now i t f a = elim (Bool-cases (is_task fl (v.heap i).task t)) [
        | inl e ↦
            λ j. rw (heap-pump v now i t f j e) (put-IsInScope fl w Given v.heap i _ a (a i) j)
        | inr e ↦ rw (e, pump) a
      ]

      teardown_all-IsAuthorized :
          (v : Server fl) (is : List ℕ)
          → IsAuthorized fl w Given v
          → IsAuthorized fl w Given (teardown_all fl v is)
      unfolding teardown_all
      teardown_all-IsAuthorized v [] a = a
      teardown_all-IsAuthorized v (i ∷ is) a =
          teardown_all-IsAuthorized (run_teardown fl v none i) is
            (run_teardown-IsAuthorized fl w Given v none i a)

      -- A hello that is received brings a token that is given.
      abbrev pub Presents : Event → Type 0
      Presents (receives now bytes addr) = BringsRead fl w Given (w.decode bytes)
      Presents (runs now drawn) = Unit
      Presents (pumps now i t frame) = Unit
      Presents (finds_no_transport i t) = Unit
      Presents (reaps now) = Unit
      Presents (caster_becomes c) = Unit

      step-Holds :
          (v : Server fl) (e : Event)
          → Presents e
          → Holds fl w Given v
          → Holds fl w Given (step v e)
      unfolding step egress_unavailable send reap_sessions
      step-Holds v (receives now bytes addr) given held =
          handle_datagram-Holds fl w Given v now bytes addr given held
      step-Holds v (runs now drawn) given held = run_next-Holds fl w Given v now drawn held
      step-Holds v (pumps now i t frame) given held = rw (jobs-pump fl w Given v now i t frame) held
      step-Holds v (finds_no_transport i t) given held =
          rw
            (jobs-run_teardown fl w Given (send fl v (error (v.heap i).addr mountpoint_unavailable))
              (some t) i)
            held
      step-Holds v (reaps now) given held =
          rw (jobs-teardown_all fl w Given v (stale_sessions fl v now v.sessions)) held
      step-Holds v (caster_becomes c) given held = held

      step-IsAuthorized :
          (v : Server fl) (e : Event)
          → Holds fl w Given v
          → IsAuthorized fl w Given v
          → IsAuthorized fl w Given (step v e)
      unfolding step egress_unavailable send reap_sessions
      step-IsAuthorized v (receives now bytes addr) held a =
          handle_datagram-IsAuthorized fl w Given v now bytes addr a
      step-IsAuthorized v (runs now drawn) held a =
          run_next-IsAuthorized fl w Given v now drawn held a
      step-IsAuthorized v (pumps now i t frame) held a = pump-IsAuthorized v now i t frame a
      step-IsAuthorized v (finds_no_transport i t) held a =
          run_teardown-IsAuthorized fl w Given
            (send fl v (error (v.heap i).addr mountpoint_unavailable)) (some t) i a
      step-IsAuthorized v (reaps now) held a =
          teardown_all-IsAuthorized v (stale_sessions fl v now v.sessions) a
      step-IsAuthorized v (caster_becomes c) held a = a

      -- In every history of datagrams, started coroutines, pumped frames, failed subscriptions, passes
      -- of the reaper and changes of the caster, where the hellos bring only given tokens, and from a
      -- server where it holds and where those that wait hold only such tokens, every session, a session
      -- that is torn down included, has as its scope exactly the mountpoint that a given token claims,
      -- as the server verifies it, and stands on a mountpoint that this scope allows.
      pub run-IsAuthorized :
          (v : Server fl) (es : List Event)
          → All Presents es
          → Holds fl w Given v
          → IsAuthorized fl w Given v
          → IsAuthorized fl w Given (run v es)
      unfolding run
      run-IsAuthorized v [] given held a = a
      run-IsAuthorized v (e ∷ es) given held a =
          run-IsAuthorized (step v e) es given.1 (step-Holds v e given.0 held)
            (step-IsAuthorized v e held a)
