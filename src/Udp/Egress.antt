-- ===== src/Udp/Egress.antt =====
-- The egress of `RTCMDatagramServer`, src/corshub/rtcm/udp.py: `_egress_loop`, `_pump`, `_sign_frame`
-- and a pass of the reaper.
use corshub.Prelude.{
  ℕ, Bool, true, false, not, Option, none, some, String, List, [], ◌∷◌, ltb, ◌==◌, if◌then◌else◌,
  string_eq, nat_eq,
}
use corshub.Dict
use corshub.Dict.{Dict}
use corshub.Float.{Float}
use corshub.Udp.{mountpoint_unavailable, next_seq}
use corshub.Udp.Sessions.{
  Frame, SignedCorrection, error, correction, Server, Wire, put, send, run_teardown,
}

module _ (fl : Float) where
  -- `_sign_frame`: a frame object that is the cached one is not signed again.
  unfoldable pub sign_frame :
      Wire fl → Server fl → ℕ → String → Frame → Server fl × SignedCorrection
  sign_frame w v now mountpoint frame =
      let fresh = w.sign mountpoint now frame.1 in
      let stored = record v { signed_cache = Dict.set v.signed_cache mountpoint (frame, fresh) } in
      elim (Dict.get v.signed_cache mountpoint) [
        | none ↦ (stored, fresh)
        | some (cached, signed) ↦ if cached.0 == frame.0 then (v, signed) else (stored, fresh)
      ]

  abbrev pub is_task : Option ℕ → ℕ → Bool
  is_task none t = false
  is_task (some u) t = u == t

  -- One round of `_pump` for the session at place `i`, in its task `t`, with a frame; with it,
  -- whether the loop goes on.
  unfoldable pub pump : Wire fl → Server fl → ℕ → ℕ → ℕ → Frame → Server fl × Bool
  unfolding sign_frame send next_seq
  pump w v now i t frame =
      let s = v.heap i in
      if not (is_task s.task t)
      then (v, false)
      else let (v, signed) = sign_frame w v now s.mountpoint frame in
        let (seq, kept) = next_seq s.seq in
        let v = record v { heap = put fl v.heap i (record s { seq = kept }) } in
        if ltb v.max_datagram (w.size s.session_id seq signed)
        then (v, true)
        else (send fl v (correction s.addr s.session_id seq signed), true)

  -- `_egress_loop` of the session at place `i`, in its task `t`, where the caster has no transport
  -- for the mountpoint it was started for.
  unfoldable pub egress_unavailable : Server fl → ℕ → ℕ → Server fl
  unfolding send
  egress_unavailable v i t =
      run_teardown fl (send fl v (error (v.heap i).addr mountpoint_unavailable)) (some t) i

  unfoldable pub stale_sessions : Server fl → ℕ → List (ℕ × ℕ) → List ℕ
  stale_sessions v now [] = []
  stale_sessions v now ((session_id, i) ∷ rest) =
      if ltb (v.heap i).expiry now then i ∷ stale_sessions v now rest else stale_sessions v now rest

  unfoldable pub teardown_all : Server fl → List ℕ → Server fl
  teardown_all v [] = v
  teardown_all v (i ∷ is) = teardown_all (run_teardown fl v none i) is

  -- A pass of the reaper.
  unfoldable pub reap_sessions : Server fl → ℕ → Server fl
  unfolding stale_sessions teardown_all
  reap_sessions v now = teardown_all v (stale_sessions v now v.sessions)
