-- ===== src/Here4/Pusher.antt =====
-- `caster_loop` and `caster_stats_loop` of tools/here4-base-caster.py: the connection to the caster.
use corshub.Prelude.{ℕ, ◌*◌, Option, none, some, String, List, [], ◌∷◌, ◌++◌, ◌==◌, if◌then◌else◌}
use Prim.Native.Nat.{min}
use corshub.Float.{Float}
use corshub.Framing.{Bytes}
use corshub.AsyncQueue
use corshub.AsyncQueue.{AsyncQueue}
use corshub.Mountpoint.{is_empty}
use corshub.Here4.{handshake, streaming, failed, Numerals, Arguments, build_ntrip_str}
use corshub.Here4.Receiver.{is_fixed, GnssState}

-- What the loop does next: wait for a position, wait for the answer, read the answer's body, sleep.
pub data PushPhase : Type 0 where
  awaits_fix : PushPhase
  awaits_answer : PushPhase
  streams : PushPhase
  sleeps : PushPhase
  returned : PushPhase

module _ (fl : Float) where
  -- The headers of the requests so far, the frames that the body has yielded, the back-off in seconds
  -- and the times that were slept.
  pub record Pusher : Type 0 where
    pub phase : PushPhase
    pub backoff : ℕ
    pub requests : List String
    pub sent : List Bytes
    pub slept : List ℕ

  unfoldable pub new_pusher : Pusher
  new_pusher = record { phase = awaits_fix; backoff = 1; requests = []; sent = []; slept = [] }

  abbrev or_text : Option String → String → String
  or_text none default = default
  or_text (some s) default = if is_empty s then default else s

  abbrev text_of : Option String → String
  text_of none = ""
  text_of (some s) = s

  -- The station's Ntrip-STR header at this time.
  unfoldable pub header : Numerals fl → Arguments fl → GnssState fl → String
  unfolding build_ntrip_str
  header num a gs =
      build_ntrip_str fl num (text_of a.mountpoint) (or_text a.label (text_of a.mountpoint)) gs.lat
        gs.lon (text_of a.country) (text_of a.network)

  abbrev pub Push : Type 0
  Push = Pusher × GnssState fl

  -- The test of the position, every half a second; with one, a request is made.
  unfoldable pub poll : Numerals fl → Arguments fl → Push → Push
  unfolding header
  poll num a (p, gs) =
      if is_fixed gs.state
      then (
        record p { phase = awaits_answer; requests = p.requests ++ header num a gs ∷ [] },
        record gs { caster_state = handshake; caster_error = "" },
      )
      else (p, gs)

  -- An exception other than cancellation.
  unfoldable pub fail : String → Push → Push
  fail exc (p, gs) = (
    record p { phase = sleeps; slept = p.slept ++ p.backoff ∷ [] },
    record gs { caster_state = failed; caster_error = exc },
  )

  -- The answer's status, and the text of the exception that another status than 200 raises.
  unfoldable pub answer : ℕ → String → Push → Push
  unfolding fail
  answer status exc (p, gs) =
      if status == 200
      then (record p { phase = streams; backoff = 1 }, record gs { caster_state = streaming })
      else fail exc (p, gs)

  -- The answer's body ends.
  unfoldable pub close : Push → Push
  close (p, gs) = (record p { phase = awaits_fix }, gs)

  unfoldable pub wake : Push → Push
  wake (p, gs) = (record p { phase = awaits_fix; backoff = min (p.backoff * 2) 30 }, gs)

  unfoldable pub cancel : Push → Push
  cancel (p, gs) = (record p { phase = returned }, gs)

  -- The body of a request takes the next frame, if one waits.
  unfoldable pub take_frame : Pusher → AsyncQueue Bytes → Pusher × AsyncQueue Bytes
  unfolding AsyncQueue.get_nowait
  take_frame p q = elim (AsyncQueue.get_nowait q) [
    | none ↦ (p, q)
    | some (frame, rest) ↦ (record p { sent = p.sent ++ frame ∷ [] }, rest)
  ]

  -- `caster_stats_loop`
  unfoldable pub count_stats : GnssState fl → GnssState fl
  count_stats gs = record gs { caster_msgs = gs.rtcm_msgs; caster_bytes = gs.rtcm_bytes }
