-- ===== src/Routes/Stream.antt =====
-- The stream of corrections to a rover: `stream_frames` of src/corshub/services/v1/ntrip/read.py. What
-- other requests and tasks do to the caster while the stream waits, the reader of the rover's
-- positions among them, stands in front of each turn.
pub mod Left
pub mod Received
use corshub.Prelude.{ℕ, Bool, true, false, Option, none, some, String, List, [], ◌∷◌, if◌then◌else◌}
use corshub.Float.{Float}
use corshub.Framing.{Bytes}
use corshub.Observe.{Parser}
use corshub.Subscriber.{Got, returned, value_error, waiting, take_item, get}
use corshub.Subscriber.Lifecycle.{Event as Read, gets, wakes, cancels}
use corshub.Caster.{NtripCaster, Coordinates, Result, ok, raise}
use corshub.Caster.Positions.{set_rover_position, clear_rover_position}
use corshub.Caster.Publishing.{subscribe, unsubscribe}
use corshub.Caster.Histories.{Event, reads, step, run}

module _ (fl : Float) where
  -- A turn of the stream: what others did before it, whether the stream goes on with its `get`
  -- or is cut off by the limit of its session or by a rover that is gone, and whether a frame can be
  -- written.
  pub record Turn : Type 0 where
    pub before : List (Event fl)
    pub resumes : Bool
    pub written : Bool

  unfoldable pub is_waiting : Got → Bool
  is_waiting waiting = true
  is_waiting (returned o) = false
  is_waiting value_error = false

  -- The caster in the end, and the frames that were written.
  abbrev pub Sent : Type 0
  Sent = NtripCaster fl × List Bytes

  -- What the loop does with what `get` gives, with what the later turns give.
  unfoldable pub forward : Got → Bool → NtripCaster fl → Sent → Sent
  forward (returned (some frame)) written c rest =
      if written then (rest.0, frame ∷ rest.1) else (c, [])
  forward (returned none) written c rest = (c, [])
  forward value_error written c rest = (c, [])
  forward waiting written c rest = rest

  module _ (p : Parser fl) where
    -- The `get` of a subscriber that is called, or that is woken when it waits.
    unfoldable pub got : NtripCaster fl → ℕ → ℕ → Bool → Got
    unfolding get take_item
    got c i subscriber waits =
        if waits
        then (take_item ((c.heap i).heap subscriber)).0
        else (get ((c.heap i).heap subscriber)).0

    abbrev pub read_step : Bool → Read
    read_step waits = if waits then wakes else gets

    -- A wait that is cut off.
    unfoldable pub cut_off : NtripCaster fl → ℕ → ℕ → Bool → NtripCaster fl
    unfolding step
    cut_off c i subscriber waits = if waits then step fl p c (reads i subscriber cancels) else c

    -- The loop over the frames, as far as its turns go; then the stream is cut off.
    unfoldable pub stream_loop : NtripCaster fl → ℕ → ℕ → Bool → List Turn → Sent
    unfolding is_waiting forward got cut_off run step
    stream_loop c i subscriber waits [] = (cut_off c i subscriber waits, [])
    stream_loop c i subscriber waits (turn ∷ turns) =
        let c' = run fl p c turn.before in
        let g = got c' i subscriber waits in
        let d = step fl p c' (reads i subscriber (read_step waits)) in
        let rest = stream_loop d i subscriber (is_waiting g) turns in
        if turn.resumes then forward g turn.written d rest else (cut_off c' i subscriber waits, [])

    -- The context of the subscription.
    unfoldable pub stream_subscribed :
        NtripCaster fl → List Turn → Result (NtripCaster fl × (ℕ × ℕ)) → Sent
    unfolding stream_loop
    stream_subscribed c turns (raise _) = (c, [])
    stream_subscribed c turns (ok (d, (i, subscriber))) =
        let (e, frames) = stream_loop d i subscriber false turns in
        (unsubscribe fl e i subscriber, frames)

    -- The position of the request's header, if it has one.
    unfoldable pub seed_position :
        NtripCaster fl → String → String → Option (Coordinates fl) → NtripCaster fl
    seed_position c mountpoint rover none = c
    seed_position c mountpoint rover (some position) =
        set_rover_position fl c mountpoint rover position

    -- The whole stream. The reader of positions is cancelled at its end, and `last` is what
    -- happens until it is gone.
    unfoldable pub stream_frames :
        NtripCaster fl
        → String
        → String
        → Option (Coordinates fl)
        → List Turn
        → List (Event fl)
        → Sent
    unfolding seed_position stream_subscribed run
    stream_frames c mountpoint rover initial turns last =
        let c' = seed_position c mountpoint rover initial in
        let (d, frames) = stream_subscribed c' turns (subscribe fl c' mountpoint) in
        (clear_rover_position fl (run fl p d last) mountpoint rover, frames)
