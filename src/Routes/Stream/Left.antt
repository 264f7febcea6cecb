-- ===== src/Routes/Stream/Left.antt =====
-- What the stream of a rover leaves behind.
use corshub.Prelude.{
  ℕ, ◌≡◌, refl, ◌∙◌, Bool, true, false, Option, none, some, String, List, [], ◌∷◌, same_refl,
  string_eq, Bool-cases, inl, inr,
}
use corshub.Float.{Float}
use corshub.Observe.{Parser}
use corshub.Subscriber.{Got, returned, value_error, waiting}
use corshub.Subscriber.Lifecycle.{cancels}
use corshub.Caster.{NtripCaster, Coordinates, Result, ok, raise}
use corshub.Caster.Positions.{clear_rover_position, position_of, position_of-clear_rover_position}
use corshub.Caster.Publishing.{subscribe}
use corshub.Caster.Registry.{IsCaster, Holds}
use corshub.Caster.Preserved.{subscribe-IsCaster, unsubscribe-IsCaster}
use corshub.Caster.Histories.{
  Event, reads, sets_position, clears_position, step, run, step-IsCaster, run-IsCaster,
}
use corshub.Routes.Stream.{
  Turn, is_waiting, Sent, forward, got, read_step, cut_off, stream_loop, stream_subscribed,
  seed_position, stream_frames,
}

module _ (fl : Float) where
  -- The rover has no position on the mountpoint, and the registry's invariant holds.
  pub record IsLeft (m rover : String) (c : NtripCaster fl) : Type 0 where
    pub unseen : position_of fl c m rover ≡ none
    pub valid : IsCaster fl c

  forward-IsCaster :
      (g : Got) (written : Bool) (c : NtripCaster fl) (rest : Sent fl)
      → IsCaster fl c
      → IsCaster fl rest.0
      → IsCaster fl (forward fl g written c rest).0
  unfolding forward
  forward-IsCaster (returned (some f)) true c rest v w = w
  forward-IsCaster (returned (some f)) false c rest v w = v
  forward-IsCaster (returned none) written c rest v w = v
  forward-IsCaster value_error written c rest v w = v
  forward-IsCaster waiting written c rest v w = w

  module _ (p : Parser fl) where
    cut_off-IsCaster :
        (c : NtripCaster fl) (i s : ℕ) (waits : Bool)
        → IsCaster fl c
        → IsCaster fl (cut_off fl p c i s waits)
    unfolding cut_off
    cut_off-IsCaster c i s true v = step-IsCaster fl p c (reads i s cancels) v
    cut_off-IsCaster c i s false v = v

    stream_loop-IsCaster :
        (c : NtripCaster fl) (i s : ℕ) (waits : Bool) (turns : List (Turn fl))
        → IsCaster fl c
        → IsCaster fl (stream_loop fl p c i s waits turns).0
    unfolding stream_loop
    stream_loop-IsCaster c i s waits [] v = cut_off-IsCaster c i s waits v
    stream_loop-IsCaster c i s waits (turn ∷ turns) v =
        let c' = run fl p c turn.before in
        let w = run-IsCaster fl p c turn.before v in
        let d = step fl p c' (reads i s (read_step fl p waits)) in
        let u = step-IsCaster fl p c' (reads i s (read_step fl p waits)) w in
        let g = got fl p c' i s waits in
        elim (Bool-cases turn.resumes) [
          | inl q ↦
              rw (q, stream_loop)
                (forward-IsCaster g turn.written d _ u
                  (stream_loop-IsCaster d i s (is_waiting fl g) turns u))
          | inr q ↦ rw (q, stream_loop) (cut_off-IsCaster c' i s waits w)
        ]

    stream_subscribed-IsCaster :
        (c : NtripCaster fl) (turns : List (Turn fl)) (r : Result (NtripCaster fl × (ℕ × ℕ)))
        → IsCaster fl c
        → Holds fl (λ a. IsCaster fl a.0) r
        → IsCaster fl (stream_subscribed fl p c turns r).0
    unfolding stream_subscribed
    stream_subscribed-IsCaster c turns (raise e) v h = v
    stream_subscribed-IsCaster c turns (ok (d, (i, s))) v h =
        unsubscribe-IsCaster fl p _ i s (stream_loop-IsCaster d i s false turns h)

    seed_position-IsCaster :
        (c : NtripCaster fl) (m rover : String) (o : Option (Coordinates fl))
        → IsCaster fl c
        → IsCaster fl (seed_position fl p c m rover o)
    unfolding seed_position step
    seed_position-IsCaster c m rover none v = v
    seed_position-IsCaster c m rover (some position) v =
        step-IsCaster fl p c (sets_position m rover position) v

    clear-IsLeft :
        (c : NtripCaster fl) (m rover : String)
        → IsCaster fl c
        → IsLeft m rover (clear_rover_position fl c m rover)
    unfolding step
    clear-IsLeft c m rover v = record {
      unseen =
          position_of-clear_rover_position fl c m rover m rover
          ∙ rw (same_refl m, same_refl rover) refl;
      valid = step-IsCaster fl p c (clears_position m rover) v;
    }

    -- However the stream of a rover ends, by the end of its mountpoint, by the limit of its session, by
    -- a rover that is gone, or because there is nothing to subscribe to, and whatever others do to the
    -- caster meanwhile: the rover has no position on the mountpoint any more, and the registry's
    -- invariant holds as it held before.
    pub stream_frames-IsLeft :
        (c : NtripCaster fl) (m rover : String) (initial : Option (Coordinates fl))
        (turns : List (Turn fl)) (after_end : List (Event fl))
        → IsCaster fl c
        → IsLeft m rover (stream_frames fl p c m rover initial turns after_end).0
    unfolding stream_frames
    stream_frames-IsLeft c m rover initial turns after_end v =
        let c' = seed_position fl p c m rover initial in
        let w = seed_position-IsCaster c m rover initial v in
        let d = (stream_subscribed fl p c' turns (subscribe fl c' m)).0 in
        clear-IsLeft (run fl p d after_end) m rover (
          run-IsCaster fl p d after_end (
            stream_subscribed-IsCaster c' turns (subscribe fl c' m) w
              (subscribe-IsCaster fl p c' m w)))
