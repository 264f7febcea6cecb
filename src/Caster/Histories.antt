-- ===== src/Caster/Histories.antt =====
-- The registry's invariant in every history of the caster.
use corshub.Prelude.{ℕ, refl, String, List, [], ◌∷◌, string_eq, arith}
use corshub.Float.{Float}
use corshub.Framing.{Bytes}
use corshub.Mountpoint.{Metadata}
use corshub.Observe.{Parser}
use corshub.Caster.{
  NtripCaster, Coordinates, Result, ok, raise, update, register, close, unregister,
}
use corshub.Caster.Positions.{set_rover_position, clear_rover_position}
use corshub.Caster.Publishing.{quality_round, publish, subscribe, unsubscribe, start, stop}
use corshub.Caster.Reaper.{reap}
use corshub.Caster.Registry.{
  IsCaster, Holds, register-IsCaster, close-IsCaster, unregister-IsCaster,
}
use corshub.Subscriber.Lifecycle.{Event as Read}
use corshub.Transport.Validity.{TransportEvent, transport_step, transport_step-IsTransport}
use corshub.Caster.Preserved.{
  set_transport-IsCaster, SameRegistry-IsCaster, SameRegistry-quality_round, publish-IsCaster,
  subscribe-IsCaster, unsubscribe-IsCaster, reap-IsCaster,
}

module _ (fl : Float) where
  -- What the handlers, the tasks and the clock do to a caster.
  pub data Event : Type 0 where
    registers : ℕ → String → Metadata fl → Event
    closes : String → Event
    unregisters : String → Event
    publishes : ℕ → String → Bytes → Event
    subscribes : String → Event
    unsubscribes : ℕ → ℕ → Event
    sets_position : String → String → Coordinates fl → Event
    clears_position : String → String → Event
    reaps : ℕ → Event
    parses : Event
    reads : ℕ → ℕ → Read → Event
    starts : Event
    stops : Event

  -- A method that raises leaves the state as it was.
  abbrev pub after : NtripCaster fl → Result (NtripCaster fl) → NtripCaster fl
  after c (ok d) = d
  after c (raise e) = c

  abbrev pub state {ℓ} : {A : Type ℓ} → Result (NtripCaster fl × A) → Result (NtripCaster fl)
  state (ok (d, a)) = ok d
  state (raise e) = raise e

  module _ (p : Parser fl) where
    unfoldable pub step : NtripCaster fl → Event → NtripCaster fl
    step c (registers now m k) = after c (state (register fl c now m k))
    step c (closes m) = after c (close fl c m)
    step c (unregisters m) = unregister fl c m
    step c (publishes now m f) = after c (state (publish fl p c now m f))
    step c (subscribes m) = after c (state (subscribe fl c m))
    step c (unsubscribes i subscriber) = unsubscribe fl c i subscriber
    step c (sets_position m rover position) = set_rover_position fl c m rover position
    step c (clears_position m rover) = clear_rover_position fl c m rover
    step c (reaps now) = reap fl c now
    step c (reads i s e) = record c {
      heap = update c.heap i (transport_step (c.heap i) (TransportEvent.reads s e));
    }
    step c parses = quality_round fl p c
    step c starts = start fl c
    step c stops = stop fl c

    unfoldable pub run : NtripCaster fl → List Event → NtripCaster fl
    run c [] = c
    run c (e ∷ es) = run (step c e) es

    after-Holds :
        (P : NtripCaster fl → Type 0) (c : NtripCaster fl) (r : Result (NtripCaster fl))
        → P c
        → Holds fl P r
        → P (after c r)
    after-Holds P c (ok d) v h = h
    after-Holds P c (raise e) v h = v

    state-Holds :
        {A : Type 0} (P : NtripCaster fl → Type 0) (r : Result (NtripCaster fl × A))
        → Holds fl (λ a. P a.0) r
        → Holds fl P (state r)
    state-Holds P (ok (d, a)) h = h
    state-Holds P (raise e) h = tt

    pub step-IsCaster : (c : NtripCaster fl) (e : Event) → IsCaster fl c → IsCaster fl (step c e)
    unfolding step set_rover_position clear_rover_position start stop
    step-IsCaster c (registers now m k) v =
        after-Holds (IsCaster fl) c _ v
          (state-Holds (IsCaster fl) _ (register-IsCaster fl c now m k v))
    step-IsCaster c (closes m) v = after-Holds (IsCaster fl) c _ v (close-IsCaster fl c m v)
    step-IsCaster c (unregisters m) v = unregister-IsCaster fl c m v
    step-IsCaster c (publishes now m f) v =
        after-Holds (IsCaster fl) c _ v
          (state-Holds (IsCaster fl) _ (publish-IsCaster fl p c now m f v))
    step-IsCaster c (subscribes m) v =
        after-Holds (IsCaster fl) c _ v
          (state-Holds (IsCaster fl) _ (subscribe-IsCaster fl p c m v))
    step-IsCaster c (unsubscribes i s) v = unsubscribe-IsCaster fl p c i s v
    step-IsCaster c (sets_position m r q) v =
        SameRegistry-IsCaster fl c _ (refl, refl, refl, refl) v
    step-IsCaster c (clears_position m r) v = SameRegistry-IsCaster fl c _ (ground arith) v
    step-IsCaster c (reaps now) v = reap-IsCaster fl p c now v
    step-IsCaster c (reads i s e) v =
        set_transport-IsCaster fl c i _ v (transport_step-IsTransport (c.heap i) _ (v.valid i))
    step-IsCaster c parses v = SameRegistry-IsCaster fl c _ (SameRegistry-quality_round fl p c) v
    step-IsCaster c starts v = SameRegistry-IsCaster fl c _ (refl, refl, refl, refl) v
    step-IsCaster c stops v = SameRegistry-IsCaster fl c _ (refl, refl, refl, refl) v

    -- In every history of registrations, closings, unregistrations, publications, subscriptions,
    -- positions, reads and
    -- cancellations of the rovers' subscribers, passes of the reaper and of the quality worker, starts and stops, from a caster
    -- where it holds, the invariant of the registry holds: each mountpoint stands there once, each
    -- transport belongs to a registered mountpoint, no two mountpoints share a transport, and every
    -- transport that was ever made, those that were closed included, is well formed.
    pub run-IsCaster :
        (c : NtripCaster fl) (es : List Event) → IsCaster fl c → IsCaster fl (run c es)
    unfolding run
    run-IsCaster c [] v = v
    run-IsCaster c (e ∷ es) v = run-IsCaster (step c e) es (step-IsCaster c e v)
