-- ===== src/Routes/Stream/Received.antt =====
-- What a rover is sent.
use mathlib.Core.List.{Sublist, append-nil, append_assoc, nil-sublist}
use mathlib.Core.List as List
use mathlib.Core.Path.{subst}
use corshub.Prelude.{
  ℕ, ◌+◌, ◌<◌, ◌≡◌, refl, sym, ap, ◌∙◌, Bool, true, false, Option, none, some, String, [], ◌∷◌,
  ◌++◌, if◌then◌else◌, All, Bool-cases, inl, inr, arith, ◌==◌, ==_refl, string_eq,
}
use corshub.Prelude
use corshub.Dict
use corshub.Dict.{Dict}
use corshub.Float.{Float}
use corshub.Framing.{Bytes}
use corshub.Observe.{Parser}
use corshub.Subscriber.{Got, returned, value_error, waiting}
use corshub.Subscriber.Lifecycle.{gets, wakes}
use corshub.Subscriber.Lifecycle
use corshub.Subscriber.Fed.{held, frame_of, take_item-held, get-held}
use corshub.Transport.{subscribe_enter}
use corshub.Transport.Validity.{transport_step}
use corshub.Caster.{NtripCaster, Coordinates, Result, ok, raise, Returns}
use corshub.Caster.Positions.{set_rover_position}
use corshub.Caster.Publishing.{subscribe, report}
use corshub.Caster.Registry.{IsCaster, Holds}
use corshub.Caster.Preserved.{subscribe-IsCaster}
use corshub.Caster.Histories.{Event, reads, sets_position, step, run, step-IsCaster, run-IsCaster}
use corshub.Caster.Followed.{IsOwned}
use corshub.Caster.Followed.Published.{all_published, IsForeign}
use corshub.Caster.Followed.Runs.{run-Follows}
use corshub.Routes.Stream.{
  Turn, is_waiting, Sent, forward, got, read_step, stream_loop, stream_subscribed, seed_position,
  stream_frames,
}

module _ (fl : Float) where
  -- What is published on a mountpoint in the course of the turns.
  unfoldable pub turns_published : String → Prelude.List (Turn fl) → Prelude.List Bytes
  turns_published m [] = []
  turns_published m (turn ∷ turns) = all_published fl m turn.before ++ turns_published m turns

  -- Nobody but the stream itself reads its subscriber.
  abbrev pub IsAlone : ℕ → ℕ → Prelude.List (Turn fl) → Type 0
  IsAlone i s turns = All (λ turn. All (IsForeign fl i s) turn.before) turns

  forward-Sublist :
      (g : Got) (written : Bool) (c : NtripCaster fl) (rest : Sent fl) (fs : Prelude.List Bytes)
      → Sublist rest.1 fs
      → Sublist (forward fl g written c rest).1 (frame_of g ++ fs)
  unfolding forward
  forward-Sublist (returned (some f)) true c rest fs h = List.Sublist.cons-cons f h
  forward-Sublist (returned (some f)) false c rest fs h = nil-sublist (f ∷ fs)
  forward-Sublist (returned none) written c rest fs h = nil-sublist fs
  forward-Sublist value_error written c rest fs h = nil-sublist fs
  forward-Sublist waiting written c rest fs h = h

  -- What is sent is taken of what is read now, of what is left and of what comes later; what is read
  -- and left was there before or has come in between.
  sent-Sublist :
      (sent now left then_held before between later : Prelude.List Bytes)
      → Sublist sent (now ++ (left ++ later))
      → now ++ left ≡ then_held
      → Sublist then_held (before ++ between)
      → Sublist sent (before ++ (between ++ later))
  sent-Sublist sent now left then_held before between later h e k =
      rw (← append_assoc before between later) (
        List.Sublist.trans h
          (rw (← append_assoc now left later, e) (List.Sublist.append k (List.Sublist.refl later))))

  module _ (p : Parser fl) (m : String) (i s : ℕ) where
    -- What the stream reads of its subscriber.
    read-held :
        (c : NtripCaster fl) (waits : Bool)
        → frame_of (got fl p c i s waits)
            ++ held (((step fl p c (reads i s (read_step fl p waits))).heap i).heap s)
          ≡ held ((c.heap i).heap s)
    unfolding got step transport_step Lifecycle.step
    read-held c true = rw (==_refl i, ==_refl s) (take_item-held ((c.heap i).heap s))
    read-held c false = rw (==_refl i, ==_refl s) (get-held ((c.heap i).heap s))

    read-IsOwned :
        (c : NtripCaster fl) (waits : Bool)
        → IsOwned fl m i s c
        → IsOwned fl m i s (step fl p c (reads i s (read_step fl p waits)))
    unfolding step transport_step
    read-IsOwned c waits o = record {
      placed = o.placed;
      seated = rw (==_refl i) o.seated;
      owner = o.owner;
    }

    stream_loop-Sublist :
        (c : NtripCaster fl) (waits : Bool) (turns : Prelude.List (Turn fl))
        → IsCaster fl c
        → IsOwned fl m i s c
        → IsAlone i s turns
        → Sublist
            (stream_loop fl p c i s waits turns).1
            (held ((c.heap i).heap s) ++ turns_published m turns)
    unfolding stream_loop turns_published
    stream_loop-Sublist c waits [] v o alone = nil-sublist (held ((c.heap i).heap s) ++ [])
    stream_loop-Sublist c waits (turn ∷ turns) v o (quiet, alone) =
        let c' = run fl p c turn.before in
        let h = run-Follows fl p m i s c turn.before v o quiet in
        let d = step fl p c' (reads i s (read_step fl p waits)) in
        let g = got fl p c' i s waits in
        let later = turns_published m turns in
        let before = all_published fl m turn.before in
        let rest =
          stream_loop-Sublist d (is_waiting fl g) turns
            (step-IsCaster fl p c' (reads i s (read_step fl p waits))
              (run-IsCaster fl p c turn.before v))
            (read-IsOwned c' waits h.owned) alone in
        let sent =
          forward-Sublist g turn.written d (stream_loop fl p d i s (is_waiting fl g) turns) _
            rest in
        elim (Bool-cases turn.resumes) [
          | inr q ↦
              rw (q, stream_loop) (nil-sublist (held ((c.heap i).heap s) ++ (before ++ later)))
          | inl q ↦
              rw (q, stream_loop)
                (sent-Sublist _ (frame_of g) (held ((d.heap i).heap s)) (held ((c'.heap i).heap s))
                  (held ((c.heap i).heap s)) before later sent (read-held c' waits) h.fed)
        ]

  module _ (p : Parser fl) where
    -- The subscriber of a new subscription.
    pub record IsSeated (c : NtripCaster fl) (m : String) (i : ℕ) (r : NtripCaster fl × (ℕ × ℕ))
        : Type 0 where
      pub place : r.1 ≡ (i, (c.heap i).allocated)
      pub owned : IsOwned fl m i (c.heap i).allocated r.0
      pub empty : held ((r.0.heap i).heap (c.heap i).allocated) ≡ []

    subscribe-IsSeated :
        (c : NtripCaster fl) (m : String) (i : ℕ)
        → IsCaster fl c
        → Dict.get c.transports m ≡ some i
        → Returns (IsSeated c m i) (subscribe fl c m)
    unfolding subscribe report subscribe_enter
    subscribe-IsSeated c m i v e =
        rw (e, subscribe)
          (record {
            place = refl;
            owned = record {
              placed = ground (arith, v.allocated m, e);
              seated = rw (==_refl i) (omega arith);
              owner = λ k q. ground (arith, v.unshared k m i, q, e);
            };
            empty = rw (==_refl i, ==_refl (c.heap i).allocated) refl;
          })

    stream_subscribed-Sublist :
        (c : NtripCaster fl) (m : String) (i : ℕ) (turns : Prelude.List (Turn fl))
        → IsCaster fl c
        → Dict.get c.transports m ≡ some i
        → IsAlone i (c.heap i).allocated turns
        → Sublist (stream_subscribed fl p c turns (subscribe fl c m)).1 (turns_published m turns)
    unfolding stream_subscribed
    stream_subscribed-Sublist c m i turns v e alone =
        go (subscribe fl c m) (subscribe-IsCaster fl p c m v) (subscribe-IsSeated c m i v e)
      where
        go :
            (o : Result (NtripCaster fl × (ℕ × ℕ)))
            → Holds fl (λ r. IsCaster fl r.0) o
            → Returns (IsSeated c m i) o
            → Sublist (stream_subscribed fl p c turns o).1 (turns_published m turns)
        go (ok (d, place)) w seat = rw seat.place (
            subst
              (λ fs.
                Sublist (stream_loop fl p d i (c.heap i).allocated false turns).1
                  (fs ++ turns_published m turns))
              seat.empty
              (stream_loop-Sublist p m i (c.heap i).allocated d false turns w seat.owned alone))
        go (raise x) w seat = elim seat [ ]

    -- A rover that is streamed a mountpoint with a transport, where the registry's invariant holds, is
    -- sent only frames that are published on this mountpoint during the stream, in the order of their
    -- publication and each at most once, whatever else happens to the caster, if nobody else reads
    -- the stream's subscriber.
    pub stream_frames-Sublist :
        (c : NtripCaster fl) (m rover : String) (i : ℕ) (initial : Option (Coordinates fl))
        (turns : Prelude.List (Turn fl)) (after_end : Prelude.List (Event fl))
        → IsCaster fl c
        → Dict.get c.transports m ≡ some i
        → IsAlone i (c.heap i).allocated turns
        → Sublist (stream_frames fl p c m rover initial turns after_end).1 (turns_published m turns)
    unfolding stream_frames seed_position set_rover_position step
    stream_frames-Sublist c m rover i none turns after_end v e alone =
        stream_subscribed-Sublist c m i turns v e alone
    stream_frames-Sublist c m rover i (some position) turns after_end v e alone =
        stream_subscribed-Sublist (set_rover_position fl c m rover position) m i turns
          (step-IsCaster fl p c (sets_position m rover position) v) e alone
