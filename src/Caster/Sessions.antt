-- ===== src/Caster/Sessions.antt =====
-- A rover's session at the caster: what a subscriber reads of what base stations publish.
use corshub.Prelude.{
  ℕ, ◌≡◌, refl, ◌∙◌, true, some, String, List, [], ◌∷◌, map, length, last, if◌then◌else◌, string_eq,
  same, same_iff, arith, ==_refl,
}
use corshub.Dict
use corshub.Dict.{Dict}
use corshub.Float.{Float}
use corshub.Framing.{Bytes}
use corshub.Observe.{Parser}
use corshub.Subscriber
use corshub.Subscriber.{QueueTransportSubscriber, init, queue_maxsize}
use corshub.Subscriber.Freshest.{reads, got_frame, reads-publish_all}
use corshub.Subscriber.Freshest
use corshub.Transport.{elem, subscribe_enter}
use corshub.Transport.Delivery.{publish-delivers}
use corshub.Transport.Validity.{elem-append}
use corshub.Caster.{NtripCaster, Result, ok, raise, Returns}
use corshub.Caster.Publishing.{publish, subscribe, report}
use corshub.Caster.Registry.{IsCaster, Holds}
use corshub.Caster.Preserved.{publish-IsCaster, subscribe-IsCaster}
use corshub.Caster.Delivered.{IsDelivered, is_at, publish-IsDelivered}
use corshub.Caster.Histories.{after, state}

-- The frames of a mountpoint among publications, each with its time, mountpoint and frame.
unfoldable pub frames_of : String → List (ℕ × String × Bytes) → List Bytes
frames_of m [] = []
frames_of m ((now, k, f) ∷ ps) = if same k m then f ∷ frames_of m ps else frames_of m ps

module _ (fl : Float) where
  module _ (p : Parser fl) where
    -- The caster after publications, one after the other.
    unfoldable pub publish_in_turn : NtripCaster fl → List (ℕ × String × Bytes) → NtripCaster fl
    publish_in_turn c [] = c
    publish_in_turn c ((now, k, f) ∷ ps) =
        publish_in_turn (after fl c (state fl (publish fl p c now k f))) ps

    -- The subscriber `s` of the transport `i` is registered with it, and `m` has this transport.
    abbrev Listens : NtripCaster fl → String → ℕ → ℕ → Type 0
    Listens c m i s = (Dict.get c.transports m ≡ some i) × (elem s (c.heap i).queues ≡ true)

    is_at-own :
        (c : NtripCaster fl) (k m : String) (i : ℕ)
        → IsCaster fl c
        → Dict.get c.transports m ≡ some i
        → is_at fl (Dict.get c.transports k) i ≡ same k m
    is_at-own c k m i v e = ground (arith, v.unshared k m i, same_iff k m)

    heard :
        (c : NtripCaster fl) (now : ℕ) (k : String) (f : Bytes) (m : String) (i s : ℕ)
        (r : NtripCaster fl × ℕ)
        → IsCaster fl c
        → Listens c m i s
        → IsDelivered fl c now k f r
        → Listens r.0 m i s
          × ((r.0.heap i).heap s ≡ (
              if same k m then (Subscriber.publish ((c.heap i).heap s) f).0 else (c.heap i).heap s))
    heard c now k f m i s r v (e, listed) d =
        let (h, q, _, _) = publish-delivers (c.heap i) f (v.valid i) in
        rw (d.transports, d.heap i, is_at-own c k m i v e) (ground (arith, e, listed, q, h s))

    -- One publication, whatever the caster answers.
    heard_after :
        (c : NtripCaster fl) (now : ℕ) (k : String) (f : Bytes) (m : String) (i s : ℕ)
        → IsCaster fl c
        → Listens c m i s
        → IsCaster fl (publish_in_turn c ((now, k, f) ∷ []))
          × Listens (publish_in_turn c ((now, k, f) ∷ [])) m i s
          × (((publish_in_turn c ((now, k, f) ∷ [])).heap i).heap s ≡ (
              if same k m then (Subscriber.publish ((c.heap i).heap s) f).0 else (c.heap i).heap s))
    unfolding publish_in_turn
    heard_after c now k f m i s v l =
        go (publish fl p c now k f) (publish-IsCaster fl p c now k f v)
          (publish-IsDelivered fl p c now k f v)
      where
        go :
            (r : Result (NtripCaster fl × ℕ))
            → Holds fl (λ a. IsCaster fl a.0) r
            → Returns (IsDelivered fl c now k f) r
            → IsCaster fl (after fl c (state fl r))
              × Listens (after fl c (state fl r)) m i s
              × (((after fl c (state fl r)).heap i).heap s ≡ (
                  if same k m
                  then (Subscriber.publish ((c.heap i).heap s) f).0
                  else (c.heap i).heap s))
        go (ok r) w d = let (l', h) = heard c now k f m i s r v l d in (w, l', h)
        go (raise e) w d = elim d [ ]

    heard_all :
        (c : NtripCaster fl) (ps : List (ℕ × String × Bytes)) (m : String) (i s : ℕ)
        → IsCaster fl c
        → Listens c m i s
        → ((publish_in_turn c ps).heap i).heap s
          ≡ Freshest.publish_all ((c.heap i).heap s) (frames_of m ps)
    unfolding publish_in_turn frames_of Freshest.publish_all
    heard_all c [] m i s v l = refl
    heard_all c ((now, k, f) ∷ ps) m i s v l =
        let (w, l', h) = heard_after c now k f m i s v l in
        heard_all (publish_in_turn c ((now, k, f) ∷ [])) ps m i s w l' ∙ ground (arith, h)

    abbrev Entered : NtripCaster fl → String → NtripCaster fl × (ℕ × ℕ) → Type 0
    Entered c m r = Listens r.0 m r.1.0 r.1.1 × ((r.0.heap r.1.0).heap r.1.1 ≡ init)

    subscribe-Entered :
        (c : NtripCaster fl) (m : String) (i : ℕ)
        → Dict.get c.transports m ≡ some i
        → Returns (Entered c m) (subscribe fl c m)
    unfolding subscribe report subscribe_enter elem
    subscribe-Entered c m i e =
        rw
          (
            e,
            subscribe,
            ==_refl i,
            ==_refl (c.heap i).allocated,
            elem-append (c.heap i).allocated (c.heap i).allocated (c.heap i).queues,
          )
          ((e, ground arith), refl)

    -- A rover that subscribes to a mountpoint with a transport and then reads, after base stations
    -- have published frames to any mountpoints of the caster, gets the last fifteen of the frames of
    -- its own mountpoint, in the order of their publication.
    pub reads-publish_in_turn :
        (c : NtripCaster fl) (m : String) (i : ℕ) (ps : List (ℕ × String × Bytes))
        → IsCaster fl c
        → Dict.get c.transports m ≡ some i
        → Returns
            (λ r.
              let frames = last queue_maxsize (frames_of m ps) in
              reads (length frames) (((publish_in_turn r.0 ps).heap r.1.0).heap r.1.1)
              ≡ map got_frame frames)
            (subscribe fl c m)
    reads-publish_in_turn c m i ps v e =
        go (subscribe fl c m) (subscribe-IsCaster fl p c m v) (subscribe-Entered c m i e)
      where
        go :
            (o : Result (NtripCaster fl × (ℕ × ℕ)))
            → Holds fl (λ r. IsCaster fl r.0) o
            → Returns (Entered c m) o
            → Returns
                (λ r.
                  let frames = last queue_maxsize (frames_of m ps) in
                  reads (length frames) (((publish_in_turn r.0 ps).heap r.1.0).heap r.1.1)
                  ≡ map got_frame frames)
                o
        go (ok (d, (j, s))) w (l, n) =
            rw (heard_all d ps m j s w l, n) (reads-publish_all (frames_of m ps))
        go (raise x) w q = elim q [ ]
