-- ===== src/Routes/Upload/Heard.antt =====
-- What the rovers of a mountpoint read of an upload.
use corshub.Prelude.{
  ℕ, ◌≡◌, refl, sym, ◌∙◌, ap, Bool, true, some, String, List, [], ◌∷◌, ◌++◌, map, length, last, All,
  string_eq, same_refl,
}
use corshub.Dict
use corshub.Dict.{Dict}
use corshub.Float.{Float}
use corshub.Framing.{Bytes}
use corshub.Observe.{Parser}
use corshub.Subscriber.{queue_maxsize}
use corshub.Subscriber.Freshest.{reads, got_frame}
use corshub.Caster.{NtripCaster, Result, ok, raise, Returns}
use corshub.Caster.Publishing.{publish, subscribe}
use corshub.Caster.Registry.{IsCaster, Holds}
use corshub.Caster.Preserved.{publish-IsCaster, subscribe-IsCaster}
use corshub.Caster.Delivered.{IsDelivered, publish-IsDelivered}
use corshub.Caster.Histories.{Event, run, after, state}
use corshub.Caster.Sessions.{publish_in_turn, frames_of, reads-publish_in_turn}
use corshub.Routes.Upload.{Arrival, send_acks, publish_chunk, stream_chunks}

module _ (fl : Float) where
  -- Nothing else happens before the chunk, and its reply can be sent.
  pub record IsQuiet (a : Arrival fl) : Type 0 where
    pub alone : a.before ≡ []
    pub answered : a.answered ≡ true

  -- The chunks that are not empty: an empty one is passed over.
  abbrev pub kept : Bytes → List Bytes
  kept [] = []
  kept (b ∷ bytes) = (b ∷ bytes) ∷ []

  unfoldable pub frames : List (Arrival fl) → List Bytes
  frames [] = []
  frames (a ∷ arrivals) = kept a.chunk ++ frames arrivals

  abbrev at_mountpoint : String → ℕ → List Bytes → List (ℕ × String × Bytes)
  at_mountpoint m now fs = map (λ f. (now, m, f)) fs

  abbrev publications : String → List (Arrival fl) → List (ℕ × String × Bytes)
  publications m [] = []
  publications m (a ∷ arrivals) = at_mountpoint m a.now (kept a.chunk) ++ publications m arrivals

  frames_of-publications :
      (m : String) (arrivals : List (Arrival fl))
      → frames_of m (publications m arrivals) ≡ frames arrivals
  unfolding frames frames_of
  frames_of-publications m [] = refl
  frames_of-publications m (a ∷ arrivals) = go a.chunk (frames_of-publications m arrivals)
    where
      go :
          (chunk : Bytes)
          → frames_of m (publications m arrivals) ≡ frames arrivals
          → frames_of m (at_mountpoint m a.now (kept chunk) ++ publications m arrivals)
            ≡ kept chunk ++ frames arrivals
      go [] ih = ih
      go (b ∷ bytes) ih = rw (same_refl m, ih) refl

  module _ (p : Parser fl) where
    publish_in_turn-append :
        (c : NtripCaster fl) (xs ys : List (ℕ × String × Bytes))
        → publish_in_turn fl p c (xs ++ ys) ≡ publish_in_turn fl p (publish_in_turn fl p c xs) ys
    unfolding publish_in_turn
    publish_in_turn-append c [] ys = refl
    publish_in_turn-append c ((now, k, f) ∷ xs) ys =
        publish_in_turn-append (after fl c (state fl (publish fl p c now k f))) xs ys

    -- The chunk is published and the loop goes on.
    abbrev Goes : NtripCaster fl → String → ℕ → Bytes → NtripCaster fl × List ℕ × Bool → Type 0
    Goes c m now chunk r =
        (r.2 ≡ true)
        × (r.0 ≡ publish_in_turn fl p c (at_mountpoint m now (kept chunk)))
        × IsCaster fl r.0

    publish_chunk-Goes :
        (c : NtripCaster fl) (m : String) (now : ℕ) (chunk : Bytes)
        → IsCaster fl c
        → Goes c m now chunk (publish_chunk fl p c m now true chunk)
    unfolding publish_chunk send_acks publish_in_turn
    publish_chunk-Goes c m now [] v = (refl, refl, v)
    publish_chunk-Goes c m now (b ∷ bytes) v =
        go (publish fl p c now m (b ∷ bytes)) (publish-IsCaster fl p c now m (b ∷ bytes) v)
          (publish-IsDelivered fl p c now m (b ∷ bytes) v)
      where
        go :
            (o : Result (NtripCaster fl × ℕ))
            → Holds fl (λ a. IsCaster fl a.0) o
            → Returns (IsDelivered fl c now m (b ∷ bytes)) o
            → ((send_acks fl p c true o).2 ≡ true)
              × ((send_acks fl p c true o).0 ≡ after fl c (state fl o))
              × IsCaster fl (send_acks fl p c true o).0
        go (ok r) w d = (refl, refl, w)
        go (raise e) w d = elim d [ ]

    quiet-Goes :
        (c : NtripCaster fl) (m : String) (before : List (Event fl)) (now : ℕ) (answered : Bool)
        (chunk : Bytes)
        → before ≡ []
        → answered ≡ true
        → IsCaster fl c
        → Goes c m now chunk (publish_chunk fl p (run fl p c before) m now answered chunk)
    unfolding run
    quiet-Goes c m before now answered chunk e f v = rw (e, f) (publish_chunk-Goes c m now chunk v)

    stream_chunks-publish_in_turn :
        (c : NtripCaster fl) (m : String) (arrivals : List (Arrival fl))
        → IsCaster fl c
        → All IsQuiet arrivals
        → (stream_chunks fl p c m arrivals).0 ≡ publish_in_turn fl p c (publications m arrivals)
    unfolding stream_chunks publish_in_turn
    stream_chunks-publish_in_turn c m [] v quiet = refl
    stream_chunks-publish_in_turn c m (a ∷ arrivals) v (quiet, more) =
        let r = publish_chunk fl p (run fl p c a.before) m a.now a.answered a.chunk in
        let (t, e, w) =
          quiet-Goes c m a.before a.now a.answered a.chunk quiet.alone quiet.answered v in
        rw t (
          stream_chunks-publish_in_turn r.0 m arrivals w more
          ∙ ap (λ d. publish_in_turn fl p d (publications m arrivals)) e
          ∙ sym (
              publish_in_turn-append c (at_mountpoint m a.now (kept a.chunk))
                (publications m arrivals)))

    -- A rover that subscribes to an available mountpoint, while nobody else does anything to the caster,
    -- and reads when the base station has streamed a body, gets the last fifteen chunks of this
    -- body that are not empty, whole and in their order.
    pub reads-stream_chunks :
        (c : NtripCaster fl) (m : String) (i : ℕ) (arrivals : List (Arrival fl))
        → IsCaster fl c
        → Dict.get c.transports m ≡ some i
        → All IsQuiet arrivals
        → Returns
            (λ r.
              let fs = last queue_maxsize (frames arrivals) in
              reads (length fs) (((stream_chunks fl p r.0 m arrivals).0.heap r.1.0).heap r.1.1)
              ≡ map got_frame fs)
            (subscribe fl c m)
    reads-stream_chunks c m i arrivals v e quiet =
        go (subscribe fl c m) (subscribe-IsCaster fl p c m v)
          (reads-publish_in_turn fl p c m i (publications m arrivals) v e)
      where
        go :
            (o : Result (NtripCaster fl × (ℕ × ℕ)))
            → Holds fl (λ r. IsCaster fl r.0) o
            → Returns
                (λ r.
                  let fs = last queue_maxsize (frames_of m (publications m arrivals)) in
                  reads
                    (length fs)
                    (((publish_in_turn fl p r.0 (publications m arrivals)).heap r.1.0).heap r.1.1)
                  ≡ map got_frame fs)
                o
            → Returns
                (λ r.
                  let fs = last queue_maxsize (frames arrivals) in
                  reads (length fs) (((stream_chunks fl p r.0 m arrivals).0.heap r.1.0).heap r.1.1)
                  ≡ map got_frame fs)
                o
        go (ok (d, (j, s))) w h =
            rw
              (
                ← frames_of-publications m arrivals,
                stream_chunks-publish_in_turn d m arrivals w quiet,
              )
              h
        go (raise x) w q = elim q [ ]
