-- ===== src/Routes/Upload/Ended.antt =====
-- How an upload ends.
use corshub.Prelude.{
  ℕ, ◌≡◌, refl, ap, Bool, true, false, ◌&&◌, Option, String, List, [], ◌∷◌, if◌then◌else◌,
  Option-cases, inl, inr, string_eq, arith,
}
use corshub.Dict
use corshub.Dict.{Dict, get-pop_self}
use corshub.Float.{Float}
use corshub.Framing.{Bytes}
use corshub.Observe.{Parser}
use corshub.Caster.{
  NtripCaster, Result, ok, raise, Returns, available, close, forget_mountpoint, shutdown_transport,
}
use corshub.Caster.Publishing.{publish}
use corshub.Caster.Registry.{IsCaster, Holds}
use corshub.Caster.Preserved.{publish-IsCaster}
use corshub.Caster.Delivered.{IsDelivered, publish-IsDelivered}
use corshub.Caster.Histories.{Event, run, run-IsCaster}
use corshub.Caster.Authentication.{Services}
use corshub.RateLimit.{TtlCache, Limits}
use corshub.Routes.{Status, PutRequest, Decision}
use corshub.Routes.Admission.{Admits, refuses, admits, admit_put-Admits}
use corshub.Routes.Upload.{
  Arrival, Body, streaming, complete, Outcome, answers, streamed, broken, text, fails,
  stream_chunks, close_body, close_published, stream_body, publish_body, take_body, take_admitted,
  put,
}
use corshub.Routes.Upload.Kept.{close_body-IsCaster, stream_chunks-IsCaster}

module _ (fl : Float) where
  -- The outcomes that go with a body once the response is started.
  pub data Answered : Body fl → Outcome fl → Type 0 where
    ended :
        (arrivals : List (Arrival fl)) (last : List (Event fl)) (ends : Bool) (acks : List ℕ)
        → Answered (streaming true arrivals last ends) (streamed acks)
    cut :
        (arrivals : List (Arrival fl)) (last : List (Event fl)) (ends : Bool) (acks : List ℕ)
        → Answered (streaming true arrivals last ends) (broken acks)
    counted : (now : ℕ) (bytes : Bytes) (acks : ℕ) → Answered (complete now bytes) (text acks)

  -- What a request of a base station leaves behind.
  pub data Ends (c : NtripCaster fl) (m : String) (body : Body fl)
      : NtripCaster fl × Outcome fl → Type 0 where
    turns_away : (status : Status) → Ends c m body (c, answers status)
    never_starts :
        (d : NtripCaster fl) (arrivals : List (Arrival fl)) (last : List (Event fl)) (ends : Bool)
        → body ≡ streaming false arrivals last ends
        → IsCaster fl d
        → available fl d m ≡ true
        → Ends c m body (d, fails)
    ends :
        (d : NtripCaster fl) (o : Outcome fl)
        → Answered body o
        → IsCaster fl d
        → available fl d m ≡ false
        → Ends c m body (d, o)

  module _ (p : Parser fl) where
    -- The mountpoint is not available when a body was closed, also when the closing raises.
    available-close_body :
        (c : NtripCaster fl) (m : String) → available fl (close_body fl p c m).0 m ≡ false
    unfolding close_body close available forget_mountpoint shutdown_transport
    available-close_body c m = elim (Option-cases (Dict.get c.mountpoints m)) [
      | inl n ↦ ground (arith, n)
      | inr (mp, n) ↦ elim (Option-cases (Dict.get c.transports m)) [
        | inl e ↦ ground (arith, n, e)
        | inr (i, e) ↦ ground (arith, n, e, get-pop_self c.transports m)
      ]
    ]

    close_body-returns :
        (c : NtripCaster fl) (m : String) → available fl c m ≡ true → (close_body fl p c m).1 ≡ true
    unfolding close_body close available
    close_body-returns c m h = ground arith

    stream_body-Ends :
        (c d : NtripCaster fl) (m : String) (arrivals : List (Arrival fl)) (last : List (Event fl))
        (finishes : Bool)
        → IsCaster fl d
        → Ends c m
            (streaming true arrivals last finishes)
            (stream_body fl p d m arrivals last finishes)
    unfolding stream_body
    stream_body-Ends c d m arrivals last finishes v =
        let (e, acks, done) = stream_chunks fl p d m arrivals in
        let w = stream_chunks-IsCaster fl p d m arrivals v in
        let e' = if done then run fl p e last else e in
        ends (close_body fl p e' m).0 _
          (outcome (done && finishes && (close_body fl p e' m).1) acks)
          (close_body-IsCaster fl p e' m (last-IsCaster done e w)) (available-close_body e' m)
      where
        outcome :
            (b : Bool) (acks : List ℕ)
            → Answered
                (streaming true arrivals last finishes)
                (if b then streamed acks else broken acks)
        outcome true acks = ended arrivals last finishes acks
        outcome false acks = cut arrivals last finishes acks

        last-IsCaster :
            (b : Bool) (e : NtripCaster fl)
            → IsCaster fl e
            → IsCaster fl (if b then run fl p e last else e)
        last-IsCaster true e w = run-IsCaster fl p e last w
        last-IsCaster false e w = w

    delivered-available :
        (c : NtripCaster fl) (now : ℕ) (m : String) (f : Bytes) (r : NtripCaster fl × ℕ)
        → available fl c m ≡ true
        → IsDelivered fl c now m f r
        → available fl r.0 m ≡ true
    unfolding available
    delivered-available c now m f r h d =
        ground (arith, h, d.mountpoints m, ap (λ t. Dict.get t m) d.transports)

    abbrev IsOpen : String → NtripCaster fl × ℕ → Type 0
    IsOpen m r = IsCaster fl r.0 × (available fl r.0 m ≡ true)

    publish-IsOpen :
        (c : NtripCaster fl) (now : ℕ) (m : String) (f : Bytes)
        → IsCaster fl c
        → available fl c m ≡ true
        → Returns (IsOpen m) (publish fl p c now m f)
    publish-IsOpen c now m f v h =
        go (publish fl p c now m f) (publish-IsCaster fl p c now m f v)
          (publish-IsDelivered fl p c now m f v)
      where
        go :
            (r : Result (NtripCaster fl × ℕ))
            → Holds fl (λ a. IsCaster fl a.0) r
            → Returns (IsDelivered fl c now m f) r
            → Returns (IsOpen m) r
        go (ok r) w d = (w, delivered-available c now m f r h d)
        go (raise e) w d = elim d [ ]

    publish_body-IsOpen :
        (c : NtripCaster fl) (now : ℕ) (m : String) (f : Bytes)
        → IsCaster fl c
        → available fl c m ≡ true
        → Returns (IsOpen m) (publish_body fl p c now m f)
    unfolding publish_body
    publish_body-IsOpen c now m [] v h = (v, h)
    publish_body-IsOpen c now m (b ∷ bytes) v h = publish-IsOpen c now m (b ∷ bytes) v h

    close_published-Ends :
        (c d : NtripCaster fl) (now : ℕ) (m : String) (bytes : Bytes)
        (r : Result (NtripCaster fl × ℕ))
        → Returns (IsOpen m) r
        → Ends c m (complete now bytes) (close_published fl p d m r)
    unfolding close_published
    close_published-Ends c d now m bytes (ok (e, acks)) (w, there) =
        rw (close_body-returns e m there) (
          ends (close_body fl p e m).0 (text acks) (counted now bytes acks)
            (close_body-IsCaster fl p e m w) (available-close_body e m))
    close_published-Ends c d now m bytes (raise x) h = elim h [ ]

    take_body-Ends :
        (c d : NtripCaster fl) (m : String) (body : Body fl)
        → IsCaster fl d
        → available fl d m ≡ true
        → Ends c m body (take_body fl p d m body)
    unfolding take_body
    take_body-Ends c d m (streaming true arrivals last finishes) v h =
        stream_body-Ends c d m arrivals last finishes v
    take_body-Ends c d m (streaming false arrivals last finishes) v h =
        never_starts d arrivals last finishes refl v h
    take_body-Ends c d m (complete now bytes) v h =
        close_published-Ends c d now m bytes (publish_body fl p d now m bytes)
          (publish_body-IsOpen d now m bytes v h)

    take_admitted-Ends :
        (s : Services) (opa : Bool) (c : NtripCaster fl) (m : String) (r : PutRequest fl)
        (body : Body fl) (decided : NtripCaster fl × Decision fl)
        → Admits fl s opa c m r decided
        → Ends c m body (take_admitted fl p decided m body)
    unfolding take_admitted
    take_admitted-Ends s opa c m r body _ (refuses status) = turns_away status
    take_admitted-Ends s opa c m r body _ (admits d username password e version content g w there) =
        take_body-Ends c d m body w there

    module _ (cache : TtlCache) where
      -- Whatever a station sends and whatever happens to the caster while it sends, where the registry's
      -- invariant holds before: the station is refused and the caster is as it was, or its response
      -- could not be started and its mountpoint is left available with nobody who publishes, or, when
      -- its body has ended or has been cut off, the mountpoint is not available any more. The
      -- registry's invariant holds in the end.
      pub put-Ends :
          (s : Services) (opa : Bool) (one : ℕ) (limits : Option Limits) (store : cache.Store)
          (c : NtripCaster fl) (now : ℕ) (m : String) (r : PutRequest fl) (body : Body fl)
          → IsCaster fl c
          → Ends c m body (put fl p cache s opa one limits store c now m r body).1
      unfolding put
      put-Ends s opa one limits store c now m r body v =
          take_admitted-Ends s opa c m r body _
            (admit_put-Admits fl cache s opa one limits store c now m r v)
