-- ===== src/Routes/Upload/Kept.antt =====
-- An upload keeps the registry's invariant, round by round.
use corshub.Prelude.{ℕ, Bool, String, List, [], ◌∷◌, Bool-cases, inl, inr, string_eq}
use corshub.Float.{Float}
use corshub.Framing.{Bytes}
use corshub.Observe.{Parser}
use corshub.Caster.{NtripCaster, Result, ok, raise, close}
use corshub.Caster.Publishing.{publish}
use corshub.Caster.Registry.{IsCaster, Holds, close-IsCaster}
use corshub.Caster.Preserved.{publish-IsCaster}
use corshub.Caster.Histories.{run, run-IsCaster}
use corshub.Routes.Upload.{Arrival, send_acks, publish_chunk, stream_chunks, closed, close_body}

module _ (fl : Float) where
  module _ (p : Parser fl) where
    closed-IsCaster :
        (c : NtripCaster fl) (r : Result (NtripCaster fl))
        → IsCaster fl c
        → Holds fl (IsCaster fl) r
        → IsCaster fl (closed fl p c r).0
    unfolding closed
    closed-IsCaster c (ok d) v h = h
    closed-IsCaster c (raise e) v h = v

    pub close_body-IsCaster :
        (c : NtripCaster fl) (m : String) → IsCaster fl c → IsCaster fl (close_body fl p c m).0
    unfolding close_body
    close_body-IsCaster c m v = closed-IsCaster c (close fl c m) v (close-IsCaster fl c m v)

    send_acks-IsCaster :
        (c : NtripCaster fl) (answered : Bool) (r : Result (NtripCaster fl × ℕ))
        → IsCaster fl c
        → Holds fl (λ a. IsCaster fl a.0) r
        → IsCaster fl (send_acks fl p c answered r).0
    unfolding send_acks
    send_acks-IsCaster c answered (ok a) v h = h
    send_acks-IsCaster c answered (raise e) v h = v

    publish_chunk-IsCaster :
        (c : NtripCaster fl) (m : String) (now : ℕ) (answered : Bool) (chunk : Bytes)
        → IsCaster fl c
        → IsCaster fl (publish_chunk fl p c m now answered chunk).0
    unfolding publish_chunk
    publish_chunk-IsCaster c m now answered [] v = v
    publish_chunk-IsCaster c m now answered (b ∷ bytes) v =
        send_acks-IsCaster c answered (publish fl p c now m (b ∷ bytes)) v
          (publish-IsCaster fl p c now m (b ∷ bytes) v)

    pub stream_chunks-IsCaster :
        (c : NtripCaster fl) (m : String) (arrivals : List (Arrival fl))
        → IsCaster fl c
        → IsCaster fl (stream_chunks fl p c m arrivals).0
    unfolding stream_chunks
    stream_chunks-IsCaster c m [] v = v
    stream_chunks-IsCaster c m (a ∷ arrivals) v =
        let c' = run fl p c a.before in
        let r = publish_chunk fl p c' m a.now a.answered a.chunk in
        let w =
          publish_chunk-IsCaster c' m a.now a.answered a.chunk (run-IsCaster fl p c a.before v) in
        elim (Bool-cases r.2) [
          | inl q ↦ rw q (stream_chunks-IsCaster r.0 m arrivals w)
          | inr q ↦ rw q w
        ]
