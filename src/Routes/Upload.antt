-- ===== src/Routes/Upload.antt =====
-- The body of a base station's request: the PUT route of src/corshub/services/v1/ntrip/put.py from its
-- stream on. Other requests and tasks run while the route waits for a chunk, and what they do to the
-- caster stands in front of the chunk.
pub mod Kept
pub mod Ended
pub mod Heard
use corshub.Prelude.{
  ℕ, Bool, true, false, not, ◌&&◌, String, List, [], ◌∷◌, ◌++◌, Option, if◌then◌else◌,
}
use corshub.Float.{Float}
use corshub.Framing.{Bytes}
use corshub.Observe.{Parser}
use corshub.Caster.{NtripCaster, Result, ok, raise, close}
use corshub.Caster.Publishing.{publish}
use corshub.Caster.Histories.{Event, run}
use corshub.Caster.Authentication.{Services}
use corshub.RateLimit.{TtlCache, Limits}
use corshub.Routes.{Status, PutRequest, Decision, refused, admitted, admit_put}

module _ (fl : Float) where
  -- A chunk, with what happened before it, and whether its reply can be sent; a send to a station
  -- that is gone raises.
  pub record Arrival : Type 0 where
    pub before : List (Event fl)
    pub now : ℕ
    pub chunk : Bytes
    pub answered : Bool

  -- A body that is streamed: whether the response can be started, the chunks, what happens after the
  -- last of them, and whether the stream then ends; if not, the wait for a chunk raises. Or a body that
  -- was read before, with the time of its publication.
  pub data Body : Type 0 where
    streaming : Bool → List Arrival → List (Event fl) → Bool → Body
    complete : ℕ → Bytes → Body

  -- What the station is told: a status and nothing else; the numbers of rovers of each chunk, with a
  -- proper end or without; one number as a text; or the request fails before anything is sent.
  pub data Outcome : Type 0 where
    answers : Status → Outcome
    streamed : List ℕ → Outcome
    broken : List ℕ → Outcome
    text : ℕ → Outcome
    fails : Outcome

  module _ (p : Parser fl) where
    -- The reply to a chunk that was published.
    unfoldable pub send_acks :
        NtripCaster fl → Bool → Result (NtripCaster fl × ℕ) → NtripCaster fl × List ℕ × Bool
    send_acks c answered (raise _) = (c, [], false)
    send_acks c answered (ok (d, acks)) = (d, if answered then acks ∷ [] else [], answered)

    -- One round of the loop: the caster, what is sent, and whether the loop goes on.
    unfoldable pub publish_chunk :
        NtripCaster fl → String → ℕ → Bool → Bytes → NtripCaster fl × List ℕ × Bool
    unfolding send_acks
    publish_chunk c mountpoint now answered [] = (c, [], true)
    publish_chunk c mountpoint now answered (b ∷ bytes) =
        send_acks c answered (publish fl p c now mountpoint (b ∷ bytes))

    unfoldable pub stream_chunks :
        NtripCaster fl → String → List Arrival → NtripCaster fl × List ℕ × Bool
    unfolding publish_chunk run
    stream_chunks c mountpoint [] = (c, [], true)
    stream_chunks c mountpoint (a ∷ arrivals) =
        let (d, acks, goes_on) =
          publish_chunk (run fl p c a.before) mountpoint a.now a.answered a.chunk in
        let (e, more, done) = stream_chunks d mountpoint arrivals in
        if goes_on then (e, acks ++ more, done) else (d, acks, false)

    unfoldable pub closed : NtripCaster fl → Result (NtripCaster fl) → NtripCaster fl × Bool
    closed c (raise _) = (c, false)
    closed c (ok d) = (d, true)

    -- `caster.close`, and whether it returns.
    unfoldable pub close_body : NtripCaster fl → String → NtripCaster fl × Bool
    unfolding closed
    close_body c mountpoint = closed c (close fl c mountpoint)

    -- The loop, and the `finally` block after it.
    unfoldable pub stream_body :
        NtripCaster fl → String → List Arrival → List (Event fl) → Bool → NtripCaster fl × Outcome
    unfolding stream_chunks close_body
    stream_body c mountpoint arrivals last ends =
        let (d, acks, done) = stream_chunks c mountpoint arrivals in
        let (e, closes) = close_body (if done then run fl p d last else d) mountpoint in
        (e, if done && ends && closes then streamed acks else broken acks)

    unfoldable pub publish_body : NtripCaster fl → ℕ → String → Bytes → Result (NtripCaster fl × ℕ)
    publish_body c now mountpoint [] = ok (c, 0)
    publish_body c now mountpoint (b ∷ bytes) = publish fl p c now mountpoint (b ∷ bytes)

    -- A whole body that was published.
    unfoldable pub close_published :
        NtripCaster fl → String → Result (NtripCaster fl × ℕ) → NtripCaster fl × Outcome
    unfolding close_body
    close_published c mountpoint (raise _) = (c, fails)
    close_published c mountpoint (ok (d, acks)) =
        let (e, closes) = close_body d mountpoint in (e, if closes then text acks else fails)

    -- From the registration on.
    unfoldable pub take_body : NtripCaster fl → String → Body → NtripCaster fl × Outcome
    unfolding stream_body publish_body close_published
    take_body c mountpoint (streaming responds arrivals last ends) =
        if responds then stream_body c mountpoint arrivals last ends else (c, fails)
    take_body c mountpoint (complete now body) =
        close_published c mountpoint (publish_body c now mountpoint body)

    unfoldable pub take_admitted :
        NtripCaster fl × Decision fl → String → Body → NtripCaster fl × Outcome
    unfolding take_body
    take_admitted (c, refused status) mountpoint body = (c, answers status)
    take_admitted (c, admitted) mountpoint body = take_body c mountpoint body

    module _ (cache : TtlCache) where
      -- The whole route.
      unfoldable pub put :
          Services
          → Bool
          → ℕ
          → Option Limits
          → cache.Store
          → NtripCaster fl
          → ℕ
          → String
          → PutRequest fl
          → Body
          → cache.Store × (NtripCaster fl × Outcome)
      unfolding admit_put take_admitted
      put s opa one limits store c now mountpoint r body =
          let (store', decided) = admit_put fl cache s opa one limits store c now mountpoint r in
          (store', take_admitted decided mountpoint body)
