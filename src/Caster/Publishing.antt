-- ===== src/Caster/Publishing.antt =====
-- Delivery in `NTRIPCaster` of src/corshub/ntrip/v2/caster.py: `publish`, the quality queue and its
-- worker, `subscribe`, `start` and `stop`.
use corshub.Prelude.{
  ℕ, ◌-◌, true, false, none, some, String, List, [], ◌∷◌, ◌++◌, length, string_eq,
}
use corshub.AsyncQueue
use corshub.AsyncQueue.{AsyncQueue}
use corshub.Dict
use corshub.Float.{Float}
use corshub.Framing.{Bytes}
use corshub.Mountpoint.{Mountpoint}
use corshub.Observe.{Parser, observe_rtcm_quality}
use corshub.Transport
use corshub.Caster.{
  NtripCaster, Result, ok, raise, key_error, update, Report, frames_published, bytes_published,
  frame_size, frames_delivered, frame_interval, samples_dropped, rover_sessions,
}

module _ (fl : Float) where
  unfoldable pub report : NtripCaster fl → List Report → NtripCaster fl
  report c rs = record c { reports = c.reports ++ rs }

  module _ (p : Parser fl) where
    unfoldable pub process_quality : NtripCaster fl → String → Bytes → NtripCaster fl
    process_quality c mountpoint frame = record c {
      pipeline = observe_rtcm_quality fl p mountpoint frame c.pipeline;
    }

    -- Without a queue the frame is parsed at once; a full queue drops the sample.
    unfoldable pub enqueue_quality : NtripCaster fl → String → Bytes → NtripCaster fl
    enqueue_quality c mountpoint frame = elim c.quality_queue [
      | none ↦ process_quality c mountpoint frame
      | some q ↦ elim (AsyncQueue.put_nowait q (mountpoint, frame)) [
        | none ↦ report c (samples_dropped mountpoint ∷ [])
        | some q' ↦ record c { quality_queue = some q' }
      ]
    ]

    -- One round of `_quality_loop`; with nothing queued the worker waits.
    unfoldable pub quality_round : NtripCaster fl → NtripCaster fl
    quality_round c = elim c.quality_queue [
      | none ↦ c
      | some q ↦ elim (AsyncQueue.get_nowait q) [
        | none ↦ c
        | some ((mountpoint, frame), q') ↦
            let parsed = process_quality (record c { quality_queue = some q' }) mountpoint frame in
            elim (AsyncQueue.task_done q') [
              | none ↦ parsed
              | some q'' ↦ record parsed { quality_queue = some q'' }
            ]
      ]
    ]

    -- `publish` once the transport and the mountpoint are found.
    unfoldable pub deliver :
        NtripCaster fl → ℕ → String → Bytes → ℕ → Mountpoint fl → NtripCaster fl × ℕ
    deliver c now mountpoint frame i mp =
        let (t, delivered) = Transport.publish (c.heap i) frame in
        let touched = record c {
          mountpoints = Dict.set c.mountpoints mountpoint (record mp { last_seen = now });
          heap = update c.heap i t;
        } in
        let reported = report touched (
          frames_published mountpoint
          ∷ bytes_published mountpoint (length frame)
          ∷ frame_size mountpoint (length frame)
          ∷ frames_delivered mountpoint delivered
          ∷ frame_interval mountpoint (now - mp.last_seen)
          ∷ []) in
        (enqueue_quality reported mountpoint frame, delivered)

    unfoldable pub publish : NtripCaster fl → ℕ → String → Bytes → Result (NtripCaster fl × ℕ)
    publish c now mountpoint frame = elim (Dict.get c.transports mountpoint) [
      | none ↦ ok (c, 0)
      | some i ↦ elim (Dict.get c.mountpoints mountpoint) [
        | none ↦ raise (key_error mountpoint)
        | some mp ↦ ok (deliver c now mountpoint frame i mp)
      ]
    ]

  -- `subscribe` and the entry of the context that it returns: the transport, and the subscriber.
  unfoldable pub subscribe : NtripCaster fl → String → Result (NtripCaster fl × (ℕ × ℕ))
  subscribe c mountpoint = elim (Dict.get c.transports mountpoint) [
    | none ↦ raise (key_error mountpoint)
    | some i ↦
        let (t, subscriber) = Transport.subscribe_enter (c.heap i) in
        ok (
          report (record c { heap = update c.heap i t }) (rover_sessions mountpoint ∷ []),
          (i, subscriber),
        )
  ]

  -- The exit of that context. The transport may have left the registry.
  unfoldable pub unsubscribe : NtripCaster fl → ℕ → ℕ → NtripCaster fl
  unsubscribe c i subscriber = record c {
    heap = update c.heap i (Transport.subscribe_exit (c.heap i) subscriber);
  }

  unfoldable pub start : NtripCaster fl → NtripCaster fl
  start c = record c {
    quality_queue = some (AsyncQueue.create c.quality_queue_maxsize);
    quality_running = true;
    reaper_running = elim c.expiry [ none ↦ c.reaper_running | some _ ↦ true ];
  }

  unfoldable pub stop : NtripCaster fl → NtripCaster fl
  stop c = record c { quality_queue = none; quality_running = false; reaper_running = false }
