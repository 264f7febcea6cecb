-- ===== src/Here4/Steady.antt =====
-- What stays bounded in the base station tool, whatever happens to it.
use corshub.Prelude.{
  ℕ, ◌≤◌, ◌≡◌, refl, Bool, Option, none, some, String, List, [], ◌∷◌, length, length-append, arith,
  Bool-cases, inl, inr, List-cases, of_if,
}
use corshub.Float.{Float}
use corshub.AsyncQueue
use corshub.AsyncQueue.{AsyncQueue}
use corshub.Here4.{State, Command, Numerals, Arguments}
use corshub.Here4.Receiver.{ProcessPhase, receives, configures, Station}
use corshub.Here4.Loops.{
  elem, read_error, process_next, process_taken, process_configure, mode_command, set_mode,
}
use corshub.Here4.Pusher.{
  PushPhase, Push, poll, fail, answer, close, wake, cancel, take_frame, count_stats,
}
use corshub.Here4.Runs.{
  Event, ports_listed, port_opened, connect_goes_on, message_read, read_failed, process_goes_on,
  write_failed, fix_polled, answered, push_failed, body_ended, woken, cancelled, frame_wanted,
  second_passed, Tool, on_process, on_push, on_station, on_frame_wanted, on_event, happen, when,
  awaits_a_fix, awaits_an_answer, is_streaming, is_asleep, is_connected, wants_frame, step, run,
}
use corshub.Here4.Bounds.{
  IsStation, Keeps, Keeps-IsStation, on_ports-Keeps, on_opened-Keeps, on_connect-Keeps,
  on_write_failed-Keeps, read_error-Keeps, read_message-IsStation, process_message-IsStation,
}

module _ (fl : Float) where
  process_next-IsStation :
      (n : ℕ) (url : Option String) (t : Station fl)
      → IsStation fl n t
      → IsStation fl n (process_next fl url t)
  unfolding process_next process_taken AsyncQueue.get_nowait
  process_next-IsStation n url t h = elim (List-cases t.queue.items) [
    | inl q ↦
        rw (q, process_next, process_taken, AsyncQueue.get_nowait)
          record {
            queue_max = h.queue_max;
            queued = omega arith;
            caster_max = h.caster_max;
            waiting = h.waiting;
            history = h.history;
            counted = h.counted;
          }
    | inr ((raw, parsed), rest, q) ↦
        rw (q, process_next, process_taken, AsyncQueue.get_nowait)
          (process_message-IsStation fl n url raw parsed
            (record t { queue = record t.queue { items = rest } })
            record {
              queue_max = h.queue_max;
              queued = ground (arith, h.queued);
              caster_max = h.caster_max;
              waiting = h.waiting;
              history = h.history;
              counted = h.counted;
            })
  ]

  set_mode-Keeps :
      (ser : ℕ) (o : Option (Command fl × State)) (t : Station fl)
      → Keeps fl t (set_mode fl ser o t)
  unfolding set_mode
  set_mode-Keeps ser none t = (refl, refl, refl, refl)
  set_mode-Keeps ser (some (cmd, state)) t = (refl, refl, refl, refl)

  -- The connection changes nothing that is counted.
  abbrev KeptBy : Push fl → Push fl → Type 0
  KeptBy s r =
      (r.1.h_acc_history ≡ s.1.h_acc_history)
      × (r.1.rtcm_msgs ≡ s.1.rtcm_msgs)
      × (r.0.sent ≡ s.0.sent)

  abbrev pub InRange : Push fl → Type 0
  InRange s = (1 ≤ s.0.backoff) × (s.0.backoff ≤ 30)

  when-KeptBy :
      (test : PushPhase → Bool) (f : Push fl → Push fl) (s : Push fl)
      → KeptBy s (f s)
      → KeptBy s (when fl test f s)
  unfolding when
  when-KeptBy test f (p, gs) h = elim (Bool-cases (test p.phase)) [
    | inl q ↦ rw (q, when) h
    | inr q ↦ rw (q, when) (refl, refl, refl)
  ]

  when-InRange :
      (test : PushPhase → Bool) (f : Push fl → Push fl) (s : Push fl)
      → InRange s
      → InRange (f s)
      → InRange (when fl test f s)
  unfolding when
  when-InRange test f (p, gs) h k = elim (Bool-cases (test p.phase)) [
    | inl q ↦ rw (q, when) k
    | inr q ↦ rw (q, when) h
  ]

  module _ (num : Numerals fl) (a : Arguments fl) (lower : String → String) where
    on_process-IsStation :
        (n : ℕ) (c : ProcessPhase fl) (t : Station fl)
        → IsStation fl n t
        → IsStation fl n (on_process fl num a lower c t)
    unfolding on_process process_configure
    on_process-IsStation n receives t h = process_next-IsStation n a.caster_url t h
    on_process-IsStation n (configures ser (cmd ∷ cmds)) t h =
        Keeps-IsStation fl n t _ (refl, refl, refl, refl) h
    on_process-IsStation n (configures ser []) t h =
        Keeps-IsStation fl n t _ (set_mode-Keeps ser (mode_command fl num a) t) h

    on_station-IsStation :
        (n : ℕ) (e : Event fl) (t : Station fl)
        → IsStation fl n t
        → IsStation fl n (on_station fl num a lower e t)
    unfolding on_station count_stats
    on_station-IsStation n (ports_listed ports) t h =
        Keeps-IsStation fl n t _ (on_ports-Keeps fl lower ports t.connect t) h
    on_station-IsStation n (port_opened ok) t h =
        Keeps-IsStation fl n t _ (on_opened-Keeps fl ok t.connect t) h
    on_station-IsStation n connect_goes_on t h =
        Keeps-IsStation fl n t _ (on_connect-Keeps fl t.connect t) h
    on_station-IsStation n (message_read ser raw o) t h =
        elim (Bool-cases (elem fl t.readers ser)) [
          | inl q ↦ rw (q, on_station) (read_message-IsStation fl n raw o t h)
          | inr q ↦ rw (q, on_station) h
        ]
    on_station-IsStation n (read_failed ser) t h = elim (Bool-cases (elem fl t.readers ser)) [
      | inl q ↦
          rw (q, on_station)
            (Keeps-IsStation fl n t (read_error fl ser t) (read_error-Keeps fl ser t) h)
      | inr q ↦ rw (q, on_station) h
    ]
    on_station-IsStation n process_goes_on t h = on_process-IsStation n t.process t h
    on_station-IsStation n write_failed t h =
        Keeps-IsStation fl n t _ (on_write_failed-Keeps fl t.connect t.process t) h
    on_station-IsStation n second_passed t h = Keeps-IsStation fl n t _ (refl, refl, refl, refl) h
    on_station-IsStation n fix_polled t h = h
    on_station-IsStation n (answered _ _) t h = h
    on_station-IsStation n (push_failed _) t h = h
    on_station-IsStation n body_ended t h = h
    on_station-IsStation n woken t h = h
    on_station-IsStation n cancelled t h = h
    on_station-IsStation n frame_wanted t h = h

    poll-KeptBy : (s : Push fl) → KeptBy s (poll fl num a s)
    unfolding poll
    poll-KeptBy (p, gs) = (ground arith, ground arith, ground arith)

    poll-InRange : (s : Push fl) → InRange s → InRange (poll fl num a s)
    unfolding poll
    poll-InRange (p, gs) h = (ground arith, ground arith)

    answer-KeptBy : (status : ℕ) (exc : String) (s : Push fl) → KeptBy s (answer fl status exc s)
    unfolding answer fail
    answer-KeptBy status exc (p, gs) = (ground arith, ground arith, ground arith)

    answer-InRange :
        (status : ℕ) (exc : String) (s : Push fl) → InRange s → InRange (answer fl status exc s)
    unfolding answer fail
    answer-InRange status exc (p, gs) h = (ground arith, ground arith)

    on_push-KeptBy : (e : Event fl) (s : Push fl) → KeptBy s (on_push fl num a lower e s)
    unfolding on_push fail close wake cancel
    on_push-KeptBy fix_polled s = when-KeptBy (awaits_a_fix fl) (poll fl num a) s (poll-KeptBy s)
    on_push-KeptBy (answered status exc) s =
        when-KeptBy (awaits_an_answer fl) (answer fl status exc) s (answer-KeptBy status exc s)
    on_push-KeptBy (push_failed exc) s =
        when-KeptBy (is_connected fl) (fail fl exc) s (refl, refl, refl)
    on_push-KeptBy body_ended s = when-KeptBy (is_streaming fl) (close fl) s (refl, refl, refl)
    on_push-KeptBy woken s = when-KeptBy (is_asleep fl) (wake fl) s (refl, refl, refl)
    on_push-KeptBy cancelled s = when-KeptBy (is_connected fl) (cancel fl) s (refl, refl, refl)
    on_push-KeptBy (ports_listed _) s = (refl, refl, refl)
    on_push-KeptBy (port_opened _) s = (refl, refl, refl)
    on_push-KeptBy connect_goes_on s = (refl, refl, refl)
    on_push-KeptBy (message_read _ _ _) s = (refl, refl, refl)
    on_push-KeptBy (read_failed _) s = (refl, refl, refl)
    on_push-KeptBy process_goes_on s = (refl, refl, refl)
    on_push-KeptBy write_failed s = (refl, refl, refl)
    on_push-KeptBy frame_wanted s = (refl, refl, refl)
    on_push-KeptBy second_passed s = (refl, refl, refl)

    on_push-InRange :
        (e : Event fl) (s : Push fl) → InRange s → InRange (on_push fl num a lower e s)
    unfolding on_push fail close wake cancel
    on_push-InRange fix_polled s h =
        when-InRange (awaits_a_fix fl) (poll fl num a) s h (poll-InRange s h)
    on_push-InRange (answered status exc) s h =
        when-InRange (awaits_an_answer fl) (answer fl status exc) s h
          (answer-InRange status exc s h)
    on_push-InRange (push_failed exc) s h = when-InRange (is_connected fl) (fail fl exc) s h h
    on_push-InRange body_ended s h = when-InRange (is_streaming fl) (close fl) s h h
    on_push-InRange woken s h =
        when-InRange (is_asleep fl) (wake fl) s h (omega (arith, h.0), omega (arith, h.1))
    on_push-InRange cancelled s h = when-InRange (is_connected fl) (cancel fl) s h h
    on_push-InRange (ports_listed _) s h = h
    on_push-InRange (port_opened _) s h = h
    on_push-InRange connect_goes_on s h = h
    on_push-InRange (message_read _ _ _) s h = h
    on_push-InRange (read_failed _) s h = h
    on_push-InRange process_goes_on s h = h
    on_push-InRange write_failed s h = h
    on_push-InRange frame_wanted s h = h
    on_push-InRange second_passed s h = h

    -- The queues, the history and the back-off are bounded; the frames sent and waiting are among
    -- the frames counted.
    pub record IsTool (s : Tool fl) : Type 0 where
      pub station : IsStation fl (length s.1.sent) s.0
      pub in_range : InRange (s.1, s.0.gs)

    on_event-IsTool : (e : Event fl) (s : Tool fl) → IsTool s → IsTool (on_event fl num a lower e s)
    unfolding on_event
    on_event-IsTool e (t, p) h =
        let u : Station fl = on_station fl num a lower e t in
        let kept : KeptBy (p, u.gs) (on_push fl num a lower e (p, u.gs)) =
          on_push-KeptBy e (p, u.gs) in
        record {
          station = rw (kept.2) (
              Keeps-IsStation fl (length p.sent) u _ (refl, refl, kept.0, kept.1)
                (on_station-IsStation (length p.sent) e t h.station));
          in_range = on_push-InRange e (p, u.gs) h.in_range;
        }

    on_frame_wanted-IsTool : (s : Tool fl) → IsTool s → IsTool (on_frame_wanted fl num a lower s)
    unfolding on_frame_wanted take_frame AsyncQueue.get_nowait
    on_frame_wanted-IsTool (t, p) h = elim (Bool-cases (is_connected fl p.phase)) [
      | inr q ↦ rw (q, on_frame_wanted) h
      | inl q ↦ elim (List-cases t.caster_queue.items) [
        | inl r ↦
            rw (q, r, on_frame_wanted, take_frame, AsyncQueue.get_nowait)
              record {
                station = record {
                  queue_max = h.station.queue_max;
                  queued = h.station.queued;
                  caster_max = h.station.caster_max;
                  waiting = omega arith;
                  history = h.station.history;
                  counted = ground (arith, h.station.counted);
                };
                in_range = h.in_range;
              }
        | inr (frame, rest, r) ↦
            rw (q, r, on_frame_wanted, take_frame, AsyncQueue.get_nowait)
              record {
                station = record {
                  queue_max = h.station.queue_max;
                  queued = h.station.queued;
                  caster_max = h.station.caster_max;
                  waiting = ground (arith, h.station.waiting);
                  history = h.station.history;
                  counted = ground (arith, h.station.counted, length-append p.sent (frame ∷ []));
                };
                in_range = h.in_range;
              }
      ]
    ]

    step-IsTool : (e : Event fl) (s : Tool fl) → IsTool s → IsTool (step fl num a lower e s)
    unfolding step happen
    step-IsTool e s h = of_if IsTool s.0.ended s (happen fl num a lower e s) h (
        of_if IsTool (wants_frame fl e) (on_frame_wanted fl num a lower s)
          (on_event fl num a lower e s) (on_frame_wanted-IsTool s h) (on_event-IsTool e s h))

    -- Whatever happens and in whichever order: at most 512 messages and 256 frames wait, the history
    -- has at most 120 values, the back-off is between one second and thirty, and the frames that were
    -- sent and those that wait are no more than the frames that were counted.
    pub run-IsTool :
        (es : List (Event fl)) (s : Tool fl) → IsTool s → IsTool (run fl num a lower es s)
    unfolding run
    run-IsTool [] s h = h
    run-IsTool (e ∷ es) s h = run-IsTool es (step fl num a lower e s) (step-IsTool e s h)
