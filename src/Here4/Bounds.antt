-- ===== src/Here4/Bounds.antt =====
-- What stays bounded in the base station tool.
use corshub.Prelude.{
  ℕ, ◌+◌, ◌≤◌, ◌≡◌, refl, Bool, true, false, Option, none, some, String, List, [], ◌∷◌, ◌++◌,
  length, length-append, length-last-le, arith, Bool-cases, inl, inr,
}
use corshub.Float.{Float}
use corshub.Framing.{Bytes}
use corshub.AsyncQueue
use corshub.AsyncQueue.{AsyncQueue}
use corshub.Here4.{Port}
use corshub.Here4.Receiver.{
  queue_bound, caster_queue_bound, history_bound, is_fixed, Parsed, nav_pvt, nav_svin, nav_sat,
  rtcm_message, other_message, ConnectPhase, looks, opens, enables, ProcessPhase, receives,
  configures, Station, see_pvt, see_svin,
}
use corshub.Here4.Loops.{
  connect_look, connect_opened, connect_enable, read_message, read_error, process_message,
  after_pvt, see_rtcm, push_frame,
}
use corshub.Here4.Runs.{on_ports, on_opened, on_connect, on_write_failed}

module _ (fl : Float) where
  -- Of the station: the queues and the history are bounded, and `n` frames that were sent and those
  -- that wait are among the frames counted.
  pub record IsStation (n : ℕ) (t : Station fl) : Type 0 where
    pub queue_max : t.queue.maxsize ≡ queue_bound
    pub queued : length t.queue.items ≤ queue_bound
    pub caster_max : t.caster_queue.maxsize ≡ caster_queue_bound
    pub waiting : length t.caster_queue.items ≤ caster_queue_bound
    pub history : length t.gs.h_acc_history ≤ history_bound
    pub counted : n + length t.caster_queue.items ≤ t.gs.rtcm_msgs

  -- What an operation that leaves the queues alone has to keep.
  abbrev pub Keeps : Station fl → Station fl → Type 0
  Keeps t u =
      (u.queue ≡ t.queue)
      × (u.caster_queue ≡ t.caster_queue)
      × (u.gs.h_acc_history ≡ t.gs.h_acc_history)
      × (u.gs.rtcm_msgs ≡ t.gs.rtcm_msgs)

  pub Keeps-IsStation : (n : ℕ) (t u : Station fl) → Keeps t u → IsStation n t → IsStation n u
  Keeps-IsStation n t u k h = record {
    queue_max = rw (k.0) h.queue_max;
    queued = rw (k.0) h.queued;
    caster_max = rw (k.1) h.caster_max;
    waiting = rw (k.1) h.waiting;
    history = rw (k.2) h.history;
    counted = rw (k.1, k.3) h.counted;
  }

  connect_look-Keeps :
      (lower : String → String) (ports : List Port) (t : Station fl)
      → Keeps t (connect_look fl lower ports t)
  unfolding connect_look
  connect_look-Keeps lower ports t = (ground arith, ground arith, ground arith, ground arith)

  pub on_ports-Keeps :
      (lower : String → String) (ports : List Port) (c : ConnectPhase fl) (t : Station fl)
      → Keeps t (on_ports fl lower ports c t)
  unfolding on_ports
  on_ports-Keeps lower ports looks t = connect_look-Keeps lower ports t
  on_ports-Keeps lower ports opens t = (refl, refl, refl, refl)
  on_ports-Keeps lower ports (enables _ _) t = (refl, refl, refl, refl)

  pub on_opened-Keeps :
      (ok : Bool) (c : ConnectPhase fl) (t : Station fl) → Keeps t (on_opened fl ok c t)
  unfolding on_opened connect_opened
  on_opened-Keeps true opens t = (refl, refl, refl, refl)
  on_opened-Keeps false opens t = (refl, refl, refl, refl)
  on_opened-Keeps ok looks t = (refl, refl, refl, refl)
  on_opened-Keeps ok (enables _ _) t = (refl, refl, refl, refl)

  pub on_connect-Keeps : (c : ConnectPhase fl) (t : Station fl) → Keeps t (on_connect fl c t)
  unfolding on_connect connect_enable
  on_connect-Keeps (enables ser (cmd ∷ cmds)) t = (refl, refl, refl, refl)
  on_connect-Keeps (enables ser []) t = (refl, refl, refl, refl)
  on_connect-Keeps looks t = (refl, refl, refl, refl)
  on_connect-Keeps opens t = (refl, refl, refl, refl)

  pub on_write_failed-Keeps :
      (c : ConnectPhase fl) (p : ProcessPhase fl) (t : Station fl)
      → Keeps t (on_write_failed fl c p t)
  unfolding on_write_failed
  on_write_failed-Keeps (enables _ _) p t = (refl, refl, refl, refl)
  on_write_failed-Keeps looks (configures _ _) t = (refl, refl, refl, refl)
  on_write_failed-Keeps opens (configures _ _) t = (refl, refl, refl, refl)
  on_write_failed-Keeps looks receives t = (refl, refl, refl, refl)
  on_write_failed-Keeps opens receives t = (refl, refl, refl, refl)

  pub read_error-Keeps : (ser : ℕ) (t : Station fl) → Keeps t (read_error fl ser t)
  unfolding read_error
  read_error-Keeps ser t = (ground arith, ground arith, ground arith, ground arith)

  pub read_message-IsStation :
      (n : ℕ) (raw : Bytes) (o : Option (Parsed fl)) (t : Station fl)
      → IsStation n t
      → IsStation n (read_message fl raw o t)
  unfolding read_message AsyncQueue.put_nowait AsyncQueue.full
  read_message-IsStation n raw none t h = h
  read_message-IsStation n raw (some parsed) t h = elim (Bool-cases (AsyncQueue.full t.queue)) [
    | inl q ↦ rw (q, read_message, AsyncQueue.put_nowait) h
    | inr q ↦
        rw (q, read_message, AsyncQueue.put_nowait)
          record {
            queue_max = h.queue_max;
            queued =
                ground
                  (arith, h.queue_max, h.queued, length-append t.queue.items ((raw, parsed) ∷ []));
            caster_max = h.caster_max;
            waiting = h.waiting;
            history = h.history;
            counted = h.counted;
          }
  ]

  push_frame-max :
      (url : Option String) (raw : Bytes) (q : AsyncQueue Bytes)
      → (push_frame fl url raw q).maxsize ≡ q.maxsize
  unfolding push_frame AsyncQueue.put_nowait
  push_frame-max none raw q = refl
  push_frame-max (some url) raw q = ground arith

  push_frame-length :
      (url : Option String) (raw : Bytes) (q : AsyncQueue Bytes)
      → length (push_frame fl url raw q).items ≤ length q.items + 1
  unfolding push_frame AsyncQueue.put_nowait
  push_frame-length none raw q = omega arith
  push_frame-length (some url) raw q = ground (arith, length-append q.items (raw ∷ []))

  push_frame-bounded :
      (url : Option String) (raw : Bytes) (q : AsyncQueue Bytes)
      → q.maxsize ≡ caster_queue_bound
      → length q.items ≤ caster_queue_bound
      → length (push_frame fl url raw q).items ≤ caster_queue_bound
  unfolding push_frame AsyncQueue.put_nowait AsyncQueue.full
  push_frame-bounded none raw q e h = h
  push_frame-bounded (some url) raw q e h = ground (arith, length-append q.items (raw ∷ []))

  see_rtcm-IsStation :
      (n : ℕ) (url : Option String) (raw : Bytes) (t : Station fl)
      → IsStation n t
      → IsStation n (see_rtcm fl url raw t)
  unfolding see_rtcm
  see_rtcm-IsStation n url [] t h = h
  see_rtcm-IsStation n url (b ∷ bytes) t h = elim (Bool-cases (is_fixed t.gs.state)) [
    | inr q ↦ rw (q, see_rtcm) h
    | inl q ↦
        let pushed : AsyncQueue Bytes = t.caster_queue in
        rw (q, see_rtcm)
          record {
            queue_max = h.queue_max;
            queued = h.queued;
            caster_max = rw (push_frame-max url (b ∷ bytes) pushed) h.caster_max;
            waiting = push_frame-bounded url (b ∷ bytes) pushed h.caster_max h.waiting;
            history = h.history;
            counted = omega (arith, h.counted, push_frame-length url (b ∷ bytes) pushed);
          }
  ]

  after_pvt-Keeps : (t : Station fl) → Keeps t (after_pvt fl t)
  unfolding after_pvt
  after_pvt-Keeps t = (ground arith, ground arith, ground arith, ground arith)

  pub process_message-IsStation :
      (n : ℕ) (url : Option String) (raw : Bytes) (m : Parsed fl) (t : Station fl)
      → IsStation n t
      → IsStation n (process_message fl url raw m t)
  unfolding process_message see_pvt see_svin
  process_message-IsStation n url raw (nav_pvt p) t h =
      let seen : Station fl = record t { gs = see_pvt fl p t.gs } in
      Keeps-IsStation n seen (after_pvt fl seen) (after_pvt-Keeps seen) record {
        queue_max = h.queue_max;
        queued = h.queued;
        caster_max = h.caster_max;
        waiting = h.waiting;
        history =
            length-last-le history_bound
              (t.gs.h_acc_history ++ fl.div p.h_acc (fl.literal 1000) ∷ []);
        counted = h.counted;
      }
  process_message-IsStation n url raw (nav_svin p) t h =
      Keeps-IsStation n t _ (refl, refl, refl, refl) h
  process_message-IsStation n url raw (nav_sat p) t h =
      Keeps-IsStation n t _ (refl, refl, refl, refl) h
  process_message-IsStation n url raw rtcm_message t h = see_rtcm-IsStation n url raw t h
  process_message-IsStation n url raw other_message t h = h
