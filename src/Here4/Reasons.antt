-- ===== src/Here4/Reasons.antt =====
-- Every step that makes the position known has its reason.
use corshub.Prelude.{
  ℕ, ◌≡◌, refl, inl, inr, Bool, Option, none, some, String, [], ◌∷◌, arith, Option-cases, of_if, ap,
  ◌∙◌,
}
use corshub.Float.{Float}
use corshub.Framing.{Bytes}
use corshub.AsyncQueue
use corshub.AsyncQueue.{AsyncQueue}
use corshub.Here4.{Numerals, Arguments}
use corshub.Here4.Receiver.{Parsed, GnssState, ProcessPhase, receives, configures, Station}
use corshub.Here4.Loops.{
  elem, read_message, read_error, process_next, process_taken, process_configure, process_message,
  mode_command, set_mode,
}
use corshub.Here4.Pusher.{
  PushPhase, Push, poll, fail, answer, close, wake, cancel, take_frame, count_stats,
}
use corshub.Here4.Runs.{
  Event, ports_listed, port_opened, connect_goes_on, message_read, read_failed, process_goes_on,
  write_failed, fix_polled, answered, push_failed, body_ended, woken, cancelled, frame_wanted,
  second_passed, Tool, on_process, on_push, on_station, on_frame_wanted, on_event, happen, when,
  awaits_a_fix, awaits_an_answer, is_streaming, is_asleep, is_connected, wants_frame, step,
}
use corshub.Here4.Fixed.{
  Reason, unfixed, before, surveyed, given, on_ports-Reason, on_opened-Reason, on_connect-Reason,
  on_write_failed-Reason, read_message-Reason, read_error-Reason, process_message-Reason,
}

module _ (fl : Float) where
  module _ (num : Numerals fl) (a : Arguments fl) where
    -- The reasons look at the state's part of what was before.
    from : (t v u : Station fl) → v.gs ≡ t.gs → Reason fl num a v u → Reason fl num a t u
    from t v u e (unfixed h) = unfixed h
    from t v u e (before h) = before (h ∙ ap (λ gs. gs.state) e)
    from t v u e (surveyed h x y) = surveyed (rw (← e) h) x y
    from t v u e (given h) = given h

    -- What follows keeps the state, the survey and what was written.
    onto :
        (t u : Station fl) (gs : GnssState fl)
        → gs.state ≡ u.gs.state
        → gs.svin_valid ≡ u.gs.svin_valid
        → gs.svin_active ≡ u.gs.svin_active
        → Reason fl num a t u
        → Reason fl num a t (record u { gs = gs })
    onto t u gs e f g (unfixed h) = unfixed (rw e h)
    onto t u gs e f g (before h) = before (e ∙ h)
    onto t u gs e f g (surveyed h x y) = surveyed h (f ∙ x) (g ∙ y)
    onto t u gs e f g (given h) = given h

    process_next-Reason :
        (url : Option String) (t : Station fl) → Reason fl num a t (process_next fl url t)
    unfolding process_next process_taken
    process_next-Reason url t = go (AsyncQueue.get_nowait t.queue)
      where
        go :
            (o : Option ((Bytes × Parsed fl) × AsyncQueue (Bytes × Parsed fl)))
            → Reason fl num a t (process_taken fl url o t)
        go none = before refl
        go (some ((raw, parsed), q)) =
            let v : Station fl = record t { queue = q } in
            from t v (process_message fl url raw parsed v) refl
              (process_message-Reason fl num a url raw parsed v)

    set_mode-Reason :
        (ser : ℕ) (t : Station fl) → Reason fl num a t (set_mode fl ser (mode_command fl num a) t)
    unfolding set_mode mode_command
    set_mode-Reason ser t = elim (Option-cases a.lat) [
      | inl q ↦ rw (q, set_mode, mode_command) (unfixed refl)
      | inr (lat, q) ↦ elim (Option-cases a.lon) [
        | inl r ↦ rw (q, r, set_mode, mode_command) (before refl)
        | inr (lon, r) ↦ elim (Option-cases a.alt) [
          | inl s ↦ rw (q, r, s, set_mode, mode_command) (before refl)
          | inr (alt, s) ↦
              rw (q, r, s, set_mode, mode_command)
                (given (lat, lon, alt, ser, t.written, refl, refl, refl, refl))
        ]
      ]
    ]

    on_process-Reason :
        (lower : String → String) (c : ProcessPhase fl) (t : Station fl)
        → Reason fl num a t (on_process fl num a lower c t)
    unfolding on_process process_configure
    on_process-Reason lower receives t = process_next-Reason a.caster_url t
    on_process-Reason lower (configures ser (cmd ∷ cmds)) t = before refl
    on_process-Reason lower (configures ser []) t = set_mode-Reason ser t

    on_station-Reason :
        (lower : String → String) (e : Event fl) (t : Station fl)
        → Reason fl num a t (on_station fl num a lower e t)
    unfolding on_station count_stats
    on_station-Reason lower (ports_listed ports) t =
        on_ports-Reason fl num a lower ports t.connect t
    on_station-Reason lower (port_opened ok) t = on_opened-Reason fl num a ok t.connect t
    on_station-Reason lower connect_goes_on t = on_connect-Reason fl num a t.connect t
    on_station-Reason lower (message_read ser raw o) t =
        of_if (Reason fl num a t) (elem fl t.readers ser) (read_message fl raw o t) t
          (read_message-Reason fl num a raw o t) (before refl)
    on_station-Reason lower (read_failed ser) t =
        of_if (Reason fl num a t) (elem fl t.readers ser) (read_error fl ser t) t
          (read_error-Reason fl num a ser t) (before refl)
    on_station-Reason lower process_goes_on t = on_process-Reason lower t.process t
    on_station-Reason lower write_failed t = on_write_failed-Reason fl num a t.connect t.process t
    on_station-Reason lower second_passed t = before refl
    on_station-Reason lower fix_polled t = before refl
    on_station-Reason lower (answered _ _) t = before refl
    on_station-Reason lower (push_failed _) t = before refl
    on_station-Reason lower body_ended t = before refl
    on_station-Reason lower woken t = before refl
    on_station-Reason lower cancelled t = before refl
    on_station-Reason lower frame_wanted t = before refl

    -- The connection leaves the station's own state alone.
    abbrev Same : GnssState fl → GnssState fl → Type 0
    Same g h = (h.state ≡ g.state) × (h.svin_valid ≡ g.svin_valid) × (h.svin_active ≡ g.svin_active)

    when-Same :
        (test : PushPhase → Bool) (f : Push fl → Push fl) (s : Push fl)
        → Same s.1 (f s).1
        → Same s.1 (when fl test f s).1
    unfolding when
    when-Same test f s h = of_if (λ r. Same s.1 r.1) (test s.0.phase) (f s) s h (refl, refl, refl)

    on_push-Same :
        (lower : String → String) (e : Event fl) (s : Push fl)
        → Same s.1 (on_push fl num a lower e s).1
    unfolding on_push poll answer fail close wake cancel
    on_push-Same lower fix_polled (p, gs) =
        when-Same (awaits_a_fix fl) (poll fl num a) (p, gs)
          (ground arith, ground arith, ground arith)
    on_push-Same lower (answered status exc) (p, gs) =
        when-Same (awaits_an_answer fl) (answer fl status exc) (p, gs)
          (ground arith, ground arith, ground arith)
    on_push-Same lower (push_failed exc) s =
        when-Same (is_connected fl) (fail fl exc) s (refl, refl, refl)
    on_push-Same lower body_ended s = when-Same (is_streaming fl) (close fl) s (refl, refl, refl)
    on_push-Same lower woken s = when-Same (is_asleep fl) (wake fl) s (refl, refl, refl)
    on_push-Same lower cancelled s = when-Same (is_connected fl) (cancel fl) s (refl, refl, refl)
    on_push-Same lower (ports_listed _) s = (refl, refl, refl)
    on_push-Same lower (port_opened _) s = (refl, refl, refl)
    on_push-Same lower connect_goes_on s = (refl, refl, refl)
    on_push-Same lower (message_read _ _ _) s = (refl, refl, refl)
    on_push-Same lower (read_failed _) s = (refl, refl, refl)
    on_push-Same lower process_goes_on s = (refl, refl, refl)
    on_push-Same lower write_failed s = (refl, refl, refl)
    on_push-Same lower frame_wanted s = (refl, refl, refl)
    on_push-Same lower second_passed s = (refl, refl, refl)

    on_event-Reason :
        (lower : String → String) (e : Event fl) (s : Tool fl)
        → Reason fl num a s.0 (on_event fl num a lower e s).0
    unfolding on_event
    on_event-Reason lower e (t, p) =
        let u : Station fl = on_station fl num a lower e t in
        let kept : Same u.gs (on_push fl num a lower e (p, u.gs)).1 =
          on_push-Same lower e (p, u.gs) in
        onto t u (on_push fl num a lower e (p, u.gs)).1 kept.0 kept.1 kept.2
          (on_station-Reason lower e t)

    on_frame_wanted-Reason :
        (lower : String → String) (s : Tool fl)
        → Reason fl num a s.0 (on_frame_wanted fl num a lower s).0
    unfolding on_frame_wanted
    on_frame_wanted-Reason lower (t, p) =
        of_if (λ (r : Tool fl). Reason fl num a t r.0) (is_connected fl p.phase)
          (
            record t { caster_queue = (take_frame fl p t.caster_queue).1 },
            (take_frame fl p t.caster_queue).0,
          )
          (t, p) (before refl) (before refl)

    -- A step makes the state FIXED only when a survey was under way and is now valid and over, or when
    -- the position is given in the arguments and the command that fixes it was written last.
    pub step-Reason :
        (lower : String → String) (e : Event fl) (s : Tool fl)
        → Reason fl num a s.0 (step fl num a lower e s).0
    unfolding step happen
    step-Reason lower e s =
        of_if (λ (r : Tool fl). Reason fl num a s.0 r.0) s.0.ended s (happen fl num a lower e s)
          (before refl)
          (of_if (λ (r : Tool fl). Reason fl num a s.0 r.0) (wants_frame fl e)
            (on_frame_wanted fl num a lower s) (on_event fl num a lower e s)
            (on_frame_wanted-Reason lower s) (on_event-Reason lower e s))
