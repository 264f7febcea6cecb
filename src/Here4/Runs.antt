-- ===== src/Here4/Runs.antt =====
-- The base station tool as a whole: what happens to it, in any order.
use corshub.Prelude.{ℕ, Bool, true, false, Option, String, List, [], ◌∷◌, if◌then◌else◌}
use corshub.Float.{Float}
use corshub.Framing.{Bytes}
use corshub.Here4.{Port, Numerals, Arguments}
use corshub.Here4.Receiver.{
  Parsed, ConnectPhase, looks, opens, enables, ProcessPhase, receives, configures, Station,
}
use corshub.Here4.Loops.{
  new_station, connect_look, connect_opened, connect_enable, elem, read_message, read_error,
  process_next, process_configure,
}
use corshub.Here4.Pusher.{
  PushPhase, awaits_fix, awaits_answer, streams, sleeps, Pusher, new_pusher, Push, poll, fail,
  answer, close, wake, cancel, take_frame, count_stats,
}

module _ (fl : Float) where
  -- A wait that ends, with what it brings. An event that no loop waits for changes nothing.
  pub data Event : Type 0 where
    ports_listed : List Port → Event
    port_opened : Bool → Event
    connect_goes_on : Event
    message_read : ℕ → Bytes → Option (Parsed fl) → Event
    read_failed : ℕ → Event
    process_goes_on : Event
    write_failed : Event
    fix_polled : Event
    answered : ℕ → String → Event
    push_failed : String → Event
    body_ended : Event
    woken : Event
    cancelled : Event
    frame_wanted : Event
    second_passed : Event

  abbrev pub Tool : Type 0
  Tool = Station fl × Pusher fl

  unfoldable pub new_tool : Tool
  unfolding new_station new_pusher
  new_tool = (new_station fl, new_pusher fl)

  unfoldable pub on_ports :
      (String → String) → List Port → ConnectPhase fl → Station fl → Station fl
  unfolding connect_look
  on_ports lower ports looks t = connect_look fl lower ports t
  on_ports lower ports opens t = t
  on_ports lower ports (enables _ _) t = t

  unfoldable pub on_opened : Bool → ConnectPhase fl → Station fl → Station fl
  unfolding connect_opened
  on_opened ok opens t = connect_opened fl ok t
  on_opened ok looks t = t
  on_opened ok (enables _ _) t = t

  unfoldable pub on_connect : ConnectPhase fl → Station fl → Station fl
  unfolding connect_enable
  on_connect (enables ser cmds) t = connect_enable fl ser cmds t
  on_connect looks t = t
  on_connect opens t = t

  -- A failed write ends `connect_loop` or `process_loop`, and with it the program.
  unfoldable pub on_write_failed : ConnectPhase fl → ProcessPhase fl → Station fl → Station fl
  on_write_failed (enables _ _) process t = record t { ended = true }
  on_write_failed looks (configures _ _) t = record t { ended = true }
  on_write_failed opens (configures _ _) t = record t { ended = true }
  on_write_failed looks receives t = t
  on_write_failed opens receives t = t

  abbrev pub awaits_a_fix : PushPhase → Bool
  awaits_a_fix awaits_fix = true
  awaits_a_fix _ = false

  abbrev pub awaits_an_answer : PushPhase → Bool
  awaits_an_answer awaits_answer = true
  awaits_an_answer _ = false

  abbrev pub is_streaming : PushPhase → Bool
  is_streaming streams = true
  is_streaming _ = false

  -- A request is under way: its answer or the end of its body is waited for.
  abbrev pub is_connected : PushPhase → Bool
  is_connected awaits_answer = true
  is_connected streams = true
  is_connected _ = false

  abbrev pub is_asleep : PushPhase → Bool
  is_asleep sleeps = true
  is_asleep _ = false

  abbrev pub wants_frame : Event → Bool
  wants_frame frame_wanted = true
  wants_frame _ = false

  unfoldable pub when : (PushPhase → Bool) → (Push fl → Push fl) → Push fl → Push fl
  when test f s = if test s.0.phase then f s else s

  module _ (num : Numerals fl) (a : Arguments fl) (lower : String → String) where
    unfoldable pub on_process : ProcessPhase fl → Station fl → Station fl
    unfolding process_next process_configure
    on_process receives t = process_next fl a.caster_url t
    on_process (configures ser cmds) t = process_configure fl num a ser cmds t

    -- What happens to the connection.
    unfoldable pub on_push : Event → Push fl → Push fl
    unfolding when poll answer fail close wake cancel
    on_push fix_polled s = when awaits_a_fix (poll fl num a) s
    on_push (answered status exc) s = when awaits_an_answer (answer fl status exc) s
    on_push (push_failed exc) s = when is_connected (fail fl exc) s
    on_push body_ended s = when is_streaming (close fl) s
    on_push woken s = when is_asleep (wake fl) s
    on_push cancelled s = when is_connected (cancel fl) s
    on_push _ s = s

    unfoldable pub on_station : Event → Station fl → Station fl
    unfolding on_ports on_opened on_connect on_process read_message read_error on_write_failed
        count_stats
    on_station (ports_listed ports) t = on_ports lower ports t.connect t
    on_station (port_opened ok) t = on_opened ok t.connect t
    on_station connect_goes_on t = on_connect t.connect t
    on_station (message_read ser raw parsed) t =
        if elem fl t.readers ser then read_message fl raw parsed t else t
    on_station (read_failed ser) t = if elem fl t.readers ser then read_error fl ser t else t
    on_station process_goes_on t = on_process t.process t
    on_station write_failed t = on_write_failed t.connect t.process t
    on_station second_passed t = record t { gs = count_stats fl t.gs }
    on_station _ t = t

    unfoldable pub on_frame_wanted : Tool → Tool
    unfolding take_frame
    on_frame_wanted (t, p) =
        if is_connected p.phase
        then (
          record t { caster_queue = (take_frame fl p t.caster_queue).1 },
          (take_frame fl p t.caster_queue).0,
        )
        else (t, p)

    -- The station first, then the connection.
    unfoldable pub on_event : Event → Tool → Tool
    unfolding on_station on_push
    on_event e (t, p) =
        let t' = on_station e t in
        (record t' { gs = (on_push e (p, t'.gs)).1 }, (on_push e (p, t'.gs)).0)

    unfoldable pub happen : Event → Tool → Tool
    unfolding on_event on_frame_wanted
    happen e s = if wants_frame e then on_frame_wanted s else on_event e s

    -- Nothing happens to a program that has ended.
    unfoldable pub step : Event → Tool → Tool
    unfolding happen
    step e s = if s.0.ended then s else happen e s

    unfoldable pub run : List Event → Tool → Tool
    unfolding step
    run [] s = s
    run (e ∷ es) s = run es (step e s)
