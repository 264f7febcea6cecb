-- ===== src/Here4/Loops.antt =====
-- The steps of `connect_loop`, `read_loop` and `process_loop` of tools/here4-base-caster.py.
use corshub.Prelude.{
  ℕ, suc, ◌+◌, Bool, true, false, not, ◌&&◌, ◌||◌, Option, none, some, String, List, [], ◌∷◌, ◌++◌,
  leb, ◌==◌, if◌then◌else◌, length,
}
use corshub.Float.{Float}
use corshub.Framing.{Bytes}
use corshub.AsyncQueue
use corshub.AsyncQueue.{AsyncQueue}
use corshub.Here4.{
  nav_class, nav_pvt_id, nav_sat_id, nav_svin_id, rtcm_class, rtcm_output_ids, svin_min_dur,
  svin_acc_limit, State, searching, connecting, monitoring, survey_in, fixed, Port,
  find_ublox_ports, Command, cfg_msg, cfg_tmode3_svin, tmode3_fixed, Numerals, Arguments,
}
use corshub.Here4.Receiver.{
  queue_bound, caster_queue_bound, is_searching, is_monitoring, is_fixed, Parsed, nav_pvt, nav_svin,
  nav_sat, rtcm_message, other_message, GnssState, new_state, see_pvt, see_svin, satellites_from,
  looks, opens, enables, receives, configures, Station,
}

module _ (fl : Float) where
  unfoldable pub new_station : Station fl
  unfolding new_state
  new_station = record {
    gs = new_state fl;
    queue = AsyncQueue.create queue_bound;
    caster_queue = AsyncQueue.create caster_queue_bound;
    ser_ref = none;
    opened = 0;
    readers = [];
    connect = looks;
    process = receives;
    written = [];
    ended = false;
  }

  abbrev pub set_state : State → Station fl → Station fl
  set_state s t = record t { gs = record t.gs { state = s } }

  abbrev nav_commands : List (Command fl)
  nav_commands =
      cfg_msg nav_class nav_pvt_id 1
      ∷ cfg_msg nav_class nav_sat_id 1
      ∷ cfg_msg nav_class nav_svin_id 1
      ∷ []

  -- `connect_loop` looks for a port: nothing unless the station searches.
  unfoldable pub connect_look : (String → String) → List Port → Station fl → Station fl
  unfolding find_ublox_ports
  connect_look lower ports t =
      if not (is_searching t.gs.state) then t else elim (find_ublox_ports lower ports) [
        | [] ↦ t
        | port ∷ _ ↦ record t {
          gs = record t.gs { state = connecting; port = port };
          connect = opens;
        }
      ]

  -- The port could be opened, or not.
  unfoldable pub connect_opened : Bool → Station fl → Station fl
  connect_opened true t = record t {
    ser_ref = some t.opened;
    opened = suc t.opened;
    connect = enables t.opened nav_commands;
  }
  connect_opened false t = record (set_state searching t) { connect = looks }

  -- The next command for NAV messages, or the start of the reader.
  unfoldable pub connect_enable : ℕ → List (Command fl) → Station fl → Station fl
  connect_enable ser (cmd ∷ cmds) t = record t {
    written = t.written ++ (ser, cmd) ∷ [];
    connect = enables ser cmds;
  }
  connect_enable ser [] t = record (set_state monitoring t) {
    readers = t.readers ++ ser ∷ [];
    connect = looks;
  }

  abbrev pub is_reference : Option ℕ → ℕ → Bool
  is_reference none ser = false
  is_reference (some r) ser = r == ser

  abbrev pub elem : List ℕ → ℕ → Bool
  elem [] n = false
  elem (m ∷ ms) n = m == n || elem ms n

  abbrev pub without : List ℕ → ℕ → List ℕ
  without [] n = []
  without (m ∷ ms) n = let rest = without ms n in if m == n then rest else m ∷ rest

  -- `read_loop` of a port has read a message: it is dropped when the queue is full.
  unfoldable pub read_message : Bytes → Option (Parsed fl) → Station fl → Station fl
  unfolding AsyncQueue.put_nowait
  read_message raw none t = t
  read_message raw (some parsed) t = elim (AsyncQueue.put_nowait t.queue (raw, parsed)) [
    | none ↦ t
    | some q ↦ record t { queue = q }
  ]

  -- `read_loop` of a port has met an error, which ends it.
  unfoldable pub read_error : ℕ → Station fl → Station fl
  read_error ser t =
      let left : Station fl = record t { readers = without t.readers ser } in
      if is_reference t.ser_ref ser
      then record left { ser_ref = none; gs = record t.gs { state = searching; satellites = [] } }
      else left

  unfoldable pub rtcm_commands : List ℕ → List (Command fl)
  rtcm_commands [] = []
  rtcm_commands (n ∷ ns) = cfg_msg rtcm_class n 1 ∷ rtcm_commands ns

  -- Whether the configuration of the receiver starts.
  abbrev pub is_ready : GnssState fl → Bool
  is_ready gs = is_monitoring gs.state && leb 3 gs.fix_type && gs.gnss_fix_ok

  -- NAV-PVT, from the test of the fix on.
  unfoldable pub after_pvt : Station fl → Station fl
  unfolding rtcm_commands
  after_pvt t = elim t.ser_ref [
    | none ↦ t
    | some ser ↦
        if is_ready t.gs
        then record t { process = configures ser (rtcm_commands rtcm_output_ids) }
        else t
  ]

  -- A frame that cannot be queued for the caster is dropped.
  unfoldable pub push_frame : Option String → Bytes → AsyncQueue Bytes → AsyncQueue Bytes
  unfolding AsyncQueue.put_nowait
  push_frame none raw q = q
  push_frame (some url) raw q = elim (AsyncQueue.put_nowait q raw) [ none ↦ q | some q' ↦ q' ]

  unfoldable pub see_rtcm : Option String → Bytes → Station fl → Station fl
  unfolding push_frame
  see_rtcm url [] t = t
  see_rtcm url (b ∷ bytes) t =
      if is_fixed t.gs.state
      then record t {
        gs = record t.gs {
          rtcm_bytes = t.gs.rtcm_bytes + length (b ∷ bytes);
          rtcm_msgs = t.gs.rtcm_msgs + 1;
        };
        caster_queue = push_frame url (b ∷ bytes) t.caster_queue;
      }
      else t

  -- The body of `process_loop` up to its first wait.
  unfoldable pub process_message : Option String → Bytes → Parsed fl → Station fl → Station fl
  unfolding after_pvt see_pvt see_svin satellites_from see_rtcm
  process_message url raw (nav_pvt p) t = after_pvt (record t { gs = see_pvt fl p t.gs })
  process_message url raw (nav_svin p) t = record t { gs = see_svin fl p t.gs }
  process_message url raw (nav_sat p) t = record t {
    gs = record t.gs { satellites = satellites_from fl p 1 p.num_svs };
  }
  process_message url raw rtcm_message t = see_rtcm url raw t
  process_message url raw other_message t = t

  -- The command that sets the receiver's mode, and the state that it leads to; `none` is the
  -- `TypeError` of a position that lacks a part.
  unfoldable pub mode_command : Numerals fl → Arguments fl → Option (Command fl × State)
  unfolding tmode3_fixed
  mode_command num a = elim a.lat [
    | none ↦ some (cfg_tmode3_svin svin_min_dur svin_acc_limit, survey_in)
    | some lat ↦ elim a.lon [
      | none ↦ none
      | some lon ↦ elim a.alt [
        | none ↦ none
        | some alt ↦ some (tmode3_fixed fl num lat lon alt a.fixed_acc, fixed)
      ]
    ]
  ]

  unfoldable pub set_mode : ℕ → Option (Command fl × State) → Station fl → Station fl
  set_mode ser none t = record t { ended = true }
  set_mode ser (some (cmd, state)) t = record (set_state state t) {
    written = t.written ++ (ser, cmd) ∷ [];
    process = receives;
  }

  -- The next command of the configuration.
  unfoldable pub process_configure :
      Numerals fl → Arguments fl → ℕ → List (Command fl) → Station fl → Station fl
  unfolding mode_command set_mode
  process_configure num a ser (cmd ∷ cmds) t = record t {
    written = t.written ++ (ser, cmd) ∷ [];
    process = configures ser cmds;
  }
  process_configure num a ser [] t = set_mode ser (mode_command num a) t

  unfoldable pub process_taken :
      Option String
      → Option ((Bytes × Parsed fl) × AsyncQueue (Bytes × Parsed fl))
      → Station fl
      → Station fl
  unfolding process_message
  process_taken url none t = t
  process_taken url (some ((raw, parsed), q)) t =
      process_message url raw parsed (record t { queue = q })

  -- `process_loop` takes the next message, if one waits.
  unfoldable pub process_next : Option String → Station fl → Station fl
  unfolding AsyncQueue.get_nowait process_taken
  process_next url t = process_taken url (AsyncQueue.get_nowait t.queue) t
