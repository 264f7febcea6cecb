-- ===== src/Here4/Receiver.antt =====
-- The loops of tools/here4-base-caster.py that talk to the receiver: `connect_loop`, `read_loop` and
-- `process_loop`. A loop is split at its waits: a phase says what it does next. The serial ports that
-- are opened are numbered.
use corshub.Prelude.{
  ℕ, zero, suc, Bool, true, false, not, ◌&&◌, ◌||◌, Option, none, some, String, List, [], ◌∷◌, ◌++◌,
  if◌then◌else◌, last,
}
use corshub.Float.{Float}
use corshub.Framing.{Bytes}
use corshub.Strings.{join}
use corshub.AsyncQueue.{AsyncQueue}
use corshub.Here4.{
  State, searching, connecting, monitoring, survey_in, fixed, CasterState, disconnected, padded,
  Command,
}

abbrev pub queue_bound : ℕ
queue_bound = 512

abbrev pub caster_queue_bound : ℕ
caster_queue_bound = 256

abbrev pub history_bound : ℕ
history_bound = 120

-- The states of the station, compared.
abbrev pub is_searching : State → Bool
is_searching searching = true
is_searching connecting = false
is_searching monitoring = false
is_searching survey_in = false
is_searching fixed = false

abbrev pub is_monitoring : State → Bool
is_monitoring searching = false
is_monitoring connecting = false
is_monitoring monitoring = true
is_monitoring survey_in = false
is_monitoring fixed = false

abbrev pub is_survey_in : State → Bool
is_survey_in searching = false
is_survey_in connecting = false
is_survey_in monitoring = false
is_survey_in survey_in = true
is_survey_in fixed = false

abbrev pub is_fixed : State → Bool
is_fixed searching = false
is_fixed connecting = false
is_fixed monitoring = false
is_fixed survey_in = false
is_fixed fixed = true

module _ (fl : Float) where
  pub record NavPvt : Type 0 where
    pub fix_type : ℕ
    pub gnss_fix_ok : Bool
    pub lat : fl.F
    pub lon : fl.F
    pub h_msl : fl.F
    pub g_speed : fl.F
    pub h_acc : fl.F
    pub v_acc : fl.F
    pub p_dop : fl.F
    pub num_sv : ℕ
    pub valid_date : Bool
    pub valid_time : Bool
    pub year : ℕ
    pub month : ℕ
    pub day : ℕ
    pub hour : ℕ
    pub minute : ℕ
    pub second : ℕ

  pub record NavSvin : Type 0 where
    pub active : Bool
    pub valid : Bool
    pub obs : ℕ
    pub mean_acc : fl.F
    pub dur : ℕ

  -- Attributes by their names.
  pub record NavSat : Type 0 where
    pub num_svs : ℕ
    pub attribute : String → Option fl.F

  pub data Parsed : Type 0 where
    nav_pvt : NavPvt → Parsed
    nav_svin : NavSvin → Parsed
    nav_sat : NavSat → Parsed
    rtcm_message : Parsed
    other_message : Parsed

  pub record Satellite : Type 0 where
    pub gnss_id : fl.F
    pub sv_id : fl.F
    pub cno : fl.F
    pub elev : fl.F
    pub azim : fl.F
    pub used : Bool

  pub record GnssState : Type 0 where
    pub state : State
    pub port : String
    pub lat : fl.F
    pub lon : fl.F
    pub alt : fl.F
    pub speed : fl.F
    pub h_acc : fl.F
    pub v_acc : fl.F
    pub pdop : fl.F
    pub fix_type : ℕ
    pub gnss_fix_ok : Bool
    pub num_sv : ℕ
    pub utc_time : String
    pub satellites : List Satellite
    pub svin_active : Bool
    pub svin_valid : Bool
    pub svin_dur : ℕ
    pub svin_obs : ℕ
    pub svin_acc : fl.F
    pub rtcm_msgs : ℕ
    pub rtcm_bytes : ℕ
    pub caster_state : CasterState
    pub caster_error : String
    pub caster_msgs : ℕ
    pub caster_bytes : ℕ
    pub h_acc_history : List fl.F

  unfoldable pub new_state : GnssState
  new_state = record {
    state = searching;
    port = "N/A";
    lat = fl.literal 0;
    lon = fl.literal 0;
    alt = fl.literal 0;
    speed = fl.literal 0;
    h_acc = fl.literal 0;
    v_acc = fl.literal 0;
    pdop = fl.literal 0;
    fix_type = 0;
    gnss_fix_ok = false;
    num_sv = 0;
    utc_time = "N/A";
    satellites = [];
    svin_active = false;
    svin_valid = false;
    svin_dur = 0;
    svin_obs = 0;
    svin_acc = fl.literal 0;
    rtcm_msgs = 0;
    rtcm_bytes = 0;
    caster_state = disconnected;
    caster_error = "";
    caster_msgs = 0;
    caster_bytes = 0;
    h_acc_history = [];
  }

  abbrev thousand : fl.F
  thousand = fl.literal 1000

  unfoldable pub utc_time_of : NavPvt → String
  unfolding padded join
  utc_time_of p = join "" (
      padded 4 p.year
      ∷ "-"
      ∷ padded 2 p.month
      ∷ "-"
      ∷ padded 2 p.day
      ∷ " "
      ∷ padded 2 p.hour
      ∷ ":"
      ∷ padded 2 p.minute
      ∷ ":"
      ∷ padded 2 p.second
      ∷ " UTC"
      ∷ [])

  -- The assignments of the branch for NAV-PVT.
  unfoldable pub see_pvt : NavPvt → GnssState → GnssState
  unfolding utc_time_of
  see_pvt p gs = record gs {
    fix_type = p.fix_type;
    gnss_fix_ok = p.gnss_fix_ok;
    lat = p.lat;
    lon = p.lon;
    alt = fl.div p.h_msl thousand;
    speed = fl.div p.g_speed thousand;
    h_acc = fl.div p.h_acc thousand;
    v_acc = fl.div p.v_acc thousand;
    pdop = p.p_dop;
    num_sv = p.num_sv;
    h_acc_history = last history_bound (gs.h_acc_history ++ fl.div p.h_acc thousand ∷ []);
    utc_time = if p.valid_date && p.valid_time then utc_time_of p else gs.utc_time;
  }

  -- The branch for NAV-SVIN.
  unfoldable pub see_svin : NavSvin → GnssState → GnssState
  see_svin p gs = record gs {
    svin_active = p.active;
    svin_valid = p.valid;
    svin_obs = p.obs;
    svin_acc = fl.div p.mean_acc (fl.literal 10000);
    svin_dur = p.dur;
    state = if is_survey_in gs.state && p.valid && not p.active then fixed else gs.state;
  }

  -- `getattr(parsed, f"{name}_{i:02d}", 0)`
  unfoldable pub attribute_of : NavSat → String → ℕ → fl.F
  unfolding padded join
  attribute_of p name i = elim (p.attribute (join "_" (name ∷ padded 2 i ∷ []))) [
    | none ↦ fl.literal 0
    | some v ↦ v
  ]

  abbrev is_nonzero : fl.F → Bool
  is_nonzero v = fl.lt v (fl.literal 0) || fl.lt (fl.literal 0) v

  -- The satellites from the `i`-th on, `n` of them.
  unfoldable pub satellites_from : NavSat → ℕ → ℕ → List Satellite
  unfolding attribute_of
  satellites_from p i zero = []
  satellites_from p i (suc n) =
      record {
        gnss_id = attribute_of p "gnssId" i;
        sv_id = attribute_of p "svId" i;
        cno = attribute_of p "cno" i;
        elev = attribute_of p "elev" i;
        azim = attribute_of p "azim" i;
        used = is_nonzero (attribute_of p "svUsed" i);
      }
      ∷ satellites_from p (suc i) n

  pub data ConnectPhase : Type 0 where
    looks : ConnectPhase
    opens : ConnectPhase
    enables : ℕ → List (Command fl) → ConnectPhase

  pub data ProcessPhase : Type 0 where
    receives : ProcessPhase
    configures : ℕ → List (Command fl) → ProcessPhase

  -- Both queues, the slot of the serial port, the ports that a `read_loop` reads, what was written to
  -- which port, and the phases. `ended` says that an exception has ended the program.
  pub record Station : Type 0 where
    pub gs : GnssState
    pub queue : AsyncQueue (Bytes × Parsed)
    pub caster_queue : AsyncQueue Bytes
    pub ser_ref : Option ℕ
    pub opened : ℕ
    pub readers : List ℕ
    pub connect : ConnectPhase
    pub process : ProcessPhase
    pub written : List (ℕ × Command fl)
    pub ended : Bool
