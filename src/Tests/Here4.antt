-- ===== src/Tests/Here4.antt =====
-- Tests of the base station tool.
use corshub.Prelude.{◌≡◌, refl, true, none, some, String, List, [], ◌∷◌, ℕ, arith}
use corshub.Here4.{Port, Numerals, Arguments, fixed, check_arguments, incomplete_position}
use corshub.Here4.Receiver.{NavPvt, nav_pvt, GnssState, new_state}
use corshub.Here4.Runs.{
  Event, ports_listed, port_opened, connect_goes_on, message_read, read_failed, process_goes_on,
  Tool, new_tool, step, run,
}
use corshub.Here4.Steady.{IsTool, run-IsTool}
use corshub.Here4.Fixed.{Reason}
use corshub.Here4.Reasons.{step-Reason}
use corshub.Here4.Backoff.{waits}
use corshub.Udp.Sessions.{decimal}
use corshub.Tests.Toys.{whole}

abbrev pub numerals : Numerals whole
numerals = record { int = λ x. x; round = λ x. x; two_decimals = λ x. decimal x }

-- A station at a known position.
abbrev arguments : Arguments whole
arguments = record {
  lat = some 50;
  lon = some 4;
  alt = some 100;
  fixed_acc = 10;
  caster_url = some "http://localhost:8000";
  mountpoint = some "HERE4";
  username = some "here4";
  password = some "secret";
  label = none;
  country = some "BEL";
  network = none;
}

abbrev lower : String → String
lower s = s

abbrev port : Port
port = record { device = "/dev/ttyACM0"; vid = some 5446; description = none; manufacturer = none }

abbrev fix : NavPvt whole
fix = record {
  fix_type = 3;
  gnss_fix_ok = true;
  lat = 50;
  lon = 4;
  h_msl = 100;
  g_speed = 0;
  h_acc = 2000;
  v_acc = 3000;
  p_dop = 1;
  num_sv = 20;
  valid_date = true;
  valid_time = true;
  year = 2024;
  month = 5;
  day = 7;
  hour = 9;
  minute = 30;
  second = 1;
}

abbrev connects : List (Event whole)
connects =
    ports_listed (port ∷ [])
    ∷ port_opened true
    ∷ connect_goes_on
    ∷ connect_goes_on
    ∷ connect_goes_on
    ∷ connect_goes_on
    ∷ message_read 0 (181 ∷ []) (some (nav_pvt fix))
    ∷ process_goes_on
    ∷ []

abbrev configures : List (Event whole)
configures =
    process_goes_on ∷ process_goes_on ∷ process_goes_on ∷ process_goes_on ∷ process_goes_on
    ∷ process_goes_on ∷ process_goes_on ∷ []

abbrev after : List (Event whole) → Tool whole → Tool whole
after es s = run whole numerals arguments lower es s

-- Connected, configured and fixed.
becomes_fixed : (after configures (after connects (new_tool whole))).0.gs.state ≡ fixed
unfolding run new_tool
becomes_fixed = refl

-- The receiver is unplugged while it is configured: the state is FIXED and no port is open, so that
-- no port is looked for any more.
unplugged :
    ((after configures (after (read_failed 0 ∷ []) (after connects (new_tool whole)))).0.gs.state
      ≡ fixed)
    × ((after configures (after (read_failed 0 ∷ []) (after connects (new_tool whole)))).0.ser_ref
        ≡ none)
unfolding run new_tool
unplugged = (refl, refl)

new_tool-IsTool : IsTool whole numerals arguments lower (new_tool whole)
unfolding new_tool
new_tool-IsTool = record {
  station = record {
    queue_max = refl;
    queued = omega arith;
    caster_max = refl;
    waiting = omega arith;
    history = omega arith;
    counted = omega arith;
  };
  in_range = (omega arith, omega arith);
}

run-IsTool_example : IsTool whole numerals arguments lower (after connects (new_tool whole))
run-IsTool_example =
    run-IsTool whole numerals arguments lower connects (new_tool whole) new_tool-IsTool

step-Reason_example :
    Reason whole numerals arguments
      (new_tool whole).0
      (step whole numerals arguments lower process_goes_on (new_tool whole)).0
step-Reason_example = step-Reason whole numerals arguments lower process_goes_on (new_tool whole)

abbrev refusals : List (ℕ × String)
refusals = (401, "Unauthorized") ∷ (503, "") ∷ (503, "") ∷ (401, "") ∷ (401, "") ∷ (401, "") ∷ []

-- The station when it has its position.
abbrev fixed_state : GnssState whole
fixed_state = record (new_state whole) { state = fixed }

waits_of_refusals : waits whole 0 refusals ≡ 1 ∷ 2 ∷ 4 ∷ 8 ∷ 16 ∷ 30 ∷ []
waits_of_refusals = refl

incomplete :
    check_arguments whole (λ s. true) (λ s. true) (record arguments { alt = none })
    ≡ some incomplete_position
unfolding check_arguments
incomplete = refl
