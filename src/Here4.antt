-- ===== src/Here4.antt =====
-- The base station tool, tools/here4-base-caster.py: its state, the commands that it writes to the
-- receiver, and the header and the arguments that it builds and checks. The messages of the receiver
-- are parsed by pyubx2 and pyrtcm, and commands are written by pyubx2: both are data here.
pub mod Receiver
pub mod Loops
pub mod Pusher
pub mod Runs
pub mod Bounds
pub mod Steady
pub mod Fixed
pub mod Reasons
pub mod Backoff
use corshub.Prelude.{
  ℕ, zero, suc, ◌+◌, ◌-◌, Bool, true, false, not, ◌&&◌, ◌||◌, Option, none, some, String, List, [],
  ◌∷◌, ◌++◌, leb, ◌==◌, if◌then◌else◌, same, string_eq, length,
}
use Prim.Native.String as Text
use corshub.Float.{Float}
use corshub.Framing.{Bytes}
use corshub.Mountpoint.{codes, is_empty, all_codes}
use corshub.Strings.{join, strip, starts_with, contains_text}
use corshub.Udp.Sessions.{decimal}

-- Survey-in parameters, UBX class and message numbers.
abbrev pub baud_rate : ℕ
baud_rate = 115200

abbrev pub ublox_vid : ℕ
ublox_vid = 5446

abbrev pub svin_min_dur : ℕ
svin_min_dur = 60

abbrev pub svin_acc_limit : ℕ
svin_acc_limit = 20000

abbrev pub nav_class : ℕ
nav_class = 1

abbrev pub nav_pvt_id : ℕ
nav_pvt_id = 7

abbrev pub nav_sat_id : ℕ
nav_sat_id = 53

abbrev pub nav_svin_id : ℕ
nav_svin_id = 59

abbrev pub rtcm_class : ℕ
rtcm_class = 245

abbrev pub rtcm_output_ids : List ℕ
rtcm_output_ids = 5 ∷ 77 ∷ 87 ∷ 97 ∷ 127 ∷ 230 ∷ []

abbrev pub rtcm_format_detail : String
rtcm_format_detail = "1005(1),1077(1),1087(1),1097(1),1127(1),1230(1)"

abbrev pub rtcm_nav_system : String
rtcm_nav_system = "GPS+GLO+GAL+BDS"

pub data State : Type 0 where
  searching : State
  connecting : State
  monitoring : State
  survey_in : State
  fixed : State

pub data CasterState : Type 0 where
  disconnected : CasterState
  handshake : CasterState
  streaming : CasterState
  failed : CasterState

-- A port that the operating system lists.
pub record Port : Type 0 where
  pub device : String
  pub vid : Option ℕ
  pub description : Option String
  pub manufacturer : Option String

abbrev or_empty_text : Option String → String
or_empty_text none = ""
or_empty_text (some s) = s

abbrev has_vid : Option ℕ → Bool
has_vid none = false
has_vid (some v) = v == ublox_vid

-- The ports that look like a receiver; `lower` is `str.lower`.
unfoldable pub find_ublox_ports : (String → String) → List Port → List String
find_ublox_ports lower [] = []
find_ublox_ports lower (p ∷ ports) =
    let rest = find_ublox_ports lower ports in
    if has_vid p.vid
      || contains_text (lower (or_empty_text p.description)) "u-blox"
      || contains_text (lower (or_empty_text p.manufacturer)) "u-blox"
      || starts_with p.device "/dev/ttyACM"
    then p.device ∷ rest
    else rest

-- `{n:0wd}`
unfoldable pub zeros : ℕ → String
zeros zero = ""
zeros (suc n) = Text.◌++◌ "0" (zeros n)

unfoldable pub padded : ℕ → ℕ → String
unfolding zeros
padded width n = let s = decimal n in Text.◌++◌ (zeros (width - Text.count s)) s

module _ (fl : Float) where
  -- A command of the receiver.
  pub data Command : Type 0 where
    cfg_msg : ℕ → ℕ → ℕ → Command
    cfg_tmode3_svin : ℕ → ℕ → Command
    cfg_tmode3_fixed :
        (ecef_x_or_lat ecef_y_or_lon ecef_z_or_alt lat_hp lon_hp alt_hp fixed_pos_acc : fl.F)
        → Command

  -- `int` and `round` of a float, and `{x:.2f}`.
  pub record Numerals : Type 0 where
    pub int : fl.F → fl.F
    pub round : fl.F → fl.F
    pub two_decimals : fl.F → String

  -- A coordinate in two parts: a whole number of the coarse unit, and the remainder of the fine one.
  unfoldable pub split : Numerals → fl.F → fl.F → fl.F → fl.F × fl.F
  split num x coarse fine =
      let i = num.int (fl.mul x coarse) in (i, num.round (fl.mul (fl.sub (fl.mul x coarse) i) fine))

  unfoldable pub tmode3_fixed : Numerals → fl.F → fl.F → fl.F → fl.F → Command
  unfolding split
  tmode3_fixed num lat lon alt acc_mm =
      let (lat_i, lat_hp) = split num lat (fl.literal 10000000) (fl.literal 100) in
      let (lon_i, lon_hp) = split num lon (fl.literal 10000000) (fl.literal 100) in
      let (alt_cm, alt_hp) = split num alt (fl.literal 100) (fl.literal 10) in
      cfg_tmode3_fixed lat_i lon_i alt_cm lat_hp lon_hp alt_hp
        (num.int (fl.mul acc_mm (fl.literal 10)))

  unfoldable pub build_ntrip_str :
      Numerals → String → String → fl.F → fl.F → String → String → String
  unfolding join
  build_ntrip_str num mountpoint label lat lon country network = join ";" (
      mountpoint
      ∷ label
      ∷ "RTCM 3.3"
      ∷ rtcm_format_detail
      ∷ "2"
      ∷ rtcm_nav_system
      ∷ network
      ∷ country
      ∷ num.two_decimals lat
      ∷ num.two_decimals lon
      ∷ "0"
      ∷ "0"
      ∷ "Here4Base/1.0"
      ∷ ""
      ∷ "B"
      ∷ "N"
      ∷ "0"
      ∷ [])

  -- The arguments of the command line; an argument that is not given is `none`.
  pub record Arguments : Type 0 where
    pub lat : Option fl.F
    pub lon : Option fl.F
    pub alt : Option fl.F
    pub fixed_acc : fl.F
    pub caster_url : Option String
    pub mountpoint : Option String
    pub username : Option String
    pub password : Option String
    pub label : Option String
    pub country : Option String
    pub network : Option String

  abbrev given {ℓ} : {A : Type ℓ} → Option A → Bool
  given none = false
  given (some _) = true

  -- `bool(s)` of an argument
  abbrev holds_text : Option String → Bool
  holds_text none = false
  holds_text (some s) = not (is_empty s)

  pub data Usage : Type 0 where
    incomplete_position : Usage
    incomplete_credentials : Usage
    bad_country : Usage

  -- The checks on the arguments, in their order; `alphabetic` and `uppercase` are `str.isalpha` and
  -- `str.isupper`.
  unfoldable pub check_arguments : (alphabetic uppercase : String → Bool) → Arguments → Option Usage
  check_arguments alphabetic uppercase a =
      if (given a.lat || given a.lon || given a.alt)
        && not (given a.lat && given a.lon && given a.alt)
      then some incomplete_position
      else if given a.caster_url
          && not (holds_text a.mountpoint && holds_text a.username && holds_text a.password)
      then some incomplete_credentials
      else if holds_text a.country
          && not (
              length (codes (or_empty_text a.country)) == 3
              && alphabetic (or_empty_text a.country)
              && uppercase (or_empty_text a.country))
      then some bad_country
      else none
