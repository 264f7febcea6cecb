-- ===== src/Headers.antt =====
-- The headers of NTRIP: src/corshub/ntrip/v2/headers.py. `str.upper`, `int`, `float` and the reader of
-- NMEA sentences (pynmeagps) are parameters.
pub mod Split
pub mod Bounded
pub mod Roundtrip
use Prim.Native.Char.{code}
use Prim.Native.String
use corshub.Prelude.{
  ℕ, zero, suc, Bool, true, false, not, ◌&&◌, ◌||◌, Option, none, some, String, List, [], ◌∷◌, ◌++◌,
  map, leb, ltb, ◌==◌, if◌then◌else◌, same, string_eq, length,
}
use corshub.Float.{Float}
use corshub.Mountpoint.{codes, is_empty, Metadata}
use corshub.Strings.{strip}

abbrev pub str_mountpoint : ℕ
str_mountpoint = 0

abbrev pub str_identifier : ℕ
str_identifier = 1

abbrev pub str_format : ℕ
str_format = 2

abbrev pub str_format_detail : ℕ
str_format_detail = 3

abbrev pub str_carrier : ℕ
str_carrier = 4

abbrev pub str_nav_system : ℕ
str_nav_system = 5

abbrev pub str_network : ℕ
str_network = 6

abbrev pub str_country : ℕ
str_country = 7

abbrev pub str_latitude : ℕ
str_latitude = 8

abbrev pub str_longitude : ℕ
str_longitude = 9

abbrev pub str_nmea : ℕ
str_nmea = 10

abbrev pub str_solution : ℕ
str_solution = 11

abbrev pub str_generator : ℕ
str_generator = 12

abbrev pub str_compression : ℕ
str_compression = 13

abbrev pub str_auth : ℕ
str_auth = 14

abbrev pub str_fee : ℕ
str_fee = 15

abbrev pub str_bitrate : ℕ
str_bitrate = 16

-- One more code in front of the first part.
abbrev pub extend : List String → String → List String
extend [] s = s ∷ []
extend (part ∷ parts) s = part ∷ parts

-- `s.split(";")`: at least one part.
unfoldable pub split : String → List String
split String.[] = "" ∷ []
split (String.◌∷◌ c s) =
    let rest = split s in
    if code c == b';'
    then "" ∷ rest
    else elim rest [ [] ↦ String.◌∷◌ c "" ∷ [] | part ∷ parts ↦ String.◌∷◌ c part ∷ parts ]

-- `fields[i]`, or `none` out of range.
abbrev pub get_elem? : List String → ℕ → Option String
get_elem? [] n = none
get_elem? (s ∷ ss) zero = some s
get_elem? (s ∷ ss) (suc n) = get_elem? ss n

module _ (fl : Float) where
  -- A coordinate of a sentence: `None`, a value that `float` takes, or one that it does not take.
  pub data Coordinate : Type 0 where
    unset : Coordinate
    degrees : fl.F → Coordinate
    unreadable : Coordinate

  -- What `NMEAReader.parse` gives: an exception, `None`, or a message with its name.
  pub data Sentence : Type 0 where
    malformed : Sentence
    no_message : Sentence
    message : String → Coordinate → Coordinate → Sentence

  -- `int_of` gives the number of a text that `int` takes, when it is not negative: the parser treats
  -- a negative number as it treats a text that is no number.
  pub record Readers : Type 0 where
    pub upper : String → String
    pub int_of : String → Option ℕ
    pub float_of : String → Option fl.F
    pub nmea_reader : String → Sentence

  module _ (r : Readers) where
    -- A first field "STR" is dropped.
    unfoldable pub without_str : List String → List String
    without_str [] = []
    without_str (s ∷ ss) = if same (r.upper s) "STR" then ss else s ∷ ss

    unfoldable pub fields_of : String → List String
    unfolding split strip without_str
    fields_of header = without_str (map strip (split header))

    abbrev pub nonempty : Option String → Option String
    nonempty none = none
    nonempty (some v) = if is_empty v then none else some v

    abbrev pub str_at : List String → ℕ → Option String
    str_at fields i = nonempty (get_elem? fields i)

    abbrev pub read {ℓ} : {A : Type ℓ} → (String → Option A) → Option String → Option A
    read f none = none
    read f (some v) = f v

    abbrev pub int_at : List String → ℕ → Option ℕ
    int_at fields i = read r.int_of (get_elem? fields i)

    abbrev pub float_at : List String → ℕ → Option fl.F
    float_at fields i = read r.float_of (get_elem? fields i)

    -- The value if it is there and passes the test, or else the default.
    abbrev pub accept {ℓ} : {A : Type ℓ} → (A → Bool) → Option A → A → A
    accept test none default = default
    accept test (some v) default = if test v then v else default

    abbrev pub always : String → Bool
    always v = true

    abbrev pub is_auth : String → Bool
    is_auth v = same v "N" || same v "B" || same v "D"

    abbrev pub is_fee : String → Bool
    is_fee v = same v "N" || same v "Y"

    abbrev pub in_range : ℕ → fl.F → Bool
    in_range bound f = fl.le (fl.neg (fl.literal bound)) f && fl.le f (fl.literal bound)

    -- Three characters, in upper case.
    abbrev pub country_of : Option String → String
    country_of none = "UNK"
    country_of (some v) = if length (codes v) == 3 then r.upper v else "UNK"

    abbrev pub only_if {ℓ} : {A : Type ℓ} → Bool → Option A → Option A
    only_if b o = if b then o else none

    -- The assignments of `parse_ntrip_str`, field by field; the country and the position are read only
    -- when there are fields up to the longitude.
    unfoldable pub parse_fields : List String → String → Metadata fl
    parse_fields fields mountpoint =
        let placed = ltb str_longitude (length fields) in
        record {
          name = some (accept always (str_at fields str_mountpoint) mountpoint);
          identifier = str_at fields str_identifier;
          format = some (accept always (str_at fields str_format) "RTCM 3.3");
          country = some (country_of (only_if placed (str_at fields str_country)));
          latitude =
              some (
                accept (in_range 90) (only_if placed (float_at fields str_latitude))
                  (fl.literal 0));
          longitude = some (
              accept (in_range 180) (only_if placed (float_at fields str_longitude))
                (fl.literal 0));
          format_detail = some (accept always (str_at fields str_format_detail) "");
          carrier = some (accept (λ i. leb i 2) (int_at fields str_carrier) 0);
          nav_system = some (accept always (str_at fields str_nav_system) "");
          network = some (accept always (str_at fields str_network) "");
          nmea = some (accept (λ i. leb i 1) (int_at fields str_nmea) 0 == 1);
          mask = none;
          solution = some (accept (λ i. leb i 1) (int_at fields str_solution) 0);
          generator = some (accept always (str_at fields str_generator) "");
          compression = some (accept always (str_at fields str_compression) "");
          auth = some (accept is_auth (str_at fields str_auth) "B");
          fee = some (accept is_fee (str_at fields str_fee) "N");
          bitrate = some (accept (λ i. true) (int_at fields str_bitrate) 0);
        }

    unfoldable pub parse_ntrip_str : Option String → String → Metadata fl
    unfolding fields_of parse_fields
    parse_ntrip_str none mountpoint = parse_fields [] mountpoint
    parse_ntrip_str (some header) mountpoint =
        if is_empty header
        then parse_fields [] mountpoint
        else parse_fields (fields_of header) mountpoint

    unfoldable pub position_of : Sentence → Option (fl.F × fl.F)
    position_of malformed = none
    position_of no_message = none
    position_of (message id (degrees lat) (degrees lon)) =
        if same id "GGA" then some (lat, lon) else none
    position_of (message id _ _) = none

    unfoldable pub parse_ntrip_gga : Option String → Option (fl.F × fl.F)
    unfolding position_of strip
    parse_ntrip_gga none = none
    parse_ntrip_gga (some header) =
        if is_empty header then none else position_of (r.nmea_reader (strip header))
