-- ===== src/Mountpoint.antt =====
-- `Mountpoint` of src/corshub/ntrip/v2/caster.py: the metadata of one mountpoint and its validation.
-- Times are whole numbers of a unit of the monotonic clock.
pub mod Valid
use Prim.Native.Char.{code}
use Prim.Native.String.{String}
use corshub.Prelude.{
  ℕ, zero, suc, Bool, true, false, not, ◌&&◌, ◌||◌, Option, none, some, List, [], ◌∷◌, ◌==◌, leb,
  if◌then◌else◌, length,
}
use corshub.Float.{Float}

abbrev pub codes : String → List ℕ
codes String.[] = []
codes (String.◌∷◌ c s) = code c ∷ codes s

unfoldable pub all_codes : (ℕ → Bool) → List ℕ → Bool
all_codes test [] = true
all_codes test (c ∷ cs) = test c && all_codes test cs

-- The class `[A-Za-z0-9_-]`.
unfoldable pub is_name_code : ℕ → Bool
is_name_code c =
    (leb b'A' c && leb c b'Z')
    || (leb b'a' c && leb c b'z')
    || (leb b'0' c && leb c b'9')
    || c == b'_'
    || c == b'-'

unfoldable pub is_upper_code : ℕ → Bool
is_upper_code c = leb b'A' c && leb c b'Z'

-- `$` matches at the end, and before a newline at the end.
unfoldable pub before_newline : List ℕ → List ℕ
before_newline [] = []
before_newline (c ∷ []) = if c == 10 then [] else c ∷ []
before_newline (c ∷ d ∷ cs) = c ∷ before_newline (d ∷ cs)

-- `^[A-Za-z0-9_-]{1,100}$`
unfoldable pub matches_name : String → Bool
unfolding all_codes is_name_code before_newline
matches_name s =
    let cs = before_newline (codes s) in
    leb 1 (length cs) && leb (length cs) 100 && all_codes is_name_code cs

-- `^[A-Z]{3}$`
unfoldable pub matches_country : String → Bool
unfolding all_codes is_upper_code before_newline
matches_country s =
    let cs = before_newline (codes s) in length cs == 3 && all_codes is_upper_code cs

-- `re.match("[^;]+", s)`: the match is anchored at the start only.
unfoldable pub matches_identifier : String → Bool
matches_identifier s = elim (codes s) [ [] ↦ false | c ∷ _ ↦ not (c == b';') ]

abbrev pub is_empty : String → Bool
is_empty s = elim (codes s) [ [] ↦ true | _ ∷ _ ↦ false ]

module _ (fl : Float) where
  pub record Mountpoint : Type 0 where
    pub name : String
    pub identifier : Option String
    pub format : Option String
    pub country : Option String
    pub latitude : Option fl.F
    pub longitude : Option fl.F
    pub format_detail : String
    pub carrier : ℕ
    pub nav_system : String
    pub network : String
    pub nmea : Bool
    pub mask : fl.F
    pub solution : ℕ
    pub generator : String
    pub compression : String
    pub auth : String
    pub fee : String
    pub bitrate : ℕ
    pub last_seen : ℕ

  -- Keyword arguments: `none` where the argument is not given.
  pub record Metadata : Type 0 where
    pub name : Option String
    pub identifier : Option String
    pub format : Option String
    pub country : Option String
    pub latitude : Option fl.F
    pub longitude : Option fl.F
    pub format_detail : Option String
    pub carrier : Option ℕ
    pub nav_system : Option String
    pub network : Option String
    pub nmea : Option Bool
    pub mask : Option fl.F
    pub solution : Option ℕ
    pub generator : Option String
    pub compression : Option String
    pub auth : Option String
    pub fee : Option String
    pub bitrate : Option ℕ

  abbrev pub no_metadata : Metadata
  no_metadata = record {
    name = none;
    identifier = none;
    format = none;
    country = none;
    latitude = none;
    longitude = none;
    format_detail = none;
    carrier = none;
    nav_system = none;
    network = none;
    nmea = none;
    mask = none;
    solution = none;
    generator = none;
    compression = none;
    auth = none;
    fee = none;
    bitrate = none;
  }

  abbrev pub given {ℓ} : {A : Type ℓ} → Option A → A → A
  given none a = a
  given (some b) a = b

  -- The tests of `__post_init__`, in the code's order; `true` if none of them raises.
  unfoldable pub within : ℕ → Option fl.F → Bool
  within bound none = true
  within bound (some x) = fl.le (fl.neg (fl.literal bound)) x && fl.le x (fl.literal bound)

  unfoldable pub optional_matches : (String → Bool) → Option String → Bool
  optional_matches test none = true
  optional_matches test (some s) = is_empty s || test s

  unfoldable pub post_init : Mountpoint → Bool
  unfolding within optional_matches matches_name matches_identifier matches_country
  post_init m =
      if not (matches_name m.name)
      then false
      else if not (optional_matches matches_identifier m.identifier)
      then false
      else if not (optional_matches matches_country m.country)
      then false
      else if not (within 90 m.latitude)
      then false
      else if not (within 180 m.longitude)
      then false
      else not (fl.lt m.mask (fl.literal 0))

  -- The fields that the generated `__init__` sets.
  abbrev pub assemble : String → Metadata → ℕ → Mountpoint
  assemble name k now = record {
    name = name;
    identifier = k.identifier;
    format = k.format;
    country = k.country;
    latitude = k.latitude;
    longitude = k.longitude;
    format_detail = given k.format_detail "";
    carrier = given k.carrier 0;
    nav_system = given k.nav_system "";
    network = given k.network "";
    nmea = given k.nmea false;
    mask = given k.mask (fl.literal 0);
    solution = given k.solution 0;
    generator = given k.generator "";
    compression = given k.compression "";
    auth = given k.auth "B";
    fee = given k.fee "N";
    bitrate = given k.bitrate 0;
    last_seen = now;
  }

  -- `Mountpoint(name=name, **kwargs)` at time `now`; `none` is the `ValueError`.
  unfoldable pub construct : String → Metadata → ℕ → Option Mountpoint
  unfolding post_init
  construct name k now =
      if post_init (assemble name k now) then some (assemble name k now) else none

  abbrev pub or_else {ℓ} : {A : Type ℓ} → Option A → Option A → Option A
  or_else none a = a
  or_else (some b) a = some b

  -- The loop of `register` over the keyword arguments: those of `_METADATA_FIELDS` that are given
  -- are set, with no validation. `identifier` is not among these fields, and `name` is.
  unfoldable pub update_metadata : Mountpoint → Metadata → Mountpoint
  update_metadata m k = record m {
    name = given k.name m.name;
    format = or_else k.format m.format;
    country = or_else k.country m.country;
    latitude = or_else k.latitude m.latitude;
    longitude = or_else k.longitude m.longitude;
    format_detail = given k.format_detail m.format_detail;
    carrier = given k.carrier m.carrier;
    nav_system = given k.nav_system m.nav_system;
    network = given k.network m.network;
    nmea = given k.nmea m.nmea;
    mask = given k.mask m.mask;
    solution = given k.solution m.solution;
    generator = given k.generator m.generator;
    compression = given k.compression m.compression;
    auth = given k.auth m.auth;
    fee = given k.fee m.fee;
    bitrate = given k.bitrate m.bitrate;
  }
