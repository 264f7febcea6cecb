-- ===== src/Sourcetable/Roundtrip.antt =====
-- A line of the source table, as the header parser reads it.
use corshub.Prelude.{
  ◌≡◌, refl, ◌∙◌, Bool, true, false, Option, none, some, String, List, [], ◌∷◌, ◌==◌, leb,
  if◌then◌else◌, length, string_eq, arith, All,
}
use corshub.Float.{Float}
use corshub.Mountpoint.{codes, is_empty, Metadata, Mountpoint}
use corshub.Strings.{strip, lstrip, rstrip, is_space}
use corshub.Headers.{
  Readers, without_str, parse_fields, parse_ntrip_str, in_range, country_of, nonempty, accept,
  always, is_auth, is_fee,
}
use corshub.Headers.Bounded.{IsPlain, parse_ntrip_str-join}
use corshub.Udp.Sessions.{decimal}
use corshub.Sourcetable.{or_empty, degrees, str_record}

module _ (fl : Float) (two_decimals : fl.F → String) (r : Readers fl) where
  -- A country is a code of three characters in upper case.
  abbrev pub IsCode : Option String → Type 0
  IsCode none = Unit
  IsCode (some code) = (length (codes code) ≡ 3) × (r.upper code ≡ code)

  abbrev pub IsNamed : Option String → Type 0
  IsNamed none = Unit
  IsNamed (some text) = is_empty text ≡ false

  -- What the table tells of the country.
  abbrev pub or_unknown : Option String → String
  or_unknown none = "UNK"
  or_unknown (some code) = code

  -- The mountpoint's texts are plain, its codes are those of the protocol, and its numbers are read
  -- as they are written, the position as `lat` and `lon`.
  pub record IsListed (mp : Mountpoint fl) (format : String) (lat lon : fl.F) : Type 0 where
    pub plain_name : IsPlain fl r mp.name
    pub plain_identifier : IsPlain fl r (or_empty mp.identifier)
    pub plain_format : IsPlain fl r format
    pub plain_format_detail : IsPlain fl r mp.format_detail
    pub plain_carrier : IsPlain fl r (decimal mp.carrier)
    pub plain_nav_system : IsPlain fl r mp.nav_system
    pub plain_network : IsPlain fl r mp.network
    pub plain_country : IsPlain fl r (or_empty mp.country)
    pub plain_lat : IsPlain fl r (degrees fl two_decimals mp.latitude)
    pub plain_lon : IsPlain fl r (degrees fl two_decimals mp.longitude)
    pub plain_solution : IsPlain fl r (decimal mp.solution)
    pub plain_generator : IsPlain fl r mp.generator
    pub plain_compression : IsPlain fl r mp.compression
    pub plain_auth : IsPlain fl r mp.auth
    pub plain_fee : IsPlain fl r mp.fee
    pub plain_bitrate : IsPlain fl r (decimal mp.bitrate)
    pub named : is_empty mp.name ≡ false
    pub identified : IsNamed mp.identifier
    pub coded : IsCode mp.country
    pub has_format : mp.format ≡ some format
    pub formatted : is_empty format ≡ false
    pub str_is_upper : r.upper "STR" ≡ "STR"
    pub reads_carrier : r.int_of (decimal mp.carrier) ≡ some mp.carrier
    pub carrier_code : leb mp.carrier 2 ≡ true
    pub reads_solution : r.int_of (decimal mp.solution) ≡ some mp.solution
    pub solution_code : leb mp.solution 1 ≡ true
    pub reads_bitrate : r.int_of (decimal mp.bitrate) ≡ some mp.bitrate
    pub reads_0 : r.int_of "0" ≡ some 0
    pub reads_1 : r.int_of "1" ≡ some 1
    pub auth_code : is_auth fl r mp.auth ≡ true
    pub fee_code : is_fee fl r mp.fee ≡ true
    pub reads_lat : r.float_of (degrees fl two_decimals mp.latitude) ≡ some lat
    pub reads_lon : r.float_of (degrees fl two_decimals mp.longitude) ≡ some lon
    pub lat_in_range : in_range fl r 90 lat ≡ true
    pub lon_in_range : in_range fl r 180 lon ≡ true

  abbrev pub listed : Mountpoint fl → String → (lat lon : fl.F) → Metadata fl
  listed mp format lat lon = record {
    name = some mp.name;
    identifier = mp.identifier;
    format = some format;
    country = some (or_unknown mp.country);
    latitude = some lat;
    longitude = some lon;
    format_detail = some mp.format_detail;
    carrier = some mp.carrier;
    nav_system = some mp.nav_system;
    network = some mp.network;
    nmea = some mp.nmea;
    mask = none;
    solution = some mp.solution;
    generator = some mp.generator;
    compression = some mp.compression;
    auth = some mp.auth;
    fee = some mp.fee;
    bitrate = some mp.bitrate;
  }

  -- The fields after the name.
  abbrev further : Mountpoint fl → List String
  further mp =
      or_empty mp.identifier
      ∷ or_empty mp.format
      ∷ mp.format_detail
      ∷ decimal mp.carrier
      ∷ mp.nav_system
      ∷ mp.network
      ∷ or_empty mp.country
      ∷ degrees fl two_decimals mp.latitude
      ∷ degrees fl two_decimals mp.longitude
      ∷ (if mp.nmea then "1" else "0")
      ∷ decimal mp.solution
      ∷ mp.generator
      ∷ mp.compression
      ∷ mp.auth
      ∷ mp.fee
      ∷ decimal mp.bitrate
      ∷ ""
      ∷ []

  identifier-or_empty : (o : Option String) → IsNamed o → nonempty fl r (some (or_empty o)) ≡ o
  identifier-or_empty none h = refl
  identifier-or_empty (some s) h = rw h refl

  country_of-or_empty :
      (o : Option String)
      → IsCode o
      → country_of fl r (nonempty fl r (some (or_empty o))) ≡ or_unknown o
  country_of-or_empty none h = refl
  country_of-or_empty (some String.[]) h = absurd (ground (arith, h.0))
  country_of-or_empty (some (String.◌∷◌ c s)) h = rw (h.0, h.1) refl

  accept-always : (s : String) → accept fl r (always fl r) (nonempty fl r (some s)) "" ≡ s
  accept-always String.[] = refl
  accept-always (String.◌∷◌ c s) = refl

  -- A code that passes its test is no empty text.
  accept-code :
      (test : String → Bool) (s default : String)
      → test "" ≡ false
      → test s ≡ true
      → accept fl r test (nonempty fl r (some s)) default ≡ s
  accept-code test String.[] default e h = absurd (ground arith)
  accept-code test (String.◌∷◌ c s) default e h = rw h refl

  accept-nmea :
      (b : Bool)
      → r.int_of "0" ≡ some 0
      → r.int_of "1" ≡ some 1
      → (accept fl r (λ i. leb i 1) (r.int_of (if b then "1" else "0")) 0 == 1) ≡ b
  accept-nmea true h k = rw k refl
  accept-nmea false h k = rw h refl

  parse_fields-listed :
      (mp : Mountpoint fl) (format id : String) (lat lon : fl.F)
      → IsListed mp format lat lon
      → parse_fields fl r (mp.name ∷ further mp) id ≡ listed mp format lat lon
  unfolding parse_fields
  parse_fields-listed mp format id lat lon h =
      rw
        (
          h.named,
          h.has_format,
          h.formatted,
          h.reads_carrier,
          h.carrier_code,
          h.reads_solution,
          h.solution_code,
          h.reads_bitrate,
          h.reads_lat,
          h.reads_lon,
          h.lat_in_range,
          h.lon_in_range,
          identifier-or_empty mp.identifier h.identified,
          country_of-or_empty mp.country h.coded,
          accept-always mp.format_detail,
          accept-always mp.nav_system,
          accept-always mp.network,
          accept-always mp.generator,
          accept-always mp.compression,
          accept-code (is_auth fl r) mp.auth "B" refl h.auth_code,
          accept-code (is_fee fl r) mp.fee "N" refl h.fee_code,
          accept-nmea mp.nmea h.reads_0 h.reads_1,
        )
        refl

  literal-IsPlain : (b : Bool) → IsPlain fl r (if b then "1" else "0")
  unfolding strip lstrip rstrip is_space
  literal-IsPlain true = ((refl, tt), refl)
  literal-IsPlain false = ((refl, tt), refl)

  further-IsPlain :
      (mp : Mountpoint fl) (format : String) (lat lon : fl.F)
      → IsListed mp format lat lon
      → All (IsPlain fl r) (further mp)
  unfolding strip lstrip rstrip is_space
  further-IsPlain mp format lat lon h = rw (h.has_format) (
    h.plain_identifier,
    (
      h.plain_format,
      (
        h.plain_format_detail,
        (
          h.plain_carrier,
          (
            h.plain_nav_system,
            (
              h.plain_network,
              (
                h.plain_country,
                (
                  h.plain_lat,
                  (
                    h.plain_lon,
                    (
                      literal-IsPlain mp.nmea,
                      (
                        h.plain_solution,
                        (
                          h.plain_generator,
                          (
                            h.plain_compression,
                            (h.plain_auth, (h.plain_fee, (h.plain_bitrate, ((tt, refl), tt)))),
                          ),
                        ),
                      ),
                    ),
                  ),
                ),
              ),
            ),
          ),
        ),
      ),
    ),
  )

  -- The line that the source table has for a mountpoint is read by the header parser as every field
  -- of this mountpoint but two: the position is the one that the written texts give, and there is
  -- no mask, which the table does not hold. No country reads as UNK. The condition is that its
  -- texts have no semicolon and no white space at the ends, that it has a name and a format, that an
  -- identifier is not empty and a country is a code of three characters in upper case, and that its
  -- other codes are those of the protocol.
  pub parse_ntrip_str-str_record :
      (mp : Mountpoint fl) (format id : String) (lat lon : fl.F)
      → IsListed mp format lat lon
      → parse_ntrip_str fl r (some (str_record fl two_decimals mp)) id ≡ listed mp format lat lon
  unfolding str_record without_str strip lstrip rstrip is_space
  parse_ntrip_str-str_record mp format id lat lon h =
      parse_ntrip_str-join fl r "STR" mp.name (further mp) id
        (((refl, (refl, (refl, tt))), refl), (h.plain_name, further-IsPlain mp format lat lon h))
        refl
      ∙ rw (h.str_is_upper) (parse_fields-listed mp format id lat lon h)
