-- ===== src/Headers/Roundtrip.antt =====
-- The header that the base station tool builds, as the caster reads it.
use corshub.Prelude.{
  ◌≡◌, refl, ◌∙◌, Bool, true, false, not, ◌&&◌, none, some, String, List, [], ◌∷◌, ◌==◌,
  if◌then◌else◌, same, string_eq, arith, length,
}
use Prim.Native.Char.{code}
use corshub.Float.{Float}
use corshub.Mountpoint.{codes, is_empty, Metadata}
use corshub.Strings.{strip, lstrip, rstrip, is_space}
use corshub.Headers.{
  Readers, without_str, parse_fields, parse_ntrip_str, in_range, country_of, nonempty, accept,
  always,
}
use corshub.Headers.Split.{IsField}
use corshub.Headers.Bounded.{IsPlain, parse_ntrip_str-join}
use corshub.Here4.{Numerals, rtcm_format_detail, rtcm_nav_system, build_ntrip_str}

-- The same as a test, for literals.
abbrev pub no_semicolon : String → Bool
no_semicolon String.[] = true
no_semicolon (String.◌∷◌ c s) = not (code c == b';') && no_semicolon s

pub no_semicolon-IsField : (s : String) → no_semicolon s ≡ true → IsField s
no_semicolon-IsField String.[] h = tt
no_semicolon-IsField (String.◌∷◌ c s) h =
    (ground (arith, h), no_semicolon-IsField s (ground (arith, h)))

module _ (fl : Float) (r : Readers fl) where
  literal-IsPlain : (s : String) → no_semicolon s ≡ true → strip s ≡ s → IsPlain fl r s
  literal-IsPlain s h k = (no_semicolon-IsField s h, k)

  -- What the tool's own fields have to satisfy: they are plain, the mountpoint and the label are not
  -- empty, the mountpoint is not read as the word that opens a source table's line, and the numbers
  -- that it writes are read again.
  pub record IsAnnouncement (num : Numerals fl) (mountpoint label country network : String)
      (lat lon lat' lon' : fl.F) : Type 0 where
    pub plain_mountpoint : IsPlain fl r mountpoint
    pub plain_label : IsPlain fl r label
    pub plain_country : IsPlain fl r country
    pub plain_network : IsPlain fl r network
    pub plain_lat : IsPlain fl r (num.two_decimals lat)
    pub plain_lon : IsPlain fl r (num.two_decimals lon)
    pub named : is_empty mountpoint ≡ false
    pub labelled : is_empty label ≡ false
    pub not_str : same (r.upper mountpoint) "STR" ≡ false
    pub reads_lat : r.float_of (num.two_decimals lat) ≡ some lat'
    pub reads_lon : r.float_of (num.two_decimals lon) ≡ some lon'
    pub lat_in_range : in_range fl r 90 lat' ≡ true
    pub lon_in_range : in_range fl r 180 lon' ≡ true
    pub reads_0 : r.int_of "0" ≡ some 0
    pub reads_2 : r.int_of "2" ≡ some 2

  abbrev pub announced : (mountpoint label country network : String) (lat lon : fl.F) → Metadata fl
  announced mountpoint label country network lat lon = record {
    name = some mountpoint;
    identifier = some label;
    format = some "RTCM 3.3";
    country = some (if length (codes country) == 3 then r.upper country else "UNK");
    latitude = some lat;
    longitude = some lon;
    format_detail = some rtcm_format_detail;
    carrier = some 2;
    nav_system = some rtcm_nav_system;
    network = some network;
    nmea = some false;
    mask = none;
    solution = some 0;
    generator = some "Here4Base/1.0";
    compression = some "";
    auth = some "B";
    fee = some "N";
    bitrate = some 0;
  }

  -- The fields after the label.
  abbrev further : Numerals fl → (network country : String) → (lat lon : fl.F) → List String
  further num network country lat lon =
      "RTCM 3.3"
      ∷ rtcm_format_detail
      ∷ "2"
      ∷ rtcm_nav_system
      ∷ network
      ∷ country
      ∷ num.two_decimals lat
      ∷ num.two_decimals lon
      ∷ "0"
      ∷ "0"
      ∷ "Here4Base/1.0"
      ∷ ""
      ∷ "B"
      ∷ "N"
      ∷ "0"
      ∷ []

  country_of-nonempty :
      (s : String)
      → country_of fl r (nonempty fl r (some s))
        ≡ (if length (codes s) == 3 then r.upper s else "UNK")
  country_of-nonempty String.[] = refl
  country_of-nonempty (String.◌∷◌ c s) = refl

  accept-nonempty : (s : String) → accept fl r (always fl r) (nonempty fl r (some s)) "" ≡ s
  accept-nonempty String.[] = refl
  accept-nonempty (String.◌∷◌ c s) = refl

  parse_fields-announced :
      (num : Numerals fl) (mountpoint label country network id : String) (lat lon lat' lon' : fl.F)
      → IsAnnouncement num mountpoint label country network lat lon lat' lon'
      → parse_fields fl r (mountpoint ∷ label ∷ further num network country lat lon) id
        ≡ announced mountpoint label country network lat' lon'
  unfolding parse_fields
  parse_fields-announced num mountpoint label country network id lat lon lat' lon' h =
      rw
        (
          h.named,
          h.labelled,
          h.reads_lat,
          h.reads_lon,
          h.lat_in_range,
          h.lon_in_range,
          h.reads_0,
          h.reads_2,
          country_of-nonempty country,
          accept-nonempty network,
        )
        refl

  -- The caster reads the header that the base station tool builds as the mountpoint, the label and
  -- the network that the tool was given, the position with two decimals and the tool's own constants,
  -- provided that the texts have no semicolon and no white space at the ends, that the mountpoint is
  -- not "STR" in upper case, and that the numbers that are written are read again.
  pub parse_ntrip_str-build_ntrip_str :
      (num : Numerals fl) (mountpoint label country network id : String) (lat lon lat' lon' : fl.F)
      → IsAnnouncement num mountpoint label country network lat lon lat' lon'
      → parse_ntrip_str fl r
          (some (build_ntrip_str fl num mountpoint label lat lon country network))
          id
        ≡ announced mountpoint label country network lat' lon'
  unfolding build_ntrip_str without_str strip lstrip rstrip is_space
  parse_ntrip_str-build_ntrip_str num mountpoint label country network id lat lon lat' lon' h =
      parse_ntrip_str-join fl r mountpoint label (further num network country lat lon) id
        (
          h.plain_mountpoint,
          (
            h.plain_label,
            (
              literal-IsPlain "RTCM 3.3" refl refl,
              (
                literal-IsPlain rtcm_format_detail refl refl,
                (
                  literal-IsPlain "2" refl refl,
                  (
                    literal-IsPlain rtcm_nav_system refl refl,
                    (
                      h.plain_network,
                      (
                        h.plain_country,
                        (
                          h.plain_lat,
                          (
                            h.plain_lon,
                            (
                              literal-IsPlain "0" refl refl,
                              (
                                literal-IsPlain "0" refl refl,
                                (
                                  literal-IsPlain "Here4Base/1.0" refl refl,
                                  (
                                    literal-IsPlain "" refl refl,
                                    (
                                      literal-IsPlain "B" refl refl,
                                      (
                                        literal-IsPlain "N" refl refl,
                                        (literal-IsPlain "0" refl refl, tt),
                                      ),
                                    ),
                                  ),
                                ),
                              ),
                            ),
                          ),
                        ),
                      ),
                    ),
                  ),
                ),
              ),
            ),
          ),
        )
        h.named
      ∙ rw (h.not_str)
          (parse_fields-announced num mountpoint label country network id lat lon lat' lon' h)
