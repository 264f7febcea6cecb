-- ===== src/Tests/Headers.antt =====
-- Tests of the header parser and of the source table.
use corshub.Prelude.{◌≡◌, refl, true, none, some, String, [], ◌∷◌, if◌then◌else◌, same, string_eq}
use corshub.Mountpoint.{Mountpoint}
use corshub.Strings.{strip, lstrip, rstrip, is_space}
use corshub.Headers.{Readers, no_message, message, degrees, parse_ntrip_str, fields_of}
use corshub.Headers.Bounded.{IsBounded, IsPlain, parse_ntrip_str-IsBounded}
use corshub.Headers.Roundtrip.{
  no_semicolon, no_semicolon-IsField, IsAnnouncement, announced, parse_ntrip_str-build_ntrip_str,
}
use corshub.Here4.{build_ntrip_str}
use corshub.Sourcetable.{str_record}
use corshub.Sourcetable.Roundtrip.{IsListed, listed, parse_ntrip_str-str_record}
use corshub.Udp.Sessions.{decimal, decimal_of}
use corshub.Tests.Toys.{whole}
use corshub.Tests.Here4.{numerals}

-- Readers that know the numbers of these tests.
abbrev pub readers : Readers whole
readers = record {
  upper = λ s. s;
  int_of = λ s.
      if same s "0"
      then some 0
      else if same s "1"
      then some 1
      else if same s "2"
      then some 2
      else if same s "9600"
      then some 9600
      else none;
  float_of = λ s.
      if same s "50"
      then some 50
      else if same s "4"
      then some 4
      else if same s "0"
      then some 0
      else none;
  nmea_reader = λ s. if same s "$GPGGA" then message "GGA" (degrees 50) (degrees 4) else no_message;
}

compliant_fields : fields_of whole readers " STR ;HERE4; Here 4 ;" ≡ "HERE4" ∷ "Here 4" ∷ "" ∷ []
unfolding fields_of
compliant_fields = refl

parse_ntrip_str-IsBounded_example :
    IsBounded whole readers (parse_ntrip_str whole readers (some "HERE4;x;RTCM 3.3") "HERE4")
parse_ntrip_str-IsBounded_example =
    parse_ntrip_str-IsBounded whole readers (some "HERE4;x;RTCM 3.3") "HERE4" refl refl

plain : (s : String) → no_semicolon s ≡ true → strip s ≡ s → IsPlain whole readers s
plain s h k = (no_semicolon-IsField s h, k)

here4 : IsAnnouncement whole readers numerals "HERE4" "Field base" "BEL" "FLEPOS" 50 4 50 4
unfolding strip lstrip rstrip is_space decimal_of
here4 = record {
  plain_mountpoint = plain "HERE4" refl refl;
  plain_label = plain "Field base" refl refl;
  plain_country = plain "BEL" refl refl;
  plain_network = plain "FLEPOS" refl refl;
  plain_lat = plain "50" refl refl;
  plain_lon = plain "4" refl refl;
  named = refl;
  labelled = refl;
  not_str = refl;
  reads_lat = refl;
  reads_lon = refl;
  lat_in_range = refl;
  lon_in_range = refl;
  reads_0 = refl;
  reads_2 = refl;
}

parse_ntrip_str-build_ntrip_str_example :
    parse_ntrip_str whole readers
      (some (build_ntrip_str whole numerals "HERE4" "Field base" 50 4 "BEL" "FLEPOS"))
      "HERE4"
    ≡ announced whole readers "HERE4" "Field base" "BEL" "FLEPOS" 50 4
parse_ntrip_str-build_ntrip_str_example =
    parse_ntrip_str-build_ntrip_str whole readers numerals "HERE4" "Field base" "BEL" "FLEPOS"
      "HERE4" 50 4 50 4 here4

abbrev pub mount : Mountpoint whole
mount = record {
  name = "HERE4";
  identifier = some "Field base";
  format = some "RTCM 3.3";
  country = some "BEL";
  latitude = some 50;
  longitude = some 4;
  format_detail = "1005(1)";
  carrier = 2;
  nav_system = "GPS";
  network = "";
  nmea = true;
  mask = 30;
  solution = 0;
  generator = "Here4Base/1.0";
  compression = "";
  auth = "B";
  fee = "N";
  bitrate = 9600;
  last_seen = 7;
}

mount-IsListed : IsListed whole decimal readers mount "RTCM 3.3" 50 4
unfolding strip lstrip rstrip is_space decimal_of
mount-IsListed = record {
  plain_name = plain "HERE4" refl refl;
  plain_identifier = plain "Field base" refl refl;
  plain_format = plain "RTCM 3.3" refl refl;
  plain_format_detail = plain "1005(1)" refl refl;
  plain_carrier = plain "2" refl refl;
  plain_nav_system = plain "GPS" refl refl;
  plain_network = plain "" refl refl;
  plain_country = plain "BEL" refl refl;
  plain_lat = plain "50" refl refl;
  plain_lon = plain "4" refl refl;
  plain_solution = plain "0" refl refl;
  plain_generator = plain "Here4Base/1.0" refl refl;
  plain_compression = plain "" refl refl;
  plain_auth = plain "B" refl refl;
  plain_fee = plain "N" refl refl;
  plain_bitrate = plain "9600" refl refl;
  named = refl;
  identified = refl;
  coded = (refl, refl);
  has_format = refl;
  formatted = refl;
  str_is_upper = refl;
  reads_carrier = refl;
  carrier_code = refl;
  reads_solution = refl;
  solution_code = refl;
  reads_bitrate = refl;
  reads_0 = refl;
  reads_1 = refl;
  auth_code = refl;
  fee_code = refl;
  reads_lat = refl;
  reads_lon = refl;
  lat_in_range = refl;
  lon_in_range = refl;
}

parse_ntrip_str-str_record_example :
    parse_ntrip_str whole readers (some (str_record whole decimal mount)) "HERE4"
    ≡ listed whole decimal readers mount "RTCM 3.3" 50 4
parse_ntrip_str-str_record_example =
    parse_ntrip_str-str_record whole decimal readers mount "RTCM 3.3" "HERE4" 50 4 mount-IsListed
