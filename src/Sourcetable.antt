-- ===== src/Sourcetable.antt =====
-- The source table: src/corshub/ntrip/v2/sourcetable.py. The formatting of floats is a parameter.
pub mod Roundtrip
use Prim.Native.String as Text
use corshub.Prelude.{
  ℕ, Bool, true, false, Option, none, some, String, List, [], ◌∷◌, ◌++◌, map, if◌then◌else◌,
}
use corshub.Dict.{Dict}
use corshub.Float.{Float}
use corshub.Mountpoint.{Mountpoint}
use corshub.Strings.{join}
use corshub.Caster.{NtripCaster}
use corshub.Udp.Sessions.{decimal}

abbrev pub or_empty : Option String → String
or_empty none = ""
or_empty (some s) = s

module _ (fl : Float) (two_decimals : fl.F → String) where
  abbrev pub degrees : Option fl.F → String
  degrees none = ""
  degrees (some x) = two_decimals x

  unfoldable pub str_record : Mountpoint fl → String
  unfolding join
  str_record mp = join ";" (
      "STR"
      ∷ mp.name
      ∷ or_empty mp.identifier
      ∷ or_empty mp.format
      ∷ mp.format_detail
      ∷ decimal mp.carrier
      ∷ mp.nav_system
      ∷ mp.network
      ∷ or_empty mp.country
      ∷ degrees mp.latitude
      ∷ degrees mp.longitude
      ∷ (if mp.nmea then "1" else "0")
      ∷ decimal mp.solution
      ∷ mp.generator
      ∷ mp.compression
      ∷ mp.auth
      ∷ mp.fee
      ∷ decimal mp.bitrate
      ∷ ""
      ∷ [])

  unfoldable pub format_sourcetable : NtripCaster fl → String
  unfolding join str_record
  format_sourcetable c =
      Text.◌++◌
        (join "\r\n" (map (λ entry. str_record entry.1) c.mountpoints ++ "ENDSOURCETABLE" ∷ []))
        "\r\n"
