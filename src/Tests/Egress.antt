-- ===== src/Tests/Egress.antt =====
-- Tests of the UDP egress.
use corshub.Prelude.{ℕ, ◌≡◌, refl, none, some, String, [], ◌∷◌, string_eq, arith}
use corshub.Dict
use corshub.Dict.{Dict, Distinct}
use corshub.Geodesy.{haversine}
use corshub.Mountpoint.{Mountpoint, assemble, no_metadata}
use corshub.Udp.{nearest, resolve_mountpoint}
use corshub.Udp.Nearest.{IsOrder, IsNearest, nearest-IsNearest}
use corshub.Udp.Scope.{Justifies, resolve_mountpoint-Justifies}
use corshub.Tests.Toys.{whole}

whole-IsOrder : IsOrder whole
whole-IsOrder = record { lt_irrefl = λ a. ground arith; lt_trans = λ a b c p q. ground arith }

abbrev at : ℕ → Mountpoint whole
at latitude =
    assemble whole "B1"
      (record (no_metadata whole) { latitude = some latitude; longitude = some 3 }) 0

abbrev two_mountpoints : Dict String (Mountpoint whole)
two_mountpoints = ("B1", at 50) ∷ ("B2", at 52) ∷ []

two_mountpoints-Distinct : Distinct two_mountpoints
unfolding Dict.get
two_mountpoints-Distinct = (refl, (refl, tt))

get-two_mountpoints : Dict.get two_mountpoints "B2" ≡ some (at 52)
unfolding Dict.get
get-two_mountpoints = refl

nearest-IsNearest_example :
    IsNearest whole whole-IsOrder two_mountpoints
      (51, 3)
      (haversine whole 52 3 51 3)
      (nearest whole two_mountpoints (51, 3))
nearest-IsNearest_example =
    nearest-IsNearest whole whole-IsOrder two_mountpoints (51, 3) "B2" (at 52)
      (haversine whole 52 3 51 3) two_mountpoints-Distinct get-two_mountpoints refl

resolve_mountpoint-Justifies_example :
    Justifies whole two_mountpoints "B1" "B2" none
      (resolve_mountpoint whole two_mountpoints "B1" "B2" none)
resolve_mountpoint-Justifies_example =
    resolve_mountpoint-Justifies whole two_mountpoints "B1" "B2" none
