-- ===== src/Tests/Access.antt =====
-- Tests of the authentication.
use corshub.Prelude.{◌≡◌, true, some, [], ◌∷◌}
use mathlib.Core.Logic.{◌↔◌}
use corshub.Caster.{available}
use corshub.Caster.Authentication.{auth_request, outcome, authenticate_base_station, Grants}
use corshub.Caster.Access.{authenticate_base_station-Grants}
use corshub.Tests.Toys.{generous, whole, new_caster}

authenticate_base_station-Grants_example :
    (((authenticate_base_station whole generous true new_caster "B1" "pw" "B1").0 ≡ true) ↔ (
      (true ≡ true)
      × Grants generous.checkpw "pw" (
          generous.post "corshub/base_station" record {
            username = "B1";
            mountpoint = "B1";
            transport_available = some (available whole new_caster "B1");
          })))
    × ((authenticate_base_station whole generous true new_caster "B1" "pw" "B1").1
        ≡ auth_request "base_station"
            (outcome (authenticate_base_station whole generous true new_caster "B1" "pw" "B1").0)
          ∷ [])
authenticate_base_station-Grants_example =
    authenticate_base_station-Grants whole generous true new_caster "B1" "pw" "B1"
