-- ===== src/Caster/Authentication.antt =====
-- Authentication: `authenticate_base_station` and `authenticate_rover` of `NTRIPCaster`
-- (src/corshub/ntrip/v2/caster.py), `OPAClient.query` of src/corshub/opa/client.py and `verify` of
-- src/corshub/crypto/secrets.py. The policy server's answers and `bcrypt.checkpw` are parameters.
use corshub.Prelude.{
  ℕ, ◌≡◌, Bool, true, false, not, ◌&&◌, Option, none, some, String, List, [], ◌∷◌, ◌==◌,
  if◌then◌else◌, string_eq,
}
use corshub.Float.{Float}
use corshub.Mountpoint.{is_empty}
use corshub.Caster.{NtripCaster, available}

-- The `result` object of a policy: whether its `allow` counts as true, and the two values that are
-- read of it.
pub record Answer : Type 0 where
  pub allow : Bool
  pub password_hash : Option String
  pub max_session_seconds : Option ℕ

-- What comes of a POST: an exception on the way, in time or in the decoding of the body; or a status
-- and the body's `result`, if it has one.
pub data Response : Type 0 where
  failed : Response
  answered : ℕ → Option Answer → Response

pub record Input : Type 0 where
  pub username : String
  pub mountpoint : String
  pub transport_available : Option Bool

-- The policy server behind a client's session, and bcrypt, which may raise.
pub record Services : Type 0 where
  pub post : String → Input → Response
  pub checkpw : String → String → Option Bool

-- The empty dict.
abbrev pub no_answer : Answer
no_answer = record { allow = false; password_hash = none; max_session_seconds = none }

-- `OPAClient.query`
unfoldable pub query : (String → Input → Response) → String → Input → Answer
query post policy input = elim (post policy input) [
  | failed ↦ no_answer
  | answered status body ↦
      if not (status == 200)
      then no_answer
      else elim body [ none ↦ no_answer | some answer ↦ answer ]
]

-- `secrets.verify`
unfoldable pub verify : (String → String → Option Bool) → String → String → Bool
verify checkpw provided stored_hash = elim (checkpw provided stored_hash) [
  | none ↦ false
  | some b ↦ b
]

-- One report to `auth_requests_total`.
pub data AuthReport : Type 0 where
  auth_request : String → String → AuthReport

abbrev pub outcome : Bool → String
outcome allowed = if allowed then "success" else "failure"

-- `bool(stored_hash) and await secrets.verify(password, stored_hash)`
unfoldable pub check_hash : (String → String → Option Bool) → String → Option String → Bool
unfolding verify
check_hash checkpw password none = false
check_hash checkpw password (some stored_hash) =
    not (is_empty stored_hash) && verify checkpw password stored_hash

module _ (fl : Float) where
  unfoldable pub authenticate_base_station :
      Services → Bool → NtripCaster fl → String → String → String → Bool × List AuthReport
  unfolding query check_hash
  authenticate_base_station s opa c username password mountpoint =
      if not opa
      then (false, [])
      else let result = query s.post "corshub/base_station" record {
        username = username;
        mountpoint = mountpoint;
        transport_available = some (available fl c mountpoint);
      } in
        if not result.allow
        then (false, auth_request "base_station" "failure" ∷ [])
        else let allowed = check_hash s.checkpw password result.password_hash in
          (allowed, auth_request "base_station" (outcome allowed) ∷ [])

-- Whether the rover is let in, and the bound on its session.
unfoldable pub authenticate_rover :
    Services → Bool → String → String → String → (Bool × Option ℕ) × List AuthReport
unfolding query check_hash
authenticate_rover s opa username password mountpoint =
    if not opa
    then ((false, none), [])
    else let result =
        query s.post "corshub/rover"
          record { username = username; mountpoint = mountpoint; transport_available = none } in
      if not result.allow
      then ((false, none), auth_request "rover" "failure" ∷ [])
      else let allowed = check_hash s.checkpw password result.password_hash in
        ((allowed, result.max_session_seconds), auth_request "rover" (outcome allowed) ∷ [])

-- The policy server answers with status 200 and allows, with a hash that is not empty and that bcrypt
-- matches with the password.
abbrev pub Grants : (String → String → Option Bool) → String → Response → Type 0
Grants checkpw password response =
    (stored_hash : String) × (seconds : Option ℕ) × (response
      ≡ answered 200 (
          some record {
            allow = true;
            password_hash = some stored_hash;
            max_session_seconds = seconds;
          }))
    × (is_empty stored_hash ≡ false)
    × (checkpw password stored_hash ≡ some true)
