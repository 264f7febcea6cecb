-- ===== src/Caster/Access.antt =====
-- Authentication fails closed: who is let in, and for how long.
use corshub.Prelude.{
  ℕ, ◌≡◌, refl, sym, Bool, true, false, ◌&&◌, Option, none, some, String, [], ◌∷◌, ◌==◌,
  if◌then◌else◌, string_eq, arith, Option-cases, inl, inr,
}
use mathlib.Core.Logic.{◌↔◌}
use corshub.Float.{Float}
use corshub.Caster.{NtripCaster, available}
use corshub.Caster.Authentication.{
  Response, failed, answered, Services, query, verify, check_hash, auth_request, outcome,
  authenticate_base_station, authenticate_rover, Grants,
}

-- What both methods decide of a response.
accepts : (String → String → Option Bool) → String → Response → Bool
unfolding query
accepts checkpw password r =
    let result =
      query (λ _ _. r) "" record { username = ""; mountpoint = ""; transport_available = none } in
    if result.allow then check_hash checkpw password result.password_hash else false

accepts_sound :
    (checkpw : String → String → Option Bool) (password : String) (r : Response)
    → accepts checkpw password r ≡ true
    → Grants checkpw password r
unfolding accepts query check_hash verify
accepts_sound checkpw password failed h = ground arith
accepts_sound checkpw password (answered status none) h = ground arith
accepts_sound checkpw password (answered status (some a)) h = elim (Option-cases a.password_hash) [
  | inl e ↦ ground (arith, e)
  | inr (stored_hash, e) ↦
      let ok : status ≡ 200 = ground (arith, e) in
      let allowed : a.allow ≡ true = ground (arith, e) in
      (
        stored_hash,
        a.max_session_seconds,
        rw (ok, sym allowed, sym e),
        ground (arith, e),
        ground (arith, e),
      )
]

accepts_complete :
    (checkpw : String → String → Option Bool) (password : String) (r : Response)
    → Grants checkpw password r
    → accepts checkpw password r ≡ true
unfolding accepts query check_hash verify
accepts_complete checkpw password r (stored_hash, seconds, e, full, matched) =
    rw e (ground (arith, full, matched))

accepts-Grants :
    (checkpw : String → String → Option Bool) (password : String) (opa : Bool) (r : Response)
    → ((opa && accepts checkpw password r) ≡ true) ↔ ((opa ≡ true) × Grants checkpw password r)
accepts-Grants checkpw password true r = (
  λ h. (refl, accepts_sound checkpw password r h),
  λ (_, g). accepts_complete checkpw password r g,
)
accepts-Grants checkpw password false r = (λ h. ground arith, λ (h, _). ground arith)

module _ (fl : Float) where
  allowed-authenticate_base_station :
      (s : Services) (opa : Bool) (c : NtripCaster fl) (username password mountpoint : String)
      → (authenticate_base_station fl s opa c username password mountpoint).0 ≡ (
          opa
          && accepts s.checkpw password (
              s.post "corshub/base_station" record {
                username = username;
                mountpoint = mountpoint;
                transport_available = some (available fl c mountpoint);
              }))
  unfolding authenticate_base_station accepts query check_hash verify
  allowed-authenticate_base_station s opa c username password mountpoint = ground arith

  reports-authenticate_base_station :
      (s : Services) (opa : Bool) (c : NtripCaster fl) (username password mountpoint : String)
      → (authenticate_base_station fl s opa c username password mountpoint).1 ≡ (
          if opa
          then auth_request "base_station"
              (outcome (authenticate_base_station fl s opa c username password mountpoint).0)
            ∷ []
          else [])
  unfolding authenticate_base_station
  reports-authenticate_base_station s opa c username password mountpoint = ground arith

  -- A base station is let in exactly if there is a policy client and the server, asked for this
  -- user, this mountpoint and whether the mountpoint is available now, grants it. An attempt at the
  -- server is reported once, as a success exactly if the station is let in.
  pub authenticate_base_station-Grants :
      (s : Services) (opa : Bool) (c : NtripCaster fl) (username password mountpoint : String)
      → (((authenticate_base_station fl s opa c username password mountpoint).0 ≡ true) ↔ (
          (opa ≡ true)
          × Grants s.checkpw password (
              s.post "corshub/base_station" record {
                username = username;
                mountpoint = mountpoint;
                transport_available = some (available fl c mountpoint);
              })))
        × ((authenticate_base_station fl s opa c username password mountpoint).1 ≡ (
            if opa
            then auth_request "base_station"
                (outcome (authenticate_base_station fl s opa c username password mountpoint).0)
              ∷ []
            else []))
  authenticate_base_station-Grants s opa c username password mountpoint = (
    rw (allowed-authenticate_base_station s opa c username password mountpoint)
        (accepts-Grants s.checkpw password opa _),
    reports-authenticate_base_station s opa c username password mountpoint,
  )

allowed-authenticate_rover :
    (s : Services) (opa : Bool) (username password mountpoint : String)
    → (authenticate_rover s opa username password mountpoint).0.0 ≡ (
        opa
        && accepts s.checkpw password (
            s.post "corshub/rover"
              record { username = username; mountpoint = mountpoint; transport_available = none }))
unfolding authenticate_rover accepts query check_hash verify
allowed-authenticate_rover s opa username password mountpoint = ground arith

-- The bound that a response sets on a session.
abbrev pub imposed : Response → Option ℕ
imposed failed = none
imposed (answered status none) = none
imposed (answered status (some a)) =
    if status == 200 && a.allow then a.max_session_seconds else none

-- A rover is let in exactly if there is a policy client and the server, asked for this user and this
-- mountpoint, grants it, and the bound on its session is the one that an allowing answer sets.
pub authenticate_rover-Grants :
    (s : Services) (username password mountpoint : String) (opa : Bool)
    → (((authenticate_rover s opa username password mountpoint).0.0 ≡ true) ↔ (
        (opa ≡ true)
        × Grants s.checkpw password (
            s.post "corshub/rover"
              record { username = username; mountpoint = mountpoint; transport_available = none })))
      × ((authenticate_rover s opa username password mountpoint).0.1 ≡ (
          if opa
          then imposed (
              s.post "corshub/rover"
                record { username = username; mountpoint = mountpoint; transport_available = none })
          else none))
unfolding authenticate_rover query
authenticate_rover-Grants s username password mountpoint opa = (
  rw (allowed-authenticate_rover s opa username password mountpoint)
      (accepts-Grants s.checkpw password opa _),
  ground arith,
)
