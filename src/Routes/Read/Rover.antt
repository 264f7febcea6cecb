-- ===== src/Routes/Read/Rover.antt =====
-- Which rovers are served.
use corshub.Prelude.{
  ℕ, ◌≡◌, refl, inl, inr, Bool, true, false, Option, none, some, String, Bool-cases, Option-cases,
  arith, string_eq,
}
use corshub.Dict
use corshub.Float.{Float}
use corshub.Geodesy.{haversine}
use corshub.Mountpoint.{Mountpoint}
use corshub.Headers.{Readers, parse_ntrip_gga}
use corshub.Caster.{NtripCaster, available}
use corshub.Caster.Authentication.{Services, authenticate_rover, Grants}
use corshub.Caster.Access.{authenticate_rover-Grants}
use corshub.RateLimit.{TtlCache, Limits}
use corshub.Routes.{
  same_lower, Status, bad_request, unauthorized, rate_limited, not_found, enforce_auth_rate_limit,
}
use corshub.Routes.Read.{
  ReadRequest, Reading, turned_away, reading, check_mask, check_position, read_mountpoint,
  read_authenticated, read_credentials, stream_mountpoint,
}

module _ (fl : Float) (r : Readers fl) where
  -- The position is acceptable: none is asked for, or one is given and there is no mask, or its
  -- distance from the mountpoint's coordinates does not exceed the mask.
  pub data IsNearby (mp : Mountpoint fl) (gga : Option String) : Type 0 where
    unasked : mp.nmea ≡ false → IsNearby mp gga
    unmasked :
        (position : fl.F × fl.F)
        → parse_ntrip_gga fl r gga ≡ some position
        → fl.lt (fl.literal 0) mp.mask ≡ false
        → IsNearby mp gga
    within :
        (lat lon mp_lat mp_lon : fl.F)
        → parse_ntrip_gga fl r gga ≡ some (lat, lon)
        → mp.latitude ≡ some mp_lat
        → mp.longitude ≡ some mp_lon
        → fl.lt mp.mask (haversine fl mp_lat mp_lon lat lon) ≡ false
        → IsNearby mp gga

  -- What a decision on a rover's request means.
  pub data Serves (s : Services) (opa : Bool) (c : NtripCaster fl) (m : String)
      (q : ReadRequest fl r) : Reading fl r → Type 0 where
    refuses : (status : Status) → Serves s opa c m q (turned_away status)
    serves :
        (mp : Mountpoint fl) (username password : String) (seconds : Option ℕ)
        → q.credentials ≡ some (username, password)
        → same_lower q.ntrip_version "Ntrip/2.0" ≡ true
        → Grants s.checkpw password (
            s.post "corshub/rover"
              record { username = username; mountpoint = m; transport_available = none })
        → seconds ≡ (authenticate_rover s opa username password m).0.1
        → Dict.get c.mountpoints m ≡ some mp
        → available fl c m ≡ true
        → IsNearby mp q.gga
        → Serves s opa c m q (reading m seconds)

  check_mask-IsNearby :
      (mp : Mountpoint fl) (gga : Option String) (lat lon : fl.F)
      → parse_ntrip_gga fl r gga ≡ some (lat, lon)
      → check_mask fl r mp (lat, lon) ≡ none
      → IsNearby mp gga
  unfolding check_mask
  check_mask-IsNearby mp gga lat lon e h = elim (Bool-cases (fl.lt (fl.literal 0) mp.mask)) [
    | inr q ↦ unmasked (lat, lon) e q
    | inl q ↦ elim (Option-cases mp.latitude) [
      | inl a ↦ absurd (ground (arith, q, a, h))
      | inr (mp_lat, a) ↦ elim (Option-cases mp.longitude) [
        | inl b ↦ absurd (ground (arith, q, a, b, h))
        | inr (mp_lon, b) ↦ within lat lon mp_lat mp_lon e a b (ground (arith, q, a, b, h))
      ]
    ]
  ]

  check_position-IsNearby :
      (mp : Mountpoint fl) (gga : Option String)
      → check_position fl r mp gga ≡ none
      → IsNearby mp gga
  unfolding check_position
  check_position-IsNearby mp gga h = elim (Bool-cases mp.nmea) [
    | inr q ↦ unasked q
    | inl q ↦ elim (Option-cases (parse_ntrip_gga fl r gga)) [
      | inl e ↦ absurd (ground (arith, q, e, h))
      | inr ((lat, lon), e) ↦ check_mask-IsNearby mp gga lat lon e (ground (arith, q, e, h))
    ]
  ]

  module _ (s : Services) (opa : Bool) (c : NtripCaster fl) (m : String)
      (q : ReadRequest fl r) where
    mountpoint-Serves :
        (username password : String)
        → q.credentials ≡ some (username, password)
        → same_lower q.ntrip_version "Ntrip/2.0" ≡ true
        → (authenticate_rover s opa username password m).0.0 ≡ true
        → Serves s opa c m q
            (read_mountpoint fl r c m q.gga (authenticate_rover s opa username password m).0.1)
    unfolding read_mountpoint
    mountpoint-Serves username password e version auth =
        elim (Option-cases (Dict.get c.mountpoints m)) [
          | inl a ↦ rw (a, read_mountpoint) (refuses not_found)
          | inr (mp, a) ↦ elim (Bool-cases (available fl c m)) [
            | inr b ↦ rw (a, b, read_mountpoint) (refuses not_found)
            | inl b ↦ elim (Option-cases (check_position fl r mp q.gga)) [
              | inr (status, d) ↦ rw (a, b, d, read_mountpoint) (refuses status)
              | inl d ↦
                  rw (a, b, d, read_mountpoint)
                    (serves mp username password _ e version
                      (((authenticate_rover-Grants s username password m opa).0.0 auth).1) refl a b
                      (check_position-IsNearby mp q.gga d))
            ]
          ]
        ]

    authenticated-Serves :
        (username password : String)
        → q.credentials ≡ some (username, password)
        → same_lower q.ntrip_version "Ntrip/2.0" ≡ true
        → Serves s opa c m q (read_authenticated fl r s opa c m q.gga (username, password))
    unfolding read_authenticated
    authenticated-Serves username password e version =
        elim (Bool-cases (authenticate_rover s opa username password m).0.0) [
          | inr a ↦ rw (a, read_authenticated) (refuses unauthorized)
          | inl a ↦ rw (a, read_authenticated) (mountpoint-Serves username password e version a)
        ]

    module _ (cache : TtlCache) where
      credentials-Serves :
          (one : ℕ) (limits : Option Limits) (store : cache.Store) (now : ℕ)
          (o : Option (String × String))
          → q.credentials ≡ o
          → same_lower q.ntrip_version "Ntrip/2.0" ≡ true
          → Serves s opa c m q (read_credentials fl r cache s opa one limits store c now m q o).1
      unfolding read_credentials
      credentials-Serves one limits store now none e version = refuses unauthorized
      credentials-Serves one limits store now (some (username, password)) e version =
          elim (Bool-cases (enforce_auth_rate_limit cache one limits store now q.client).1) [
            | inr a ↦ rw (a, read_credentials) (refuses rate_limited)
            | inl a ↦ rw (a, read_credentials) (authenticated-Serves username password e version)
          ]

      -- A rover gets the stream of a mountpoint only with the protocol's version, with credentials
      -- that the policy server grants for this mountpoint, when the mountpoint is registered and
      -- available, and, where the mountpoint asks for a position, with one that does not exceed the
      -- mask; the limit on its session is the one of the authentication.
      pub stream_mountpoint-Serves :
          (one : ℕ) (limits : Option Limits) (store : cache.Store) (now : ℕ)
          → Serves s opa c m q (stream_mountpoint fl r cache s opa one limits store c now m q).1
      unfolding stream_mountpoint
      stream_mountpoint-Serves one limits store now =
          elim (Bool-cases (same_lower q.ntrip_version "Ntrip/2.0")) [
            | inr a ↦ rw (a, stream_mountpoint) (refuses bad_request)
            | inl a ↦
                rw (a, stream_mountpoint)
                  (credentials-Serves one limits store now q.credentials refl a)
          ]
