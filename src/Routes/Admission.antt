-- ===== src/Routes/Admission.antt =====
-- Who is admitted to publish.
use corshub.Prelude.{
  ℕ, ◌≡◌, refl, ◌∙◌, Bool, true, Option, none, some, String, Bool-cases, inl, inr, string_eq,
  same_refl,
}
use corshub.Float.{Float}
use corshub.Mountpoint.{Metadata, Mountpoint}
use corshub.Caster.{NtripCaster, Result, ok, raise, available, register}
use corshub.Caster.Authentication.{Services, authenticate_base_station, Grants}
use corshub.Caster.Access.{authenticate_base_station-Grants}
use corshub.Caster.Registry.{IsCaster, Holds, register-IsCaster}
use corshub.Caster.Opening.{Registers, register-Registers}
use corshub.RateLimit.{TtlCache, Limits}
use corshub.Routes.{
  same_lower, Status, bad_request, unauthorized, rate_limited, enforce_auth_rate_limit, PutRequest,
  Decision, refused, admitted, metadata_of, admit_described, admit_authenticated, admit_credentials,
  admit_put,
}

module _ (fl : Float) where
  -- The meaning of a decision on a request of a station: refused, it leaves the caster as it was.
  pub data Admits (s : Services) (opa : Bool) (c : NtripCaster fl) (m : String) (r : PutRequest fl)
      : NtripCaster fl × Decision fl → Type 0 where
    refuses : (status : Status) → Admits s opa c m r (c, refused status)
    admits :
        (d : NtripCaster fl) (username password : String)
        → r.credentials ≡ some (username, password)
        → same_lower r.ntrip_version "Ntrip/2.0" ≡ true
        → same_lower r.content_type "gnss/data" ≡ true
        → Grants s.checkpw password (
            s.post "corshub/base_station" record {
              username = username;
              mountpoint = m;
              transport_available = some (available fl c m);
            })
        → IsCaster fl d
        → available fl d m ≡ true
        → Admits s opa c m r (d, admitted)

  register-available :
      (c : NtripCaster fl) (now : ℕ) (m : String) (k : Metadata fl)
      → IsCaster fl c
      → Holds fl (λ r. IsCaster fl r.0 × (available fl r.0 m ≡ true)) (register fl c now m k)
  register-available c now m k v =
      go (register fl c now m k) (register-IsCaster fl c now m k v)
        (register-Registers fl c now m k v)
    where
      go :
          (r : Result (NtripCaster fl × Mountpoint fl))
          → Holds fl (λ a. IsCaster fl a.0) r
          → Registers fl c now m k r
          → Holds fl (λ a. IsCaster fl a.0 × (available fl a.0 m ≡ true)) r
      go (ok a) w o = (w, o.available m ∙ rw (same_refl m) refl)
      go (raise e) w o = tt

  admit_described-Admits :
      (s : Services) (opa : Bool) (c : NtripCaster fl) (now : ℕ) (m : String) (r : PutRequest fl)
      (username password : String) (o : Option (Metadata fl))
      → IsCaster fl c
      → r.credentials ≡ some (username, password)
      → same_lower r.ntrip_version "Ntrip/2.0" ≡ true
      → same_lower r.content_type "gnss/data" ≡ true
      → (authenticate_base_station fl s opa c username password m).0 ≡ true
      → Admits s opa c m r (admit_described fl c now m o)
  unfolding admit_described
  admit_described-Admits s opa c now m r username password none v e version content auth =
      refuses bad_request
  admit_described-Admits s opa c now m r username password (some k) v e version content auth =
      go (register fl c now m k) (register-available c now m k v)
    where
      go :
          (q : Result (NtripCaster fl × Mountpoint fl))
          → Holds fl (λ a. IsCaster fl a.0 × (available fl a.0 m ≡ true)) q
          → Admits s opa c m r
              (elim q [ raise _ ↦ (c, refused bad_request) | ok (d, _) ↦ (d, admitted) ])
      go (ok (d, mp)) (w, there) =
          admits d username password e version content
            (((authenticate_base_station-Grants fl s opa c username password m).0.0 auth).1) w there
      go (raise x) h = refuses bad_request

  authenticated-Admits :
      (s : Services) (opa : Bool) (c : NtripCaster fl) (now : ℕ) (m : String) (r : PutRequest fl)
      (username password : String)
      → IsCaster fl c
      → r.credentials ≡ some (username, password)
      → same_lower r.ntrip_version "Ntrip/2.0" ≡ true
      → same_lower r.content_type "gnss/data" ≡ true
      → Admits s opa c m r (admit_authenticated fl s opa c now m r (username, password))
  unfolding admit_authenticated
  authenticated-Admits s opa c now m r username password v e version content =
      elim (Bool-cases (authenticate_base_station fl s opa c username password m).0) [
        | inl a ↦
            rw (a, admit_authenticated)
              (admit_described-Admits s opa c now m r username password
                (metadata_of fl r.description) v e version content a)
        | inr a ↦ rw (a, admit_authenticated) (refuses unauthorized)
      ]

  module _ (cache : TtlCache) where
    credentials-Admits :
        (s : Services) (opa : Bool) (one : ℕ) (limits : Option Limits) (store : cache.Store)
        (c : NtripCaster fl) (now : ℕ) (m : String) (r : PutRequest fl)
        (o : Option (String × String))
        → IsCaster fl c
        → r.credentials ≡ o
        → same_lower r.ntrip_version "Ntrip/2.0" ≡ true
        → same_lower r.content_type "gnss/data" ≡ true
        → Admits s opa c m r (admit_credentials fl cache s opa one limits store c now m r o).1
    unfolding admit_credentials
    credentials-Admits s opa one limits store c now m r none v e a b = refuses unauthorized
    credentials-Admits s opa one limits store c now m r (some (username, password)) v e a b =
        elim (Bool-cases (enforce_auth_rate_limit cache one limits store now r.client).1) [
          | inr q ↦ rw (q, admit_credentials) (refuses rate_limited)
          | inl q ↦
              rw (q, admit_credentials)
                (authenticated-Admits s opa c now m r username password v e a b)
        ]

    -- A station is admitted only with the two headers that the protocol asks for and with credentials
    -- that the policy server grants for the mountpoint as it is available at that time; then the
    -- mountpoint is available and the registry's invariant holds. A station that is refused leaves
    -- the caster as it was.
    pub admit_put-Admits :
        (s : Services) (opa : Bool) (one : ℕ) (limits : Option Limits) (store : cache.Store)
        (c : NtripCaster fl) (now : ℕ) (m : String) (r : PutRequest fl)
        → IsCaster fl c
        → Admits s opa c m r (admit_put fl cache s opa one limits store c now m r).1
    unfolding admit_put
    admit_put-Admits s opa one limits store c now m r v =
        elim (Bool-cases (same_lower r.ntrip_version "Ntrip/2.0")) [
          | inr a ↦ rw (a, admit_put) (refuses bad_request)
          | inl a ↦ elim (Bool-cases (same_lower r.content_type "gnss/data")) [
            | inr b ↦ rw (a, b, admit_put) (refuses bad_request)
            | inl b ↦
                rw (a, b, admit_put)
                  (credentials-Admits s opa one limits store c now m r r.credentials v refl a b)
          ]
        ]
