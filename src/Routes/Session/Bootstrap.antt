-- ===== src/Routes/Session/Bootstrap.antt =====
-- From the route that mints a token to the session on the UDP side.
use corshub.Prelude.{
  ℕ, ◌+◌, ◌<◌, ◌≤◌, ◌≡◌, refl, ◌∙◌, Bool, true, false, not, Option, none, some, String, [], ◌∷◌,
  ◌++◌, if◌then◌else◌, same, same_refl, string_eq, nat_eq, ◌==◌, arith, Bool-cases, inl, inr,
}
use corshub.Dict
use corshub.Float.{Float}
use corshub.Mountpoint.{is_empty}
use corshub.Caster.Authentication.{Services, authenticate_rover, Grants}
use corshub.Caster.Access.{authenticate_rover-Grants}
use corshub.RateLimit.{TtlCache, Limits}
use corshub.Tokens.{Jwt, audience, issue_session_token, verify_session_token}
use corshub.Tokens.Laws.{IsJwt}
use corshub.Udp.{is_wildcard, resolve_mountpoint, resolve_named, resolved}
use corshub.Udp.Sessions.{Address, Session, Server, Wire, hello_ack, is_nearest, send, run_hello}
use corshub.Routes.{
  Status, bad_request, unauthorized, rate_limited, not_found, server_error, enforce_auth_rate_limit,
}
use corshub.Routes.Session.{
  RtcmConfig, JsonBody, malformed, not_object, object, SessionRequest, Answer, denied, minted, mint,
  mint_limited, mint_for, mint_with, create_session,
}

module _ (jwt : Jwt) (s : Services) (opa : Bool) (config : RtcmConfig) (kid : Option String)
    (now : ℕ) where
  -- What an answer of the route means.
  pub data Mints (q : SessionRequest) : Answer → Type 0 where
    denies : (status : Status) → Mints q (denied status)
    mints :
        (username password mountpoint : String)
        → config.enabled ≡ true
        → q.credentials ≡ some (username, password)
        → q.body ≡ object (some mountpoint)
        → is_empty mountpoint ≡ false
        → Grants s.checkpw password (
            s.post "corshub/rover"
              record { username = username; mountpoint = mountpoint; transport_available = none })
        → Mints q (
            minted record {
              token =
                  issue_session_token jwt now config.token_secret username mountpoint
                    config.token_ttl;
              udp_endpoint = config.udp_endpoint;
              signing_kid = kid;
            })

  module _ (q : SessionRequest) (enabled : config.enabled ≡ true) where
    mint-Mints :
        (username password mountpoint : String)
        → q.credentials ≡ some (username, password)
        → q.body ≡ object (some mountpoint)
        → is_empty mountpoint ≡ false
        → Mints q (mint jwt s opa config kid now (username, password) mountpoint)
    unfolding mint
    mint-Mints username password mountpoint a b c =
        elim (Bool-cases (authenticate_rover s opa username password mountpoint).0.0) [
          | inr d ↦ rw (d, mint) (denies unauthorized)
          | inl d ↦
              rw (d, mint)
                (mints username password mountpoint enabled a b c
                  (((authenticate_rover-Grants s username password mountpoint opa).0.0 d).1))
        ]

    mint_for-Mints :
        (cache : TtlCache) (one : ℕ) (limits : Option Limits) (store : cache.Store) (monotonic : ℕ)
        (username password : String) (body : JsonBody)
        → q.credentials ≡ some (username, password)
        → q.body ≡ body
        → Mints q
            (mint_for cache jwt s opa config kid one limits store monotonic now q.client
              (username, password)
              body).1
    unfolding mint_for mint_limited
    mint_for-Mints cache one limits store monotonic username password malformed a b =
        denies bad_request
    mint_for-Mints cache one limits store monotonic username password not_object a b =
        denies server_error
    mint_for-Mints cache one limits store monotonic username password (object none) a b =
        denies bad_request
    mint_for-Mints cache one limits store monotonic username password (object (some mountpoint)) a
          b =
        elim (Bool-cases (is_empty mountpoint)) [
          | inl c ↦ rw (c, mint_for) (denies bad_request)
          | inr c ↦
              elim (Bool-cases
                (enforce_auth_rate_limit cache one limits store monotonic q.client).1) [
                  | inr d ↦ rw (c, d, mint_for, mint_limited) (denies rate_limited)
                  | inl d ↦
                      rw (c, d, mint_for, mint_limited)
                        (mint-Mints username password mountpoint a b c)
                ]
        ]

    mint_with-Mints :
        (cache : TtlCache) (one : ℕ) (limits : Option Limits) (store : cache.Store) (monotonic : ℕ)
        (credentials : Option (String × String))
        → q.credentials ≡ credentials
        → Mints q
            (mint_with cache jwt s opa config kid one limits store monotonic now q.client
              credentials q.body).1
    unfolding mint_with
    mint_with-Mints cache one limits store monotonic none a = denies unauthorized
    mint_with-Mints cache one limits store monotonic (some (username, password)) a =
        mint_for-Mints cache one limits store monotonic username password q.body a refl

  -- A token is minted only if the egress is enabled, for the user of the credentials and for the
  -- mountpoint of the body, which is not empty and which the policy server grants to the user.
  pub create_session-Mints :
      (cache : TtlCache) (one : ℕ) (limits : Option Limits) (store : cache.Store) (monotonic : ℕ)
      (q : SessionRequest)
      → Mints q (create_session cache jwt s opa config kid one limits store monotonic now q).1
  unfolding create_session
  create_session-Mints cache one limits store monotonic q = go config.enabled refl
    where
      go :
          (b : Bool)
          → config.enabled ≡ b
          → Mints q
              (if not b
                then (store, denied not_found)
                else mint_with cache jwt s opa config kid one limits store monotonic now q.client
                    q.credentials q.body).1
      go true e = mint_with-Mints q e cache one limits store monotonic q.credentials refl
      go false e = denies not_found

-- The mountpoint that the UDP server reads of a token at a time.
abbrev pub claimed_at : Jwt → ℕ → String → String → Option String
claimed_at jwt at secret token = elim (verify_session_token jwt at token secret) [
  | none ↦ none
  | some c ↦ some c.mountpoint
]

claimed_at-issue :
    (jwt : Jwt) (now at : ℕ) (secret username mountpoint : String) (ttl : ℕ)
    → IsJwt jwt
    → now ≤ at
    → at < now + ttl
    → claimed_at jwt at secret (issue_session_token jwt now secret username mountpoint ttl)
      ≡ some mountpoint
unfolding issue_session_token verify_session_token
claimed_at-issue jwt now at secret username mountpoint ttl law h k =
    rw
      (
        law.decode-encode at now secret
            record {
              sub = username;
              mountpoint = mountpoint;
              aud = audience;
              iat = some now;
              exp = now + ttl;
            }
            refl h k,
        claimed_at,
      )
      refl

module _ (fl : Float) where
  resolve_mountpoint_named :
      (v : Server fl) (m : String)
      → is_wildcard m ≡ false
      → Dict.contains v.caster.mountpoints m ≡ true
      → resolve_mountpoint fl v.caster.mountpoints m m none ≡ resolved m
  unfolding resolve_mountpoint resolve_named is_wildcard
  resolve_mountpoint_named v m h k = ground (arith, same_refl m)

  -- The session of a rover on one mountpoint, which is all that its token allows.
  abbrev issued : Server fl → ℕ → ℕ → Address → String → Session
  issued v monotonic drawn addr m = record {
    session_id = drawn;
    mountpoint = m;
    addr = addr;
    expiry = monotonic + v.session_ttl;
    scope = m;
    dynamic = false;
    seq = 0;
    task = some v.tasks;
  }

  -- The server once the rover has got its session: it is stored under the number that is drawn, in a
  -- place and with a task of its own, the other sessions are kept, and the hello is acknowledged.
  pub record HasSession (v : Server fl) (monotonic drawn : ℕ) (addr : Address) (m : String)
      (d : Server fl) : Type 0 where
    pub sessions :
        (k : ℕ)
        → Dict.get d.sessions k ≡ (if same drawn k then some v.allocated else Dict.get v.sessions k)
    pub heap :
        (j : ℕ)
        → d.heap j ≡ (if v.allocated == j then issued v monotonic drawn addr m else v.heap j)
    pub places : d.allocated ≡ v.allocated + 1
    pub tasks : d.tasks ≡ v.tasks + 1
    pub acknowledged : d.sent ≡ v.sent ++ hello_ack addr drawn m ∷ []

  is_nearest_named : (m : String) → is_wildcard m ≡ false → is_nearest fl m ≡ false
  unfolding is_wildcard is_nearest
  is_nearest_named m h = ground arith

  -- A rover whose token was minted for a registered mountpoint, which is neither of the wildcards, and
  -- that asks for this mountpoint before the token expires, gets a session: it is stored under the
  -- number that is drawn, stands on this mountpoint with this scope, does not follow the nearest
  -- one, expires after the time to live and has a task of its own; the other sessions are kept, and
  -- its hello is acknowledged. Tokens are read by the server as the verification of jwt reads them.
  pub run_hello-issue :
      (jwt : Jwt) (w : Wire fl) (v : Server fl) (monotonic drawn : ℕ) (addr : Address) (now at : ℕ)
      (secret username m : String) (ttl : ℕ)
      → IsJwt jwt
      → ((token : String) → w.claimed token ≡ claimed_at jwt at secret token)
      → now ≤ at
      → at < now + ttl
      → is_wildcard m ≡ false
      → Dict.contains v.caster.mountpoints m ≡ true
      → HasSession v monotonic drawn addr m (
          run_hello fl w v monotonic drawn addr
            (issue_session_token jwt now secret username m ttl)
            m
            none)
  unfolding run_hello send
  run_hello-issue jwt w v monotonic drawn addr now at secret username m ttl law read h k p q =
      let token : String = issue_session_token jwt now secret username m ttl in
      let claimed : w.claimed token ≡ some m =
        read token ∙ claimed_at-issue jwt now at secret username m ttl law h k in
      rw (claimed, run_hello)
        (rw (resolve_mountpoint_named v m p q) record {
          sessions = λ j. Dict.get-set v.sessions drawn j v.allocated;
          heap = λ j. rw (is_nearest_named m p) refl;
          places = refl;
          tasks = refl;
          acknowledged = refl;
        })
