-- ===== src/Tests/Sessions.antt =====
-- Tests of the bootstrap of a UDP session.
use corshub.Prelude.{◌≡◌, refl, true, false, none, some, [], ◌∷◌, arith, String, string_eq}
use corshub.Dict
use corshub.Strings.{begins}
use corshub.Tokens.{KeySource, configured, unconfigured, issue_session_token, resolve_signing_key}
use corshub.Udp.{is_wildcard}
use corshub.Udp.Sessions.{Server, Wire, run_hello}
use corshub.Routes.Session.{RtcmConfig, SessionRequest, object, create_session}
use corshub.Routes.Session.Bootstrap.{
  HasSession, Mints, claimed_at, create_session-Mints, run_hello-issue,
}
use corshub.Tests.Toys.{whole, long_cache, new_caster, generous}
use corshub.Tests.Headers.{mount}
use corshub.Tests.Server.{a_server, open_wire}
use corshub.Tests.Codec.{readable, readable-IsJwt}

abbrev config : RtcmConfig
config = record {
  enabled = true;
  token_secret = "secret";
  token_ttl = 300;
  udp_endpoint = "udp.example:2102";
}

abbrev request : SessionRequest
request = record {
  credentials = some ("R1", "pw");
  client = "10.0.0.3";
  body = object (some "HERE4");
}

create_session-Mints_example :
    Mints readable generous true config
      (some "kid")
      1000
      request
      (create_session long_cache readable generous true config
        (some "kid")
        1
        (some (record { capacity = 5; refill = 1 }))
        long_cache.empty
        7
        1000
        request).1
create_session-Mints_example =
    create_session-Mints readable generous true config (some "kid") 1000 long_cache 1
      (some (record { capacity = 5; refill = 1 })) long_cache.empty 7 request

-- The server with one mountpoint, reading tokens with the secret at time 1200.
abbrev server : Server whole
server = record a_server { caster = record new_caster { mountpoints = ("HERE4", mount) ∷ [] } }

abbrev wire : Wire whole
wire = record open_wire { claimed = claimed_at readable 1200 "secret" }

run_hello-issue_example :
    HasSession whole server 50 9
      ("10.0.0.3", 4000)
      "HERE4"
      (run_hello whole wire server 50 9
        ("10.0.0.3", 4000)
        (issue_session_token readable 1000 "secret" "R1" "HERE4" 300)
        "HERE4"
        none)
unfolding is_wildcard Dict.get
run_hello-issue_example =
    run_hello-issue whole readable wire server 50 9 ("10.0.0.3", 4000) 1000 1200 "secret" "R1"
      "HERE4" 300 readable-IsJwt (λ token. refl) (omega arith) (omega arith) refl refl

-- Keys that are their own sources.
abbrev texts : KeySource String
texts = record {
  from_private_pem = λ pem. some pem;
  from_seed = λ seed. some seed;
  read_file = λ path. none;
  generate = "generated";
}

inline_first : resolve_signing_key texts (some "/key.pem") (some " seed ") true ≡ configured "seed"
unfolding resolve_signing_key begins
inline_first = refl

not_in_production : resolve_signing_key texts none (some "") false ≡ unconfigured
unfolding resolve_signing_key
not_in_production = refl
