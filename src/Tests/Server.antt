-- ===== src/Tests/Server.antt =====
-- Tests of the UDP server.
use corshub.Prelude.{◌≡◌, refl, false, some, String, List, [], ◌∷◌, string_eq, nat_eq}
use corshub.Dict
use corshub.Dict.{Dict}
use corshub.Udp.{scope_allows, is_wildcard}
use corshub.Udp.Sessions.{Session, hello, Server, Wire, decimal, decimal_of}
use corshub.Udp.Authorized.{IsAuthorized}
use corshub.Udp.Histories.{Event, receives, runs, reaps, pumps, run, run-IsAuthorized}
use corshub.Tests.Toys.{whole, new_caster}

-- Every datagram is a hello for the nearest mountpoint, and every token is good for any.
abbrev pub open_wire : Wire whole
open_wire = record {
  decode = λ bytes. some (7, hello "token" "NEAREST" (some (51, 3)));
  claimed = λ token. some "*";
  sign = λ mountpoint now bytes. record { payload = bytes; signature = now ∷ [] };
  size = λ session_id seq signed. 100;
}

abbrev a_session : Session
a_session = record {
  session_id = 7;
  mountpoint = "B1";
  addr = ("10.0.0.1", 5000);
  expiry = 30;
  scope = "*";
  dynamic = false;
  seq = 0;
  task = some 0;
}

abbrev pub a_server : Server whole
a_server = record {
  caster = new_caster;
  session_ttl = 30;
  max_datagram = 1200;
  sessions = (7, 0) ∷ [];
  heap = λ i. a_session;
  allocated = 1;
  tasks = 1;
  cancelled = [];
  jobs = [];
  signed_cache = [];
  sent = [];
}

-- The one token that is given.
abbrev IsToken : String → Type 0
IsToken token = token ≡ "token"

a_server-IsAuthorized : IsAuthorized whole open_wire IsToken a_server
unfolding scope_allows is_wildcard
a_server-IsAuthorized i = (("token", refl, refl), refl)

abbrev some_events : List (Event whole)
some_events =
    receives 1 [] ("10.0.0.2", 5000) ∷ runs 2 99 ∷ pumps 3 0 0 (4, 1 ∷ 2 ∷ []) ∷ reaps 40 ∷ []

run-IsAuthorized_example :
    IsAuthorized whole open_wire IsToken (run whole open_wire a_server some_events)
run-IsAuthorized_example =
    run-IsAuthorized whole open_wire IsToken a_server some_events (refl, (tt, (tt, (tt, tt)))) tt
      a_server-IsAuthorized

get-a_server : Dict.get a_server.sessions 7 ≡ some 0
unfolding Dict.get
get-a_server = refl

decimal_4096 : decimal 4096 ≡ "4096"
unfolding decimal_of
decimal_4096 = refl
