-- ===== src/Tests/Account.antt =====
-- Tests of the token of the service account.
use corshub.Prelude.{ℕ, ◌≡◌, refl, All, Option, none, some, [], ◌∷◌, arith}
use corshub.ServiceAccount.{
  Configuration, Payload, TokenData, SlotCache, init, asks, arrives, register,
}
use corshub.ServiceAccount.Handed.{IsSlot, IsFresh, handed, handed-IsFresh}

-- One place, which keeps what is stored.
abbrev place : SlotCache
place = record {
  Store = Option TokenData;
  empty = none;
  get = λ s now. s;
  set = λ s t found. some found;
}

place-IsSlot : IsSlot place
place-IsSlot = record {
  get-empty = λ now. refl;
  get-set = λ s t now stored found e. ground (arith, e);
}

abbrev account : Configuration
account = record {
  aud = "api";
  token_endpoint = "https://issuer/token";
  client_id = "corshub";
  username = "caster";
  password = "secret";
}

abbrev answer : Payload
answer = record { access_token = some "T1"; expires_in = some 300 }

abbrev Anything : ℕ → Payload → Type 0
Anything arrived payload = payload.expires_in ≡ some 300

-- A call with nothing cached, its answer, a call that is served, and one in the last minute.
served :
    handed place (init place account) (asks 1000 ∷ arrives 1001 answer ∷ asks 1200 ∷ asks 1241 ∷ [])
    ≡ (1001, some "T1") ∷ (1200, some "T1") ∷ []
unfolding handed
served = refl

-- A second registration forgets the token.
forgets :
    (register
      (record {
        token_manager = none;
        sa_token_manager =
            some (record { configuration = account; store = some (some "T1", 1241) });
      })
      account).sa_token_manager
    ≡ some (init place account)
unfolding register
forgets = refl

handed-IsFresh_example : All (IsFresh place Anything) (
    handed place
      (init place account)
      (asks 1000 ∷ arrives 1001 answer ∷ asks 1200 ∷ asks 1241 ∷ []))
handed-IsFresh_example =
    handed-IsFresh place Anything place-IsSlot account
      (asks 1000 ∷ arrives 1001 answer ∷ asks 1200 ∷ asks 1241 ∷ []) (tt, (refl, (tt, (tt, tt))))
