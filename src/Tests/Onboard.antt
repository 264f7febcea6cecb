-- ===== src/Tests/Onboard.antt =====
-- Tests of the onboarding bot.
use corshub.Prelude.{◌≡◌, refl, false, none, some, String, [], ◌∷◌, All, ℕ}
use corshub.Dict
use corshub.Onboard.Values.{truth, Yaml, null, mapping, Pairs, no_pairs, pair, load_strict}
use corshub.Onboard.{Attempt, answer}
use corshub.Onboard.Effects.{post_comment, rejected, Run, document, missing, contents, onboard}
use corshub.Onboard.Allowed.{Allowed}
use corshub.Onboard.Authorized.{IsAuthorized, onboard-Authorized}
use corshub.Onboard.Durable.{Durable, onboard-Durable}
use corshub.Onboard.Loaded.{LoadsAs, load_strict-LoadsAs}

-- A user with an Ed25519 key and another key.
abbrev attempt : Attempt
attempt = record {
  github_keys = answer (some "ssh-ed25519 AAAA" ∷ some "ecdsa-sha2 BBBB" ∷ none ∷ []);
  token = "token";
  hashpw = λ token. "$2b$12$";
  age_encrypt = λ token keys. answer "-----BEGIN AGE";
  ssh_keygen = λ key. (0, "256" ∷ "SHA256:CCCC" ∷ []);
}

abbrev attempts : String → String → Attempt
attempts role username = attempt

abbrev repr : String → String
repr key = key

-- A station without a hash, of the file's shape.
abbrev stations : Pairs → Yaml
stations entry = mapping (
    pair "opa"
      (mapping (
        pair "registry"
          (mapping
            (pair "base_stations" (mapping (pair "HERE4" (mapping entry) no_pairs)) no_pairs))
          no_pairs))
      no_pairs)

abbrev pr : Yaml
pr = stations no_pairs

-- What is done for a new station: its hash is stored first, its credential is posted last.
abbrev effects_of : Run → ℕ
effects_of run = elim run.effects [
  | [] ↦ 0
  | _ ∷ es ↦ elim es [ [] ↦ 1 | _ ∷ fs ↦ elim fs [ [] ↦ 2 | _ ∷ _ ↦ 3 ] ]
]

new_station :
    effects_of (onboard (λ n. false) "ana" repr attempts (document pr) missing missing) ≡ 3
unfolding onboard truth Dict.set
new_station = refl

-- A station of main that nobody is recorded for is no one's to rotate.
tampered_station :
    (onboard (λ n. false) "ana" repr attempts (document pr) (contents pr) missing).effects
    ≡ post_comment (rejected ("`HERE4` (base_stations)" ∷ [])) ∷ []
unfolding onboard truth
tampered_station = refl

onboard-Authorized_example :
    All
      (Allowed "ana" (IsAuthorized "ana" (document pr) missing missing))
      (onboard (λ n. false) "ana" repr attempts (document pr) missing missing).effects
onboard-Authorized_example =
    onboard-Authorized "ana" (λ n. false) repr attempts (document pr) missing missing

onboard-Durable_example :
    Durable [] false
      (onboard (λ n. false) "ana" repr attempts (document pr) missing missing).effects
onboard-Durable_example =
    onboard-Durable (λ n. false) "ana" repr attempts (document pr) missing missing

abbrev twice : Yaml
twice = mapping (pair "rovers" (mapping (pair "R1" null (pair "R1" null no_pairs))) no_pairs)

load_strict-LoadsAs_example : LoadsAs twice (load_strict twice)
load_strict-LoadsAs_example = load_strict-LoadsAs twice
