-- ===== src/Onboard/Effects.antt =====
-- `main` of .github/scripts/onboard.py: its effects, in their order, up to the first that fails.
use corshub.Prelude.{
  ℕ, suc, Bool, true, ◌&&◌, Option, none, some, String, List, [], ◌∷◌, ◌++◌, map, if◌then◌else◌,
  same, string_eq, Eq, arith, same_iff, ◌↔◌, ◌≡◌,
}
use corshub.Dict
use corshub.Dict.{Dict}
use corshub.Strings.{join, strip}
use corshub.Onboard.Values.{
  Yaml, null, text, other, sequence, mapping, Items, item, no_items, no_pairs, pair, find, assign,
  or_default, or_empty, empty_dict, Loaded, loaded, duplicate, load_strict,
}
use corshub.Onboard.{
  entries, ChangeSet, detect_changes, update, Credential, Attempt, Generated, credential, problem,
  raised, generate_credential, ◌>>=◌,
}

-- A comment on the pull request.
pub data Comment : Type 0 where
  invalid_values : String → Comment
  rejected : List String → Comment
  problems : List String → Comment
  issued : String → String → Credential → Comment

pub data Effect : Type 0 where
  post_comment : Comment → Effect
  sops_set : List String → String → Effect
  write_fingerprints : Yaml → Effect

pub data Ending : Type 0 where
  finished : Ending
  exits : Ending
  raises : Ending

pub record Run : Type 0 where
  pub effects : List Effect
  pub ending : Ending

-- The path of a hash in ops/values.yaml.
abbrev pub hash_path : String → String → List String
hash_path role username = "opa" ∷ "registry" ∷ role ∷ username ∷ "password_hash" ∷ []

abbrev pub Entry : Type 0
Entry = String × String

-- Tuples are equal when their parts are.
abbrev pub same_entry : Entry → Entry → Bool
same_entry a b = same a.0 b.0 && same a.1 b.1

pub same_entry_iff : (a b : Entry) → (same_entry a b ≡ true) ↔ (a ≡ b)
same_entry_iff (r, u) (s, v) = ground (arith, same_iff r s, same_iff u v)

instance abbrev pub entry_eq : Eq Entry
entry_eq = record { test = same_entry; test_iff = same_entry_iff }

-- A file that is read: it does not exist, or reading raises, or its value.
pub data File : Type 0 where
  missing : File
  unreadable : File
  contents : Yaml → File

-- ops/values.yaml of the pull request: sops raises, or the document is no YAML, or the document.
pub data Document : Type 0 where
  undecrypted : Document
  no_yaml : String → Document
  document : Yaml → Document

-- The texts of the comments that do not carry a credential.
module _ (actor : String) where
  unfoldable pub body : Comment → String
  unfolding join strip
  body (invalid_values exc) = join "" (
      "ops/values.yaml contains duplicate usernames: " ∷ exc
      ∷ "\n\nEach username must appear at most once under each role." ∷ [])
  body (rejected names) = join "" (
      "Rotation rejected. The following entries had `password_hash` removed but @"
      ∷ actor
      ∷ " is not their registered owner: "
      ∷ join ", " names
      ∷ ".\n\nCredential rotation must be initiated by the original owner."
      ∷ [])
  body (problems errors) = join "\n\n" errors
  body (issued role username cred) = join "" (
      "Credentials issued for `"
      ∷ username
      ∷ "` ("
      ∷ role
      ∷ ")\n\nEncrypted to the following SSH keys registered to @"
      ∷ actor
      ∷ ":\n\n"
      ∷ join "\n" (map (λ fp. join "" ("- `" ∷ fp ∷ "`" ∷ [])) cred.fingerprints)
      ∷ "\n\nRun the following to decrypt (replace `~/.ssh/your-private-key` with the matching private key):\n\n```sh\nage -d -i ~/.ssh/your-private-key <<'EOF'\n"
      ∷ strip cred.encrypted
      ∷ "\nEOF\n```\n\nStore this password securely. It will not be shown again.\nTo rotate, open a new PR using the Credential rotation template."
      ∷ [])

unfoldable pub items : List String → Items
items [] = no_items
items (s ∷ ss) = item (text s) (items ss)

-- `fp_data.setdefault(role, {})[username] = {...}`
unfoldable pub record_owner : String → String → String → List String → Yaml → Option Yaml
unfolding find assign items
record_owner actor role username fps (mapping d) = elim (or_default (find d role) empty_dict) [
  | mapping users ↦ some (
      mapping (
        assign d role (
          mapping (
            assign users username (
              mapping (
                pair "github_user" (text actor)
                  (pair "key_fingerprints" (sequence (items fps)) no_pairs)))))))
  | _ ↦ none
]
record_owner actor role username fps null = none
record_owner actor role username fps (text _) = none
record_owner actor role username fps (other _) = none
record_owner actor role username fps (sequence _) = none

abbrev pub Results : Type 0
Results = Dict Entry Credential

-- The first loop over the results: the effects, and `fp_data` after them.
unfoldable pub store_hashes : String → Results → Yaml → List Effect × Option Yaml
unfolding record_owner
store_hashes actor [] fp = ([], some fp)
store_hashes actor (((role, username), cred) ∷ results) fp =
    let store : Effect = sops_set (hash_path role username) cred.pw_hash in
    elim (record_owner actor role username cred.fingerprints fp) [
      | none ↦ (store ∷ [], none)
      | some fp' ↦ let (stores, last) = store_hashes actor results fp' in (store ∷ stores, last)
    ]

abbrev pub issue : Entry × Credential → Effect
issue ((role, username), cred) = post_comment (issued role username cred)

unfoldable pub publish : String → Results → Yaml → Run
unfolding store_hashes
publish actor results fp =
    let (stores, last) = store_hashes actor results fp in
    elim last [
      | none ↦ record { effects = stores; ending = raises }
      | some fp' ↦ record {
        effects = stores ++ write_fingerprints fp' ∷ map issue results;
        ending = finished;
      }
    ]

abbrev pub preceded : Effect → Run → Run
preceded e r = record r { effects = e ∷ r.effects }

-- From the test of `errors` on.
unfoldable pub report : String → Yaml → List String → Results → Run
unfolding publish
report actor fp [] results = publish actor results fp
report actor fp (e ∷ errors) [] = record {
  effects = post_comment (problems (e ∷ errors)) ∷ [];
  ending = exits;
}
report actor fp (e ∷ errors) (r ∷ results) =
    preceded (post_comment (problems (e ∷ errors))) (publish actor (r ∷ results) fp)

-- What a generated credential adds to `errors` and to `results`.
unfoldable pub collect : Generated → Entry → List String → Results → Option (List String × Results)
collect raised e errors results = none
collect (problem m) e errors results = some (errors ++ m ∷ [], results)
collect (credential cred) e errors results = some (errors, Dict.set results e cred)

-- The loop over `to_process`; `attempts` are the answers that each entry meets.
unfoldable pub generate_all :
    String
    → (String → String → Attempt)
    → List Entry
    → List String
    → Results
    → Option (List String × Results)
unfolding generate_credential collect
generate_all actor attempts [] errors results = some (errors, results)
generate_all actor attempts ((role, username) ∷ rest) errors results = do
  (more, found) ←
      collect (generate_credential actor (attempts role username) username role) (role, username)
        errors results
  generate_all actor attempts rest more found

-- `[(role, u) for u in d]`
unfoldable pub with_role : String → Dict String Yaml → List Entry
with_role role [] = []
with_role role ((username, _) ∷ d) = (role, username) ∷ with_role role d

unfoldable pub to_process : ChangeSet → ChangeSet → List Entry
unfolding update with_role
to_process stations rovers =
    with_role "base_stations" (update stations.new stations.rotation)
    ++ with_role "rovers" (update rovers.new rovers.rotation)

abbrev crashed : Run
crashed = record { effects = []; ending = raises }

unfoldable pub report_generated : String → Yaml → Option (List String × Results) → Run
unfolding report
report_generated actor fp none = crashed
report_generated actor fp (some (errors, results)) = report actor fp errors results

unfoldable pub process_entries : String → (String → String → Attempt) → Yaml → List Entry → Run
unfolding generate_all report_generated
process_entries actor attempts fp [] = record { effects = []; ending = finished }
process_entries actor attempts fp (e ∷ es) =
    report_generated actor fp (generate_all actor attempts (e ∷ es) [] [])

-- From the test of `all_tampered` on.
unfoldable pub process_changes :
    String → (String → String → Attempt) → Yaml → ChangeSet → ChangeSet → Run
unfolding process_entries to_process
process_changes actor attempts fp stations rovers = elim (stations.tampered ++ rovers.tampered) [
  | t ∷ ts ↦ record { effects = post_comment (rejected (t ∷ ts)) ∷ []; ending = exits }
  | [] ↦ process_entries actor attempts fp (to_process stations rovers)
]

abbrev pub changes_of : String → Yaml → Yaml → Yaml → String → Option ChangeSet
changes_of actor pr main fp role = do
  theirs ← entries pr role
  ours ← entries main role
  detect_changes actor theirs ours fp role

unfoldable pub process_both :
    String → (String → String → Attempt) → Yaml → Option ChangeSet → Option ChangeSet → Run
unfolding process_changes
process_both actor attempts fp none rovers = crashed
process_both actor attempts fp (some stations) none = crashed
process_both actor attempts fp (some stations) (some rovers) =
    process_changes actor attempts fp stations rovers

-- From the two calls of `detect_changes` on.
unfoldable pub process_values : String → (String → String → Attempt) → Yaml → Yaml → Yaml → Run
unfolding entries detect_changes process_both
process_values actor attempts pr main fp =
    process_both actor attempts fp (changes_of actor pr main fp "base_stations")
      (changes_of actor pr main fp "rovers")

-- `decrypt_main_values`, and the reading of the fingerprints: a missing file is an empty dict.
unfoldable pub read_file : File → Option Yaml
read_file missing = some empty_dict
read_file unreadable = none
read_file (contents v) = some (or_empty v)

-- From the loading of the document on.
unfoldable pub plan_loaded :
    String
    → (String → String)
    → (String → String → Attempt)
    → Loaded Yaml
    → Option Yaml
    → Option Yaml
    → Run
unfolding process_values
plan_loaded actor repr attempts (duplicate key) main fp = record {
  effects = post_comment (invalid_values (join "" ("duplicate key: " ∷ repr key ∷ []))) ∷ [];
  ending = exits;
}
plan_loaded actor repr attempts (loaded pr) none fp = crashed
plan_loaded actor repr attempts (loaded pr) (some main) none = crashed
plan_loaded actor repr attempts (loaded pr) (some main) (some fp) =
    process_values actor attempts (or_empty pr) main fp

-- The effects that `main` comes to when none of them fails. Reading comes first, and nothing that is
-- read later depends on an effect.
unfoldable pub plan :
    String → (String → String) → (String → String → Attempt) → Document → File → File → Run
unfolding load_strict read_file plan_loaded
plan actor repr attempts undecrypted main fingerprints = crashed
plan actor repr attempts (no_yaml exc) main fingerprints = record {
  effects = post_comment (invalid_values exc) ∷ [];
  ending = exits;
}
plan actor repr attempts (document d) main fingerprints =
    plan_loaded actor repr attempts (load_strict d) (read_file main) (read_file fingerprints)

-- The effects that are done: the first that fails ends the run.
unfoldable pub perform : (ℕ → Bool) → ℕ → List Effect → Ending → Run
perform fails n [] ending = record { effects = []; ending = ending }
perform fails n (e ∷ es) ending =
    let rest = perform fails (suc n) es ending in
    if fails n then record { effects = []; ending = raises } else preceded e rest

unfoldable pub onboard :
    (ℕ → Bool)
    → String
    → (String → String)
    → (String → String → Attempt)
    → Document
    → File
    → File
    → Run
unfolding plan perform
onboard fails actor repr attempts pr main fingerprints =
    let planned = plan actor repr attempts pr main fingerprints in
    perform fails 0 planned.effects planned.ending
