-- ===== src/Onboard.antt =====
-- The onboarding bot, .github/scripts/onboard.py: which entries of ops/values.yaml get a credential,
-- and in which order the hashes are stored and the comments are posted. What git, sops, age, bcrypt,
-- ssh-keygen and GitHub answer is a parameter; what the script does to them is a list of effects.
pub mod Values
pub mod Effects
pub mod Entitled
pub mod Allowed
pub mod Authorized
pub mod Durable
pub mod Loaded
use corshub.Prelude.{
  ℕ, Bool, true, false, not, ◌&&◌, ◌||◌, Option, none, some, String, List, [], ◌∷◌, ◌++◌, map,
  if◌then◌else◌, same, string_eq, ◌==◌,
}
use corshub.Dict
use corshub.Dict.{Dict}
use corshub.Strings.{starts_with, begins, join}
use corshub.Onboard.Values.{
  Yaml, null, text, other, sequence, mapping, Items, Pairs, no_pairs, pair, get_or, empty_dict,
  or_empty, is_text, is_in,
}

infixl 5 ◌>>=◌
abbrev pub ◌>>=◌ {ℓ κ} : {A : Type ℓ} {B : Type κ} → Option A → (A → Option B) → Option B
◌>>=◌ none f = none
◌>>=◌ (some a) f = f a

-- The entries of a role: `none` is an exception.
unfoldable pub entries : Yaml → String → Option Yaml
unfolding get_or
entries values role = do
  opa ← get_or values "opa" empty_dict
  registry ← get_or opa "registry" empty_dict
  users ← get_or (or_empty registry) role empty_dict
  some (or_empty users)

unfoldable pub pinned_owner : Yaml → String → String → Option Yaml
unfolding get_or
pinned_owner fp_data role username = do
  users ← get_or fp_data role empty_dict
  entry ← get_or users username empty_dict
  get_or entry "github_user" null

pub record ChangeSet : Type 0 where
  pub new : Dict String Yaml
  pub rotation : Dict String Yaml
  pub tampered : List String

abbrev pub no_changes : ChangeSet
no_changes = record { new = []; rotation = []; tampered = [] }

module _ (actor : String) where
  abbrev tampered_label : String → String → String
  tampered_label username role = join "" ("`" ∷ username ∷ "` (" ∷ role ∷ ")" ∷ [])

  -- An entry of main that has lost its hash.
  unfoldable pub add_rotation : Yaml → String → String → Yaml → ChangeSet → Option ChangeSet
  unfolding pinned_owner join
  add_rotation fp_data role username entry cs = do
    owner ← pinned_owner fp_data role username
    some (
        if is_text owner actor
        then record cs { rotation = Dict.set cs.rotation username entry }
        else record cs { tampered = cs.tampered ++ tampered_label username role ∷ [] })

  -- The branches on `has_hash` and `in_main`.
  unfoldable pub add_change :
      Yaml → String → String → Yaml → Bool → Bool → ChangeSet → Option ChangeSet
  unfolding add_rotation
  add_change fp_data role username entry true in_main cs = some cs
  add_change fp_data role username entry false false cs =
      some (record cs { new = Dict.set cs.new username entry })
  add_change fp_data role username entry false true cs = add_rotation fp_data role username entry cs

  unfoldable pub detect_loop : Yaml → Yaml → String → Pairs → ChangeSet → Option ChangeSet
  unfolding add_change is_in
  detect_loop main fp_data role no_pairs cs = some cs
  detect_loop main fp_data role (pair username entry rest) cs = do
    has_hash ← is_in "password_hash" entry
    in_main ← is_in username main
    changed ← add_change fp_data role username entry has_hash in_main cs
    detect_loop main fp_data role rest changed

  unfoldable pub detect_changes : Yaml → Yaml → Yaml → String → Option ChangeSet
  unfolding detect_loop
  detect_changes (mapping pr) main fp_data role = detect_loop main fp_data role pr no_changes
  detect_changes null main fp_data role = none
  detect_changes (text _) main fp_data role = none
  detect_changes (other _) main fp_data role = none
  detect_changes (sequence _) main fp_data role = none

-- `{**new, **rotation}`
unfoldable pub update : Dict String Yaml → Dict String Yaml → Dict String Yaml
update d [] = d
update d ((k, v) ∷ rest) = update (Dict.set d k v) rest

pub record Credential : Type 0 where
  pub pw_hash : String
  pub encrypted : String
  pub fingerprints : List String

-- The answers to one run of `generate_credential`: the list of GitHub's objects, by their field
-- `key`, or the message of its error; the token and its hash; the ciphertext or age's message, stripped; the
-- exit code and the words of `ssh-keygen -lf`.
pub data Answer (A : Type 0) : Type 0 where
  answer : A → Answer A
  error : String → Answer A

pub record Attempt : Type 0 where
  pub github_keys : Answer (List (Option String))
  pub token : String
  pub hashpw : String → String
  pub age_encrypt : String → List String → Answer String
  pub ssh_keygen : String → ℕ × List String

unfoldable pub fetch_ssh_keys : List (Option String) → List String
fetch_ssh_keys [] = []
fetch_ssh_keys (none ∷ data_) = fetch_ssh_keys data_
fetch_ssh_keys (some key ∷ data_) = key ∷ fetch_ssh_keys data_

-- `k.startswith(("ssh-ed25519", "ssh-rsa"))`
abbrev pub is_age_key : String → Bool
is_age_key k = starts_with k "ssh-ed25519" || starts_with k "ssh-rsa"

unfoldable pub age_keys : List String → List String
unfolding begins
age_keys [] = []
age_keys (k ∷ keys) = let rest = age_keys keys in if is_age_key k then k ∷ rest else rest

-- The second word of the output; an output of one word is an `IndexError`.
unfoldable pub key_fingerprint : ℕ × List String → Option (Option String)
key_fingerprint (returncode, []) = some none
key_fingerprint (returncode, word ∷ []) = if returncode == 0 then none else some none
key_fingerprint (returncode, word ∷ fp ∷ words) =
    if returncode == 0 then some (some fp) else some none

unfoldable pub fingerprints_of : (String → ℕ × List String) → List String → Option (List String)
unfolding key_fingerprint
fingerprints_of keygen [] = some []
fingerprints_of keygen (k ∷ keys) = do
  fp ← key_fingerprint (keygen k)
  rest ← fingerprints_of keygen keys
  some (elim fp [ none ↦ rest | some f ↦ f ∷ rest ])

-- What `generate_credential` does: a credential, a message for `errors`, or an exception.
pub data Generated : Type 0 where
  credential : Credential → Generated
  problem : String → Generated
  raised : Generated

module _ (actor : String) where
  abbrev place : String → String → String
  place username role = join "" ("[" ∷ username ∷ "] (" ∷ role ∷ "): " ∷ [])

  unfoldable pub encrypt_credential : Attempt → String → String → List String → Generated
  unfolding fingerprints_of join
  encrypt_credential a username role [] = problem (
      join "" (
        place username role
        ∷ "no ed25519 or RSA SSH keys found for @"
        ∷ actor
        ∷ ". Add one at https://github.com/settings/keys."
        ∷ []))
  encrypt_credential a username role (k ∷ keys) = elim (a.age_encrypt a.token (k ∷ keys)) [
    | error stderr ↦
        problem (join "" (place username role ∷ "age encryption failed: " ∷ stderr ∷ []))
    | answer encrypted ↦ elim (fingerprints_of a.ssh_keygen (k ∷ keys)) [
      | none ↦ raised
      | some fps ↦
          credential
            record { pw_hash = a.hashpw a.token; encrypted = encrypted; fingerprints = fps }
    ]
  ]

  unfoldable pub generate_credential : Attempt → String → String → Generated
  unfolding encrypt_credential fetch_ssh_keys age_keys join
  generate_credential a username role = elim a.github_keys [
    | error exc ↦
        problem (
          join ""
            (place username role ∷ "could not fetch SSH keys for @" ∷ actor ∷ ": " ∷ exc ∷ []))
    | answer data_ ↦ encrypt_credential a username role (age_keys (fetch_ssh_keys data_))
  ]
