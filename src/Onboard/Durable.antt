-- ===== src/Onboard/Durable.antt =====
-- In which order hashes are stored and credentials are posted, and what tampering does.
use corshub.Prelude.{
  ℕ, suc, ◌≡◌, refl, sym, ◌∙◌, inl, inr, Bool, true, false, Option, none, some, String, List, [],
  ◌∷◌, ◌++◌, map, All, Any, Bool-cases, Option-cases, List-cases,
}
use mathlib.Core.Option.{none-ne-some}
use corshub.Onboard.Values.{Yaml, Loaded, loaded, duplicate, load_strict, or_empty}
use corshub.Onboard.{ChangeSet, Credential, Attempt}
use corshub.Onboard.Effects.{
  invalid_values, rejected, problems, issued, Effect, post_comment, sops_set, write_fingerprints,
  Ending, Run, hash_path, Entry, File, Document, undecrypted, no_yaml, document, record_owner,
  Results, store_hashes, issue, publish, report, generate_all, report_generated, to_process,
  process_entries, process_changes, changes_of, process_both, process_values, read_file, plan,
  plan_loaded, perform, onboard,
}

abbrev Store : Type 0
Store = List String × String

abbrev pub StoredIn : List Store → Store → Type 0
StoredIn stored x = Any (λ y. y ≡ x) stored

-- A credential is posted only when its hash is stored and the fingerprints are written; `stored` and
-- `written` are what was done before.
abbrev pub Durable : List Store → Bool → List Effect → Type 0
Durable stored written [] = Unit
Durable stored written (sops_set path value ∷ es) = Durable ((path, value) ∷ stored) written es
Durable stored written (write_fingerprints _ ∷ es) = Durable stored true es
Durable stored written (post_comment (issued role username cred) ∷ es) =
    StoredIn stored (hash_path role username, cred.pw_hash)
    × (written ≡ true)
    × Durable stored written es
Durable stored written (post_comment (invalid_values _) ∷ es) = Durable stored written es
Durable stored written (post_comment (rejected _) ∷ es) = Durable stored written es
Durable stored written (post_comment (problems _) ∷ es) = Durable stored written es

-- One effect, and what comes after it.
cons-Durable :
    (e : Effect) (es fs : List Effect) (stored : List Store) (written : Bool)
    → ((s : List Store) (w : Bool) → Durable s w es → Durable s w fs)
    → Durable stored written (e ∷ es)
    → Durable stored written (e ∷ fs)
cons-Durable (sops_set path value) es fs stored written f h = f ((path, value) ∷ stored) written h
cons-Durable (write_fingerprints _) es fs stored written f h = f stored true h
cons-Durable (post_comment (issued role username cred)) es fs stored written f (a, b, h) =
    (a, b, f stored written h)
cons-Durable (post_comment (invalid_values _)) es fs stored written f h = f stored written h
cons-Durable (post_comment (rejected _)) es fs stored written f h = f stored written h
cons-Durable (post_comment (problems _)) es fs stored written f h = f stored written h

perform-Durable :
    (fails : ℕ → Bool) (n : ℕ) (es : List Effect) (ending : Ending) (stored : List Store)
    (written : Bool)
    → Durable stored written es
    → Durable stored written (perform fails n es ending).effects
unfolding perform
perform-Durable fails n [] ending stored written h = tt
perform-Durable fails n (e ∷ es) ending stored written h = elim (Bool-cases (fails n)) [
  | inl q ↦ rw (q, perform) tt
  | inr q ↦
      rw (q, perform)
        (cons-Durable e es (perform fails (suc n) es ending).effects stored written
          (perform-Durable fails (suc n) es ending) h)
]

abbrev hash_of : Entry × Credential → Store
hash_of ((role, username), cred) = (hash_path role username, cred.pw_hash)

issue-Durable :
    (results : Results) (stored : List Store)
    → All (λ r. StoredIn stored (hash_of r)) results
    → Durable stored true (map issue results)
issue-Durable [] stored h = tt
issue-Durable (((role, username), cred) ∷ results) stored h =
    (h.0, refl, issue-Durable results stored h.1)

store_hashes-Durable :
    (actor : String) (results : Results) (fp : Yaml) (stored : List Store)
    → Durable stored false (store_hashes actor results fp).0
unfolding store_hashes
store_hashes-Durable actor [] fp stored = tt
store_hashes-Durable actor (((role, username), cred) ∷ results) fp stored =
    elim (Option-cases (record_owner actor role username cred.fingerprints fp)) [
      | inl q ↦ rw (q, store_hashes) tt
      | inr (fp', q) ↦
          rw (q, store_hashes)
            (store_hashes-Durable actor results fp' (hash_of ((role, username), cred) ∷ stored))
    ]

-- When every owner could be recorded, what follows finds every hash stored.
store_hashes-Durable_onto :
    (actor : String) (results : Results) (fp : Yaml) (fp_last : Yaml) (rest : List Effect)
    (stored : List Store)
    → (store_hashes actor results fp).1 ≡ some fp_last
    → ((after : List Store)
        → ((x : Store) → StoredIn stored x → StoredIn after x)
        → All (λ r. StoredIn after (hash_of r)) results
        → Durable after false rest)
    → Durable stored false ((store_hashes actor results fp).0 ++ rest)
unfolding store_hashes
store_hashes-Durable_onto actor [] fp fp_last rest stored e h = h stored (λ x q. q) tt
store_hashes-Durable_onto actor (((role, username), cred) ∷ results) fp fp_last rest stored e h =
    elim (Option-cases (record_owner actor role username cred.fingerprints fp)) [
      | inl q ↦ absurd (none-ne-some fp_last (sym (rw (q, store_hashes) refl) ∙ e))
      | inr (fp', q) ↦
          let new : Store = hash_of ((role, username), cred) in
          rw (q, store_hashes)
            (store_hashes-Durable_onto actor results fp' fp_last rest (new ∷ stored)
              (sym (rw (q, store_hashes) refl) ∙ e)
              (λ after sub all. h after (λ x k. sub x (inr k)) (sub new (inl refl), all)))
    ]

publish-Durable :
    (actor : String) (results : Results) (fp : Yaml)
    → Durable [] false (publish actor results fp).effects
unfolding publish
publish-Durable actor results fp = elim (Option-cases (store_hashes actor results fp).1) [
  | inl q ↦ rw (q, publish) (store_hashes-Durable actor results fp [])
  | inr (fp', q) ↦
      rw (q, publish)
        (store_hashes-Durable_onto actor results fp fp' (write_fingerprints fp' ∷ map issue results)
          [] q (λ after sub all. issue-Durable results after all))
]

report-Durable :
    (actor : String) (fp : Yaml) (errors : List String) (results : Results)
    → Durable [] false (report actor fp errors results).effects
unfolding report
report-Durable actor fp [] results = publish-Durable actor results fp
report-Durable actor fp (e ∷ errors) [] = tt
report-Durable actor fp (e ∷ errors) (r ∷ results) = publish-Durable actor (r ∷ results) fp

process_entries-Durable :
    (actor : String) (attempts : String → String → Attempt) (fp : Yaml) (es : List Entry)
    → Durable [] false (process_entries actor attempts fp es).effects
unfolding process_entries report_generated
process_entries-Durable actor attempts fp [] = tt
process_entries-Durable actor attempts fp (e ∷ es) = go (generate_all actor attempts (e ∷ es) [] [])
  where
    go :
        (o : Option (List String × Results))
        → Durable [] false (report_generated actor fp o).effects
    go none = tt
    go (some (errors, results)) = report-Durable actor fp errors results

process_both-Durable :
    (actor : String) (attempts : String → String → Attempt) (fp : Yaml) (s r : Option ChangeSet)
    → Durable [] false (process_both actor attempts fp s r).effects
unfolding process_both process_changes
process_both-Durable actor attempts fp none r = tt
process_both-Durable actor attempts fp (some stations) none = tt
process_both-Durable actor attempts fp (some stations) (some rovers) =
    elim (List-cases (stations.tampered ++ rovers.tampered)) [
      | inl q ↦
          rw (q, process_changes)
            (process_entries-Durable actor attempts fp (to_process stations rovers))
      | inr (t, ts, q) ↦ rw (q, process_changes) tt
    ]

plan_loaded-Durable :
    (actor : String) (repr : String → String) (attempts : String → String → Attempt)
    (l : Loaded Yaml) (main fp : Option Yaml)
    → Durable [] false (plan_loaded actor repr attempts l main fp).effects
unfolding plan_loaded process_values
plan_loaded-Durable actor repr attempts (duplicate key) main fp = tt
plan_loaded-Durable actor repr attempts (loaded pr) none fp = tt
plan_loaded-Durable actor repr attempts (loaded pr) (some main) none = tt
plan_loaded-Durable actor repr attempts (loaded pr) (some main) (some fp) =
    process_both-Durable actor attempts fp (changes_of actor (or_empty pr) main fp "base_stations")
      (changes_of actor (or_empty pr) main fp "rovers")

plan-Durable :
    (actor : String) (repr : String → String) (attempts : String → String → Attempt) (d : Document)
    (main fingerprints : File)
    → Durable [] false (plan actor repr attempts d main fingerprints).effects
unfolding plan
plan-Durable actor repr attempts undecrypted main fingerprints = tt
plan-Durable actor repr attempts (no_yaml exc) main fingerprints = tt
plan-Durable actor repr attempts (document d) main fingerprints =
    plan_loaded-Durable actor repr attempts (load_strict d) (read_file main)
      (read_file fingerprints)

-- Whichever effect fails, at the time a credential is posted its hash is stored and the fingerprints
-- are written.
pub onboard-Durable :
    (fails : ℕ → Bool) (actor : String) (repr : String → String)
    (attempts : String → String → Attempt) (d : Document) (main fingerprints : File)
    → Durable [] false (onboard fails actor repr attempts d main fingerprints).effects
unfolding onboard
onboard-Durable fails actor repr attempts d main fingerprints =
    let planned : Run = plan actor repr attempts d main fingerprints in
    perform-Durable fails 0 planned.effects planned.ending [] false
      (plan-Durable actor repr attempts d main fingerprints)
