-- ===== src/Onboard/Allowed.antt =====
-- What the effects of a run are for, by a predicate on the entries that are processed.
use corshub.Prelude.{
  ℕ, suc, ◌≡◌, refl, inl, inr, Bool, Option, none, some, String, List, [], ◌∷◌, map, string_eq, All,
  All-append, Bool-cases, Option-cases,
}
use corshub.Onboard.Values.{Yaml}
use corshub.Onboard.{Attempt, Generated, credential, problem, raised, generate_credential, ◌>>=◌}
use corshub.Onboard.Effects.{
  invalid_values, rejected, problems, issued, Effect, post_comment, sops_set, write_fingerprints,
  Ending, hash_path, Entry, entry_eq, record_owner, Results, store_hashes, issue, publish, report,
  generate_all, collect, report_generated, process_entries, perform,
}
use corshub.Onboard.Entitled.{Keys, set-Keys}

module _ (actor : String) where
  -- What a run may do: a hash or a credential only for an entry for which `P` holds.
  module _ (P : Entry → Type 0) where
    abbrev pub Allowed : Effect → Type 0
    Allowed (post_comment (issued role username cred)) = P (role, username)
    Allowed (post_comment (invalid_values _)) = Unit
    Allowed (post_comment (rejected _)) = Unit
    Allowed (post_comment (problems _)) = Unit
    Allowed (write_fingerprints _) = Unit
    Allowed (sops_set path value) =
        (role username : String) × (path ≡ hash_path role username) × P (role, username)

    issue-Allowed : (results : Results) → Keys P results → All Allowed (map issue results)
    issue-Allowed [] h = tt
    issue-Allowed (r ∷ results) h = (h.0, issue-Allowed results h.1)

    store_hashes-Allowed :
        (results : Results) (fp : Yaml)
        → Keys P results
        → All Allowed (store_hashes actor results fp).0
    unfolding store_hashes
    store_hashes-Allowed [] fp h = tt
    store_hashes-Allowed (((role, username), cred) ∷ results) fp h =
        elim (Option-cases (record_owner actor role username cred.fingerprints fp)) [
          | inl q ↦ rw (q, store_hashes) ((role, username, refl, h.0), tt)
          | inr (fp', q) ↦
              rw (q, store_hashes)
                ((role, username, refl, h.0), store_hashes-Allowed results fp' h.1)
        ]

    publish-Allowed :
        (results : Results) (fp : Yaml)
        → Keys P results
        → All Allowed (publish actor results fp).effects
    unfolding publish
    publish-Allowed results fp h = elim (Option-cases (store_hashes actor results fp).1) [
      | inl q ↦ rw (q, publish) (store_hashes-Allowed results fp h)
      | inr (fp', q) ↦
          rw (q, publish)
            (All-append Allowed (store_hashes actor results fp).0
              (write_fingerprints fp' ∷ map issue results) (store_hashes-Allowed results fp h)
              (tt, issue-Allowed results h))
    ]

    report-Allowed :
        (fp : Yaml) (errors : List String) (results : Results)
        → Keys P results
        → All Allowed (report actor fp errors results).effects
    unfolding report
    report-Allowed fp [] results h = publish-Allowed results fp h
    report-Allowed fp (e ∷ errors) [] h = (tt, tt)
    report-Allowed fp (e ∷ errors) (r ∷ results) h = (tt, publish-Allowed (r ∷ results) fp h)

    abbrev GeneratedKeys : Option (List String × Results) → Type 0
    GeneratedKeys none = Unit
    GeneratedKeys (some (errors, results)) = Keys P results

    collect-Keys :
        (g : Generated) (e : Entry) (errors : List String) (results : Results)
        → P e
        → Keys P results
        → GeneratedKeys (collect g e errors results)
    unfolding collect
    collect-Keys raised e errors results h k = tt
    collect-Keys (problem m) e errors results h k = k
    collect-Keys (credential cred) e errors results h k = set-Keys P results e cred h k

    bind-Keys :
        (o : Option (List String × Results))
        (f : List String × Results → Option (List String × Results))
        → ((r : List String × Results) → Keys P r.1 → GeneratedKeys (f r))
        → GeneratedKeys o
        → GeneratedKeys (o >>= f)
    bind-Keys none f h k = tt
    bind-Keys (some r) f h k = h r k

    generate_all-Keys :
        (attempts : String → String → Attempt) (es : List Entry) (errors : List String)
        (results : Results)
        → All P es
        → Keys P results
        → GeneratedKeys (generate_all actor attempts es errors results)
    unfolding generate_all
    generate_all-Keys attempts [] errors results h k = k
    generate_all-Keys attempts ((role, username) ∷ es) errors results h k =
        let g : Generated = generate_credential actor (attempts role username) username role in
        bind-Keys (collect g (role, username) errors results)
          (λ (more, found). generate_all actor attempts es more found)
          (λ (more, found) q. generate_all-Keys attempts es more found h.1 q)
          (collect-Keys g (role, username) errors results h.0 k)

    report_generated-Allowed :
        (fp : Yaml) (o : Option (List String × Results))
        → GeneratedKeys o
        → All Allowed (report_generated actor fp o).effects
    unfolding report_generated
    report_generated-Allowed fp none k = tt
    report_generated-Allowed fp (some (errors, results)) k = report-Allowed fp errors results k

    pub process_entries-Allowed :
        (attempts : String → String → Attempt) (fp : Yaml) (es : List Entry)
        → All P es
        → All Allowed (process_entries actor attempts fp es).effects
    unfolding process_entries
    process_entries-Allowed attempts fp [] h = tt
    process_entries-Allowed attempts fp (e ∷ es) h =
        report_generated-Allowed fp (generate_all actor attempts (e ∷ es) [] [])
          (generate_all-Keys attempts (e ∷ es) [] [] h tt)

    pub perform-Allowed :
        (fails : ℕ → Bool) (n : ℕ) (es : List Effect) (ending : Ending)
        → All Allowed es
        → All Allowed (perform fails n es ending).effects
    unfolding perform
    perform-Allowed fails n [] ending h = tt
    perform-Allowed fails n (e ∷ es) ending h = elim (Bool-cases (fails n)) [
      | inl q ↦ rw q tt
      | inr q ↦ rw q (h.0, perform-Allowed fails (suc n) es ending h.1)
    ]
