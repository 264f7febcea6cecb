-- ===== src/Onboard/Authorized.antt =====
-- Who gets a credential.
use corshub.Prelude.{
  ℕ, ◌≡◌, refl, inl, inr, Bool, Option, none, some, String, List, [], ◌∷◌, ◌++◌, string_eq, All,
  All-append, List-cases, Option-cases,
}
use corshub.Dict.{Dict}
use corshub.Onboard.Values.{Yaml, or_empty, Loaded, loaded, duplicate, load_strict}
use corshub.Onboard.{entries, ChangeSet, detect_changes, update, Attempt}
use corshub.Onboard.Effects.{
  invalid_values, rejected, problems, issued, Effect, post_comment, sops_set, write_fingerprints,
  Entry, entry_eq, File, Document, undecrypted, no_yaml, document, process_both, with_role,
  to_process, process_changes, changes_of, process_values, read_file, plan, plan_loaded, onboard,
}
use corshub.Onboard.Entitled.{Keys, Entitled, IsEntitled, detect_changes-IsEntitled, update-Keys}
use corshub.Onboard.Allowed.{Allowed, process_entries-Allowed, perform-Allowed}

-- The entry is entitled to a credential, by the values that were read.
pub record IsChange (actor : String) (pr main fp : Yaml) (e : Entry) : Type 0 where
  pub theirs : Yaml
  pub ours : Yaml
  pub reads_theirs : entries pr e.0 ≡ some theirs
  pub reads_ours : entries main e.0 ≡ some ours
  pub entitled : Entitled actor theirs ours fp e.0 e.1

-- The entry is entitled by a document without duplicate keys and by files that could be read.
pub record IsAuthorized (actor : String) (d : Document) (main fingerprints : File) (e : Entry)
    : Type 0 where
  pub source : Yaml
  pub pr : Yaml
  pub ours : Yaml
  pub fp : Yaml
  pub is_source : d ≡ document source
  pub loads : load_strict source ≡ loaded pr
  pub reads_main : read_file main ≡ some ours
  pub reads_fingerprints : read_file fingerprints ≡ some fp
  pub is_change : IsChange actor (or_empty pr) ours fp e

module _ (actor : String) where
  module _ (pr main fp : Yaml) where
    abbrev P : Entry → Type 0
    P e = IsChange actor pr main fp e

    -- The change set of a role holds entitled users only.
    abbrev IsOf : String → Option ChangeSet → Type 0
    IsOf role none = Unit
    IsOf role (some cs) = Keys (λ u. P (role, u)) cs.new × Keys (λ u. P (role, u)) cs.rotation

    changes-IsChange :
        (theirs ours : Yaml) (role : String) (d : Dict String Yaml)
        → entries pr role ≡ some theirs
        → entries main role ≡ some ours
        → Keys (λ u. Entitled actor theirs ours fp role u) d
        → Keys (λ u. P (role, u)) d
    changes-IsChange theirs ours role [] a b h = tt
    changes-IsChange theirs ours role ((u, v) ∷ d) a b h = (
      record { theirs = theirs; ours = ours; reads_theirs = a; reads_ours = b; entitled = h.0 },
      changes-IsChange theirs ours role d a b h.1,
    )

    changes_of-IsOf : (role : String) → IsOf role (changes_of actor pr main fp role)
    changes_of-IsOf role = elim (Option-cases (entries pr role)) [
      | inl a ↦ rw a tt
      | inr (theirs, a) ↦ elim (Option-cases (entries main role)) [
        | inl b ↦ rw (a, b) tt
        | inr (ours, b) ↦
            rw (a, b)
              (go theirs ours a b (detect_changes actor theirs ours fp role)
                (detect_changes-IsEntitled actor theirs ours fp role))
      ]
    ]
      where
        go :
            (theirs ours : Yaml)
            → entries pr role ≡ some theirs
            → entries main role ≡ some ours
            → (o : Option ChangeSet) → IsEntitled actor theirs ours fp role o
            → IsOf role o
        go theirs ours a b none h = tt
        go theirs ours a b (some cs) h = (
          changes-IsChange theirs ours role cs.new a b h.0,
          changes-IsChange theirs ours role cs.rotation a b h.1,
        )

    with_role-Keys :
        (role : String) (d : Dict String Yaml)
        → Keys (λ u. P (role, u)) d
        → All P (with_role role d)
    unfolding with_role
    with_role-Keys role [] h = tt
    with_role-Keys role ((u, v) ∷ d) h = (h.0, with_role-Keys role d h.1)

    to_process-IsOf :
        (stations rovers : ChangeSet)
        → IsOf "base_stations" (some stations)
        → IsOf "rovers" (some rovers)
        → All P (to_process stations rovers)
    unfolding to_process
    to_process-IsOf stations rovers h k =
        All-append P (with_role "base_stations" (update stations.new stations.rotation))
          (with_role "rovers" (update rovers.new rovers.rotation))
          (with_role-Keys "base_stations" (update stations.new stations.rotation)
            (update-Keys (λ u. P ("base_stations", u)) stations.new stations.rotation h.0 h.1))
          (with_role-Keys "rovers" (update rovers.new rovers.rotation)
            (update-Keys (λ u. P ("rovers", u)) rovers.new rovers.rotation k.0 k.1))

    process_changes-Allowed :
        (attempts : String → String → Attempt) (stations rovers : ChangeSet)
        → IsOf "base_stations" (some stations)
        → IsOf "rovers" (some rovers)
        → All (Allowed actor P) (process_changes actor attempts fp stations rovers).effects
    unfolding process_changes
    process_changes-Allowed attempts stations rovers h k =
        elim (List-cases (stations.tampered ++ rovers.tampered)) [
          | inl q ↦
              rw (q, process_changes)
                (process_entries-Allowed actor P attempts fp (to_process stations rovers)
                  (to_process-IsOf stations rovers h k))
          | inr (t, ts, q) ↦ rw (q, process_changes) (tt, tt)
        ]

    process_both-Allowed :
        (attempts : String → String → Attempt) (s r : Option ChangeSet)
        → IsOf "base_stations" s
        → IsOf "rovers" r
        → All (Allowed actor P) (process_both actor attempts fp s r).effects
    unfolding process_both
    process_both-Allowed attempts none r h k = tt
    process_both-Allowed attempts (some stations) none h k = tt
    process_both-Allowed attempts (some stations) (some rovers) h k =
        process_changes-Allowed attempts stations rovers h k

    process_values-Allowed :
        (attempts : String → String → Attempt)
        → All (Allowed actor P) (process_values actor attempts pr main fp).effects
    unfolding process_values
    process_values-Allowed attempts =
        process_both-Allowed attempts (changes_of actor pr main fp "base_stations")
          (changes_of actor pr main fp "rovers") (changes_of-IsOf "base_stations")
          (changes_of-IsOf "rovers")

  module _ (P Q : Entry → Type 0) (f : (e : Entry) → P e → Q e) where
    Allowed-map : (x : Effect) → Allowed actor P x → Allowed actor Q x
    Allowed-map (post_comment (issued role username cred)) h = f (role, username) h
    Allowed-map (post_comment (invalid_values _)) h = tt
    Allowed-map (post_comment (rejected _)) h = tt
    Allowed-map (post_comment (problems _)) h = tt
    Allowed-map (write_fingerprints _) h = tt
    Allowed-map (sops_set path value) (role, username, q, h) =
        (role, username, q, f (role, username) h)

    All-Allowed : (xs : List Effect) → All (Allowed actor P) xs → All (Allowed actor Q) xs
    All-Allowed [] h = tt
    All-Allowed (x ∷ xs) h = (Allowed-map x h.0, All-Allowed xs h.1)

  plan-Allowed :
      (repr : String → String) (attempts : String → String → Attempt) (d : Document)
      (main fingerprints : File)
      → All
          (Allowed actor (IsAuthorized actor d main fingerprints))
          (plan actor repr attempts d main fingerprints).effects
  unfolding plan
  plan-Allowed repr attempts undecrypted main fingerprints = tt
  plan-Allowed repr attempts (no_yaml exc) main fingerprints = (tt, tt)
  plan-Allowed repr attempts (document source) main fingerprints =
      go (load_strict source) refl (read_file main) refl (read_file fingerprints) refl
    where
      go :
          (l : Loaded Yaml)
          → load_strict source ≡ l
          → (m : Option Yaml) → read_file main ≡ m
          → (f : Option Yaml) → read_file fingerprints ≡ f
          → All
              (Allowed actor (IsAuthorized actor (document source) main fingerprints))
              (plan_loaded actor repr attempts l m f).effects
      go (duplicate key) a m b f c = (tt, tt)
      go (loaded pr) a none b f c = tt
      go (loaded pr) a (some ours) b none c = tt
      go (loaded pr) a (some ours) b (some fp) c =
          All-Allowed (IsChange actor (or_empty pr) ours fp)
            (IsAuthorized actor (document source) main fingerprints)
            (λ e q. record {
              source = source;
              pr = pr;
              ours = ours;
              fp = fp;
              is_source = refl;
              loads = a;
              reads_main = b;
              reads_fingerprints = c;
              is_change = q;
            })
            (process_values actor attempts (or_empty pr) ours fp).effects
            (process_values-Allowed (or_empty pr) ours fp attempts)

  -- Whatever git, sops, age, ssh-keygen and GitHub answer and whichever effect fails, the script
  -- stores a hash or posts a credential only for an entry of the pull request's values, which have no
  -- duplicate key: an entry that has no hash there and that either is absent from the values of main
  -- or is recorded as the actor's in the fingerprints file.
  pub onboard-Authorized :
      (fails : ℕ → Bool) (repr : String → String) (attempts : String → String → Attempt)
      (d : Document) (main fingerprints : File)
      → All
          (Allowed actor (IsAuthorized actor d main fingerprints))
          (onboard fails actor repr attempts d main fingerprints).effects
  unfolding onboard
  onboard-Authorized fails repr attempts d main fingerprints =
      perform-Allowed actor (IsAuthorized actor d main fingerprints) fails 0
        (plan actor repr attempts d main fingerprints).effects
        (plan actor repr attempts d main fingerprints).ending
        (plan-Allowed repr attempts d main fingerprints)
