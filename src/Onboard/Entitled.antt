-- ===== src/Onboard/Entitled.antt =====
-- What the detection of changes collects.
use corshub.Prelude.{
  ◌≡◌, refl, ◌⊎◌, inl, inr, Bool, true, false, Option, none, some, String, [], ◌∷◌, same, string_eq,
  Eq, All, Bool-cases, Option-cases,
}
use corshub.Dict
use corshub.Dict.{Dict}
use corshub.Onboard.Values.{
  Yaml, null, text, other, sequence, mapping, Pairs, no_pairs, pair, is_text, is_in,
}
use corshub.Onboard.{
  pinned_owner, ChangeSet, no_changes, add_rotation, add_change, detect_loop, detect_changes,
  update, ◌>>=◌,
}
use corshub.Onboard.Effects.{entry_eq}

-- The entry is one of the mapping's.
abbrev pub Has : String → Yaml → Pairs → Type 0
Has username entry no_pairs = ⊥
Has username entry (pair k v d) = ((k ≡ username) × (v ≡ entry)) ⊎ Has username entry d

abbrev pub HasEntry : Yaml → String → Yaml → Type 0
HasEntry (mapping d) username entry = Has username entry d
HasEntry null username entry = ⊥
HasEntry (text _) username entry = ⊥
HasEntry (other _) username entry = ⊥
HasEntry (sequence _) username entry = ⊥

-- Keys of a dict that satisfy `P`.
module _ {ℓ} {K : Type 0} {V : Type 0} ⦃e : Eq K⦄ (P : K → Type ℓ) where
  abbrev pub Keys : Dict K V → Type ℓ
  Keys d = All (λ kv. P kv.0) d

  pub set-Keys : (d : Dict K V) (k : K) (v : V) → P k → Keys d → Keys (Dict.set d k v)
  unfolding Dict.set
  set-Keys [] k v p h = (p, tt)
  set-Keys ((j, w) ∷ d) k v p h = elim (Bool-cases (same j k)) [
    | inl q ↦ rw q h
    | inr q ↦ rw q (h.0, set-Keys d k v p h.1)
  ]

-- Without a hash in the pull request's entries, and absent from those of main or pinned to the actor.
pub record Entitled (actor : String) (theirs ours fp_data : Yaml) (role username : String)
    : Type 0 where
  pub entry : Yaml
  pub here : HasEntry theirs username entry
  pub no_hash : is_in "password_hash" entry ≡ some false
  pub owns :
      (is_in username ours ≡ some false)
      ⊎ ((owner : Yaml) × (pinned_owner fp_data role username ≡ some owner)
          × (is_text owner actor ≡ true))

module _ (actor : String) where
  module _ (theirs ours fp_data : Yaml) (role : String) where
    abbrev P : String → Type 0
    P username = Entitled actor theirs ours fp_data role username

    abbrev pub IsEntitled : Option ChangeSet → Type 0
    IsEntitled none = Unit
    IsEntitled (some cs) = Keys P cs.new × Keys P cs.rotation

    add_rotation-IsEntitled :
        (username : String) (entry : Yaml) (cs : ChangeSet)
        → HasEntry theirs username entry
        → is_in "password_hash" entry ≡ some false
        → IsEntitled (some cs)
        → IsEntitled (add_rotation actor fp_data role username entry cs)
    unfolding add_rotation
    add_rotation-IsEntitled username entry cs here no_hash h =
        elim (Option-cases (pinned_owner fp_data role username)) [
          | inl q ↦ rw q tt
          | inr (owner, q) ↦ elim (Bool-cases (is_text owner actor)) [
            | inl o ↦
                rw (q, o)
                  (
                    h.0,
                    set-Keys P cs.rotation username entry
                        record {
                          entry = entry;
                          here = here;
                          no_hash = no_hash;
                          owns = inr (owner, q, o);
                        }
                        h.1,
                  )
            | inr o ↦ rw (q, o) h
          ]
        ]

    add_change-IsEntitled :
        (username : String) (entry : Yaml) (has_hash in_main : Bool) (cs : ChangeSet)
        → HasEntry theirs username entry
        → is_in "password_hash" entry ≡ some has_hash
        → is_in username ours ≡ some in_main
        → IsEntitled (some cs)
        → IsEntitled (add_change actor fp_data role username entry has_hash in_main cs)
    unfolding add_change
    add_change-IsEntitled username entry true in_main cs here a b h = h
    add_change-IsEntitled username entry false true cs here a b h =
        add_rotation-IsEntitled username entry cs here a h
    add_change-IsEntitled username entry false false cs here a b h = (
      set-Keys P cs.new username entry
          record { entry = entry; here = here; no_hash = a; owns = inl b } h.0,
      h.1,
    )

    bind-IsEntitled :
        (o : Option ChangeSet) (f : ChangeSet → Option ChangeSet)
        → ((cs : ChangeSet) → IsEntitled (some cs) → IsEntitled (f cs))
        → IsEntitled o
        → IsEntitled (o >>= f)
    bind-IsEntitled none f k h = tt
    bind-IsEntitled (some cs) f k h = k cs h

    detect_loop-IsEntitled :
        (d : Pairs) (cs : ChangeSet)
        → ((username : String) (entry : Yaml)
            → Has username entry d
            → HasEntry theirs username entry)
        → IsEntitled (some cs)
        → IsEntitled (detect_loop actor ours fp_data role d cs)
    unfolding detect_loop
    detect_loop-IsEntitled no_pairs cs sub h = h
    detect_loop-IsEntitled (pair username entry rest) cs sub h =
        elim (Option-cases (is_in "password_hash" entry)) [
          | inl a ↦ rw (a, detect_loop) tt
          | inr (has_hash, a) ↦ elim (Option-cases (is_in username ours)) [
            | inl b ↦ rw (a, b, detect_loop) tt
            | inr (in_main, b) ↦
                rw (a, b, detect_loop)
                  (bind-IsEntitled
                    (add_change actor fp_data role username entry has_hash in_main cs)
                    (detect_loop actor ours fp_data role rest)
                    (λ changed k. detect_loop-IsEntitled rest changed (λ u e q. sub u e (inr q)) k)
                    (add_change-IsEntitled username entry has_hash in_main cs
                      (sub username entry (inl (refl, refl))) a b h))
          ]
        ]

  pub detect_changes-IsEntitled :
      (theirs ours fp_data : Yaml) (role : String)
      → IsEntitled theirs ours fp_data role (detect_changes actor theirs ours fp_data role)
  unfolding detect_changes
  detect_changes-IsEntitled (mapping d) ours fp_data role =
      detect_loop-IsEntitled (mapping d) ours fp_data role d no_changes (λ u e q. q) (tt, tt)
  detect_changes-IsEntitled null ours fp_data role = tt
  detect_changes-IsEntitled (text _) ours fp_data role = tt
  detect_changes-IsEntitled (other _) ours fp_data role = tt
  detect_changes-IsEntitled (sequence _) ours fp_data role = tt

-- The union of two dicts.
pub update-Keys :
    (Q : String → Type 0) (d rest : Dict String Yaml)
    → Keys Q d
    → Keys Q rest
    → Keys Q (update d rest)
unfolding update
update-Keys Q d [] h k = h
update-Keys Q d ((u, v) ∷ rest) h k =
    update-Keys Q (Dict.set d u v) rest (set-Keys Q d u v k.0 h) k.1
