-- ===== src/Dict.antt =====
-- Python's `dict`, in insertion order: an assignment to a key that is there keeps its place, and a
-- new key goes to the end.
use corshub.Prelude.{
  ◌≡◌, ◌≢◌, refl, Bool, true, false, Option, none, some, List, [], ◌∷◌, arith, if◌then◌else◌, Eq,
  same, same_iff, same_refl, same_ne, Bool-cases, inl, inr,
}

abbrev pub Dict {ℓ κ} : Type ℓ → Type κ → Type (ℓ ⊔ κ)
Dict K V = List (K × V)

module _ {ℓ κ} {K : Type ℓ} {V : Type κ} ⦃e : Eq K⦄ where
  -- d.get(k)
  unfoldable pub get : Dict K V → K → Option V
  get [] k = none
  get ((j, v) ∷ d) k = if same j k then some v else get d k

  -- k in d
  abbrev pub contains : Dict K V → K → Bool
  contains d k = elim (get d k) [ none ↦ false | some _ ↦ true ]

  -- d[k] = v
  unfoldable pub set : Dict K V → K → V → Dict K V
  set [] k v = (k, v) ∷ []
  set ((j, w) ∷ d) k v = if same j k then (j, v) ∷ d else (j, w) ∷ set d k v

  -- d.pop(k, None), del d[k]; the keys of a dict are distinct
  unfoldable pub pop : Dict K V → K → Dict K V
  pop [] k = []
  pop ((j, w) ∷ d) k = let rest = pop d k in if same j k then rest else (j, w) ∷ rest

  pub get-set :
      (d : Dict K V) (k j : K) (v : V) → get (set d k v) j ≡ (if same k j then some v else get d j)
  unfolding get set
  get-set [] k j v = refl
  get-set ((i, w) ∷ d) k j v =
      ground (arith, get-set d k j v, same_iff i k, same_iff i j, same_iff k j)

  pub get-pop : (d : Dict K V) (k j : K) → get (pop d k) j ≡ (if same k j then none else get d j)
  unfolding get pop
  get-pop [] k j = ground arith
  get-pop ((i, w) ∷ d) k j = ground (arith, get-pop d k j, same_iff i k, same_iff i j, same_iff k j)

  pub get-set_self : (d : Dict K V) (k : K) (v : V) → get (set d k v) k ≡ some v
  get-set_self d k v = simp (get-set, same_refl)

  pub get-set_ne : (d : Dict K V) (k j : K) (v : V) → k ≢ j → get (set d k v) j ≡ get d j
  get-set_ne d k j v h = rw (get-set, same_ne k j h)

  pub get-pop_self : (d : Dict K V) (k : K) → get (pop d k) k ≡ none
  get-pop_self d k = simp (get-pop, same_refl)

  pub get-pop_ne : (d : Dict K V) (k j : K) → k ≢ j → get (pop d k) j ≡ get d j
  get-pop_ne d k j h = rw (get-pop, same_ne k j h)

  -- No key twice.
  abbrev pub Distinct : Dict K V → Type κ
  Distinct [] = Unit
  Distinct ((k, v) ∷ d) = (get d k ≡ none) × Distinct d

  pub set-Distinct : (d : Dict K V) (k : K) (v : V) → Distinct d → Distinct (set d k v)
  unfolding set get
  set-Distinct [] k v h = (refl, tt)
  set-Distinct ((j, w) ∷ d) k v h = elim (Bool-cases (same j k)) [
    | inl here ↦ rw here h
    | inr there ↦
        rw there
          (ground (arith, get-set d k j v, same_iff k j, same_iff j k), set-Distinct d k v h.1)
  ]

  pub pop-Distinct : (d : Dict K V) (k : K) → Distinct d → Distinct (pop d k)
  unfolding pop
  pop-Distinct [] k h = tt
  pop-Distinct ((j, w) ∷ d) k h = elim (Bool-cases (same j k)) [
    | inl here ↦ rw here (pop-Distinct d k h.1)
    | inr there ↦ rw there (rw (get-pop d k j) (ground arith), pop-Distinct d k h.1)
  ]

module _ {ℓ κ} {K : Type ℓ} {V : Type κ} ⦃e : Eq K⦄ where
  pub pop_absent : (d : Dict K V) (k : K) → get d k ≡ none → pop d k ≡ d
  unfolding get pop
  pop_absent [] k h = refl
  pop_absent ((j, w) ∷ d) k h = ground (arith, pop_absent d k)

  pub pop-set : (d : Dict K V) (k : K) (v : V) → get d k ≡ none → pop (set d k v) k ≡ d
  unfolding get set pop
  pop-set [] k v h = rw (same_refl k)
  pop-set ((j, w) ∷ d) k v h = ground (arith, pop-set d k v)

pub get-empty {ℓ κ} : {K : Type ℓ} (V : Type κ) ⦃e : Eq K⦄ (k : K) → get {V = V} [] k ≡ none
unfolding get
get-empty V k = refl

pub ruleset dict_laws = (get-set, get-pop)
