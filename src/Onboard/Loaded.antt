-- ===== src/Onboard/Loaded.antt =====
-- What the strict loader accepts.
use corshub.Prelude.{
  ◌≡◌, refl, sym, ap, ◌∙◌, ◌⊎◌, inl, inr, true, false, Option, none, some, String, List, [], ◌∷◌,
  arith, same, same_iff, same_refl, string_eq, Bool-cases,
}
use corshub.Onboard.Values.{
  Yaml, null, text, other, sequence, mapping, Items, no_items, item, Pairs, no_pairs, pair, find,
  is_some, Loaded, loaded, duplicate, elem, check_keys, no_duplicate_mapping, load_strict,
  load_items, load_pairs,
}

-- No key of the mapping stands twice in it.
abbrev pub Distinct : Pairs → Type 0
Distinct no_pairs = Unit
Distinct (pair k v d) = (find d k ≡ none) × Distinct d

-- The key stands twice in the mapping.
abbrev pub Twice : String → Pairs → Type 0
Twice key no_pairs = ⊥
Twice key (pair k v d) = ((k ≡ key) × (is_some (find d key) ≡ true)) ⊎ Twice key d

unfoldable mutual
  -- No mapping of the document has a key twice.
  pub Unique : Yaml → Type 0
  Unique null = Unit
  Unique (text _) = Unit
  Unique (other _) = Unit
  Unique (sequence xs) = UniqueItems xs
  Unique (mapping d) = Distinct d × UniquePairs d

  pub UniqueItems : Items → Type 0
  UniqueItems no_items = Unit
  UniqueItems (item x xs) = Unique x × UniqueItems xs

  pub UniquePairs : Pairs → Type 0
  UniquePairs no_pairs = Unit
  UniquePairs (pair k v d) = Unique v × UniquePairs d

unfoldable mutual
  -- A mapping of the document has the key twice.
  pub Repeats : String → Yaml → Type 0
  Repeats key null = ⊥
  Repeats key (text _) = ⊥
  Repeats key (other _) = ⊥
  Repeats key (sequence xs) = RepeatsItems key xs
  Repeats key (mapping d) = Twice key d ⊎ RepeatsPairs key d

  pub RepeatsItems : String → Items → Type 0
  RepeatsItems key no_items = ⊥
  RepeatsItems key (item x xs) = Repeats key x ⊎ RepeatsItems key xs

  pub RepeatsPairs : String → Pairs → Type 0
  RepeatsPairs key no_pairs = ⊥
  RepeatsPairs key (pair k v d) = Repeats key v ⊎ RepeatsPairs key d

-- The keys that were seen are not met again.
abbrev Fresh : List String → Pairs → Type 0
Fresh seen d = (k : String) → elem k seen ≡ true → find d k ≡ none

abbrev Checked : List String → Pairs → Option String → Type 0
Checked seen d none = Fresh seen d × Distinct d
Checked seen d (some key) = ((elem key seen ≡ true) × (is_some (find d key) ≡ true)) ⊎ Twice key d

check_keys-Checked : (seen : List String) (d : Pairs) → Checked seen d (check_keys seen d)
unfolding check_keys find
check_keys-Checked seen no_pairs = (λ k h. refl, tt)
check_keys-Checked seen (pair k v d) = elim (Bool-cases (elem k seen)) [
  | inl here ↦ rw (here, check_keys, find) (inl (here, rw (same_refl k) refl))
  | inr there ↦
      rw (there, check_keys) (go (check_keys (k ∷ seen) d) (check_keys-Checked (k ∷ seen) d) there)
]
  where
    go :
        (o : Option String)
        → Checked (k ∷ seen) d o
        → elem k seen ≡ false
        → Checked seen (pair k v d) o
    go none (fresh, distinct) there =
        (λ j h. ground (arith, fresh j, same_iff k j), (fresh k (rw (same_refl k) refl), distinct))
    go (some key) (inl (seen_it, again)) there = elim (Bool-cases (same k key)) [
      | inl q ↦ inr (inl ((same_iff k key).0 q, again))
      | inr q ↦ inl (sym (rw q refl) ∙ seen_it, rw q again)
    ]
    go (some key) (inr twice) there = inr (inr twice)

-- What it means that a document is loaded, or refused for a key.
abbrev pub LoadsAs : Yaml → Loaded Yaml → Type 0
LoadsAs d (loaded e) = (e ≡ d) × Unique d
LoadsAs d (duplicate key) = Repeats key d

abbrev ItemsLoadAs : Items → Loaded Items → Type 0
ItemsLoadAs xs (loaded ys) = (ys ≡ xs) × UniqueItems xs
ItemsLoadAs xs (duplicate key) = RepeatsItems key xs

abbrev PairsLoadAs : Pairs → Loaded Pairs → Type 0
PairsLoadAs d (loaded e) = (e ≡ d) × UniquePairs d
PairsLoadAs d (duplicate key) = RepeatsPairs key d

abbrev MappingLoadsAs : Pairs → Loaded Pairs → Type 0
MappingLoadsAs d l =
    LoadsAs (mapping d)
      (elim l [ loaded e ↦ no_duplicate_mapping e | duplicate key ↦ duplicate key ])

no_duplicate_mapping-LoadsAs :
    (d e : Pairs) → e ≡ d → UniquePairs d → LoadsAs (mapping d) (no_duplicate_mapping e)
unfolding no_duplicate_mapping Unique Repeats
no_duplicate_mapping-LoadsAs d e q u = rw q (go (check_keys [] d) (check_keys-Checked [] d))
  where
    go :
        (o : Option String)
        → Checked [] d o
        → LoadsAs (mapping d) (elim o [ none ↦ loaded (mapping d) | some key ↦ duplicate key ])
    go none (fresh, distinct) = (refl, (distinct, u))
    go (some key) (inl h) = absurd (ground arith)
    go (some key) (inr twice) = inl twice

MappingLoadsAs_lem : (d : Pairs) (l : Loaded Pairs) → PairsLoadAs d l → MappingLoadsAs d l
unfolding Repeats
MappingLoadsAs_lem d (loaded e) h = no_duplicate_mapping-LoadsAs d e h.0 h.1
MappingLoadsAs_lem d (duplicate key) h = inr h

abbrev SequenceLoadsAs : Items → Loaded Items → Type 0
SequenceLoadsAs xs l =
    LoadsAs (sequence xs)
      (elim l [ loaded ys ↦ loaded (sequence ys) | duplicate key ↦ duplicate key ])

SequenceLoadsAs_lem : (xs : Items) (l : Loaded Items) → ItemsLoadAs xs l → SequenceLoadsAs xs l
unfolding Unique Repeats
SequenceLoadsAs_lem xs (loaded ys) h = (ap sequence h.0, h.1)
SequenceLoadsAs_lem xs (duplicate key) h = h

item-LoadAs :
    (x : Yaml) (xs : Items) (l : Loaded Yaml) (m : Loaded Items)
    → LoadsAs x l
    → ItemsLoadAs xs m
    → ItemsLoadAs (item x xs) (elim l [
      | duplicate key ↦ duplicate key
      | loaded y ↦ elim m [ loaded ys ↦ loaded (item y ys) | duplicate key ↦ duplicate key ]
    ])
unfolding Unique Repeats
item-LoadAs x xs (duplicate key) m h k = inl h
item-LoadAs x xs (loaded y) (loaded ys) h k = (rw (h.0, k.0) refl, (h.1, k.1))
item-LoadAs x xs (loaded y) (duplicate key) h k = inr k

pair-LoadAs :
    (key : String) (v : Yaml) (d : Pairs) (l : Loaded Yaml) (m : Loaded Pairs)
    → LoadsAs v l
    → PairsLoadAs d m
    → PairsLoadAs (pair key v d) (elim l [
      | duplicate j ↦ duplicate j
      | loaded w ↦ elim m [ loaded e ↦ loaded (pair key w e) | duplicate j ↦ duplicate j ]
    ])
unfolding Unique Repeats
pair-LoadAs key v d (duplicate j) m h k = inl h
pair-LoadAs key v d (loaded w) (loaded e) h k = (rw (h.0, k.0) refl, (h.1, k.1))
pair-LoadAs key v d (loaded w) (duplicate j) h k = inr k

mutual
  unfolding load_strict Unique Repeats

  yaml-LoadsAs : (d : Yaml) → LoadsAs d (load_strict d)
  yaml-LoadsAs null = (refl, tt)
  yaml-LoadsAs (text s) = (refl, tt)
  yaml-LoadsAs (other b) = (refl, tt)
  yaml-LoadsAs (sequence xs) = SequenceLoadsAs_lem xs (load_items xs) (load_items-LoadAs xs)
  yaml-LoadsAs (mapping d) = MappingLoadsAs_lem d (load_pairs d) (load_pairs-LoadAs d)

  load_items-LoadAs : (xs : Items) → ItemsLoadAs xs (load_items xs)
  load_items-LoadAs no_items = (refl, tt)
  load_items-LoadAs (item x xs) =
      item-LoadAs x xs (load_strict x) (load_items xs) (yaml-LoadsAs x) (load_items-LoadAs xs)

  load_pairs-LoadAs : (d : Pairs) → PairsLoadAs d (load_pairs d)
  load_pairs-LoadAs no_pairs = (refl, tt)
  load_pairs-LoadAs (pair key v d) =
      pair-LoadAs key v d (load_strict v) (load_pairs d) (yaml-LoadsAs v) (load_pairs-LoadAs d)

-- The strict loader gives a document as it is when none of its mappings, however deep, has a key
-- twice, and otherwise names a key that stands twice in one of them.
pub load_strict-LoadsAs : (d : Yaml) → LoadsAs d (load_strict d)
load_strict-LoadsAs d = yaml-LoadsAs d
