-- ===== src/Onboard/Values.antt =====
-- The values that .github/scripts/onboard.py reads from its YAML files, as Python has them: a
-- mapping is a dict in insertion order. `none` is an exception (`TypeError`, `AttributeError`).
use corshub.Prelude.{
  Bool, true, false, not, ◌||◌, Option, none, some, String, List, [], ◌∷◌, if◌then◌else◌, same,
  string_eq,
}
use corshub.Mountpoint.{is_empty}
use corshub.Strings.{contains_text}

-- A document. Of numbers, dates and Booleans only the truth value is looked at.
mutual
  pub data Yaml : Type 0 where
    null : Yaml
    text : String → Yaml
    other : Bool → Yaml
    sequence : Items → Yaml
    mapping : Pairs → Yaml

  pub data Items : Type 0 where
    no_items : Items
    item : Yaml → Items → Items

  pub data Pairs : Type 0 where
    no_pairs : Pairs
    pair : String → Yaml → Pairs → Pairs

-- `d.get(key)`
unfoldable pub find : Pairs → String → Option Yaml
find no_pairs key = none
find (pair k v d) key = if same k key then some v else find d key

-- `d[key] = value`
unfoldable pub assign : Pairs → String → Yaml → Pairs
assign no_pairs key v = pair key v no_pairs
assign (pair k w d) key v =
    let rest = assign d key v in if same k key then pair k v d else pair k w rest

abbrev pub or_default : Option Yaml → Yaml → Yaml
or_default none v = v
or_default (some w) v = w

-- `x.get(key, default)`
unfoldable pub get_or : Yaml → String → Yaml → Option Yaml
unfolding find
get_or (mapping d) key v = some (or_default (find d key) v)
get_or null key v = none
get_or (text _) key v = none
get_or (other _) key v = none
get_or (sequence _) key v = none

-- `bool(x)`
unfoldable pub truth : Yaml → Bool
truth null = false
truth (text s) = not (is_empty s)
truth (other b) = b
truth (sequence no_items) = false
truth (sequence (item _ _)) = true
truth (mapping no_pairs) = false
truth (mapping (pair _ _ _)) = true

abbrev pub empty_dict : Yaml
empty_dict = mapping no_pairs

-- `x or {}`
abbrev pub or_empty : Yaml → Yaml
or_empty x = if truth x then x else empty_dict

abbrev pub is_text : Yaml → String → Bool
is_text (text s) t = same s t
is_text null t = false
is_text (other _) t = false
is_text (sequence _) t = false
is_text (mapping _) t = false

unfoldable pub has_item : String → Items → Bool
has_item key no_items = false
has_item key (item x xs) = is_text x key || has_item key xs

abbrev pub is_some {ℓ} : {A : Type ℓ} → Option A → Bool
is_some none = false
is_some (some _) = true

-- `key in x`
unfoldable pub is_in : String → Yaml → Option Bool
unfolding has_item find
is_in key (mapping d) = some (is_some (find d key))
is_in key (sequence xs) = some (has_item key xs)
is_in key (text s) = some (contains_text s key)
is_in key null = none
is_in key (other _) = none

-- A loaded document, or the key that stands twice in a mapping.
pub data Loaded {ℓ} (A : Type ℓ) : Type ℓ where
  loaded : A → Loaded A
  duplicate : String → Loaded A

abbrev pub elem : String → List String → Bool
elem key [] = false
elem key (k ∷ seen) = same k key || elem key seen

-- The loop of `_no_duplicate_mapping`: the first key that was seen before.
unfoldable pub check_keys : List String → Pairs → Option String
check_keys seen no_pairs = none
check_keys seen (pair key _ rest) =
    let later = check_keys (key ∷ seen) rest in if elem key seen then some key else later

-- `_no_duplicate_mapping`, of the pairs that are constructed.
unfoldable pub no_duplicate_mapping : Pairs → Loaded Yaml
unfolding check_keys
no_duplicate_mapping pairs = elim (check_keys [] pairs) [
  | none ↦ loaded (mapping pairs)
  | some key ↦ duplicate key
]

-- `_StrictLoader`: a document is constructed from its leaves up. Merge keys are taken as resolved.
unfoldable mutual
  unfolding no_duplicate_mapping

  pub load_strict : Yaml → Loaded Yaml
  load_strict null = loaded null
  load_strict (text s) = loaded (text s)
  load_strict (other b) = loaded (other b)
  load_strict (sequence xs) = elim (load_items xs) [
    | loaded ys ↦ loaded (sequence ys)
    | duplicate key ↦ duplicate key
  ]
  load_strict (mapping d) = elim (load_pairs d) [
    | loaded e ↦ no_duplicate_mapping e
    | duplicate key ↦ duplicate key
  ]

  pub load_items : Items → Loaded Items
  load_items no_items = loaded no_items
  load_items (item x xs) = elim (load_strict x) [
    | duplicate key ↦ duplicate key
    | loaded y ↦ elim (load_items xs) [
      | loaded ys ↦ loaded (item y ys)
      | duplicate key ↦ duplicate key
    ]
  ]

  pub load_pairs : Pairs → Loaded Pairs
  load_pairs no_pairs = loaded no_pairs
  load_pairs (pair k v d) = elim (load_strict v) [
    | duplicate key ↦ duplicate key
    | loaded w ↦ elim (load_pairs d) [
      | loaded e ↦ loaded (pair k w e)
      | duplicate key ↦ duplicate key
    ]
  ]
