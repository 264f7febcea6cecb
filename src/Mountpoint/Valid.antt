-- ===== src/Mountpoint/Valid.antt =====
-- What a mountpoint that is constructed satisfies.
use corshub.Prelude.{
  ℕ, ◌≤◌, ◌≡◌, refl, sym, ap, ◌∙◌, true, false, ◌&&◌, Option, none, some, String, List, [], ◌∷◌,
  ◌++◌, ◌==◌, if◌then◌else◌, length, arith, ◌⊎◌, inl, inr, Bool-cases,
}
use mathlib.Core.Logic.{◌↔◌}
use corshub.Float.{Float}
use corshub.Mountpoint.{
  codes, all_codes, is_name_code, is_upper_code, before_newline, matches_name, matches_country,
  is_empty, Mountpoint, Metadata, within, optional_matches, post_init, assemble, construct,
}

abbrev pub All : (ℕ → Type 0) → List ℕ → Type 0
All P [] = Unit {0}
All P (c ∷ cs) = P c × All P cs

-- A letter, a digit, a hyphen or an underscore of ASCII.
abbrev pub IsNameCode : ℕ → Type 0
IsNameCode c =
    ((65 ≤ c) × (c ≤ 90)) ⊎ ((97 ≤ c) × (c ≤ 122)) ⊎ ((48 ≤ c) × (c ≤ 57)) ⊎ (c ≡ 95) ⊎ (c ≡ 45)

-- One to a hundred such characters, and then perhaps a newline.
abbrev pub IsName : List ℕ → Type 0
IsName s =
    (cs : List ℕ) × (1 ≤ length cs)
    × (length cs ≤ 100)
    × All IsNameCode cs
    × ((s ≡ cs) ⊎ (s ≡ cs ++ 10 ∷ []))

is_name_code-IsNameCode : (c : ℕ) → (is_name_code c ≡ true) ↔ IsNameCode c
unfolding is_name_code
is_name_code-IsNameCode c = (λ h. ground arith, λ h. ground arith)

all_codes-All : (cs : List ℕ) → (all_codes is_name_code cs ≡ true) ↔ All IsNameCode cs
unfolding all_codes
all_codes-All [] = (λ h. tt, λ h. refl)
all_codes-All (c ∷ cs) = ground (arith, is_name_code-IsNameCode c, all_codes-All cs)

before_newline-cases : (s : List ℕ) → (s ≡ before_newline s) ⊎ (s ≡ before_newline s ++ 10 ∷ [])
unfolding before_newline
before_newline-cases [] = inl refl
before_newline-cases (c ∷ []) = ground arith
before_newline-cases (c ∷ d ∷ cs) = ground (arith, before_newline-cases (d ∷ cs))

before_newline-name : (cs : List ℕ) → All IsNameCode cs → before_newline cs ≡ cs
unfolding before_newline
before_newline-name [] h = refl
before_newline-name (c ∷ []) h = ground arith
before_newline-name (c ∷ d ∷ cs) h = rw (before_newline-name (d ∷ cs) h.1)

before_newline-append : (cs : List ℕ) → before_newline (cs ++ 10 ∷ []) ≡ cs
unfolding before_newline
before_newline-append [] = refl
before_newline-append (c ∷ []) = refl
before_newline-append (c ∷ d ∷ cs) = rw (before_newline-append (d ∷ cs))

matches-before_newline :
    (s cs : List ℕ) → All IsNameCode cs → (s ≡ cs) ⊎ (s ≡ cs ++ 10 ∷ []) → before_newline s ≡ cs
matches-before_newline s cs h (inl e) = rw e (before_newline-name cs h)
matches-before_newline s cs h (inr e) = rw e (before_newline-append cs)

-- The pattern of mountpoint names matches exactly one to a hundred letters, digits, hyphens and
-- underscores of ASCII, perhaps with a newline at the end.
pub matches_name-IsName : (s : String) → (matches_name s ≡ true) ↔ IsName (codes s)
unfolding matches_name
matches_name-IsName s = (
  λ h. (
    before_newline (codes s),
    ground arith,
    ground arith,
    ground (arith, all_codes-All (before_newline (codes s))),
    before_newline-cases (codes s),
  ),
  λ (cs, least, most, all, e).
      rw (matches-before_newline (codes s) cs all e) (ground (arith, all_codes-All cs)),
)

-- Three capital letters of ASCII, and then perhaps a newline.
abbrev pub IsCountry : List ℕ → Type 0
IsCountry s =
    (a : ℕ) × (b : ℕ) × (c : ℕ) × All (λ x. (65 ≤ x) × (x ≤ 90)) (a ∷ b ∷ c ∷ [])
    × ((s ≡ a ∷ b ∷ c ∷ []) ⊎ (s ≡ a ∷ b ∷ c ∷ 10 ∷ []))

matches_country_sound : (s : String) → matches_country s ≡ true → IsCountry (codes s)
unfolding matches_country all_codes is_upper_code
matches_country_sound s h = go (before_newline (codes s)) (before_newline-cases (codes s)) h
  where
    go :
        (cs : List ℕ)
        → (codes s ≡ cs) ⊎ (codes s ≡ cs ++ 10 ∷ [])
        → (length cs == 3 && all_codes is_upper_code cs) ≡ true
        → IsCountry (codes s)
    go [] e h = ground arith
    go (a ∷ []) e h = ground arith
    go (a ∷ b ∷ []) e h = ground arith
    go (a ∷ b ∷ c ∷ []) e h = (a, b, c, ground arith, e)
    go (a ∷ b ∷ c ∷ d ∷ cs) e h = ground arith

module _ (fl : Float) where
  abbrev pub IsWithin : ℕ → Option fl.F → Type 0
  IsWithin bound none = Unit {0}
  IsWithin bound (some x) =
      (fl.le (fl.neg (fl.literal bound)) x ≡ true) × (fl.le x (fl.literal bound) ≡ true)

  abbrev pub IsCountryOrEmpty : Option String → Type 0
  IsCountryOrEmpty none = Unit {0}
  IsCountryOrEmpty (some s) = (codes s ≡ []) ⊎ IsCountry (codes s)

  pub record IsValid (m : Mountpoint fl) : Type 0 where
    pub name : IsName (codes m.name)
    pub country : IsCountryOrEmpty m.country
    pub latitude : IsWithin 90 m.latitude
    pub longitude : IsWithin 180 m.longitude
    pub mask : fl.lt m.mask (fl.literal 0) ≡ false

  within-IsWithin : (n : ℕ) (o : Option fl.F) → within fl n o ≡ true → IsWithin n o
  unfolding within
  within-IsWithin n none h = tt
  within-IsWithin n (some x) h = ground arith

  optional-country :
      (o : Option String) → optional_matches fl matches_country o ≡ true → IsCountryOrEmpty o
  unfolding optional_matches
  optional-country none h = tt
  optional-country (some s) h = elim (Bool-cases (is_empty s)) [
    | inl e ↦ inl (empty (codes s) e)
    | inr e ↦ inr (matches_country_sound s (ground (arith, e)))
  ]
    where
      empty : (cs : List ℕ) → elim cs [ [] ↦ true | _ ∷ _ ↦ false ] ≡ true → cs ≡ []
      empty [] h = refl
      empty (c ∷ cs) h = ground arith

  post_init-IsValid : (m : Mountpoint fl) → post_init fl m ≡ true → IsValid m
  unfolding post_init
  post_init-IsValid m h = record {
    name = (matches_name-IsName m.name).0 (ground arith);
    country = optional-country m.country (ground arith);
    latitude = within-IsWithin 90 m.latitude (ground arith);
    longitude = within-IsWithin 180 m.longitude (ground arith);
    mask = ground arith;
  }

  some-post_init :
      (n m : Mountpoint fl)
      → (if post_init fl n then some n else none) ≡ some m
      → (post_init fl n ≡ true) × (n ≡ m)
  some-post_init n m h = elim (Bool-cases (post_init fl n)) [
    | inl e ↦ (e, ground (arith, e))
    | inr e ↦ ground (arith, e)
  ]

  -- A mountpoint that is constructed has the name that it was given and the time of its construction;
  -- its name is one to a hundred letters, digits, hyphens and underscores, its country, if there is
  -- one, three capital letters, both perhaps with a newline at the end, its coordinates, if there are
  -- any, are within 90 and 180 degrees, and its mask is not below 0.
  pub construct-IsValid :
      (name : String) (k : Metadata fl) (now : ℕ) (m : Mountpoint fl)
      → construct fl name k now ≡ some m
      → IsValid m × (m.name ≡ name) × (m.last_seen ≡ now)
  unfolding construct
  construct-IsValid name k now m h =
      let (checked, same) = some-post_init (assemble fl name k now) m h in
      (
        post_init-IsValid m (ap (post_init fl) (sym same) ∙ checked),
        ap (λ x. x.name) (sym same),
        ap (λ x. x.last_seen) (sym same),
      )
