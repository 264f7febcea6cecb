-- ===== src/Headers/Bounded.antt =====
-- What the parser of Ntrip-STR gives for any header, and for a header that is joined of fields.
use Prim.Native.String
use text.Mathlib.TextLemmas.{cons-append}
use corshub.Prelude.{
  ◌≤◌, ◌≡◌, refl, ap, ◌∙◌, ◌⊎◌, inl, inr, Bool, true, false, Option, none, some, String, List, [],
  ◌∷◌, leb, same_iff, string_eq, arith, map, All, Bool-cases,
}
use corshub.Float.{Float}
use corshub.Mountpoint.{is_empty, Metadata}
use corshub.Strings.{join, strip}
use corshub.Headers.{
  Readers, without_str, fields_of, parse_fields, parse_ntrip_str, accept, is_auth, is_fee, in_range,
  str_carrier, str_solution, str_auth, str_fee, int_at, str_at,
}
use corshub.Headers.Split.{IsField, AreFields, split-join}

module _ (fl : Float) (r : Readers fl) where
  -- A value is there, and `P` holds for it.
  abbrev pub Given {ℓ} : {A : Type ℓ} → (A → Type 0) → Option A → Type 0
  Given P none = ⊥
  Given P (some v) = P v

  -- The ranges that the registry asks for, and the codes of the protocol.
  pub record IsBounded (k : Metadata fl) : Type 0 where
    pub latitude : Given (λ f. in_range fl r 90 f ≡ true) k.latitude
    pub longitude : Given (λ f. in_range fl r 180 f ≡ true) k.longitude
    pub carrier : Given (λ i. i ≤ 2) k.carrier
    pub solution : Given (λ i. i ≤ 1) k.solution
    pub auth : Given (λ v. (v ≡ "N") ⊎ (v ≡ "B") ⊎ (v ≡ "D")) k.auth
    pub fee : Given (λ v. (v ≡ "N") ⊎ (v ≡ "Y")) k.fee

  accept-Holds {ℓ} :
      {A : Type ℓ} (P : A → Type 0) (test : A → Bool) (o : Option A) (default : A)
      → ((a : A) → test a ≡ true → P a)
      → P default
      → P (accept fl r test o default)
  accept-Holds P test none default h k = k
  accept-Holds P test (some v) default h k = elim (Bool-cases (test v)) [
    | inl q ↦ rw q (h v q)
    | inr q ↦ rw q k
  ]

  is_auth-cases : (v : String) → is_auth fl r v ≡ true → (v ≡ "N") ⊎ (v ≡ "B") ⊎ (v ≡ "D")
  is_auth-cases v h = ground (arith, same_iff v "N", same_iff v "B", same_iff v "D")

  is_fee-cases : (v : String) → is_fee fl r v ≡ true → (v ≡ "N") ⊎ (v ≡ "Y")
  is_fee-cases v h = ground (arith, same_iff v "N", same_iff v "Y")

  parse_fields-IsBounded :
      (fields : List String) (mountpoint : String)
      → in_range fl r 90 (fl.literal 0) ≡ true
      → in_range fl r 180 (fl.literal 0) ≡ true
      → IsBounded (parse_fields fl r fields mountpoint)
  unfolding parse_fields
  parse_fields-IsBounded fields mountpoint a b = record {
    latitude =
        accept-Holds (λ f. in_range fl r 90 f ≡ true) (in_range fl r 90) _ (fl.literal 0) (λ f h. h)
          a;
    longitude =
        accept-Holds (λ f. in_range fl r 180 f ≡ true) (in_range fl r 180) _ (fl.literal 0)
          (λ f h. h) b;
    carrier =
        accept-Holds (λ i. i ≤ 2) (λ i. leb i 2) (int_at fl r fields str_carrier) 0
          (λ i h. ground arith) (omega arith);
    solution =
        accept-Holds (λ i. i ≤ 1) (λ i. leb i 1) (int_at fl r fields str_solution) 0
          (λ i h. ground arith) (omega arith);
    auth =
        accept-Holds (λ v. (v ≡ "N") ⊎ (v ≡ "B") ⊎ (v ≡ "D")) (is_auth fl r)
          (str_at fl r fields str_auth) "B" is_auth-cases (inr (inl refl));
    fee =
        accept-Holds (λ v. (v ≡ "N") ⊎ (v ≡ "Y")) (is_fee fl r) (str_at fl r fields str_fee) "N"
          is_fee-cases (inl refl);
  }

  -- Whatever the header, the parser gives a position within the ranges of the globe, and codes that
  -- the protocol knows; zero has to be within these ranges, as it is for floats.
  pub parse_ntrip_str-IsBounded :
      (header : Option String) (mountpoint : String)
      → in_range fl r 90 (fl.literal 0) ≡ true
      → in_range fl r 180 (fl.literal 0) ≡ true
      → IsBounded (parse_ntrip_str fl r header mountpoint)
  unfolding parse_ntrip_str
  parse_ntrip_str-IsBounded none mountpoint a b = parse_fields-IsBounded [] mountpoint a b
  parse_ntrip_str-IsBounded (some header) mountpoint a b = elim (Bool-cases (is_empty header)) [
    | inl q ↦ rw (q, parse_ntrip_str) (parse_fields-IsBounded [] mountpoint a b)
    | inr q ↦
        rw (q, parse_ntrip_str) (parse_fields-IsBounded (fields_of fl r header) mountpoint a b)
  ]

  -- No semicolon, and no white space at the ends.
  abbrev pub IsPlain : String → Type 0
  IsPlain s = IsField s × (strip s ≡ s)

  plain-fields : (ss : List String) → All IsPlain ss → AreFields ss × (map strip ss ≡ ss)
  plain-fields [] h = (tt, refl)
  plain-fields (s ∷ ss) (h, k) =
      let rest : AreFields ss × (map strip ss ≡ ss) = plain-fields ss k in
      ((h.0, rest.0), rw (h.1, rest.1) refl)

  is_empty-append : (s t : String) → is_empty s ≡ false → is_empty (String.◌++◌ s t) ≡ false
  is_empty-append String.[] t h = absurd (ground arith)
  is_empty-append (String.◌∷◌ c s) t h = rw (cons-append c s t) refl

  -- A header of two fields or more is read as these fields.
  pub parse_ntrip_str-join :
      (s t : String) (ss : List String) (mountpoint : String)
      → All IsPlain (s ∷ t ∷ ss)
      → is_empty s ≡ false
      → parse_ntrip_str fl r (some (join ";" (s ∷ t ∷ ss))) mountpoint
        ≡ parse_fields fl r (without_str fl r (s ∷ t ∷ ss)) mountpoint
  unfolding parse_ntrip_str fields_of join
  parse_ntrip_str-join s t ss mountpoint h e =
      rw (is_empty-append s (String.◌++◌ ";" (join ";" (t ∷ ss))) e) (
        ap (λ fields. parse_fields fl r (without_str fl r fields) mountpoint)
          (ap (map strip) (split-join s (t ∷ ss) h.0.0 (plain-fields (t ∷ ss) h.1).0)
            ∙ (plain-fields (s ∷ t ∷ ss) h).1))
