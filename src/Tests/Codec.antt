-- ===== src/Tests/Codec.antt =====
-- Tokens that are readable texts, as an instance of jwt's interface.
use Prim.Native.Char.{char, code}
use corshub.Prelude.{
  ℕ, zero, suc, ◌<◌, ◌≤◌, ◌≡◌, refl, Bool, true, false, ◌&&◌, not, Option, none, some, String, List,
  [], ◌∷◌, ltb, lt→ltb, le→ltb, ◌==◌, if◌then◌else◌, same, same_refl, string_eq, arith,
}
use corshub.Onboard.{◌>>=◌}
use corshub.Tokens.{Claims, Jwt, algorithm, required}
use corshub.Tokens.Laws.{IsJwt}

-- A text with a mark before each character and one at its end, in front of another text.
abbrev put : String → String → String
put String.[] k = String.◌∷◌ (char 101 tt) k
put (String.◌∷◌ c s) k = String.◌∷◌ (char 120 tt) (String.◌∷◌ c (put s k))

abbrev take : String → Option (String × String)
take String.[] = none
take (String.◌∷◌ c String.[]) = some ("", "")
take (String.◌∷◌ c (String.◌∷◌ d s)) =
    let rest = take s in
    if code c == 120
    then (elim rest [ none ↦ none | some (t, k) ↦ some (String.◌∷◌ d t, k) ])
    else some ("", String.◌∷◌ d s)

take-put : (s k : String) → take (put s k) ≡ some (s, k)
take-put String.[] String.[] = refl
take-put String.[] (String.◌∷◌ c k) = refl
take-put (String.◌∷◌ c s) k = rw (take-put s k) refl

abbrev put_number : ℕ → String → String
put_number zero k = String.◌∷◌ (char 101 tt) k
put_number (suc n) k = String.◌∷◌ (char 120 tt) (put_number n k)

abbrev take_number : String → Option (ℕ × String)
take_number String.[] = none
take_number (String.◌∷◌ c s) =
    let rest = take_number s in
    if code c == 120
    then (elim rest [ none ↦ none | some (n, k) ↦ some (suc n, k) ])
    else some (0, s)

take_number-put_number : (n : ℕ) (k : String) → take_number (put_number n k) ≡ some (n, k)
take_number-put_number zero k = refl
take_number-put_number (suc n) k = rw (take_number-put_number n k) refl

abbrev issued_at : Option ℕ → ℕ
issued_at none = 0
issued_at (some n) = suc n

abbrev of_issued_at : ℕ → Option ℕ
of_issued_at zero = none
of_issued_at (suc n) = some n

abbrev encode : Claims → String → String → String
encode c secret alg = put secret (
    put alg (
      put c.sub
        (put c.mountpoint (put c.aud (put_number c.exp (put_number (issued_at c.iat) ""))))))

abbrev first : List String → String
first [] = ""
first (s ∷ _) = s

abbrev if_all : Bool → Claims → Option Claims
if_all true c = some c
if_all false c = none

abbrev decode : ℕ → String → String → List String → String → List String → Option Claims
decode now token secret algs aud names = do
  (signer, k) ← take token
  (alg, k) ← take k
  (sub, k) ← take k
  (mountpoint, k) ← take k
  (audience, k) ← take k
  (exp, k) ← take_number k
  (iat, k) ← take_number k
  if_all
      (same signer secret
        && same alg (first algs)
        && same audience aud
        && ltb now exp
        && not (ltb (suc now) iat))
      record {
        sub = sub;
        mountpoint = mountpoint;
        aud = audience;
        iat = of_issued_at iat;
        exp = exp;
      }

abbrev pub readable : Jwt
readable = record { encode = encode; decode = decode }

decode-encode :
    (now at : ℕ) (secret alg sub mountpoint aud : String) (exp : ℕ) (names : List String)
    → at ≤ now
    → now < exp
    → decode now
        (encode
          record { sub = sub; mountpoint = mountpoint; aud = aud; iat = some at; exp = exp }
          secret
          alg)
        secret
        (alg ∷ [])
        aud
        names
      ≡ some record { sub = sub; mountpoint = mountpoint; aud = aud; iat = some at; exp = exp }
decode-encode now at secret alg sub mountpoint aud exp names h k =
    rw
      (
        take-put secret _,
        take-put alg _,
        take-put sub _,
        take-put mountpoint _,
        take-put aud _,
        take_number-put_number exp _,
        take_number-put_number (suc at) "",
        same_refl secret,
        same_refl alg,
        same_refl aud,
        lt→ltb now exp k,
        le→ltb (suc now) (suc at) (omega (arith, h)),
      )
      refl

pub readable-IsJwt : IsJwt readable
readable-IsJwt = record {
  decode-encode = λ now at secret c e h k.
      rw (e) (decode-encode now at secret algorithm c.sub c.mountpoint c.aud c.exp required h k);
}
