-- ===== src/Headers/Split.antt =====
-- A header that is joined is split into the same fields.
use Prim.Native.Char.{code}
use Prim.Native.String
use text.Mathlib.TextLemmas.{nil-append, cons-append}
use corshub.Prelude.{◌≡◌, refl, ap, ◌∙◌, false, String, List, [], ◌∷◌, ◌==◌}
use corshub.Strings.{join}
use corshub.Headers.{split}

-- No semicolon in the text.
abbrev pub IsField : String → Type 0
IsField String.[] = Unit
IsField (String.◌∷◌ c s) = ((code c == b';') ≡ false) × IsField s

abbrev pub AreFields : List String → Type 0
AreFields [] = Unit
AreFields (s ∷ ss) = IsField s × AreFields ss

split-field : (s : String) → IsField s → split s ≡ s ∷ []
unfolding split
split-field String.[] h = refl
split-field (String.◌∷◌ c s) h = rw (h.0, split-field s h.1, split) refl

split-append : (s t : String) → IsField s → split (String.◌++◌ s (String.◌++◌ ";" t)) ≡ s ∷ split t
unfolding split
split-append String.[] t h =
    rw (nil-append (String.◌++◌ ";" t), cons-append _ "" t, nil-append t, split) refl
split-append (String.◌∷◌ c s) t h =
    rw (cons-append c s (String.◌++◌ ";" t), split) (rw (h.0, split-append s t h.1) refl)

pub split-join :
    (s : String) (ss : List String) → IsField s → AreFields ss → split (join ";" (s ∷ ss)) ≡ s ∷ ss
unfolding join
split-join s [] h k = split-field s h
split-join s (t ∷ ts) h k =
    split-append s (join ";" (t ∷ ts)) h ∙ ap (◌∷◌ s) (split-join t ts k.0 k.1)
