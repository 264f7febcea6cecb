-- ===== src/Strings.antt =====
-- The methods of Python's `str` that the program uses, on texts as lists of codes.
use Prim.Native.Char.{code}
use Prim.Native.String as Text
use corshub.Prelude.{
  ℕ, Bool, true, false, ◌&&◌, ◌||◌, String, List, [], ◌∷◌, ◌==◌, leb, if◌then◌else◌,
}
use corshub.Mountpoint.{codes, is_empty}

-- `s.startswith(prefix)`, on codes
unfoldable pub begins : List ℕ → List ℕ → Bool
begins cs [] = true
begins [] (p ∷ ps) = false
begins (c ∷ cs) (p ∷ ps) = c == p && begins cs ps

-- `part in s`, on codes
unfoldable pub occurs : List ℕ → List ℕ → Bool
unfolding begins
occurs part [] = begins [] part
occurs part (c ∷ cs) = begins (c ∷ cs) part || occurs part cs

abbrev pub starts_with : String → String → Bool
starts_with s p = begins (codes s) (codes p)

abbrev pub contains_text : String → String → Bool
contains_text s part = occurs (codes part) (codes s)

-- `separator.join(parts)`
unfoldable pub join : String → List String → String
join separator [] = ""
join separator (s ∷ []) = s
join separator (s ∷ t ∷ parts) =
    let rest = join separator (t ∷ parts) in Text.◌++◌ s (Text.◌++◌ separator rest)

-- `c.isspace()`
unfoldable pub is_space : ℕ → Bool
is_space c =
    (leb 9 c && leb c 13)
    || (leb 28 c && leb c 32)
    || c == 133
    || c == 160
    || c == 5760
    || (leb 8192 c && leb c 8202)
    || c == 8232
    || c == 8233
    || c == 8239
    || c == 8287
    || c == 12288

unfoldable pub lstrip : String → String
unfolding is_space
lstrip String.[] = ""
lstrip (String.◌∷◌ c s) = let rest = lstrip s in if is_space (code c) then rest else String.◌∷◌ c s

unfoldable pub rstrip : String → String
unfolding is_space
rstrip String.[] = ""
rstrip (String.◌∷◌ c s) =
    let rest = rstrip s in if is_empty rest && is_space (code c) then "" else String.◌∷◌ c rest

-- `s.strip()`
unfoldable pub strip : String → String
unfolding lstrip rstrip
strip s = lstrip (rstrip s)
