-- ===== src/Tokens.antt =====
-- Session tokens and the choice of the signing key: src/corshub/rtcm/tokens.py and keys.py beside it.
-- The library jwt, the formats of keys and the files are parameters.
pub mod Laws
use corshub.Prelude.{
  ℕ, ◌+◌, ◌<◌, ◌≤◌, ◌≡◌, Bool, true, false, not, Option, none, some, String, List, [], ◌∷◌,
  if◌then◌else◌,
}
use corshub.Mountpoint.{is_empty}
use corshub.Strings.{strip, starts_with}

-- The claims of a token.
pub record Claims : Type 0 where
  pub sub : String
  pub mountpoint : String
  pub aud : String
  pub iat : Option ℕ
  pub exp : ℕ

abbrev pub algorithm : String
algorithm = "HS256"

abbrev pub audience : String
audience = "rtcm-udp"

abbrev pub required : List String
required = "exp" ∷ "mountpoint" ∷ "sub" ∷ []

-- `jwt.encode(claims, secret, algorithm)`, and `jwt.decode(token, secret, algorithms, audience,
-- require)` at a time; `none` is an `InvalidTokenError`.
pub record Jwt : Type 0 where
  pub encode : Claims → String → String → String
  pub decode : ℕ → String → String → List String → String → List String → Option Claims

-- The token that is minted at `now`.
unfoldable pub issue_session_token : Jwt → ℕ → String → String → String → ℕ → String
issue_session_token jwt now secret username mountpoint ttl_seconds =
    jwt.encode
      record {
        sub = username;
        mountpoint = mountpoint;
        aud = audience;
        iat = some now;
        exp = now + ttl_seconds;
      }
      secret algorithm

unfoldable pub verify_session_token : Jwt → ℕ → String → String → Option Claims
verify_session_token jwt now token secret =
    jwt.decode now token secret (algorithm ∷ []) audience required

-- What keys are made of; `none` is an exception.
pub record KeySource (Key : Type 0) : Type 0 where
  pub from_private_pem : String → Option Key
  pub from_seed : String → Option Key
  pub read_file : String → Option String
  pub generate : Key

-- A key and where it is from, or an exception.
pub data Resolved (Key : Type 0) : Type 0 where
  configured : Key → Resolved Key
  ephemeral : Key → Resolved Key
  unconfigured : Resolved Key
  broken : Resolved Key

abbrev pub of_key : {Key : Type 0} → Option Key → Resolved Key
of_key none = broken
of_key (some key) = configured key

abbrev pub is_given : Option String → Bool
is_given none = false
is_given (some s) = not (is_empty s)

abbrev pub text_of : Option String → String
text_of none = ""
text_of (some s) = s

-- An inline value is a PEM block or an encoded seed.
unfoldable pub inline_key : {Key : Type 0} → KeySource Key → String → Option Key
unfolding strip
inline_key k inline =
    let stripped = strip inline in
    if starts_with stripped "-----BEGIN" then k.from_private_pem stripped else k.from_seed stripped

unfoldable pub file_key : {Key : Type 0} → KeySource Key → String → Option Key
file_key k path = elim (k.read_file path) [ none ↦ none | some pem ↦ k.from_private_pem pem ]

-- The precedence: inline, then the file, then, where it is allowed, a key that does not last.
unfoldable pub resolve_signing_key :
    {Key : Type 0} → KeySource Key → Option String → Option String → Bool → Resolved Key
unfolding inline_key file_key
resolve_signing_key k key_path key_inline allow_ephemeral =
    if is_given key_inline
    then of_key (inline_key k (text_of key_inline))
    else if is_given key_path
    then of_key (file_key k (text_of key_path))
    else if not allow_ephemeral
    then unconfigured
    else ephemeral k.generate
