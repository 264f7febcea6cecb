-- ===== src/Routes/Read.antt =====
-- The rover routes: src/corshub/services/v1/ntrip/read.py and nearest.py. The stream of frames is in
-- Caster/Sessions; here are the checks on a request, and the positions that a rover sends.
pub mod Lines
pub mod Rover
use Prim.Native.Nat.{Ordering, compare}
use Prim.Native.Char.{char, IsScalar}
use Prim.Native.String
use corshub.Prelude.{
  ℕ, ◌+◌, ◌≡◌, refl, Bool, true, false, not, ◌&&◌, Option, none, some, String, List, [], ◌∷◌, ◌++◌,
  ltb, ◌==◌, if◌then◌else◌, length, Bool-cases, inl, inr, string_eq, arith,
}
use corshub.Dict
use corshub.Dict.{Dict}
use corshub.Float.{Float}
use corshub.Framing.{Bytes}
use corshub.Geodesy.{haversine}
use corshub.Mountpoint.{Mountpoint}
use corshub.Strings.{strip}
use corshub.Headers.{Readers, parse_ntrip_gga}
use corshub.Caster.{NtripCaster, available}
use corshub.Caster.Positions.{set_rover_position}
use corshub.Caster.Authentication.{Services, authenticate_rover}
use corshub.RateLimit.{TtlCache, Limits}
use corshub.Udp.{nearest}
use corshub.Routes.{
  same_lower, Status, bad_request, unauthorized, rate_limited, not_found, server_error,
  enforce_auth_rate_limit,
}

-- The largest unfinished line.
abbrev pub max_gga_buffer : ℕ
max_gga_buffer = 4096

abbrev is_lt : Ordering → Bool
is_lt Ordering.lt = true
is_lt Ordering.eq = false
is_lt Ordering.gt = false

is_lt-eq : (o : Ordering) → is_lt o ≡ true → o ≡ Ordering.lt
is_lt-eq Ordering.lt h = refl
is_lt-eq Ordering.eq h = absurd (ground arith)
is_lt-eq Ordering.gt h = absurd (ground arith)

pub small-IsScalar : (n : ℕ) → ltb n 128 ≡ true → IsScalar n
small-IsScalar n h = rw (is_lt-eq (compare n 55296) (ground (arith, h))) tt

-- `line.decode("ascii", errors="ignore")`
unfoldable pub decode : Bytes → String
decode [] = ""
decode (b ∷ bs) =
    let rest = decode bs in
    elim (Bool-cases (ltb b 128)) [
      | inl h ↦ String.◌∷◌ (char b (small-IsScalar b h)) rest
      | inr _ ↦ rest
    ]

-- One more byte in front of what is split.
unfoldable pub push_byte : ℕ → List Bytes × Bytes → List Bytes × Bytes
push_byte b (lines, rest) =
    if b == 10
    then ([] ∷ lines, rest)
    else elim lines [ [] ↦ ([], b ∷ rest) | line ∷ more ↦ ((b ∷ line) ∷ more, rest) ]

-- The loop over the newlines: the complete lines, and what is left.
unfoldable pub split_lines : Bytes → List Bytes × Bytes
unfolding push_byte
split_lines [] = ([], [])
split_lines (b ∷ bs) = push_byte b (split_lines bs)

-- One chunk of the body: the lines that it completes, and the buffer afterwards. An empty chunk changes
-- nothing, since the buffer holds no newline.
unfoldable pub read_chunk : Bytes → Bytes → List Bytes × Bytes
unfolding split_lines
read_chunk buf chunk =
    let (lines, rest) = split_lines (buf ++ chunk) in
    (lines, if ltb max_gga_buffer (length rest) then [] else rest)

unfoldable pub read_chunks : Bytes → List Bytes → List Bytes × Bytes
unfolding read_chunk
read_chunks buf [] = ([], buf)
read_chunks buf (chunk ∷ chunks) =
    let (lines, rest) = read_chunk buf chunk in
    let (more, last) = read_chunks rest chunks in (lines ++ more, last)

-- An update of a position, counted per mountpoint.
pub data GgaReport : Type 0 where
  rover_gga_updates : String → GgaReport

module _ (fl : Float) (r : Readers fl) where
  -- One line of a rover: the caster, and what is reported.
  unfoldable pub see_line :
      String → String → Bytes → NtripCaster fl → NtripCaster fl × List GgaReport
  unfolding decode strip parse_ntrip_gga set_rover_position
  see_line mountpoint rover line c = elim (parse_ntrip_gga fl r (some (strip (decode line)))) [
    | none ↦ (c, [])
    | some position ↦
        (set_rover_position fl c mountpoint rover position, rover_gga_updates mountpoint ∷ [])
  ]

  unfoldable pub see_lines :
      String → String → List Bytes → NtripCaster fl → NtripCaster fl × List GgaReport
  unfolding see_line
  see_lines mountpoint rover [] c = (c, [])
  see_lines mountpoint rover (line ∷ lines) c =
      let (c, reports) = see_line mountpoint rover line c in
      let (c, more) = see_lines mountpoint rover lines c in (c, reports ++ more)

  -- A chunk for the rover's reader: the caster, its buffer, and what is reported.
  unfoldable pub read_rover_gga :
      String → String → Bytes → Bytes → NtripCaster fl → (NtripCaster fl × List GgaReport) × Bytes
  unfolding read_chunk see_lines
  read_rover_gga mountpoint rover buf chunk c =
      let (lines, rest) = read_chunk buf chunk in (see_lines mountpoint rover lines c, rest)

  pub record ReadRequest : Type 0 where
    pub ntrip_version : String
    pub credentials : Option (String × String)
    pub client : String
    pub gga : Option String

  -- Refused with a status, or the stream starts, with the limit of its session.
  pub data Reading : Type 0 where
    turned_away : Status → Reading
    reading : String → Option ℕ → Reading

  -- Within the mask; a mountpoint without coordinates makes `haversine` raise `TypeError`.
  unfoldable pub check_mask : Mountpoint fl → fl.F × fl.F → Option Status
  unfolding haversine
  check_mask mp (lat, lon) = if not (fl.lt (fl.literal 0) mp.mask) then none else elim mp.latitude [
    | none ↦ some server_error
    | some mp_lat ↦ elim mp.longitude [
      | none ↦ some server_error
      | some mp_lon ↦
          if fl.lt mp.mask (haversine fl mp_lat mp_lon lat lon) then some bad_request else none
    ]
  ]

  -- The rover's position, when the mountpoint asks for it.
  unfoldable pub check_position : Mountpoint fl → Option String → Option Status
  unfolding check_mask parse_ntrip_gga
  check_position mp gga = if not mp.nmea then none else elim (parse_ntrip_gga fl r gga) [
    | none ↦ some bad_request
    | some position ↦ check_mask mp position
  ]

  -- From the lookup of the mountpoint on.
  unfoldable pub read_mountpoint : NtripCaster fl → String → Option String → Option ℕ → Reading
  unfolding check_position available
  read_mountpoint c mountpoint gga seconds = elim (Dict.get c.mountpoints mountpoint) [
    | none ↦ turned_away not_found
    | some mp ↦
        if not (available fl c mountpoint)
        then turned_away not_found
        else elim (check_position mp gga) [
          | some status ↦ turned_away status
          | none ↦ reading mountpoint seconds
        ]
  ]

  unfoldable pub read_authenticated :
      Services → Bool → NtripCaster fl → String → Option String → String × String → Reading
  unfolding read_mountpoint
  read_authenticated s opa c mountpoint gga (username, password) =
      let result = (authenticate_rover s opa username password mountpoint).0 in
      if not result.0 then turned_away unauthorized else read_mountpoint c mountpoint gga result.1

  module _ (cache : TtlCache) where
    -- From the test of the credentials on.
    unfoldable pub read_credentials :
        Services
        → Bool
        → ℕ
        → Option Limits
        → cache.Store
        → NtripCaster fl
        → ℕ
        → String
        → ReadRequest
        → Option (String × String)
        → cache.Store × Reading
    unfolding enforce_auth_rate_limit read_authenticated
    read_credentials s opa one limits store c now mountpoint q none =
        (store, turned_away unauthorized)
    read_credentials s opa one limits store c now mountpoint q (some credentials) =
        let (store, goes_on) = enforce_auth_rate_limit cache one limits store now q.client in
        if not goes_on
        then (store, turned_away rate_limited)
        else (store, read_authenticated s opa c mountpoint q.gga credentials)

    unfoldable pub stream_mountpoint :
        Services
        → Bool
        → ℕ
        → Option Limits
        → cache.Store
        → NtripCaster fl
        → ℕ
        → String
        → ReadRequest
        → cache.Store × Reading
    unfolding same_lower read_credentials
    stream_mountpoint s opa one limits store c now mountpoint q =
        if not (same_lower q.ntrip_version "Ntrip/2.0")
        then (store, turned_away bad_request)
        else read_credentials s opa one limits store c now mountpoint q q.credentials

    -- The nearest mountpoint is looked for before anything else is checked.
    unfoldable pub find_and_read :
        Services
        → Bool
        → ℕ
        → Option Limits
        → cache.Store
        → NtripCaster fl
        → ℕ
        → ReadRequest
        → cache.Store × Reading
    unfolding stream_mountpoint nearest parse_ntrip_gga
    find_and_read s opa one limits store c now q = elim (parse_ntrip_gga fl r q.gga) [
      | none ↦ (store, turned_away bad_request)
      | some position ↦ elim (nearest fl c.mountpoints position) [
        | none ↦ (store, turned_away not_found)
        | some best_id ↦ stream_mountpoint s opa one limits store c now best_id q
      ]
    ]
