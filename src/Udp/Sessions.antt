-- ===== src/Udp/Sessions.antt =====
-- The sessions of `RTCMDatagramServer`, src/corshub/rtcm/udp.py: its datagrams, the coroutines that
-- these start, and the pump of a session. The session objects stand in a heap, since a coroutine may
-- still hold one that is torn down. A coroutine that is started is a job; none of them waits before it
-- has changed the state, so that a job is one step. The decoder, the verification of a token, the
-- signer and the size of a datagram on the wire are parameters.
use Prim.Native.String as Text
use corshub.Prelude.{
  ℕ, zero, suc, ◌+◌, ◌/◌, ◌%◌, Bool, Option, none, some, String, List, [], ◌∷◌, ◌++◌, ltb, ◌==◌,
  if◌then◌else◌, string_eq, nat_eq, same,
}
use corshub.Dict
use corshub.Dict.{Dict}
use corshub.Float.{Float}
use corshub.Framing.{Bytes}
use corshub.Caster.{NtripCaster}
use corshub.Caster.Positions.{set_rover_position, clear_rover_position}
use corshub.Udp.{
  ErrorCode, invalid_token, out_of_range, resolved, refused, Position, scope_allows,
  is_out_of_range, nearest, resolve_mountpoint,
}

abbrev pub Address : Type 0
Address = String × ℕ

pub record Session : Type 0 where
  pub session_id : ℕ
  pub mountpoint : String
  pub addr : Address
  pub expiry : ℕ
  pub scope : String
  pub dynamic : Bool
  pub seq : ℕ
  pub task : Option ℕ

-- A frame object: its identity, and its bytes.
abbrev pub Frame : Type 0
Frame = ℕ × Bytes

pub record SignedCorrection : Type 0 where
  pub payload : Bytes
  pub signature : Bytes

-- The datagrams that the server sends, by their bodies.
pub data Outgoing : Type 0 where
  hello_ack : Address → ℕ → String → Outgoing
  error : Address → ErrorCode → Outgoing
  correction : Address → ℕ → ℕ → SignedCorrection → Outgoing

-- What a coroutine that was started will do: with a session, by its place in the heap.
pub data Job (F : Type 0) : Type 0 where
  on_hello : Address → String → String → Option (F × F) → Job F
  on_switch : ℕ → String → Option (F × F) → Job F
  teardown : ℕ → Job F
  evict : ℕ → ErrorCode → Job F

-- The body of a datagram that is decoded.
pub data Body (F : Type 0) : Type 0 where
  hello : String → String → Option (F × F) → Body F
  keepalive : Option (F × F) → Body F
  switch_mountpoint : String → Option (F × F) → Body F
  bye : Body F
  other : Body F

abbrev pub digit : ℕ → String
digit n =
    if n == 0
    then "0"
    else if n == 1
    then "1"
    else if n == 2
    then "2"
    else if n == 3
    then "3"
    else if n == 4
    then "4"
    else if n == 5
    then "5"
    else if n == 6
    then "6"
    else if n == 7
    then "7"
    else if n == 8
    then "8"
    else "9"

-- `str` of a whole number, on fuel; a number has no more digits than it counts.
unfoldable pub decimal_of : ℕ → ℕ → String
decimal_of zero n = digit (n % 10)
decimal_of (suc fuel) n =
    let rest = decimal_of fuel (n / 10) in
    if ltb n 10 then digit n else Text.◌++◌ rest (digit (n % 10))

abbrev pub decimal : ℕ → String
decimal n = decimal_of n n

module _ (fl : Float) where
  pub record Server : Type 0 where
    pub caster : NtripCaster fl
    pub session_ttl : ℕ
    pub max_datagram : ℕ
    pub sessions : Dict ℕ ℕ
    pub heap : ℕ → Session
    pub allocated : ℕ
    pub tasks : ℕ
    pub cancelled : List ℕ
    pub jobs : List (Job fl.F)
    pub signed_cache : Dict String (Frame × SignedCorrection)
    pub sent : List Outgoing

  -- What the server uses of protobuf, of the tokens and of the signing key. A token gives the
  -- mountpoint that it claims; a signature is empty where signing is off.
  pub record Wire : Type 0 where
    pub decode : Bytes → Option (ℕ × Body fl.F)
    pub claimed : String → Option String
    pub sign : String → ℕ → Bytes → SignedCorrection
    pub size : ℕ → ℕ → SignedCorrection → ℕ

  abbrev pub put : (ℕ → Session) → ℕ → Session → ℕ → Session
  put h i s j = if i == j then s else h j

  unfoldable pub send : Server → Outgoing → Server
  send v o = record v { sent = v.sent ++ o ∷ [] }

  unfoldable pub spawn : Server → Job fl.F → Server
  spawn v j = record v { jobs = v.jobs ++ j ∷ [] }

  -- Cancelling a session's task, if there is one.
  unfoldable pub cancel : Server → Option ℕ → Server
  cancel v none = v
  cancel v (some t) = record v { cancelled = v.cancelled ++ t ∷ [] }

  unfoldable pub repoint : Server → ℕ → String → Server
  unfolding cancel
  repoint v i mountpoint =
      let s = v.heap i in
      if same mountpoint s.mountpoint
      then v
      else cancel
          (record v {
            heap = put v.heap i (record s { mountpoint = mountpoint; task = some v.tasks });
            tasks = v.tasks + 1;
          })
          s.task

  unfoldable pub is_nearest : String → Bool
  is_nearest requested = same requested "NEAREST"

  -- `_on_hello`, with the number that `secrets.randbits(64)` draws.
  unfoldable pub run_hello :
      Wire → Server → ℕ → ℕ → Address → String → String → Option (Position fl) → Server
  unfolding send is_nearest
  run_hello w v now drawn addr token requested position = elim (w.claimed token) [
    | none ↦ send v (error addr invalid_token)
    | some token_mp ↦
        elim (resolve_mountpoint fl v.caster.mountpoints token_mp requested position) [
          | refused code ↦ send v (error addr code)
          | resolved mountpoint ↦
              let session : Session = record {
                session_id = drawn;
                mountpoint = mountpoint;
                addr = addr;
                expiry = now + v.session_ttl;
                scope = token_mp;
                dynamic = is_nearest requested;
                seq = 0;
                task = some v.tasks;
              } in
              send
                (record v {
                  sessions = Dict.set v.sessions drawn v.allocated;
                  heap = put v.heap v.allocated session;
                  allocated = v.allocated + 1;
                  tasks = v.tasks + 1;
                })
                (hello_ack addr drawn mountpoint)
        ]
  ]

  unfoldable pub run_switch : Server → ℕ → String → Option (Position fl) → Server
  unfolding send is_nearest repoint
  run_switch v i requested position =
      let s = v.heap i in
      elim (resolve_mountpoint fl v.caster.mountpoints s.scope requested position) [
        | refused code ↦ send v (error s.addr code)
        | resolved mountpoint ↦
            repoint (record v { heap = put v.heap i (record s { dynamic = is_nearest requested }) })
              i mountpoint
      ]

  -- The task of a session that a coroutine cancels: not the one that it runs in itself.
  unfoldable pub other_task : Option ℕ → Option ℕ → Option ℕ
  other_task none task = task
  other_task (some t) none = none
  other_task (some t) (some task) = if task == t then none else some task

  -- `_teardown`, in the task of a session (`asyncio.current_task()`), or in none of these.
  unfoldable pub run_teardown : Server → Option ℕ → ℕ → Server
  unfolding cancel decimal_of other_task
  run_teardown v current i =
      let s = v.heap i in
      elim (Dict.get v.sessions s.session_id) [
        | none ↦ v
        | some _ ↦
            cancel
              (record v {
                sessions = Dict.pop v.sessions s.session_id;
                caster = clear_rover_position fl v.caster s.mountpoint (decimal s.session_id);
                heap = put v.heap i (record s { task = none });
              })
              (other_task current s.task)
      ]

  -- `_evict`, which runs in a task of its own.
  unfoldable pub run_evict : Server → ℕ → ErrorCode → Server
  unfolding send run_teardown
  run_evict v i code = run_teardown (send v (error (v.heap i).addr code)) none i

  unfoldable pub run_keepalive : Server → ℕ → Option (Position fl) → Server
  unfolding spawn repoint decimal_of
  run_keepalive v i none = v
  run_keepalive v i (some position) =
      let s = v.heap i in
      let v = record v {
        caster = set_rover_position fl v.caster s.mountpoint (decimal s.session_id) position;
      } in
      if s.dynamic
      then (elim (nearest fl v.caster.mountpoints position) [
        | none ↦ spawn v (evict i out_of_range)
        | some best ↦ if scope_allows s.scope best then repoint v i best else v
      ])
      else if is_out_of_range fl v.caster.mountpoints s.mountpoint position
      then spawn v (evict i out_of_range)
      else v

  -- What a datagram that is not a hello does to its session.
  unfoldable pub dispatch : Server → ℕ → Body fl.F → Server
  unfolding spawn run_keepalive
  dispatch v i (hello token requested position) = v
  dispatch v i (keepalive position) = run_keepalive v i position
  dispatch v i (switch_mountpoint requested position) = spawn v (on_switch i requested position)
  dispatch v i bye = spawn v (teardown i)
  dispatch v i other = v

  unfoldable pub refresh : Server → ℕ → ℕ → Address → Server
  refresh v now i addr = record v {
    heap = put v.heap i (record (v.heap i) { addr = addr; expiry = now + v.session_ttl });
  }

  unfoldable pub handle_body : Server → ℕ → Address → ℕ → Body fl.F → Server
  unfolding dispatch refresh spawn
  handle_body v now addr session_id (hello token requested position) =
      spawn v (on_hello addr token requested position)
  handle_body v now addr session_id body = elim (Dict.get v.sessions session_id) [
    | none ↦ v
    | some i ↦ dispatch (refresh v now i addr) i body
  ]

  unfoldable pub handle_datagram : Wire → Server → ℕ → Bytes → Address → Server
  unfolding handle_body
  handle_datagram w v now bytes addr = elim (w.decode bytes) [
    | none ↦ v
    | some (session_id, body) ↦ handle_body v now addr session_id body
  ]

  unfoldable pub run_job : Wire → Server → ℕ → ℕ → Job fl.F → Server
  unfolding run_hello run_switch run_teardown run_evict
  run_job w v now drawn (on_hello addr token requested position) =
      run_hello w v now drawn addr token requested position
  run_job w v now drawn (on_switch i requested position) = run_switch v i requested position
  run_job w v now drawn (teardown i) = run_teardown v none i
  run_job w v now drawn (evict i code) = run_evict v i code

  -- The oldest job, if there is one.
  unfoldable pub run_next : Wire → Server → ℕ → ℕ → Server
  unfolding run_job
  run_next w v now drawn = elim v.jobs [
    | [] ↦ v
    | j ∷ js ↦ run_job w (record v { jobs = js }) now drawn j
  ]
