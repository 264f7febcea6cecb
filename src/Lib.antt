-- ===== src/Lib.antt =====
-- Verification of CORSHub, an NTRIP caster for RTCM corrections.
-- A base station pushes RTCM3 bytes to a mountpoint; the caster registers the mountpoint, opens a
-- transport for it and fans the bytes out to the rovers that subscribed to it; a quality pipeline cuts
-- the same bytes into frames and keeps windows of signal quality; a policy server and bcrypt decide who
-- may publish and who may subscribe, behind a rate limiter; a reaper unregisters silent mountpoints.
--
-- The parts, and where they are modelled:
--   Framing     `_split_rtcm_frames` of src/corshub/ntrip/v2/caster.py.
--   AsyncQueue  the `asyncio.Queue` operations that the program uses.
--   Subscriber  `QueueTransportSubscriber` of src/corshub/ntrip/v2/transport.py.
--   Transport   `QueueTransport` of the same file, its subscribers in a heap.
--   Quality     `ConstellationQuality` and `MountpointQuality` of src/corshub/ntrip/v2/quality.py.
--   Observe     `_observe_rtcm_quality` of src/corshub/ntrip/v2/caster.py.
--   Mountpoint  `Mountpoint` of the same file, and its validation.
--   Caster      `NTRIPCaster` of the same file. Its methods are functions from the state to the new
--     state: the registry in Caster, delivery and tasks in Caster/Publishing, the reaper in
--     Caster/Reaper, rover positions in Caster/Positions, and in Caster/Authentication the two
--     authentications with `OPAClient.query` of src/corshub/opa/client.py and `verify` of
--     src/corshub/crypto/secrets.py. Caster/Histories has the events that happen to a caster,
--     and Caster/Followed one subscriber through them.
--   RateLimit   `RateLimiter` of src/corshub/http/ratelimit.py.
--   Routes      the admission of a base station in src/corshub/services/v1/ntrip/put.py, and in
--     Routes/Upload its body, with what others do to the caster between the chunks.
--     Routes/Read has the rover routes, read.py and nearest.py beside it: the checks on a request, the
--     nearest mountpoint, and the reader of the positions that a rover sends; Routes/Stream has the
--     stream of frames to a rover. Routes/Session has the route that mints a session token,
--     services/v1/rtcm/session.py.
--   Tokens      the session tokens and the choice of the signing key, src/corshub/rtcm/tokens.py and
--     keys.py beside it. The UDP server reads these tokens.
--   Jwks        the verification of tokens of other issuers, `JWKSManager` of src/corshub/jwt.py.
--   ServiceAccount  the token of the service account, `ServiceAccountTokenManager` of the same file.
--   Metrics     the collector that reads the caster at a scrape, src/corshub/metrics.py.
--   Geodesy     `haversine` of src/corshub/ntrip/v2/headers.py.
--   Headers     the parsers of Ntrip-STR and Ntrip-GGA of the same file.
--   Sourcetable the source table, src/corshub/ntrip/v2/sourcetable.py.
--   Here4       tools/here4-base-caster.py, a base station: its data, commands, header and arguments in
--     Here4, the receiver's messages and the station's state in Here4/Receiver, the steps of its loops
--     in Here4/Loops, the connection to the caster in Here4/Pusher, all events in Here4/Runs.
--   Onboard     .github/scripts/onboard.py, the bot that issues credentials: the detection of changes and
--     the generation of a credential in Onboard, YAML values and the strict loader in Onboard/Values,
--     the effects of a run in Onboard/Effects.
--   Udp         `RTCMDatagramServer` of src/corshub/rtcm/udp.py: authorization, ranges and sequence
--     numbers in Udp, its sessions, datagrams and started coroutines in Udp/Sessions, the pump, the
--     signed frames and the reaper in Udp/Egress, and the events that happen to it in Udp/Histories.
--   Float       what the program uses of floats and of statistics, a parameter.
--   Strings     the methods of `str` that the program uses.
--   Dict        Python's `dict`, in insertion order.
--   Prelude     shared names, tests on numbers, lists, equality of keys.
--   Tests       runs on concrete inputs, and the theorems applied.
--
-- Coroutines run one at a time, and a method of the model is what runs between two points where
-- another task may run; a waiting `get` is split at its wait. Shared objects stand in heaps: the
-- subscribers of a transport, and the transports of the caster, which a rover still holds when the
-- registry has let go of them. Metrics are lists of reports. The loop of the frame splitter recurs on
-- accessibility of the input's length, every other loop on its list; only the decimal
-- digits of a number recur on fuel, the number itself, which is enough, as Udp/Decimal shows. Times,
-- tokens and costs are whole numbers of a unit; the monotonic clock does not go back.
--
-- Parameters: the RTCM reader (pyrtcm), the policy server and the HTTP exchange with it,
-- `bcrypt.checkpw`, the decoder, the signer and the token verification of the UDP server, the TTL
-- cache of cachetools, jwt, the keys that other issuers serve, and floats; `str.upper`, `int` and
-- `float` of a text, the formatting of floats and the reader of NMEA sentences; for the base
-- station, the messages of pyubx2 and pyrtcm and the answers of the caster; for the bot, the
-- answers of git, sops, age, bcrypt, ssh-keygen and GitHub. What is assumed of the cache stands in
-- `TtlCache`, and of the comparison of floats in `IsOrder`, where a theorem names it, of the
-- readers of numbers in `IsAnnouncement` and `IsListed`, of jwt in `IsJwt`, of the cache of keys in
-- `IsCache`, of the cache of the service account in `IsSlot`, and of a cache of buckets, which has
-- room for a number of keys, in `IsBounded`; nothing is assumed of the others.
--
-- Not modelled: the other routes, the socket of the UDP egress, the terminal display of the base
-- station; logging, start-up, configuration and the declarations of the metrics.
pub mod Prelude
pub mod Dict
pub mod Framing
pub mod AsyncQueue
pub mod Subscriber
pub mod Transport
pub mod RateLimit
pub mod Float
pub mod Quality
pub mod Observe
pub mod Mountpoint
pub mod Caster
pub mod Geodesy
pub mod Udp
pub mod Routes
pub mod Tests
pub mod Strings
pub mod Onboard
pub mod Here4
pub mod Headers
pub mod Sourcetable
pub mod Metrics
pub mod Tokens
pub mod Jwks
pub mod ServiceAccount
