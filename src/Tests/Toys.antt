-- ===== src/Tests/Toys.antt =====
-- Values that the parameters of the models are instantiated with in the tests.
use corshub.Prelude.{
  true, ℕ, ◌+◌, ◌*◌, ◌-◌, ◌/◌, false, none, some, String, [], ◌∷◌, ltb, leb, if◌then◌else◌,
  string_eq,
}
use corshub.Dict
use corshub.Dict.{Dict, get-set_self, get-empty}
use corshub.Float.{Float}
use corshub.Observe.{Parser, parsed, Pipeline}
use corshub.RateLimit.{Bucket, TtlCache}
use corshub.Caster.{NtripCaster}
use corshub.Transport
use corshub.Caster.Authentication.{Services, answered}

-- Whole numbers for floats.
abbrev pub whole : Float
whole = record {
  F = ℕ;
  infinity = 1000000000;
  literal = λ n. n;
  lt = ltb;
  le = leb;
  max = λ a b. if ltb a b then b else a;
  abs = λ a. a;
  neg = λ a. 0;
  add = λ a b. a + b;
  sub = λ a b. a - b;
  mul = λ a b. a * b;
  div = λ a b. a / b;
  square = λ a. a * a;
  sqrt = λ a. a;
  radians = λ a. a;
  sin = λ a. a;
  cos = λ a. a;
  asin = λ a. a;
  median = λ l. elim l [ [] ↦ 0 | x ∷ _ ↦ x ];
  quantile_95 = λ l. elim l [ [] ↦ 0 | x ∷ _ ↦ x ];
  round = λ a n. a;
}

-- A reader that takes every frame for the same GPS message.
abbrev pub gps_reader : Parser whole
gps_reader = record {
  read = λ frame. parsed record {
    identity = 1074;
    ecef = none;
    attributes = ("PRN_01", some 3) ∷ ("DF403_01", some 45) ∷ ("DF403_02", some 60) ∷ [];
  };
  arp_change_threshold = 1;
  high_cnr_threshold = 55;
}

abbrev pub new_pipeline : Pipeline whole
new_pipeline = record {
  frame_buffer = [];
  seen = record { arp_reference = []; quality = []; metrics = [] };
}

-- A cache that keeps its entries for longer than it promises.
abbrev pub long_cache : TtlCache
long_cache = record {
  Store = Dict String Bucket;
  empty = [];
  ttl = 100;
  get = λ s now k. Dict.get s k;
  set = λ s now k b. Dict.set s k b;
  get-empty = λ now k. get-empty Bucket k;
  get-set_self = λ s t now k b p q. get-set_self s k b;
}

-- `NTRIPCaster()`
abbrev pub new_caster : NtripCaster whole
new_caster = record {
  expiry = some 3600;
  quality_queue_maxsize = 4096;
  mountpoints = [];
  transports = [];
  heap = λ _. Transport.create;
  allocated = 0;
  quality_queue = none;
  pipeline = new_pipeline;
  rover_positions = [];
  reports = [];
  reaper_running = false;
  quality_running = false;
}

-- A policy that allows everybody with the same hash, and a bcrypt that matches everything.
abbrev pub generous : Services
generous = record {
  post = λ policy input.
      answered 200 (
        some
          record { allow = true; password_hash = some "$2b$12$"; max_session_seconds = some 60 });
  checkpw = λ password stored_hash. some true;
}
