-- ===== src/Tests/Routes.antt =====
-- Tests of the PUT route.
use corshub.Prelude.{true, some, string_eq}
use corshub.RateLimit.{Limits}
use corshub.Routes.{PutRequest, absent, admit_put}
use corshub.Routes.Admission.{Admits, admit_put-Admits}
use corshub.Tests.Registry.{new_caster-IsCaster}
use corshub.Tests.Toys.{whole, long_cache, new_caster, generous}

abbrev pub limits : Limits
limits = record { capacity = 5; refill = 1 }

abbrev pub request : PutRequest whole
request = record {
  ntrip_version = "NTRIP/2.0";
  content_type = "gnss/data";
  credentials = some ("B1", "pw");
  client = "10.0.0.1";
  description = absent;
}

admit_put-Admits_example :
    Admits whole generous true new_caster "B1" request
      (admit_put whole long_cache generous true 1
        (some limits)
        long_cache.empty
        new_caster
        5
        "B1"
        request).1
admit_put-Admits_example =
    admit_put-Admits whole long_cache generous true 1 (some limits) long_cache.empty new_caster 5
      "B1" request new_caster-IsCaster
