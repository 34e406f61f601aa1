-- ===== src/Tests/Counted.antt =====
-- Runs of the limiter, of the error codes, of the statistics and of the middleware.
use azs3_proxy.Prelude.{
  ℕ, ◌+◌, ◌-◌, ◌*◌, ◌/◌, ◌%◌, ◌≤◌, ◌≡◌, refl, Text, codes, eq_text, contains, has_prefix, to_lower,
  lower_char, true, false, none, some, [], ◌∷◌, ltb, ◌==◌, arith, Bool, int64_mod,
}
use azs3_proxy.Limiter.{Floats, acquired, poll, release, new_limiter}
use azs3_proxy.Limiter.Bounds.{
  System, initial, Reachable, start, next, polls, ends, IsBounded, Reachable-IsBounded, idle-admits,
}
use azs3_proxy.Errors.{no_such_bucket, azure_error_to_s3, S3Error, http_status}
use azs3_proxy.Errors.Laws.{azure_error_to_s3_no_container}
use azs3_proxy.Stats.{list_buckets, get_object, zero_stats, get_stats}
use azs3_proxy.Stats.Totals.{sum_methods, record_calls, get_stats-sum_methods}
use azs3_proxy.Server
use azs3_proxy.Server.{
  HttpMethod, Request, Handler, list_objects_v2, Route, bucket_route, bucket_handler, route_handler,
  auth_middleware, runs, serve, admin_allowed, BandwidthCaps, update_caps,
}
use azs3_proxy.Server.Busy.{concurrency_middleware, bypasses, concurrency_middleware_busy}

program : Unit {0}
unfolding contains has_prefix to_lower lower_char azure_error_to_s3 eq_text serve auth_middleware
    route_handler bucket_handler update_caps
program = tt

-- numbers with one decimal, as tenths
abbrev pub tenths : Floats
tenths = record {
  F = ℕ;
  of_duration = λ d. d * 10;
  ratio = λ a b. a * 10 / b;
  plus = λ a b. a + b;
  minus = λ a b. a - b;
  times = λ a b. a * b / 10;
  less = λ a b. ltb a b;
  is_zero = λ a. a == 0;
}

abbrev s0 : System tenths
s0 = initial tenths 1 3 0

abbrev s1 : System tenths
s1 = record { limiter = (poll tenths false s0.limiter).0; running = 1 }

abbrev s2 : System tenths
s2 = record { limiter = release tenths 5 true s1.limiter; running = 0 }

s1-Reachable : Reachable tenths 1 3 0 s1
unfolding poll new_limiter
s1-Reachable = next (start {s = s0} refl) (polls false s0 refl)

s2-Reachable : Reachable tenths 1 3 0 s2
s2-Reachable = next s1-Reachable (ends 5 true s1 (omega arith) refl)

Reachable-IsBounded_example : IsBounded tenths 3 s2
Reachable-IsBounded_example = Reachable-IsBounded tenths 1 3 0 s2 s2-Reachable

idle-admits_example : (poll tenths true s2.limiter).1 ≡ acquired
idle-admits_example = idle-admits tenths 1 3 0 s2 true s2-Reachable refl

abbrev error_of : Text → S3Error
error_of text = record {
  code = azure_error_to_s3 text;
  message = [];
  resource = [];
  request_id = [];
}

azure_error_to_s3_no_container_example :
    (azure_error_to_s3 (codes "404 ContainerNotFound.") ≡ no_such_bucket)
    × (http_status (error_of (codes "404 ContainerNotFound.")) ≡ 404)
unfolding program
azure_error_to_s3_no_container_example =
    azure_error_to_s3_no_container (codes "404 ") (codes "ContainerNotFound") (codes ".")
      (error_of (codes "404 ContainerNotFound.")) refl refl

get_stats-sum_methods_example :
    let snapshot =
      get_stats (record_calls ((get_object, true) ∷ (list_buckets, false) ∷ []) zero_stats) in
    (snapshot.total_successes ≡ sum_methods (λ m. (snapshot.methods m).success) % int64_mod)
    × (snapshot.total_failures ≡ sum_methods (λ m. (snapshot.methods m).failure) % int64_mod)
    × (snapshot.total_requests ≡ sum_methods (λ m. (snapshot.methods m).total) % int64_mod)
get_stats-sum_methods_example =
    get_stats-sum_methods ((get_object, true) ∷ (list_buckets, false) ∷ [])

-- a request without query and without token, a signature check that refuses, and a router
abbrev ask : Text → Request
ask path = record { method = Server.get; path = path; query = λ key. none; admin_token = [] }

abbrev refuses : Request → Bool
refuses r = false

abbrev to_bucket : HttpMethod → Text → Route
to_bucket method path = bucket_route

abbrev caps0 : BandwidthCaps tenths
caps0 = record { read_mbps = 50; write_mbps = 20; combined_mbps = 0 }

-- the limiter with a limit of 1, and one request in it
concurrency_middleware_busy_example :
    (s1.limiter.limit ≤ s1.limiter.in_flight)
    × (true ≡ true)
    × (bypasses (codes "/b/k") ≡ false)
    × (some s1.limiter ≡ some s1.limiter)
unfolding program concurrency_middleware poll new_limiter bypasses
concurrency_middleware_busy_example =
    concurrency_middleware_busy tenths (codes "/b/k") true s1.limiter (some s1.limiter) refl
