-- ===== src/Stats/Totals.antt =====
-- The totals of S3OperationStats are the sums over the methods.
use azs3_proxy.Prelude.{ℕ, ◌+◌, ◌%◌, ◌≡◌, refl, Bool, true, false, List, [], ◌∷◌, arith, int64_mod}
use azs3_proxy.Stats.{
  Method, list_buckets, create_bucket, delete_bucket, list_objects_v2, get_object, put_object,
  delete_object, head_object, delete_multiple, initiate_multi, upload_part, complete_multi,
  abort_multi, list_parts, list_multi_uploads, enable_version, get_version, list_obj_versions,
  get_obj_version, delete_obj_version, S3OperationStats, record_result, zero_stats, get_stats,
}

-- the sum of a number over the twenty methods
abbrev pub sum_methods : (Method → ℕ) → ℕ
sum_methods f =
    f list_buckets
    + f create_bucket
    + f delete_bucket
    + f list_objects_v2
    + f get_object
    + f put_object
    + f delete_object
    + f head_object
    + f delete_multiple
    + f initiate_multi
    + f upload_part
    + f complete_multi
    + f abort_multi
    + f list_parts
    + f list_multi_uploads
    + f enable_version
    + f get_version
    + f list_obj_versions
    + f get_obj_version
    + f delete_obj_version

-- the calls of the Record functions, in order
abbrev pub record_calls : List (Method × Bool) → S3OperationStats → S3OperationStats
record_calls [] s = s
record_calls ((m, b) ∷ calls) s = record_calls calls (record_result m b s)

pub record IsTotalled (s : S3OperationStats) : Type 0 where
  pub successes : s.total_successes ≡ sum_methods (λ m. (s.methods m).successes) % int64_mod
  pub failures : s.total_failures ≡ sum_methods (λ m. (s.methods m).failures) % int64_mod

record_success-IsTotalled :
    (m : Method) (s : S3OperationStats) → IsTotalled s → IsTotalled (record_result m true s)
unfolding record_result
record_success-IsTotalled list_buckets s h = record {
  successes = omega (arith, h.successes);
  failures = h.failures;
}
record_success-IsTotalled m s h = record {
  successes = omega (arith, h.successes);
  failures = h.failures;
}

record_failure-IsTotalled :
    (m : Method) (s : S3OperationStats) → IsTotalled s → IsTotalled (record_result m false s)
unfolding record_result
record_failure-IsTotalled list_buckets s h = record {
  successes = h.successes;
  failures = omega (arith, h.failures);
}
record_failure-IsTotalled m s h = record {
  successes = h.successes;
  failures = omega (arith, h.failures);
}

record_calls-IsTotalled :
    (calls : List (Method × Bool)) (s : S3OperationStats)
    → IsTotalled s
    → IsTotalled (record_calls calls s)
record_calls-IsTotalled [] s h = h
record_calls-IsTotalled ((m, true) ∷ calls) s h =
    record_calls-IsTotalled calls (record_result m true s) (record_success-IsTotalled m s h)
record_calls-IsTotalled ((m, false) ∷ calls) s h =
    record_calls-IsTotalled calls (record_result m false s) (record_failure-IsTotalled m s h)

-- After any sequence of Record calls on fresh statistics, the snapshot's totals of successes,
-- failures and requests are the sums over the twenty methods, modulo 2 ^ 64.
pub get_stats-sum_methods :
    (calls : List (Method × Bool))
    → let snapshot = get_stats (record_calls calls zero_stats) in
      (snapshot.total_successes ≡ sum_methods (λ m. (snapshot.methods m).success) % int64_mod)
      × (snapshot.total_failures ≡ sum_methods (λ m. (snapshot.methods m).failure) % int64_mod)
      × (snapshot.total_requests ≡ sum_methods (λ m. (snapshot.methods m).total) % int64_mod)
unfolding get_stats
get_stats-sum_methods calls =
    let h : IsTotalled (record_calls calls zero_stats) =
      record_calls-IsTotalled calls zero_stats (record { successes = refl; failures = refl }) in
    (h.successes, h.failures, omega (arith, h.successes, h.failures))
