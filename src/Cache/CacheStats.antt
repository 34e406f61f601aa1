-- ===== src/Cache/CacheStats.antt =====
-- internal/cache/stats.go: the counters, each an int64 that wraps.
use azs3_proxy.Prelude.{ℕ, add64}

pub record CacheStats : Type 0 where
  pub hits : ℕ
  pub misses : ℕ
  pub evictions : ℕ
  pub expirations : ℕ
  pub total_bytes_stored : ℕ
  pub total_bytes_evicted : ℕ
  pub puts : ℕ
  pub gets : ℕ
  pub deletes : ℕ

abbrev pub record_hit : CacheStats → CacheStats
record_hit s = record s { hits = add64 s.hits 1 }

abbrev pub record_miss : CacheStats → CacheStats
record_miss s = record s { misses = add64 s.misses 1 }

abbrev pub record_eviction : ℕ → CacheStats → CacheStats
record_eviction bytes s = record s {
  evictions = add64 s.evictions 1;
  total_bytes_evicted = add64 s.total_bytes_evicted bytes;
}

abbrev pub record_expiration : ℕ → CacheStats → CacheStats
record_expiration bytes s = record s {
  expirations = add64 s.expirations 1;
  total_bytes_evicted = add64 s.total_bytes_evicted bytes;
}

abbrev pub record_put : ℕ → CacheStats → CacheStats
record_put bytes s = record s {
  puts = add64 s.puts 1;
  total_bytes_stored = add64 s.total_bytes_stored bytes;
}

abbrev pub record_get : CacheStats → CacheStats
record_get s = record s { gets = add64 s.gets 1 }

abbrev pub record_delete : CacheStats → CacheStats
record_delete s = record s { deletes = add64 s.deletes 1 }

-- `Reset`, and the zero value
abbrev pub reset : CacheStats
reset = record {
  hits = 0;
  misses = 0;
  evictions = 0;
  expirations = 0;
  total_bytes_stored = 0;
  total_bytes_evicted = 0;
  puts = 0;
  gets = 0;
  deletes = 0;
}

-- Statistics, without the hit rate
pub record Statistics : Type 0 where
  pub hits : ℕ
  pub misses : ℕ
  pub total_requests : ℕ
  pub evictions : ℕ
  pub expirations : ℕ
  pub total_bytes_stored : ℕ
  pub total_bytes_evicted : ℕ
  pub puts : ℕ
  pub gets : ℕ
  pub deletes : ℕ

-- GetStats
abbrev pub get_statistics : CacheStats → Statistics
get_statistics s = record {
  hits = s.hits;
  misses = s.misses;
  total_requests = add64 s.hits s.misses;
  evictions = s.evictions;
  expirations = s.expirations;
  total_bytes_stored = s.total_bytes_stored;
  total_bytes_evicted = s.total_bytes_evicted;
  puts = s.puts;
  gets = s.gets;
  deletes = s.deletes;
}
