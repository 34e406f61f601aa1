-- ===== src/Config/Settings.antt =====
-- internal/config/config.go: Load and Validate. float64 is the parameter of Bandwidth, and
-- strconv.ParseFloat another.
use Prim.Native.String.{String}
use azs3_proxy.Prelude.{
  Text, codes, eq_text, trim_space, to_lower, Bool, true, false, not, ◌&&◌, ◌||◌, Option, none,
  some, [], ◌++◌, ltb, ◌==◌, if◌then◌else◌,
}
use azs3_proxy.Bandwidth.{Floats}
use azs3_proxy.Range.Numbers.{Int64, positive, negative, parse_int}
use azs3_proxy.Config.{
  AzureAuthConfig, Environment, get_env, LoadError, loaded, failed,
  load_azure_auth_config_with_backend,
}

-- x <= 0, and a < b
unfoldable pub not_positive : Int64 → Bool
not_positive (positive n) = n == 0
not_positive (negative n) = true

unfoldable pub less : Int64 → Int64 → Bool
less (positive a) (positive b) = ltb a b
less (positive a) (negative b) = false
less (negative a) (positive b) = not (a == 0 && b == 0)
less (negative a) (negative b) = ltb b a

-- the value of a variable that is set to an integer; strconv.Atoi is ParseInt of base 10
unfoldable pub parse_int_env : Environment → Text → Int64 → Int64
parse_int_env env key default_value = elim (env key) [
  | none ↦ default_value
  | some value ↦ elim (parse_int 10 value) [ none ↦ default_value | some i ↦ i ]
]

-- the values of CACHE_MAX_SIZE and of CACHE_TTL; an empty one is no number, as one that is not set
unfoldable pub cache_max_size : Environment → Int64
cache_max_size env = parse_int_env env (codes "CACHE_MAX_SIZE") (positive 1073741824)

unfoldable pub cache_ttl : Environment → Int64
cache_ttl env =
    let ttl = parse_int_env env (codes "CACHE_TTL") (positive 3600) in
    if not_positive ttl then positive 3600 else ttl

-- normalizeBackendType
unfoldable pub normalize_backend_type : Text → Text
normalize_backend_type raw =
    if eq_text (to_lower (trim_space raw)) (codes "file") then codes "file" else codes "blob"

abbrev pub is_true : Environment → Text → Bool
is_true env key = eq_text (get_env env key (codes "false")) (codes "true")

module _ (fl : Floats) (parse_float : Text → Option fl.Float) where
  pub record Config : Type 0 where
    pub listen_addr : Text
    pub admin_token : Text
    pub adaptive_concurrency_enabled : Bool
    pub adaptive_concurrency_min : Int64
    pub adaptive_concurrency_max : Int64
    pub adaptive_concurrency_target_ms : Int64
    pub adaptive_concurrency_acquire_ms : Int64
    pub enable_tls : Bool
    pub cert_file : Text
    pub key_file : Text
    pub azure_backend_type : Text
    pub azure_auth : Option AzureAuthConfig
    pub s3_access_key_id : Text
    pub s3_secret_access_key : Text
    pub log_level : Text
    pub log_file : Text
    pub log_mode : Text
    pub cache_enabled : Bool
    pub cache_path : Text
    pub cache_max_size : Int64
    pub cache_ttl : Int64
    pub cap_mbps_read : fl.Float
    pub cap_mbps_write : fl.Float
    pub cap_mbps_combined : fl.Float

  -- parseFloatEnv
  unfoldable pub parse_float_env : Environment → Text → fl.Float
  parse_float_env env key = elim (env key) [
    | none ↦ fl.of_count 0
    | some value ↦ elim (parse_float value) [ none ↦ fl.of_count 0 | some f ↦ f ]
  ]

  abbrev above_zero : fl.Float → Bool
  above_zero x = fl.more x (fl.of_count 0)

  abbrev below_zero : fl.Float → Bool
  below_zero x = fl.more (fl.of_count 0) x

  -- an error, or what the checks that follow say
  abbrev check : Bool → String → Option Text → Option Text
  check fails message rest = if fails then some (codes message) else rest

  -- the checks of the adaptive limiter
  unfoldable pub check_limiter : Config → Option Text
  check_limiter c =
      if not c.adaptive_concurrency_enabled
      then none
      else check (not_positive c.adaptive_concurrency_min)
          "ADAPTIVE_CONCURRENCY_MIN must be positive"
          (check (less c.adaptive_concurrency_max c.adaptive_concurrency_min)
            "ADAPTIVE_CONCURRENCY_MAX must be >= min"
            (check (not_positive c.adaptive_concurrency_target_ms)
              "ADAPTIVE_CONCURRENCY_TARGET_MS must be positive"
              (check (not_positive c.adaptive_concurrency_acquire_ms)
                "ADAPTIVE_CONCURRENCY_ACQUIRE_TIMEOUT_MS must be positive" none)))

  -- the checks of the caps
  unfoldable pub check_caps : Config → Option Text → Option Text
  check_caps c rest =
      check
        (below_zero c.cap_mbps_read
          || (below_zero c.cap_mbps_write || below_zero c.cap_mbps_combined))
        "CAP_MBPS* values must be non-negative"
        (check
          (above_zero c.cap_mbps_combined
            && (above_zero c.cap_mbps_read || above_zero c.cap_mbps_write))
          "CAP_MBPS cannot be used together with CAP_MBPS_READ or CAP_MBPS_WRITE" rest)

  -- the checks of the cache
  unfoldable pub check_cache : Config → Option Text → Option Text
  check_cache c rest =
      if not c.cache_enabled
      then rest
      else check (eq_text c.cache_path []) "CACHE_PATH is required when CACHE_ENABLED is true" (
          check (not_positive c.cache_max_size)
            "CACHE_MAX_SIZE must be positive when caching is enabled"
            (check (not_positive c.cache_ttl) "CACHE_TTL must be positive when caching is enabled"
              rest))

  abbrev is_missing : Option AzureAuthConfig → Bool
  is_missing none = true
  is_missing (some auth) = false

  -- Validate: the first check that fails
  unfoldable pub validate_config : Config → Option Text
  validate_config c = check (is_missing c.azure_auth) "azure authentication config is required" (
      check (eq_text c.s3_access_key_id []) "S3_ACCESS_KEY is required" (
        check (eq_text c.s3_secret_access_key []) "S3_SECRET_KEY is required" (
          if not (eq_text c.azure_backend_type (codes "blob"))
            && not (eq_text c.azure_backend_type (codes "file"))
          then some (
              codes "AZURE_BACKEND_TYPE must be either 'blob' or 'file', got: "
              ++ c.azure_backend_type)
          else check (c.enable_tls && (eq_text c.cert_file [] || eq_text c.key_file []))
              "TLS_CERT_FILE and TLS_KEY_FILE are required when ENABLE_TLS is true"
              (check_cache c (check_caps c (check_limiter c))))))

  pub data LoadResult : Type 0 where
    configured : Config → LoadResult
    invalid : Text → LoadResult
    no_azure_auth : LoadError → LoadResult

  -- the configuration of an environment, before it is validated
  unfoldable pub config_of : Environment → Text → AzureAuthConfig → Config
  config_of env backend_type auth = record {
    listen_addr = get_env env (codes "LISTEN_ADDR") (codes ":8080");
    admin_token = get_env env (codes "ADMIN_TOKEN") [];
    adaptive_concurrency_enabled = is_true env (codes "ADAPTIVE_CONCURRENCY_ENABLED");
    adaptive_concurrency_min = parse_int_env env (codes "ADAPTIVE_CONCURRENCY_MIN") (positive 4);
    adaptive_concurrency_max = parse_int_env env (codes "ADAPTIVE_CONCURRENCY_MAX") (positive 64);
    adaptive_concurrency_target_ms =
        parse_int_env env (codes "ADAPTIVE_CONCURRENCY_TARGET_MS") (positive 200);
    adaptive_concurrency_acquire_ms =
        parse_int_env env (codes "ADAPTIVE_CONCURRENCY_ACQUIRE_TIMEOUT_MS") (positive 500);
    enable_tls = is_true env (codes "ENABLE_TLS");
    cert_file = get_env env (codes "TLS_CERT_FILE") [];
    key_file = get_env env (codes "TLS_KEY_FILE") [];
    azure_backend_type = backend_type;
    azure_auth = some auth;
    s3_access_key_id = get_env env (codes "S3_ACCESS_KEY") [];
    s3_secret_access_key = get_env env (codes "S3_SECRET_KEY") [];
    log_level = get_env env (codes "LOG_LEVEL") (codes "warn");
    log_file = get_env env (codes "LOG_FILE") [];
    log_mode = get_env env (codes "LOG_MODE") (codes "console");
    cache_enabled = is_true env (codes "CACHE_ENABLED");
    cache_path = get_env env (codes "CACHE_PATH") (codes "/tmp/azs3-proxy-cache");
    cache_max_size = cache_max_size env;
    cache_ttl = cache_ttl env;
    cap_mbps_read = parse_float_env env (codes "CAP_MBPS_READ");
    cap_mbps_write = parse_float_env env (codes "CAP_MBPS_WRITE");
    cap_mbps_combined = parse_float_env env (codes "CAP_MBPS");
  }

  -- LoadConfig
  unfoldable pub load_config : Environment → (Text → Bool) → LoadResult
  load_config env readable =
      let backend_type = normalize_backend_type (get_env env (codes "AZURE_BACKEND_TYPE") []) in
      elim (load_azure_auth_config_with_backend env readable backend_type) [
        | failed e ↦ no_azure_auth e
        | loaded auth ↦
            let c = config_of env backend_type auth in
            elim (validate_config c) [ none ↦ configured c | some message ↦ invalid message ]
      ]
