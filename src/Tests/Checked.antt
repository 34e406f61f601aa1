-- ===== src/Tests/Checked.antt =====
-- A whole configuration that is loaded from an environment.
use azs3_proxy.Prelude.{
  ℕ, ◌*◌, ◌≡◌, ◌≢◌, [], ◌≤◌, refl, arith, Text, codes, eq_text, trim_space, trim_left, to_lower,
  lower_char, Bool, true, false, none, some, Option, ◌⊎◌, if◌then◌else◌,
}
use azs3_proxy.Bandwidth.{BandwidthLimiter, new_token_bucket, new_bandwidth_limiter}
use azs3_proxy.Limiter.{new_limiter}
use azs3_proxy.Range.Numbers.{positive, parse_int, parse_digits, digits_from, digit, in_range}
use azs3_proxy.Config.{
  account_key, sas, msi, loaded, AzureAuthConfig, Environment, initial, detect_auth_mode, validate,
  validate_mode, with_url, account_url, load_azure_auth_config_with_backend,
}
use azs3_proxy.Config.Settings.{
  not_positive, less, parse_int_env, cache_max_size, cache_ttl, normalize_backend_type, Config,
  configured, parse_float_env, check_limiter, check_caps, check_cache, validate_config, config_of,
  load_config,
}
use azs3_proxy.Handlers.Types.{ok, failed}
use azs3_proxy.Config.Credentials.{ClientSdk, blob_client}
use azs3_proxy.Config.Clients.{blob_client-refused}
use azs3_proxy.Config.Checked.{load_config-single, load_config-limiter}
use azs3_proxy.Tests.Throttled.{counts}
use azs3_proxy.Tests.Counted.{tenths}

abbrev env1 : Environment
env1 key =
    if eq_text key (codes "AZURE_STORAGE_ACCOUNT")
    then some (codes "acc")
    else if eq_text key (codes "AZURE_STORAGE_KEY")
    then some (codes "k")
    else if eq_text key (codes "S3_ACCESS_KEY")
    then some (codes "a")
    else if eq_text key (codes "S3_SECRET_KEY")
    then some (codes "s")
    else if eq_text key (codes "ADAPTIVE_CONCURRENCY_ENABLED")
    then some (codes "true")
    else if eq_text key (codes "CAP_MBPS")
    then some (codes "8")
    else none

-- every number is read as 8
abbrev eight : Text → Option ℕ
eight s = some 8

abbrev no_file : Text → Bool
no_file name = false

abbrev auth1 : AzureAuthConfig
auth1 = record (initial env1 account_key) {
  account_key = codes "k";
  storage_account_url = codes "https://acc.blob.core.windows.net";
}

abbrev config1 : Config counts eight
config1 = config_of counts eight env1 (codes "blob") auth1

load_test : load_config counts eight env1 no_file ≡ configured config1
unfolding load_config load_azure_auth_config_with_backend detect_auth_mode validate validate_mode
    with_url account_url eq_text normalize_backend_type validate_config check_cache check_caps
    check_limiter config_of parse_float_env parse_int_env cache_max_size cache_ttl not_positive less
    trim_space trim_left to_lower lower_char parse_int parse_digits digits_from digit in_range
load_test = refl

abbrev limiter1 : BandwidthLimiter counts
limiter1 = record {
  download = none;
  upload = none;
  combined = new_token_bucket counts 3 (8 * 131072);
}

made_test : new_bandwidth_limiter counts 3 0 0 8 ≡ some limiter1
unfolding new_bandwidth_limiter new_token_bucket
made_test = refl

caps_test : (config1.cap_mbps_read ≡ 0) × (config1.cap_mbps_combined ≡ 8)
unfolding config_of parse_float_env eq_text
caps_test = (refl, refl)

number1 : (x : ℕ) → counts.not_positive x ≡ false → counts.more x 0 ≡ true
number1 x h = ground (arith, h)

sign1 : (x : ℕ) → counts.not_positive x ≡ true → counts.not_positive (counts.to_bps x) ≡ true
sign1 x h = ground (arith, h)

load_config-single_example :
    (limiter1.combined ≡ none) ⊎ ((limiter1.download ≡ none) × (limiter1.upload ≡ none))
unfolding new_bandwidth_limiter new_token_bucket config_of parse_float_env eq_text
load_config-single_example =
    load_config-single counts eight env1 no_file config1 3 limiter1 (number1 0) (number1 0)
      (number1 8) sign1 load_test refl

load_config-limiter_example :
    (least : ℕ) × (most : ℕ) × (config1.adaptive_concurrency_min ≡ positive least)
    × (config1.adaptive_concurrency_max ≡ positive most)
    × (1 ≤ least)
    × (least ≤ most)
    × ((new_limiter tenths least most 7).floor ≡ least)
    × ((new_limiter tenths least most 7).limit ≡ least)
    × ((new_limiter tenths least most 7).ceiling ≡ most)
unfolding config_of eq_text
load_config-limiter_example =
    load_config-limiter counts eight tenths env1 no_file config1 7 load_test refl

abbrev env_msi : Environment
env_msi key =
    if eq_text key (codes "AZURE_STORAGE_ACCOUNT")
    then some (codes "acc")
    else if eq_text key (codes "AZURE_USE_MSI")
    then some (codes "true")
    else none

abbrev auth_msi : AzureAuthConfig
auth_msi = record (initial env_msi msi) {
  storage_account_url = codes "https://acc.blob.core.windows.net";
}

msi_test : load_azure_auth_config_with_backend env_msi no_file (codes "blob") ≡ loaded auth_msi
unfolding load_azure_auth_config_with_backend detect_auth_mode validate validate_mode with_url
    account_url eq_text
msi_test = refl

mode_test : detect_auth_mode env_msi ≡ some msi
unfolding detect_auth_mode eq_text
mode_test = refl

no_key1 : detect_auth_mode env_msi ≢ some account_key
no_key1 e = let f = mode_test in cc

no_sas1 : detect_auth_mode env_msi ≢ some sas
no_sas1 e = let f = mode_test in cc

-- an SDK whose constructors never fail
abbrev sdk1 : ClientSdk
sdk1 = record {
  Key = Text;
  Client = Text;
  new_shared_key_credential = λ name key. ok key;
  new_client_with_shared_key_credential = λ url key. ok url;
  new_client_with_no_credential = λ url. ok url;
}

blob_client-refused_example :
    (e : Text) × (blob_client sdk1 (λ value. value) auth_msi [] ≡ (failed e, []))
blob_client-refused_example =
    blob_client-refused env_msi no_file (codes "blob") auth_msi sdk1 (λ value. value) msi_test
      no_key1 no_sas1
