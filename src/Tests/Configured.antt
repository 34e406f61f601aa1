-- ===== src/Tests/Configured.antt =====
-- A configuration that is loaded from an environment.
use azs3_proxy.Prelude.{◌≡◌, refl, Text, codes, eq_text, Bool, false, none, some, if◌then◌else◌}
use azs3_proxy.Config.{
  AzureAuthMode, account_key, AzureAuthConfig, Environment, loaded, initial, detect_auth_mode,
  validate, validate_mode, with_url, account_url, load_azure_auth_config_with_backend,
}
use azs3_proxy.Config.Loaded.{IsComplete, load_azure_auth_config_with_backend-IsComplete}

abbrev env0 : Environment
env0 key =
    if eq_text key (codes "AZURE_STORAGE_ACCOUNT")
    then some (codes "acc")
    else if eq_text key (codes "AZURE_STORAGE_KEY")
    then some (codes "k")
    else none

abbrev no_file : Text → Bool
no_file name = false

abbrev config0 : AzureAuthConfig
config0 = record (initial env0 account_key) {
  account_key = codes "k";
  storage_account_url = codes "https://acc.file.core.windows.net";
}

loaded_test : load_azure_auth_config_with_backend env0 no_file (codes "file") ≡ loaded config0
unfolding load_azure_auth_config_with_backend detect_auth_mode validate validate_mode with_url
    account_url eq_text
loaded_test = refl

load_azure_auth_config_with_backend-IsComplete_example :
    (mode : AzureAuthMode) × (detect_auth_mode env0 ≡ some mode) × IsComplete no_file mode config0
load_azure_auth_config_with_backend-IsComplete_example =
    load_azure_auth_config_with_backend-IsComplete env0 no_file (codes "file") config0 loaded_test
