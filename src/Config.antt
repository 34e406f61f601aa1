-- ===== src/Config.antt =====
-- internal/config/azure_auth.go: the Azure credentials from the environment, which is a parameter,
-- as is the test whether a file is there.
pub mod Loaded
pub mod Settings
pub mod Checked
pub mod Credentials
pub mod Clients
use azs3_proxy.Prelude.{
  ℕ, Text, codes, eq_text, Bool, true, false, not, ◌&&◌, ◌||◌, Option, none, some, List, [], ◌∷◌,
  ◌++◌, if◌then◌else◌,
}

pub data AzureAuthMode : Type 0 where
  account_key sas msi spn federated_token az_cli : AzureAuthMode

pub record AzureAuthConfig : Type 0 where
  pub mode : AzureAuthMode
  pub subscription_id : Text
  pub tenant_id : Text
  pub storage_account_name : Text
  pub storage_account_url : Text
  pub account_key : Text
  pub sas_token : Text
  pub msi_client_id : Text
  pub spn_client_id : Text
  pub spn_client_secret : Text
  pub spn_object_id : Text
  pub federated_token_file : Text
  pub federated_client_id : Text

-- os.LookupEnv
abbrev pub Environment : Type 0
Environment = Text → Option Text

-- getEnv
abbrev pub get_env : Environment → Text → Text → Text
get_env env key default_value = elim (env key) [ none ↦ default_value | some value ↦ value ]

abbrev pub is_set : Environment → Text → Bool
is_set env key = not (eq_text (get_env env key []) [])

-- detectAuthMode; `none` is the empty mode
unfoldable pub detect_auth_mode : Environment → Option AzureAuthMode
detect_auth_mode env =
    if is_set env (codes "AZURE_STORAGE_KEY")
    then some account_key
    else if is_set env (codes "AZURE_STORAGE_SAS_TOKEN")
    then some sas
    else if is_set env (codes "AZURE_FEDERATED_TOKEN_FILE")
    then some federated_token
    else if is_set env (codes "AZURE_CLIENT_ID")
        && (is_set env (codes "AZURE_CLIENT_SECRET") && is_set env (codes "AZURE_TENANT_ID"))
    then some spn
    else if eq_text (get_env env (codes "AZURE_USE_MSI") []) (codes "true")
        || is_set env (codes "IMDS_ENDPOINT")
    then some msi
    else if eq_text (get_env env (codes "AZURE_USE_CLI_AUTH") []) (codes "true")
    then some az_cli
    else if is_set env (codes "AZURE_CLIENT_ID") || is_set env (codes "IMDS_ENDPOINT")
    then some msi
    else none

-- the errors, without their texts: the setting that is missing
pub data LoadError : Type 0 where
  no_method unreadable_token_file : LoadError
  missing : Text → LoadError

pub data Loading (A : Type 0) : Type 0 where
  loaded : A → Loading A
  failed : LoadError → Loading A

-- the check of one field
abbrev pub required : Text → Text → Loading AzureAuthConfig → Loading AzureAuthConfig
required name value rest = if eq_text value [] then failed (missing name) else rest

-- the switch of Validate
unfoldable pub validate_mode :
    Environment → (Text → Bool) → AzureAuthMode → AzureAuthConfig → Loading AzureAuthConfig
validate_mode env readable account_key c =
    let key = get_env env (codes "AZURE_STORAGE_KEY") [] in
    required (codes "AZURE_STORAGE_KEY") key (loaded (record c { account_key = key }))
validate_mode env readable sas c =
    let token = get_env env (codes "AZURE_STORAGE_SAS_TOKEN") [] in
    required (codes "AZURE_STORAGE_SAS_TOKEN") token (loaded (record c { sas_token = token }))
validate_mode env readable msi c = loaded c
validate_mode env readable spn c = required (codes "AZURE_CLIENT_ID") c.spn_client_id (
    required (codes "AZURE_CLIENT_SECRET") c.spn_client_secret
      (required (codes "AZURE_TENANT_ID") c.tenant_id (loaded c)))
validate_mode env readable federated_token c =
    let rest =
      required (codes "AZURE_CLIENT_ID") c.federated_client_id
        (required (codes "AZURE_TENANT_ID") c.tenant_id (loaded c)) in
    required (codes "AZURE_FEDERATED_TOKEN_FILE") c.federated_token_file
      (if readable c.federated_token_file then rest else failed unreadable_token_file)
validate_mode env readable az_cli c = loaded c

-- Validate
unfoldable pub validate : Environment → (Text → Bool) → AzureAuthConfig → Loading AzureAuthConfig
validate env readable c =
    required (codes "AZURE_STORAGE_ACCOUNT") c.storage_account_name
      (validate_mode env readable c.mode c)

-- the endpoint of an account
unfoldable pub account_url : Text → Text → Text
account_url backend_type name =
    if eq_text name (codes "devstoreaccount1")
    then codes "http://127.0.0.1:10000/devstoreaccount1"
    else codes "https://"
      ++ (name
          ++ b'.'
            ∷ (if eq_text backend_type (codes "file")
                then codes "file.core.windows.net"
                else codes "blob.core.windows.net"))

-- the fields that are read before the mode is known
abbrev pub initial : Environment → AzureAuthMode → AzureAuthConfig
initial env mode = record {
  mode = mode;
  subscription_id = get_env env (codes "AZURE_SUBSCRIPTION_ID") [];
  tenant_id = get_env env (codes "AZURE_TENANT_ID") [];
  storage_account_name = get_env env (codes "AZURE_STORAGE_ACCOUNT") [];
  storage_account_url = get_env env (codes "AZURE_STORAGE_URL") [];
  account_key = [];
  sas_token = [];
  msi_client_id = get_env env (codes "AZURE_CLIENT_ID") [];
  spn_client_id = get_env env (codes "AZURE_CLIENT_ID") [];
  spn_client_secret = get_env env (codes "AZURE_CLIENT_SECRET") [];
  spn_object_id = get_env env (codes "AZURE_OBJECT_ID") [];
  federated_token_file = get_env env (codes "AZURE_FEDERATED_TOKEN_FILE") [];
  federated_client_id = get_env env (codes "AZURE_CLIENT_ID") [];
}

-- the endpoint that is taken where none is set
unfoldable pub with_url : Text → AzureAuthConfig → AzureAuthConfig
with_url backend_type c =
    if eq_text c.storage_account_url []
    then record c { storage_account_url = account_url backend_type c.storage_account_name }
    else c

-- LoadAzureAuthConfigWithBackend; an empty backend type is blob
unfoldable pub load_azure_auth_config_with_backend :
    Environment → (Text → Bool) → Text → Loading AzureAuthConfig
load_azure_auth_config_with_backend env readable backend_type = elim (detect_auth_mode env) [
  | none ↦ failed no_method
  | some mode ↦ elim (validate env readable (initial env mode)) [
    | failed e ↦ failed e
    | loaded c ↦ loaded (with_url backend_type c)
  ]
]
