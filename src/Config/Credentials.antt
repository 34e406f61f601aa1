-- ===== src/Config/Credentials.antt =====
-- internal/backend/common/credentials.go, and what internal/backend/azureblob/credentials.go and
-- NewAzureBlobBackendWithAuth of client.go make of a configuration. The constructors of the Azure
-- SDK are parameters, and so is SHA-256.
use azs3_proxy.Prelude.{Text, codes, none, some, List, [], ◌∷◌, ◌++◌, ℕ, take, lookup, insert}
use azs3_proxy.Auth.{encode_to_string}
use azs3_proxy.Handlers.Types.{Result, ok, failed}
use azs3_proxy.Config.{
  AzureAuthMode, account_key, sas, msi, spn, federated_token, az_cli, AzureAuthConfig,
}

-- the six types that have the interface CredentialProvider
pub data CredentialProvider : Type 0 where
  account_key_credential : (account_name account_key : Text) → CredentialProvider
  sas_token_credential : (sas_token : Text) → CredentialProvider
  managed_identity_credential : (client_id : Text) → CredentialProvider
  service_principal_credential : (tenant_id client_id client_secret : Text) → CredentialProvider
  federated_token_credential : (tenant_id client_id token_file : Text) → CredentialProvider
  az_cli_credential : CredentialProvider

-- NewCredentialProvider
unfoldable pub new_credential_provider : AzureAuthConfig → CredentialProvider
new_credential_provider c = elim c.mode [
  | account_key ↦ account_key_credential c.storage_account_name c.account_key
  | sas ↦ sas_token_credential c.sas_token
  | msi ↦ managed_identity_credential c.msi_client_id
  | spn ↦ service_principal_credential c.tenant_id c.spn_client_id c.spn_client_secret
  | federated_token ↦
      federated_token_credential c.tenant_id c.federated_client_id c.federated_token_file
  | az_cli ↦ az_cli_credential
]

-- the methods GetCredential, none of which gives a credential: the text of the error
unfoldable pub get_credential : CredentialProvider → Text
get_credential (account_key_credential name key) =
    codes "account key auth uses shared key, not token credential"
get_credential (sas_token_credential token) =
    codes "SAS token auth uses URL parameters, not token credential"
get_credential (managed_identity_credential client) =
    codes "MSI credential requires azure-identity SDK"
get_credential (service_principal_credential tenant client secret) =
    codes "SPN credential requires azure-identity SDK"
get_credential (federated_token_credential tenant client file) =
    codes "federated token credential requires azure-identity SDK"
get_credential az_cli_credential = codes "azure CLI credential requires azure-identity SDK"

-- the methods String, for the log
unfoldable pub provider_text : CredentialProvider → Text
provider_text (account_key_credential name key) = codes "AccountKey(account=" ++ (name ++ codes ")")
provider_text (sas_token_credential token) = codes "SASToken"
provider_text (managed_identity_credential []) = codes "ManagedIdentity(system)"
provider_text (managed_identity_credential (c ∷ client)) =
    codes "ManagedIdentity(clientID=" ++ ((c ∷ client) ++ codes ")")
provider_text (service_principal_credential tenant client secret) =
    codes "ServicePrincipal(tenant=" ++ (tenant ++ (codes ",client=" ++ (client ++ codes ")")))
provider_text (federated_token_credential tenant client file) =
    codes "FederatedToken(tenant=" ++ (tenant ++ (codes ",client=" ++ (client ++ codes ")")))
provider_text az_cli_credential = codes "AzureCLI"

-- ServiceEndpoint and SASURL
unfoldable pub service_endpoint : (account_name custom_url service_host : Text) → Text
service_endpoint name [] host =
    codes "https://" ++ (name ++ (b'.' ∷ (host ++ codes ".core.windows.net")))
service_endpoint name (c ∷ url) host = c ∷ url

unfoldable pub sas_url : Text → Text → Text
sas_url base_url sas_token = base_url ++ (b'?' ∷ sas_token)

-- the constants of AzureAuthMode
unfoldable pub mode_text : AzureAuthMode → Text
mode_text account_key = codes "account_key"
mode_text sas = codes "sas"
mode_text msi = codes "msi"
mode_text spn = codes "spn"
mode_text federated_token = codes "federated_token"
mode_text az_cli = codes "az_cli"

-- HashSecret
unfoldable pub hash_secret : (List ℕ → List ℕ) → Text → Text
hash_secret sha256 [] = []
hash_secret sha256 (c ∷ value) = encode_to_string (take 8 (sha256 (c ∷ value)))

-- BuildCacheKey
unfoldable pub build_cache_key : (List ℕ → List ℕ) → AzureAuthConfig → Text
build_cache_key sha256 c =
    mode_text c.mode
    ++ (b'|'
        ∷ (c.storage_account_name
            ++ (b'|'
                ∷ (hash_secret sha256 c.account_key
                    ++ (b'|'
                        ∷ (hash_secret sha256 c.sas_token
                            ++ (b'|'
                                ∷ (c.storage_account_url
                                    ++ (b'|'
                                        ∷ (c.msi_client_id
                                            ++ (b'|'
                                                ∷ (c.spn_client_id
                                                    ++ (b'|' ∷ c.federated_client_id)))))))))))))

-- the constructors of the SDK, with the text of the error
pub record ClientSdk : Type 1 where
  pub Key : Type 0
  pub Client : Type 0
  pub new_shared_key_credential : Text → Text → Result Key
  pub new_client_with_shared_key_credential : Text → Key → Result Client
  pub new_client_with_no_credential : Text → Result Client

abbrev with_shared_key : (sdk : ClientSdk) → Text → Result sdk.Key → Result sdk.Client
with_shared_key sdk endpoint (failed e) =
    failed (codes "failed to create shared key credential: " ++ e)
with_shared_key sdk endpoint (ok key) =
    elim (sdk.new_client_with_shared_key_credential endpoint key) [
      | failed e ↦ failed (codes "failed to create blob client with shared key: " ++ e)
      | ok client ↦ ok client
    ]

-- BuildClientFromCredential; a provider without a credential of its own asks for a token
unfoldable pub build_client_from_credential :
    (sdk : ClientSdk) → AzureAuthConfig → CredentialProvider → Result sdk.Client
build_client_from_credential sdk c (account_key_credential name key) =
    with_shared_key sdk
      (service_endpoint c.storage_account_name c.storage_account_url (codes "blob"))
      (sdk.new_shared_key_credential name key)
build_client_from_credential sdk c (sas_token_credential token) =
    let url = service_endpoint c.storage_account_name c.storage_account_url (codes "blob") in
    elim (sdk.new_client_with_no_credential (sas_url url token)) [
      | failed e ↦ failed (codes "failed to create blob client with SAS token: " ++ e)
      | ok client ↦ ok client
    ]
build_client_from_credential sdk c provider =
    failed (codes "failed to get token credential: " ++ get_credential provider)

-- The client of NewAzureBlobBackendWithAuth, and the cache of the clients.
unfoldable pub blob_client :
    (sdk : ClientSdk)
    → (List ℕ → List ℕ)
    → AzureAuthConfig
    → List (Text × sdk.Client)
    → Result sdk.Client × List (Text × sdk.Client)
blob_client sdk sha256 c clients = elim (lookup (build_cache_key sha256 c) clients) [
  | some client ↦ (ok client, clients)
  | none ↦ elim (build_client_from_credential sdk c (new_credential_provider c)) [
    | failed e ↦ (failed (codes "failed to build azure blob client: " ++ e), clients)
    | ok client ↦ (ok client, insert (build_cache_key sha256 c) client clients)
  ]
]
