-- ===== src/Config/Clients.antt =====
-- The clients that a configuration can have.
use azs3_proxy.Prelude.{
  ℕ, ◌≡◌, ◌≢◌, refl, ap, ◌∙◌, Text, List, [], some, Bool, arith, codes, ◌++◌, lookup,
}
use azs3_proxy.Handlers.Types.{failed}
use azs3_proxy.Config.{
  AzureAuthMode, account_key, sas, msi, spn, federated_token, az_cli, AzureAuthConfig, Environment,
  loaded, detect_auth_mode, load_azure_auth_config_with_backend,
}
use azs3_proxy.Config.Loaded.{load_azure_auth_config_with_backend-IsComplete}
use azs3_proxy.Config.Credentials.{
  ClientSdk, get_credential, new_credential_provider, build_client_from_credential, blob_client,
}

abbrev refused_text : AzureAuthConfig → Text
refused_text c =
    codes "failed to build azure blob client: "
    ++ (codes "failed to get token credential: " ++ get_credential (new_credential_provider c))

-- a mode that asks for a token has no client
token_mode :
    (sdk : ClientSdk) (sha256 : List ℕ → List ℕ) (c : AzureAuthConfig) (mode : AzureAuthMode)
    → c.mode ≡ mode
    → mode ≢ account_key
    → mode ≢ sas
    → (e : Text) × (blob_client sdk sha256 c [] ≡ (failed e, []))
unfolding blob_client new_credential_provider build_client_from_credential lookup
token_mode sdk sha256 c account_key h k s = absurd (k refl)
token_mode sdk sha256 c sas h k s = absurd (s refl)
token_mode sdk sha256 c msi h k s = (refused_text c, ground (arith, h))
token_mode sdk sha256 c spn h k s = (refused_text c, ground (arith, h))
token_mode sdk sha256 c federated_token h k s = (refused_text c, ground (arith, h))
token_mode sdk sha256 c az_cli h k s = (refused_text c, ground (arith, h))

-- Where the environment has neither an account key nor a SAS token as its method, a configuration
-- can be loaded, but the first client that is asked for with it is refused, whatever the SDK does.
pub blob_client-refused :
    (env : Environment) (readable : Text → Bool) (backend_type : Text) (c : AzureAuthConfig)
    (sdk : ClientSdk) (sha256 : List ℕ → List ℕ)
    → load_azure_auth_config_with_backend env readable backend_type ≡ loaded c
    → detect_auth_mode env ≢ some account_key
    → detect_auth_mode env ≢ some sas
    → (e : Text) × (blob_client sdk sha256 c [] ≡ (failed e, []))
blob_client-refused env readable backend_type c sdk sha256 ok no_key no_sas =
    let (mode, found, complete) =
      load_azure_auth_config_with_backend-IsComplete env readable backend_type c ok in
    token_mode sdk sha256 c mode complete.mode_eq (λ e. no_key (found ∙ ap some e))
      (λ e. no_sas (found ∙ ap some e))
