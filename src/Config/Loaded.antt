-- ===== src/Config/Loaded.antt =====
-- What a configuration that is loaded has.
use mathlib.Core.Path.{subst}
use azs3_proxy.Prelude.{
  ◌≡◌, ◌≢◌, refl, sym, ◌∙◌, Text, codes, eq_text, eq_text_iff, Bool, Bool-cases, true, false,
  Option-cases, some, [], ◌⊎◌, inl, inr, arith,
}
use azs3_proxy.Config.{
  AzureAuthMode, account_key, sas, msi, spn, federated_token, az_cli, AzureAuthConfig, Environment,
  Loading, loaded, failed, LoadError, required, detect_auth_mode, validate_mode, validate,
  account_url, initial, with_url, load_azure_auth_config_with_backend,
}

-- the credentials that a mode needs
abbrev pub HasCredentials : (Text → Bool) → AzureAuthMode → AzureAuthConfig → Type 0
HasCredentials readable account_key c = c.account_key ≢ []
HasCredentials readable sas c = c.sas_token ≢ []
HasCredentials readable msi c = Unit {0}
HasCredentials readable spn c =
    (c.spn_client_id ≢ []) × (c.spn_client_secret ≢ []) × (c.tenant_id ≢ [])
HasCredentials readable federated_token c =
    (readable c.federated_token_file ≡ true) × (c.federated_client_id ≢ []) × (c.tenant_id ≢ [])
HasCredentials readable az_cli c = Unit {0}

-- a check of a configuration fails, or gives it back with the credentials of the mode
abbrev Good : (Text → Bool) → AzureAuthMode → AzureAuthConfig → Loading AzureAuthConfig → Type 0
Good readable mode c (failed e) = Unit {0}
Good readable mode c (loaded d) =
    (d.mode ≡ c.mode)
    × (d.storage_account_name ≡ c.storage_account_name)
    × HasCredentials readable mode d

given : (s : Text) → eq_text s [] ≡ false → s ≢ []
given s h e = ground (arith, h, (eq_text_iff s []).1 e)

required-Good :
    (readable : Text → Bool) (mode : AzureAuthMode) (c : AzureAuthConfig) (name value : Text)
    (rest : Loading AzureAuthConfig)
    → (value ≢ [] → Good readable mode c rest)
    → Good readable mode c (required name value rest)
required-Good readable mode c name value rest f = elim (Bool-cases (eq_text value [])) [
  | inl empty ↦ rw empty tt
  | inr some_text ↦ rw some_text (f (given value some_text))
]

validate_mode-Good :
    (env : Environment) (readable : Text → Bool) (mode : AzureAuthMode) (c : AzureAuthConfig)
    → Good readable mode c (validate_mode env readable mode c)
unfolding validate_mode
validate_mode-Good env readable account_key c =
    required-Good readable account_key c _ _ _ (λ h. (refl, refl, h))
validate_mode-Good env readable sas c = required-Good readable sas c _ _ _ (λ h. (refl, refl, h))
validate_mode-Good env readable msi c = (refl, refl, tt)
validate_mode-Good env readable spn c = required-Good readable spn c _ _ _ (λ h.
    required-Good readable spn c _ _ _
      (λ k. required-Good readable spn c _ _ _ (λ l. (refl, refl, (h, k, l)))))
validate_mode-Good env readable federated_token c =
    required-Good readable federated_token c _ _ _ (λ h.
      elim (Bool-cases (readable c.federated_token_file)) [
        | inl there ↦ rw there (
            required-Good readable federated_token c _ _ _ (λ k.
              required-Good readable federated_token c _ _ _ (λ l. (refl, refl, (there, k, l)))))
        | inr gone ↦ rw gone tt
      ])
validate_mode-Good env readable az_cli c = (refl, refl, tt)

account_url_given : (backend_type name : Text) → account_url backend_type name ≢ []
unfolding account_url
account_url_given backend_type name e =
    elim (Bool-cases (eq_text name (codes "devstoreaccount1"))) [
      | inl local ↦ ground (arith, e, local)
      | inr remote ↦ ground (arith, e, remote)
    ]

-- What is loaded is complete.
pub record IsComplete (readable : Text → Bool) (mode : AzureAuthMode) (c : AzureAuthConfig)
    : Type 0 where
  pub mode_eq : c.mode ≡ mode
  pub account_given : c.storage_account_name ≢ []
  pub url_given : c.storage_account_url ≢ []
  pub credentials : HasCredentials readable mode c

credentials_kept :
    (readable : Text → Bool) (mode : AzureAuthMode) (c : AzureAuthConfig) (url : Text)
    → HasCredentials readable mode c
    → HasCredentials readable mode (record c { storage_account_url = url })
credentials_kept readable account_key c url h = h
credentials_kept readable sas c url h = h
credentials_kept readable msi c url h = h
credentials_kept readable spn c url h = h
credentials_kept readable federated_token c url h = h
credentials_kept readable az_cli c url h = h

validate-Good :
    (env : Environment) (readable : Text → Bool) (c d : AzureAuthConfig)
    → validate env readable c ≡ loaded d
    → (c.storage_account_name ≢ []) × Good readable c.mode c (loaded d)
unfolding validate
validate-Good env readable c d ok = elim (Bool-cases (eq_text c.storage_account_name [])) [
  | inl empty ↦ absurd (ground (arith, ok, empty))
  | inr some_name ↦ (
    given c.storage_account_name some_name,
    subst (Good readable c.mode c) (rw (some_name, validate) at ok)
        (validate_mode-Good env readable c.mode c),
  )
]

with_url-IsComplete :
    (readable : Text → Bool) (mode : AzureAuthMode) (backend_type : Text) (c : AzureAuthConfig)
    → c.mode ≡ mode
    → c.storage_account_name ≢ []
    → HasCredentials readable mode c
    → IsComplete readable mode (with_url backend_type c)
unfolding with_url
with_url-IsComplete readable mode backend_type c m n h =
    elim (Bool-cases (eq_text c.storage_account_url [])) [
      | inl empty ↦
          rw (empty, with_url)
            (record {
              mode_eq = m;
              account_given = n;
              url_given = account_url_given backend_type c.storage_account_name;
              credentials =
                  credentials_kept readable mode c (account_url backend_type c.storage_account_name)
                    h;
            })
      | inr own ↦
          rw (own, with_url)
            (record {
              mode_eq = m;
              account_given = n;
              url_given = given c.storage_account_url own;
              credentials = h;
            })
    ]

pub Loading-cases :
    (x : Loading AzureAuthConfig)
    → ((e : LoadError) × (x ≡ failed e)) ⊎ ((c : AzureAuthConfig) × (x ≡ loaded c))
Loading-cases (failed e) = inl (e, refl)
Loading-cases (loaded c) = inr (c, refl)

-- If a configuration is loaded, then a mode was detected in the environment, the configuration has
-- that mode and all credentials that the mode needs, and its account and its endpoint are not empty.
pub load_azure_auth_config_with_backend-IsComplete :
    (env : Environment) (readable : Text → Bool) (backend_type : Text) (c : AzureAuthConfig)
    → load_azure_auth_config_with_backend env readable backend_type ≡ loaded c
    → (mode : AzureAuthMode) × (detect_auth_mode env ≡ some mode) × IsComplete readable mode c
unfolding load_azure_auth_config_with_backend
load_azure_auth_config_with_backend-IsComplete env readable backend_type c ok =
    elim (Option-cases (detect_auth_mode env)) [
      | inl off ↦ absurd (ground (arith, ok, off))
      | inr (mode, on) ↦ elim (Loading-cases (validate env readable (initial env mode))) [
        | inl (e, bad) ↦ absurd (ground (arith, ok, on, bad))
        | inr (d, good) ↦
            let (name, (same_mode, same_name, credentials)) =
              validate-Good env readable (initial env mode) d good in
            let done : loaded (with_url backend_type d) ≡ loaded c =
              rw good at (rw (on, load_azure_auth_config_with_backend) at ok) in
            let result : with_url backend_type d ≡ c = cc in
            (
              mode,
              on,
              subst (IsComplete readable mode) result (
                  with_url-IsComplete readable mode backend_type d same_mode
                    (λ e. name (sym same_name ∙ e)) credentials),
            )
      ]
    ]
