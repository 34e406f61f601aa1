-- ===== src/Server/Signed.antt =====
-- The authentication gate with the verifier of signatures behind it.
use azs3_proxy.Prelude.{
  ℕ, ◌≡◌, refl, ap, Bool, Bool-cases, true, false, Text, codes, List, ◌⊎◌, inl, inr, arith,
}
use azs3_proxy.Auth.{
  AuthVerifier, HttpRequest, AuthResult, valid, invalid, Authorization, Scope, verify_signature,
}
use azs3_proxy.Auth.Accepted.{IsSigned, verify_signature-IsSigned}
use azs3_proxy.Server.{HttpMethod, Request, Handler, Route, admin_allowed, runs, serve}
use azs3_proxy.Server.Access.{serve_unverified}

-- `VerifySignature(r) == nil`
abbrev pub is_accepted : AuthResult (Unit {0}) → Bool
is_accepted (valid u) = true
is_accepted (invalid e) = false

module _ (sha256 : List ℕ → List ℕ) (hmac_sha256 : List ℕ → List ℕ → List ℕ) (av : AuthVerifier)
    (http : Request → HttpRequest) where
  -- the check of the middleware, on the request as the verifier reads it
  abbrev pub verifies : Request → Bool
  verifies r = is_accepted (verify_signature sha256 hmac_sha256 av (http r))

  accepted_valid : (x : AuthResult (Unit {0})) → is_accepted x ≡ true → x ≡ valid tt
  accepted_valid (valid u) h = ap valid refl
  accepted_valid (invalid e) h = absurd (ground (arith, h))

  -- If a handler runs for a request, then the request is signed with the configured keys, or its path
  -- is that of the health checks, or it is /admin/caps and the admin token is the configured one or
  -- none is configured.
  pub serve-IsSigned :
      (find_route : HttpMethod → Text → Route) (admin_token : Text) (r : Request) (h : Handler)
      → serve find_route admin_token verifies r ≡ runs h
      → ((a : Authorization) × (scope : Scope) × IsSigned sha256 hmac_sha256 av (http r) a scope)
        ⊎ (r.path ≡ codes "/health")
        ⊎ (r.path ≡ codes "/ping")
        ⊎ ((r.path ≡ codes "/admin/caps") × (admin_allowed admin_token r.admin_token ≡ true))
  serve-IsSigned find_route admin_token r h served = elim (Bool-cases (verifies r)) [
    | inl ok ↦ inl (verify_signature-IsSigned sha256 hmac_sha256 av (http r) (accepted_valid _ ok))
    | inr unverified ↦ inr (serve_unverified find_route admin_token verifies r h unverified served)
  ]
