-- ===== src/Auth/Accepted.antt =====
-- What an accepted request has shown.
use azs3_proxy.Prelude.{
  ℕ, ◌≡◌, ◌≢◌, codes, List, [], eq_text_iff, Option-cases, some, inl, inr, arith,
}
use azs3_proxy.Auth.{
  AuthVerifier, HttpRequest, valid, Authorization, Scope, scope_of, split, expected_signature,
  parse_authorization, verify_scope, verify_signature,
}
use azs3_proxy.Auth.Unsigned.{AuthResult-cases}

module _ (sha256 : List ℕ → List ℕ) (hmac_sha256 : List ℕ → List ℕ → List ℕ) where
  -- The header parses to a credential of the configured access key for s3, there is a date, and the
  -- signature is the one that the configured keys give.
  pub record IsSigned (av : AuthVerifier) (r : HttpRequest) (a : Authorization) (scope : Scope)
      : Type 0 where
    pub parsed : parse_authorization (r.header (codes "Authorization")) ≡ valid a
    pub scoped : scope_of (split b'/' a.credential) ≡ some scope
    pub configured : scope.access_key ≡ av.access_key
    pub for_s3 : scope.service ≡ codes "s3"
    pub for_request : scope.aws_request ≡ codes "aws4_request"
    pub dated : r.header (codes "X-Amz-Date") ≢ []
    pub matches : expected_signature sha256 hmac_sha256 av r a.signed_headers scope ≡ a.signature

  verify_scope-IsSigned :
      (av : AuthVerifier) (r : HttpRequest) (a : Authorization) (scope : Scope)
      → parse_authorization (r.header (codes "Authorization")) ≡ valid a
      → scope_of (split b'/' a.credential) ≡ some scope
      → verify_scope sha256 hmac_sha256 av r a scope ≡ valid tt
      → IsSigned av r a scope
  unfolding verify_scope
  verify_scope-IsSigned av r a scope p s ok =
      let date = r.header (codes "X-Amz-Date") in
      let expected = expected_signature sha256 hmac_sha256 av r a.signed_headers scope in
      record {
        parsed = p;
        scoped = s;
        configured = (eq_text_iff scope.access_key av.access_key).0 (ground (arith, ok));
        for_s3 = (eq_text_iff scope.service (codes "s3")).0 (ground (arith, ok));
        for_request = (eq_text_iff scope.aws_request (codes "aws4_request")).0 (ground (arith, ok));
        dated = λ e. ground (arith, ok, (eq_text_iff date []).1 e);
        matches = (eq_text_iff expected a.signature).0 (ground (arith, ok));
      }

  -- A request is accepted only if it is signed: its Authorization header parses to a credential of
  -- the configured access key for s3 and aws4_request, it has a date, and its signature is the
  -- one that the configured keys give for its signed headers and for the date and region of the
  -- credential.
  pub verify_signature-IsSigned :
      (av : AuthVerifier) (r : HttpRequest)
      → verify_signature sha256 hmac_sha256 av r ≡ valid tt
      → (a : Authorization) × (scope : Scope) × IsSigned av r a scope
  unfolding verify_signature
  verify_signature-IsSigned av r ok =
      elim (AuthResult-cases (parse_authorization (r.header (codes "Authorization")))) [
        | inl (e, bad) ↦ absurd (ground (arith, ok, bad))
        | inr (a, good) ↦ elim (Option-cases (scope_of (split b'/' a.credential))) [
          | inl odd ↦ absurd (ground (arith, ok, good, odd))
          | inr (scope, five) ↦ (
            a,
            scope,
            verify_scope-IsSigned av r a scope good five
                (rw five at (rw (good, verify_signature) at ok)),
          )
        ]
      ]
