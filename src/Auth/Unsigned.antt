-- ===== src/Auth/Unsigned.antt =====
-- What a signature leaves open.
use azs3_proxy.Prelude.{
  ℕ, ◌≡◌, refl, sym, ap, ap₂, Text, codes, List, [], ◌∷◌, map, Option-cases, inl, inr, ◌⊎◌,
  trim_space, to_lower,
}
use azs3_proxy.Auth.{
  AuthVerifier, AuthError, HttpRequest, AuthResult, valid, invalid, Authorization, Scope, scope_of,
  split, header_line, build_canonical_headers, build_canonical_request,
  build_canonical_query_string, expected_signature, parse_authorization, verify_scope,
  verify_signature,
}

-- both requests have the same value for a header, as the verifier looks it up
abbrev pub SameHeader : HttpRequest → HttpRequest → Text → Type 0
SameHeader r s name = r.header name ≡ s.header name

abbrev pub AllSame : HttpRequest → HttpRequest → List Text → Type 0
AllSame r s [] = Unit {0}
AllSame r s (name ∷ names) =
    SameHeader r s (trim_space name)
    × SameHeader r s (to_lower (trim_space name))
    × AllSame r s names

-- The requests agree in what the verifier reads whatever is signed.
pub record Agree (r s : HttpRequest) : Type 0 where
  pub method_eq : r.method ≡ s.method
  pub path_eq : r.escaped_path ≡ s.escaped_path
  pub query_eq : build_canonical_query_string r ≡ build_canonical_query_string s
  pub host_eq : r.host ≡ s.host
  pub authorization_eq : SameHeader r s (codes "Authorization")
  pub date_eq : SameHeader r s (codes "X-Amz-Date")
  pub sha256_eq : SameHeader r s (codes "x-amz-content-sha256")

lines-AllSame :
    (r s : HttpRequest) (names : List Text)
    → r.host ≡ s.host
    → AllSame r s names
    → map (header_line r) names ≡ map (header_line s) names
unfolding header_line
lines-AllSame r s [] h all = refl
lines-AllSame r s (name ∷ names) h (one, low, all) =
    ap₂ ◌∷◌ (rw one (rw low (rw h refl))) (lines-AllSame r s names h all)

build_canonical_request-Agree :
    (r s : HttpRequest) (signed_headers : Text)
    → Agree r s
    → AllSame r s (split b';' signed_headers)
    → build_canonical_request r signed_headers ≡ build_canonical_request s signed_headers
unfolding build_canonical_request build_canonical_headers
build_canonical_request-Agree r s signed_headers agree all =
    let lines = lines-AllSame r s (split b';' signed_headers) agree.host_eq all in
    rw lines (rw agree.query_eq (rw agree.sha256_eq (rw agree.path_eq (rw agree.method_eq refl))))

pub AuthResult-cases :
    {A : Type 0} (x : AuthResult A)
    → ((e : AuthError) × (x ≡ invalid e)) ⊎ ((a : A) × (x ≡ valid a))
AuthResult-cases (invalid e) = inl (e, refl)
AuthResult-cases (valid a) = inr (a, refl)

module _ (sha256 : List ℕ → List ℕ) (hmac_sha256 : List ℕ → List ℕ → List ℕ) where
  verify_scope-Agree :
      (av : AuthVerifier) (r s : HttpRequest) (a : Authorization) (scope : Scope)
      → Agree r s
      → AllSame r s (split b';' a.signed_headers)
      → verify_scope sha256 hmac_sha256 av r a scope ≡ verify_scope sha256 hmac_sha256 av s a scope
  unfolding verify_scope expected_signature
  verify_scope-Agree av r s a scope agree all =
      rw (build_canonical_request-Agree r s a.signed_headers agree all) (rw agree.date_eq refl)

  -- Two requests that agree in the method, the path, the canonical query, the host, the headers
  -- Authorization, X-Amz-Date and x-amz-content-sha256, and each header that the Authorization header
  -- says is signed, are both accepted or refused with the same error, whatever their other headers
  -- are.
  pub verify_signature-Agree :
      (av : AuthVerifier) (r s : HttpRequest)
      → Agree r s
      → ((a : Authorization)
          → parse_authorization (r.header (codes "Authorization")) ≡ valid a
          → AllSame r s (split b';' a.signed_headers))
      → verify_signature sha256 hmac_sha256 av r ≡ verify_signature sha256 hmac_sha256 av s
  unfolding verify_signature
  verify_signature-Agree av r s agree all =
      let parsed = parse_authorization (r.header (codes "Authorization")) in
      let same : parse_authorization (s.header (codes "Authorization")) ≡ parsed =
        ap parse_authorization (sym agree.authorization_eq) in
      rw (same, verify_signature)
        (elim (AuthResult-cases parsed) [
          | inl (e, bad) ↦ rw (bad, verify_signature) refl
          | inr (a, good) ↦ elim (Option-cases (scope_of (split b'/' a.credential))) [
            | inl odd ↦ rw (good, verify_signature) (rw odd refl)
            | inr (scope, five) ↦
                rw (good, verify_signature)
                  (rw five (verify_scope-Agree av r s a scope agree (all a good)))
          ]
        ])
