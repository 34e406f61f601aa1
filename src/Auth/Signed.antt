-- ===== src/Auth/Signed.antt =====
-- A request that is signed with the configured keys, and what the verifier takes for one.
use mathlib.Core.List.{reverse, reverse-cons, reverse-reverse}
use azs3_proxy.Prelude.{
  ℕ, ◌≡◌, refl, ap, ◌∙◌, Text, codes, Bool, true, false, not, ◌&&◌, List, [], ◌∷◌, ◌++◌, eq_text,
  eq_text_iff, some, none, arith, trim_left, trim_space, is_space, cut, cut-append, has_prefix,
}
use azs3_proxy.Auth.{
  AuthVerifier, HttpRequest, AuthResult, valid, invalid, Authorization, Scope, scope_of, split,
  encode_to_string, scheme, Params, set_param, parse_params, required, expected_signature,
  calculate_signature, parse_authorization, verify_scope, verify_signature,
}

abbrev pub no_space : Text → Bool
no_space [] = true
no_space (c ∷ s) = not (is_space c) && no_space s

cut-none-append : (c : ℕ) (s t : Text) → cut c s ≡ none → cut c t ≡ none → cut c (s ++ t) ≡ none
unfolding cut
cut-none-append c [] t h k = k
cut-none-append c (a ∷ s) t h k = ground (arith, cut-none-append c s t)

split-none : (c : ℕ) (s : Text) → cut c s ≡ none → split c s ≡ s ∷ []
unfolding cut split
split-none c [] h = refl
split-none c (a ∷ s) h = ground (arith, split-none c s)

split-append : (c : ℕ) (s t : Text) → cut c s ≡ none → split c (s ++ c ∷ t) ≡ s ∷ split c t
unfolding cut split
split-append c [] t h = ground arith
split-append c (a ∷ s) t h = ground (arith, split-append c s t)

no_space-append : (s t : Text) → no_space (s ++ t) ≡ (no_space s && no_space t)
no_space-append [] t = refl
no_space-append (c ∷ s) t = ground (arith, no_space-append s t)

trim_left-no_space : (s : Text) → no_space s ≡ true → trim_left s ≡ s
unfolding trim_left
trim_left-no_space [] h = refl
trim_left-no_space (c ∷ s) h = ground arith

encode_to_string-plain :
    (bs : List ℕ)
    → (cut b',' (encode_to_string bs) ≡ none) × (no_space (encode_to_string bs) ≡ true)
unfolding cut encode_to_string
encode_to_string-plain [] = (refl, refl)
encode_to_string-plain (b ∷ bs) = ground (arith, encode_to_string-plain bs)

no_space-reverse : (s : Text) → no_space s ≡ true → no_space (reverse s) ≡ true
no_space-reverse [] h = refl
no_space-reverse (c ∷ s) h =
    let ih = no_space-reverse s in
    rw (reverse-cons c s) (rw (no_space-append (reverse s) (c ∷ [])) (ground (arith, ih)))

trim_space-no_space : (s : Text) → no_space s ≡ true → trim_space s ≡ s
unfolding trim_space
trim_space-no_space s h =
    rw (trim_left-no_space s h)
      (rw (trim_left-no_space (reverse s) (no_space-reverse s h)) (reverse-reverse s))

trim_space-space : (s : Text) → no_space s ≡ true → trim_space (b' ' ∷ s) ≡ s
unfolding trim_space trim_left
trim_space-space s h = trim_space-no_space s h

-- No character of a token separates parts of the header.
pub record IsToken (s : Text) : Type 0 where
  pub no_comma : cut b',' s ≡ none
  pub no_slash : cut b'/' s ≡ none
  pub no_blank : no_space s ≡ true

-- the credential, and the header, as a client writes them
abbrev pub credential_of : AuthVerifier → Text → Text → Text
credential_of av date region =
    av.access_key ++ b'/' ∷ (date ++ b'/' ∷ (region ++ b'/' ∷ codes "s3/aws4_request"))

abbrev pub authorization_of : Authorization → Text
authorization_of a =
    scheme
    ++ ((codes "Credential=" ++ a.credential)
        ++ b','
          ∷ ((codes " SignedHeaders=" ++ a.signed_headers)
              ++ b',' ∷ (codes " Signature=" ++ a.signature)))

eq_text_middle : (s t : Text) (c : ℕ) → eq_text (s ++ c ∷ t) [] ≡ false
unfolding eq_text
eq_text_middle [] t c = refl
eq_text_middle (a ∷ s) t c = refl

-- one parameter more
parse_params-token :
    (token k v : Text) (tokens : List Text) (params : Params)
    → trim_space token ≡ k ++ b'=' ∷ v
    → cut b'=' k ≡ none
    → parse_params (token ∷ tokens) params ≡ parse_params tokens (set_param k v params)
unfolding parse_params
parse_params-token token k v tokens params shown plain =
    let two = cut-append b'=' k v plain in
    let some_text : eq_text (k ++ b'=' ∷ v) [] ≡ false = eq_text_middle k v b'=' in
    rw (shown, parse_params) (rw some_text (rw two refl))

parse_authorization-authorization_of :
    (a : Authorization)
    → cut b',' a.credential ≡ none
    → no_space a.credential ≡ true
    → cut b',' a.signed_headers ≡ none
    → no_space a.signed_headers ≡ true
    → cut b',' a.signature ≡ none
    → no_space a.signature ≡ true
    → parse_authorization (authorization_of a) ≡ valid a
unfolding parse_authorization parse_params required has_prefix eq_text cut
parse_authorization-authorization_of a c1 c2 h1 h2 s1 s2 =
    let first = codes "Credential=" ++ a.credential in
    let second = codes "SignedHeaders=" ++ a.signed_headers in
    let third = codes "Signature=" ++ a.signature in
    let tokens : split b',' (first ++ b',' ∷ ((b' ' ∷ second) ++ b',' ∷ (b' ' ∷ third)))
        ≡ first ∷ (b' ' ∷ second) ∷ (b' ' ∷ third) ∷ [] =
      split-append b',' first ((b' ' ∷ second) ++ b',' ∷ (b' ' ∷ third))
        (cut-none-append b',' (codes "Credential=") a.credential refl c1)
      ∙ ap (◌∷◌ first) (
          split-append b',' (b' ' ∷ second) (b' ' ∷ third)
            (cut-none-append b',' (codes " SignedHeaders=") a.signed_headers refl h1)
          ∙ ap (◌∷◌ (b' ' ∷ second)) (
              split-none b',' (b' ' ∷ third)
                (cut-none-append b',' (codes " Signature=") a.signature refl s1))) in
    let read : AuthResult Params → AuthResult Authorization =
      λ x. elim x [ invalid e ↦ invalid e | valid params ↦ required params ] in
    let empty : Params = λ k. none in
    let params1 = set_param (codes "Credential") a.credential empty in
    let params2 = set_param (codes "SignedHeaders") a.signed_headers params1 in
    ap (λ ts. read (parse_params ts empty)) tokens
    ∙ ap read (
        parse_params-token first (codes "Credential") a.credential
          ((b' ' ∷ second) ∷ (b' ' ∷ third) ∷ []) empty (trim_space-no_space first c2) refl
        ∙ (parse_params-token (b' ' ∷ second) (codes "SignedHeaders") a.signed_headers
              ((b' ' ∷ third) ∷ []) params1 (trim_space-space second h2) refl
            ∙ parse_params-token (b' ' ∷ third) (codes "Signature") a.signature [] params2
                (trim_space-space third s2) refl))

split-credential_of :
    (av : AuthVerifier) (date region : Text)
    → IsToken av.access_key
    → IsToken date
    → IsToken region
    → scope_of (split b'/' (credential_of av date region))
      ≡ some (record {
        access_key = av.access_key;
        date_stamp = date;
        region = region;
        service = codes "s3";
        aws_request = codes "aws4_request";
      })
unfolding scope_of split
split-credential_of av date region a d r =
    let rest = codes "s3/aws4_request" in
    ap scope_of (
      split-append b'/' av.access_key (date ++ b'/' ∷ (region ++ b'/' ∷ rest)) a.no_slash
      ∙ ap (◌∷◌ av.access_key) (
          split-append b'/' date (region ++ b'/' ∷ rest) d.no_slash
          ∙ ap (◌∷◌ date) (split-append b'/' region rest r.no_slash)))

credential_of-plain :
    (av : AuthVerifier) (date region : Text)
    → IsToken av.access_key
    → IsToken date
    → IsToken region
    → (cut b',' (credential_of av date region) ≡ none)
      × (no_space (credential_of av date region) ≡ true)
unfolding cut
credential_of-plain av date region a d r =
    let rest = codes "s3/aws4_request" in
    let third = region ++ b'/' ∷ rest in
    let second = date ++ b'/' ∷ third in
    let c3 : cut b',' (b'/' ∷ third) ≡ none =
      ground (arith, cut-none-append b',' region (b'/' ∷ rest) r.no_comma refl) in
    let c2 : cut b',' (b'/' ∷ second) ≡ none =
      ground (arith, cut-none-append b',' date (b'/' ∷ third) d.no_comma c3) in
    let n3 : no_space third ≡ true =
      no_space-append region (b'/' ∷ rest) ∙ ground (arith, r.no_blank) in
    let n2 : no_space second ≡ true =
      no_space-append date (b'/' ∷ third) ∙ ground (arith, d.no_blank, n3) in
    (
      cut-none-append b',' av.access_key (b'/' ∷ second) a.no_comma c2,
      no_space-append av.access_key (b'/' ∷ second) ∙ ground (arith, a.no_blank, n2),
    )

module _ (sha256 : List ℕ → List ℕ) (hmac_sha256 : List ℕ → List ℕ → List ℕ) where
  signature-plain :
      (av : AuthVerifier) (r : HttpRequest) (signed_headers : Text) (scope : Scope)
      → (cut b',' (expected_signature sha256 hmac_sha256 av r signed_headers scope) ≡ none)
        × (no_space (expected_signature sha256 hmac_sha256 av r signed_headers scope) ≡ true)
  unfolding expected_signature calculate_signature
  signature-plain av r signed_headers scope = encode_to_string-plain _

  -- the header of a client that knows the keys
  abbrev pub signed : AuthVerifier → HttpRequest → Text → Text → Text → Authorization
  signed av r date region signed_headers = record {
    credential = credential_of av date region;
    signed_headers = signed_headers;
    signature = expected_signature sha256 hmac_sha256 av r signed_headers (record {
      access_key = av.access_key;
      date_stamp = date;
      region = region;
      service = codes "s3";
      aws_request = codes "aws4_request";
    });
  }

  -- A request with a date, whose Authorization header is written from the configured access key, a
  -- date and a region without commas, slashes and blanks, a list of headers without commas and
  -- blanks, and the signature that the configured keys give, is accepted.
  pub verify_signature-signed :
      (av : AuthVerifier) (r : HttpRequest) (date region signed_headers : Text)
      → IsToken av.access_key
      → IsToken date
      → IsToken region
      → cut b',' signed_headers ≡ none
      → no_space signed_headers ≡ true
      → eq_text (r.header (codes "X-Amz-Date")) [] ≡ false
      → r.header (codes "Authorization") ≡ authorization_of (signed av r date region signed_headers)
      → verify_signature sha256 hmac_sha256 av r ≡ valid tt
  unfolding verify_signature verify_scope eq_text
  verify_signature-signed av r date region signed_headers a d g h1 h2 dated written =
      let s = signed av r date region signed_headers in
      let (c1, c2) = credential_of-plain av date region a d g in
      let (s1, s2) = signature-plain av r signed_headers (record {
        access_key = av.access_key;
        date_stamp = date;
        region = region;
        service = codes "s3";
        aws_request = codes "aws4_request";
      }) in
      let parsed =
        ap parse_authorization written ∙ parse_authorization-authorization_of s c1 c2 h1 h2 s1 s2 in
      rw (parsed, verify_signature)
        (rw (split-credential_of av date region a d g) (
          rw ((eq_text_iff av.access_key av.access_key).1 refl)
            (rw dated (rw ((eq_text_iff s.signature s.signature).1 refl) refl))))
