-- ===== src/Tests/Authorized.antt =====
-- Requests with signatures, over hashes that are any functions.
use mathlib.Core.List.Perm as Perm
use mathlib.Core.Path.{subst}
use azs3_proxy.Prelude.{
  ℕ, ◌≡◌, refl, ap, Text, codes, eq_text, cut, trim_space, trim_left, has_prefix, to_lower,
  lower_char, Bool, true, ◌⊎◌, false, List, [], ◌∷◌, ◌++◌, Option, some, none, if◌then◌else◌,
}
use azs3_proxy.Auth.{
  AuthVerifier, HttpRequest, AuthResult, valid, invalid, Authorization, Scope,
  build_canonical_query_string, build_canonical_request, expected_signature, calculate_signature,
  build_string_to_sign, encode_to_string, parse_authorization, parse_params, required,
  verify_signature, split, join, sort_strings, insert_text, le_text, query_parts, key_parts,
  query_escape, replace_plus, header_line, build_canonical_headers,
}
use azs3_proxy.Auth.Query.{build_canonical_query_string-Perm}
use azs3_proxy.Auth.Signed.{
  IsToken, authorization_of, credential_of, signed, verify_signature-signed,
}
use azs3_proxy.Auth.Accepted.{IsSigned, verify_signature-IsSigned}
use azs3_proxy.Server
use azs3_proxy.Server.{
  Request, Handler, list_objects_v2, Route, bucket_route, admin_allowed, runs, serve,
  auth_middleware, route_handler, bucket_handler,
}
use azs3_proxy.Server.Signed.{is_accepted, verifies, serve-IsSigned}
use azs3_proxy.Auth.Unsigned.{Agree, AllSame, verify_signature-Agree}

-- stand-ins for the hashes
abbrev first_bytes : List ℕ → List ℕ
first_bytes [] = 0 ∷ []
first_bytes (c ∷ s) = c ∷ []

abbrev mixed : List ℕ → List ℕ → List ℕ
mixed k s = first_bytes k ++ first_bytes s

abbrev av0 : AuthVerifier
av0 = record { access_key = codes "AK"; secret_key = codes "secret" }

abbrev value_of : Text → List Text
value_of k = if eq_text k (codes "b") then codes "2 x" ∷ codes "1" ∷ [] else [] ∷ []

abbrev keys0 : List Text
keys0 = codes "b" ∷ codes "a" ∷ []

-- a request with a date and the text of the Authorization header
abbrev header0 : Text → Text → Text
header0 authorization name =
    if eq_text name (codes "X-Amz-Date")
    then codes "20260101T000000Z"
    else if eq_text name (codes "Authorization")
    then authorization
    else []

abbrev bare : Text → HttpRequest
bare authorization = record {
  method = codes "GET";
  escaped_path = codes "/b/k";
  query_keys = keys0;
  query_values = value_of;
  header = header0 authorization;
  host = codes "h";
}

query_test : build_canonical_query_string (bare []) ≡ codes "a=&b=1&b=2%20x"
unfolding build_canonical_query_string sort_strings insert_text le_text query_parts key_parts
    query_escape replace_plus join eq_text
query_test = refl

build_canonical_query_string-Perm_example :
    build_canonical_query_string (record (bare []) { query_keys = codes "a" ∷ codes "b" ∷ [] })
    ≡ build_canonical_query_string (bare [])
build_canonical_query_string-Perm_example =
    build_canonical_query_string-Perm (bare []) (codes "a" ∷ codes "b" ∷ [])
      (Perm.swap (codes "a") (codes "b") [])

-- the signature of the request, whose signed header is the host
abbrev header_text : Text
header_text =
    authorization_of
      (signed first_bytes mixed av0 (bare []) (codes "20260101") (codes "r") (codes "host"))

abbrev request0 : HttpRequest
request0 = bare header_text

program : Unit {0}
unfolding cut eq_text
program = tt

plain-IsToken :
    (s : Text)
    → cut b',' s ≡ none
    → cut b'/' s ≡ none
    → azs3_proxy.Auth.Signed.no_space s ≡ azs3_proxy.Prelude.true
    → IsToken s
plain-IsToken s c l b = record { no_comma = c; no_slash = l; no_blank = b }

written0 :
    header_text
    ≡ authorization_of
        (signed first_bytes mixed av0 request0 (codes "20260101") (codes "r") (codes "host"))
unfolding cut eq_text build_canonical_request build_canonical_headers header_line split join
    trim_space trim_left to_lower expected_signature build_canonical_query_string lower_char
written0 = refl

accepted0 : verify_signature first_bytes mixed av0 request0 ≡ valid tt
unfolding program
accepted0 =
    verify_signature-signed first_bytes mixed av0 request0 (codes "20260101") (codes "r")
      (codes "host") (plain-IsToken _ refl refl refl) (plain-IsToken _ refl refl refl)
      (plain-IsToken _ refl refl refl) refl refl refl written0

verify_signature-signed_example : verify_signature first_bytes mixed av0 request0 ≡ valid tt
unfolding program
verify_signature-signed_example =
    verify_signature-signed first_bytes mixed av0 request0 (codes "20260101") (codes "r")
      (codes "host") (plain-IsToken _ refl refl refl) (plain-IsToken _ refl refl refl)
      (plain-IsToken _ refl refl refl) refl refl refl written0

verify_signature-IsSigned_example :
    (a : Authorization) × (scope : Scope) × IsSigned first_bytes mixed av0 request0 a scope
verify_signature-IsSigned_example =
    verify_signature-IsSigned first_bytes mixed av0 request0 accepted0

-- the same request with a copy source, which is not signed
abbrev copying : HttpRequest
copying = record request0 {
  header = λ name.
      if eq_text name (codes "x-amz-copy-source") then codes "/other/key" else request0.header name;
}

agree0 : Agree request0 copying
unfolding program build_canonical_query_string
agree0 = record {
  method_eq = refl;
  path_eq = refl;
  query_eq = refl;
  host_eq = refl;
  authorization_eq = refl;
  date_eq = refl;
  sha256_eq = refl;
}

abbrev headers_of : AuthResult Authorization → Text
headers_of (valid a) = a.signed_headers
headers_of (invalid e) = codes "host"

signed_same :
    (a : Authorization)
    → parse_authorization header_text ≡ valid a
    → AllSame request0 copying (split b';' a.signed_headers)
unfolding program split trim_space trim_left to_lower lower_char parse_authorization parse_params
    required has_prefix expected_signature calculate_signature encode_to_string build_string_to_sign
signed_same a parsed =
    subst (λ names. AllSame request0 copying (split b';' names)) (ap headers_of parsed)
      (refl, refl, tt)

verify_signature-Agree_example :
    verify_signature first_bytes mixed av0 request0 ≡ verify_signature first_bytes mixed av0 copying
unfolding program
verify_signature-Agree_example =
    verify_signature-Agree first_bytes mixed av0 request0 copying agree0 signed_same

abbrev listing : Request
listing = record { method = Server.get; path = codes "/b"; query = λ key. none; admin_token = [] }

served_if :
    (check : Request → Bool)
    → check listing ≡ true
    → serve (λ method path. bucket_route) [] check listing ≡ runs list_objects_v2
unfolding program serve auth_middleware route_handler bucket_handler
served_if check h = rw (h, serve) refl

served0 :
    serve (λ method path. bucket_route) [] (verifies first_bytes mixed av0 (λ r. request0)) listing
    ≡ runs list_objects_v2
served0 = served_if (verifies first_bytes mixed av0 (λ r. request0)) (ap is_accepted accepted0)

serve-IsSigned_example :
    ((a : Authorization) × (scope : Scope) × IsSigned first_bytes mixed av0 request0 a scope)
    ⊎ (codes "/b" ≡ codes "/health")
    ⊎ (codes "/b" ≡ codes "/ping")
    ⊎ ((codes "/b" ≡ codes "/admin/caps") × (admin_allowed [] [] ≡ true))
serve-IsSigned_example =
    serve-IsSigned first_bytes mixed av0 (λ r. request0) (λ method path. bucket_route) [] listing
      list_objects_v2 served0
