-- ===== src/Auth.antt =====
-- AuthVerifier of internal/auth/sigv4.go. SHA-256 and HMAC-SHA-256 are parameters, from bytes to
-- bytes.
pub mod Query
pub mod Unsigned
pub mod Signed
pub mod Accepted
use azs3_proxy.Prelude.{
  ℕ, zero, suc, ◌+◌, ◌*◌, ◌/◌, ◌%◌, ◌-◌, Text, codes, Bool, true, false, not, ◌&&◌, ◌||◌, Option,
  none, some, List, [], ◌∷◌, ◌++◌, map, drop, length, eq_text, has_prefix, cut, trim_space,
  to_lower, leb, ltb, ◌==◌, if◌then◌else◌,
}

pub record AuthVerifier : Type 0 where
  pub access_key : Text
  pub secret_key : Text

-- What the verifier reads of a request. `query_keys` are the keys of URL.Query() in the order in
-- which a range over the map gives them; `header` is Header.Get, which is [] for a missing one.
pub record HttpRequest : Type 0 where
  pub method : Text
  pub escaped_path : Text
  pub query_keys : List Text
  pub query_values : Text → List Text
  pub header : Text → Text
  pub host : Text

-- the errors, without their texts
pub data AuthError : Type 0 where
  missing_authorization invalid_format missing_credential missing_signed_headers missing_signature
        invalid_scope invalid_access_key invalid_service missing_date signature_mismatch :
      AuthError
  invalid_segment : Text → AuthError

pub data AuthResult (A : Type 0) : Type 0 where
  valid : A → AuthResult A
  invalid : AuthError → AuthResult A

-- strings.Split(s, sep) for a separator of one character
abbrev pub push : ℕ → List Text → List Text
push a [] = (a ∷ []) ∷ []
push a (t ∷ ts) = (a ∷ t) ∷ ts

unfoldable pub split : ℕ → Text → List Text
split c [] = [] ∷ []
split c (a ∷ s) = let rest = split c s in if a == c then [] ∷ rest else push a rest

-- strings.Join(parts, sep)
unfoldable pub join : Text → List Text → Text
join sep [] = []
join sep (p ∷ []) = p
join sep (p ∷ q ∷ ps) = p ++ (sep ++ join sep (q ∷ ps))

-- the order of strings in Go, and sort.Strings
unfoldable pub le_text : Text → Text → Bool
le_text [] t = true
le_text (a ∷ s) [] = false
le_text (a ∷ s) (b ∷ t) = ltb a b || ((a == b) && le_text s t)

unfoldable pub insert_text : Text → List Text → List Text
insert_text s [] = s ∷ []
insert_text s (t ∷ ts) = let rest = insert_text s ts in if le_text s t then s ∷ t ∷ ts else t ∷ rest

unfoldable pub sort_strings : List Text → List Text
sort_strings [] = []
sort_strings (s ∷ ss) = insert_text s (sort_strings ss)

-- a hexadecimal digit, from `a` or `A` on above 9
abbrev pub hex_digit : ℕ → ℕ → ℕ
hex_digit letter n = if ltb n 10 then n + b'0' else (n + letter) - 10

-- hex.EncodeToString
unfoldable pub encode_to_string : List ℕ → Text
encode_to_string [] = []
encode_to_string (b ∷ bytes) =
    hex_digit b'a' (b / 16 % 16) ∷ hex_digit b'a' (b % 16) ∷ encode_to_string bytes

-- url.QueryEscape with ReplaceAll(s, "+", "%20") behind it, on bytes
abbrev pub is_unreserved : ℕ → Bool
is_unreserved c =
    (leb b'a' c && leb c b'z')
    || ((leb b'A' c && leb c b'Z')
        || ((leb b'0' c && leb c b'9')
            || ((c == b'-') || ((c == b'_') || ((c == b'.') || (c == b'~'))))))

abbrev pub escape_byte : ℕ → Text
escape_byte c =
    if is_unreserved c
    then c ∷ []
    else if c == b' '
    then codes "+"
    else b'%' ∷ hex_digit b'A' (c / 16 % 16) ∷ hex_digit b'A' (c % 16) ∷ []

unfoldable pub query_escape : Text → Text
query_escape [] = []
query_escape (c ∷ s) = escape_byte c ++ query_escape s

unfoldable pub replace_plus : Text → Text
replace_plus [] = []
replace_plus (c ∷ s) = (if c == b'+' then codes "%20" else c ∷ []) ++ replace_plus s

abbrev pub encoded : Text → Text
encoded s = replace_plus (query_escape s)

-- the parts of one key
unfoldable pub key_parts : Text → List Text → List Text
key_parts k [] = []
key_parts k (v ∷ vs) = (encoded k ++ b'=' ∷ encoded v) ∷ key_parts k vs

unfoldable pub query_parts : (Text → List Text) → List Text → List Text
query_parts values [] = []
query_parts values (k ∷ ks) = key_parts k (sort_strings (values k)) ++ query_parts values ks

-- buildCanonicalQueryString
unfoldable pub build_canonical_query_string : HttpRequest → Text
build_canonical_query_string r =
    join (codes "&") (query_parts r.query_values (sort_strings r.query_keys))

abbrev pub or_else : Text → Text → Text
or_else [] t = t
or_else (c ∷ s) t = c ∷ s

-- the line of a signed header
unfoldable pub header_line : HttpRequest → Text → Text
header_line r name =
    let header_name = trim_space name in
    let value = or_else (r.header header_name) (r.header (to_lower header_name)) in
    let shown =
      if eq_text (to_lower header_name) (codes "host") then or_else value r.host else value in
    to_lower header_name ++ b':' ∷ trim_space shown

-- buildCanonicalHeaders
unfoldable pub build_canonical_headers : HttpRequest → Text → Text
build_canonical_headers r signed_headers =
    join (codes "\n") (map (header_line r) (split b';' signed_headers)) ++ codes "\n"

-- the hash of the empty body
abbrev pub empty_hash : Text
empty_hash = codes "e3b0c44298fc1c149afbf4c8996fb92427ae41e4649b934ca495991b7852b855"

-- buildCanonicalRequest
unfoldable pub build_canonical_request : HttpRequest → Text → Text
build_canonical_request r signed_headers = join (codes "\n") (
    r.method
    ∷ or_else r.escaped_path (codes "/")
    ∷ build_canonical_query_string r
    ∷ build_canonical_headers r signed_headers
    ∷ signed_headers
    ∷ or_else (r.header (codes "x-amz-content-sha256")) empty_hash
    ∷ [])

-- the map of the parameters
abbrev pub Params : Type 0
Params = Text → Option Text

abbrev pub set_param : Text → Text → Params → Params
set_param k v params j = if eq_text j k then some v else params j

-- the loop over the segments of the header
unfoldable pub parse_params : List Text → Params → AuthResult Params
parse_params [] params = valid params
parse_params (token ∷ tokens) params =
    let skipped = parse_params tokens params in
    let read : Text → Text → AuthResult Params =
      λ k v. parse_params tokens (set_param k v params) in
    if eq_text (trim_space token) [] then skipped else elim (cut b'=' (trim_space token)) [
      | none ↦ invalid (invalid_segment (trim_space token))
      | some (k, v) ↦ read k v
    ]

pub record Authorization : Type 0 where
  pub credential : Text
  pub signed_headers : Text
  pub signature : Text

abbrev pub scheme : Text
scheme = codes "AWS4-HMAC-SHA256 "

-- the three parameters
unfoldable pub required : Params → AuthResult Authorization
required params = elim (params (codes "Credential")) [
  | none ↦ invalid missing_credential
  | some credential ↦ elim (params (codes "SignedHeaders")) [
    | none ↦ invalid missing_signed_headers
    | some signed_headers ↦ elim (params (codes "Signature")) [
      | none ↦ invalid missing_signature
      | some signature ↦ valid (record {
        credential = credential;
        signed_headers = signed_headers;
        signature = signature;
      })
    ]
  ]
]

-- the beginning of VerifySignature, on the Authorization header
unfoldable pub parse_authorization : Text → AuthResult Authorization
parse_authorization auth_header =
    if eq_text auth_header []
    then invalid missing_authorization
    else if has_prefix auth_header scheme
    then elim (parse_params (split b',' (drop (length scheme) auth_header)) (λ k. none)) [
      | invalid e ↦ invalid e
      | valid params ↦ required params
    ]
    else invalid invalid_format

pub record Scope : Type 0 where
  pub access_key : Text
  pub date_stamp : Text
  pub region : Text
  pub service : Text
  pub aws_request : Text

-- the five parts of the credential
unfoldable pub scope_of : List Text → Option Scope
scope_of (a ∷ d ∷ r ∷ s ∷ q ∷ []) =
    some (record { access_key = a; date_stamp = d; region = r; service = s; aws_request = q })
scope_of _ = none

module _ (sha256 : List ℕ → List ℕ) (hmac_sha256 : List ℕ → List ℕ → List ℕ) where
  -- buildStringToSign
  unfoldable pub build_string_to_sign : Text → Text → Text → Text → Text → Text
  build_string_to_sign canonical_request amz_date date_stamp region service =
      codes "AWS4-HMAC-SHA256\n"
      ++ (amz_date
          ++ (codes "\n"
              ++ (date_stamp
                  ++ (codes "/"
                      ++ (region
                          ++ (codes "/"
                              ++ (service
                                  ++ (codes "/aws4_request\n"
                                      ++ encode_to_string (sha256 canonical_request)))))))))

  -- calculateSignature
  unfoldable pub calculate_signature : AuthVerifier → Text → Text → Text → Text
  calculate_signature av string_to_sign date_stamp region =
      let k_secret = codes "AWS4" ++ av.secret_key in
      let k_date = hmac_sha256 k_secret date_stamp in
      let k_region = hmac_sha256 k_date region in
      let k_service = hmac_sha256 k_region (codes "s3") in
      let k_signing = hmac_sha256 k_service (codes "aws4_request") in
      encode_to_string (hmac_sha256 k_signing string_to_sign)

  -- the signature that the verifier expects
  unfoldable pub expected_signature : AuthVerifier → HttpRequest → Text → Scope → Text
  expected_signature av r signed_headers scope =
      calculate_signature av
        (build_string_to_sign (build_canonical_request r signed_headers)
          (r.header (codes "X-Amz-Date")) scope.date_stamp scope.region scope.service)
        scope.date_stamp scope.region

  -- VerifySignature from the scope on
  unfoldable pub verify_scope :
      AuthVerifier → HttpRequest → Authorization → Scope → AuthResult (Unit {0})
  verify_scope av r a scope =
      if not (eq_text scope.access_key av.access_key)
      then invalid invalid_access_key
      else if not (eq_text scope.service (codes "s3"))
          || not (eq_text scope.aws_request (codes "aws4_request"))
      then invalid invalid_service
      else if eq_text (r.header (codes "X-Amz-Date")) []
      then invalid missing_date
      else if eq_text (expected_signature av r a.signed_headers scope) a.signature
      then valid tt
      else invalid signature_mismatch

  -- VerifySignature
  unfoldable pub verify_signature : AuthVerifier → HttpRequest → AuthResult (Unit {0})
  verify_signature av r = elim (parse_authorization (r.header (codes "Authorization"))) [
    | invalid e ↦ invalid e
    | valid a ↦ elim (scope_of (split b'/' a.credential)) [
      | none ↦ invalid invalid_scope
      | some scope ↦ verify_scope av r a scope
    ]
  ]
