-- ===== src/Profiles/Authority/Uri.antt =====
-- A canonical URI, put together and split again.
use sub_share_go.Common.{
  ℕ, List, [], ◌∷◌, ◌++◌, Bool, true, false, ◌≡◌, ◌≢◌, refl, arith, All, All-append, append_assoc,
}
use sub_share_go.Common.Result.{ok}
use sub_share_go.Strings.{Text, is_empty, is_space}
use sub_share_go.Strings.Trim.{Solid, trim_space-Solid}
use sub_share_go.Profiles.Percent.{percent_encode}
use sub_share_go.Profiles.Percent.RoundTrip.{Byte}
use sub_share_go.Profiles.Authority.{
  scheme_chars, lower_scheme, scheme_and_rest, split_standard_uri, canonical_uri, components,
  user_part, query_part, fragment_part,
}
use sub_share_go.Profiles.Authority.HostPort.{cut_at-append}
use sub_share_go.Profiles.Authority.Parts.{
  InAuthority, InQuery, All-map, Encoded, percent_encode-Encoded, IsUri, if_given, if_bytes,
  scheme_chars-Lacks, split_remainder-parts, split_fragment-parts,
}

colon-Solid : is_space b':' ≡ false
unfolding is_space
colon-Solid = refl

slash-Solid : is_space b'/' ≡ false
unfolding is_space
slash-Solid = refl

hash-Solid : is_space b'#' ≡ false
unfolding is_space
hash-Solid = refl

at-InAuthority : InAuthority b'@'
unfolding is_space
at-InAuthority = (
  refl,
  λ e. absurd (omega (arith, e)),
  λ e. absurd (omega (arith, e)),
  λ e. absurd (omega (arith, e)),
)

slash-InQuery : InQuery b'/'
unfolding is_space
slash-InQuery = (refl, λ e. absurd (omega (arith, e)))

mark-InQuery : InQuery b'?'
unfolding is_space
mark-InQuery = (refl, λ e. absurd (omega (arith, e)))

scheme_and_rest-parts :
    (scheme rest : Text)
    → is_empty scheme ≡ false
    → scheme_chars true scheme ≡ true
    → lower_scheme scheme ≡ scheme
    → Solid rest
    → scheme_and_rest (scheme ++ b':' ∷ rest) ≡ ok (scheme, rest)
unfolding scheme_and_rest
scheme_and_rest-parts scheme rest given valid lower solid =
    let (no_colon, solid') = scheme_chars-Lacks true scheme valid in
    let whole = All-append _ scheme (b':' ∷ rest) solid' (colon-Solid, solid) in
    rw
      (
        trim_space-Solid (scheme ++ b':' ∷ rest) whole,
        cut_at-append b':' scheme rest no_colon,
        scheme_and_rest,
        given,
        valid,
        lower,
      )
      refl

user_part-chars :
    (user_info : Text) → All InAuthority user_info → All InAuthority (user_part user_info)
user_part-chars [] h = tt
user_part-chars (c ∷ user_info) h =
    All-append InAuthority (c ∷ user_info) (b'@' ∷ []) h (at-InAuthority, tt)

append-given : (front back : Text) → is_empty back ≡ false → is_empty (front ++ back) ≡ false
append-given [] back h = h
append-given (c ∷ front) back h = refl

fragment_part-Solid : (fragment : List ℕ) → All Byte fragment → Solid (fragment_part fragment)
unfolding Encoded
fragment_part-Solid [] h = tt
fragment_part-Solid (f ∷ fragment) h = (
  hash-Solid,
  All-map Encoded (λ c. is_space c ≡ false) (percent_encode (f ∷ fragment)) (λ c h. h.1)
      (percent_encode-Encoded (f ∷ fragment) h),
)

query_part-InQuery : (query : Text) → All InQuery query → All InQuery (query_part query)
query_part-InQuery [] h = tt
query_part-InQuery (q ∷ query) h = (slash-InQuery, (mark-InQuery, h))

-- A URI that is put together from its parts is split into the same parts: the scheme, the user with
-- the host and port, the query, and the fragment decoded.
pub split_standard_uri-canonical_uri :
    (valid_utf8 : List ℕ → Bool) (scheme user_info host_port query : Text) (fragment : List ℕ)
    (protocol : Text)
    → IsUri scheme user_info host_port query fragment
    → valid_utf8 fragment ≡ true
    → split_standard_uri valid_utf8
        (canonical_uri scheme user_info host_port query fragment)
        protocol
      ≡ ok (
          components scheme (user_part user_info ++ host_port) (if_given query) (if_bytes fragment))
unfolding split_standard_uri canonical_uri
split_standard_uri-canonical_uri valid_utf8 scheme user_info host_port query fragment protocol parts
      valid =
    let authority = user_part user_info ++ host_port in
    let front = authority ++ query_part query in
    let chars =
      All-append InAuthority (user_part user_info) host_port
        (user_part-chars user_info parts.user_chars) parts.host_chars in
    let query_chars = query_part-InQuery query parts.query_chars in
    let front_chars =
      All-append InQuery authority (query_part query)
        (All-map InAuthority InQuery authority (λ c h. (h.0, h.1)) chars) query_chars in
    let solid =
      All-append (λ c. is_space c ≡ false) front (fragment_part fragment)
        (All-map InQuery (λ c. is_space c ≡ false) front (λ c h. h.0) front_chars)
        (fragment_part-Solid fragment parts.fragment_bytes) in
    let no_hash = All-map InQuery (λ c. c ≢ b'#') front (λ c h. h.1) front_chars in
    rw
      (
        ← append_assoc authority (query_part query) (fragment_part fragment),
        scheme_and_rest-parts scheme (b'/' ∷ b'/' ∷ front ++ fragment_part fragment)
            parts.scheme_given parts.scheme_valid parts.scheme_lower
            (slash-Solid, (slash-Solid, solid)),
        split_fragment-parts valid_utf8 protocol front fragment no_hash parts.fragment_bytes valid,
      )
      (split_remainder-parts protocol scheme authority query (if_bytes fragment)
        (append-given (user_part user_info) host_port parts.host_given) chars)
