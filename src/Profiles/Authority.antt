-- ===== src/Profiles/Authority.antt =====
-- internal/profiles/uri.go: a URI and its parts, split and put together. The decoded fragment is a
-- list of bytes; `valid_utf8` is `utf8.ValidString` on bytes.
pub mod HostPort
pub mod Parts
pub mod Uri
use sub_share_go.Common.{
  ℕ, zero, suc, ◌+◌, List, [], ◌∷◌, ◌++◌, Option, none, some, Bool, true, false, not, ◌&&◌, ◌||◌,
  ltb, leb, nat_eq, contains, ℕ_eq, if◌then◌else◌, ◌==◌,
}
use sub_share_go.Common.Result.{Result, err, ok, ◌>>=◌, fail_if, ◌>>◌}
use sub_share_go.Strings.{Text, codes, trim_space, is_empty, has_prefix}
use sub_share_go.Strings.Bytes.{bytes}
use sub_share_go.Profiles.Error.{ErrorCode, ProfileError, new_error}
use sub_share_go.Profiles.Percent.{percent_encode, path_unescape}

abbrev pub Before : Type 0
Before = Text × Text

abbrev pub push_before : ℕ → Option Before → Option Before
push_before c none = none
push_before c (some (before, after)) = some (c ∷ before, after)

-- `strings.Cut` at one separator; `none` is a separator that is not found
unfoldable pub cut_at : ℕ → Text → Option Before
cut_at sep [] = none
cut_at sep (c ∷ s) =
    let rest = cut_at sep s in if nat_eq c sep then some ([], s) else push_before c rest

-- `strings.Count(s, sep)`
unfoldable pub count_char : ℕ → Text → ℕ
count_char sep [] = 0
count_char sep (c ∷ s) = let rest = count_char sep s in if nat_eq c sep then suc rest else rest

-- host, port, and whether a port is given
abbrev pub RawHostPort : Type 0
RawHostPort = Text × Text × Bool

abbrev pub authority_error : Text → Text → ProfileError
authority_error protocol field = new_error ErrorCode.invalid_authority protocol field

-- the tail behind a bracketed host
unfoldable pub bracket_tail : Text → Text → Text → Result ProfileError RawHostPort
bracket_tail protocol raw_host [] = ok (raw_host, [], false)
bracket_tail protocol raw_host (c ∷ port) =
    if not (nat_eq c b':') || is_empty port
    then err (authority_error protocol (codes "port"))
    else ok (raw_host, port, true)

-- a bracketed literal, from behind the bracket; `closing <= 1` is an empty literal
unfoldable pub split_bracketed : Text → Text → Result ProfileError RawHostPort
split_bracketed protocol s = elim (cut_at b']' s) [
  | none ↦ err (authority_error protocol (codes "host"))
  | some ([], tail) ↦ err (authority_error protocol (codes "host"))
  | some (c ∷ raw_host, tail) ↦ bracket_tail protocol (c ∷ raw_host) tail
]

unfoldable pub split_plain : Text → Text → Result ProfileError RawHostPort
split_plain protocol s = elim (cut_at b':' s) [
  | none ↦ ok (s, [], false)
  | some (raw_host, raw_port) ↦
      if ltb 1 (count_char b':' s)
      then err (authority_error protocol (codes "host"))
      else ok (raw_host, raw_port, true)
]

unfoldable pub split_raw_host_port : Text → Text → Result ProfileError RawHostPort
split_raw_host_port [] protocol = split_plain protocol []
split_raw_host_port (c ∷ s) protocol =
    if nat_eq c b'[' then split_bracketed protocol s else split_plain protocol (c ∷ s)

-- a host and the expression of its port
unfoldable pub format_host_port : Text → Text → Text
format_host_port host expression =
    (if contains host b':' then b'[' ∷ host ++ b']' ∷ [] else host) ++ b':' ∷ expression

abbrev pub scheme_char : Bool → ℕ → Bool
scheme_char first c =
    (leb b'a' c && leb c b'z')
    || (leb b'A' c && leb c b'Z')
    || (not first
        && ((leb b'0' c && leb c b'9') || nat_eq c b'+' || nat_eq c b'-' || nat_eq c b'.'))

unfoldable pub scheme_chars : Bool → Text → Bool
scheme_chars first [] = true
scheme_chars first (c ∷ s) = scheme_char first c && scheme_chars false s

-- `strings.ToLower` on ASCII, which a scheme is
unfoldable pub lower_scheme : Text → Text
lower_scheme [] = []
lower_scheme (c ∷ s) = (if leb b'A' c && leb c b'Z' then c + 32 else c) ∷ lower_scheme s

abbrev pub no_scheme : ProfileError
no_scheme = new_error ErrorCode.unsupported_scheme [] (codes "scheme")

-- the scheme and what follows its colon
unfoldable pub scheme_and_rest : Text → Result ProfileError Before
scheme_and_rest raw = elim (cut_at b':' (trim_space raw)) [
  | none ↦ err no_scheme
  | some (scheme, rest) ↦
      if is_empty scheme
      then err no_scheme
      else if scheme_chars true scheme
      then ok (lower_scheme scheme, rest)
      else err no_scheme
]

unfoldable pub detect_scheme : Text → Result ProfileError Text
detect_scheme raw = scheme_and_rest raw >>= λ found. ok found.0

-- `uriComponents`
pub record UriComponents : Type 0 where
  pub scheme : Text
  pub authority : Text
  pub raw_query : Text
  pub fragment : List ℕ
  pub has_query : Bool
  pub has_fragment : Bool

-- `strings.Trim(s, "/") == ""`
unfoldable pub all_slashes : Text → Bool
all_slashes [] = true
all_slashes (c ∷ s) = nat_eq c b'/' && all_slashes s

-- the rest of the URI before the fragment, and the fragment
unfoldable pub split_fragment :
    (List ℕ → Bool) → Text → Text → Result ProfileError (Text × Option (List ℕ))
split_fragment valid_utf8 protocol s = elim (cut_at b'#' s) [
  | none ↦ ok (s, none)
  | some (before, after) ↦ elim (path_unescape (bytes after)) [
    | none ↦ err (new_error ErrorCode.invalid_encoding protocol (codes "fragment"))
    | some decoded ↦
        if valid_utf8 decoded
        then ok (before, some decoded)
        else err (new_error ErrorCode.invalid_encoding protocol (codes "fragment"))
  ]
]

unfoldable pub split_query : Text → Text × Option Text
split_query s = elim (cut_at b'?' s) [
  | none ↦ (s, none)
  | some (before, after) ↦ (before, some after)
]

-- a path may consist of slashes only
unfoldable pub split_path : Text → Text → Result ProfileError Text
split_path protocol s = elim (cut_at b'/' s) [
  | none ↦ ok s
  | some (before, after) ↦
      if all_slashes after then ok before else err (authority_error protocol (codes "path"))
]

abbrev pub components : Text → Text → Option Text → Option (List ℕ) → UriComponents
components scheme authority query fragment = record {
  scheme = scheme;
  authority = authority;
  raw_query = elim query [ none ↦ [] | some q ↦ q ];
  fragment = elim fragment [ none ↦ [] | some f ↦ f ];
  has_query = elim query [ none ↦ false | some q ↦ true ];
  has_fragment = elim fragment [ none ↦ false | some f ↦ true ];
}

-- what stands behind `//`, without its fragment
unfoldable pub split_remainder :
    Text → Text → Option (List ℕ) → Text → Result ProfileError UriComponents
split_remainder protocol scheme fragment s =
    let (rest, query) = split_query s in
    split_path protocol rest >>= λ authority.
    if is_empty authority
    then err (authority_error protocol (codes "authority"))
    else ok (components scheme authority query fragment)

-- the two slashes, and what follows them
abbrev pub behind_slashes : Text → Text → Result ProfileError Text
behind_slashes protocol (a ∷ b ∷ s) =
    if nat_eq a b'/' && nat_eq b b'/' then ok s else err (authority_error protocol (codes "uri"))
behind_slashes protocol _ = err (authority_error protocol (codes "uri"))

unfoldable pub split_standard_uri :
    (List ℕ → Bool) → Text → Text → Result ProfileError UriComponents
split_standard_uri valid_utf8 raw protocol = scheme_and_rest raw >>= λ found.
    behind_slashes protocol found.1 >>= λ remainder.
    split_fragment valid_utf8 protocol remainder >>= λ parts.
    split_remainder protocol found.0 parts.1 parts.0

abbrev pub user_part : Text → Text
user_part user_info = if is_empty user_info then [] else user_info ++ b'@' ∷ []

abbrev pub query_part : Text → Text
query_part query = if is_empty query then [] else b'/' ∷ b'?' ∷ query

abbrev pub fragment_part : List ℕ → Text
fragment_part fragment = if is_empty fragment then [] else b'#' ∷ percent_encode fragment

unfoldable pub canonical_uri : Text → Text → Text → Text → List ℕ → Text
canonical_uri scheme user_info host_port query fragment =
    scheme
    ++ (codes "://"
        ++ ((user_part user_info ++ host_port) ++ (query_part query ++ fragment_part fragment)))
