-- ===== src/Profiles/Authority/Parts.antt =====
-- The parts of a canonical URI, each split off again.
use sub_share_go.Common.{
  ℕ, ◌<◌, List, [], ◌∷◌, ◌++◌, Option, none, some, Bool, true, false, ◌≡◌, ◌≢◌, refl, ap, arith,
  ltb, if◌then◌else◌, All, All-append, append_assoc, append-nil,
}
use sub_share_go.Common.Result.{ok}
use sub_share_go.Strings.{Text, is_empty, is_space}
use sub_share_go.Strings.Bytes.{bytes, rune_bytes}
use sub_share_go.Strings.Split.{Lacks}
use sub_share_go.Strings.Trim.{Solid}
use sub_share_go.Profiles.Percent.{unreserved, hex_digit, percent_encode}
use sub_share_go.Profiles.Percent.RoundTrip.{Byte, percent_encode-All, path_unescape-percent_encode}
use sub_share_go.Profiles.Authority.{
  scheme_char, scheme_chars, lower_scheme, split_fragment, split_query, split_path, split_remainder,
  components, all_slashes, query_part, fragment_part,
}
use sub_share_go.Profiles.Authority.HostPort.{cut_at-append, cut_at-none}

-- a character of an authority: none that ends it, and no space
abbrev pub InAuthority : ℕ → Type 0
InAuthority c = (is_space c ≡ false) × (c ≢ b'#') × (c ≢ b'?') × (c ≢ b'/')

-- a character of a query: none that ends it, and no space
abbrev pub InQuery : ℕ → Type 0
InQuery c = (is_space c ≡ false) × (c ≢ b'#')

pub All-map : (P Q : ℕ → Type 0) (s : Text) → ((c : ℕ) → P c → Q c) → All P s → All Q s
All-map P Q [] f h = tt
All-map P Q (c ∷ s) f h = (f c h.0, All-map P Q s f h.1)

-- the characters of an encoding
unfoldable pub Encoded : ℕ → Type 0
Encoded c = (c < 128) × (is_space c ≡ false)

pub unreserved-Encoded : (c : ℕ) → unreserved c ≡ true → Encoded c
unfolding unreserved Encoded is_space
unreserved-Encoded c h = (ground arith, ground arith)

pub hex_digit-Encoded : (d : ℕ) → d < 16 → Encoded (hex_digit d)
unfolding hex_digit Encoded is_space
hex_digit-Encoded d h = (ground arith, ground arith)

pub hex-Encoded : Encoded b'%'
unfolding Encoded is_space
hex-Encoded = (omega arith, refl)

pub percent_encode-Encoded : (s : List ℕ) → All Byte s → All Encoded (percent_encode s)
percent_encode-Encoded s =
    percent_encode-All Encoded s unreserved-Encoded hex-Encoded hex_digit-Encoded

bytes-Encoded : (s : Text) → All Encoded s → bytes s ≡ s
unfolding bytes rune_bytes Encoded
bytes-Encoded [] h = refl
bytes-Encoded (c ∷ s) h =
    let small : ltb c 0x80 ≡ true = ground (arith, h.0) in rw (small, bytes-Encoded s h.1) refl

-- the parts of a canonical URI: a scheme in lower case, an authority that is not empty
pub record IsUri (scheme user_info host_port query : Text) (fragment : List ℕ) : Type 0 where
  pub scheme_given : is_empty scheme ≡ false
  pub scheme_valid : scheme_chars true scheme ≡ true
  pub scheme_lower : lower_scheme scheme ≡ scheme
  pub host_given : is_empty host_port ≡ false
  pub user_chars : All InAuthority user_info
  pub host_chars : All InAuthority host_port
  pub query_chars : All InQuery query
  pub fragment_bytes : All Byte fragment

abbrev pub if_given : Text → Option Text
if_given s = if is_empty s then none else some s

scheme_char-Lacks :
    (first : Bool) (c : ℕ) → scheme_char first c ≡ true → (c ≢ b':') × (is_space c ≡ false)
unfolding is_space
scheme_char-Lacks first c h = (ground (arith, h), ground (arith, h))

pub scheme_chars-Lacks :
    (first : Bool) (s : Text) → scheme_chars first s ≡ true → Lacks b':' s × Solid s
unfolding scheme_chars
scheme_chars-Lacks first [] h = (tt, tt)
scheme_chars-Lacks first (c ∷ s) h =
    let (here, solid) = scheme_char-Lacks first c (ground arith) in
    let (rest, solids) = scheme_chars-Lacks false s (ground arith) in
    ((here, rest), (solid, solids))

-- the authority with the slash in front of a query
abbrev with_slash : Text → Text → Text
with_slash authority query = if is_empty query then authority else authority ++ b'/' ∷ []

slash-Lacks : (authority : Text) → Lacks b'?' authority → Lacks b'?' (authority ++ b'/' ∷ [])
slash-Lacks authority h =
    All-append (λ c. c ≢ b'?') authority (b'/' ∷ []) h ((λ e. absurd (omega (arith, e))), tt)

split_query-parts :
    (authority query : Text)
    → Lacks b'?' authority
    → split_query (authority ++ query_part query) ≡ (with_slash authority query, if_given query)
unfolding split_query
split_query-parts authority [] h =
    rw (append-nil authority, cut_at-none b'?' authority h, split_query)
      (ap (λ (x : Text). (x, none)) (append-nil authority))
split_query-parts authority (q ∷ query) h =
    rw
      (
        ← append_assoc authority (b'/' ∷ []) (b'?' ∷ q ∷ query),
        cut_at-append b'?' (authority ++ b'/' ∷ []) (q ∷ query) (slash-Lacks authority h),
        split_query,
      )
      refl

split_path-parts :
    (protocol authority query : Text)
    → Lacks b'/' authority
    → split_path protocol (with_slash authority query) ≡ ok authority
unfolding split_path all_slashes
split_path-parts protocol authority [] h = rw (cut_at-none b'/' authority h, split_path) refl
split_path-parts protocol authority (q ∷ query) h =
    rw (cut_at-append b'/' authority [] h, split_path) refl

pub split_remainder-parts :
    (protocol scheme authority query : Text) (fragment : Option (List ℕ))
    → is_empty authority ≡ false
    → All InAuthority authority
    → split_remainder protocol scheme fragment (authority ++ query_part query)
      ≡ ok (components scheme authority (if_given query) fragment)
unfolding split_remainder
split_remainder-parts protocol scheme authority query fragment given chars =
    let no_mark = All-map InAuthority (λ c. c ≢ b'?') authority (λ c h. h.2) chars in
    let no_slash = All-map InAuthority (λ c. c ≢ b'/') authority (λ c h. h.3) chars in
    rw
      (
        split_query-parts authority query no_mark,
        split_path-parts protocol authority query no_slash,
        given,
      )
      refl

abbrev pub if_bytes : List ℕ → Option (List ℕ)
if_bytes fragment = if is_empty fragment then none else some fragment

pub split_fragment-parts :
    (valid_utf8 : List ℕ → Bool) (protocol front : Text) (fragment : List ℕ)
    → Lacks b'#' front
    → All Byte fragment
    → valid_utf8 fragment ≡ true
    → split_fragment valid_utf8 protocol (front ++ fragment_part fragment)
      ≡ ok (front, if_bytes fragment)
unfolding split_fragment
split_fragment-parts valid_utf8 protocol front [] h all valid =
    rw (append-nil front, cut_at-none b'#' front h, split_fragment)
      (ap (λ (x : Text). ok (x, none)) (append-nil front))
split_fragment-parts valid_utf8 protocol front (f ∷ fragment) h all valid =
    let encoded = percent_encode (f ∷ fragment) in
    rw
      (
        cut_at-append b'#' front encoded h,
        split_fragment,
        bytes-Encoded encoded (percent_encode-Encoded (f ∷ fragment) all),
        path_unescape-percent_encode (f ∷ fragment) all,
        valid,
      )
      refl
