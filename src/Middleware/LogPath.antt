-- ===== src/Middleware/LogPath.antt =====
-- `sanitizeLogPath` and `validRequestID` of internal/middleware/middleware.go: what a caller may
-- write into the log.
use sub_share_go.Common.{
  ℕ, suc, ◌≤◌, List, [], ◌∷◌, ◌≡◌, ◌≢◌, refl, ap, Bool, true, false, ◌&&◌, ◌||◌, ◌==◌, text,
  text_eq, arith, All, ltb, leb, nat_eq, if◌then◌else◌, Bool-cases, inl, inr, eq_self, cons-ne-nil,
  length,
}
use sub_share_go.Strings.{Text, codes, split, join, byte_len, is_empty}
use sub_share_go.Strings.Split.{Lacks, split-join, split-Lacks, split-ne-nil}
use sub_share_go.Strings.Trim.{ne-nil_of_test}

abbrev sub : Text
sub = codes "sub"

abbrev hwid : Text
hwid = codes "hwid"

abbrev subscription_id_mark : Text
subscription_id_mark = codes "{subscription_id}"

abbrev hwid_mark : Text
hwid_mark = codes "{hwid}"

-- what the segment behind `segment` becomes
mask : Text → Text → Text
mask segment next =
    if segment == sub then subscription_id_mark else if segment == hwid then hwid_mark else next

-- the loop over the segments from index 1; a segment that was overwritten is then visited itself
redact : List Text → List Text
unfolding mask
redact [] = []
redact (segment ∷ []) = segment ∷ []
redact (segment ∷ next ∷ rest) = segment ∷ redact (mask segment next ∷ rest)

abbrev redact_rest : List Text → List Text
redact_rest [] = []
redact_rest (first ∷ segments) = first ∷ redact segments

pub sanitize_log_path : Text → Text
sanitize_log_path path = join b'/' (redact_rest (split b'/' path))

-- No secret stands behind `sub` or `hwid`.
abbrev pub IsRedacted : List Text → Type 0
IsRedacted [] = Unit
IsRedacted (a ∷ []) = Unit
IsRedacted (a ∷ b ∷ rest) =
    (a ≡ sub → b ≡ subscription_id_mark) × (a ≡ hwid → b ≡ hwid_mark) × IsRedacted (b ∷ rest)

mask-sub : (segment next : Text) → segment ≡ sub → mask segment next ≡ subscription_id_mark
unfolding mask
mask-sub segment next e = rw (e, eq_self sub)

mask_hwid : (segment next : Text) → segment ≡ hwid → mask segment next ≡ hwid_mark
unfolding mask text_eq
mask_hwid segment next e = rw e

redact-IsRedacted : (segments : List Text) → IsRedacted (redact segments)
unfolding redact
redact-IsRedacted [] = tt
redact-IsRedacted (a ∷ []) = tt
redact-IsRedacted (a ∷ b ∷ []) = (mask-sub a b, mask_hwid a b, tt)
redact-IsRedacted (a ∷ b ∷ c ∷ rest) =
    (mask-sub a b, mask_hwid a b, redact-IsRedacted (mask a b ∷ c ∷ rest))

mask-Lacks : (a b : Text) → Lacks b'/' b → Lacks b'/' (mask a b)
unfolding mask
mask-Lacks a b h = elim (Bool-cases (a == sub)) [
  | inl e ↦ rw e (omega arith)
  | inr e ↦ elim (Bool-cases (a == hwid)) [
    | inl e' ↦ rw (e, e') (omega arith)
    | inr e' ↦ rw (e, e') h
  ]
]

redact-Lacks :
    (segments : List Text) → All (Lacks b'/') segments → All (Lacks b'/') (redact segments)
unfolding redact
redact-Lacks [] h = tt
redact-Lacks (a ∷ []) h = h
redact-Lacks (a ∷ b ∷ rest) h = (h.0, redact-Lacks (mask a b ∷ rest) (mask-Lacks a b h.1.0, h.1.1))

length-redact : (segments : List Text) → length (redact segments) ≡ length segments
unfolding redact
length-redact [] = refl
length-redact (a ∷ []) = refl
length-redact (a ∷ b ∷ rest) = ap suc (length-redact (mask a b ∷ rest))

redact_rest-Lacks :
    (segments : List Text) → All (Lacks b'/') segments → All (Lacks b'/') (redact_rest segments)
redact_rest-Lacks [] h = tt
redact_rest-Lacks (a ∷ segments) h = (h.0, redact-Lacks segments h.1)

redact_rest-ne-nil : (segments : List Text) → segments ≢ [] → redact_rest segments ≢ []
redact_rest-ne-nil [] h = h
redact_rest-ne-nil (a ∷ segments) h = cons-ne-nil a (redact segments)

-- the segments of a sanitized path
split-sanitize : (path : Text) → split b'/' (sanitize_log_path path) ≡ redact_rest (split b'/' path)
unfolding sanitize_log_path
split-sanitize path =
    split-join b'/' (redact_rest (split b'/' path))
      (redact_rest-ne-nil (split b'/' path) (split-ne-nil b'/' path))
      (redact_rest-Lacks (split b'/' path) (split-Lacks b'/' path))

abbrev pub behind_first : List Text → List Text
behind_first [] = []
behind_first (first ∷ segments) = segments

behind_first-redact :
    (segments : List Text) → behind_first (redact_rest segments) ≡ redact (behind_first segments)
behind_first-redact [] = unfold redact in refl
behind_first-redact (a ∷ segments) = refl

length-redact_rest : (segments : List Text) → length (redact_rest segments) ≡ length segments
length-redact_rest [] = refl
length-redact_rest (a ∷ segments) = ap suc (length-redact segments)

-- A path that is logged has as many segments as the request's, and behind its first segment every
-- segment after `sub` or `hwid` is the placeholder.
pub sanitize_log_path-IsRedacted :
    (path : Text)
    → IsRedacted (behind_first (split b'/' (sanitize_log_path path)))
      × (length (split b'/' (sanitize_log_path path)) ≡ length (split b'/' path))
sanitize_log_path-IsRedacted path = (
  rw (split-sanitize path, behind_first-redact (split b'/' path))
      (redact-IsRedacted (behind_first (split b'/' path))),
  rw split-sanitize (length-redact_rest (split b'/' path)),
)

-- validRequestID
unfoldable pub request_id_char : ℕ → Bool
request_id_char c =
    (leb b'a' c && leb c b'z')
    || (leb b'A' c && leb c b'Z')
    || (leb b'0' c && leb c b'9')
    || nat_eq c b'-'
    || nat_eq c b'_'
    || nat_eq c b'.'

-- the loop over the bytes: a rune beyond ASCII has only bytes that are refused
unfoldable pub request_id_chars : Text → Bool
unfolding request_id_char
request_id_chars [] = true
request_id_chars (c ∷ s) = request_id_char c && request_id_chars s

unfoldable pub valid_request_id : Text → Bool
valid_request_id id = if is_empty id || ltb 64 (byte_len id) then false else request_id_chars id

abbrev pub IsLogSafe : ℕ → Type 0
IsLogSafe c = (b'-' ≤ c) × (c ≤ b'z') × (c ≢ b'/')

request_id_chars-IsLogSafe : (s : Text) → request_id_chars s ≡ true → All IsLogSafe s
unfolding request_id_chars
request_id_chars-IsLogSafe [] h = tt
request_id_chars-IsLogSafe (c ∷ s) h = ground (arith, request_id_chars-IsLogSafe s)

-- A request id that is taken over from the caller has 1 to 64 bytes, and each rune of it lies from
-- `-` to `z` in ASCII and is no slash: no control character, no space and no double quote.
pub valid_request_id_sound :
    (id : Text) → valid_request_id id ≡ true → (id ≢ []) × (byte_len id ≤ 64) × All IsLogSafe id
unfolding valid_request_id
valid_request_id_sound id h = elim (Bool-cases (is_empty id)) [
  | inl e ↦ absurd (ground arith)
  | inr e ↦ elim (Bool-cases (ltb 64 (byte_len id))) [
    | inl long ↦ absurd (ground arith)
    | inr short ↦
        (ne-nil_of_test id e, ground arith, request_id_chars-IsLogSafe id (rw (e, short) at h))
  ]
]
