-- ===== src/Subscription/Fields.antt =====
-- cmd/server/subscription_patch_fields.go and `parseOptionalDateTimeInLocation` of
-- cmd/server/helpers.go: one field of a request at a time. Go's `time` and `net/url` are the
-- instance `Formats`. An error is known by its code; its message is left out.
use sub_share_go.Common.{
  ℕ, [], Option, none, some, Bool, false, ◌||◌, not, ℤ, pos, above, at_least, int, ltb, ◌==◌, text,
  if◌then◌else◌, length,
}
use sub_share_go.Common.Result.{Result, ok, err, ◌>>=◌}
use sub_share_go.Strings.{Text, Unicode, codes, is_empty, trim_space}
use sub_share_go.Model.Vocabulary.{normalize_user_status}

-- the parts of a parsed URL that are read
pub record Url : Type 0 where
  pub host : Text
  pub has_user : Bool
  pub scheme : Text
  pub printed : Text

pub record Formats : Type 1 where
  pub Location : Type 0
  pub utc : Location
  -- `time.LoadLocation`, `none` for an error
  pub load_location : Text → Option Location
  -- `time.Parse(time.RFC3339, raw)`
  pub parse_rfc3339 : Text → Option ℕ
  -- `time.ParseInLocation` with the layout
  pub parse_in_location : Text → Text → Location → Option ℕ
  -- `url.ParseRequestURI`
  pub parse_request_uri : Text → Option Url

-- `model.OptionalString`
pub record OptionalString : Type 0 where
  pub value : Text
  pub is_set : Bool
  pub is_null : Bool

-- `model.OptionalInt`
pub record OptionalInt : Type 0 where
  pub value : ℤ
  pub is_set : Bool
  pub is_null : Bool

pub data FieldError : Type 0 where
  status_null status_unknown time_invalid text_too_long url_invalid hours_out_of_range : FieldError

unfoldable pub url_allowed : Url → Bool
url_allowed url =
    if is_empty url.host
    then false
    else if url.has_user
    then false
    else url.scheme == codes "http" || url.scheme == codes "https"

module _ (f : Formats) where
  open f use {Location, load_location, parse_rfc3339, parse_in_location, parse_request_uri}

  pub first_layout : Text → Location → Option ℕ
  first_layout raw location = elim (parse_in_location (codes "2006-01-02T15:04") raw location) [
    | some t ↦ some t
    | none ↦ elim (parse_in_location (codes "2006-01-02 15:04") raw location) [
      | some t ↦ some t
      | none ↦ parse_in_location (codes "02/01/2006 15:04") raw location
    ]
  ]

  -- `ok none` is the invalid `sql.NullTime`
  unfoldable pub parse_optional_date_time : Text → Location → Result FieldError (Option ℕ)
  unfolding first_layout
  parse_optional_date_time raw location =
      let trimmed = trim_space raw in
      if is_empty trimmed then ok none else elim (parse_rfc3339 trimmed) [
        | some t ↦ ok (some t)
        | none ↦ elim (first_layout trimmed location) [
          | some t ↦ ok (some t)
          | none ↦ err time_invalid
        ]
      ]

  unfoldable pub normalize_absolute_http_url : Text → Result FieldError Text
  normalize_absolute_http_url raw =
      let trimmed = trim_space raw in
      if is_empty trimmed then ok [] else elim (parse_request_uri trimmed) [
        | none ↦ err url_invalid
        | some url ↦ if url_allowed url then ok url.printed else err url_invalid
      ]

  unfoldable pub apply_patch_time :
      OptionalString → Option ℕ → Location → Result FieldError (Option ℕ)
  apply_patch_time field target location =
      if not field.is_set
      then ok target
      else if field.is_null || is_empty (trim_space field.value)
      then ok none
      else parse_optional_date_time field.value location

  unfoldable pub apply_patch_url : OptionalString → Option Text → Result FieldError (Option Text)
  apply_patch_url field target =
      if not field.is_set
      then ok target
      else if field.is_null || is_empty (trim_space field.value)
      then ok none
      else do value ← normalize_absolute_http_url field.value; ok (some value)

unfoldable pub apply_patch_status : ⦃u : Unicode⦄ → OptionalString → Text → Result FieldError Text
apply_patch_status field target =
    if not field.is_set
    then ok target
    else if field.is_null
    then err status_null
    else elim (normalize_user_status field.value) [
      | none ↦ err status_unknown
      | some normalized ↦ ok normalized
    ]

unfoldable pub apply_patch_string :
    OptionalString → Option Text → ℕ → Result FieldError (Option Text)
apply_patch_string field target max_runes =
    let value = trim_space field.value in
    if not field.is_set
    then ok target
    else if field.is_null
    then ok none
    else if ltb max_runes (length value)
    then err text_too_long
    else ok (if is_empty value then none else some value)

unfoldable pub apply_patch_refresh_hours : OptionalInt → ℤ → Result FieldError ℤ
apply_patch_refresh_hours field target =
    if not field.is_set
    then ok target
    else if field.is_null || field.value == pos 0
    then ok (pos 0)
    else if not (at_least field.value 1) || above field.value 720
    then err hours_out_of_range
    else ok field.value
