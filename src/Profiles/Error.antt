-- ===== src/Profiles/Error.antt =====
-- internal/profiles/errors.go: errors that name a category, a protocol and a field, never a value.
use sub_share_go.Strings.{Text}

pub data ErrorCode : Type 0 where
  unsupported_scheme invalid_authority invalid_port invalid_encoding : ErrorCode
  missing_credential unsupported_generation ambiguous_tuic_dialect : ErrorCode
  compatibility_only_input invalid_profile missing_fingerprint_key : ErrorCode

-- `Error`
pub record ProfileError : Type 0 where
  pub code : ErrorCode
  pub protocol : Text
  pub field : Text

abbrev pub new_error : ErrorCode → Text → Text → ProfileError
new_error code protocol field = record { code = code; protocol = protocol; field = field }
