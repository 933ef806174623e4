-- ===== src/Sources/Hwid.antt =====
-- internal/sources/hwid.go: the device that a fetch shows to the source.
use sub_share_go.Common.{
  ℕ, [], ◌++◌, Bool, true, false, not, ◌&&◌, ◌||◌, ltb, nat_eq, if◌then◌else◌, text, ◌==◌,
}
use sub_share_go.Strings.{Text, codes, trim_space, is_empty, byte_len}
use sub_share_go.Strings.Bytes.{cut}

-- `HWIDProfile`
pub record HwidProfile : Type 0 where
  pub pass_hwid : Bool
  pub version : Text
  pub model_name : Text
  pub hwid : Text

-- every call clamps to a positive length
unfoldable pub clamp_external_hwid_field : Text → ℕ → Text
clamp_external_hwid_field raw max =
    let value = trim_space raw in
    if nat_eq max 0 || is_empty value
    then value
    else if ltb max (byte_len value)
    then cut max value
    else value

unfoldable pub normalize_hwid_profile : Bool → Text → Text → Text → HwidProfile
normalize_hwid_profile false version model_name hwid = record {
  pass_hwid = false;
  version = [];
  model_name = [];
  hwid = [];
}
normalize_hwid_profile true version model_name hwid = record {
  pass_hwid = true;
  version = clamp_external_hwid_field version 64;
  model_name = clamp_external_hwid_field model_name 128;
  hwid = clamp_external_hwid_field hwid 128;
}

abbrev pub same_flag : Bool → Bool → Bool
same_flag a b = if a then b else not b

-- Go's `==` on profiles
unfoldable pub same_profile : HwidProfile → HwidProfile → Bool
same_profile a b =
    same_flag a.pass_hwid b.pass_hwid
    && (a.version == b.version && (a.model_name == b.model_name && a.hwid == b.hwid))

-- `externalUserAgent`
unfoldable pub external_user_agent : HwidProfile → Text
external_user_agent profile =
    if not profile.pass_hwid || is_empty profile.version
    then codes "subshare/1.0 (+external-import)"
    else if not (is_empty profile.model_name)
    then codes "Happ/" ++ (profile.version ++ (codes " (" ++ (profile.model_name ++ codes ")")))
    else codes "Happ/" ++ profile.version
