-- ===== src/Devices.antt =====
-- cmd/server/device_policy.go, device_registration.go and device_registration_repository.go: the
-- devices of a user and their limit. A registration is one transaction that begins with a write, so
-- registrations follow one another. `sql_key` is SQLite's LOWER(TRIM(hwid)).
pub mod Capacity
use sub_share_go.Common.{
  ℕ, List, [], ◌∷◌, ◌++◌, Option, none, some, Bool, true, false, not, ◌&&◌, ◌||◌, ℤ, pos, negsuc,
  above, ltb, leb, length, ◌==◌, text, ℕ_eq, if◌then◌else◌, ◌≡◌, contains,
}
use sub_share_go.Strings.{Text, Unicode, codes, trim_space, is_empty, byte_len, to_lower}

-- `deviceMeta`, less the brand, which is not stored
pub record DeviceMeta : Type 0 where
  pub normalized_hwid : Text
  pub device_name : Text
  pub device_model : Text
  pub platform : Text
  pub os_version : Text
  pub app_name : Text
  pub app_version : Text
  pub user_agent : Text

-- a row of `user_devices`
pub record DeviceRow : Type 0 where
  pub user_id : ℕ
  pub hwid : Text
  pub meta : DeviceMeta

-- `deviceCapacity`
pub record DeviceCapacity : Type 0 where
  pub limit : ℤ
  pub count : ℕ

unfoldable pub available : DeviceCapacity → Bool
available capacity = not (above capacity.limit 0) || above capacity.limit capacity.count

unfoldable pub first_non_empty : List Text → Text
first_non_empty [] = []
first_non_empty (raw ∷ values) =
    let value = trim_space raw in
    let rest = first_non_empty values in if not (is_empty value) then value else rest

unfoldable pub normalize_hwid : ⦃u : Unicode⦄ → Text → Text
normalize_hwid raw = to_lower (trim_space raw)

unfoldable pub normalize_registration : ⦃u : Unicode⦄ → Text → DeviceMeta → Text × DeviceMeta
normalize_registration raw meta =
    let hwid = trim_space raw in
    (
      hwid,
      record meta {
        normalized_hwid = normalize_hwid (first_non_empty (meta.normalized_hwid ∷ hwid ∷ []));
      },
    )

pub data HwidError : Type 0 where
  hwid_invalid hwid_required : HwidError

-- of the settings, `ProviderID` and `HappMandatoryHWID`
unfoldable pub validate_subscription_hwid : Text → Text → Bool → Option HwidError
validate_subscription_hwid hwid provider_id mandatory_hwid =
    if ltb 128 (byte_len hwid)
    then some hwid_invalid
    else if is_empty hwid && (not (is_empty provider_id) && mandatory_hwid)
    then some hwid_required
    else none

-- COALESCE(NULLIF(new, ''), old)
abbrev pub keep_if_empty : Text → Text → Text
keep_if_empty new old = if is_empty new then old else new

unfoldable pub refreshed : DeviceMeta → DeviceMeta → DeviceMeta
refreshed old new = record {
  normalized_hwid = new.normalized_hwid;
  device_name = keep_if_empty new.device_name old.device_name;
  device_model = keep_if_empty new.device_model old.device_model;
  platform = keep_if_empty new.platform old.platform;
  os_version = keep_if_empty new.os_version old.os_version;
  app_name = keep_if_empty new.app_name old.app_name;
  app_version = keep_if_empty new.app_version old.app_version;
  user_agent = keep_if_empty new.user_agent old.user_agent;
}

abbrev pub is_device_of : ℕ → Text → DeviceRow → Bool
is_device_of user_id hwid row = row.user_id == user_id && row.meta.normalized_hwid == hwid

-- the UPDATE, and whether it has affected a row
unfoldable pub update_registered_device : ℕ → DeviceMeta → List DeviceRow → List DeviceRow × Bool
update_registered_device user_id meta [] = ([], false)
update_registered_device user_id meta (row ∷ rows) =
    let (rest, updated) = update_registered_device user_id meta rows in
    if is_device_of user_id meta.normalized_hwid row
    then (record row { meta = refreshed row.meta meta } ∷ rest, true)
    else (row ∷ rest, updated)

abbrev pub new_row : ℕ → Text → DeviceMeta → DeviceRow
new_row user_id hwid meta = record { user_id = user_id; hwid = hwid; meta = meta }

abbrev pub insert_registered_device : ℕ → Text → DeviceMeta → List DeviceRow → List DeviceRow
insert_registered_device user_id hwid meta rows = rows ++ new_row user_id hwid meta ∷ []

module _ (sql_key : Text → Text) where
  abbrev pub device_key : DeviceRow → Text
  device_key row =
      if is_empty row.meta.normalized_hwid then sql_key row.hwid else row.meta.normalized_hwid

  -- the distinct identities of the user's rows
  unfoldable pub identities : ℕ → List DeviceRow → List Text
  identities user_id [] = []
  identities user_id (row ∷ rows) =
      let rest = identities user_id rows in
      if row.user_id == user_id && not (contains rest (device_key row))
      then device_key row ∷ rest
      else rest

  -- the count is not asked for without a limit
  unfoldable pub load_device_capacity : ℕ → ℤ → List DeviceRow → DeviceCapacity
  load_device_capacity user_id max_devices rows = record {
    limit = max_devices;
    count = if not (above max_devices 0) then 0 else length (identities user_id rows);
  }

  unfoldable pub register_in_transaction :
      ℕ → ℤ → Text → DeviceMeta → List DeviceRow → List DeviceRow × Bool
  register_in_transaction user_id max_devices hwid meta rows =
      let (written, updated) = update_registered_device user_id meta rows in
      if updated
      then (written, true)
      else if not (available (load_device_capacity user_id max_devices written))
      then (written, false)
      else (insert_registered_device user_id hwid meta written, true)

  -- a refused registration is rolled back
  unfoldable pub register_hwid :
      ⦃u : Unicode⦄ → ℕ → ℤ → Text → DeviceMeta → List DeviceRow → List DeviceRow × Bool
  register_hwid user_id max_devices raw raw_meta rows =
      let (hwid, meta) = normalize_registration raw raw_meta in
      let (written, allowed) = register_in_transaction user_id max_devices hwid meta rows in
      if is_empty meta.normalized_hwid
      then (rows, true)
      else if not allowed
      then (rows, false)
      else (written, true)
