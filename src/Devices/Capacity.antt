-- ===== src/Devices/Capacity.antt =====
-- Registrations never bring the devices of a user above the limit.
use sub_share_go.Common.{
  ℕ, suc, ◌≤◌, List, [], ◌∷◌, ◌++◌, true, false, ℤ, pos, ◌==◌, text, ℕ_eq, nat_eq_iff, text_eq_iff,
  ◌≡◌, ◌⊎◌, contains, length, arith, refl,
}
use sub_share_go.Strings.{Text, Unicode, is_empty}
use sub_share_go.Devices.{
  DeviceMeta, DeviceRow, available, refreshed, update_registered_device, new_row, device_key,
  identities, load_device_capacity, register_in_transaction, register_hwid, normalize_registration,
}

module _ (sql_key : Text → Text) (user : ℕ) where
  -- how many devices the user has
  abbrev pub count : List DeviceRow → ℕ
  count rows = length (identities sql_key user rows)

  contains-insert :
      (row : DeviceRow) (rows : List DeviceRow) (key : Text)
      → contains (identities sql_key user rows) key ≡ true
      → contains (identities sql_key user (rows ++ row ∷ [])) key ≡ true
  unfolding identities
  contains-insert row [] key h = ground arith
  contains-insert row (r ∷ rows) key h = ground (
    arith,
    contains-insert row rows key,
    contains-insert row rows (device_key sql_key r),
    text_eq_iff (device_key sql_key r) key,
  )

  count-insert :
      (row : DeviceRow) (rows : List DeviceRow) → count (rows ++ row ∷ []) ≤ suc (count rows)
  unfolding identities
  count-insert row [] = ground arith
  count-insert row (r ∷ rows) =
      ground (arith, count-insert row rows, contains-insert row rows (device_key sql_key r))

  -- a refresh of a device changes no device_key
  identities-update :
      (owner : ℕ) (meta : DeviceMeta) (rows : List DeviceRow)
      → is_empty meta.normalized_hwid ≡ false
      → identities sql_key user (update_registered_device owner meta rows).0
        ≡ identities sql_key user rows
  unfolding identities update_registered_device refreshed
  identities-update owner meta [] h = refl
  identities-update owner meta (row ∷ rows) h = ground (
    arith,
    identities-update owner meta rows h,
    text_eq_iff row.meta.normalized_hwid meta.normalized_hwid,
  )

  identities-insert_other :
      (row : DeviceRow) (rows : List DeviceRow)
      → (row.user_id == user) ≡ false
      → identities sql_key user (rows ++ row ∷ []) ≡ identities sql_key user rows
  unfolding identities
  identities-insert_other row [] h = ground (arith, h)
  identities-insert_other row (r ∷ rows) h = ground (arith, identities-insert_other row rows h)

  transaction-count :
      (owner limit : ℕ) (max_devices : ℤ) (hwid : Text) (meta : DeviceMeta) (rows : List DeviceRow)
      → is_empty meta.normalized_hwid ≡ false
      → 1 ≤ limit
      → (owner ≡ user → max_devices ≡ pos limit)
      → count rows ≤ limit
      → count (register_in_transaction sql_key owner max_devices hwid meta rows).0 ≤ limit
  unfolding register_in_transaction available load_device_capacity
  transaction-count owner limit max_devices hwid meta rows named positive own before =
      let written = (update_registered_device owner meta rows).0 in
      let row = new_row owner hwid meta in
      let same = identities-update owner meta rows named in
      let more = count-insert row written in
      let other = identities-insert_other row written in
      ground (arith, nat_eq_iff owner user, same, more, other)

  -- A registration of any device by any owner leaves the number of a user's distinct devices within
  -- the user's limit, if that is positive, they were within it before, and the owner, when it is the
  -- user, is held to that limit.
  pub register_hwid-count :
      ⦃u : Unicode⦄ (owner limit : ℕ) (max_devices : ℤ) (hwid : Text) (meta : DeviceMeta)
      (rows : List DeviceRow)
      → 1 ≤ limit
      → (owner ≡ user → max_devices ≡ pos limit)
      → count rows ≤ limit
      → count (register_hwid sql_key owner max_devices hwid meta rows).0 ≤ limit
  unfolding register_hwid
  register_hwid-count owner limit max_devices hwid meta rows positive own before =
      let (trimmed, normal) = normalize_registration hwid meta in
      ground (arith, before, transaction-count owner limit max_devices trimmed normal rows)

-- A registration that is refused writes nothing, and a device that was registered before is accepted
-- whatever the limit.
pub register_hwid-refused :
    (sql_key : Text → Text) ⦃u : Unicode⦄ (owner : ℕ) (max_devices : ℤ) (hwid : Text)
    (meta : DeviceMeta) (rows : List DeviceRow)
    → (((register_hwid sql_key owner max_devices hwid meta rows).1 ≡ true)
        ⊎ ((register_hwid sql_key owner max_devices hwid meta rows).0 ≡ rows))
      × (((update_registered_device owner (normalize_registration hwid meta).1 rows).1 ≡ false)
          ⊎ ((register_hwid sql_key owner max_devices hwid meta rows).1 ≡ true))
unfolding register_hwid register_in_transaction
register_hwid-refused sql_key owner max_devices hwid meta rows = (ground arith, ground arith)
