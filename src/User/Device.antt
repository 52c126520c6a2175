-- ===== src/User/Device.antt =====
-- internal/logic/user_device.go: the device that a login comes from. And the statements of
-- internal/model/userdevicesmodel_gen.go that it uses.
pub mod Resolve
use lets_go.Prelude.{
  ℕ, ◌+◌, Bool, true, false, not, ◌&&◌, ◌||◌, Option, none, some, List, [], ◌∷◌, ltb, ◌==◌,
  if◌then◌else◌, length,
}
use lets_go.Strings.{trim_space, is_empty, contains_text, Text}
use lets_go.Sql.{◌>>=◌, ◌>>◌, pure, fail, call}
use lets_go.Sql.Table.{find_row, update_where}
use lets_go.Sql.Insert.{insert_unique}
use lets_go.User.Tables.{Ident, Time, UserDevice, UserTables, UserError}
use lets_go.User.Sessions.{UserTx, time_now}

-- `types.DeviceInfo`
pub record DeviceInfo : Type 0 where
  pub device_id : Text
  pub device_name : Text
  pub platform : Text
  pub app_version : Text

-- `strings.ToLower` and `uuid.Parse`; the identifier that a text is in the database; and a new
-- UUID for a device.
pub record DeviceInputs : Type 0 where
  pub lower : Text → Text
  pub is_uuid : Text → Bool
  pub ident : Text → Ident
  pub new_id : Ident

-- web, windows, macos, linux, android and ios
abbrev pub supported_platforms : List Text
supported_platforms =
    (119 ∷ 101 ∷ 98 ∷ [])
    ∷ (119 ∷ 105 ∷ 110 ∷ 100 ∷ 111 ∷ 119 ∷ 115 ∷ [])
    ∷ (109 ∷ 97 ∷ 99 ∷ 111 ∷ 115 ∷ [])
    ∷ (108 ∷ 105 ∷ 110 ∷ 117 ∷ 120 ∷ [])
    ∷ (97 ∷ 110 ∷ 100 ∷ 114 ∷ 111 ∷ 105 ∷ 100 ∷ [])
    ∷ (105 ∷ 111 ∷ 115 ∷ [])
    ∷ []

-- `len` of a string: the bytes of its runes
abbrev pub rune_length : ℕ → ℕ
rune_length r = if ltb r 128 then 1 else if ltb r 2048 then 2 else if ltb r 65536 then 3 else 4

abbrev pub byte_length : Text → ℕ
byte_length [] = 0
byte_length (r ∷ text) = rune_length r + byte_length text

abbrev pub trimmed : DeviceInputs → DeviceInfo → DeviceInfo
trimmed inputs info = record {
  device_id = trim_space info.device_id;
  device_name = trim_space info.device_name;
  platform = inputs.lower (trim_space info.platform);
  app_version = trim_space info.app_version;
}

abbrev pub bad_device_id : DeviceInputs → Text → Bool
bad_device_id inputs id =
    not (is_empty id) && (not (byte_length id == 36) || not (inputs.is_uuid id))

-- Whether a trimmed `info` is refused.
abbrev pub bad_device : DeviceInputs → DeviceInfo → Bool
bad_device inputs info =
    bad_device_id inputs info.device_id
    || is_empty info.device_name
    || ltb 128 (length info.device_name)
    || not (contains_text info.platform supported_platforms)
    || ltb 32 (length info.app_version)

-- `validateDeviceInfo`, of a device that is not nil: what it leaves, and whether it refuses it.
abbrev pub validate_device_info : DeviceInputs → DeviceInfo → DeviceInfo × Bool
validate_device_info inputs info = (trimmed inputs info, bad_device inputs (trimmed inputs info))

abbrev pub devices_of : UserTables → List UserDevice
devices_of t = t.devices

abbrev pub put_devices : List UserDevice → UserTables → UserTables
put_devices rows t = record t { devices = rows }

abbrev pub device_key : Ident → UserDevice → Bool
device_key id d = d.id == id

abbrev pub user_device_key : Ident → Ident → UserDevice → Bool
user_device_key id user_id d = d.id == id && d.user_id == user_id

-- `Insert`
abbrev pub insert_device : UserDevice → UserTx (Unit {0})
insert_device d = insert_unique UserError.driver devices_of put_devices (device_key d.id) λ now. d

-- `FindOneByIdUserId`: none is `ErrNotFound`.
unfoldable pub find_device : Ident → Ident → UserTx (Option UserDevice)
find_device id user_id =
    call UserError.driver λ now t. (find_row (user_device_key id user_id) t.devices, t)

-- `Update`, of every column but the key
abbrev pub overwrite_device : UserDevice → UserDevice → UserDevice
overwrite_device d r = record d { id = r.id }

unfoldable pub update_device : UserDevice → UserTx (Unit {0})
update_device d =
    call UserError.driver
      λ now t. (tt, put_devices (update_where (device_key d.id) (overwrite_device d) t.devices) t)

abbrev pub new_device : DeviceInputs → Ident → DeviceInfo → Time → UserDevice
new_device inputs user_id info now = record {
  id = inputs.new_id;
  user_id = user_id;
  device_name = info.device_name;
  platform = info.platform;
  app_version = info.app_version;
  first_login_at = now;
  last_login_at = now;
  status = 1;
}

abbrev pub seen_device : DeviceInfo → Time → UserDevice → UserDevice
seen_device info now d = record d {
  device_name = info.device_name;
  platform = info.platform;
  app_version = info.app_version;
  last_login_at = now;
}

-- `createLoginDevice`
abbrev pub create_login_device : DeviceInputs → Ident → DeviceInfo → Time → UserTx UserDevice
create_login_device inputs user_id info now = do
  insert_device (new_device inputs user_id info now)
  pure (new_device inputs user_id info now)

abbrev pub store_device : UserDevice → UserTx UserDevice
store_device d = do update_device d; pure d

abbrev pub resolve_found :
    DeviceInputs → Ident → DeviceInfo → Time → Option UserDevice → UserTx UserDevice
resolve_found inputs user_id info now none = create_login_device inputs user_id info now
resolve_found inputs user_id info now (some d) =
    if not (d.status == 1)
    then fail UserError.device_disabled
    else store_device (seen_device info now d)

abbrev pub resolve_at : DeviceInputs → Ident → DeviceInfo → Time → UserTx UserDevice
resolve_at inputs user_id info now =
    if is_empty info.device_id
    then create_login_device inputs user_id info now
    else (find_device (inputs.ident info.device_id) user_id
        >>= resolve_found inputs user_id info now)

-- `resolveLoginDevice`
unfoldable pub resolve_login_device : DeviceInputs → Ident → DeviceInfo → UserTx UserDevice
resolve_login_device inputs user_id info =
    time_now >>= resolve_at inputs user_id (record info { device_id = trim_space info.device_id })
