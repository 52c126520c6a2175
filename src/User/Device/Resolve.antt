-- ===== src/User/Device/Resolve.antt =====
-- Which device a login is stored with: `resolveLoginDevice` of internal/logic/user_device.go.
use lets_go.Prelude.{
  ℕ, ◌≡◌, refl, ◌⊎◌, inl, inr, true, Option, none, some, [], ◌∷◌, ◌++◌, ◌==◌, arith, Bool-cases,
}
use lets_go.Strings.{trim_space, is_empty}
use lets_go.Sql.{Session, pure}
use lets_go.Sql.Table.{find_row, update_where, affected}
use lets_go.Sql.Insert.{insert_unique-Holds}
use lets_go.Sql.Outcome.{Holds, bind-Holds, call_then}
use lets_go.User.Tables.{Ident, Time, UserDevice, UserTables, UserError}
use lets_go.User.Device.{
  DeviceInfo, DeviceInputs, devices_of, put_devices, device_key, user_device_key, find_device,
  insert_device, overwrite_device, update_device, new_device, seen_device, create_login_device,
  resolve_found, resolve_login_device,
}

module _ (inputs : DeviceInputs) (user_id : Ident) (info : DeviceInfo) where
  -- The device's row is new, for a login that names no device of the user, or was there, is the
  -- user's and may be used, and tells of this login now.
  pub data Resolved (before : UserTables) : UserDevice → UserTables → Type 0 where
    created :
        (now : Time)
        → (is_empty (trim_space info.device_id) ≡ true)
          ⊎ (find_row
                (user_device_key (inputs.ident (trim_space info.device_id)) user_id)
                before.devices
              ≡ none)
        → affected (device_key inputs.new_id) before.devices ≡ 0
        → Resolved before
            (new_device inputs user_id info now)
            (put_devices (before.devices ++ new_device inputs user_id info now ∷ []) before)
    seen :
        (d : UserDevice) (now : Time)
        → find_row
            (user_device_key (inputs.ident (trim_space info.device_id)) user_id)
            before.devices
          ≡ some d
        → d.status ≡ 1
        → Resolved before (seen_device info now d) (
            put_devices
              (update_where
                (device_key d.id)
                (overwrite_device (seen_device info now d))
                before.devices)
              before)

  -- The only errors are the driver's and that the device may not be used.
  pub data ResolveError : UserError → Type 0 where
    refused : ResolveError UserError.driver
    disabled : ResolveError UserError.device_disabled

  abbrev Made : UserTables → UserDevice → Session UserTables → Type 0
  Made before d s' = Resolved before d s'.tables

  abbrev named : DeviceInfo
  named = record info { device_id = trim_space info.device_id }

  create-Holds :
      (now : Time) (s : Session UserTables)
      → (is_empty (trim_space info.device_id) ≡ true)
        ⊎ (find_row
              (user_device_key (inputs.ident (trim_space info.device_id)) user_id)
              s.tables.devices
            ≡ none)
      → Holds (Made s.tables) ResolveError (create_login_device inputs user_id named now s)
  create-Holds now s why =
      bind-Holds ResolveError (insert_device (new_device inputs user_id named now))
        (λ _. pure (new_device inputs user_id named now))
        (λ _ s'.
          (affected (device_key inputs.new_id) s.tables.devices ≡ 0)
          × ((at : ℕ) × (s'.tables
                ≡ put_devices (s.tables.devices ++ new_device inputs user_id named now ∷ [])
                    s.tables)))
        (Made s.tables) s
        (insert_unique-Holds UserError.driver devices_of put_devices ResolveError
          (device_key inputs.new_id) (λ at. new_device inputs user_id named now) s refused)
        λ _ s' (free, (at, same)). rw same (created now why free)

  found-Holds :
      (now : Time) (found : Option UserDevice) (s : Session UserTables)
      → find_row
          (user_device_key (inputs.ident (trim_space info.device_id)) user_id)
          s.tables.devices
        ≡ found
      → Holds (Made s.tables) ResolveError (resolve_found inputs user_id named now found s)
  unfolding update_device
  found-Holds now none s e = create-Holds now s (inr e)
  found-Holds now (some d) s e = elim (Bool-cases (d.status == 1)) [
    | inr off ↦ rw off disabled
    | inl on ↦ rw on (
        call_then ResolveError UserError.driver _ (λ _. pure (seen_device info now d))
          (Made s.tables) s refused λ at ms later. seen d now e (ground arith))
  ]

  pub resolve_login_device-Holds :
      (s : Session UserTables)
      → Holds (Made s.tables) ResolveError (resolve_login_device inputs user_id info s)
  unfolding resolve_login_device find_device
  resolve_login_device-Holds s = elim (Bool-cases (is_empty (trim_space info.device_id))) [
    | inl unnamed ↦ rw unnamed (create-Holds s.now s (inl unnamed))
    | inr known ↦ rw known (
        call_then ResolveError UserError.driver _ (resolve_found inputs user_id named s.now)
          (Made s.tables) s refused
          λ at ms later. found-Holds s.now _ (record s { now = at; script = ms }) refl)
  ]
