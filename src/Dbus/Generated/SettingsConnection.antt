-- ===== src/Dbus/Generated/SettingsConnection.antt =====
-- src/dbus/interfaces/network-manager/settings-connection.proxy.ts: its properties and methods. The
-- properties come as they are answered.
use rpi_nest_api.Prelude.{ℕ, String, [], ◌∷◌}
use rpi_nest_api.Exec.{Exec}
use rpi_nest_api.Dbus.Variants.{Value, number, text}
use rpi_nest_api.Dbus.Proxy.{MessageBus, call_method}
use rpi_nest_api.Dbus.Generated as Generated
use rpi_nest_api.Dbus.Generated.{get_property}

module _ {St : Type 0} (bus : MessageBus St) where
  unfoldable pub connect : String → Exec St Generated.Generated
  connect object_path =
      Generated.connect bus "org.freedesktop.NetworkManager" object_path
        "org.freedesktop.NetworkManager.Settings.Connection"

module _ {St : Type 0} (bus : MessageBus St) (proxy : Generated.Generated) where
  unfoldable pub unsaved : Exec St Value
  unsaved = get_property bus proxy "Unsaved"

  unfoldable pub flags : Exec St Value
  flags = get_property bus proxy "Flags"

  unfoldable pub filename : Exec St Value
  filename = get_property bus proxy "Filename"

  unfoldable pub update : Value → Exec St Value
  update settings = call_method bus proxy.this_interface "Update" (settings ∷ [])

  unfoldable pub update_unsaved : Value → Exec St Value
  update_unsaved settings = call_method bus proxy.this_interface "UpdateUnsaved" (settings ∷ [])

  unfoldable pub remove : Exec St Value
  remove = call_method bus proxy.this_interface "Delete" ([])

  unfoldable pub get_settings : Exec St Value
  get_settings = call_method bus proxy.this_interface "GetSettings" ([])

  unfoldable pub get_secrets : String → Exec St Value
  get_secrets setting_name =
      call_method bus proxy.this_interface "GetSecrets" (text setting_name ∷ [])

  unfoldable pub clear_secrets : Exec St Value
  clear_secrets = call_method bus proxy.this_interface "ClearSecrets" ([])

  unfoldable pub save : Exec St Value
  save = call_method bus proxy.this_interface "Save" ([])

  unfoldable pub update2 : Value → ℕ → Value → Exec St Value
  update2 settings flag_bits arguments =
      call_method bus proxy.this_interface "Update2" (settings ∷ number flag_bits ∷ arguments ∷ [])
