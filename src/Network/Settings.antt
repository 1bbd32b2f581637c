-- ===== src/Network/Settings.antt =====
-- network-settings.service.ts of src/dbus/interfaces/network-manager. The daemon NetworkManager is
-- a parameter: its answers to the D-Bus calls of the service, each of which may fail. The state is
-- the list of the calls that change something at the daemon, with those that `setImmediate` has put
-- off until the response is sent.
use rpi_nest_api.Prelude.{
  last, ℕ, String, Bool, Option, none, some, List, [], ◌∷◌, ◌++◌, ◌==◌, ◌||◌, map, template,
  if◌then◌else◌,
}
use rpi_nest_api.Exec.{
  Void, Result, ok, err, Exec, error, bad_request, internal_server_error, pure, throw, throw_if,
  modify, lift, ◌>>=◌, ◌>>◌,
}
use rpi_nest_api.Text.{split}
use rpi_nest_api.Network.Adapter.{
  IpSettingsMethod, NetworkAddress, Variant, AddressVariants, IpVariants, UpdateIpSettings,
  new_adapter, apply_changes,
}
pub mod Checkpoint
pub mod Order
pub mod Preparation

-- What `GetSettings` returns.
pub record ConnectionVariants (R : Type 0) : Type 0 where
  pub connection : R
  pub ipv4 : IpVariants R
  pub ipv6 : IpVariants R

-- UpdatableSettings
pub record UpdatableSettings : Type 0 where
  pub ipv4 : Option UpdateIpSettings
  pub ipv6 : Option UpdateIpSettings

-- The calls that change the state of the daemon.
pub data DaemonCall (R : Type 0) : Type 0 where
  checkpoint_create : (devices : List String) (timeout flags : ℕ) → DaemonCall R
  checkpoint_destroy : String → DaemonCall R
  update_connection : String → ConnectionVariants R → DaemonCall R
  reapply : String → ConnectionVariants R → (version flags : ℕ) → DaemonCall R

pub record Daemon (R : Type 0) : Type 0 where
  pub get_device_by_ip_iface : String → Result (Option String)
  pub active_connection : String → Result String
  pub connection : String → Result String
  pub get_settings : String → Result (ConnectionVariants R)
  pub create_checkpoint : List String → Result String
  pub destroy_checkpoint : String → Result Void
  pub update_settings : String → ConnectionVariants R → Result Void
  pub applied_version : String → Result ℕ

pub record Calls (R : Type 0) : Type 0 where
  pub made : List (DaemonCall R)
  pub put_off : List (DaemonCall R)

abbrev pub checkpoint_prefix : String
checkpoint_prefix = "/org/freedesktop/NetworkManager/Checkpoint/"

abbrev pub no_device : String → String
no_device name = template ("No device found with name '" ∷ name ∷ "'" ∷ [])

abbrev pub not_active : String
not_active = "Cannot get connection settings: Device is not active"

abbrev pub no_checkpoint : String
no_checkpoint = "Error while creating checkpoint for connection settings"

abbrev pub update_failed : String
update_failed = "Error while updating connection settings"

-- Where the settings go, and what they are.
pub record Prepared (R : Type 0) : Type 0 where
  pub device_path : String
  pub connection : String
  pub settings : ConnectionVariants R

abbrev pub object_of : {R : Type 0} → Result Void → IpVariants R → Result (IpVariants R)
object_of (ok _) v = ok v
object_of (err e) v = err e

-- `new IpSettingsVariantAdapter(v).applyChanges(changes)`
abbrev pub adapted : {R : Type 0} → IpVariants R → Option UpdateIpSettings → Result (IpVariants R)
adapted v changes = let (r, v') = apply_changes changes (new_adapter v) in object_of r v'

module _ {R : Type 0} (daemon : Daemon R) where
  -- A call that changes the daemon is recorded, and answered.
  abbrev pub call : {A : Type 0} → DaemonCall R → Result A → Exec (Calls R) A
  call c answer = modify (λ s. record s { made = s.made ++ c ∷ [] }) >> lift answer

  unfoldable pub commit_changes : String → Exec (Calls R) Void
  commit_changes checkpoint_id =
      let checkpoint_path = template (checkpoint_prefix ∷ checkpoint_id ∷ []) in
      call (checkpoint_destroy checkpoint_path) (daemon.destroy_checkpoint checkpoint_path)

  -- `devicePath === undefined || devicePath === '/'`
  abbrev pub device_or_throw : String → Option String → Exec (Calls R) String
  device_or_throw name none = throw (error (no_device name))
  device_or_throw name (some path) =
      if path == "/" then throw (error (no_device name)) else pure path

  unfoldable pub get_active_connection_of_device : String → Exec (Calls R) (ConnectionVariants R)
  get_active_connection_of_device device_name = do
    found ← lift (daemon.get_device_by_ip_iface device_name)
    device_path ← device_or_throw device_name found
    active ← lift (daemon.active_connection device_path)
    throw_if (active == "/") (bad_request not_active)
    connection ← lift (daemon.connection active)
    lift (daemon.get_settings connection)

  -- `checkpointId`, the last part of the path
  abbrev pub id_or_throw : Option String → Exec (Calls R) String
  id_or_throw none = throw (error no_checkpoint)
  id_or_throw (some checkpoint_id) = pure checkpoint_id

  -- `catch (error) { throw ... }`
  abbrev pub fail_with : Result String × Calls R → Result String × Calls R
  fail_with (ok x, s) = (ok x, s)
  fail_with (err _, s) = (err (internal_server_error update_failed), s)

  -- `setImmediate`
  abbrev pub set_immediate : DaemonCall R → Exec (Calls R) Void
  set_immediate c = modify (λ s. record s { put_off = s.put_off ++ c ∷ [] })

  -- The `try` block: the settings are saved, and their application is put off.
  unfoldable pub save : String → String → ConnectionVariants R → String → Exec (Calls R) String
  save device_path connection settings checkpoint_id = do
    call (update_connection connection settings) (daemon.update_settings connection settings)
    current_version ← lift (daemon.applied_version device_path)
    set_immediate (reapply device_path settings current_version 0)
    pure checkpoint_id

  unfoldable pub save_after_checkpoint :
      String → String → ConnectionVariants R → Exec (Calls R) String
  save_after_checkpoint device_path connection settings = do
    checkpoint_path ←
        call (checkpoint_create (device_path ∷ []) 30 0)
          (daemon.create_checkpoint (device_path ∷ []))
    checkpoint_id ← id_or_throw (last (split b'/' checkpoint_path))
    λ s. fail_with (save device_path connection settings checkpoint_id s)

  -- The settings with the changes, before anything is sent to the daemon.
  unfoldable pub prepare : String → UpdatableSettings → Exec (Calls R) (Prepared R)
  prepare device_name update_settings = do
    found ← lift (daemon.get_device_by_ip_iface device_name)
    device_path ← device_or_throw device_name found
    active ← lift (daemon.active_connection device_path)
    connection ← lift (daemon.connection active)
    current ← lift (daemon.get_settings connection)
    ipv4 ← lift (adapted current.ipv4 update_settings.ipv4)
    ipv6 ← lift (adapted current.ipv6 update_settings.ipv6)
    pure (record {
      device_path = device_path;
      connection = connection;
      settings = record current { ipv4 = ipv4; ipv6 = ipv6 };
    })

  unfoldable pub update_active_connection_of_device :
      String → UpdatableSettings → Exec (Calls R) String
  update_active_connection_of_device device_name update_settings = do
    p ← prepare device_name update_settings
    save_after_checkpoint p.device_path p.connection p.settings
