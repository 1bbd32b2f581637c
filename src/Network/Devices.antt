-- ===== src/Network/Devices.antt =====
-- src/dbus/interfaces/network-manager/network-device.service.ts, and the list of interfaces of
-- src/device/network/network.service.ts: the network devices with the objects that they point to.
-- lodash's `isMatch` is a parameter. `Promise.all` starts its calls in the order of the list; here
-- each of them ends before the next one starts.
use rpi_nest_api.Prelude.{
  String, Bool, true, false, ◌||◌, List, [], ◌∷◌, ◌==◌, any, template, if◌then◌else◌,
}
use rpi_nest_api.Exec.{Void, Result, ok, err, Exec, error, pure, throw, lift, ◌>>=◌, ◌>>◌}
use rpi_nest_api.Dbus.Variants.{
  Value, undefined, null, number, text, array, object, variant, Items, nil, item, Fields, end,
  field, get, property, cannot_read, is_text, is_number,
}
use rpi_nest_api.Dbus.Proxy.{
  MessageBus, DBusProxy, create_proxy, get_method_interface, get_properties_interface, call_method,
  get_all_unwrapped,
}
use rpi_nest_api.Network.Devices.Types.{DeviceType, ethernet, wifi, device_type_code}
pub mod Types
pub mod Described
pub mod Listing
pub mod Lookup
pub mod Resolved

abbrev pub network_manager : DBusProxy
network_manager = create_proxy "org.freedesktop.NetworkManager" "/org/freedesktop/NetworkManager"

-- `{ ...fs, name: v }`: a field that is there keeps its place.
abbrev pub set : String → Value → Fields → Fields
set name v end = field name v end
set name v (field key u fs) = if key == name then field key v fs else field key u (set name v fs)

-- `{ ...fs, ...gs }`
abbrev pub assign : Fields → Fields → Fields
assign fs end = fs
assign fs (field name v gs) = assign (set name v fs) gs

-- `...v`. The objects here come from property interfaces; an array or a text would spread into
-- numbered fields, which nothing reads.
abbrev pub spread : Value → Fields
spread (object fs) = fs
spread (variant signature v) = field "signature" (text signature) (field "value" v end)
spread _ = end

-- `filter(isDefined)`
abbrev pub filter_defined : Items → Items
filter_defined nil = nil
filter_defined (item undefined vs) = filter_defined vs
filter_defined (item v vs) = item v (filter_defined vs)

abbrev pub is_empty : List Value → Bool
is_empty [] = true
is_empty (_ ∷ _) = false

-- `{ DeviceType: ... }`
abbrev pub of_type : DeviceType → Value
of_type t = object (field "DeviceType" (number (device_type_code t)) end)

module _ {St : Type 0} where
  -- `Promise.all(vs.map(f))` of an array
  unfoldable pub for_each : (Value → Exec St Value) → Items → Exec St Items
  for_each f nil = pure nil
  for_each f (item v vs) = do w ← f v; ws ← for_each f vs; pure (item w ws)

  -- The same of any value, which the code calls `name`.
  abbrev pub map_all : String → (Value → Exec St Value) → Value → Exec St Items
  map_all name f (array vs) = for_each f vs
  map_all name f undefined = throw (cannot_read "undefined" "map")
  map_all name f null = throw (cannot_read "null" "map")
  map_all name f _ = throw (error (template (name ∷ ".map is not a function" ∷ [])))

module _ {St : Type 0} (bus : MessageBus St) where
  unfoldable pub get_all_device_paths : Exec St Value
  get_all_device_paths = do
    network_manager_methods ←
        get_method_interface bus network_manager "org.freedesktop.NetworkManager" undefined
    call_method bus network_manager_methods "GetAllDevices" []

  unfoldable pub get_all_of : String → Value → Exec St Value
  get_all_of type path = do
    properties ← get_properties_interface bus network_manager path
    get_all_unwrapped bus properties (template ("org.freedesktop.NetworkManager." ∷ type ∷ []))

  unfoldable pub get_properties : String → Value → Exec St Value
  get_properties type path = if is_text "/" path then pure null else get_all_of type path

  -- `name: await this.getProperties(type, props.name)`, set in `fs`
  unfoldable pub resolve_child : Value → String → String → Fields → Exec St Fields
  resolve_child props type name fs = do
    path ← lift (property name props)
    child ← get_properties type path
    pure (set name child fs)

  abbrev pub available_connections : Value → Exec St Items
  available_connections props = do
    paths ← lift (property "AvailableConnections" props)
    map_all "deviceProperties.AvailableConnections" (get_properties "Settings.Connection") paths

  -- `baseDevice`
  unfoldable pub base_device : Value → Exec St Fields
  base_device props = do
    fs ← resolve_child props "Connection.Active" "ActiveConnection" (spread props)
    fs ← resolve_child props "IP4Config" "Ip4Config" fs
    fs ← resolve_child props "DHCP4Config" "Dhcp4Config" fs
    fs ← resolve_child props "IP6Config" "Ip6Config" fs
    fs ← resolve_child props "DHCP6Config" "Dhcp6Config" fs
    connections ← available_connections props
    pure (set "AvailableConnections" (array connections) fs)

  -- `{ ...fs, ...(await this.getProperties(type, path)) }`
  unfoldable pub assign_details : String → Value → Fields → Exec St Fields
  assign_details type path fs = do
    details ← get_properties type path
    pure (assign fs (spread details))

  -- `switch (baseDevice.DeviceType)`
  unfoldable pub with_details : Value → Fields → Exec St Fields
  with_details path fs =
      if is_number (device_type_code ethernet) (get "DeviceType" fs)
      then assign_details "Device.Wired" path fs
      else if is_number (device_type_code wifi) (get "DeviceType" fs)
      then assign_details "Device.Wireless" path fs
      else pure fs

  unfoldable pub resolve_device_properties : Value → Value → Exec St Fields
  resolve_device_properties props path = do fs ← base_device props; with_details path fs

  unfoldable pub get_resolved : Value → Value → Exec St Value
  get_resolved props path = do fs ← resolve_device_properties props path; pure (object fs)

-- `doesDeviceMatchFilter`
abbrev pub matches : (Value → Value → Bool) → List Value → Value → Bool
matches is_match filters props = is_empty filters || any (is_match props) filters

module _ {St : Type 0} (is_match : Value → Value → Bool) (bus : MessageBus St) where
  unfoldable pub get_device : List Value → Value → Exec St Value
  get_device filters path = do
    props ← get_properties bus "Device" path
    if matches is_match filters props then get_resolved bus props path else pure undefined

  unfoldable pub get_all_devices : List Value → Exec St Items
  get_all_devices filters = do
    all_device_paths ← get_all_device_paths bus
    all_devices ← map_all "allDevicePaths" (get_device filters) all_device_paths
    pure (filter_defined all_devices)

  -- `getNetworkInterfaces` of the network service
  unfoldable pub get_network_interfaces : Exec St Items
  get_network_interfaces = get_all_devices (of_type ethernet ∷ of_type wifi ∷ [])
