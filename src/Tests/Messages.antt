-- ===== src/Tests/Messages.antt =====
-- The properties of messages and of network devices at a sample bus.
use rpi_nest_api.Prelude.{
  subst, sym, ap, ◌∙◌, String, Bool, true, false, some, List, [], ◌∷◌, ◌≡◌, refl, ◌==◌,
  if◌then◌else◌,
}
use rpi_nest_api.Exec.{Void, ok, pure}
use rpi_nest_api.Dbus.Variants.{
  Fields, has_key, Value, undefined, null, text, number, array, object, variant, nil, item, end,
  field, get, is_number, unwrap_variant_deep,
}
use rpi_nest_api.Dbus.Variants.Erase.{unwrap_variant_deep-erase}
use rpi_nest_api.Dbus.Proxy.{
  get_properties_interface, get_all_unwrapped, MessageBus, get_method_interface, get_proxy,
  get_interface, call_method,
}
use rpi_nest_api.Network.Devices.{
  set, assign, spread, resolve_device_properties, base_device, resolve_child, get_properties,
  get_all_of, for_each, with_details, assign_details, get_all_device_paths, get_network_interfaces,
}
use rpi_nest_api.Network.Devices.Types.{
  device_object, DeviceType, ethernet, wifi, bridge, DeviceProperties, metered_unknown,
  connectivity_full, device_variants,
}
use rpi_nest_api.Exec.Success.{ok-inj}
use rpi_nest_api.Network.Devices.Lookup.{IsObject}
use rpi_nest_api.Network.Devices.Resolved.{
  Children, AreChildren, AreDetails, own_property, resolve_device_properties_lem,
}
use rpi_nest_api.Network.Devices.Described.{Describes}
use rpi_nest_api.Network.Devices.Listing.{
  IsIsMatch, Device, AllDescribed, resolve_each, get_network_interfaces_lem,
}

-- A list of addresses in a variant, each address an object of variants.
abbrev sample_message : Value
sample_message = object (
    field "addresses"
      (variant "aa{sv}" (
        array (
          item
            (object (
              field "address" (variant "s" (text "10.0.0.2"))
                (field "prefix" (variant "u" (number 24)) end)))
            nil)))
      (field "nothing" (variant "s" null) end))

unwrap_variant_deep-erase_example :
    unwrap_variant_deep sample_message
    ≡ ok (
        object (
          field "addresses"
            (array (
              item
                (object (field "address" (text "10.0.0.2") (field "prefix" (number 24) end)))
                nil))
            (field "nothing" null end)))
unwrap_variant_deep-erase_example =
    unwrap_variant_deep-erase sample_message
      (refl, ((((refl, ((tt, refl), ((tt, refl), tt))), tt), refl), (tt, tt)))

-- A variant in a variant, and an object that only looks like a variant.
nested_variant :
    unwrap_variant_deep (variant "v" (variant "s" (text "x"))) ≡ ok (variant "s" (text "x"))
unfolding unwrap_variant_deep
nested_variant = refl

object_with_value :
    unwrap_variant_deep (object (field "value" (number 1) (field "signature" (text "u") end)))
    ≡ ok (number 1)
unfolding unwrap_variant_deep
object_with_value = refl

abbrev sample_is_match : Value → Value → Bool
sample_is_match (object fs) (object (field name (number n) end)) = is_number n (get name fs)
sample_is_match _ _ = false

sample_is_match-IsIsMatch : IsIsMatch sample_is_match
sample_is_match-IsIsMatch = record { on_number = λ fs name n. refl }

-- A device with no connection.
abbrev sample_device : String → DeviceType → DeviceProperties
sample_device name type = record {
  udi = "/sys/class/net";
  path = "platform";
  interface = name;
  ip_interface = name;
  driver = "driver";
  driver_version = "1";
  firmware_version = "2";
  capabilities = 3;
  ip4_address = some "0.0.0.0";
  state = 100;
  state_reason = 100 ∷ 0 ∷ [];
  active_connection = "/";
  ip4_config = "/";
  dhcp4_config = "/";
  ip6_config = "/";
  dhcp6_config = "/";
  managed = true;
  autoconnect = true;
  firmware_missing = false;
  nm_plugin_missing = false;
  device_type = type;
  available_connections = [];
  physical_port_id = "";
  mtu = 1500;
  metered = metered_unknown;
  lldp_neighbors = nil;
  real = true;
  ip4_connectivity = connectivity_full;
  ip6_connectivity = connectivity_full;
  interface_flags = 1;
  hw_address = "AA:BB";
}

abbrev sample_signature : String → String
sample_signature name = "s"

abbrev sample_devices : List Device
sample_devices =
    ("/d/1", sample_device "eth0" ethernet)
    ∷ ("/d/2", sample_device "br0" bridge)
    ∷ ("/d/3", sample_device "wlan0" wifi)
    ∷ []

abbrev is_path : String → Value → Bool
is_path t (text u) = u == t
is_path t _ = false

abbrev answer_all : Value → List Value → Value
answer_all path (text name ∷ []) =
    if name == "org.freedesktop.NetworkManager.Device"
    then object (
        if is_path "/d/1" path
        then device_variants sample_signature (sample_device "eth0" ethernet)
        else if is_path "/d/2" path
        then device_variants sample_signature (sample_device "br0" bridge)
        else device_variants sample_signature (sample_device "wlan0" wifi))
    else object (field "PermHwAddress" (variant "s" (text "CC:DD")) end)
answer_all path _ = undefined

abbrev sample_call : Value → String → List Value → Value
sample_call path member arguments =
    if member == "GetAll"
    then answer_all path arguments
    else array (item (text "/d/1") (item (text "/d/2") (item (text "/d/3") nil)))

abbrev sample_bus : MessageBus Void
sample_bus = record {
  get_proxy_object = λ destination path. pure tt;
  get_interface = λ destination path name. ok tt;
  call = λ destination path name member arguments. pure (sample_call path member arguments);
}

first_described : Describes sample_bus sample_signature "/d/1" (sample_device "eth0" ethernet)
first_described = record {
  is_path = refl;
  is_sent = tt;
  object_found = λ s. refl;
  interface_found = refl;
  answers = λ s. refl;
}

second_described : Describes sample_bus sample_signature "/d/2" (sample_device "br0" bridge)
second_described = record {
  is_path = refl;
  is_sent = tt;
  object_found = λ s. refl;
  interface_found = refl;
  answers = λ s. refl;
}

third_described : Describes sample_bus sample_signature "/d/3" (sample_device "wlan0" wifi)
third_described = record {
  is_path = refl;
  is_sent = tt;
  object_found = λ s. refl;
  interface_found = refl;
  answers = λ s. refl;
}

sample_devices-AllDescribed : AllDescribed sample_bus sample_signature sample_devices
sample_devices-AllDescribed = (first_described, (second_described, (third_described, tt)))

sample_paths :
    get_all_device_paths sample_bus tt
    ≡ (ok (array (item (text "/d/1") (item (text "/d/2") (item (text "/d/3") nil)))), tt)
unfolding get_all_device_paths get_method_interface get_proxy get_interface call_method
sample_paths = refl

get_network_interfaces_lem_example :
    get_network_interfaces sample_is_match sample_bus tt
    ≡ resolve_each sample_bus
        (("/d/1", sample_device "eth0" ethernet) ∷ ("/d/3", sample_device "wlan0" wifi) ∷ [])
        tt
get_network_interfaces_lem_example =
    get_network_interfaces_lem sample_is_match sample_is_match-IsIsMatch sample_bus sample_signature
      sample_devices tt tt sample_paths sample_devices-AllDescribed

abbrev wired_details : Fields
wired_details = field "PermHwAddress" (text "CC:DD") end

abbrev wired_device : DeviceProperties
wired_device = sample_device "eth0" ethernet

-- The device with no connections, and its details
abbrev sample_resolved : Fields
sample_resolved =
    assign
      (set "AvailableConnections" (array nil) (
        set "Dhcp6Config" null (
          set "Ip6Config" null (
            set "Dhcp4Config" null
              (set "Ip4Config" null (set "ActiveConnection" null (device_object wired_device)))))))
      wired_details

device_type_kept : get "DeviceType" (device_object wired_device) ≡ number 1
unfolding device_object
device_type_kept = refl

sample_resolved_lem :
    resolve_device_properties sample_bus (object (device_object wired_device)) (text "/d/1") tt
    ≡ (ok sample_resolved, tt)
unfolding resolve_device_properties base_device resolve_child get_properties get_all_of for_each
    with_details assign_details get_properties_interface get_proxy get_interface get_all_unwrapped
    call_method unwrap_variant_deep device_object
sample_resolved_lem = refl

wired-IsObject :
    (gs : Fields) → AreDetails sample_bus (text "/d/1") (some "Device.Wired") gs → IsObject gs
unfolding get_properties get_all_of get_properties_interface get_proxy get_interface
    get_all_unwrapped call_method unwrap_variant_deep
wired-IsObject gs (v, (s, t, e), q) = subst IsObject (ap spread (ok-inj e).0 ∙ sym q) (refl, tt)

resolve_device_properties_lem_example :
    (c : Children) × AreChildren sample_bus (object (device_object wired_device)) c
    × ((gs : Fields) × AreDetails sample_bus (text "/d/1") (some "Device.Wired") gs
        × ((name : String)
            → get name sample_resolved ≡ (
                if has_key name gs
                then get name gs
                else own_property c (device_object wired_device) name)))
resolve_device_properties_lem_example =
    resolve_device_properties_lem sample_bus (object (device_object wired_device)) (text "/d/1")
      ethernet sample_resolved tt tt device_type_kept wired-IsObject sample_resolved_lem
