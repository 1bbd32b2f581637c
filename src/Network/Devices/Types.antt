-- ===== src/Network/Devices/Types.antt =====
-- The devices that NetworkManager describes: device.types.ts, common.types.ts and wireless.types.ts
-- of src/dbus/interfaces/network-manager/types.
use rpi_nest_api.Prelude.{ℕ, String, Bool, Option, none, some, List, [], ◌∷◌}
use rpi_nest_api.Dbus.Variants.{
  Value, null, boolean, number, text, array, Items, nil, item, Fields, end, field, to_variant,
}

pub data DeviceType : Type 0 where
  unknown generic ethernet wifi unused1 unused2 bt olpc_mesh wimax modem infiniband bond vlan adsl
        bridge team tun ip_tunnel macvlan vxlan veth macsec dummy ppp ovs_interface ovs_port
        ovs_bridge wpan lowpan wireguard wifi_p2p vrf :
      DeviceType

abbrev pub device_type_code : DeviceType → ℕ
device_type_code unknown = 0
device_type_code generic = 14
device_type_code ethernet = 1
device_type_code wifi = 2
device_type_code unused1 = 3
device_type_code unused2 = 4
device_type_code bt = 5
device_type_code olpc_mesh = 6
device_type_code wimax = 7
device_type_code modem = 8
device_type_code infiniband = 9
device_type_code bond = 10
device_type_code vlan = 11
device_type_code adsl = 12
device_type_code bridge = 13
device_type_code team = 15
device_type_code tun = 16
device_type_code ip_tunnel = 17
device_type_code macvlan = 18
device_type_code vxlan = 19
device_type_code veth = 20
device_type_code macsec = 21
device_type_code dummy = 22
device_type_code ppp = 23
device_type_code ovs_interface = 24
device_type_code ovs_port = 25
device_type_code ovs_bridge = 26
device_type_code wpan = 27
device_type_code lowpan = 28
device_type_code wireguard = 29
device_type_code wifi_p2p = 30
device_type_code vrf = 31

pub data Metered : Type 0 where
  metered_unknown metered_yes metered_no metered_guess_yes metered_guess_no : Metered

abbrev pub metered_code : Metered → ℕ
metered_code metered_unknown = 0
metered_code metered_yes = 1
metered_code metered_no = 2
metered_code metered_guess_yes = 3
metered_code metered_guess_no = 4

pub data ConnectivityState : Type 0 where
  connectivity_unknown connectivity_none connectivity_portal connectivity_limited
        connectivity_full :
      ConnectivityState

abbrev pub connectivity_code : ConnectivityState → ℕ
connectivity_code connectivity_unknown = 0
connectivity_code connectivity_none = 1
connectivity_code connectivity_portal = 2
connectivity_code connectivity_limited = 3
connectivity_code connectivity_full = 4

-- The neighbours are any values.
pub record DeviceProperties : Type 0 where
  pub udi : String
  pub path : String
  pub interface : String
  pub ip_interface : String
  pub driver : String
  pub driver_version : String
  pub firmware_version : String
  pub capabilities : ℕ
  pub ip4_address : Option String
  pub state : ℕ
  pub state_reason : List ℕ
  pub active_connection : String
  pub ip4_config : String
  pub dhcp4_config : String
  pub ip6_config : String
  pub dhcp6_config : String
  pub managed : Bool
  pub autoconnect : Bool
  pub firmware_missing : Bool
  pub nm_plugin_missing : Bool
  pub device_type : DeviceType
  pub available_connections : List String
  pub physical_port_id : String
  pub mtu : ℕ
  pub metered : Metered
  pub lldp_neighbors : Items
  pub real : Bool
  pub ip4_connectivity : ConnectivityState
  pub ip6_connectivity : ConnectivityState
  pub interface_flags : ℕ
  pub hw_address : String

abbrev pub numbers : List ℕ → Items
numbers [] = nil
numbers (n ∷ ns) = item (number n) (numbers ns)

abbrev pub texts : List String → Items
texts [] = nil
texts (t ∷ ts) = item (text t) (texts ts)

-- `string | null`
abbrev pub nullable : Option String → Value
nullable none = null
nullable (some t) = text t

-- The properties of a device under their names.
abbrev pub device_entries : DeviceProperties → List (String × Value)
device_entries p =
    ("Udi", text p.udi)
    ∷ ("Path", text p.path)
    ∷ ("Interface", text p.interface)
    ∷ ("IpInterface", text p.ip_interface)
    ∷ ("Driver", text p.driver)
    ∷ ("DriverVersion", text p.driver_version)
    ∷ ("FirmwareVersion", text p.firmware_version)
    ∷ ("Capabilities", number p.capabilities)
    ∷ ("Ip4Address", nullable p.ip4_address)
    ∷ ("State", number p.state)
    ∷ ("StateReason", array (numbers p.state_reason))
    ∷ ("ActiveConnection", text p.active_connection)
    ∷ ("Ip4Config", text p.ip4_config)
    ∷ ("Dhcp4Config", text p.dhcp4_config)
    ∷ ("Ip6Config", text p.ip6_config)
    ∷ ("Dhcp6Config", text p.dhcp6_config)
    ∷ ("Managed", boolean p.managed)
    ∷ ("Autoconnect", boolean p.autoconnect)
    ∷ ("FirmwareMissing", boolean p.firmware_missing)
    ∷ ("NmPluginMissing", boolean p.nm_plugin_missing)
    ∷ ("DeviceType", number (device_type_code p.device_type))
    ∷ ("AvailableConnections", array (texts p.available_connections))
    ∷ ("PhysicalPortId", text p.physical_port_id)
    ∷ ("Mtu", number p.mtu)
    ∷ ("Metered", number (metered_code p.metered))
    ∷ ("LldpNeighbors", array p.lldp_neighbors)
    ∷ ("Real", boolean p.real)
    ∷ ("Ip4Connectivity", number (connectivity_code p.ip4_connectivity))
    ∷ ("Ip6Connectivity", number (connectivity_code p.ip6_connectivity))
    ∷ ("InterfaceFlags", number p.interface_flags)
    ∷ ("HwAddress", text p.hw_address)
    ∷ []

-- An object with these fields, each value in the form that `box` gives it.
abbrev pub object_of : (String → Value → Value) → List (String × Value) → Fields
object_of box [] = end
object_of box ((name, v) ∷ es) = field name (box name v) (object_of box es)

-- The properties as the program is to see them, and as they are sent, in variants.
unfoldable pub device_object : DeviceProperties → Fields
device_object p = object_of (λ name v. v) (device_entries p)

unfoldable pub device_variants : (String → String) → DeviceProperties → Fields
device_variants signatures p =
    object_of (λ name v. to_variant (signatures name) v) (device_entries p)
