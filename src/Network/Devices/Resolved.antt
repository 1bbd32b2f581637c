-- ===== src/Network/Devices/Resolved.antt =====
-- What an object with all that it points to consists of.
use rpi_nest_api.Prelude.{◌∙◌, String, ◌≡◌, refl, sym, ap, ◌==◌, Option, none, some, if◌then◌else◌}
use rpi_nest_api.Exec.{Exec, pure, ok, lift}
use rpi_nest_api.Exec.Success.{bind_success, ok-inj}
use rpi_nest_api.Dbus.Variants.{number, end, Value, array, Items, Fields, get, property, has_key}
use rpi_nest_api.Dbus.Proxy.{MessageBus}
use rpi_nest_api.Network.Devices.Types.{DeviceType, ethernet, wifi, device_type_code}
use rpi_nest_api.Network.Devices.Lookup.{IsObject, get_after_set, get_after_assign}
use rpi_nest_api.Network.Devices.{
  assign_details, with_details, resolve_device_properties, set, assign, spread, get_properties,
  resolve_child, available_connections, base_device,
}

-- The interface with the details of a device, by its type
abbrev pub details_interface : DeviceType → Option String
details_interface ethernet = some "Device.Wired"
details_interface wifi = some "Device.Wireless"
details_interface _ = none

-- What replaces the six properties that point to other objects
pub record Children : Type 0 where
  pub active_connection : Value
  pub ip4_config : Value
  pub dhcp4_config : Value
  pub ip6_config : Value
  pub dhcp6_config : Value
  pub connections : Items

-- The property of a device with its children
abbrev pub own_property : Children → Fields → String → Value
own_property c own name =
    if "AvailableConnections" == name
    then array c.connections
    else if "Dhcp6Config" == name
    then c.dhcp6_config
    else if "Ip6Config" == name
    then c.ip6_config
    else if "Dhcp4Config" == name
    then c.dhcp4_config
    else if "Ip4Config" == name
    then c.ip4_config
    else if "ActiveConnection" == name
    then c.active_connection
    else get name own

module _ {St : Type 0} (bus : MessageBus St) where
  -- The properties of the interface were read at the path.
  abbrev pub WasRead : String → Value → Value → Type 0
  WasRead type path v = (s t : St) × (get_properties bus type path s ≡ (ok v, t))

  -- They were read at the path that the property names.
  abbrev pub IsChild : Value → String → String → Value → Type 0
  IsChild props type name v = (path : Value) × (property name props ≡ ok path) × WasRead type path v

  pub record AreChildren (props : Value) (c : Children) : Type 0 where
    pub active_connection : IsChild props "Connection.Active" "ActiveConnection" c.active_connection
    pub ip4_config : IsChild props "IP4Config" "Ip4Config" c.ip4_config
    pub dhcp4_config : IsChild props "DHCP4Config" "Dhcp4Config" c.dhcp4_config
    pub ip6_config : IsChild props "IP6Config" "Ip6Config" c.ip6_config
    pub dhcp6_config : IsChild props "DHCP6Config" "Dhcp6Config" c.dhcp6_config
    pub connections : (s t : St) × (available_connections bus props s ≡ (ok c.connections, t))

  -- The details of a device of the type: none, or what was read at its own path
  abbrev pub AreDetails : Value → Option String → Fields → Type 0
  AreDetails path none gs = gs ≡ end
  AreDetails path (some type) gs = (v : Value) × WasRead type path v × (gs ≡ spread v)

  resolve_child-IsChild :
      (props : Value) (type name : String) (fs gs : Fields) (s t : St)
      → resolve_child bus props type name fs s ≡ (ok gs, t)
      → (v : Value) × IsChild props type name v × (gs ≡ set name v fs)
  unfolding resolve_child
  resolve_child-IsChild props type name fs gs s t h =
      let (path, u, p, h1) = bind_success (lift (property name props)) _ s t gs h in
      let (v, w, q, h2) = bind_success (get_properties bus type path) _ u t gs h1 in
      (v, (path, ap (λ r. r.0) p, (u, w, q)), sym (ok-inj h2).0)

  -- What the base device consists of
  abbrev pub IsBase : Value → Fields → Type 0
  IsBase props fs =
      (c : Children) × AreChildren props c
      × ((name : String) → get name fs ≡ own_property c (spread props) name)

  -- The six steps, one after the other
  assembled-IsBase :
      (props : Value) (f1 f2 f3 f4 f5 fs : Fields) (cs : Items) (s s1 s2 s3 s4 s5 s6 : St)
      → resolve_child bus props "Connection.Active" "ActiveConnection" (spread props) s
        ≡ (ok f1, s1)
      → resolve_child bus props "IP4Config" "Ip4Config" f1 s1 ≡ (ok f2, s2)
      → resolve_child bus props "DHCP4Config" "Dhcp4Config" f2 s2 ≡ (ok f3, s3)
      → resolve_child bus props "IP6Config" "Ip6Config" f3 s3 ≡ (ok f4, s4)
      → resolve_child bus props "DHCP6Config" "Dhcp6Config" f4 s4 ≡ (ok f5, s5)
      → available_connections bus props s5 ≡ (ok cs, s6)
      → set "AvailableConnections" (array cs) f5 ≡ fs
      → IsBase props fs
  assembled-IsBase props f1 f2 f3 f4 f5 fs cs s s1 s2 s3 s4 s5 s6 p1 p2 p3 p4 p5 p6 e6 =
      let (v1, c1, e1) = resolve_child-IsChild props _ _ _ f1 s s1 p1 in
      let (v2, c2, e2) = resolve_child-IsChild props _ _ _ f2 s1 s2 p2 in
      let (v3, c3, e3) = resolve_child-IsChild props _ _ _ f3 s2 s3 p3 in
      let (v4, c4, e4) = resolve_child-IsChild props _ _ _ f4 s3 s4 p4 in
      let (v5, c5, e5) = resolve_child-IsChild props _ _ _ f5 s4 s5 p5 in
      (
        record {
          active_connection = v1;
          ip4_config = v2;
          dhcp4_config = v3;
          ip6_config = v4;
          dhcp6_config = v5;
          connections = cs;
        },
        record {
          active_connection = c1;
          ip4_config = c2;
          dhcp4_config = c3;
          ip6_config = c4;
          dhcp6_config = c5;
          connections = (s5, s6, p6);
        },
        λ name. get_after_set name "AvailableConnections" (array cs) _ fs f5 (sym e6) (
            get_after_set name "Dhcp6Config" v5 _ f5 f4 e5 (
              get_after_set name "Ip6Config" v4 _ f4 f3 e4 (
                get_after_set name "Dhcp4Config" v3 _ f3 f2 e3 (
                  get_after_set name "Ip4Config" v2 _ f2 f1 e2
                    (get_after_set name "ActiveConnection" v1 _ f1 (spread props) e1 refl))))),
      )

  base_device-IsBase :
      (props : Value) (fs : Fields) (s t : St)
      → base_device bus props s ≡ (ok fs, t)
      → IsBase props fs
  unfolding base_device
  base_device-IsBase props fs s t h =
      let (f1, s1, p1, h1) = bind_success (resolve_child bus props _ _ _) _ s t fs h in
      let (f2, s2, p2, h2) = bind_success (resolve_child bus props _ _ f1) _ s1 t fs h1 in
      let (f3, s3, p3, h3) = bind_success (resolve_child bus props _ _ f2) _ s2 t fs h2 in
      let (f4, s4, p4, h4) = bind_success (resolve_child bus props _ _ f3) _ s3 t fs h3 in
      let (f5, s5, p5, h5) = bind_success (resolve_child bus props _ _ f4) _ s4 t fs h4 in
      let (cs, s6, p6, h6) = bind_success (available_connections bus props) _ s5 t fs h5 in
      assembled-IsBase props f1 f2 f3 f4 f5 fs cs s s1 s2 s3 s4 s5 s6 p1 p2 p3 p4 p5 p6
        (ok-inj h6).0

  details-AreDetails :
      (type : String) (path : Value) (base fs : Fields) (s t : St)
      → assign_details bus type path base s ≡ (ok fs, t)
      → (gs : Fields) × AreDetails path (some type) gs × (fs ≡ assign base gs)
  unfolding assign_details
  details-AreDetails type path base fs s t h =
      let (v, u, p, h1) = bind_success (get_properties bus type path) _ s t fs h in
      (spread v, (v, (s, u, p), refl), sym (ok-inj h1).0)

  -- The details by the interface that the type has
  abbrev with_interface : Option String → Value → Fields → Exec St Fields
  with_interface none path base = pure base
  with_interface (some type) path base = assign_details bus type path base

  with_details_lem :
      (d : DeviceType) (path : Value) (base : Fields) (s : St)
      → get "DeviceType" base ≡ number (device_type_code d)
      → with_details bus path base s ≡ with_interface (details_interface d) path base s
  unfolding with_details
  with_details_lem ethernet path base s n = rw n refl
  with_details_lem wifi path base s n = rw n refl
  with_details_lem _ path base s n = rw n refl

  interface-AreDetails :
      (o : Option String) (path : Value) (base fs : Fields) (s t : St)
      → with_interface o path base s ≡ (ok fs, t)
      → (gs : Fields) × AreDetails path o gs × (fs ≡ assign base gs)
  interface-AreDetails none path base fs s t h = (end, refl, sym (ok-inj h).0)
  interface-AreDetails (some type) path base fs s t h = details-AreDetails type path base fs s t h

  -- A resolved device has each property that its details have, as they have it, and each other one
  -- as NetworkManager has it for the device, except that the six properties that point to other
  -- objects are what was read at these. The details are those of Device.Wired for an Ethernet
  -- device, those of Device.Wireless for a Wi-Fi device, and none for any other.
  pub resolve_device_properties_lem :
      (props path : Value) (d : DeviceType) (fs : Fields) (s t : St)
      → get "DeviceType" (spread props) ≡ number (device_type_code d)
      → ((gs : Fields) → AreDetails path (details_interface d) gs → IsObject gs)
      → resolve_device_properties bus props path s ≡ (ok fs, t)
      → (c : Children) × AreChildren props c
        × ((gs : Fields) × AreDetails path (details_interface d) gs
            × ((name : String)
                → get name fs
                  ≡ (if has_key name gs then get name gs else own_property c (spread props) name)))
  unfolding resolve_device_properties
  resolve_device_properties_lem props path d fs s t n objects h =
      let (base, u, p, h1) = bind_success (base_device bus props) _ s t fs h in
      let (c, children, own) = base_device-IsBase props base s u p in
      let (gs, details, e) =
        interface-AreDetails (details_interface d) path base fs u t
          (sym (with_details_lem d path base u (own "DeviceType" ∙ n)) ∙ h1) in
      (
        c,
        children,
        (gs, details, λ name. get_after_assign name _ fs base gs e (objects gs details) (own name)),
      )
