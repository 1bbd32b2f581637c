-- ===== src/Network/Devices/Described.antt =====
-- What the bus answers for a device, and how it is read.
use rpi_nest_api.Prelude.{
  ℕ, String, false, ◌≡◌, refl, ap, ◌∙◌, Option, none, some, List, [], ◌∷◌, ◌==◌, arith,
}
use rpi_nest_api.Exec.{ok}
use rpi_nest_api.Dbus.Variants.{text, number, object, variant, item, unwrap_variant_deep}
use rpi_nest_api.Dbus.Variants.Erase.{
  IsMessage, AreMessages, erase, erase_items, erase_fields, unwrap_variant_deep-erase,
}
use rpi_nest_api.Dbus.Proxy.{
  MessageBus, get_properties_interface, get_proxy, get_interface, get_all_unwrapped, call_method,
}
use rpi_nest_api.Network.Devices.Types.{
  DeviceProperties, numbers, texts, nullable, device_object, device_variants,
}
use rpi_nest_api.Network.Devices.{network_manager, get_properties, get_all_of}

-- The properties as they are read: with the variants in the neighbours replaced by their contents.
abbrev pub received : DeviceProperties → DeviceProperties
received p = record p { lldp_neighbors = erase_items p.lldp_neighbors }

-- The bus answers for the device at the path with its properties, each in a variant, and asking
-- changes nothing.
pub record Describes {St : Type 0} (bus : MessageBus St) (signatures : String → String)
    (path : String) (p : DeviceProperties) : Type 0 where
  pub is_path : (path == "/") ≡ false
  pub is_sent : AreMessages p.lldp_neighbors
  pub object_found :
      (s : St) → bus.get_proxy_object network_manager.destination (text path) s ≡ (ok tt, s)
  pub interface_found :
      bus.get_interface network_manager.destination (text path) "org.freedesktop.DBus.Properties"
      ≡ ok tt
  pub answers :
      (s : St)
      → bus.call network_manager.destination
          (text path)
          "org.freedesktop.DBus.Properties"
          "GetAll"
          (text "org.freedesktop.NetworkManager.Device" ∷ [])
          s
        ≡ (ok (object (device_variants signatures p)), s)

erase_items-numbers : (ns : List ℕ) → erase_items (numbers ns) ≡ numbers ns
erase_items-numbers [] = refl
erase_items-numbers (n ∷ ns) = ap (item (number n)) (erase_items-numbers ns)

erase_items-texts : (ts : List String) → erase_items (texts ts) ≡ texts ts
erase_items-texts [] = refl
erase_items-texts (t ∷ ts) = ap (item (text t)) (erase_items-texts ts)

numbers-AreMessages : (ns : List ℕ) → AreMessages (numbers ns)
numbers-AreMessages [] = tt
numbers-AreMessages (n ∷ ns) = (tt, numbers-AreMessages ns)

texts-AreMessages : (ts : List String) → AreMessages (texts ts)
texts-AreMessages [] = tt
texts-AreMessages (t ∷ ts) = (tt, texts-AreMessages ts)

erase-nullable : (o : Option String) → erase (nullable o) ≡ nullable o
erase-nullable none = refl
erase-nullable (some t) = refl

nullable-IsMessage :
    (signature : String) (o : Option String) → IsMessage (variant signature (nullable o))
nullable-IsMessage signature none = tt
nullable-IsMessage signature (some t) = (tt, refl)

erase_device :
    (signatures : String → String) (p : DeviceProperties)
    → erase_fields (device_variants signatures p) ≡ device_object (received p)
unfolding device_object device_variants
erase_device signatures p = rw (
  erase_items-numbers p.state_reason,
  erase_items-texts p.available_connections,
  erase-nullable p.ip4_address,
)

device-IsMessage :
    (signatures : String → String) (p : DeviceProperties)
    → AreMessages p.lldp_neighbors
    → IsMessage (object (device_variants signatures p))
unfolding device_variants
device-IsMessage signatures p h = ground (
  arith,
  h,
  numbers-AreMessages p.state_reason,
  texts-AreMessages p.available_connections,
  nullable-IsMessage (signatures "Ip4Address") p.ip4_address,
)

unwrap_device :
    (signatures : String → String) (p : DeviceProperties)
    → AreMessages p.lldp_neighbors
    → unwrap_variant_deep (object (device_variants signatures p))
      ≡ ok (object (device_object (received p)))
unwrap_device signatures p h =
    unwrap_variant_deep-erase _ (device-IsMessage signatures p h)
    ∙ ap (λ fs. ok (object fs)) (erase_device signatures p)

module _ {St : Type 0} (bus : MessageBus St) where
  pub device_read :
      (signatures : String → String) (path : String) (p : DeviceProperties) (s : St)
      → Describes bus signatures path p
      → get_properties bus "Device" (text path) s ≡ (ok (object (device_object (received p))), s)
  unfolding get_properties get_all_of get_properties_interface get_proxy get_interface
      get_all_unwrapped call_method
  device_read signatures path p s d = rw (
    d.is_path,
    d.object_found s,
    d.interface_found,
    d.answers s,
    unwrap_device signatures p d.is_sent,
  )
