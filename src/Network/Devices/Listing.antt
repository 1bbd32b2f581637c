-- ===== src/Network/Devices/Listing.antt =====
-- Which devices a client is shown.
use rpi_nest_api.Prelude.{
  ℕ, String, Bool, true, false, ◌≡◌, refl, ap, ◌∙◌, List, [], ◌∷◌, arith, Bool-cases, inl, inr,
  ◌||◌, if◌then◌else◌,
}
use rpi_nest_api.Exec.{Result, ok, err, Exec, continue, pure, lift, ◌>>=◌}
use rpi_nest_api.Dbus.Variants.{
  array, Value, text, number, object, Items, nil, item, Fields, end, field, get, is_number,
  undefined,
}
use rpi_nest_api.Dbus.Proxy.{MessageBus}
use rpi_nest_api.Network.Devices.Types.{
  DeviceType, ethernet, wifi, device_type_code, DeviceProperties, device_object,
}
use rpi_nest_api.Network.Devices.{
  get_all_devices, get_all_device_paths, get_network_interfaces, filter_defined, of_type, for_each,
  get_resolved, resolve_device_properties, matches, get_device,
}
use rpi_nest_api.Network.Devices.Described.{received, Describes, device_read}

-- What lodash documents of `isMatch`, for a source of one field that is a number.
pub record IsIsMatch (is_match : Value → Value → Bool) : Type 0 where
  pub on_number :
      (fs : Fields) (name : String) (n : ℕ)
      → is_match (object fs) (object (field name (number n) end)) ≡ is_number n (get name fs)

abbrev pub is_interface : DeviceType → Bool
is_interface ethernet = true
is_interface wifi = true
is_interface _ = false

abbrev pub Device : Type 0
Device = String × DeviceProperties

code-is_interface :
    (t : DeviceType)
    → (is_number 1 (number (device_type_code t))
        || (is_number 2 (number (device_type_code t)) || false))
      ≡ is_interface t
code-is_interface t = ground arith

abbrev pub interface_filters : List Value
interface_filters = of_type ethernet ∷ of_type wifi ∷ []

abbrev pub interfaces : List Device → List Device
interfaces [] = []
interfaces ((path, p) ∷ ds) =
    if is_interface p.device_type then (path, p) ∷ interfaces ds else interfaces ds

abbrev pub paths : List Device → Items
paths [] = nil
paths ((path, _) ∷ ds) = item (text path) (paths ds)

module _ {St : Type 0} (bus : MessageBus St) where
  abbrev pub AllDescribed : (String → String) → List Device → Type 0
  AllDescribed signatures [] = Unit
  AllDescribed signatures ((path, p) ∷ ds) =
      Describes bus signatures path p × AllDescribed signatures ds

  -- The objects of the devices, one after the other, with all that they point to.
  unfoldable pub resolve_each : List Device → Exec St Items
  resolve_each [] = pure nil
  resolve_each ((path, p) ∷ ds) = do
    fs ← resolve_device_properties bus (object (device_object (received p))) (text path)
    rest ← resolve_each ds
    pure (item (object fs) rest)

module _ {St : Type 0} where
  abbrev filtered : Exec St Items → Exec St Items
  filtered m = m >>= λ vs. pure (filter_defined vs)

  filter-item :
      (fs : Fields) (r : Result Items) (s : St)
      → filtered (λ u. continue r (λ vs. pure (item (object fs) vs)) u) s
        ≡ continue
            (filtered (lift r) s).0
            (λ vs. pure (item (object fs) vs))
            (filtered (lift r) s).1
  filter-item fs (ok vs) s = refl
  filter-item fs (err e) s = refl

  filter-undefined :
      (r : Result Items) (s : St)
      → filtered (λ u. continue r (λ vs. pure (item undefined vs)) u) s ≡ filtered (lift r) s
  filter-undefined (ok vs) s = refl
  filter-undefined (err e) s = refl

  -- A device that is shown stands before the rest.
  filter-shown :
      (r : Result Fields) (rest listing : Exec St Items) (s : St)
      → ((u : St) → filtered rest u ≡ listing u)
      → filtered
          ((λ u. continue r (λ fs. pure (object fs)) u) >>= λ w. rest >>= λ ws. pure (item w ws))
          s
        ≡ continue r (λ fs. listing >>= λ vs. pure (item (object fs) vs)) s
  filter-shown (err e) rest listing s h = refl
  filter-shown (ok fs) rest listing s h =
      filter-item fs (rest s).0 (rest s).1
      ∙ ap (λ q. continue q.0 (λ vs. pure (item (object fs) vs)) q.1) (h s)

module _ {St : Type 0} (is_match : Value → Value → Bool) (law : IsIsMatch is_match)
    (bus : MessageBus St) where
  matches_interface :
      (p : DeviceProperties)
      → matches is_match interface_filters (object (device_object p)) ≡ is_interface p.device_type
  unfolding device_object
  matches_interface p =
      rw
        (
          law.on_number (device_object p) "DeviceType" 1,
          law.on_number (device_object p) "DeviceType" 2,
        )
        (code-is_interface p.device_type)

  get_device_lem :
      (signatures : String → String) (path : String) (p : DeviceProperties) (s : St)
      → Describes bus signatures path p
      → get_device is_match bus interface_filters (text path) s
        ≡ (if is_interface p.device_type
              then get_resolved bus (object (device_object (received p))) (text path)
              else pure undefined)
            s
  unfolding get_device
  get_device_lem signatures path p s d =
      rw (device_read bus signatures path p s d, matches_interface (received p))

  listed :
      (signatures : String → String) (ds : List Device) (s : St)
      → AllDescribed bus signatures ds
      → (for_each (get_device is_match bus interface_filters) (paths ds) >>= λ vs.
            pure (filter_defined vs))
          s
        ≡ resolve_each bus (interfaces ds) s
  unfolding for_each resolve_each get_resolved
  listed signatures [] s h = refl
  listed signatures ((path, p) ∷ ds) s (d, rest) = elim (Bool-cases (is_interface p.device_type)) [
    | inl shown ↦
        rw (get_device_lem signatures path p s d, shown)
          (filter-shown
            (resolve_device_properties bus (object (device_object (received p))) (text path) s).0 _
            _ _ (λ u. listed signatures ds u rest))
    | inr hidden ↦
        rw (get_device_lem signatures path p s d, hidden)
          (filter-undefined _ _ ∙ listed signatures ds s rest)
  ]

  -- Where NetworkManager names devices that it describes, a client is sent exactly the Ethernet and
  -- Wi-Fi devices, in the order of their names, each with all that it points to, or the first error
  -- that reading what they point to gives; the other devices are only asked for their properties.
  pub get_network_interfaces_lem :
      (signatures : String → String) (ds : List Device) (s t : St)
      → get_all_device_paths bus s ≡ (ok (array (paths ds)), t)
      → AllDescribed bus signatures ds
      → get_network_interfaces is_match bus s ≡ resolve_each bus (interfaces ds) t
  unfolding get_network_interfaces get_all_devices
  get_network_interfaces_lem signatures ds s t h d = rw h (listed signatures ds t d)
