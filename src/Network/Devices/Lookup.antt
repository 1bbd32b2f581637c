-- ===== src/Network/Devices/Lookup.antt =====
-- What `{ ...fs, name: v }` and `{ ...fs, ...gs }` have under a name.
use rpi_nest_api.Prelude.{String, false, ◌≡◌, refl, ◌==◌, if◌then◌else◌, arith, eq_iff}
use rpi_nest_api.Dbus.Variants.{Value, Fields, end, field, get, has_key}
use rpi_nest_api.Network.Devices.{set, assign}

-- No two fields have the same name.
abbrev pub IsObject : Fields → Type 0
IsObject end = Unit
IsObject (field key v fs) = (has_key key fs ≡ false) × IsObject fs

get-set :
    (name key : String) (v : Value) (fs : Fields)
    → get name (set key v fs) ≡ (if key == name then v else get name fs)
get-set name key v end = ground arith
get-set name key v (field k u fs) =
    ground (arith, eq_iff k key, eq_iff k name, eq_iff key name, get-set name key v fs)

get-assign :
    (name : String) (fs gs : Fields)
    → IsObject gs
    → get name (assign fs gs) ≡ (if has_key name gs then get name gs else get name fs)
get-assign name fs end h = refl
get-assign name fs (field key v gs) (h, hs) =
    ground (arith, get-assign name (set key v fs) gs hs, get-set name key v fs, eq_iff key name, h)

pub get_after_set :
    (name key : String) (v x : Value) (f g : Fields)
    → f ≡ set key v g
    → get name g ≡ x
    → get name f ≡ (if key == name then v else x)
get_after_set name key v x f g e p = rw (e, get-set name key v g, p)

pub get_after_assign :
    (name : String) (x : Value) (f g gs : Fields)
    → f ≡ assign g gs
    → IsObject gs
    → get name g ≡ x
    → get name f ≡ (if has_key name gs then get name gs else x)
get_after_assign name x f g gs e h p = rw (e, get-assign name g gs h, p)
