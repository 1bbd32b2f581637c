-- ===== src/Dbus/Proxy.antt =====
-- src/dbus/system-bus/system-bus.service.ts: proxies of the objects on the system bus. The bus
-- itself is the D-Bus library's and a parameter.
use rpi_nest_api.Prelude.{String, List, [], ◌∷◌}
use rpi_nest_api.Exec.{Void, Result, Exec, lift, pure, ◌>>=◌, ◌>>◌}
use rpi_nest_api.Dbus.Variants.{Value, undefined, null, text, unwrap_variant_deep}

-- The bus: looking up an object, looking up an interface of an object that was found, and calling a
-- method of an interface. Each of them may fail, and a call may change the state of the system.
pub record MessageBus (St : Type 0) : Type 0 where
  pub get_proxy_object : (destination : String) (path : Value) → Exec St Void
  pub get_interface : (destination : String) (path : Value) (name : String) → Result Void
  pub call :
      (destination : String) (path : Value) (name member : String) → List Value → Exec St Value

pub record DBusProxy : Type 0 where
  pub destination : String
  pub base_path : String

-- An object, and one of its interfaces.
pub record ProxyObject : Type 0 where
  pub destination : String
  pub path : Value

pub record Interface : Type 0 where
  pub proxy : ProxyObject
  pub name : String

-- `createProxy`
abbrev pub create_proxy : String → String → DBusProxy
create_proxy destination path = record { destination = destination; base_path = path }

-- `path ?? basePath`
abbrev or_base : Value → String → Value
or_base undefined base = text base
or_base null base = text base
or_base path base = path

module _ {St : Type 0} (bus : MessageBus St) where
  unfoldable pub get_proxy : DBusProxy → Value → Exec St ProxyObject
  get_proxy proxy path = do
    bus.get_proxy_object proxy.destination (or_base path proxy.base_path)
    pure (record { destination = proxy.destination; path = or_base path proxy.base_path })

  unfoldable pub get_interface : ProxyObject → String → Exec St Interface
  get_interface object name = do
    lift (bus.get_interface object.destination object.path name)
    pure (record { proxy = object; name = name })

  unfoldable pub get_method_interface : DBusProxy → String → Value → Exec St Interface
  get_method_interface proxy interface_name path = do
    object ← get_proxy proxy path
    get_interface object interface_name

  unfoldable pub get_introspectable_interface : DBusProxy → Value → Exec St Interface
  get_introspectable_interface proxy path = do
    object ← get_proxy proxy path
    get_interface object "org.freedesktop.DBus.Introspectable"

  unfoldable pub get_properties_interface : DBusProxy → Value → Exec St Interface
  get_properties_interface proxy path = do
    object ← get_proxy proxy path
    get_interface object "org.freedesktop.DBus.Properties"

  -- A method of an interface.
  unfoldable pub call_method : Interface → String → List Value → Exec St Value
  call_method i member arguments = bus.call i.proxy.destination i.proxy.path i.name member arguments

  -- `GetAllUnwrapped`
  unfoldable pub get_all_unwrapped : Interface → String → Exec St Value
  get_all_unwrapped i interface_name = do
    all_properties ← call_method i "GetAll" (text interface_name ∷ [])
    lift (unwrap_variant_deep all_properties)
