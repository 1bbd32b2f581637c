-- ===== src/Tests/Network.antt =====
-- Runs of the theorems about the network settings, with a daemon that answers every call.
use rpi_nest_api.Prelude.{String, ◌≡◌, refl, none, some, List, [], ◌∷◌}
use rpi_nest_api.Exec.{ok, err, error}
use rpi_nest_api.Text.{split}
use rpi_nest_api.Network.Adapter.{
  set_dns_data, set_manual, auto, manual, dhcp, NetworkAddress, to_variant, IpVariants,
  UpdateIpSettings, new_adapter, apply_changes,
}
use rpi_nest_api.Network.Adapter.Laws.{
  HasStatic, automatic, static, apply_changes_auto, apply_changes-static, apply_changes_refused,
}
use rpi_nest_api.Network.Settings.{
  prepare, save, save_after_checkpoint, ConnectionVariants, Daemon, Calls, checkpoint_destroy,
  update_active_connection_of_device,
}
use rpi_nest_api.Network.Settings.Order.{Updated, sent, update-Updated}
use rpi_nest_api.Network.Settings.Checkpoint.{checkpoint_path}
use rpi_nest_api.Network.Service.{
  SimpleIpSettings, UpdateNetworkConfigDto, ApiAddress, confirmation_url, or_bad_request, to_simple,
  to_internal, unwrapped, updatable, update, commit,
}
use rpi_nest_api.Network.Service.RoundTrip.{to_internal-to_simple}
use rpi_nest_api.Network.Service.Confirmation.{NamesCheckpoints, update-commit}

abbrev pub automatic_settings : IpVariants Unit
automatic_settings = record {
  addresses = some tt;
  dns = some tt;
  routes = none;
  address_data = none;
  dns_data = none;
  dns_search = none;
  gateway = none;
  method = some (to_variant "s" auto);
  others = tt;
}

abbrev pub connection : ConnectionVariants Unit
connection = record { connection = tt; ipv4 = automatic_settings; ipv6 = automatic_settings }

abbrev pub network_manager : Daemon Unit
network_manager = record {
  get_device_by_ip_iface = λ name. ok (some "/org/freedesktop/NetworkManager/Devices/2");
  active_connection = λ device. ok "/org/freedesktop/NetworkManager/ActiveConnection/1";
  connection = λ active. ok "/org/freedesktop/NetworkManager/Settings/1";
  get_settings = λ path. ok connection;
  create_checkpoint = λ devices. ok (checkpoint_path "7");
  destroy_checkpoint = λ path. ok tt;
  update_settings = λ path settings. ok tt;
  applied_version = λ device. ok 3;
}

abbrev pub start : Calls Unit
start = record { made = []; put_off = [] }

abbrev pub home : NetworkAddress
home = record { address = "192.168.0.2"; prefix = 24 }

abbrev pub fixed_settings : SimpleIpSettings
fixed_settings = record {
  method = some manual;
  gateway = some "192.168.0.1";
  address = some "192.168.0.2";
  prefix = some 24;
  dns = some "192.168.0.1";
}

abbrev pub config : UpdateNetworkConfigDto
config = record { ipv4 = some fixed_settings; ipv6 = none }

abbrev pub api : ApiAddress
api = record { protocol = "https"; hostname = "nest"; port = "443" }

update-Updated_example :
    Updated network_manager "eth0"
      (updatable config)
      start
      (update_active_connection_of_device network_manager "eth0" (updatable config) start).0
      (update_active_connection_of_device network_manager "eth0" (updatable config) start).1
update-Updated_example = update-Updated network_manager "eth0" (updatable config) start

names_checkpoints : NamesCheckpoints network_manager
names_checkpoints devices path e = ("7", (refl, tt), cc)

abbrev after_update : Calls Unit
after_update = (update network_manager api "eth0" config start).1

updated_ok :
    update network_manager api "eth0" config start ≡ (ok (confirmation_url api "7"), after_update)
unfolding update update_active_connection_of_device prepare apply_changes to_internal set_dns_data
    set_manual save_after_checkpoint split save
updated_ok = refl

update-commit_example :
    (device : String) × (path : String) × (id : String) × (network_manager.create_checkpoint
        (device ∷ [])
      ≡ ok path)
    × (confirmation_url api "7" ≡ confirmation_url api id)
    × (commit network_manager id after_update ≡ (
      or_bad_request (network_manager.destroy_checkpoint path),
      sent after_update (checkpoint_destroy path),
    ))
update-commit_example =
    update-commit network_manager api "eth0" (confirmation_url api "7") config start after_update
      names_checkpoints updated_ok

to_internal-to_simple_example :
    (v' : IpVariants Unit) × (apply_changes
        (some (to_internal fixed_settings))
        (new_adapter automatic_settings)
      ≡ (ok tt, v'))
    × (to_simple (unwrapped v') ≡ ok fixed_settings)
to_internal-to_simple_example =
    to_internal-to_simple fixed_settings automatic_settings home "192.168.0.1" refl
      (refl, refl, refl, λ e. cc)

-- IPv6 settings by DHCP, as a client sends them.
abbrev dhcp_changes : UpdateIpSettings
dhcp_changes = record {
  address_data = some (some []);
  gateway = none;
  method = some dhcp;
  dns_data = some (some []);
  dns_search = none;
}

abbrev dhcp_with_address : UpdateIpSettings
dhcp_with_address = record dhcp_changes {
  address_data = some (some (home ∷ []));
  gateway = some (some "192.168.0.1");
}

apply_changes_auto_run :
    apply_changes
      (some (record dhcp_changes { method = some auto }))
      (new_adapter automatic_settings)
    ≡ (ok tt, automatic (record dhcp_changes { method = some auto }) automatic_settings)
apply_changes_auto_run =
    apply_changes_auto (record dhcp_changes { method = some auto }) automatic_settings refl

apply_changes-static_run :
    apply_changes (some dhcp_with_address) (new_adapter automatic_settings)
    ≡ (ok tt, static dhcp_with_address (home ∷ []) "192.168.0.1" automatic_settings)
apply_changes-static_run =
    apply_changes-static dhcp_with_address automatic_settings home [] "192.168.0.1" (λ e. cc)
      (refl, refl, λ e. cc)

dhcp_not_static :
    (x : NetworkAddress) (xs : List NetworkAddress) (gateway : String)
    → HasStatic dhcp_changes x xs gateway
    → ⊥
dhcp_not_static x xs gateway (a, g, n) = cc

dhcp_run :
    (message : String) × ((apply_changes (some dhcp_changes) (new_adapter automatic_settings)).0
      ≡ err (error message))
dhcp_run = apply_changes_refused dhcp_changes automatic_settings (λ e. cc) dhcp_not_static
