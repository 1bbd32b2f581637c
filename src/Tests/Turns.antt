-- ===== src/Tests/Turns.antt =====
-- A request to update a device between the turns of the event loop, with a commit in between.
use rpi_nest_api.Prelude.{String, true, false, ◌≡◌, refl, none, List, [], ◌∷◌}
use rpi_nest_api.Exec.{ok}
use rpi_nest_api.Text.{split}
use rpi_nest_api.Network.Adapter.{set_dns_data, set_manual, apply_changes, new_adapter}
use rpi_nest_api.Network.Adapter.Laws.{static}
use rpi_nest_api.Network.Settings.{
  DaemonCall, ConnectionVariants, Prepared, checkpoint_create, checkpoint_destroy,
  update_connection, reapply, prepare, commit_changes, update_active_connection_of_device,
  UpdatableSettings,
}
use rpi_nest_api.Network.Settings.Checkpoint.{checkpoint_path}
use rpi_nest_api.Network.Service.{to_internal, updatable}
use rpi_nest_api.Network.Requests.{
  Task, asked, ready, guarded, stored, answered, advance, System, Event, event, request, go_on,
  commit, immediate, Reach, start, next,
}
use rpi_nest_api.Network.Requests.Alone.{alone, alone-eq-update}
use rpi_nest_api.Network.Requests.Kept.{Protected}
use rpi_nest_api.Network.Requests.Protection.{Reach-Protected}
use rpi_nest_api.Tests.Network as Samples
use rpi_nest_api.Tests.Network.{
  network_manager, config, home, fixed_settings, automatic_settings, connection,
}

abbrev changes : UpdatableSettings
changes = updatable config

abbrev device : String
device = "/org/freedesktop/NetworkManager/Devices/2"

abbrev new_settings : ConnectionVariants Unit
unfolding new_adapter
new_settings = record {
  connection = tt;
  ipv4 = static (to_internal fixed_settings) (home ∷ []) "192.168.0.1" automatic_settings;
  ipv6 = record automatic_settings { addresses = none; dns = none; routes = none };
}

abbrev prepared : Prepared Unit
prepared = record {
  device_path = device;
  connection = "/org/freedesktop/NetworkManager/Settings/1";
  settings = new_settings;
}

abbrev created : DaemonCall Unit
created = checkpoint_create (device ∷ []) 30 0

abbrev updated : DaemonCall Unit
updated = update_connection "/org/freedesktop/NetworkManager/Settings/1" new_settings

abbrev system : Task Unit → List (Event Unit) → List (DaemonCall Unit) → System Unit
system t history put_off = record { tasks = t ∷ []; history = history; put_off = put_off }

abbrev destroyed : DaemonCall Unit
destroyed = checkpoint_destroy (checkpoint_path "7")

abbrev applied : DaemonCall Unit
applied = reapply device new_settings 3 0

-- The daemon makes the checkpoint and takes the settings.
abbrev until_saved : List (Event Unit)
until_saved = event created true ∷ event updated true ∷ []

abbrev until_committed : List (Event Unit)
until_committed = event created true ∷ event updated true ∷ event destroyed true ∷ []

abbrev until_applied : List (Event Unit)
until_applied =
    event created true ∷ event updated true ∷ event destroyed true ∷ event applied false ∷ []

came_in : Reach (system (asked "eth0" changes) [] [])
came_in = next start (request "eth0" changes)

made_settings : Reach (system (ready prepared) [] [])
unfolding advance prepare apply_changes to_internal set_dns_data set_manual new_adapter
made_settings = next came_in (go_on network_manager [] [] (asked "eth0" changes) refl)

made_checkpoint : Reach (system (guarded prepared "7") (event created true ∷ []) [])
unfolding advance split
made_checkpoint = next made_settings (go_on network_manager [] [] (ready prepared) refl)

saved_settings : Reach (system (stored prepared "7") until_saved [])
unfolding advance
saved_settings = next made_checkpoint (go_on network_manager [] [] (guarded prepared "7") refl)

was_answered : Reach (system (answered (ok "7")) until_saved (applied ∷ []))
unfolding advance
was_answered = next saved_settings (go_on network_manager [] [] (stored prepared "7") refl)

committed : Reach (system (answered (ok "7")) until_committed (applied ∷ []))
unfolding commit_changes
committed = next was_answered (commit network_manager "7")

was_applied : Reach (system (answered (ok "7")) until_applied [])
was_applied = next committed (immediate applied [] false refl)

Reach-Protected_example : Protected until_committed device new_settings
Reach-Protected_example =
    Reach-Protected (system (answered (ok "7")) until_applied []) until_committed [] device
      new_settings 3 0 false was_applied refl

alone-eq-update_run : alone network_manager "eth0" changes Samples.start ≡ (
  answered (update_active_connection_of_device network_manager "eth0" changes Samples.start).0,
  (update_active_connection_of_device network_manager "eth0" changes Samples.start).1,
)
alone-eq-update_run = alone-eq-update network_manager "eth0" changes Samples.start
