-- ===== src/Device/Reports.antt =====
-- src/device/device-admin/sos-report.service.ts and device-admin.service.ts: making a report of the
-- device by a systemd unit that is polled until it stops, and restarting the device.
use rpi_nest_api.Prelude.{
  ℕ, zero, suc, String, Bool, true, false, ◌&&◌, ◌||◌, Option, none, some, List, [], ◌∷◌, ◌==◌,
  template,
}
use rpi_nest_api.Exec.{
  Void, Result, ok, err, Exec, error, conflict, pure, throw, throw_if, lift, modify, ◌>>=◌, ◌>>◌,
}
use rpi_nest_api.Dbus.Variants.{Value, text, property, is_text, is_undefined}
use rpi_nest_api.Dbus.Proxy.{MessageBus}
use rpi_nest_api.Dbus.Systemd as Systemd
use rpi_nest_api.Dbus.Systemd.{start_unit, get_unit_properties}
pub mod Polling
pub mod Ending

abbrev pub systemd_service_name : String
systemd_service_name = "rpi-nest-api-sos-report.service"

-- The device: its bus, its files, and the passing of time in milliseconds.
pub record Host (St : Type 0) : Type 0 where
  pub bus : MessageBus St
  pub mkdir : String → Exec St Void
  pub rm : String → Exec St Void
  pub wait : ℕ → St → St

-- The gzip stream of a directory that is packed.
pub record ReportStream : Type 0 where
  pub packed : String

-- `path.join` of a directory and a name in it
abbrev pub join_path : String → String → String
join_path directory name = template (directory ∷ "/" ∷ name ∷ [])

abbrev pub report_path : String → String
report_path upload_path = join_path upload_path "rpi-nest-sos-report"

-- `isRunning || isDeactivating`
unfoldable pub is_running : Value → Value → Bool
is_running active_state sub_state =
    (is_text "active" active_state && is_text "running" sub_state)
    || is_text "deactivating" active_state

-- `try { await m } catch { log }`
abbrev pub attempt : {St : Type 0} → Exec St Void → Exec St Void
attempt m s = (ok tt, (m s).1)

-- `while (isSosReportRunning)`
abbrev pub next_round : {St : Type 0} → Exec St (Option Void) → Bool → Exec St (Option Void)
next_round round true = round
next_round round false = pure (some tt)

module _ {St : Type 0} (host : Host St) where
  unfoldable pub is_report_service_running : Exec St Bool
  is_report_service_running = do
    props ← get_unit_properties host.bus (text systemd_service_name)
    throw_if (is_undefined props)
        (error (template ("Could not get " ∷ systemd_service_name ∷ " unit properties" ∷ [])))
    active_state ← lift (property "ActiveState" props)
    sub_state ← lift (property "SubState" props)
    pure (is_running active_state sub_state)

  -- The body of the loop: whether the unit is running after a second.
  unfoldable pub poll : Exec St Bool
  poll = do modify (host.wait 1000); is_report_service_running

  -- The loop, for at most so many rounds; `none` where these are not enough.
  unfoldable pub wait_for_report_service : ℕ → Exec St (Option Void)
  wait_for_report_service zero = pure none
  wait_for_report_service (suc fuel) = poll >>= next_round (wait_for_report_service fuel)

  abbrev pub ensure_upload_directory_exists : String → Exec St Void
  ensure_upload_directory_exists upload_path = attempt (host.mkdir upload_path)

  abbrev pub delete_report_directory : String → Exec St Void
  delete_report_directory upload_path = attempt (host.rm (report_path upload_path))

  abbrev pub streamed : String → Option Void → Option ReportStream
  streamed upload_path none = none
  streamed upload_path (some _) = some (record { packed = report_path upload_path })

  unfoldable pub create_report_stream : ℕ → String → Exec St (Option ReportStream)
  create_report_stream fuel upload_path = do
    ensure_upload_directory_exists upload_path
    is_sos_report_running ← is_report_service_running
    throw_if is_sos_report_running (conflict "Report service already running")
    start_unit host.bus systemd_service_name none
    finished ← wait_for_report_service fuel
    pure (streamed upload_path finished)

  -- What follows when the stream has ended, or has failed.
  unfoldable pub after_stream : String → Exec St Void
  after_stream upload_path = delete_report_directory upload_path

  -- The service's own `reboot`.
  unfoldable pub reboot : Exec St Void
  reboot = Systemd.reboot host.bus
