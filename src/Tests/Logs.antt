-- ===== src/Tests/Logs.antt =====
-- Requests for the log of a service, as the documentation describes them and otherwise.
use rpi_nest_api.Prelude.{true, ◌≡◌, ◌⊎◌, refl, Option, none, some}
use rpi_nest_api.Exec.{Exception, ok, err, bad_request}
use rpi_nest_api.Json.{text, Fields, end, field}
use rpi_nest_api.Shell.ChildProcess.{settled}
use rpi_nest_api.Shell.Journalctl.{SyslogFormat, SyslogFilter}
use rpi_nest_api.Device.Syslog.{
  LogOptions, find, syslog_services, log_with, get_service_log, file_stream,
}
use rpi_nest_api.Validation.Dto.{syslog_dto, syslog_filter_dto}
use rpi_nest_api.Validation.Syslog.{get_syslog, get_syslog_lem}
use rpi_nest_api.Tests.Checks.{check, passes, entries, sample_checks}
use rpi_nest_api.Tests.Device.{no_program}

abbrev dpkg_log : Fields
dpkg_log = field "name" (text "dpkg") end

abbrev short_query : Fields
short_query = field "format" (text "short") end

abbrev short_filter : Option SyslogFilter
short_filter = some (record { format = some SyslogFormat.short; since = none })

get_syslog_lem_run :
    ((e : Exception) × (get_syslog sample_checks no_program ok true "sample.txt" dpkg_log
          short_query "dpkg" short_filter
        ≡ settled (err e))
      × ((sample_checks.transform syslog_dto dpkg_log ≡ err e)
          ⊎ (sample_checks.transform syslog_filter_dto short_query ≡ err e)))
    ⊎ ((o : LogOptions) × (find "dpkg" syslog_services ≡ some o)
        × (get_syslog sample_checks no_program ok true "sample.txt" dpkg_log short_query "dpkg"
              short_filter
            ≡ log_with no_program ok true "sample.txt" short_filter (some o)))
get_syslog_lem_run =
    get_syslog_lem sample_checks no_program ok true "sample.txt" dpkg_log short_query "dpkg"
      short_filter refl

short_accepted :
    get_syslog sample_checks no_program ok true "sample.txt" dpkg_log short_query "dpkg"
      short_filter
    ≡ settled (ok (file_stream "/var/log/dpkg.log"))
unfolding get_syslog get_service_log check passes entries
short_accepted = refl

-- The query that the documentation names.
json_refused :
    get_syslog sample_checks no_program ok true "sample.txt" dpkg_log
      (field "json" (text "true") end)
      "dpkg"
      none
    ≡ settled (err (bad_request "Bad Request Exception"))
unfolding get_syslog check passes entries
json_refused = refl

unknown_refused :
    get_syslog sample_checks no_program ok true "sample.txt"
      (field "name" (text "cron") end)
      end
      "cron"
      none
    ≡ settled (err (bad_request "Bad Request Exception"))
unfolding get_syslog check passes entries
unknown_refused = refl
