-- ===== src/Device/Syslog.antt =====
-- src/device/device-admin/syslog/syslog.service.ts: the logs that a client may read. The path of the
-- sample log, which stands in for a file outside of production, is a parameter.
use rpi_nest_api.Prelude.{
  String, Bool, true, false, Option, none, some, List, [], ◌∷◌, ◌==◌, if◌then◌else◌,
}
use rpi_nest_api.Exec.{Result, ok, err, bad_request, not_found}
use rpi_nest_api.Shell.ChildProcess.{ProcessEvent, ChildProcess, Promise, pending, settled}
use rpi_nest_api.Shell.Journalctl.{
  SyslogFormat, json, short, SyslogFilter, format_of, get_unit_log_stream,
}
pub mod Files

pub data LogOptions : Type 0 where
  journal_log : (unit : String) → LogOptions
  file_log : (path : String) → LogOptions

-- SYSLOG_SERVICES
abbrev pub syslog_services : List (String × LogOptions)
syslog_services =
    ("dpkg", file_log "/var/log/dpkg.log")
    ∷ ("noderedrpinodes-server", file_log "/var/log/rpi-nest-server.log")
    ∷ ("ssh", journal_log "ssh")
    ∷ ("kernel", journal_log "kernel")
    ∷ []

abbrev pub find : String → List (String × LogOptions) → Option LogOptions
find name [] = none
find name ((key, options) ∷ rest) = if key == name then some options else find name rest

-- The stream that is returned: of a file, or of what journalctl prints.
pub data LogStream : Type 0 where
  file_stream : (path : String) → LogStream
  journal_stream : List ProcessEvent → LogStream

-- `filter?.format !== undefined && filter.format !== 'short'`
abbrev pub is_parsed : Option SyslogFormat → Bool
is_parsed none = false
is_parsed (some json) = true
is_parsed (some short) = false

abbrev pub as_journal : Promise (List ProcessEvent) → Promise LogStream
as_journal pending = pending
as_journal (settled (ok es)) = settled (ok (journal_stream es))
as_journal (settled (err e)) = settled (err e)

module _ (os : String → List String → ChildProcess) (to_iso_string : String → Result String)
    (is_production : Bool) (sample_log : String) where
  unfoldable pub stream_file : String → Promise LogStream
  stream_file path = settled (ok (file_stream (if is_production then path else sample_log)))

  unfoldable pub stream_journal : String → Option SyslogFilter → Promise LogStream
  stream_journal unit filter = as_journal (get_unit_log_stream os to_iso_string unit filter)

  abbrev pub log_with : Option SyslogFilter → Option LogOptions → Promise LogStream
  log_with filter none = settled (err (not_found "Invalid service name provided"))
  log_with filter (some (file_log path)) =
      if is_parsed (format_of filter)
      then settled
          (err (bad_request "FileLogs are only available in default, unparsed text format"))
      else stream_file path
  log_with filter (some (journal_log unit)) = stream_journal unit filter

  unfoldable pub get_service_log : String → Option SyslogFilter → Promise LogStream
  unfolding stream_file
  get_service_log service_name filter = log_with filter (find service_name syslog_services)
