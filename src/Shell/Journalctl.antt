-- ===== src/Shell/Journalctl.antt =====
-- src/shell-command/command-services/journalctl.service.ts. `new Date(text).toISOString()`, which
-- throws on a text that is no date, is a parameter.
use rpi_nest_api.Prelude.{
  ℕ, zero, suc, String, Option, none, some, List, [], ◌∷◌, ◌++◌, ◌==◌, if◌then◌else◌,
}
use rpi_nest_api.Exec.{Result, ok, err}
use rpi_nest_api.Text.{split}
use rpi_nest_api.Shell.ChildProcess.{
  ProcessEvent, ChildProcess, Promise, pending, settled, spawn, spawn_streamable,
}

pub data SyslogFormat : Type 0 where
  json short : SyslogFormat

pub record SyslogFilter : Type 0 where
  pub format : Option SyslogFormat
  pub since : Option String

abbrev pub format_text : Option SyslogFormat → String
format_text none = "short"
format_text (some json) = "json"
format_text (some short) = "short"

abbrev pub journal_ctl_executable : String
journal_ctl_executable = "/usr/bin/journalctl"

-- `s.slice(0, n)`
abbrev pub slice : ℕ → String → String
slice zero s = ""
slice (suc n) String.[] = ""
slice (suc n) (String.◌∷◌ c s) = String.◌∷◌ c (slice n s)

abbrev pub format_of : Option SyslogFilter → Option SyslogFormat
format_of none = none
format_of (some f) = f.format

abbrev pub since_of : Option SyslogFilter → Option String
since_of none = none
since_of (some f) = f.since

abbrev pub log_target_args : String → List String
log_target_args unit = if unit == "kernel" then "-k" ∷ [] else "--unit" ∷ unit ∷ []

abbrev pub since_args : Result String → Result (List String)
since_args (ok date) = ok ("--since" ∷ slice 10 date ∷ [])
since_args (err e) = err e

abbrev pub date_args : (String → Result String) → Option String → Result (List String)
date_args to_iso_string none = ok []
date_args to_iso_string (some since) = since_args (to_iso_string since)

abbrev pub with_date_args : List String → Result (List String) → Result (List String)
with_date_args args (ok date) = ok (args ++ date)
with_date_args args (err e) = err e

unfoldable pub get_args :
    (String → Result String) → String → Option SyslogFilter → Result (List String)
get_args to_iso_string unit filter =
    with_date_args ("--output" ∷ format_text (format_of filter) ∷ log_target_args unit)
      (date_args to_iso_string (since_of filter))

abbrev pub lines_of : Promise String → Promise (List String)
lines_of pending = pending
lines_of (settled (ok output)) = settled (ok (split 10 output))
lines_of (settled (err e)) = settled (err e)

module _ (os : String → List String → ChildProcess) (to_iso_string : String → Result String) where
  unfoldable pub get_unit_logs : String → Promise (List String)
  get_unit_logs unit = lines_of (spawn os journal_ctl_executable ("--unit" ∷ unit ∷ []))

  abbrev pub stream_with : Result (List String) → Promise (List ProcessEvent)
  stream_with (ok args) = spawn_streamable os journal_ctl_executable args
  stream_with (err e) = settled (err e)

  unfoldable pub get_kernel_log_stream : Option SyslogFilter → Promise (List ProcessEvent)
  get_kernel_log_stream filter = stream_with (get_args to_iso_string "kernel" filter)

  unfoldable pub get_unit_log_stream : String → Option SyslogFilter → Promise (List ProcessEvent)
  unfolding get_kernel_log_stream
  get_unit_log_stream unit filter =
      if unit == "kernel"
      then get_kernel_log_stream filter
      else stream_with (get_args to_iso_string unit filter)
