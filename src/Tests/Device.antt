-- ===== src/Tests/Device.antt =====
-- Runs of the theorems about the rules of polkit, child processes and the logs.
use rpi_nest_api.Prelude.{
  Option, false, String, true, ◌≡◌, ◌↔◌, refl, none, some, List, [], ◌∷◌, ◌==◌,
}
use rpi_nest_api.Exec.{ok}
use rpi_nest_api.Shell.Journalctl.{SyslogFilter}
use rpi_nest_api.Polkit.{Action, Subject, yes_answer, authorize}
use rpi_nest_api.Polkit.Grants.{IsApiUser, IsAllowed, authorize_iff, pkexec_programs}
use rpi_nest_api.Tests.Bytes.{buffer}
use rpi_nest_api.Shell.ChildProcess.{
  ChildProcess, stdout_data, stderr_data, readable, close, settled, spawn,
}
use rpi_nest_api.Shell.ChildProcess.Laws.{spawn_closed}

abbrev run_program : String → Action
run_program program = record { id = "org.freedesktop.policykit.exec"; lookup = λ key. some program }

abbrev api_user : Subject
api_user = record { user = "api"; is_in_group = λ group. group == "rpi-nest" }

authorize_iff_example :
    (authorize (run_program "/usr/bin/vcgencmd") api_user ≡ some yes_answer)
    ↔ (IsApiUser api_user × IsAllowed (run_program "/usr/bin/vcgencmd"))
authorize_iff_example = authorize_iff (run_program "/usr/bin/vcgencmd") api_user

-- The program with which the serial number is read.
cat_not_granted : authorize (run_program "/usr/bin/cat") api_user ≡ none
cat_not_granted =
    pkexec_programs (run_program "/usr/bin/cat") api_user "/usr/bin/cat" refl refl (λ e. cc)
      (λ e. cc)

abbrev uptime : String → List String → ChildProcess
uptime command args = record {
  has_stdout = true;
  has_stderr = true;
  events =
      readable
      ∷ stdout_data (buffer "up ")
      ∷ stderr_data (buffer "late")
      ∷ stdout_data (buffer "2 days")
      ∷ close (some 0)
      ∷ stdout_data (buffer "more")
      ∷ [];
}

spawn_closed_example : spawn uptime "uptime" [] ≡ settled (ok "up 2 days")
spawn_closed_example =
    spawn_closed uptime "uptime" []
      (readable
        ∷ stdout_data (buffer "up ")
        ∷ stderr_data (buffer "late")
        ∷ stdout_data (buffer "2 days")
        ∷ [])
      (stdout_data (buffer "more") ∷ []) (some 0) refl refl refl tt

-- A character of two bytes that is split between two chunks: each half is decoded alone.
abbrev split_letter : String → List String → ChildProcess
split_letter command args = record {
  has_stdout = true;
  has_stderr = true;
  events =
      stdout_data (record { bytes = 195 ∷ []; to_string = "�" })
      ∷ stdout_data (record { bytes = 164 ∷ []; to_string = "�" })
      ∷ close (some 0)
      ∷ [];
}

letter_garbled : spawn split_letter "echo" [] ≡ settled (ok "��")
unfolding spawn
letter_garbled = refl

abbrev pub no_program : String → List String → ChildProcess
no_program command args = record { has_stdout = false; has_stderr = false; events = [] }

abbrev since_monday : Option SyslogFilter
since_monday = some (record { format = none; since = some "2024-01-01" })
