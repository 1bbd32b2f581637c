-- ===== src/Shell/Df.antt =====
-- src/shell-command/command-services/df-command.service.ts
use rpi_nest_api.Prelude.{ℕ, String, Option, none, some, List, [], ◌∷◌}
use rpi_nest_api.Exec.{Result, ok, err, error}
use rpi_nest_api.Text.{split}
use rpi_nest_api.Text.Number.{Integer, parse_int}
use rpi_nest_api.Shell.ChildProcess.{ChildProcess, Promise, pending, settled, spawn}
use rpi_nest_api.Shell.RpiConfig.{and_then}
pub mod Columns

pub record DiskSpaceInformation : Type 0 where
  pub available : Integer
  pub used : Integer

abbrev pub df_executable : String
df_executable = "/usr/bin/df"

-- `const [, values = ''] = lines`
abbrev pub second_line : List String → String
second_line (_ ∷ values ∷ _) = values
second_line _ = ""

abbrev pub unparsable : Result DiskSpaceInformation
unparsable = err (error "df returned unparsable result")

abbrev pub disk_space : Option Integer → Option Integer → Result DiskSpaceInformation
disk_space (some used) (some available) = ok (record { available = available; used = used })
disk_space _ _ = unparsable

-- `const [used, available] = parts.map((x) => parseInt(x, 10))`, and the test of both
abbrev pub columns : List String → Result DiskSpaceInformation
columns (used ∷ available ∷ _) = disk_space (parse_int used) (parse_int available)
columns _ = unparsable

unfoldable pub parse_df : String → Result DiskSpaceInformation
parse_df result = columns (split b' ' (second_line (split b'\n' result)))

module _ (os : String → List String → ChildProcess) where
  unfoldable pub get_disk_space_information : Promise DiskSpaceInformation
  get_disk_space_information =
      and_then (spawn os df_executable ("/" ∷ "--output=used,avail" ∷ []))
        (λ result. settled (parse_df result))
