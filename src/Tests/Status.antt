-- ===== src/Tests/Status.antt =====
-- The properties of df and of the metrics, with programs that print fixed texts.
use rpi_nest_api.Prelude.{
  arith, ◌+◌, ◌^◌, String, Option, none, some, List, ◌≡◌, refl, ◌==◌, if◌then◌else◌,
}
use rpi_nest_api.Exec.{ok, err, error}
use rpi_nest_api.Text.{split, trim, is_space}
use rpi_nest_api.Text.Number.{non_negative, parse_int, to_number, match_decimal, digits_from}
use rpi_nest_api.Tests.Bytes.{printing}
use rpi_nest_api.Shell.ChildProcess.{ChildProcess, settled, spawn, spawn_authorized}
use rpi_nest_api.Shell.PiSerial.{get_serial}
use rpi_nest_api.Shell.Df.{get_disk_space_information, parse_df}
use rpi_nest_api.Shell.Df.Columns.{get_disk_space_information_lem}
use rpi_nest_api.Shell.VcGenCmd.{get_temperature, get_core_voltage, measure, parse_result}
use rpi_nest_api.Shell.UpTime.{get_up_time}
use rpi_nest_api.Device.Status.{DeviceStatusDto, Registry, get_metrics}
use rpi_nest_api.Device.Status.Readings.{IsRead, get_metrics_iff}

abbrev output_of : String → List String → String
output_of command args =
    if command == "/usr/bin/df"
    then "   Used   Avail\n1234567 7654321\n"
    else if command == "/usr/bin/uptime"
    then "2024-01-01 10:00:00\n"
    else if command == "/usr/bin/pkexec --disable-internal-agent /usr/bin/vcgencmd"
    then "temp=42.8'C\n"
    else "10000000abc\n"

abbrev sample_os : String → List String → ChildProcess
sample_os command args = printing (output_of command args)

get_disk_space_information_lem_example :
    get_disk_space_information sample_os
    ≡ settled (ok (record { available = non_negative 7654321; used = non_negative 1234567 }))
unfolding spawn
get_disk_space_information_lem_example =
    get_disk_space_information_lem sample_os "   Used   Avail" "" "1234567" "7654321" 0 0 refl
      (
        refl,
        (
          refl,
          (
            refl,
            (
              refl,
              (
                refl,
                (refl, (refl, (refl, (refl, (refl, (refl, (refl, (refl, (refl, (refl, tt)))))))))),
              ),
            ),
          ),
        ),
      )
      ((refl, (refl, (refl, (refl, (refl, (refl, (refl, tt))))))), refl, omega arith)
      ((refl, (refl, (refl, (refl, (refl, (refl, (refl, tt))))))), refl, omega arith)

-- A disk with less than ten megabytes left
padded_column :
    parse_df "   Used Avail\n1234567  7654\n" ≡ err (error "df returned unparsable result")
unfolding parse_df split parse_int is_space digits_from
padded_column = refl

-- Above 2 ^ 53, every other whole number is no double; far above, there is only Infinity.
rounded_down : to_number (2 ^ 53 + 1) ≡ some (2 ^ 53)
unfolding to_number
rounded_down = refl

rounded_up : to_number (2 ^ 53 + 3) ≡ some (2 ^ 53 + 4)
unfolding to_number
rounded_up = refl

infinite : to_number (10 ^ 309) ≡ none
unfolding to_number
infinite = refl

abbrev sample_parse : String → Option String
sample_parse text = if text == "" then none else some text

abbrev sample_since : String → String
sample_since text = "60"

abbrev sample_status : DeviceStatusDto String
sample_status = record {
  serial_number = "10000000abc";
  uptime = "60";
  hostname = "rpi";
  cpu = record { temperature = "42.8"; voltage = "42.8" };
  fs = record { available = non_negative 7654321; used = non_negative 1234567 };
}

sample_status-IsRead : IsRead sample_os sample_parse sample_since "rpi" sample_status
unfolding get_serial get_up_time get_disk_space_information get_temperature get_core_voltage measure
    parse_result spawn_authorized spawn trim parse_df split parse_int match_decimal digits_from
sample_status-IsRead = record {
  serial_number = refl;
  uptime = refl;
  host = refl;
  fs = refl;
  temperature = refl;
  voltage = refl;
}

abbrev empty_registry : Registry String
empty_registry = record {
  labels = none;
  cpu_temperature = none;
  cpu_voltage = none;
  fs_available = none;
  fs_used = none;
  dev_uptime = none;
}

get_metrics_iff_example :
    get_metrics sample_os sample_parse sample_since "rpi" empty_registry
    ≡ settled (
        ok (record {
          labels = some ("rpi", "10000000abc");
          cpu_temperature = some "42.8";
          cpu_voltage = some "42.8";
          fs_available = some (non_negative 7654321);
          fs_used = some (non_negative 1234567);
          dev_uptime = some "60";
        }))
get_metrics_iff_example =
    (get_metrics_iff sample_os sample_parse sample_since "rpi" empty_registry _).1 (
      sample_status,
      sample_status-IsRead,
      record {
        labels = refl;
        cpu_temperature = refl;
        cpu_voltage = refl;
        fs_available = refl;
        fs_used = refl;
        dev_uptime = refl;
      },
    )
