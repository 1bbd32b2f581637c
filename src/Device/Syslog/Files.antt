-- ===== src/Device/Syslog/Files.antt =====
-- Which files a client may read.
use rpi_nest_api.Prelude.{String, ◌≡◌, ◌⊎◌}
use rpi_nest_api.Shell.ChildProcess.{ChildProcess}

-- The two logs that are files, by the name of their service.
abbrev pub IsFileLog : String → String → Type 0
IsFileLog service_name path =
    ((service_name ≡ "dpkg") × (path ≡ "/var/log/dpkg.log"))
    ⊎ ((service_name ≡ "noderedrpinodes-server") × (path ≡ "/var/log/rpi-nest-server.log"))
