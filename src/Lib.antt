-- ===== src/Lib.antt =====
-- rpi-nest-api: the API of a Raspberry Pi, for its users, settings, network and administration.
--
-- The program is a NestJS server. A request passes the guard of src/authentication, which reads the
-- access metadata that the decorators of the controllers leave, and reaches a controller, which calls
-- a service. Users and settings are kept in two lmdb databases (src/datastore). Network settings go to
-- NetworkManager over D-Bus (src/dbus, src/device/network), and some commands run as child processes
-- (src/shell-command), with the rights that polkit's rules (src/dbus/polkit/rules) grant.
--
-- Files, and the code that they model:
--   Prelude, Exec         shared names and helpers; methods that read and write a store and may throw:
--                         what was written before an exception stays written
--   Database              lmdb's database as an interface with laws; Database/Assoc implements it
--   Roles                 src/authentication/constants.ts
--   Users                 src/datastore/user-repository/user.repository.ts (UserRepository); Directory,
--                         WellFormed and Listing hold its theorems; Turns has its calls with writes that
--                         lmdb makes later, and calls between them
--   Settings              src/datastore/settings-repository (SettingsRepository); Settings/Maintenance is
--                         src/datastore/maintenance and the commands reset-all-defaults, reset-defaults
--   Text                  the string operations of JavaScript that the code calls
--   Shell                 src/shell-command: ChildProcess (child-process.service.ts), PiSerial
--                         (pi-serial-command.service.ts), Dpkg (dpkg-command.service.ts), RpiConfig
--                         (rpi-nest-config-command.service.ts), Journalctl (journalctl.service.ts), Df
--                         (df-command.service.ts), VcGenCmd (vcgencmd-command.service.ts), UpTime
--                         (uptime-command.service.ts)
--   Device                src/device: Config (device-config.service.ts), Metadata (device.service.ts),
--                         DateTime (date-time.service.ts, src/dbus/interfaces/timedate1/
--                         timedate1.service.ts), Syslog (device-admin/syslog/syslog.service.ts), Reports
--                         (device-admin/sos-report.service.ts), Status (status/device-status.service.ts,
--                         status/device-metrics.service.ts)
--   Auth                  src/authentication: Crypto (crypto.service.ts), Service
--                         (authentication.service.ts), UserService (user.service.ts, user.controller.ts,
--                         add-user.command.ts), Guard (authentication.guard.ts)
--   Dbus                  src/dbus: Variants (utils.ts), Proxy (system-bus/system-bus.service.ts), Systemd
--                         (interfaces/systemd1/systemd1.service.ts, interfaces/logind.service.ts),
--                         Generated and Events (interfaces/timedate1/timedate1.proxy.ts,
--                         interfaces/network-manager/settings-connection.proxy.ts), TimeDate
--                         (interfaces/timedate1/timedate1.service.ts)
--   OpenApi               src/open-api/open-api.service.ts, constants.ts (OpenApi/Components)
--   Config, Providers     src/config, src/main.ts, src/types/utils.ts, src/dbus/dbus.module.ts
--   Auth/Commands         the commands of src/authentication; Network/Commands and Dbus/Systemd have those
--                         of src/dbus/cli
--   Validation, Json      the DTOs of src/authentication/dto and src/device with their decorators
--                         (Validation/Dto), the pipe of src/app.module.ts, and the requests of device.controller.ts,
--                         user.controller.ts and network.controller.ts with it
--   Api                   the requests that write to the stores, from the guard to the handler:
--                         src/authentication/authentication.module.ts and the controllers
--   Routes                the controllers, as a table of routes with their access metadata
--   Polkit                src/dbus/polkit/rules
--   Network               Adapter (connection-settings.adapter.ts), Settings
--                         (network-settings.service.ts), Requests (its updates and commits between the
--                         turns of the event loop), Service (src/device/network/network.service.ts),
--                         Devices (network-device.service.ts, types/device.types.ts)
--   Tests                 concrete stores, packages and a daemon, and runs of the theorems at them
--
-- A method camelCase is the function camel_case of its module. A service that has a store is a
-- function from the store to a result and a store (Exec); a private method or a guard on a value that
-- may be undefined is a small function by clauses beside it. Time, salts and the default password of
-- the device are arguments.
--
-- Parameters: lmdb's databases (UserStore, SettingsStore), bcrypt, the token service of
-- @nestjs/jwt, the metadata reader of @nestjs/core, lodash's intersection, the child processes of
-- the operating system, the D-Bus library's bus and the daemon NetworkManager, lodash's isMatch
-- and merge,
-- class-validator, the ValidationPipe and the mapped types of NestJS, numbers with a point and their
-- parsing, and the clock and configuration file of the
-- device. Their laws are documented behaviour, and Tests holds a concrete one of each. A chunk of a
-- process's output is a Buffer: its bytes, and the text that Node decodes them to, chunk by chunk.
-- A loop runs over a list, but for two. The polling of a report's unit has a number of rounds; its
-- theorem holds for any number and says which one is enough. The rounding of a whole number to a
-- double (Text/Number) doubles its scale at most 971 times, as far as the largest doubles reach; a
-- number for which this is not enough is Infinity. Numbers that are prefixes and versions are only
-- stored; a time is multiplied by 1000 when it is set and divided by 1000 when it is read, which
-- JavaScript's numbers do exactly for dates before the year 2255.
--
-- Not modelled: the registrations with NestJS (modules, cli.ts), logging, the opening of lmdb, the
-- D-Bus library, the XML texts of the generated proxies, assignVariantDeep, which nothing calls, the
-- making of the API's description, and the test doubles.
pub mod Prelude
pub mod Exec
pub mod Database
pub mod Roles
pub mod Users
pub mod Validation
pub mod Api
pub mod Settings
pub mod Text
pub mod Shell
pub mod Auth
pub mod Routes
pub mod Polkit
pub mod Json
pub mod Network
pub mod Tests
pub mod Device
pub mod Dbus
pub mod Config
pub mod Providers
pub mod OpenApi
