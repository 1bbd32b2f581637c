-- ===== src/Validation/Syslog.antt =====
-- The request of src/device/device-admin/syslog/syslog.controller.ts for the log of a service.
use rpi_nest_api.Prelude.{
  String, true, ◌≡◌, ◌⊎◌, inl, inr, refl, sym, ◌∙◌, Option, some, List, arith, includes_text, Bool,
  Option-cases,
}
use rpi_nest_api.Exec.{Exception, Result, ok, err, Result-cases}
use rpi_nest_api.Json.{text, Fields, get}
use rpi_nest_api.Shell.ChildProcess.{ChildProcess, Promise, settled}
use rpi_nest_api.Shell.Journalctl.{SyslogFilter}
use rpi_nest_api.Device.Syslog.{
  LogStream, find, LogOptions, syslog_services, log_with, get_service_log,
}
use rpi_nest_api.Validation.{Checks, tested_at}
use rpi_nest_api.Validation.Dto.{syslog_dto, syslog_filter_dto, syslog_service_whitelist}

-- A request goes on where the pipe accepts what it sends.
abbrev pub after_pipe : {A : Type 0} → Result Fields → Promise A → Promise A
after_pipe (ok fs) p = p
after_pipe (err e) p = settled (err e)

module _ (checks : Checks) (os : String → List String → ChildProcess)
    (to_iso_string : String → Result String) (is_production : Bool) (sample_log : String) where
  unfoldable pub get_syslog : Fields → Fields → String → Option SyslogFilter → Promise LogStream
  get_syslog params query name filter = after_pipe (checks.transform syslog_dto params) (
      after_pipe (checks.transform syslog_filter_dto query)
        (get_service_log os to_iso_string is_production sample_log name filter))

  whitelisted-find :
      (name : String)
      → includes_text syslog_service_whitelist name ≡ true
      → (o : LogOptions) × (find name syslog_services ≡ some o)
  whitelisted-find name h = elim (Option-cases (find name syslog_services)) [
    | inl e ↦ absurd (ground (arith, e, h))
    | inr (o, e) ↦ (o, e)
  ]

  -- A request for the log of a name is refused by the pipe, with what the pipe throws for the name or
  -- for the query; or the name has a log, and the answer is what the service does with it.
  pub get_syslog_lem :
      (params query : Fields) (name : String) (filter : Option SyslogFilter)
      → get "name" params ≡ text name
      → ((e : Exception) × (get_syslog params query name filter ≡ settled (err e))
          × ((checks.transform syslog_dto params ≡ err e)
              ⊎ (checks.transform syslog_filter_dto query ≡ err e)))
        ⊎ ((o : LogOptions) × (find name syslog_services ≡ some o)
            × (get_syslog params query name filter
                ≡ log_with os to_iso_string is_production sample_log filter (some o)))
  unfolding get_syslog get_service_log
  get_syslog_lem params query name filter sent =
      elim (Result-cases (checks.transform syslog_dto params)) [
        | inr (e, r) ↦ inl (e, rw r refl, inl r)
        | inl (fs, r) ↦ elim (Result-cases (checks.transform syslog_filter_dto query)) [
          | inr (e, q) ↦ inl (e, rw (r, q) refl, inr q)
          | inl (gs, q) ↦
              let tested =
                tested_at checks.check syslog_dto params "name" _ (text name)
                  (checks.transform_accepted syslog_dto params fs r).1.tested refl sent refl in
              let (o, e) =
                whitelisted-find name
                  (sym (checks.is_in_lem syslog_service_whitelist name) ∙ tested.0 refl) in
              inr (o, e, rw (r, q, e) refl)
        ]
      ]
