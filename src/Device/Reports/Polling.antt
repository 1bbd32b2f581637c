-- ===== src/Device/Reports/Polling.antt =====
-- When a report is made.
use rpi_nest_api.Prelude.{
  ℕ, zero, suc, ◌<◌, String, Bool, true, false, ◌≡◌, refl, ap, ◌∙◌, ◌↔◌, Option, none, some, arith,
}
use rpi_nest_api.Exec.{Void, ok, throw_if}
use rpi_nest_api.Exec.Success.{bind_success, ok-inj, throw_if_success}
use rpi_nest_api.Dbus.Variants.{Value}
use rpi_nest_api.Dbus.Systemd.{start_unit}
use rpi_nest_api.Device.Reports.{
  Host, ReportStream, is_report_service_running, poll, next_round, wait_for_report_service,
  create_report_stream, systemd_service_name, report_path, streamed,
}

-- The unit is found running so many times, once a second, and then found stopped.
pub data Stops {St : Type 0} (host : Host St) : ℕ → St → St → Type 0 where
  stopped : {s t : St} → poll host s ≡ (ok false, t) → Stops host 0 s t
  still_running :
      {n : ℕ} {s u t : St} → poll host s ≡ (ok true, u) → Stops host n u t → Stops host (suc n) s t

-- The unit is found idle, is started, and stops after it was found running so many times.
pub record Reported {St : Type 0} (host : Host St) (upload_path : String) (n : ℕ) (s t : St)
    : Type 0 where
  pub idle : St
  pub job : Value
  pub started : St
  pub is_idle : is_report_service_running host (host.mkdir upload_path s).1 ≡ (ok false, idle)
  pub starts : start_unit host.bus systemd_service_name none idle ≡ (ok job, started)
  pub stops : Stops host n started t

module _ {St : Type 0} {host : Host St} where
  pub wait-some :
      (fuel : ℕ) {n : ℕ} {s t : St}
      → n < fuel
      → Stops host n s t
      → wait_for_report_service host fuel s ≡ (ok (some tt), t)
  unfolding wait_for_report_service
  wait-some zero h _ = absurd (omega (arith, h))
  wait-some (suc fuel) h (Stops.stopped e) = rw e
  wait-some (suc fuel) h (Stops.still_running e r) = rw e (wait-some fuel (omega arith) r)

module _ {St : Type 0} (host : Host St) where
  some-round :
      (fuel : ℕ) (b : Bool) (s u t : St)
      → (wait_for_report_service host fuel u ≡ (ok (some tt), t)
          → (n : ℕ) × (n < fuel) × Stops host n u t)
      → poll host s ≡ (ok b, u)
      → next_round (wait_for_report_service host fuel) b u ≡ (ok (some tt), t)
      → (n : ℕ) × (n < suc fuel) × Stops host n s t
  some-round fuel true s u t rec e r =
      let (n, l, q) = rec r in (suc n, omega (arith, l), Stops.still_running e q)
  some-round fuel false s u t rec e r =
      (0, omega arith, Stops.stopped (e ∙ ap (λ x. (ok false, x)) (ok-inj r).1))

  pub some-wait :
      (fuel : ℕ) (s t : St)
      → wait_for_report_service host fuel s ≡ (ok (some tt), t)
      → (n : ℕ) × (n < fuel) × Stops host n s t
  unfolding wait_for_report_service
  some-wait zero s t h = absurd (none-some (ok-inj h).0)
    where
      none-some : Path (Option Void) none (some tt) → ⊥
      none-some p = cc
  some-wait (suc fuel) s t h =
      let (b, u, e, r) = bind_success (poll host) _ s t (some tt) h in
      some-round fuel b s u t (some-wait fuel u t) e r

  finished :
      (upload_path : String) (o : Option Void) (r : ReportStream)
      → streamed host upload_path o ≡ some r
      → o ≡ some tt
  finished upload_path none r h = cc
  finished upload_path (some tt) r h = refl

  create_report_stream-Reported :
      (fuel : ℕ) (upload_path : String) (s t : St)
      → create_report_stream host fuel upload_path s
        ≡ (ok (some (record { packed = report_path upload_path })), t)
      → (n : ℕ) × (n < fuel) × Reported host upload_path n s t
  unfolding create_report_stream
  create_report_stream-Reported fuel upload_path s t h =
      let (b, u, e, h1) = bind_success (is_report_service_running host) _ _ t _ h in
      let (_, v, f, h2) = bind_success (throw_if b _) _ u t _ h1 in
      let (job, w, g, h3) = bind_success (start_unit host.bus _ none) _ v t _ h2 in
      let (o, x, k, h4) = bind_success (wait_for_report_service host fuel) _ w t _ h3 in
      let (not_running, same) = throw_if_success b _ u v _ f in
      let (done, end) = ok-inj h4 in
      let (n, l, stops) = some-wait fuel w t (
        k
        ∙ ap (λ z. (ok z, x)) (finished upload_path o _ done)
        ∙ ap (λ z. (ok (some tt), z)) end) in
      (
        n,
        l,
        record {
          idle = u;
          job = job;
          started = w;
          is_idle = e ∙ ap (λ z. (ok z, u)) not_running;
          starts = ap (start_unit host.bus systemd_service_name none) same ∙ g;
          stops = stops;
        },
      )

  -- For any number of rounds.
  pub create_report_stream_iff :
      (fuel : ℕ) (upload_path : String) (s t : St)
      → (create_report_stream host fuel upload_path s
          ≡ (ok (some (record { packed = report_path upload_path })), t))
        ↔ ((n : ℕ) × (n < fuel) × Reported host upload_path n s t)
  unfolding create_report_stream
  create_report_stream_iff fuel upload_path s t = (
    λ h. create_report_stream-Reported fuel upload_path s t h,
    λ (n, l, r). rw (r.is_idle, r.starts, wait-some fuel l r.stops),
  )
