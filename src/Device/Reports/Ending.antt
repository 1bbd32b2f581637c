-- ===== src/Device/Reports/Ending.antt =====
-- That the polling ends.
use rpi_nest_api.Prelude.{
  ℕ, zero, suc, ◌<◌, String, Bool, true, false, ap, ◌≡◌, refl, ◌⊎◌, inl, inr, Option, none, some,
  arith,
}
use rpi_nest_api.Exec.{Exception, Result, ok, err, Exec, continue, pure, throw_if, ◌>>=◌, ◌>>◌}
use rpi_nest_api.Dbus.Variants.{Value}
use rpi_nest_api.Dbus.Systemd.{start_unit}
use rpi_nest_api.Device.Reports.{
  Host, ReportStream, poll, next_round, wait_for_report_service, create_report_stream, report_path,
  streamed, is_report_service_running, systemd_service_name,
}

-- Every poll that finds the unit running leaves fewer of them.
pub record IsEnding {St : Type 0} (host : Host St) (left : St → ℕ) : Type 0 where
  pub decreases : (s u : St) → poll host s ≡ (ok true, u) → left u < left s

-- The result is this one or an exception.
abbrev pub Ends : {St A : Type 0} → A → Result A × St → Type 0
Ends a r = (r.0 ≡ ok a) ⊎ ((e : Exception) × (r.0 ≡ err e))

module _ {St : Type 0} where
  Ends-bind :
      {A B : Type 0} (r : Result A) (u : St) (f : A → Exec St B) (b : B)
      → ((a : A) → r ≡ ok a → Ends b (f a u))
      → Ends b (continue r f u)
  Ends-bind (ok a) u f b k = k a refl
  Ends-bind (err e) u f b k = inr (e, refl)

  Ends-then :
      {A B : Type 0} (m : Exec St A) (f : A → Exec St B) (b : B) (u : St)
      → ((a : A) (v : St) → Ends b (f a v))
      → Ends b ((m >>= f) u)
  Ends-then m f b u k = Ends-bind (m u).0 (m u).1 f b (λ a e. k a (m u).1)

  Ends-map :
      {A B : Type 0} (m : Exec St A) (f : A → B) (a : A) (u : St)
      → Ends a (m u)
      → Ends (f a) ((m >>= λ x. pure (f x)) u)
  Ends-map m f a u (inl p) = inl (rw p refl)
  Ends-map m f a u (inr (e, p)) = inr (e, rw p refl)

  Ends-throw_if :
      {B : Type 0} (b : Bool) (e : Exception) (m : Exec St B) (a : B) (u : St)
      → ((v : St) → Ends a (m v))
      → Ends a ((throw_if b e >> m) u)
  Ends-throw_if true e m a u h = inr (e, refl)
  Ends-throw_if false e m a u h = h u

module _ {St : Type 0} (host : Host St) (left : St → ℕ) (law : IsEnding host left) where
  round-Ends :
      (fuel : ℕ) (s : St) (b : Bool)
      → ((u : St) → left u < fuel → Ends (some tt) (wait_for_report_service host fuel u))
      → left s < suc fuel
      → (poll host s).0 ≡ ok b
      → Ends (some tt) (next_round (wait_for_report_service host fuel) b (poll host s).1)
  round-Ends fuel s false rec h p = inl refl
  round-Ends fuel s true rec h p =
      rec (poll host s).1
        (omega (arith, h, law.decreases s (poll host s).1 (ap (λ r. (r, (poll host s).1)) p)))

  wait-Ends :
      (fuel : ℕ) (s : St) → left s < fuel → Ends (some tt) (wait_for_report_service host fuel s)
  unfolding wait_for_report_service
  wait-Ends zero s h = absurd (omega (arith, h))
  wait-Ends (suc fuel) s h =
      Ends-bind (poll host s).0 (poll host s).1 _ _
        (λ b p. round-Ends fuel s b (wait-Ends fuel) h p)

  -- Where each poll that finds the unit running leaves fewer of them, and whenever the unit was
  -- started fewer of them are left than there are rounds, a request for a report is answered: with
  -- the stream of the report or with an exception.
  pub create_report_stream-Ends :
      (fuel : ℕ) (upload_path : String) (s : St)
      → ((v u : St) (job : Value)
          → start_unit host.bus systemd_service_name none v ≡ (ok job, u)
          → left u < fuel)
      → Ends
          (some (record { packed = report_path upload_path }))
          (create_report_stream host fuel upload_path s)
  unfolding create_report_stream
  create_report_stream-Ends fuel upload_path s h =
      Ends-then (is_report_service_running host) _ stream _ (λ running u.
        Ends-throw_if running _ started stream u (λ v.
          Ends-bind (start v).0 (start v).1 (λ _. finish) stream
            (λ job e.
              Ends-map (wait_for_report_service host fuel) (streamed host upload_path) (some tt)
                (start v).1
                (wait-Ends fuel (start v).1 (h v (start v).1 job (ap (λ r. (r, (start v).1)) e))))))
    where
      start : Exec St Value
      start = start_unit host.bus systemd_service_name none

      stream : Option ReportStream
      stream = some (record { packed = report_path upload_path })

      finish : Exec St (Option ReportStream)
      finish = wait_for_report_service host fuel >>= λ o. pure (streamed host upload_path o)

      started : Exec St (Option ReportStream)
      started = start >> finish
