-- ===== src/Device/DateTime/Settings.antt =====
-- A date that was set is the date that is read.
use rpi_nest_api.Prelude.{
  Bool-cases, inl, inr, ap, sym, ◌∙◌, ℕ, ◌*◌, ◌/◌, String, true, false, ◌≡◌, ap, arith,
}
use rpi_nest_api.Exec.{Result-cases, Void, Result, ok, err, Exception, bad_request}
use rpi_nest_api.Device.DateTime.{
  Properties, Machine, DateTimeSettingsDto, get_date_time_info, set_date_time,
}

abbrev pub ntp_enabled : String
ntp_enabled = "Cannot set system time while NTP synchronization is enabled"

module _ {St : Type 0} (machine : Machine St) where
  err-ok : (e : Exception) (s t : St) → Path (Result Void × St) (err e, s) (ok tt, t) → ⊥
  err-ok e s t h = go (ap (λ q. q.0) h)
    where
      go : Path (Result Void) (err e) (ok tt) → ⊥
      go p = cc

  -- While synchronization is on, setting a date is a bad request, and changes nothing.
  set_date_time_refused :
      (parse_date : String → ℕ) (dto : DateTimeSettingsDto) (s : St) (p : Properties)
      → machine.properties s ≡ ok p
      → p.ntp ≡ true
      → set_date_time machine parse_date dto s ≡ (err (bad_request ntp_enabled), s)
  unfolding set_date_time
  set_date_time_refused parse_date dto s p e n = rw (e, n)

  whole : (n : ℕ) → (n * 1000) / 1000 ≡ n
  whole n = omega arith

  read_back :
      (ms : ℕ) (s s₁ s' : St) (z : String) (p : Properties)
      → machine.properties s ≡ ok p
      → p.ntp ≡ false
      → machine.set_time (ms * 1000) s ≡ (ok tt, s₁)
      → machine.set_timezone z s₁ ≡ (ok tt, s')
      → get_date_time_info machine s'
        ≡ (ok (record { date = ms; time_zone = z; is_ntp_enabled = false }), s')
  unfolding get_date_time_info
  read_back ms s s₁ s' z p e n t u = rw (
    machine.set_timezone_lem z s₁ s' _ (machine.set_time_lem (ms * 1000) s s₁ p e t) u,
    n,
    whole ms,
  )

  timed :
      (parse_date : String → ℕ) (dto : DateTimeSettingsDto) (s : St) (p : Properties)
      → machine.properties s ≡ ok p
      → p.ntp ≡ false
      → (machine.set_time (parse_date dto.date * 1000) s).0 ≡ ok tt
      → set_date_time machine parse_date dto s
        ≡ machine.set_timezone dto.time_zone (machine.set_time (parse_date dto.date * 1000) s).1
  unfolding set_date_time
  timed parse_date dto s p e n h = rw (e, n, h)

  not_timed :
      (parse_date : String → ℕ) (dto : DateTimeSettingsDto) (s : St) (p : Properties)
      (x : Exception)
      → machine.properties s ≡ ok p
      → p.ntp ≡ false
      → (machine.set_time (parse_date dto.date * 1000) s).0 ≡ err x
      → set_date_time machine parse_date dto s
        ≡ (err x, (machine.set_time (parse_date dto.date * 1000) s).1)
  unfolding set_date_time
  not_timed parse_date dto s p x e n h = rw (e, n, h)

  -- If a date is set with success, synchronization was off, and what is read afterwards is the date
  -- in milliseconds and the time zone that were set.
  pub set_date_time-get_date_time_info :
      (parse_date : String → ℕ) (dto : DateTimeSettingsDto) (s s' : St) (p : Properties)
      → machine.properties s ≡ ok p
      → set_date_time machine parse_date dto s ≡ (ok tt, s')
      → (p.ntp ≡ false)
        × (get_date_time_info machine s' ≡ (
          ok (record {
            date = parse_date dto.date;
            time_zone = dto.time_zone;
            is_ntp_enabled = false;
          }),
          s',
        ))
  set_date_time-get_date_time_info parse_date dto s s' p e h = elim (Bool-cases p.ntp) [
    | inl on ↦ absurd (err-ok _ s s' (sym (set_date_time_refused parse_date dto s p e on) ∙ h))
    | inr off ↦ elim (Result-cases (machine.set_time (parse_date dto.date * 1000) s).0) [
      | inr (x, t) ↦ absurd (err-ok x _ s' (sym (not_timed parse_date dto s p x e off t) ∙ h))
      | inl (_, t) ↦ (
        off,
        read_back (parse_date dto.date) s _ s' dto.time_zone p e off
            (ap (λ r. (r, (machine.set_time (parse_date dto.date * 1000) s).1)) t)
            (sym (timed parse_date dto s p e off t) ∙ h),
      )
    ]
  ]
