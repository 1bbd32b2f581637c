-- ===== src/Device/DateTime/Server.antt =====
-- A time server that was written to the configuration is the one that is read.
use Prim.Native.Char.{Char}
use Prim.Native.String
use text.Mathlib.TextLemmas.{nil-append, cons-append, append-nil}
use rpi_nest_api.Prelude.{
  if◌then◌else◌, Bool, Bool-cases, String, true, false, ◌≡◌, ◌≢◌, refl, sym, ap, ◌∙◌, arith, some,
  List, [], ◌∷◌, inl, inr, eq-false_of_ne, template,
}
use rpi_nest_api.Exec.{ok}
use rpi_nest_api.Text.{is_code, starts_with, drop_as}
use rpi_nest_api.Exec.Success.{bind_success}
use rpi_nest_api.Device.DateTime.{
  use_server, Machine, timesyncd_config, file_head, file_rest, ends_line, lines, ntp_match,
  get_ntp_address_from_config, write_ntp_address_to_config, set_ntp,
}

-- The text has no end of a line.
abbrev pub IsLine : String → Type 0
IsLine String.[] = Unit
IsLine (String.◌∷◌ c s) = (ends_line c ≡ false) × IsLine s

lines-append :
    (s : String) (t : String) → IsLine s → lines (String.◌++◌ s (String.◌++◌ "\n" t)) ≡ s ∷ lines t
unfolding lines
lines-append String.[] t h =
    rw (nil-append (String.◌++◌ "\n" t), cons-append "\n" "" t, nil-append t)
lines-append (String.◌∷◌ c s) t (h, hs) =
    rw (cons-append c s (String.◌++◌ "\n" t), h, lines-append s t hs)

is_code_refl : (c : Char) → is_code (Prim.Native.Char.code c) c ≡ true
is_code_refl c = ground arith

starts_with-append : (p t : String) → starts_with p (String.◌++◌ p t) ≡ true
unfolding starts_with
starts_with-append String.[] t = refl
starts_with-append (String.◌∷◌ c p) t =
    rw (cons-append c p t, is_code_refl c, starts_with-append p t)

drop_as-append : (p t : String) → drop_as p (String.◌++◌ p t) ≡ t
unfolding drop_as
drop_as-append String.[] t = nil-append t
drop_as-append (String.◌∷◌ c p) t = rw (cons-append c p t, drop_as-append p t)

IsLine-append : (s t : String) → IsLine s → IsLine t → IsLine (String.◌++◌ s t)
IsLine-append String.[] t h g = rw (nil-append t) g
IsLine-append (String.◌∷◌ c s) t (h, hs) g = rw (cons-append c s t) (h, IsLine-append s t hs g)

match-address :
    (address : String) (rest : List String)
    → ntp_match (String.◌++◌ "NTP=" address ∷ rest) ≡ some address
unfolding ntp_match
match-address address rest = rw (starts_with-append "NTP=" address, drop_as-append "NTP=" address)

-- The same as a test, for texts of which every character is known.
abbrev pub is_line : String → Bool
is_line String.[] = true
is_line (String.◌∷◌ c s) = let rest = is_line s in if ends_line c then false else rest

pub is_line-IsLine : (s : String) → is_line s ≡ true → IsLine s
is_line-IsLine String.[] h = tt
is_line-IsLine (String.◌∷◌ c s) h = elim (Bool-cases (ends_line c)) [
  | inl e ↦ cc
  | inr e ↦ (e, is_line-IsLine s (rw e at h))
]

IsLine-server : (address : String) → IsLine address → IsLine (template ("NTP=" ∷ address ∷ []))
IsLine-server address h =
    IsLine-append "NTP=" (template (address ∷ [])) (is_line-IsLine "NTP=" refl)
      (rw (append-nil address) h)

lines-newline : (t : String) → lines (String.◌++◌ "\n" t) ≡ "" ∷ lines t
lines-newline t = ap lines (sym (nil-append (String.◌++◌ "\n" t))) ∙ lines-append "" t tt

no_match :
    (line : String) (rest : List String)
    → starts_with "NTP=" line ≡ false
    → ntp_match (line ∷ rest) ≡ ntp_match rest
unfolding ntp_match
no_match line rest h = rw h

no_head : starts_with "NTP=" "" ≡ false
unfolding starts_with
no_head = refl

no_comment : starts_with "NTP=" file_head ≡ false
unfolding starts_with
no_comment = refl

no_section : starts_with "NTP=" "[Time]" ≡ false
unfolding starts_with
no_section = refl

match-config :
    (address : String)
    → IsLine address
    → ntp_match (lines (timesyncd_config address)) ≡ some address
match-config address h = rw (
  lines-newline (
      template
        (file_head ∷ "\n" ∷ "[Time]" ∷ "\n" ∷ template ("NTP=" ∷ address ∷ []) ∷ "\n" ∷ file_rest)),
  lines-append file_head
      (template ("[Time]" ∷ "\n" ∷ template ("NTP=" ∷ address ∷ []) ∷ "\n" ∷ file_rest))
      (is_line-IsLine file_head refl),
  lines-append "[Time]" (template (template ("NTP=" ∷ address ∷ []) ∷ "\n" ∷ file_rest))
      (is_line-IsLine "[Time]" refl),
  lines-append (template ("NTP=" ∷ address ∷ [])) (template file_rest) (IsLine-server address h),
  no_match "" (file_head ∷ "[Time]" ∷ template ("NTP=" ∷ address ∷ []) ∷ lines (template file_rest))
      no_head,
  no_match file_head ("[Time]" ∷ template ("NTP=" ∷ address ∷ []) ∷ lines (template file_rest))
      no_comment,
  no_match "[Time]" (template ("NTP=" ∷ address ∷ []) ∷ lines (template file_rest)) no_section,
  append-nil address,
  match-address address (lines (template file_rest)),
)

module _ {St : Type 0} (machine : Machine St) where
  -- If NTP settings with a server are accepted, the server that is read from the configuration
  -- afterwards is that one. Its text holds no end of a line.
  pub set_ntp-get_ntp_address :
      (server : String) (is_ntp_enabled : Bool) (s s' : St)
      → server ≢ ""
      → IsLine server
      → set_ntp machine (record { ntp_server = some server; is_ntp_enabled = is_ntp_enabled }) s
        ≡ (ok tt, s')
      → get_ntp_address_from_config machine s' ≡ (ok (some server), s')
  unfolding set_ntp get_ntp_address_from_config
  set_ntp-get_ntp_address server is_ntp_enabled s s' filled line h =
      let (_, u, used, enabled) =
        bind_success (use_server machine (some server)) (λ _. machine.set_ntp is_ntp_enabled) s s'
          tt h in
      let (_, t, written, restarted) =
        bind_success (write_ntp_address_to_config machine server)
          (λ _. machine.restart_unit "systemd-timesyncd.service") s u tt
          (rw (eq-false_of_ne server "" filled) at used) in
      rw (
        machine.set_ntp_lem is_ntp_enabled u s' enabled,
        machine.restart_unit_lem "systemd-timesyncd.service" t u restarted,
        machine.write_file_lem (timesyncd_config server) s t written,
        match-config server line,
      )
