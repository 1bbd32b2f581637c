-- ===== src/Tests/Token.antt =====
-- A concrete token service. A token spells the time of issue and the payload; a space in a login is
-- escaped.
use Prim.Native.Char.{Char, code}
use text.Mathlib.TextEquality.{codes_equal}
use Prim.Native.Nat.{compare, Ordering}
use rpi_nest_api.Prelude.{
  ℕ, zero, suc, ◌+◌, ◌≤◌, ◌<◌, String, true, false, ◌≡◌, refl, ap, sym, ◌&&◌, Option, none, some,
  List, [], ◌∷◌, arith, leb, ltb, if◌then◌else◌, Bool-cases, inl, inr,
}
use rpi_nest_api.Roles.{AccessRole, admin, user, read_only}
use rpi_nest_api.Text.{is_code}
use rpi_nest_api.Text.Split.{Lacks}
use rpi_nest_api.Auth.Crypto.{AccessTokenPayload, Jwt}

is_code-eq : (d c : Char) → is_code (code d) c ≡ true → c ≡ d
is_code-eq d c h = codes_equal c d (decided (compare (code c) (code d)) h)
  where
    decided : (o : Ordering) → (elim o [ Ordering.eq ↦ true | _ ↦ false ]) ≡ true → o ≡ Ordering.eq
    decided Ordering.lt h = cc
    decided Ordering.eq h = refl
    decided Ordering.gt h = cc

-- A text with each space as "!_" and each "!" as "!!".
abbrev escape : String → String
escape String.[] = ""
escape (String.◌∷◌ c s) =
    let rest = escape s in
    if is_code b' ' c
    then String.◌∷◌ "!" (String.◌∷◌ "_" rest)
    else if is_code b'!' c
    then String.◌∷◌ "!" (String.◌∷◌ "!" rest)
    else String.◌∷◌ c rest

-- The text of a rest, and the text of a rest that follows a "!".
abbrev readings : String → String × String
readings String.[] = ("", "")
readings (String.◌∷◌ c s) =
    let (plain, after) = readings s in
    (
      if is_code b'!' c then after else String.◌∷◌ c plain,
      if is_code b'_' c then String.◌∷◌ " " plain else String.◌∷◌ "!" plain,
    )

abbrev unescape : String → String
unescape s = (readings s).0

unescape-escape : (s : String) → unescape (escape s) ≡ s
unescape-escape String.[] = refl
unescape-escape (String.◌∷◌ c s) = elim (Bool-cases (is_code b' ' c)) [
  | inl e ↦ rw (e, unescape-escape s) (ap (λ d. String.◌∷◌ d s) (sym (is_code-eq " " c e)))
  | inr e ↦ elim (Bool-cases (is_code b'!' c)) [
    | inl f ↦ rw (e, f, unescape-escape s) (ap (λ d. String.◌∷◌ d s) (sym (is_code-eq "!" c f)))
    | inr f ↦ rw (e, f, f, unescape-escape s)
  ]
]

escape_compact : (s : String) → Lacks b' ' (escape s)
escape_compact String.[] = tt
escape_compact (String.◌∷◌ c s) = elim (Bool-cases (is_code b' ' c)) [
  | inl e ↦ rw e (refl, (refl, escape_compact s))
  | inr e ↦ elim (Bool-cases (is_code b'!' c)) [
    | inl f ↦ rw (e, f) (refl, (refl, escape_compact s))
    | inr f ↦ rw (e, f) (e, escape_compact s)
  ]
]

-- A number as so many strokes and a point, before a text.
abbrev strokes : ℕ → String → String
strokes zero t = String.◌∷◌ "." t
strokes (suc n) t = String.◌∷◌ "1" (strokes n t)

abbrev one_more : ℕ × String → ℕ × String
one_more (n, t) = (suc n, t)

abbrev read_strokes : String → ℕ × String
read_strokes String.[] = (0, "")
read_strokes (String.◌∷◌ c t) =
    let rest = read_strokes t in if is_code b'1' c then one_more rest else (0, t)

read_strokes-strokes : (n : ℕ) (t : String) → read_strokes (strokes n t) ≡ (n, t)
read_strokes-strokes zero t = refl
read_strokes-strokes (suc n) t = ap one_more (read_strokes-strokes n t)

strokes_compact : (n : ℕ) (t : String) → Lacks b' ' t → Lacks b' ' (strokes n t)
strokes_compact zero t h = (refl, h)
strokes_compact (suc n) t h = (refl, strokes_compact n t h)

abbrev number_of : AccessRole → ℕ
number_of admin = 0
number_of user = 1
number_of read_only = 2

abbrev role_at : ℕ → AccessRole
role_at zero = admin
role_at (suc zero) = user
role_at (suc (suc _)) = read_only

role_at-number_of : (r : AccessRole) → role_at (number_of r) ≡ r
role_at-number_of admin = refl
role_at-number_of user = refl
role_at-number_of read_only = refl

-- Roles as strokes, with their count before them.
abbrev spell_roles : List AccessRole → String → String
spell_roles [] t = t
spell_roles (r ∷ rs) t = strokes (number_of r) (spell_roles rs t)

abbrev read_roles : ℕ → String → List AccessRole × String
read_roles zero t = ([], t)
read_roles (suc n) t =
    let (r, t') = read_strokes t in let (rs, t'') = read_roles n t' in (role_at r ∷ rs, t'')

abbrev count : List AccessRole → ℕ
count [] = 0
count (_ ∷ rs) = suc (count rs)

read_roles-spell_roles :
    (rs : List AccessRole) (t : String) → read_roles (count rs) (spell_roles rs t) ≡ (rs, t)
read_roles-spell_roles [] t = refl
read_roles-spell_roles (r ∷ rs) t = rw (
  read_strokes-strokes (number_of r) (spell_roles rs t),
  read_roles-spell_roles rs t,
  role_at-number_of r,
)

spell_roles_compact :
    (rs : List AccessRole) (t : String) → Lacks b' ' t → Lacks b' ' (spell_roles rs t)
spell_roles_compact [] t h = h
spell_roles_compact (r ∷ rs) t h =
    strokes_compact (number_of r) (spell_roles rs t) (spell_roles_compact rs t h)

-- No roles have the count 0, and some roles their count and 1.
abbrev spell_option : Option (List AccessRole) → String → String
spell_option none t = strokes 0 t
spell_option (some rs) t = strokes (suc (count rs)) (spell_roles rs t)

abbrev some_roles : List AccessRole × String → Option (List AccessRole) × String
some_roles (rs, t) = (some rs, t)

abbrev read_option_at : ℕ × String → Option (List AccessRole) × String
read_option_at (zero, t) = (none, t)
read_option_at (suc n, t) = some_roles (read_roles n t)

read_option-spell_option :
    (o : Option (List AccessRole)) (t : String)
    → read_option_at (read_strokes (spell_option o t)) ≡ (o, t)
read_option-spell_option none t = refl
read_option-spell_option (some rs) t =
    rw (read_strokes-strokes (count rs) (spell_roles rs t), read_roles-spell_roles rs t)

spell_option_compact :
    (o : Option (List AccessRole)) (t : String) → Lacks b' ' t → Lacks b' ' (spell_option o t)
spell_option_compact none t h = (refl, h)
spell_option_compact (some rs) t h =
    strokes_compact (suc (count rs)) (spell_roles rs t) (spell_roles_compact rs t h)

abbrev spell : ℕ → AccessTokenPayload → String
spell issued p = strokes issued (strokes p.modified (spell_option p.roles (escape p.sub)))

abbrev payload_at : ℕ → Option (List AccessRole) × String → AccessTokenPayload
payload_at modified (roles, t) = record { sub = unescape t; roles = roles; modified = modified }

abbrev read_payload : ℕ × String → AccessTokenPayload
read_payload (modified, t) = payload_at modified (read_option_at (read_strokes t))

abbrev accepted : ℕ → ℕ × String → Option AccessTokenPayload
accepted now (issued, t) =
    if leb issued now && ltb now (issued + 100) then some (read_payload (read_strokes t)) else none

pub accepted-spell :
    (issued now : ℕ) (p : AccessTokenPayload)
    → issued ≤ now
    → now < issued + 100
    → accepted now (read_strokes (spell issued p)) ≡ some p
accepted-spell issued now p le lt =
    let t = spell_option p.roles (escape p.sub) in
    rw (
      read_strokes-strokes issued (strokes p.modified t),
      in_time,
      read_strokes-strokes p.modified t,
      read_option-spell_option p.roles (escape p.sub),
      unescape-escape p.sub,
    )
  where
    in_time : (leb issued now && ltb now (issued + 100)) ≡ true
    in_time = ground arith

pub spell_compact : (issued : ℕ) (p : AccessTokenPayload) → Lacks b' ' (spell issued p)
spell_compact issued p =
    strokes_compact issued (strokes p.modified (spell_option p.roles (escape p.sub))) (
      strokes_compact p.modified (spell_option p.roles (escape p.sub))
        (spell_option_compact p.roles (escape p.sub) (escape_compact p.sub)))

-- Tokens that are accepted for 100 units of time.
abbrev pub spelled_jwt : Jwt
spelled_jwt = record {
  sign = spell;
  verify = λ now token. accepted now (read_strokes token);
  lifetime = 100;
  verify-sign = accepted-spell;
  sign_compact = spell_compact;
}
