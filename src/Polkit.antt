-- ===== src/Polkit.antt =====
-- src/dbus/polkit/rules: the two rules by which polkit lets the API's user act as root. An action
-- and a subject are what polkit passes to a rule; a rule that returns nothing leaves the decision
-- to others.
use rpi_nest_api.Prelude.{
  String, Bool, true, false, ◌&&◌, Option, none, some, List, [], ◌∷◌, ◌==◌, includes_text,
  if◌then◌else◌,
}
pub mod Grants

pub record Action : Type 0 where
  pub id : String
  pub lookup : String → Option String

pub record Subject : Type 0 where
  pub user : String
  pub is_in_group : String → Bool

-- `polkit.Result.YES`, the one answer that the rules give
pub data Answer : Type 0 where
  yes_answer : Answer

abbrev pub api_unix_user : String
api_unix_user = "api"

abbrev pub api_unix_group : String
api_unix_group = "rpi-nest"

abbrev pub allowed_pkexec_paths : List String
allowed_pkexec_paths = "/usr/bin/raspi-config" ∷ "/usr/bin/vcgencmd" ∷ []

abbrev pub allowed_action_ids : List String
allowed_action_ids =
    "org.freedesktop.login1.reboot" ∷ "org.freedesktop.login1.reboot-multiple-sessions"
    ∷ "org.freedesktop.systemd1.manage-units" ∷ "org.freedesktop.systemd1.manage-unit-files"
    ∷ "org.freedesktop.NetworkManager.checkpoint-rollback"
    ∷ "org.freedesktop.NetworkManager.enable-disable-network"
    ∷ "org.freedesktop.NetworkManager.network-control" ∷ "org.freedesktop.NetworkManager.reload"
    ∷ "org.freedesktop.NetworkManager.settings.modify.global-dns"
    ∷ "org.freedesktop.NetworkManager.settings.modify.hostname"
    ∷ "org.freedesktop.NetworkManager.settings.modify.own"
    ∷ "org.freedesktop.NetworkManager.settings.modify.system" ∷ "org.freedesktop.timedate1.set-ntp"
    ∷ "org.freedesktop.timedate1.set-time" ∷ "org.freedesktop.timedate1.set-timezone" ∷ []

abbrev pub pkexec_action_id : String
pkexec_action_id = "org.freedesktop.policykit.exec"

unfoldable pub is_api_service_user : Subject → Bool
is_api_service_user subject = subject.user == api_unix_user && subject.is_in_group api_unix_group

-- `ALLOWED_PKEXEC_PATHS.indexOf(program) !== -1`, where there is a program
abbrev pub is_allowed_program : Option String → Bool
is_allowed_program none = false
is_allowed_program (some program) = includes_text allowed_pkexec_paths program

unfoldable pub is_allowed_to_execute_program : Action → Bool
is_allowed_to_execute_program action = is_allowed_program (action.lookup "program")

unfoldable pub is_allowed_action : Action → Bool
is_allowed_action action = includes_text allowed_action_ids action.id

-- The rule of 00-pkexec.ts.
unfoldable pub pkexec_rule : Action → Subject → Option Answer
pkexec_rule action subject =
    if action.id == pkexec_action_id
    then if is_api_service_user subject && is_allowed_to_execute_program action
      then some yes_answer
      else none
    else none

-- The rule of 10-rpi-nest-api.ts.
unfoldable pub api_rule : Action → Subject → Option Answer
api_rule action subject =
    if is_api_service_user subject && is_allowed_action action then some yes_answer else none

abbrev pub first_answer : Option Answer → Option Answer → Option Answer
first_answer (some a) _ = some a
first_answer none other = other

-- polkit asks the rules in the order of their file names until one answers.
unfoldable pub authorize : Action → Subject → Option Answer
unfolding pkexec_rule api_rule
authorize action subject = first_answer (pkexec_rule action subject) (api_rule action subject)
