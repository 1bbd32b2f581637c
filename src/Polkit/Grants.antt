-- ===== src/Polkit/Grants.antt =====
-- What the two rules together grant.
use rpi_nest_api.Prelude.{
  String, true, ◌≡◌, ◌≢◌, ◌⊎◌, ◌↔◌, inl, inr, none, some, List, [], ◌∷◌, arith, ◌==◌, eq_iff,
  eq_refl, subst, includes_text, Bool-cases, Option-cases, Listed, here, later,
}
use rpi_nest_api.Polkit.{
  Action, Subject, yes_answer, api_unix_user, api_unix_group, allowed_pkexec_paths,
  allowed_action_ids, pkexec_action_id, is_api_service_user, is_allowed_action,
  is_allowed_to_execute_program, authorize,
}

includes_text-Listed : (ts : List String) (t : String) → includes_text ts t ≡ true → Listed t ts
includes_text-Listed [] t h = cc
includes_text-Listed (u ∷ ts) t h = elim (Bool-cases (u == t)) [
  | inl same ↦ subst (λ x. Listed x (u ∷ ts)) ((eq_iff u t).0 same) here
  | inr other ↦ later (includes_text-Listed ts t (ground arith))
]

Listed-includes_text : (ts : List String) (t : String) → Listed t ts → includes_text ts t ≡ true
Listed-includes_text [] u h = elim h [ ]
Listed-includes_text (t ∷ ts) u here = ground (arith, eq_refl t)
Listed-includes_text (t ∷ ts) u (later h) = ground (arith, Listed-includes_text ts u h)

-- The user that the API runs as.
pub record IsApiUser (subject : Subject) : Type 0 where
  pub user : subject.user ≡ api_unix_user
  pub group : subject.is_in_group api_unix_group ≡ true

-- `pkexec` with a listed program, or a listed action.
abbrev pub IsAllowed : Action → Type 0
IsAllowed action =
    ((action.id ≡ pkexec_action_id)
      × ((program : String) × (action.lookup "program" ≡ some program)
          × Listed program allowed_pkexec_paths))
    ⊎ Listed action.id allowed_action_ids

is_api_service_user_iff :
    (subject : Subject) → (is_api_service_user subject ≡ true) ↔ IsApiUser subject
unfolding is_api_service_user
is_api_service_user_iff subject = (
  λ h. ground (arith, eq_iff subject.user api_unix_user),
  λ h. ground (arith, eq_iff subject.user api_unix_user),
)

is_allowed_action_iff :
    (action : Action) → (is_allowed_action action ≡ true) ↔ Listed action.id allowed_action_ids
unfolding is_allowed_action
is_allowed_action_iff action = (
  λ h. includes_text-Listed allowed_action_ids action.id h,
  λ h. Listed-includes_text allowed_action_ids action.id h,
)

abbrev HasProgram : Action → Type 0
HasProgram action =
    (program : String) × (action.lookup "program" ≡ some program)
    × Listed program allowed_pkexec_paths

is_allowed_to_execute_program_iff :
    (action : Action) → (is_allowed_to_execute_program action ≡ true) ↔ HasProgram action
unfolding is_allowed_to_execute_program
is_allowed_to_execute_program_iff action = (
  λ h. elim (Option-cases (action.lookup "program")) [
    | inl e ↦ ground arith
    | inr (program, e) ↦ (program, e, includes_text-Listed allowed_pkexec_paths program (rw e at h))
  ],
  λ h. rw h.1 (Listed-includes_text allowed_pkexec_paths h.0 h.2),
)

authorize-tests :
    (action : Action) (subject : Subject)
    → authorize action subject ≡ some yes_answer
    → (is_api_service_user subject ≡ true)
      × (((action.id ≡ pkexec_action_id) × (is_allowed_to_execute_program action ≡ true))
          ⊎ (is_allowed_action action ≡ true))
unfolding authorize
authorize-tests action subject h = ground (arith, eq_iff action.id pkexec_action_id)

tests-authorize :
    (action : Action) (subject : Subject)
    → is_api_service_user subject ≡ true
    → ((action.id ≡ pkexec_action_id) × (is_allowed_to_execute_program action ≡ true))
      ⊎ (is_allowed_action action ≡ true)
    → authorize action subject ≡ some yes_answer
unfolding authorize
tests-authorize action subject a b = ground (arith, eq_iff action.id pkexec_action_id)

-- polkit gets the answer YES exactly if the API's user in the API's group asks for a listed action,
-- or for `pkexec` with a listed program.
pub authorize_iff :
    (action : Action) (subject : Subject)
    → (authorize action subject ≡ some yes_answer) ↔ (IsApiUser subject × IsAllowed action)
authorize_iff action subject = (
  λ h.
      let (a, b) = authorize-tests action subject h in
      (
        (is_api_service_user_iff subject).0 a,
        elim b [
          | inl (i, t) ↦ inl (i, (is_allowed_to_execute_program_iff action).0 t)
          | inr t ↦ inr ((is_allowed_action_iff action).0 t)
        ],
      ),
  λ h. tests-authorize action subject ((is_api_service_user_iff subject).1 h.0) (elim h.1 [
    | inl (i, t) ↦ inl (i, (is_allowed_to_execute_program_iff action).1 t)
    | inr t ↦ inr ((is_allowed_action_iff action).1 t)
  ]),
)

-- `pkexec` runs no program but `raspi-config` and `vcgencmd` by these rules. The command `cat`, with
-- which the serial number is read, is none of them.
pub pkexec_programs :
    (action : Action) (subject : Subject) (program : String)
    → action.id ≡ pkexec_action_id
    → action.lookup "program" ≡ some program
    → program ≢ "/usr/bin/raspi-config"
    → program ≢ "/usr/bin/vcgencmd"
    → authorize action subject ≡ none
unfolding authorize is_allowed_to_execute_program is_allowed_action
pkexec_programs action subject program i e r v =
    rw (i, e)
      (ground (arith, eq_iff "/usr/bin/raspi-config" program, eq_iff "/usr/bin/vcgencmd" program))
