-- ===== src/Auth/Guard/Decision.antt =====
-- Which requests the guard lets through, against a statement of the rights without its code.
use rpi_nest_api.Prelude.{
  ℕ, String, Bool, true, false, ◌≡◌, ◌⊎◌, ◌↔◌, inl, inr, sym, ap, ◌∙◌, Option, some, arith, or_else,
  Bool-cases, Option-cases,
}
use rpi_nest_api.Exec.{ok, err, unauthorized}
use rpi_nest_api.Auth.Crypto.{AccessTokenPayload, Jwt}
use rpi_nest_api.Auth.Guard.{
  Context, Reflector, Lodash, is_route_public, is_user_authorized, can_activate,
  extract_token_from_header,
}
use rpi_nest_api.Auth.Guard.Rights.{MayAccess, is_user_authorized_iff}

-- The mark on the handler counts before the mark on the class.
abbrev pub IsPublic : Context → Type 0
IsPublic c = or_else c.handler_public (or_else c.class_public false) ≡ true

abbrev pub HasToken : Jwt → ℕ → Option String → AccessTokenPayload → Type 0
HasToken jwt now authorization p =
    (token : String) × (extract_token_from_header authorization ≡ some token)
    × (jwt.verify now token ≡ some p)

ok-injective : {a b : Bool} → ok a ≡ ok b → a ≡ b
ok-injective e = cc

IsPublic-cases : (c : Context) → IsPublic c ⊎ (IsPublic c → ⊥)
IsPublic-cases c = elim (Bool-cases (or_else c.handler_public (or_else c.class_public false))) [
  | inl h ↦ inl h
  | inr h ↦ inr (λ p. cc)
]

token_cases :
    (jwt : Jwt) (now : ℕ) (authorization : Option String)
    → ((p : AccessTokenPayload) × HasToken jwt now authorization p)
      ⊎ ((p : AccessTokenPayload) → HasToken jwt now authorization p → ⊥)
token_cases jwt now authorization = elim (Option-cases (extract_token_from_header authorization)) [
  | inl e ↦ inr (λ p t. cc (e, t.1))
  | inr (token, e) ↦ elim (Option-cases (jwt.verify now token)) [
    | inl v ↦ inr (λ p t. ground arith)
    | inr (p, v) ↦ inl (p, (token, e, v))
  ]
]

-- What entitles a request: a public route, or a valid token whose holder may access the route.
abbrev pub IsEntitled : Jwt → ℕ → Context → Option String → Type 0
IsEntitled jwt now c authorization =
    IsPublic c ⊎ ((p : AccessTokenPayload) × HasToken jwt now authorization p × MayAccess c p)

module _ (reflector : Reflector) (lodash : Lodash) where
  is_route_public_lem :
      (c : Context)
      → is_route_public reflector lodash c ≡ or_else c.handler_public (or_else c.class_public false)
  unfolding is_route_public
  is_route_public_lem c = elim (Option-cases c.handler_public) [
    | inl e ↦ rw (e, reflector.override_second c.class_public)
    | inr (b, e) ↦ rw (e, reflector.override_first b c.class_public)
  ]

  not_public : (c : Context) → (IsPublic c → ⊥) → is_route_public reflector lodash c ≡ false
  not_public c h = elim (Bool-cases (is_route_public reflector lodash c)) [
    | inl yes_public ↦ absurd (h (sym (is_route_public_lem c) ∙ yes_public))
    | inr e ↦ e
  ]

  pub can_activate_public :
      (jwt : Jwt) (now : ℕ) (c : Context) (authorization : Option String)
      → IsPublic c
      → can_activate reflector lodash jwt now c authorization ≡ ok true
  unfolding can_activate
  can_activate_public jwt now c authorization h = rw (is_route_public_lem c, h)

  can_activate_token :
      (jwt : Jwt) (now : ℕ) (c : Context) (authorization : Option String) (p : AccessTokenPayload)
      → (IsPublic c → ⊥)
      → HasToken jwt now authorization p
      → can_activate reflector lodash jwt now c authorization
        ≡ ok (is_user_authorized reflector lodash c p)
  unfolding can_activate
  can_activate_token jwt now c authorization p h (token, e, v) = rw (not_public c h, e, v)

  can_activate_no_token :
      (jwt : Jwt) (now : ℕ) (c : Context) (authorization : Option String)
      → (IsPublic c → ⊥)
      → ((p : AccessTokenPayload) → HasToken jwt now authorization p → ⊥)
      → can_activate reflector lodash jwt now c authorization ≡ err unauthorized
  unfolding can_activate
  can_activate_no_token jwt now c authorization h n =
      elim (Option-cases (extract_token_from_header authorization)) [
        | inl e ↦ rw (not_public c h, e)
        | inr (token, e) ↦ elim (Option-cases (jwt.verify now token)) [
          | inl v ↦ rw (not_public c h, e, v)
          | inr (p, v) ↦ absurd (n p (token, e, v))
        ]
      ]

  -- The guard has three answers. It lets a request through exactly if the request is entitled; it
  -- refuses one that has a valid token whose holder may not access the route; and it throws
  -- `UnauthorizedException` exactly if the route is not public and there is no valid token.
  pub can_activate_lem :
      (jwt : Jwt) (now : ℕ) (c : Context) (authorization : Option String)
      → (IsEntitled jwt now c authorization
          × (can_activate reflector lodash jwt now c authorization ≡ ok true))
        ⊎ (((IsPublic c → ⊥)
              × ((p : AccessTokenPayload) × HasToken jwt now authorization p × (MayAccess c p → ⊥))
              × (can_activate reflector lodash jwt now c authorization ≡ ok false))
            ⊎ ((IsPublic c → ⊥)
                × ((p : AccessTokenPayload) → HasToken jwt now authorization p → ⊥)
                × (can_activate reflector lodash jwt now c authorization ≡ err unauthorized)))
  can_activate_lem jwt now c authorization = elim (IsPublic-cases c) [
    | inl h ↦ inl (inl h, can_activate_public jwt now c authorization h)
    | inr h ↦ elim (token_cases jwt now authorization) [
      | inr n ↦ inr (inr (h, n, can_activate_no_token jwt now c authorization h n))
      | inl (p, t) ↦ elim (Bool-cases (is_user_authorized reflector lodash c p)) [
        | inl a ↦ inl (
          inr (p, t, (is_user_authorized_iff reflector lodash c p).0 a),
          can_activate_token jwt now c authorization p h t ∙ ap ok a,
        )
        | inr a ↦ inr (
            inl (
              h,
              (p, t, λ m. cc (a, (is_user_authorized_iff reflector lodash c p).1 m)),
              can_activate_token jwt now c authorization p h t ∙ ap ok a,
            ))
      ]
    ]
  ]

  -- With a valid token, its payload decides.
  pub can_activate_valid :
      (jwt : Jwt) (now : ℕ) (c : Context) (authorization : Option String) (p : AccessTokenPayload)
      → HasToken jwt now authorization p
      → (can_activate reflector lodash jwt now c authorization ≡ ok true)
        ↔ (IsPublic c ⊎ MayAccess c p)
  can_activate_valid jwt now c authorization p t = elim (IsPublic-cases c) [
    | inl h ↦ (λ _. inl h, λ _. can_activate_public jwt now c authorization h)
    | inr h ↦
        let decided = can_activate_token jwt now c authorization p h t in
        (
          λ e.
              inr
                ((is_user_authorized_iff reflector lodash c p).0 (ok-injective (sym decided ∙ e))),
          λ right. decided ∙ ap ok (right_to right h),
        )
  ]
    where
      right_to :
          IsPublic c ⊎ MayAccess c p
          → (IsPublic c → ⊥)
          → is_user_authorized reflector lodash c p ≡ true
      right_to (inl x) h = absurd (h x)
      right_to (inr m) h = (is_user_authorized_iff reflector lodash c p).1 m
