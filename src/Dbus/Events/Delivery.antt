-- ===== src/Dbus/Events/Delivery.antt =====
-- Whom a change of properties reaches.
use rpi_nest_api.Prelude.{
  ℕ, zero, suc, String, true, Bool-cases, inl, inr, List, [], ◌∷◌, ◌++◌, ◌≡◌, ◌<◌, refl, sym, ap,
  subst, All, ◌==◌, if◌then◌else◌, arith, eq_iff, ◌∙◌,
}
use mathlib.Core.List.{append-nil}
use rpi_nest_api.Dbus.Events.{
  added, removed, same, heard, Registration, Proxy, Call, on, remove_listener, step, run,
  constructed, forward_new, forward_removed, called, properties_changed, listener_count, without,
  is_registered, is_zero, times,
}

-- `forwardPropertyChange` is registered once while somebody listens, and else not.
abbrev pub IsForwarding : Proxy → Type 0
IsForwarding p =
    p.forwarders ≡ (if is_zero (listener_count "PropertiesChanged" p.own) then 0 else 1)

on-IsForwarding :
    (r : Registration) (p : Proxy) → IsForwarding p → IsForwarding (added r (forward_new r p))
unfolding forward_new
on-IsForwarding r p h = ground arith

count-without :
    (event : String) (r : Registration) (qs : List Registration)
    → is_registered r qs ≡ true
    → listener_count event qs ≡ (
        if r.event == event
        then suc (listener_count event (without r qs))
        else listener_count event (without r qs))
count-without event r [] h = cc
count-without event r (q ∷ qs) h = ground (
  arith,
  eq_iff q.event r.event,
  eq_iff q.event event,
  eq_iff r.event event,
  count-without event r qs,
)

remove-IsForwarding :
    (r : Registration) (p : Proxy)
    → is_registered r p.own ≡ true
    → IsForwarding p
    → IsForwarding (forward_removed r (removed r p))
unfolding forward_removed
remove-IsForwarding r p e h = ground (arith, count-without "PropertiesChanged" r p.own)

-- The numbers of the constructor's listeners.
abbrev hooks : List ℕ → List ℕ
hooks [] = []
hooks (zero ∷ ls) = zero ∷ hooks ls
hooks (suc zero ∷ ls) = suc zero ∷ hooks ls
hooks (suc (suc n) ∷ ls) = hooks ls

heard-hooks : (ls : List ℕ) (r : Registration) (p : Proxy) → heard ls r p ≡ heard (hooks ls) r p
heard-hooks [] r p = refl
heard-hooks (zero ∷ ls) r p = heard-hooks ls r (forward_new r p)
heard-hooks (suc zero ∷ ls) r p = heard-hooks ls r (forward_removed r p)
heard-hooks (suc (suc n) ∷ ls) r p = heard-hooks ls r p

hooks-append : (ls : List ℕ) (n : ℕ) → hooks (ls ++ n ∷ []) ≡ hooks ls ++ hooks (n ∷ [])
hooks-append [] n = refl
hooks-append (zero ∷ ls) n = ap (λ ks. zero ∷ ks) (hooks-append ls n)
hooks-append (suc zero ∷ ls) n = ap (λ ks. suc zero ∷ ks) (hooks-append ls n)
hooks-append (suc (suc m) ∷ ls) n = hooks-append ls n

-- A listener that is not one of the constructor's.
abbrev pub IsOther : Registration → Type 0
IsOther r = 1 < r.listener

hooks-other : (n : ℕ) → 1 < n → hooks (n ∷ []) ≡ []
hooks-other zero h = absurd (omega arith)
hooks-other (suc zero) h = absurd (omega arith)
hooks-other (suc (suc n)) h = refl

hooks-added :
    (event : String) (r : Registration) (qs : List Registration)
    → IsOther r
    → hooks (called event (r ∷ qs)) ≡ hooks (called event qs)
hooks-added event r qs h = elim (Bool-cases (r.event == event)) [
  | inl e ↦
      rw (e, hooks-append (called event qs) r.listener, hooks-other r.listener h) (append-nil _)
  | inr e ↦ rw e refl
]

hooks-kept :
    (event : String) (q : Registration) (xs qs : List Registration)
    → hooks (called event xs) ≡ hooks (called event qs)
    → hooks (called event (q ∷ xs)) ≡ hooks (called event (q ∷ qs))
hooks-kept event q xs qs h = elim (Bool-cases (q.event == event)) [
  | inl e ↦
      rw
        (e, hooks-append (called event xs) q.listener, hooks-append (called event qs) q.listener, h)
        refl
  | inr e ↦ rw e h
]

same-listener : (q r : Registration) → same q r ≡ true → q.listener ≡ r.listener
same-listener q r h = ground arith

hooks-without :
    (event : String) (r : Registration) (qs : List Registration)
    → IsOther r
    → hooks (called event (without r qs)) ≡ hooks (called event qs)
hooks-without event r [] h = refl
hooks-without event r (q ∷ qs) h = elim (Bool-cases (same q r)) [
  | inl e ↦ rw e (sym (hooks-added event q qs (subst (λ n. 1 < n) (sym (same-listener q r e)) h)))
  | inr e ↦ rw e (hooks-kept event q (without r qs) qs (hooks-without event r qs h))
]

-- The constructor's listeners are registered once each, and forwarding is as it should be.
record IsHooked (p : Proxy) : Type 0 where
  added_by_hook : hooks (called "newListener" p.own) ≡ 0 ∷ []
  removed_by_hook : hooks (called "removeListener" p.own) ≡ 1 ∷ []
  forwarding : IsForwarding p

forward_new-own : (r : Registration) (p : Proxy) → (forward_new r p).own ≡ p.own
unfolding forward_new
forward_new-own r p = ground arith

forward_removed-own : (r : Registration) (p : Proxy) → (forward_removed r p).own ≡ p.own
unfolding forward_removed
forward_removed-own r p = ground arith

abbrev pub IsOthers : Call → Type 0
IsOthers (on r) = IsOther r
IsOthers (remove_listener r) = IsOther r

-- What the calls do while the constructor's listeners are there.
on-IsHooked :
    (r : Registration) (p : Proxy) → IsOther r → IsHooked p → IsHooked (added r (forward_new r p))
on-IsHooked r p o h = record {
  added_by_hook =
      ap (λ own. hooks (called "newListener" (r ∷ own))) (forward_new-own r p)
      ∙ hooks-added "newListener" r p.own o
      ∙ h.added_by_hook;
  removed_by_hook =
      ap (λ own. hooks (called "removeListener" (r ∷ own))) (forward_new-own r p)
      ∙ hooks-added "removeListener" r p.own o
      ∙ h.removed_by_hook;
  forwarding = on-IsForwarding r p h.forwarding;
}

remove-IsHooked :
    (r : Registration) (p : Proxy)
    → IsOther r
    → is_registered r p.own ≡ true
    → IsHooked p
    → IsHooked (forward_removed r (removed r p))
remove-IsHooked r p o e h = record {
  added_by_hook =
      ap (λ own. hooks (called "newListener" own)) (forward_removed-own r (removed r p))
      ∙ hooks-without "newListener" r p.own o
      ∙ h.added_by_hook;
  removed_by_hook =
      ap (λ own. hooks (called "removeListener" own)) (forward_removed-own r (removed r p))
      ∙ hooks-without "removeListener" r p.own o
      ∙ h.removed_by_hook;
  forwarding = remove-IsForwarding r p e h.forwarding;
}

step-IsHooked : (c : Call) (p : Proxy) → IsOthers c → IsHooked p → IsHooked (step c p)
unfolding step
step-IsHooked (on r) p o h =
    let new =
      heard-hooks (called "newListener" p.own) r p ∙ ap (λ ls. heard ls r p) h.added_by_hook in
    subst (λ q. IsHooked (added r q)) (sym new) (on-IsHooked r p o h)
step-IsHooked (remove_listener r) p o h = elim (Bool-cases (is_registered r p.own)) [
  | inr e ↦ rw e h
  | inl e ↦
      let old =
        heard-hooks (called "removeListener" (without r p.own)) r (removed r p)
        ∙ ap (λ ls. heard ls r (removed r p))
            (hooks-without "removeListener" r p.own o ∙ h.removed_by_hook) in
      rw e (subst IsHooked (sym old) (remove-IsHooked r p o e h))
]

run-IsHooked : (cs : List Call) (p : Proxy) → All IsOthers cs → IsHooked p → IsHooked (run cs p)
unfolding run
run-IsHooked [] p os h = h
run-IsHooked (c ∷ cs) p (o, os) h = run-IsHooked cs (step c p) os (step-IsHooked c p o h)

constructed-IsHooked : IsHooked constructed
unfolding constructed run step forward_new
constructed-IsHooked = record { added_by_hook = refl; removed_by_hook = refl; forwarding = refl }

-- Nobody is called where nobody listens.
called-none :
    (event : String) (qs : List Registration) → listener_count event qs ≡ 0 → called event qs ≡ []
called-none event [] h = refl
called-none event (q ∷ qs) h = ground (arith, called-none event qs)

zero_of_is_zero : (n : ℕ) → is_zero n ≡ true → n ≡ 0
zero_of_is_zero zero h = refl
zero_of_is_zero (suc n) h = cc

forwarded :
    (p : Proxy)
    → IsForwarding p
    → times p.forwarders (called "PropertiesChanged" p.own) ≡ called "PropertiesChanged" p.own
forwarded p h = elim (Bool-cases (is_zero (listener_count "PropertiesChanged" p.own))) [
  | inl nobody ↦
      let e = called-none "PropertiesChanged" p.own (zero_of_is_zero _ nobody) in rw (h, nobody, e)
  | inr somebody ↦ rw (h, somebody) (append-nil _)
]

-- After any calls of a proxy's `on` and `removeListener` with listeners other than those of its
-- constructor, a change of the properties of its own interface calls each listener to
-- 'PropertiesChanged' once for each time that it was added and not removed, in that order, and a
-- change of another interface's properties calls none.
pub properties_changed-called :
    (cs : List Call) (interface_name iface : String)
    → All IsOthers cs
    → let p = run cs constructed in
      properties_changed interface_name iface p
      ≡ (if iface == interface_name then called "PropertiesChanged" p.own else [])
unfolding properties_changed
properties_changed-called cs interface_name iface os = rw (
    forwarded (run cs constructed) (run-IsHooked cs constructed os constructed-IsHooked).forwarding)
