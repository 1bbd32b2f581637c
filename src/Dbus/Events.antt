-- ===== src/Dbus/Events.antt =====
-- How the proxies of src/dbus/interfaces/timedate1/timedate1.proxy.ts and of
-- src/dbus/interfaces/network-manager/settings-connection.proxy.ts forward events: both are event
-- emitters of Node whose constructors listen to their own 'newListener' and 'removeListener'.
use rpi_nest_api.Prelude.{
  ℕ, zero, suc, String, Bool, true, false, ◌&&◌, List, [], ◌∷◌, ◌++◌, ◌==◌, eqb, if◌then◌else◌,
}
pub mod Delivery

-- Listeners by number; 0 and 1 are those of the constructor.
pub record Registration : Type 0 where
  pub event : String
  pub listener : ℕ

-- The proxy's own listeners and those that it put on the object's own interface, the last one
-- first, and how often `forwardPropertyChange` stands on the interface of the properties.
pub record Proxy : Type 0 where
  pub own : List Registration
  pub on_interface : List Registration
  pub forwarders : ℕ

abbrev pub same : Registration → Registration → Bool
same r q = (r.event == q.event) && eqb r.listener q.listener

-- Node's `removeListener` takes out the last one that was added.
abbrev pub without : Registration → List Registration → List Registration
without r [] = []
without r (q ∷ qs) = if same q r then qs else q ∷ without r qs

abbrev pub is_registered : Registration → List Registration → Bool
is_registered r [] = false
is_registered r (q ∷ qs) = if same q r then true else is_registered r qs

abbrev pub listener_count : String → List Registration → ℕ
listener_count event [] = 0
listener_count event (q ∷ qs) =
    let rest = listener_count event qs in if q.event == event then suc rest else rest

abbrev pub is_zero : ℕ → Bool
is_zero zero = true
is_zero (suc _) = false

abbrev pub pred : ℕ → ℕ
pred zero = zero
pred (suc n) = n

-- `event === 'PropertiesChanged' && this.listenerCount('PropertiesChanged') === 0`
abbrev pub is_first : Registration → Proxy → Bool
is_first r p =
    (r.event == "PropertiesChanged") && is_zero (listener_count "PropertiesChanged" p.own)

-- The listener of 'newListener', which Node calls before it adds the listener.
unfoldable pub forward_new : Registration → Proxy → Proxy
forward_new r p =
    if is_first r p
    then record p { forwarders = suc p.forwarders }
    else record p { on_interface = r ∷ p.on_interface }

-- The listener of 'removeListener', which Node calls after it has removed one.
unfoldable pub forward_removed : Registration → Proxy → Proxy
forward_removed r p =
    if is_first r p
    then record p { forwarders = pred p.forwarders }
    else record p { on_interface = without r p.on_interface }

abbrev pub added : Registration → Proxy → Proxy
added r p = record p { own = r ∷ p.own }

abbrev pub removed : Registration → Proxy → Proxy
removed r p = record p { own = without r p.own }

pub data Call : Type 0 where
  on : Registration → Call
  remove_listener : Registration → Call

-- The listeners that an event calls, in the order in which they were added.
abbrev pub called : String → List Registration → List ℕ
called event [] = []
called event (q ∷ qs) =
    let rest = called event qs in if q.event == event then rest ++ (q.listener ∷ []) else rest

-- The constructor's listeners, where these numbers are called; the others leave the proxy.
abbrev pub heard : List ℕ → Registration → Proxy → Proxy
heard [] r p = p
heard (zero ∷ ls) r p = heard ls r (forward_new r p)
heard (suc zero ∷ ls) r p = heard ls r (forward_removed r p)
heard (suc (suc n) ∷ ls) r p = heard ls r p

-- Node's `on` emits 'newListener' before it adds a listener, and `removeListener` emits
-- 'removeListener' after it has removed one; both call who listens at that time.
unfoldable pub step : Call → Proxy → Proxy
unfolding forward_new forward_removed
step (on r) p = added r (heard (called "newListener" p.own) r p)
step (remove_listener r) p =
    if is_registered r p.own
    then heard (called "removeListener" (removed r p).own) r (removed r p)
    else p

unfoldable pub run : List Call → Proxy → Proxy
run [] p = p
run (c ∷ cs) p = run cs (step c p)

abbrev pub empty : Proxy
empty = record { own = []; on_interface = []; forwarders = 0 }

-- The constructor
unfoldable pub constructed : Proxy
constructed =
    run
      (on (record { event = "newListener"; listener = 0 })
        ∷ on (record { event = "removeListener"; listener = 1 })
        ∷ [])
      empty

abbrev pub times : ℕ → List ℕ → List ℕ
times zero ls = []
times (suc n) ls = ls ++ times n ls

-- The listeners that are called when the properties of the interface with the name `iface` change.
unfoldable pub properties_changed : String → String → Proxy → List ℕ
properties_changed interface_name iface p =
    if iface == interface_name then times p.forwarders (called "PropertiesChanged" p.own) else []
