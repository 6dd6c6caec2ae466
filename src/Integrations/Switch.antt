-- ===== src/Integrations/Switch.antt =====
-- The operator's switch for each tenant and integration.
use private_ai_workspace_eks.Prelude.{
  String, ◌≡◌, true, false, [], ◌∷◌, ◌==◌, contains, arith, pair_eq, string_eq, if◌then◌else◌,
}
use private_ai_workspace_eks.Integrations.Invoke.{TenantState, disable, enable, is_enabled}

is_enabled-disable :
    (p q : String × String) (s : TenantState)
    → is_enabled p (disable q s) ≡ (if p == q then false else is_enabled p s)
unfolding is_enabled disable
is_enabled-disable p q s = ground arith

contains-enable :
    (p q : String × String) (s : TenantState)
    → contains (enable q s) p ≡ (if p == q then false else contains s p)
unfolding enable
contains-enable p q [] = ground arith
contains-enable p q (r ∷ s) = ground (arith, contains-enable p q s)

is_enabled-enable :
    (p q : String × String) (s : TenantState)
    → is_enabled p (enable q s) ≡ (if p == q then true else is_enabled p s)
unfolding is_enabled
is_enabled-enable p q s = ground (arith, contains-enable p q s)

-- Disabling a tenant's integration, and enabling it, set exactly that one: every other keeps its
-- state, whatever the order and the number of the calls before.
is_enabled-switched :
    (p q : String × String) (s : TenantState)
    → (is_enabled p (disable q s) ≡ (if p == q then false else is_enabled p s))
      × (is_enabled p (enable q s) ≡ (if p == q then true else is_enabled p s))
is_enabled-switched p q s = (is_enabled-disable p q s, is_enabled-enable p q s)
