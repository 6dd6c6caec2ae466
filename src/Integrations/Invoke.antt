-- ===== src/Integrations/Invoke.antt =====
-- `IntegrationExecutor.invoke` of integrations.py, and the operator's switch for each tenant.
use private_ai_workspace_eks.Prelude.{
  ◌==◌, contains, not, ◌/◌, ℕ, String, ◌<>◌, Bool, Option, none, some, List, [], ◌∷◌, ◌++◌, pair_eq,
  string_eq, if◌then◌else◌,
}
use private_ai_workspace_eks.Prelude.Dict
use private_ai_workspace_eks.Prelude.Dict.{Dict}
use private_ai_workspace_eks.Prelude.Text.{len}
use private_ai_workspace_eks.Json.{Json, pos, Fields, Python, null, int, str, dict}
use private_ai_workspace_eks.Outbound.{ValidatedTarget, Network, OutboundResponse}
use private_ai_workspace_eks.Outbound.Opening.{Wire}
use private_ai_workspace_eks.Integrations.{
  Creds, Built, built, unknown_operation, broken, Integration, TokenCache, Attempt, done, stopped,
  Step, send, ensure_access_token,
}

-- A set of the pairs that an operator has disabled; `InMemoryTenantIntegrationState`.
abbrev pub TenantState : Type 0
TenantState = List (String × String)

unfoldable pub disable : String × String → TenantState → TenantState
disable pair s = if contains s pair then s else pair ∷ s

unfoldable pub enable : String × String → TenantState → TenantState
enable pair [] = []
enable pair (p ∷ s) = let rest = enable pair s in if pair == p then rest else p ∷ rest

unfoldable pub is_enabled : String × String → TenantState → Bool
is_enabled pair s = not (contains s pair)

-- An `IntegrationOutcome`: its class and, for a success, the status and the decoded body.
pub record IntegrationOutcome : Type 0 where
  pub result_class : String
  pub status : Option ℕ
  pub result : Json

abbrev pub aborted : String → IntegrationOutcome
aborted c = record { result_class = c; status = none; result = null }

pub record Executor : Type 0 where
  pub integrations : Dict String Integration
  pub secret_resolver : Option (String → String → Option Creds)

-- What an invocation leaves: the cache, the targets that it connected to, and its outcome.
pub record Invoked : Type 0 where
  pub cache : TokenCache
  pub connected : List ValidatedTarget
  pub outcome : IntegrationOutcome

-- `self._secret_resolver(tenant_id, integration)`, where `None` and an empty mapping are no
-- credentials.
abbrev nonempty : Option Creds → Option Creds
nonempty none = none
nonempty (some []) = none
nonempty (some creds) = some creds

abbrev pub resolve : Executor → String → String → Option Creds
resolve x tenant integration = elim x.secret_resolver [
  | none ↦ none
  | some f ↦ nonempty (f tenant integration)
]

module _ ⦃py : Python⦄ where
  -- `_decode`
  unfoldable pub decode : OutboundResponse → Json
  decode r =
      let class_ = py.display (int (pos (r.status / 100))) <> "xx" in
      elim (py.loads r.body) [
        | none ↦ dict (
            ("status", int (pos r.status))
            ∷ ("result_class", str class_)
            ∷ ("bytes", int (pos (len r.body)))
            ∷ [])
        | some v ↦
            dict (("status", int (pos r.status)) ∷ ("result_class", str class_) ∷ ("data", v) ∷ [])
      ]

  abbrev outcome_of : Attempt OutboundResponse → IntegrationOutcome
  outcome_of (stopped c) = aborted c
  outcome_of (done r) = record {
    result_class = "success";
    status = some r.status;
    result = decode r;
  }

module _ ⦃py : Python⦄ ⦃net : Network⦄ ⦃wire : Wire⦄ where
  -- From the builder on.
  unfoldable pub deliver : Integration → Built → Step (Option Creds) → Invoked
  unfolding send decode
  deliver spec unknown_operation ready = record {
    cache = ready.cache;
    connected = ready.connected;
    outcome = aborted "unknown_operation";
  }
  deliver spec broken ready = record {
    cache = ready.cache;
    connected = ready.connected;
    outcome = aborted "upstream_error";
  }
  deliver spec (built r) ready =
      let sent = send spec.allowed_hosts spec.permit_private_hosts r ready.cache in
      record {
        cache = sent.cache;
        connected = ready.connected ++ sent.connected;
        outcome = outcome_of sent.end_of_step;
      }

  abbrev with_creds : Step Creds → Step (Option Creds)
  with_creds s = elim s.end_of_step [
    | done c ↦ record { cache = s.cache; connected = s.connected; end_of_step = done (some c) }
    | stopped c ↦ record { cache = s.cache; connected = s.connected; end_of_step = stopped c }
  ]

  -- The credentials, refreshed where the integration asks for it.
  unfoldable pub prepare :
      Executor → Integration → String → String → ℕ → TokenCache → Step (Option Creds)
  unfolding ensure_access_token
  prepare x spec tenant integration now cache =
      if spec.requires_secret
      then elim (resolve x tenant integration) [
        | none ↦ record { cache = cache; connected = []; end_of_step = stopped "no_credentials" }
        | some creds ↦
            with_creds
              (ensure_access_token now (tenant, integration) creds spec.token_refresh cache)
      ]
      else record { cache = cache; connected = []; end_of_step = done none }

  -- `invoke`
  unfoldable pub invoke : Executor → String → String → Fields → String → ℕ → TokenCache → Invoked
  unfolding prepare deliver
  invoke x integration operation params tenant now cache =
      elim (Dict.lookup integration x.integrations) [
        | none ↦ record { cache = cache; connected = []; outcome = aborted "unknown_integration" }
        | some spec ↦
            let ready = prepare x spec tenant integration now cache in
            elim ready.end_of_step [
              | stopped c ↦ record {
                cache = ready.cache;
                connected = ready.connected;
                outcome = aborted c;
              }
              | done creds ↦ deliver spec (spec.build_request operation params creds) ready
            ]
      ]
