-- ===== src/Integrations.antt =====
-- `IntegrationExecutor` of app/control_plane/integrations.py: credentials, the token cache, and the
-- one way out through the URL guard.
pub mod Egress
pub mod Invoke
pub mod Switch
use private_ai_workspace_eks.Prelude.{
  ◌==◌, contains, not, ◌/◌, ℕ, ◌+◌, ◌-◌, ◌*◌, String, ◌<>◌, Bool, true, false, Option, none, some,
  List, [], ◌∷◌, ◌++◌, ltb, pair_eq, string_eq, if◌then◌else◌,
}
use private_ai_workspace_eks.Prelude.Dict
use private_ai_workspace_eks.Prelude.Dict.{Dict}
use private_ai_workspace_eks.Prelude.Text.{is_empty, len}
use private_ai_workspace_eks.Json.{Json, ℤ, pos, negsuc, Fields, Python, null, int, str, dict}
use private_ai_workspace_eks.Outbound.{reason_text, ValidatedTarget, Network, OutboundResponse}
use private_ai_workspace_eks.Outbound.Guard.{accept, reject, validate_outbound_url}
use private_ai_workspace_eks.Outbound.Opening.{
  Wire, Opened, opened, open_timeout, open_error, guarded_open,
}

abbrev pub Creds : Type 0
Creds = Dict String String

pub record OutboundRequest : Type 0 where
  pub method : String
  pub url : String
  pub headers : Dict String String
  pub body : Option String
  pub allow_http : Bool

-- What a builder of requests does: it may raise `UnknownOperation` or another error.
pub data Built : Type 0 where
  built : OutboundRequest → Built
  unknown_operation broken : Built

pub record TokenRefresh : Type 0 where
  pub refresh_hosts : List String
  pub token_key : String
  pub refresh_request : Creds → OutboundRequest
  pub parse_token : ℕ → String → Option String × ℤ

-- An integration: its hosts, and its builder of requests.
pub record Integration : Type 0 where
  pub allowed_hosts : List String
  pub permit_private_hosts : List String
  pub requires_secret : Bool
  pub token_refresh : Option TokenRefresh
  pub build_request : String → Fields → Option Creds → Built

-- The minted tokens, with the time at which each expires.
abbrev pub TokenCache : Type 0
TokenCache = Dict (String × String) (String × ℕ)

-- The end of an attempt: a value, or the `result_class` that it stops with.
pub data Attempt {ℓ} (A : Type ℓ) : Type ℓ where
  done : A → Attempt A
  stopped : String → Attempt A

-- A step of the executor: the cache it leaves, the targets that it connected to, and its end.
pub record Step {ℓ} (A : Type ℓ) : Type ℓ where
  pub cache : TokenCache
  pub connected : List ValidatedTarget
  pub end_of_step : Attempt A

abbrev pub max_result_bytes : ℕ
max_result_bytes = 256 * 1024

-- `now + max(0, lifetime - self._TOKEN_MARGIN_S)`
abbrev pub expiry : ℕ → ℤ → ℕ
expiry now (pos n) = now + (n - 60)
expiry now (negsuc n) = now

abbrev of_opened : Opened → Attempt OutboundResponse
of_opened (opened r) = done r
of_opened open_timeout = stopped "upstream_timeout"
of_opened open_error = stopped "upstream_error"

-- `if not token`
abbrev pub as_token : Option String → Option String
as_token none = none
as_token (some t) = if is_empty t then none else some t

module _ ⦃py : Python⦄ ⦃net : Network⦄ ⦃wire : Wire⦄ where
  -- `_send`
  unfoldable pub send :
      List String → List String → OutboundRequest → TokenCache → Step OutboundResponse
  send allowed_hosts permit_hosts r cache =
      elim (validate_outbound_url r.url allowed_hosts r.allow_http permit_hosts) [
        | reject reason ↦ record {
          cache = cache;
          connected = [];
          end_of_step = stopped ("blocked:" <> reason_text reason);
        }
        | accept t ↦ record {
          cache = cache;
          connected = t ∷ [];
          end_of_step = of_opened (guarded_open t r.method r.headers r.body max_result_bytes);
        }
      ]

  module _ (now : ℕ) (key : String × String) (creds : Creds) where
    -- The reading of the refresher's answer.
    unfoldable pub store_token : TokenRefresh → Step OutboundResponse → Step Creds
    store_token refresher sent = elim sent.end_of_step [
      | stopped c ↦ record {
        cache = sent.cache;
        connected = sent.connected;
        end_of_step = stopped c;
      }
      | done r ↦
          let (token, lifetime) = refresher.parse_token r.status r.body in
          elim (as_token token) [
            | none ↦ record {
              cache = sent.cache;
              connected = sent.connected;
              end_of_step = stopped "refresh_failed";
            }
            | some t ↦ record {
              cache = Dict.insert key (t, expiry now lifetime) sent.cache;
              connected = sent.connected;
              end_of_step = done (Dict.insert refresher.token_key t creds);
            }
          ]
    ]

    unfoldable pub refresh : TokenRefresh → TokenCache → Step Creds
    unfolding send store_token
    refresh refresher cache =
        store_token refresher
          (send refresher.refresh_hosts [] (refresher.refresh_request creds) cache)

    -- A cached token that has not expired.
    abbrev pub live : Option (String × ℕ) → Option String
    live none = none
    live (some (token, expires)) = if ltb now expires then some token else none

    -- `_ensure_access_token`
    unfoldable pub ensure_access_token : Option TokenRefresh → TokenCache → Step Creds
    unfolding refresh
    ensure_access_token none cache = record {
      cache = cache;
      connected = [];
      end_of_step = done creds;
    }
    ensure_access_token (some refresher) cache = elim (live (Dict.lookup key cache)) [
      | some token ↦ record {
        cache = cache;
        connected = [];
        end_of_step = done (Dict.insert refresher.token_key token creds);
      }
      | none ↦ refresh refresher cache
    ]
