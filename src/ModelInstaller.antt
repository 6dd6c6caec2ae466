-- ===== src/ModelInstaller.antt =====
-- app/model_installer/reconciler.py: `run_once`, as the actions that it takes on the control plane
-- and the cluster. How the clients answer is a parameter, `Clients`.
pub mod Installs
pub mod Rollback
use private_ai_workspace_eks.Prelude.{
  String, Bool, true, false, Option, none, some, List, [], ◌∷◌, ◌++◌, not, ◌||◌, ◌==◌, string_eq,
  if◌then◌else◌,
}
use private_ai_workspace_eks.Prelude.Text.{is_empty}
use private_ai_workspace_eks.Json.{Json, Fields, str, get, has, as_str}
use private_ai_workspace_eks.ModelRequests.{is_repo_id, is_repo_allowed}

-- What the installer does to the world. The flag says whether the call went through.
pub data Action : Type 0 where
  reported : Json → String → String → Bool → Action
  scaled : Bool → Action
  pointed : String → Bool → Action

-- The actions of a piece of code, and its value, if it does not raise.
pub record Steps {ℓ} (A : Type ℓ) : Type ℓ where
  pub actions : List Action
  pub value : Option A

abbrev pub return {ℓ} : {A : Type ℓ} → A → Steps A
return a = record { actions = []; value = some a }

abbrev pub raised {ℓ} : {A : Type ℓ} → Steps A
raised = record { actions = []; value = none }

-- A call that goes through or raises, and the same call in a `try` block.
abbrev pub call : (Bool → Action) → Bool → Steps (Unit {0})
call act true = record { actions = act true ∷ []; value = some tt }
call act false = record { actions = act false ∷ []; value = none }

abbrev pub attempt : (Bool → Action) → Bool → Steps Bool
attempt act went_through = record { actions = act went_through ∷ []; value = some went_through }

abbrev pub continue {ℓ κ} :
    {A : Type ℓ} {B : Type κ} → List Action → Option A → (A → Steps B) → Steps B
continue l none f = record { actions = l; value = none }
continue l (some a) f = record { actions = l ++ (f a).actions; value = (f a).value }

infixl 5 ◌>>=◌ ◌>>◌
abbrev pub ◌>>=◌ {ℓ κ} : {A : Type ℓ} {B : Type κ} → Steps A → (A → Steps B) → Steps B
m >>= f = continue m.actions m.value f

abbrev pub ◌>>◌ {ℓ} : {B : Type ℓ} → Steps (Unit {0}) → Steps B → Steps B
m >> k = m >>= λ _. k

-- How the clients answer: the pending requests, whether a report, the scaling and a `set_model`
-- go through, the model that `get_model` reads, and the value of `wait_ready`; `none` is an error.
pub record Clients : Type 0 where
  pub pending : Option (List Fields)
  pub report_sent : String → Bool
  pub scale_done : Bool
  pub current : Option String
  pub model_set : String → Bool
  pub ready : Option Bool

pub record InstallerConfig : Type 0 where
  pub enabled : Bool
  pub allowlist : List String

-- `d[key]`
abbrev pub item : String → Fields → Steps Json
item key d = if has key d then return (get key d) else raised

abbrev pub or_nothing : Option String → String
or_nothing none = ""
or_nothing (some s) = s

module _ (clients : Clients) (config : InstallerConfig) where
  abbrev pub set_status : Json → String → String → Steps (Unit {0})
  set_status rid status error_class =
      call (reported rid status error_class) (clients.report_sent status)

  abbrev pub failed : Json → String → Steps Bool
  failed rid error_class = do set_status rid "failed" error_class; return true

  -- `_rollback`
  unfoldable pub rollback : String → String → Steps (Unit {0})
  rollback previous attempted =
      if is_empty previous || previous == attempted
      then return tt
      else record { actions = pointed previous (clients.model_set previous) ∷ []; value = some tt }

  -- From the wait on.
  unfoldable pub await_ready : Json → String → String → Steps Bool
  unfolding rollback
  await_ready rid previous repo = elim clients.ready [
    | none ↦ do rollback previous repo; failed rid "install_failed"
    | some false ↦ do rollback previous repo; failed rid "load_timeout"
    | some true ↦ do set_status rid "applied" ""; return true
  ]

  -- From the capture of the served model on.
  unfoldable pub apply : Json → String → Bool → Steps Bool
  unfolding await_ready
  apply rid repo false = failed rid "vllm_apply_failed"
  apply rid repo true = await_ready rid (or_nothing clients.current) repo

  unfoldable pub point : Json → String → Bool → Steps Bool
  unfolding apply
  point rid repo false = failed rid "gpu_provision_failed"
  point rid repo true = attempt (pointed repo) (clients.model_set repo) >>= apply rid repo

  -- The install of an allowed repository.
  unfoldable pub install : Json → String → Steps Bool
  unfolding point
  install rid repo =
      set_status rid "installing" "" >> (attempt scaled clients.scale_done >>= point rid repo)

  -- The checks of one request, which come before anything else.
  unfoldable pub process : Json → Option String → Steps Bool
  process rid none = failed rid "repo_invalid"
  process rid (some repo) =
      if not (is_repo_id repo)
      then failed rid "repo_invalid"
      else if not (is_repo_allowed config.allowlist repo)
      then failed rid "repo_not_allowed"
      else install rid repo

  unfoldable pub run_once : Steps Bool
  run_once = if not config.enabled then return false else elim clients.pending [
    | none ↦ raised
    | some [] ↦ return false
    | some (d ∷ rest) ↦ do rid ← item "id" d; repo ← item "hf_repo_id" d; process rid (as_str repo)
  ]
