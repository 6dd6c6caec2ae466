-- ===== src/Tests/Models.antt =====
-- Tests of ModelRequests and of ModelInstaller.
use private_ai_workspace_eks.Prelude.{
  ℕ, String, refl, true, false, none, some, [], ◌∷◌, string_eq, All, arith, select,
}
use private_ai_workspace_eks.Prelude.Dict
use private_ai_workspace_eks.Json.{str, fields}
use private_ai_workspace_eks.Auth.{owner_of, has_group}
use private_ai_workspace_eks.RateLimiter.{init}
use private_ai_workspace_eks.ModelRequests.{ModelInstallRequest, Config, is_admin}
use private_ai_workspace_eks.ModelRequests.Store.{Store, list_pending}
use private_ai_workspace_eks.ModelRequests.Handlers.{State, Moment, create_response, shown}
use private_ai_workspace_eks.ModelRequests.Caps.{open_of, IsWithin, added, create_response-IsWithin}
use private_ai_workspace_eks.ModelRequests.Admission.{
  Recorded, create_response-Recorded, AllOwn, shown-AllOwn,
}
use private_ai_workspace_eks.ModelRequests.Queue.{
  IsOldestFirst, AllRequested, Hands, list_pending-IsOldestFirst,
}
use private_ai_workspace_eks.ModelInstaller.{Clients, InstallerConfig, run_once}
use private_ai_workspace_eks.ModelInstaller.Installs.{MayServe, run_once-MayServe}
use private_ai_workspace_eks.ModelInstaller.Rollback.{Settles, run_once-Settles}
use private_ai_workspace_eks.Tests.{python, alice, verify, model_body}

abbrev config : Config
config = record {
  model_install_enabled = true;
  allow_all_users = true;
  install_group = none;
  admin_group = none;
  allowlist = some "acme";
  max_open_per_tenant = 2;
  installer_token = none;
}

abbrev moment : Moment
moment = record { now = 5; request_id = "r9"; event_id = "e1"; meanwhile = λ s. s }

abbrev request : String → String → ℕ → ModelInstallRequest
request id user created_at = record {
  id = id;
  tenant_id = "acme.com";
  user_id = user;
  hf_repo_id = "acme/small";
  revision = "";
  status = "requested";
  error_class = "";
  created_at = created_at;
  updated_at = created_at;
}

abbrev stored : Store
stored = ("r1", request "r1" "alice" 3) ∷ ("r2", request "r2" "bob" 2) ∷ []

abbrev before_request : State
before_request = record { requests = []; feed = none; limiter = some (init 5 2) }

create_response-IsWithin_example :
    IsWithin 2
      (added moment [])
      (create_response config
        (some "Bearer tok")
        (some verify)
        moment
        model_body
        before_request).0.requests
unfolding Dict.lookup open_of select
create_response-IsWithin_example =
    create_response-IsWithin config moment model_body (some "Bearer tok") (some verify)
      before_request refl (λ tenant. omega arith)

create_response-Recorded_example :
    Recorded config
      (some "Bearer tok")
      (some verify)
      moment
      model_body
      before_request
      (create_response config (some "Bearer tok") (some verify) moment model_body before_request)
create_response-Recorded_example =
    create_response-Recorded config (some "Bearer tok") (some verify) moment model_body
      before_request

shown-AllOwn_example : AllOwn config (owner_of alice) (shown config alice 10 stored)
unfolding is_admin has_group string_eq
shown-AllOwn_example = shown-AllOwn config alice 10 stored refl

list_pending-IsOldestFirst_example :
    IsOldestFirst (list_pending 50 stored)
    × AllRequested (list_pending 50 stored)
    × Hands 50 stored (list_pending 50 stored)
list_pending-IsOldestFirst_example = list_pending-IsOldestFirst 50 stored

-- The cluster does not become ready.
abbrev clients : Clients
clients = record {
  pending = some (fields (("id", str "r1") ∷ ("hf_repo_id", str "acme/small") ∷ []) ∷ []);
  report_sent = λ status. true;
  scale_done = true;
  current = some "acme/old";
  model_set = λ repo. true;
  ready = some false;
}

abbrev installer : InstallerConfig
installer = record { enabled = true; allowlist = "acme" ∷ [] }

run_once-MayServe_example : All (MayServe clients installer) (run_once clients installer).actions
run_once-MayServe_example = run_once-MayServe clients installer

run_once-Settles_example :
    Settles clients installer "acme/old" refl refl refl
      (λ repo. true)
      (run_once clients installer).actions
run_once-Settles_example =
    run_once-Settles clients installer "acme/old" refl refl refl (λ repo. true)
