-- ===== src/ModelInstaller/Installs.antt =====
-- Which models the installer points the cluster at, and what is served in the end.
use private_ai_workspace_eks.Prelude.{
  String, ◌≡◌, refl, ◌⊎◌, inl, inr, Bool, true, false, Option, none, some, List, [], ◌∷◌, ◌||◌,
  ◌==◌, string_eq, All, All-append, Bool-cases, Option-cases,
}
use private_ai_workspace_eks.Prelude.Text.{is_empty}
use private_ai_workspace_eks.Json.{Json, Fields, has, as_str}
use private_ai_workspace_eks.ModelRequests.{is_repo_id, is_repo_allowed}
use private_ai_workspace_eks.ModelInstaller.{
  Action, reported, scaled, pointed, Steps, Clients, InstallerConfig, rollback, await_ready, apply,
  point, install, process, run_once, continue, call, attempt, or_nothing, set_status, failed,
  return, item, ◌>>=◌,
}

module _ {ℓ κ ι} {A : Type ℓ} {B : Type κ} (P : Action → Type ι) where
  continue-All :
      (l : List Action) (v : Option A) (f : A → Steps B)
      → All P l
      → ((a : A) → All P (f a).actions)
      → All P (continue l v f).actions
  continue-All l none f h k = h
  continue-All l (some a) f h k = All-append P l (f a).actions h (k a)

  bind-All :
      (m : Steps A) (f : A → Steps B)
      → All P m.actions
      → ((a : A) → All P (f a).actions)
      → All P (m >>= f).actions
  bind-All m f h k = continue-All m.actions m.value f h k

call-All {ι} :
    (P : Action → Type ι) (act : Bool → Action) (sent : Bool)
    → ((b : Bool) → P (act b))
    → All P (call act sent).actions
call-All P act true h = (h true, tt)
call-All P act false h = (h false, tt)

module _ (clients : Clients) (config : InstallerConfig) where
  -- A model that the installer may point at: a well-formed repository on its own allow-list, or
  -- the one that was served before.
  abbrev pub MayServe : Action → Type 0
  MayServe (pointed repo went_through) =
      (is_repo_id repo ≡ true) × (is_repo_allowed config.allowlist repo ≡ true)
      ⊎ (clients.current ≡ some repo)
  MayServe a = Unit

  failed-MayServe :
      (rid : Json) (error_class : String)
      → All MayServe (failed clients config rid error_class).actions
  failed-MayServe rid error_class =
      bind-All MayServe (set_status clients config rid "failed" error_class) (λ u. return true)
        (call-All MayServe (reported rid "failed" error_class) (clients.report_sent "failed")
          (λ b. tt))
        (λ u. tt)

  rollback-MayServe :
      (repo : String)
      → All MayServe (rollback clients config (or_nothing clients.current) repo).actions
  unfolding rollback
  rollback-MayServe repo = elim (Option-cases clients.current) [
    | inl e ↦ rw e tt
    | inr (previous, e) ↦ elim (Bool-cases (is_empty previous || previous == repo)) [
      | inl kept ↦ rw (e, kept) tt
      | inr back ↦ rw (e, back) (inr refl, tt)
    ]
  ]

  await_ready-MayServe :
      (rid : Json) (repo : String)
      → All MayServe (await_ready clients config rid (or_nothing clients.current) repo).actions
  unfolding await_ready
  await_ready-MayServe rid repo =
      let back = rollback-MayServe repo in
      elim (Option-cases clients.ready) [
        | inl e ↦
            rw (e, await_ready)
              (bind-All MayServe (rollback clients config (or_nothing clients.current) repo)
                (λ u. failed clients config rid "install_failed") back
                (λ u. failed-MayServe rid "install_failed"))
        | inr (false, e) ↦
            rw (e, await_ready)
              (bind-All MayServe (rollback clients config (or_nothing clients.current) repo)
                (λ u. failed clients config rid "load_timeout") back
                (λ u. failed-MayServe rid "load_timeout"))
        | inr (true, e) ↦
            rw (e, await_ready)
              (bind-All MayServe (set_status clients config rid "applied" "") (λ u. return true)
                (call-All MayServe (reported rid "applied" "") (clients.report_sent "applied")
                  (λ b. tt))
                (λ u. tt))
      ]

  module _ (rid : Json) (repo : String) (shape : is_repo_id repo ≡ true)
      (listed : is_repo_allowed config.allowlist repo ≡ true) where
    apply-MayServe : (b : Bool) → All MayServe (apply clients config rid repo b).actions
    unfolding apply
    apply-MayServe false = failed-MayServe rid "vllm_apply_failed"
    apply-MayServe true = await_ready-MayServe rid repo

    point-MayServe : (b : Bool) → All MayServe (point clients config rid repo b).actions
    unfolding point
    point-MayServe false = failed-MayServe rid "gpu_provision_failed"
    point-MayServe true =
        bind-All MayServe (attempt (pointed repo) (clients.model_set repo))
          (apply clients config rid repo) (inl (shape, listed), tt) apply-MayServe

    install-MayServe : All MayServe (install clients config rid repo).actions
    unfolding install
    install-MayServe =
        bind-All MayServe (set_status clients config rid "installing" "")
          (λ u. attempt scaled clients.scale_done >>= point clients config rid repo)
          (call-All MayServe (reported rid "installing" "") (clients.report_sent "installing")
            (λ b. tt))
          (λ u.
            bind-All MayServe (attempt scaled clients.scale_done) (point clients config rid repo)
              (tt, tt) point-MayServe)

  process-MayServe :
      (rid : Json) (repo : Option String) → All MayServe (process clients config rid repo).actions
  unfolding process
  process-MayServe rid none = failed-MayServe rid "repo_invalid"
  process-MayServe rid (some repo) = elim (Bool-cases (is_repo_id repo)) [
    | inr bad ↦ rw bad (failed-MayServe rid "repo_invalid")
    | inl shape ↦ elim (Bool-cases (is_repo_allowed config.allowlist repo)) [
      | inr denied ↦ rw (shape, denied) (failed-MayServe rid "repo_not_allowed")
      | inl listed ↦ rw (shape, listed) (install-MayServe rid repo shape listed)
    ]
  ]

  item-All : (k : String) (d : Fields) → All MayServe (item k d).actions
  item-All k d = elim (Bool-cases (has k d)) [ inl h ↦ rw h tt | inr h ↦ rw h tt ]

  -- However the clients answer, one round of the installer points the cluster only at well-formed
  -- repositories on its own allow-list, or back at the model that it read as served before.
  pub run_once-MayServe : All MayServe (run_once clients config).actions
  unfolding run_once
  run_once-MayServe = elim (Bool-cases config.enabled) [
    | inr off ↦ rw (off, run_once) tt
    | inl on ↦ elim (Option-cases clients.pending) [
      | inl e ↦ rw (on, e, run_once) tt
      | inr ([], e) ↦ rw (on, e, run_once) tt
      | inr (d ∷ rest, e) ↦
          rw (on, e, run_once)
            (bind-All MayServe (item "id" d)
              (λ rid. item "hf_repo_id" d >>= λ repo. process clients config rid (as_str repo))
              (item-All "id" d)
              (λ rid.
                bind-All MayServe (item "hf_repo_id" d)
                  (λ repo. process clients config rid (as_str repo)) (item-All "hf_repo_id" d)
                  (λ repo. process-MayServe rid (as_str repo))))
    ]
  ]
