-- ===== src/ModelInstaller/Rollback.antt =====
-- What is served after a round of the installer.
use private_ai_workspace_eks.Prelude.{
  String, ◌≡◌, refl, ap, sym, ◌∙◌, ◌⊎◌, inl, inr, Bool, true, false, Option, none, some, List, [],
  ◌∷◌, ◌||◌, ◌&&◌, if◌then◌else◌, ◌==◌, string_eq, arith, Bool-cases, Option-cases,
}
use private_ai_workspace_eks.Prelude.Text.{is_empty}
use private_ai_workspace_eks.Json.{Json, get, has, as_str}
use private_ai_workspace_eks.ModelRequests.{is_repo_id, is_repo_allowed}
use private_ai_workspace_eks.ModelInstaller.{
  Action, reported, pointed, Clients, InstallerConfig, rollback, await_ready, apply, point, install,
  process, run_once, failed, ◌>>◌,
}

-- The model that the ConfigMap names after the actions: the last one that was set. A `set_model`
-- that raises may have patched the ConfigMap before; `patched` says for which models it has.
pub served : (String → Bool) → String → List Action → String
served patched model [] = model
served patched model (pointed repo went_through ∷ actions) =
    served patched (if went_through || patched repo then repo else model) actions
served patched model (a ∷ actions) = served patched model actions

-- Whether a request was reported as applied, by a call that went through.
pub applied : List Action → Bool
applied [] = false
applied (reported rid status error_class ok ∷ actions) =
    let rest = applied actions in status == "applied" && ok || rest
applied (a ∷ actions) = applied actions

module _ (clients : Clients) (config : InstallerConfig) (old : String)
    (known : clients.current ≡ some old) (named : is_empty old ≡ false)
    (restorable : clients.model_set old ≡ true) (patched : String → Bool) where
  -- The cluster became ready with the repository, which is served; it was reported as applied if
  -- that report went through.
  abbrev pub Installed : String → String → List Action → Type 0
  Installed model repo l =
      (clients.ready ≡ some true)
      × (applied l ≡ clients.report_sent "applied")
      × (served patched model l ≡ repo)

  -- Setting the repository raised when the ConfigMap was patched already.
  abbrev pub HalfSet : String → String → List Action → Type 0
  HalfSet model repo l =
      (clients.model_set repo ≡ false)
      × (patched repo ≡ true)
      × (applied l ≡ false)
      × (served patched model l ≡ repo)

  abbrev pub Kept : String → List Action → Type 0
  Kept model l = (applied l ≡ false) × (served patched model l ≡ old)

  -- The old model is served, or an allowed repository, installed or half set.
  abbrev pub Settles : List Action → Type 0
  Settles l =
      Kept old l
      ⊎ ((repo : String) × (is_repo_allowed config.allowlist repo ≡ true)
          × (Installed old repo l ⊎ HalfSet old repo l))

  failed-Settles :
      (rid : Json) (error_class : String) → Settles (failed clients config rid error_class).actions
  unfolding string_eq applied served
  failed-Settles rid error_class = elim (Bool-cases (clients.report_sent "failed")) [
    | inl sent ↦ rw sent (inl (refl, refl))
    | inr lost ↦ rw lost (inl (refl, refl))
  ]

  ==-eq : (s t : String) → (s == t) ≡ true → s ≡ t
  ==-eq s t h = ground arith

  -- Whatever the round was before the failure, `failed` keeps what is served.
  served-failed :
      (model : String) (rid : Json) (error_class : String)
      → (applied (failed clients config rid error_class).actions ≡ false)
        × (served patched model (failed clients config rid error_class).actions ≡ model)
  unfolding string_eq applied served
  served-failed model rid error_class = elim (Bool-cases (clients.report_sent "failed")) [
    | inl sent ↦ rw sent (refl, refl)
    | inr lost ↦ rw lost (refl, refl)
  ]

  rollback_lem :
      (rid : Json) (repo error_class : String)
      → let l =
          (rollback clients config old repo >> failed clients config rid error_class).actions in
        Kept repo l
  unfolding rollback applied served
  rollback_lem rid repo error_class = elim (Bool-cases (old == repo)) [
    | inl same ↦
        let kept = served-failed repo rid error_class in
        let e = ==-eq old repo same in rw (named, same) (kept.0, kept.1 ∙ sym e)
    | inr other ↦ let kept = served-failed old rid error_class in rw (named, other, restorable) kept
  ]

  await_ready-Settles :
      (rid : Json) (repo : String)
      → is_repo_allowed config.allowlist repo ≡ true
      → let l = (await_ready clients config rid old repo).actions in
        Kept repo l ⊎ Installed repo repo l
  unfolding await_ready applied served string_eq
  await_ready-Settles rid repo listed = elim (Option-cases clients.ready) [
    | inl e ↦ rw (e, await_ready) (inl (rollback_lem rid repo "install_failed"))
    | inr (false, e) ↦ rw (e, await_ready) (inl (rollback_lem rid repo "load_timeout"))
    | inr (true, e) ↦ elim (Bool-cases (clients.report_sent "applied")) [
      | inl sent ↦ rw (e, await_ready, sent) (inr (refl, refl, refl))
      | inr lost ↦ rw (e, await_ready, lost) (inr (refl, refl, refl))
    ]
  ]

  module _ (rid : Json) (repo : String)
      (listed : is_repo_allowed config.allowlist repo ≡ true) where
    SettlesFrom : String → List Action → Type 0
    SettlesFrom model l = Kept model l ⊎ (Installed model repo l ⊎ HalfSet model repo l)

    served_half :
        (model : String) (l : List Action)
        → patched repo ≡ true
        → served patched model (pointed repo false ∷ l) ≡ served patched repo l
    unfolding served
    served_half model l h = ap (λ b. served patched (if b then repo else model) l) h

    served_whole :
        (model : String) (l : List Action)
        → patched repo ≡ false
        → served patched model (pointed repo false ∷ l) ≡ served patched model l
    unfolding served
    served_whole model l h = ap (λ b. served patched (if b then repo else model) l) h

    applying-SettlesFrom :
        (b : Bool)
        → clients.model_set repo ≡ b
        → SettlesFrom old (pointed repo b ∷ (apply clients config rid repo b).actions)
    unfolding SettlesFrom apply applied served
    applying-SettlesFrom false e = elim (Bool-cases (patched repo)) [
      | inl half ↦
          let kept = served-failed repo rid "vllm_apply_failed" in
          inr (
            inr (
              e,
              half,
              kept.0,
              served_half old (failed clients config rid "vllm_apply_failed").actions half ∙ kept.1,
            ))
      | inr whole ↦
          let kept = served-failed old rid "vllm_apply_failed" in
          inl (
            kept.0,
            served_whole old (failed clients config rid "vllm_apply_failed").actions whole ∙ kept.1,
          )
    ]
    applying-SettlesFrom true e =
        rw known
          (elim (await_ready-Settles rid repo listed) [ inl h ↦ inl h | inr h ↦ inr (inl h) ])

    point-SettlesFrom : (b : Bool) → SettlesFrom old (point clients config rid repo b).actions
    unfolding SettlesFrom point
    point-SettlesFrom false = inl (served-failed old rid "gpu_provision_failed")
    point-SettlesFrom true = applying-SettlesFrom (clients.model_set repo) refl

    install-SettlesFrom : SettlesFrom old (install clients config rid repo).actions
    unfolding SettlesFrom install applied served string_eq
    install-SettlesFrom = elim (Bool-cases (clients.report_sent "installing")) [
      | inr lost ↦ rw (lost, install) (inl (refl, refl))
      | inl sent ↦ rw (sent, install) (point-SettlesFrom clients.scale_done)
    ]

    install-Settles : Settles (install clients config rid repo).actions
    unfolding SettlesFrom
    install-Settles = elim install-SettlesFrom [ inl h ↦ inl h | inr h ↦ inr (repo, listed, h) ]

  process-Settles :
      (rid : Json) (repo : Option String) → Settles (process clients config rid repo).actions
  unfolding process
  process-Settles rid none = failed-Settles rid "repo_invalid"
  process-Settles rid (some repo) = elim (Bool-cases (is_repo_id repo)) [
    | inr bad ↦ rw bad (failed-Settles rid "repo_invalid")
    | inl shape ↦ elim (Bool-cases (is_repo_allowed config.allowlist repo)) [
      | inr denied ↦ rw (shape, denied) (failed-Settles rid "repo_not_allowed")
      | inl listed ↦ rw (shape, listed) (install-Settles rid repo listed)
    ]
  ]

  -- Where the model that was served can be read and set again, a round of the installer ends with
  -- that model served and nothing reported as applied, or with an allowed repository served, on a
  -- cluster that became ready, and reported as applied if that report goes through. The only other
  -- end is that setting an allowed repository raised when it had patched the ConfigMap already:
  -- then the ConfigMap names that repository, and nothing is reported as applied.
  pub run_once-Settles : Settles (run_once clients config).actions
  unfolding run_once applied served
  run_once-Settles = elim (Bool-cases config.enabled) [
    | inr off ↦ rw (off, run_once) (inl (refl, refl))
    | inl on ↦ elim (Option-cases clients.pending) [
      | inl e ↦ rw (on, e, run_once) (inl (refl, refl))
      | inr ([], e) ↦ rw (on, e, run_once) (inl (refl, refl))
      | inr (d ∷ rest, e) ↦ elim (Bool-cases (has "id" d)) [
        | inr no_id ↦ rw (on, e, run_once, no_id) (inl (refl, refl))
        | inl id ↦ elim (Bool-cases (has "hf_repo_id" d)) [
          | inr no_repo ↦ rw (on, e, run_once, id, no_repo) (inl (refl, refl))
          | inl named ↦
              rw (on, e, run_once, id, named)
                (process-Settles (get "id" d) (as_str (get "hf_repo_id" d)))
        ]
      ]
    ]
  ]
