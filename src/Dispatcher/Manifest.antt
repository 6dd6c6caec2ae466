-- ===== src/Dispatcher/Manifest.antt =====
-- `build_job_manifest` of app/dispatcher/jobspec.py
use private_ai_workspace_eks.Prelude.{ℕ, String, true, false, [], ◌∷◌, string_eq}
use private_ai_workspace_eks.Json.{Json, pos, Fields, Python, bool, int, str, arr, obj, dict, items}
use private_ai_workspace_eks.Dispatcher.Names.{job_name, safe_label}

pub record JobSpec : Type 0 where
  pub run_id : String
  pub tenant_id : String
  pub tool : String
  pub arguments : Fields
  pub image : String
  pub namespace : String
  pub runner_service_account : String
  pub cpu_limit : String
  pub memory_limit : String
  pub deadline_seconds : ℕ
  pub ttl_seconds : ℕ
  pub workspace_size : String

abbrev seccomp : Json
seccomp = dict (("type", str "RuntimeDefault") ∷ [])

abbrev env : String → String → Json
env name value = dict (("name", str name) ∷ ("value", str value) ∷ [])

abbrev mount : String → String → Json
mount name path = dict (("name", str name) ∷ ("mountPath", str path) ∷ [])

abbrev scratch : String → String → Json
scratch name limit =
    dict (("name", str name) ∷ ("emptyDir", dict (("sizeLimit", str limit) ∷ [])) ∷ [])

module _ ⦃py : Python⦄ (j : JobSpec) where
  abbrev payload : String
  payload = py.dumps (dict (("tool", str j.tool) ∷ ("arguments", obj j.arguments) ∷ []))

  abbrev labels : Json
  labels = dict (
      ("app.kubernetes.io/name", str "agent-tool-runner")
      ∷ ("app.kubernetes.io/managed-by", str "tool-runner-dispatcher")
      ∷ ("agent-tools/tenant", str (safe_label j.tenant_id))
      ∷ ("agent-tools/run-id", str (safe_label j.run_id))
      ∷ ("agent-tools/tool", str (safe_label j.tool))
      ∷ [])

  unfoldable pub container : Json
  container = dict (
      ("name", str "runner")
      ∷ ("image", str j.image)
      ∷ ("command", arr (items (str "python3" ∷ str "-m" ∷ str "app.sandbox.runner" ∷ [])))
      ∷ (
        "env",
        arr (
            items (
              env "AGENT_TOOL_INPUT" payload
              ∷ env "PYTHONDONTWRITEBYTECODE" "1"
              ∷ env "PYTHONHASHSEED" "0"
              ∷ env "HOME" "/work"
              ∷ env "TMPDIR" "/tmp"
              ∷ [])),
      )
      ∷ (
        "securityContext",
        dict (
            ("allowPrivilegeEscalation", bool false)
            ∷ ("readOnlyRootFilesystem", bool true)
            ∷ ("runAsNonRoot", bool true)
            ∷ ("runAsUser", int (pos 1000))
            ∷ ("capabilities", dict (("drop", arr (items (str "ALL" ∷ []))) ∷ []))
            ∷ ("seccompProfile", seccomp)
            ∷ []),
      )
      ∷ (
        "resources",
        dict (
            ("requests", dict (("cpu", str "50m") ∷ ("memory", str "64Mi") ∷ []))
            ∷ ("limits", dict (("cpu", str j.cpu_limit) ∷ ("memory", str j.memory_limit) ∷ []))
            ∷ []),
      )
      ∷ ("volumeMounts", arr (items (mount "workspace" "/work" ∷ mount "tmp" "/tmp" ∷ [])))
      ∷ [])

  abbrev pod_spec : Json
  pod_spec = dict (
      ("restartPolicy", str "Never")
      ∷ ("serviceAccountName", str j.runner_service_account)
      ∷ ("automountServiceAccountToken", bool false)
      ∷ ("nodeSelector", dict (("kubernetes.io/os", str "linux") ∷ []))
      ∷ (
        "securityContext",
        dict (
            ("runAsNonRoot", bool true)
            ∷ ("runAsUser", int (pos 1000))
            ∷ ("fsGroup", int (pos 1000))
            ∷ ("seccompProfile", seccomp)
            ∷ []),
      )
      ∷ ("containers", arr (items (container ∷ [])))
      ∷ ("volumes", arr (items (scratch "workspace" j.workspace_size ∷ scratch "tmp" "16Mi" ∷ [])))
      ∷ [])

  unfoldable pub build_job_manifest : Json
  unfolding container
  build_job_manifest = dict (
      ("apiVersion", str "batch/v1")
      ∷ ("kind", str "Job")
      ∷ (
        "metadata",
        dict (
            ("name", str (job_name j.run_id))
            ∷ ("namespace", str j.namespace)
            ∷ ("labels", labels)
            ∷ []),
      )
      ∷ (
        "spec",
        dict (
            ("backoffLimit", int (pos 0))
            ∷ ("activeDeadlineSeconds", int (pos j.deadline_seconds))
            ∷ ("ttlSecondsAfterFinished", int (pos j.ttl_seconds))
            ∷ (
              "template",
              dict (("metadata", dict (("labels", labels) ∷ [])) ∷ ("spec", pod_spec) ∷ []),
            )
            ∷ []),
      )
      ∷ [])
