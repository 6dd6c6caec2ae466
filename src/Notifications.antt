-- ===== src/Notifications.antt =====
-- app/control_plane/notifications.py: the events, the classes that are allowed, and the store for
-- one process. Times are in whole units since an epoch; an event has been read if `read_at` is set.
pub mod Store
pub mod Histories
pub mod Bounds
pub mod Reads
pub mod Handlers
pub mod Emit
use private_ai_workspace_eks.Prelude.{
  ℕ, String, Bool, true, false, Option, none, some, List, [], ◌∷◌, not, is_some,
}
use private_ai_workspace_eks.Json.{Json, Python, null, bool, str, dict}

-- `ALLOWED_EVENT_CLASSES`
unfoldable pub allowed_event_classes : List String
allowed_event_classes =
    "indexing_complete" ∷ "agent_task_done" ∷ "agent_task_progress" ∷ "agent_task_completed"
    ∷ "agent_task_failed" ∷ "media_generation_complete" ∷ "media_task_completed"
    ∷ "media_task_failed" ∷ "model_install_requested" ∷ "model_install_updated" ∷ "system_notice"
    ∷ []

abbrev pub max_resource_id_len : ℕ
max_resource_id_len = 256

abbrev pub max_notifications_per_user : ℕ
max_notifications_per_user = 200

pub record NotificationEvent : Type 0 where
  pub id : String
  pub tenant_id : String
  pub user_id : String
  pub event_class : String
  pub resource_id : String
  pub created_at : ℕ
  pub read_at : Option ℕ

-- `(tenant_id, user_id)`
abbrev pub Owner : Type 0
Owner = String × String

abbrev pub owner : NotificationEvent → Owner
owner e = (e.tenant_id, e.user_id)

-- `e.read_at is None`
abbrev pub is_unread : NotificationEvent → Bool
is_unread e = not (is_some e.read_at)

abbrev opt_time : ⦃py : Python⦄ → Option ℕ → Json
opt_time none = null
opt_time ⦃py⦄ (some t) = str (py.isoformat t)

unfoldable pub to_api_dict : ⦃py : Python⦄ → NotificationEvent → Json
to_api_dict ⦃py⦄ e = dict (
    ("id", str e.id)
    ∷ ("event_class", str e.event_class)
    ∷ ("resource_id", str e.resource_id)
    ∷ ("created_at", str (py.isoformat e.created_at))
    ∷ ("read_at", opt_time e.read_at)
    ∷ ("read", bool (is_some e.read_at))
    ∷ [])
