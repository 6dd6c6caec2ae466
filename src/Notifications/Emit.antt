-- ===== src/Notifications/Emit.antt =====
-- The producers of events: `_emit`, `_notify` and `_maybe_notify` of the other modules. There may
-- be no store, and only allowed classes are published.
use private_ai_workspace_eks.Prelude.{
  ℕ, String, Option, none, some, contains, string_eq, if◌then◌else◌,
}
use private_ai_workspace_eks.Notifications.{NotificationEvent, allowed_event_classes}
use private_ai_workspace_eks.Notifications.Store.{Store, publish}

abbrev pub Feed : Type 0
Feed = Option Store

unfoldable pub emit : NotificationEvent → Feed → Feed
unfolding allowed_event_classes
emit e none = none
emit e (some s) =
    if contains allowed_event_classes e.event_class then some (publish e s) else some s

-- A new event of the caller.
abbrev pub event : String → String × String → String → String → ℕ → NotificationEvent
event id (tenant, user) event_class resource_id now = record {
  id = id;
  tenant_id = tenant;
  user_id = user;
  event_class = event_class;
  resource_id = resource_id;
  created_at = now;
  read_at = none;
}
