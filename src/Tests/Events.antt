-- ===== src/Tests/Events.antt =====
-- Tests of Notifications.
use private_ai_workspace_eks.Prelude.{
  String, ◌≡◌, refl, true, false, none, some, List, [], ◌∷◌, string_eq, pair_eq, last_n,
}
use private_ai_workspace_eks.Prelude.Text.{split_word, span_word, strip, lstrip, rstrip, is_space}
use private_ai_workspace_eks.Json.{pos}
use private_ai_workspace_eks.Http.{pass}
use private_ai_workspace_eks.Auth.{verify_and_extract, bearer_token, owner_of}
use private_ai_workspace_eks.Notifications.{NotificationEvent, max_notifications_per_user}
use private_ai_workspace_eks.Notifications.Store.{empty, bucket, publish, list_for_user, mark_read}
use private_ai_workspace_eks.Notifications.Histories.{Write, publishing, marking, run, writes_of}
use private_ai_workspace_eks.Notifications.Bounds.{published, publish_all, bucket-publish_all}
use private_ai_workspace_eks.Notifications.Reads.{list_for_user-publish, Reports, mark_read-Reports}
use private_ai_workspace_eks.Notifications.Handlers.{list_response, publish_response}
use private_ai_workspace_eks.Notifications.Handlers.Laws.{
  Publishes, list_response-run, publish_response-Publishes,
}
use private_ai_workspace_eks.Tests.{python, alice, verify, publish_body}

abbrev notice : String → String → NotificationEvent
notice id user = record {
  id = id;
  tenant_id = "acme.com";
  user_id = user;
  event_class = "system_notice";
  resource_id = "r";
  created_at = 7;
  read_at = none;
}

abbrev notices : List NotificationEvent
notices = notice "1" "alice" ∷ notice "2" "bob" ∷ notice "3" "alice" ∷ []

abbrev writes : List Write
writes =
    publishing (notice "1" "alice")
    ∷ publishing (notice "2" "bob")
    ∷ marking ("acme.com", "bob") "2" 9
    ∷ []

bucket-publish_all_example :
    bucket ("acme.com", "alice") (publish_all notices empty)
    ≡ last_n max_notifications_per_user (published ("acme.com", "alice") notices)
bucket-publish_all_example = bucket-publish_all notices ("acme.com", "alice")

verify_and_extract-alice : verify_and_extract (some "Bearer tok") (some verify) ≡ pass alice
unfolding verify_and_extract bearer_token split_word span_word strip lstrip rstrip is_space
    string_eq
verify_and_extract-alice = refl

list_response-run_example :
    list_response (some "Bearer tok") (some verify) true (pos 50) (run writes empty)
    ≡ list_response
        (some "Bearer tok")
        (some verify)
        true
        (pos 50)
        (run (writes_of (owner_of alice) writes) empty)
list_response-run_example =
    list_response-run (some "Bearer tok") (some verify) alice true (pos 50) writes empty
      verify_and_extract-alice

publish_response-Publishes_example :
    Publishes
      (some "Bearer tok")
      (some verify)
      publish_body
      7
      "id"
      empty
      (publish_response (some "Bearer tok") (some verify) publish_body 7 "id" empty)
publish_response-Publishes_example =
    publish_response-Publishes (some "Bearer tok") (some verify) publish_body 7 "id" empty

mark_read-Reports_example :
    Reports
      ("acme.com", "bob")
      "2"
      9
      (publish_all notices empty)
      (mark_read ("acme.com", "bob") "2" 9 (publish_all notices empty))
mark_read-Reports_example = mark_read-Reports ("acme.com", "bob") "2" 9 (publish_all notices empty)

list_for_user-publish_example :
    (rest : List NotificationEvent) × (list_for_user
        ("acme.com", "bob")
        1
        false
        (publish (notice "4" "bob") (publish_all notices empty))
      ≡ notice "4" "bob" ∷ rest)
list_for_user-publish_example =
    list_for_user-publish (notice "4" "bob") 1 false (publish_all notices empty) refl
