-- ===== src/Conversations.antt =====
-- app/control_plane/conversations.py: the chat threads of each user, in the store for one process.
-- The clock and the fresh ids are arguments.
pub mod Handlers
pub mod Requests
pub mod Isolation
pub mod Bounds
use private_ai_workspace_eks.Prelude.{
  ℕ, String, Bool, true, false, Option, none, some, List, [], ◌∷◌, ◌++◌, ◌&&◌, ◌==◌, string_eq,
  pair_eq, if◌then◌else◌, ltb, leb, length, take, drop, map, select,
}
use private_ai_workspace_eks.Prelude.Dict
use private_ai_workspace_eks.Prelude.Dict.{Dict}
use private_ai_workspace_eks.Prelude.Text.{is_empty, strip, slice_to}
use private_ai_workspace_eks.Json.{Json, Python, str, arr, dict, items}
use private_ai_workspace_eks.Notifications.{Owner}
use private_ai_workspace_eks.Ranking.{sort_desc}

abbrev pub max_title_len : ℕ
max_title_len = 200

abbrev pub max_content_len : ℕ
max_content_len = 100000

abbrev pub max_messages_per_conversation : ℕ
max_messages_per_conversation = 2000

-- `_VALID_ROLES`
unfoldable pub valid_roles : List String
valid_roles = "user" ∷ "assistant" ∷ "system" ∷ []

pub record Message : Type 0 where
  pub id : String
  pub role : String
  pub content : String
  pub created_at : ℕ

-- The messages stand beside the conversation, in its entry.
pub record Conversation : Type 0 where
  pub id : String
  pub tenant_id : String
  pub user_id : String
  pub title : String
  pub created_at : ℕ
  pub updated_at : ℕ

abbrev pub Entry : Type 0
Entry = Conversation × List Message

abbrev pub owner : Conversation → Owner
owner c = (c.tenant_id, c.user_id)

module _ ⦃py : Python⦄ where
  abbrev summary_fields : Conversation → List (String × Json)
  summary_fields c =
      ("id", str c.id)
      ∷ ("title", str c.title)
      ∷ ("created_at", str (py.isoformat c.created_at))
      ∷ ("updated_at", str (py.isoformat c.updated_at))
      ∷ []

  unfoldable pub summary : Conversation → Json
  summary c = dict (summary_fields c)

  abbrev message_dict : Message → Json
  message_dict m = dict (
      ("id", str m.id)
      ∷ ("role", str m.role)
      ∷ ("content", str m.content)
      ∷ ("created_at", str (py.isoformat m.created_at))
      ∷ [])

  unfoldable pub detail : Entry → Json
  detail (c, messages) =
      dict (summary_fields c ++ (("messages", arr (items (map message_dict messages))) ∷ []))

-- `self._convs`
abbrev pub Store : Type 0
Store = Dict String Entry

unfoldable pub create : Owner → String → String → ℕ → Store → Store × Conversation
create (tenant, user) id title now s =
    let c : Conversation = record {
      id = id;
      tenant_id = tenant;
      user_id = user;
      title = slice_to max_title_len title;
      created_at = now;
      updated_at = now;
    } in
    (Dict.insert id (c, []) s, c)

abbrev pub owned_by : Owner → Option Entry → Option Entry
owned_by key none = none
owned_by key (some (c, messages)) = if owner c == key then some (c, messages) else none

-- `_owned`
unfoldable pub owned : String → Owner → Store → Option Entry
owned id key s = owned_by key (Dict.lookup id s)

abbrev conversations : Store → List Conversation
conversations [] = []
conversations ((id, (c, messages)) ∷ s) = c ∷ conversations s

unfoldable pub list_for_user : Owner → ℕ → Store → List Conversation
list_for_user key limit s =
    take limit (sort_desc ltb (λ c. c.updated_at) (select (λ c. owner c == key) (conversations s)))

-- `get` builds a new conversation from the entry.
unfoldable pub get : Owner → String → Store → Option Entry
get key id s = owned id key s

abbrev removal : String → Option Entry → Store → Store × Bool
removal id none s = (s, false)
removal id (some e) s = (Dict.erase id s, true)

unfoldable pub delete : Owner → String → Store → Store × Bool
delete key id s = removal id (owned id key s) s

-- `s or t`
abbrev or_else : String → String → String
or_else s t = if is_empty s then t else s

-- The first user message seeds the title.
unfoldable pub retitled : String → String → String → String
retitled title role content =
    if title == "New conversation" && role == "user"
    then or_else (strip (slice_to max_title_len content)) title
    else title

-- A full conversation drops its oldest message.
unfoldable pub push : Message → List Message → List Message
push m messages =
    (if leb max_messages_per_conversation (length messages) then drop 1 messages else messages)
    ++ (m ∷ [])

unfoldable pub appended : Message → String → Entry → Entry
unfolding push retitled
appended m content (c, messages) = (
  record c { title = retitled c.title m.role content; updated_at = m.created_at },
  push m messages,
)

abbrev pub addition : String → Message → String → Option Entry → Store → Store × Option Message
addition id m content none s = (s, none)
addition id m content (some e) s = (Dict.insert id (appended m content e) s, some m)

-- `append`, with the id of the message.
unfoldable pub append :
    Owner → String → String → String → String → ℕ → Store → Store × Option Message
append key id role content message_id now s =
    addition id
      (record {
        id = message_id;
        role = role;
        content = slice_to max_content_len content;
        created_at = now;
      })
      content (owned id key s) s
