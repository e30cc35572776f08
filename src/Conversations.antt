-- ===== src/Conversations.antt =====
-- The history of conversations: dgx-portal-frontend/lib/conversations.ts. `Date.parse` is a
-- parameter, none where it is not a number, and so is the reading of a value as a conversation;
-- what `fetch` and the local storage give are arguments.
mod Tests
pub mod Saved
use dgx_spark_llm_platform.Base.{
  ℕ, suc, ◌-◌, ◌*◌, ◌/◌, Bool, true, false, not, ◌&&◌, ◌||◌, List, [], ◌∷◌, ◌++◌, Option, none,
  some, map, ltb, ◌==◌, if◌then◌else◌,
}
use dgx_spark_llm_platform.Base.Text.{Text, codes}
use dgx_spark_llm_platform.Decisions.Value.{
  Json, truth, array, object, Items, no_item, item, no_field, field, get_field,
}
use dgx_spark_llm_platform.Messages.{ChatMsg}
use dgx_spark_llm_platform.Http.{
  Response, is_ok, Outcome, done, thrown, auth_fetch, get_json, says_no, post_form_checked,
}

pub record ApiConversation : Type 0 where
  pub id : Text
  pub title : Text
  pub model : Text
  pub ts : Text
  pub messages : List ChatMsg
  pub omitted_messages : Option Bool

pub record Conversation : Type 0 where
  pub id : Text
  pub title : Text
  pub ts : ℕ
  pub model : Text
  pub messages : List ChatMsg
  -- None where the field is missing.
  pub omitted_messages : Option Bool

-- `Date.parse(c.ts) || Date.now()`
unfoldable pub time_or_now : ℕ → Option ℕ → ℕ
time_or_now now none = now
time_or_now now (some t) = if t == 0 then now else t

-- `omitted_messages === true`
unfoldable pub is_omitted : Option Bool → Bool
is_omitted (some b) = b
is_omitted none = false

module _ (date_parse : Text → Option ℕ) (now : ℕ) where
  unfoldable pub conversations_from_api : List ApiConversation → List Conversation
  unfolding time_or_now is_omitted
  conversations_from_api [] = []
  conversations_from_api (c ∷ cs) =
      record {
        id = c.id;
        title = c.title;
        ts = time_or_now now (date_parse c.ts);
        model = c.model;
        messages = c.messages;
        omitted_messages = some (is_omitted c.omitted_messages);
      }
      ∷ conversations_from_api cs

  -- The value as a list of conversations: none where its reading throws.
  unfoldable pub listed : Option (List ApiConversation) → List Conversation
  unfolding conversations_from_api
  listed none = []
  listed (some cs) = conversations_from_api cs

  unfoldable pub fetch_conversations :
      (Json → Option (List ApiConversation)) → Option Response → List Conversation
  unfolding get_json listed
  fetch_conversations read answer = elim (get_json (codes "/api/conversations") answer) [
    | thrown why ↦ []
    | done v ↦ listed (read v)
  ]

  unfoldable pub opened : Option ApiConversation → Option Conversation
  unfolding time_or_now
  opened none = none
  opened (some c) = some (record {
    id = c.id;
    title = c.title;
    ts = time_or_now now (date_parse c.ts);
    model = c.model;
    messages = c.messages;
    omitted_messages = none;
  })

  -- `fetchConversation`, of the address with its encoded identifier.
  unfoldable pub fetch_conversation :
      (Json → Option ApiConversation) → Text → Option Response → Option Conversation
  unfolding get_json opened
  fetch_conversation read url answer = elim (get_json url answer) [
    | thrown why ↦ none
    | done v ↦ opened (read v)
  ]

-- `.catch(() => ({ ok: true }))`
unfoldable pub or_accepted : Option Json → Json
or_accepted none = object (field (codes "ok") (truth true) no_field)
or_accepted (some v) = v

-- `persistConversation`, of what the server answers.
unfoldable pub persist_conversation : Option Response → Bool
unfolding auth_fetch says_no or_accepted
persist_conversation answer = elim (auth_fetch answer) [
  | thrown why ↦ false
  | done res ↦ if not (is_ok res) then false else not (says_no (some (or_accepted res.body)))
]

-- `removeConversation`
unfoldable pub remove_conversation : Option Response → Bool
unfolding post_form_checked
remove_conversation answer = (post_form_checked answer).ok

-- What `migrateLegacyConversations` does, in order.
pub data Effect : Type 0 where
  save : Json → Effect
  clear_local : Effect

-- `conv && Array.isArray(conv.messages) && conv.messages.length`
unfoldable pub has_messages : Json → Bool
unfolding get_field
has_messages (object fields) = is_filled (get_field (codes "messages") fields)
  where
    is_filled : Option Json → Bool
    is_filled (some (array (item v items))) = true
    is_filled v = false
has_messages v = false

unfoldable pub save_each : Items → List Effect
unfolding has_messages
save_each no_item = []
save_each (item conv convs) =
    let rest = save_each convs in if has_messages conv then save conv ∷ rest else rest

-- `migrateLegacyConversations`: what it returns and its effects, from the stored text as
-- `JSON.parse` reads it, none where that throws. The outcome of a save is not looked at.
unfoldable pub migrate_legacy : Bool → Option Json → Bool × List Effect
unfolding save_each
migrate_legacy false stored = (false, [])
migrate_legacy true (some (array (item conv convs))) =
    (true, save_each (item conv convs) ++ clear_local ∷ [])
migrate_legacy true stored = (false, [])

-- What `relativeTime` shows.
pub data Ago : Type 0 where
  just_now : Ago
  minutes : ℕ → Ago
  hours : ℕ → Ago
  days : ℕ → Ago

-- From a time to another, in milliseconds; a time to come is just now.
unfoldable pub relative_time : ℕ → ℕ → Ago
relative_time now ts =
    let s = (now - ts) / 1000 in
    if ltb s 60
    then just_now
    else if ltb s 3600
    then minutes (s / 60)
    else if ltb s 86400
    then hours (s / 3600)
    else days (s / 86400)
