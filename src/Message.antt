-- ===== src/Message.antt =====
-- crates/agentive/src/message.rs: canonical conversation messages and compiled instructions.
pub mod Types
pub mod Xml
pub mod Images
use agentive.Base.{Text, List, [], ◌∷◌, Option, none, some, Bool, true, false, any}
use agentive.Ids.{ToolName}
use agentive.Json.{Json}
use Types.{Message, MessageRole, MessageContent, ToolCall, ImageSource}

module _ {V : Type 0} where
  -- `Message::system`
  unfoldable pub system : Text → Message V
  system text = record {
    role = MessageRole.system;
    content = MessageContent.text text ∷ [];
    tool_calls = none;
    tool_call_id = none;
    name = none;
  }

  -- `Message::user`
  unfoldable pub user : Text → Message V
  user text = record {
    role = MessageRole.user;
    content = MessageContent.text text ∷ [];
    tool_calls = none;
    tool_call_id = none;
    name = none;
  }

  -- `Message::assistant_text`
  unfoldable pub assistant_text : Text → Message V
  assistant_text text = record {
    role = MessageRole.assistant;
    content = MessageContent.text text ∷ [];
    tool_calls = none;
    tool_call_id = none;
    name = none;
  }

  -- `Message::assistant_tool_calls`
  unfoldable pub assistant_tool_calls : List (ToolCall V) → Message V
  assistant_tool_calls tool_calls = record {
    role = MessageRole.assistant;
    content = [];
    tool_calls = some tool_calls;
    tool_call_id = none;
    name = none;
  }

  -- `Message::tool_result`
  unfoldable pub tool_result : Json V → Text → ToolName → V → Message V
  tool_result j tool_call_id name content = record {
    role = MessageRole.tool;
    content = MessageContent.text (j.to_string content) ∷ [];
    tool_calls = none;
    tool_call_id = some tool_call_id;
    name = some name;
  }

abbrev is_inline_image : MessageContent → Bool
is_inline_image (MessageContent.image (ImageSource.inline bytes) media_type) = true
is_inline_image _ = false

abbrev is_url_image : MessageContent → Bool
is_url_image (MessageContent.image (ImageSource.url address) media_type) = true
is_url_image _ = false

unfoldable pub has_inline_image : {V : Type 0} → Message V → Bool
has_inline_image m = any is_inline_image m.content

unfoldable pub has_url_image : {V : Type 0} → Message V → Bool
has_url_image m = any is_url_image m.content
