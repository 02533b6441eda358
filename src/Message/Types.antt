-- ===== src/Message/Types.antt =====
-- crates/agentive/src/message.rs: the data of a conversation.
use agentive.Base.{Text, ℕ, List, Option}
use agentive.Ids.{ToolName}

-- A validated URL is the text that it wraps.
abbrev pub ImageUrl : Type 0
ImageUrl = Text

pub data ImageMediaType : Type 0 where
  png jpeg gif webp : ImageMediaType

pub data ImageSource : Type 0 where
  url : ImageUrl → ImageSource
  inline : List ℕ → ImageSource

pub data MessageRole : Type 0 where
  system user assistant tool : MessageRole

pub data MessageContent : Type 0 where
  text : Text → MessageContent
  image : ImageSource → ImageMediaType → MessageContent

pub record ToolCall (V : Type 0) : Type 0 where
  pub id : Text
  pub name : ToolName
  pub arguments : V

pub record Message (V : Type 0) : Type 0 where
  pub role : MessageRole
  pub content : List MessageContent
  pub tool_calls : Option (List (ToolCall V))
  pub tool_call_id : Option Text
  pub name : Option ToolName

pub record InstructionFragment : Type 0 where
  pub key : Text
  pub version : ℕ
  pub text : Text

pub record CompiledInstructions : Type 0 where
  pub core : InstructionFragment
  pub agent : Option Text
  pub run : Option Text
  pub features : List InstructionFragment
