-- ===== src/Message/Images.antt =====
-- crates/agentive/src/message.rs: image messages. The parser of the `url` crate is a parameter.
use agentive.Base.{
  Text, codes, text_eq, ℕ, Bool, not, ◌||◌, List, [], ◌∷◌, Option, none, is_empty, if◌then◌else◌,
  Result, ok, err, ◌>>=◌, ◌>>◌, ok_or, reject_if,
}
use agentive.Message.Types.{
  ImageUrl, ImageMediaType, ImageSource, Message, MessageRole, MessageContent,
}

pub data MessageError : Type 0 where
  invalid_image_url unsupported_image_media_type empty_inline_image : MessageError

-- What is read of a parsed `url::Url`.
pub record Url : Type 0 where
  pub scheme : Text
  pub has_host : Bool
  pub username : Text
  pub has_password : Bool

-- `ImageUrl::parse`
unfoldable pub parse_image_url : (Text → Option Url) → Text → Result MessageError ImageUrl
parse_image_url parse value = do
  parsed ← ok_or (parse value) invalid_image_url
  reject_if
      (not (text_eq parsed.scheme (codes "http") || text_eq parsed.scheme (codes "https"))
        || not parsed.has_host
        || not (is_empty parsed.username)
        || parsed.has_password)
      invalid_image_url
  ok value

-- `ImageMediaType::parse`
unfoldable pub parse_media_type : Text → Result MessageError ImageMediaType
parse_media_type value =
    if text_eq value (codes "image/png")
    then ok ImageMediaType.png
    else if text_eq value (codes "image/jpeg")
    then ok ImageMediaType.jpeg
    else if text_eq value (codes "image/gif")
    then ok ImageMediaType.gif
    else if text_eq value (codes "image/webp")
    then ok ImageMediaType.webp
    else err unsupported_image_media_type

-- `ImageMediaType::as_str`
unfoldable pub media_type_text : ImageMediaType → Text
media_type_text ImageMediaType.png = codes "image/png"
media_type_text ImageMediaType.jpeg = codes "image/jpeg"
media_type_text ImageMediaType.gif = codes "image/gif"
media_type_text ImageMediaType.webp = codes "image/webp"

-- `InlineImageBytes::new`
unfoldable pub inline_bytes : List ℕ → Result MessageError (List ℕ)
inline_bytes [] = err empty_inline_image
inline_bytes (b ∷ bytes) = ok (b ∷ bytes)

module _ {V : Type 0} where
  -- A user message of one image.
  unfoldable pub image_message : ImageSource → ImageMediaType → Message V
  image_message source media_type = record {
    role = MessageRole.user;
    content = MessageContent.image source media_type ∷ [];
    tool_calls = none;
    tool_call_id = none;
    name = none;
  }

  -- `Message::image_url`
  unfoldable pub image_url : (Text → Option Url) → Text → Text → Result MessageError (Message V)
  unfolding parse_image_url parse_media_type image_message
  image_url parse url media_type = do
    address ← parse_image_url parse url
    media ← parse_media_type media_type
    ok (image_message (ImageSource.url address) media)

  -- `Message::image_inline`
  unfoldable pub image_inline : List ℕ → Text → Result MessageError (Message V)
  unfolding inline_bytes parse_media_type image_message
  image_inline bytes media_type = do
    checked ← inline_bytes bytes
    media ← parse_media_type media_type
    ok (image_message (ImageSource.inline checked) media)
