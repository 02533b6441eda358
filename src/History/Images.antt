-- ===== src/History/Images.antt =====
-- crates/agentive/src/message.rs and run/validation.rs: image messages in a history.
use agentive.Base.{
  Text, codes, text_eq_iff, ◌≡◌, refl, sym, subst, ◌⊎◌, ◌↔◌, true, false, [], ◌∷◌, Option, none,
  some, ok, bind-eq-ok, arith,
}
use agentive.Json.{Json}
use agentive.Message.Types.{ImageMediaType, ImageSource, Message, MessageContent}
use agentive.Message.Images.{
  Url, parse_image_url, parse_media_type, media_type_text, image_message, image_url,
}
use agentive.History.{accept_message, validate_message_shape}

parsed_media :
    (text : Text) (media : ImageMediaType)
    → parse_media_type text ≡ ok media
    → text ≡ media_type_text media
unfolding parse_media_type media_type_text
parsed_media text media h = ground (
  arith,
  text_eq_iff text (codes "image/png"),
  text_eq_iff text (codes "image/jpeg"),
  text_eq_iff text (codes "image/gif"),
  text_eq_iff text (codes "image/webp"),
)

printed_media : (media : ImageMediaType) → parse_media_type (media_type_text media) ≡ ok media
unfolding parse_media_type media_type_text
printed_media ImageMediaType.png = refl
printed_media ImageMediaType.jpeg = refl
printed_media ImageMediaType.gif = refl
printed_media ImageMediaType.webp = refl

-- A media type is parsed from its own text and from no other one.
pub media_type_round_trip :
    (text : Text) (media : ImageMediaType)
    → (parse_media_type text ≡ ok media) ↔ (text ≡ media_type_text media)
media_type_round_trip text media = (
  parsed_media text media,
  λ e. subst (λ t. parse_media_type t ≡ ok media) (sym e) (printed_media media),
)

-- What `ImageUrl::parse` asks of a URL.
pub record IsRemote (parsed : Url) : Type 0 where
  pub scheme : (parsed.scheme ≡ codes "http") ⊎ (parsed.scheme ≡ codes "https")
  pub host : parsed.has_host ≡ true
  pub username : parsed.username ≡ []
  pub password : parsed.has_password ≡ false

parse_image_url-IsRemote :
    (parse : Text → Option Url) (url address : Text) (o : Option Url)
    → parse url ≡ o
    → parse_image_url parse url ≡ ok address
    → (parsed : Url) × (parse url ≡ some parsed) × IsRemote parsed × (address ≡ url)
unfolding parse_image_url
parse_image_url-IsRemote parse url address none e h = absurd (ground (arith, e, h))
parse_image_url-IsRemote parse url address (some parsed) e h = (
  parsed,
  e,
  record {
    scheme = ground (
      arith,
      e,
      h,
      text_eq_iff parsed.scheme (codes "http"),
      text_eq_iff parsed.scheme (codes "https"),
    );
    host = ground (arith, e, h);
    username = ground (arith, e, h);
    password = ground (arith, e, h);
  },
  ground (arith, e, h),
)

module _ {V : Type 0} (j : Json V) where
  image_accepted :
      (source : ImageSource) (media : ImageMediaType)
      → accept_message {V = V} j (image_message source media) [] ≡ ok []
  unfolding accept_message validate_message_shape image_message
  image_accepted source media = refl

  -- An image message of a URL has the media type that was given, its URL is HTTP or HTTPS with a
  -- host and no credentials, and a history may go on with it if no tool call is unresolved.
  pub image_url_accepted :
      (parse : Text → Option Url) (url media_type : Text) (m : Message V)
      → image_url parse url media_type ≡ ok m
      → (parsed : Url) × (media : ImageMediaType) × (parse url ≡ some parsed)
        × IsRemote parsed
        × (media_type ≡ media_type_text media)
        × (m.content ≡ MessageContent.image (ImageSource.url url) media ∷ [])
        × (accept_message j m [] ≡ ok [])
  unfolding image_url image_message
  image_url_accepted parse url media_type m h =
      let (address, e, more) = bind-eq-ok (parse_image_url parse url) _ h in
      let (media, g, made) = bind-eq-ok (parse_media_type media_type) _ more in
      let (parsed, p, remote, same) =
        parse_image_url-IsRemote parse url address (parse url) refl e in
      let shown : image_message (ImageSource.url address) media ≡ m = ground (arith, made) in
      (
        parsed,
        media,
        p,
        remote,
        parsed_media media_type media g,
        ground (arith, made, same),
        subst (λ x. accept_message j x [] ≡ ok []) shown
            (image_accepted (ImageSource.url address) media),
      )
