-- ===== src/Cable/Post.antt =====
-- cable/src/post.rs: the types of posts. The encoding is in the modules below.
pub mod New
pub mod Encode
pub mod Decode
pub mod Sign
use cable_rs.Base.{ℕ, List, Option, none, some}
use cable_rs.Cable.Types.{Channel, Hash, PublicKey, Text, Timestamp, Topic, UserInfo}
use cable_rs.Cable.Constants

pub record PostHeader : Type 0 where
  pub public_key : PublicKey
  pub signature : List ℕ
  pub links : List Hash
  pub post_type : ℕ
  pub timestamp : Timestamp

pub data PostBody : Type 0 where
  text : Channel → Text → PostBody
  delete : List Hash → PostBody
  info : List UserInfo → PostBody
  topic : Channel → Topic → PostBody
  join : Channel → PostBody
  leave : Channel → PostBody
  unrecognized : ℕ → PostBody

pub record Post : Type 0 where
  pub header : PostHeader
  pub body : PostBody

abbrev pub body_channel : PostBody → Option Channel
body_channel (text channel _) = some channel
body_channel (delete _) = none
body_channel (info _) = none
body_channel (topic channel _) = some channel
body_channel (join channel) = some channel
body_channel (leave channel) = some channel
body_channel (unrecognized _) = none

unfoldable pub get_channel : Post → Option Channel
get_channel p = body_channel p.body

abbrev pub get_public_key : Post → PublicKey
get_public_key p = p.header.public_key

abbrev pub get_timestamp : Post → Timestamp
get_timestamp p = p.header.timestamp

-- `Post::post_type`, from the body and not from the header's field.
abbrev pub body_type : PostBody → ℕ
body_type (text _ _) = Constants.text_post
body_type (delete _) = Constants.delete_post
body_type (info _) = Constants.info_post
body_type (topic _ _) = Constants.topic_post
body_type (join _) = Constants.join_post
body_type (leave _) = Constants.leave_post
body_type (unrecognized post_type) = post_type
