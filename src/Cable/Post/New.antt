-- ===== src/Cable/Post/New.antt =====
-- The constructors of unsigned posts (`Post::text` to `Post::leave`).
use cable_rs.Base.{ℕ, List, replicate}
use cable_rs.Cable.Constants
use cable_rs.Cable.Post.{PostHeader, PostBody, Post}
use cable_rs.Cable.Types.{Channel, Hash, PublicKey, Text, Timestamp, Topic, UserInfo}

module _ (public_key : PublicKey) (links : List Hash) (timestamp : Timestamp) where
  -- A header with the signature `[0; 64]`.
  abbrev unsigned : ℕ → PostHeader
  unsigned post_type = record {
    public_key = public_key;
    signature = replicate 64 0;
    links = links;
    post_type = post_type;
    timestamp = timestamp;
  }

  unfoldable pub text : Channel → Text → Post
  text c t = record { header = unsigned Constants.text_post; body = PostBody.text c t }

  unfoldable pub delete : List Hash → Post
  delete hashes = record { header = unsigned Constants.delete_post; body = PostBody.delete hashes }

  unfoldable pub info : List UserInfo → Post
  info i = record { header = unsigned Constants.info_post; body = PostBody.info i }

  unfoldable pub topic : Channel → Topic → Post
  topic c t = record { header = unsigned Constants.topic_post; body = PostBody.topic c t }

  unfoldable pub join : Channel → Post
  join c = record { header = unsigned Constants.join_post; body = PostBody.join c }

  unfoldable pub leave : Channel → Post
  leave c = record { header = unsigned Constants.leave_post; body = PostBody.leave c }
