-- ===== src/Cable/Post/Decode.antt =====
-- `FromBytes` for `Post`.
pub mod Valid
pub mod RoundTrip
pub mod Sound
pub mod AnyInput
use cable_rs.Base.{
  none, some, ℕ, zero, suc, ◌+◌, List, [], ◌∷◌, length, nat_beq, ltb, if◌then◌else◌,
}
use cable_rs.Base.Equality.{list_beq}
use cable_rs.Cable.Constants
use cable_rs.Cable.Error
use cable_rs.Cable.Error.{Outcome, ok, err, stuck, raise, message_empty, varint_src_insufficient}
use cable_rs.Cable.Fields.{get_sized, get_counted_hashes}
use cable_rs.Cable.Post.{PostBody, Post, text, delete, info, topic, join, leave, unrecognized}
use cable_rs.Cable.Reader.{
  Reader, Cursor, pure, lift, get_varint, get_slice, get_string, ◌>>=◌, ◌>>◌,
}
use cable_rs.Cable.Types.{Channel, UserInfo}
use cable_rs.Cable.Validation.{validate_channel, validate_text, validate_topic, user_name, name_key}
use cable_rs.Cable.Desert.{Desert}

-- `UserInfo::name` for the key "name", which checks the value, and `UserInfo::new` for any other.
unfoldable pub key_val : List ℕ → List ℕ → Outcome UserInfo
unfolding list_beq user_name
key_val key val =
    if list_beq key name_key then user_name val else ok (record { key = key; val = val })

module _ (v : Desert) where
  -- A channel name, with its validation.
  unfoldable pub get_channel_name : Reader Channel
  get_channel_name = do c ← get_sized v; lift (validate_channel c); pure c

  unfoldable pub read_text : Reader PostBody
  read_text = do c ← get_channel_name; t ← get_sized v; lift (validate_text t); pure (text c t)

  unfoldable pub read_delete : Reader PostBody
  read_delete = do hashes ← get_counted_hashes v; pure (delete hashes)

  -- One pair, its key length read already.
  unfoldable pub read_pair : ℕ → Reader UserInfo
  read_pair key_len = do key ← get_string key_len; val ← get_sized v; lift (key_val key val)

  -- The loop over the key-value pairs, which ends at a key of length 0.
  unfoldable pub read_infos : ℕ → Reader (List UserInfo)
  read_infos zero = λ _. stuck
  read_infos (suc fuel) = do
    key_len ← get_varint v
    if nat_beq key_len 0
        then pure []
        else do u ← read_pair key_len; rest ← read_infos fuel; pure (u ∷ rest)

  -- Each round of the loop reads a byte at least.
  unfoldable pub read_info : Reader PostBody
  read_info c = ◌>>=◌ (read_infos (suc (length c.rest))) (λ i. pure (info i)) c

  unfoldable pub read_topic : Reader PostBody
  read_topic = do c ← get_channel_name; t ← get_sized v; lift (validate_topic t); pure (topic c t)

  unfoldable pub read_join : Reader PostBody
  read_join = do c ← get_channel_name; pure (join c)

  unfoldable pub read_leave : Reader PostBody
  read_leave = do c ← get_channel_name; pure (leave c)

  unfoldable pub read_body : ℕ → Reader PostBody
  read_body post_type =
      if nat_beq post_type Constants.text_post
      then read_text
      else if nat_beq post_type Constants.delete_post
      then read_delete
      else if nat_beq post_type Constants.info_post
      then read_info
      else if nat_beq post_type Constants.topic_post
      then read_topic
      else if nat_beq post_type Constants.join_post
      then read_join
      else if nat_beq post_type Constants.leave_post
      then read_leave
      else pure (unrecognized post_type)

  unfoldable pub read_post : Reader Post
  read_post = do
    public_key ← get_slice 32
    signature ← get_slice 64
    links ← get_counted_hashes v
    post_type ← get_varint v
    timestamp ← get_varint v
    body ← read_body post_type
    pure (record {
      header = record {
        public_key = public_key;
        signature = signature;
        links = links;
        post_type = post_type;
        timestamp = timestamp;
      };
      body = body;
    })

  -- The number of bytes read, and the post.
  unfoldable pub from_bytes : List ℕ → Outcome (ℕ × Post)
  from_bytes buf =
      Error.◌>>=◌ (read_post (record { offset = 0; rest = buf })) (λ r. ok (r.1.offset, r.0))

  unfoldable pub count_from_bytes : List ℕ → Outcome ℕ
  count_from_bytes [] = raise message_empty
  count_from_bytes (b ∷ bs) = elim (v.decode (b ∷ bs)) [
    | none ↦ err varint_src_insufficient
    | some (sum, post_len) ↦ ok (sum + post_len)
  ]
