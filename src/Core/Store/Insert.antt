-- ===== src/Core/Store/Insert.antt =====
-- cable_core/src/store.rs: `insert_post`, by the type of the post.
use cable_rs.Base.{Option, List, [], ◌∷◌, none, some, if◌then◌else◌}
use cable_rs.Base.Equality.{◌==◌, bytes_eq}
use cable_rs.Cable.Crypto.{Crypto}
use cable_rs.Cable.Desert.{Desert}
use cable_rs.Cable.Error.{ok, err, panic, stuck}
use cable_rs.Cable.Post.{
  Post, PostBody, text, delete, info, topic, join, leave, unrecognized, get_channel, get_public_key,
  get_timestamp,
}
use cable_rs.Cable.Post.Decode.{from_bytes}
use cable_rs.Cable.Post.Encode.{to_bytes}
use cable_rs.Cable.Post.Sign.{hash}
use cable_rs.Cable.Types.{Channel, Hash, UserInfo}
use cable_rs.Cable.Validation.{name_key}
use cable_rs.Core.Step.{Step, ◌>>=◌, ◌>>◌, lift, modify}
use cable_rs.Core.Store.{
  MemoryStore, insert_channel, insert_channel_member, remove_channel_member,
  update_channel_membership_hashes, insert_ex_channel_member, remove_ex_channel_member,
  insert_channel_topic, insert_delete_hash, insert_info_hash, insert_peer_name,
}
use cable_rs.Core.Store.Posts.{
  update_posts, delete_post, get_post_payload, insert_post_payload, send_post_to_live_streams,
}

-- A post's channel becomes known.
abbrev pub know_channel : Option Channel → MemoryStore → MemoryStore
know_channel (some channel) s = insert_channel channel s
know_channel none s = s

module _ (v : Desert) (c : Crypto) where
  -- `self.insert_post_payload(&hash, post.to_bytes()?)`
  unfoldable pub store_payload : Post → Hash → Step MemoryStore Unit
  store_payload p h = do bytes ← lift (to_bytes v p); modify (insert_post_payload h bytes)

  -- One hash of a `post/delete` post `p` with the hash `h`.
  unfoldable pub delete_one : Post → Hash → Hash → Step MemoryStore Unit
  delete_one p h target s = elim (get_post_payload target s) [
    | none ↦ (ok tt, s)
    | some payload ↦ elim (from_bytes v payload) [
      | ok (_, stored) ↦
          if get_public_key p == get_public_key stored
          then (ok tt, insert_delete_hash (get_public_key p) h (delete_post target s))
          else (ok tt, s)
      | err e ↦ (err e, s)
      | panic ↦ (panic, s)
      | stuck ↦ (stuck, s)
    ]
  ]

  unfoldable pub delete_all : Post → Hash → List Hash → Step MemoryStore Unit
  delete_all p h [] = lift (ok tt)
  delete_all p h (target ∷ targets) = delete_one p h target >> delete_all p h targets

  -- The names among the key-value pairs of a `post/info` post.
  unfoldable pub insert_names : Post → Hash → List UserInfo → MemoryStore → MemoryStore
  insert_names p h [] s = s
  insert_names p h (u ∷ us) s = insert_names p h us (
      if u.key == name_key
      then insert_peer_name (get_public_key p) u.val (get_timestamp p) h s
      else s)

  unfoldable pub insert_body : Post → Hash → PostBody → Step MemoryStore Unit
  insert_body p h (text channel _) = do
    modify (update_posts p (some channel) (get_timestamp p) h)
    store_payload p h
    modify (send_post_to_live_streams p channel)
  insert_body p h (join channel) = do
    modify (update_channel_membership_hashes channel (get_public_key p) h)
    modify (insert_channel_member channel (get_public_key p))
    modify (remove_ex_channel_member channel (get_public_key p))
    store_payload p h
  insert_body p h (leave channel) = do
    modify (update_channel_membership_hashes channel (get_public_key p) h)
    modify (remove_channel_member channel (get_public_key p))
    modify (insert_ex_channel_member channel (get_public_key p))
    store_payload p h
  insert_body p h (topic channel t) = do
    modify (update_posts p (some channel) (get_timestamp p) h)
    modify (insert_channel_topic channel t (get_timestamp p) h)
    store_payload p h
    modify (send_post_to_live_streams p channel)
  insert_body p h (delete hashes) = do delete_all p h hashes; store_payload p h
  insert_body p h (info i) = do
    modify (update_posts p none (get_timestamp p) h)
    modify (insert_names p h i)
    modify (insert_info_hash (get_public_key p) h)
    store_payload p h
  insert_body p h (unrecognized _) = lift (ok tt)

  unfoldable pub insert_post : Post → Step MemoryStore Hash
  insert_post p = do
    h ← lift (hash v c p)
    insert_body p h p.body
    modify (know_channel (get_channel p))
    lift (ok h)
