-- ===== src/Core/Manager/Publish.antt =====
-- cable_core/src/manager.rs: the publication of posts (`post_text` to `post_leave`, `post`), and what
-- it sends to the peers with live requests (`send_post_hashes`).
use cable_rs.Base.{ℕ, Bool, List, [], ◌∷◌, none, some, if◌then◌else◌}
use cable_rs.Base.Equality.{◌==◌, bytes_eq}
use cable_rs.Cable.Constants
use cable_rs.Cable.Crypto.{Crypto}
use cable_rs.Cable.Desert.{Desert}
use cable_rs.Cable.Error.{Outcome, ok}
use cable_rs.Cable.Message.{Message}
use cable_rs.Cable.Message.New.{hash_response}
use cable_rs.Cable.Post.{Post, get_channel}
use cable_rs.Cable.Post as Post
use cable_rs.Cable.Post.New as New
use cable_rs.Cable.Post.Sign.{is_signed, sign}
use cable_rs.Cable.Types.{Channel, Hash, PublicKey, Text, Timestamp, Topic}
use cable_rs.Cable.Validation.{validate_channel, validate_text, validate_topic, user_name}
use cable_rs.Core.Manager.{
  CableManager, LiveRequest, PeerId, PeerRequestMap, channel_state, channel_time_range, get_links,
  get_public_key, get_secret_key, on_store, send, set_extend,
}
use cable_rs.Core.Manager.Hashes.{live_state_hashes, or_empty, range_hashes}
use cable_rs.Core.Step.{Step, ◌>>=◌, ◌>>◌, lift, modify, get}
use cable_rs.Core.Store.{get_channels, is_channel_member}
use cable_rs.Core.Store.Insert.{insert_post}

-- `now` is what the clock gives.
unfoldable pub post_header_values :
    Outcome Timestamp → Channel → Step CableManager (PublicKey × List Hash × Timestamp)
post_header_values now channel = do
  m ← get
  timestamp ← lift now
  lift (ok (get_public_key m, or_empty (get_links channel m), timestamp))

module _ (v : Desert) (c : Crypto) (accepts : PeerId → List Message → Bool) where
  -- Only where there is a hash.
  abbrev pub send_some : PeerId → List Hash → Message → Step CableManager Unit
  send_some p [] msg = lift (ok tt)
  send_some p (_ ∷ _) msg = send accepts p msg

  -- One live request.
  unfoldable pub answer_live : Channel → PeerId → LiveRequest → Step CableManager Unit
  answer_live channel p (channel_state req_id req_channel) =
      if req_channel == channel
      then (do
        m ← get
        send accepts p
            (hash_response Constants.no_circuit req_id (live_state_hashes channel m.store)))
      else lift (ok tt)
  answer_live channel p (channel_time_range req_id opts) =
      if opts.channel == channel
      then (do
        m ← get
        hashes ← lift (range_hashes opts m.store)
        send_some p hashes (hash_response Constants.no_circuit req_id hashes))
      else lift (ok tt)

  unfoldable pub answer_peer : Channel → PeerId → List LiveRequest → Step CableManager Unit
  answer_peer channel p [] = lift (ok tt)
  answer_peer channel p (l ∷ ls) = answer_live channel p l >> answer_peer channel p ls

  unfoldable pub answer_peers : Channel → PeerRequestMap → Step CableManager Unit
  answer_peers channel [] = lift (ok tt)
  answer_peers channel ((p, ls) ∷ rest) = answer_peer channel p ls >> answer_peers channel rest

  unfoldable pub send_post_hashes : Channel → Step CableManager Unit
  send_post_hashes channel = do m ← get; answer_peers channel m.live_requests

  -- For a post without a channel: the channels that its author is a member of.
  unfoldable pub send_member_hashes : PublicKey → List Channel → Step CableManager Unit
  send_member_hashes pk [] = lift (ok tt)
  send_member_hashes pk (channel ∷ channels) = do
    m ← get
    if is_channel_member channel pk m.store then send_post_hashes channel else lift (ok tt)
    send_member_hashes pk channels

  unfoldable pub notify_peers : Post → Step CableManager Unit
  notify_peers p = elim (get_channel p) [
    | some channel ↦ send_post_hashes channel
    | none ↦ do
      m ← get
      send_member_hashes (Post.get_public_key p) (or_empty (get_channels m.store))
  ]

  unfoldable pub sign_if_required : Post → Step CableManager Post
  sign_if_required p m = if is_signed p then (ok p, m) else (sign v c p (get_secret_key m), m)

  unfoldable pub post : Post → Step CableManager Hash
  post p = do
    signed ← sign_if_required p
    hash ← on_store (insert_post v c signed)
    notify_peers signed
    lift (ok hash)

  unfoldable pub post_text : Outcome Timestamp → Channel → Text → Step CableManager Hash
  post_text now channel text = do
    (public_key, links, timestamp) ← post_header_values now channel
    lift (validate_text text)
    post (New.text public_key links timestamp channel text)

  unfoldable pub post_delete : Outcome Timestamp → List Hash → Step CableManager Hash
  post_delete now hashes = do
    m ← get
    timestamp ← lift now
    modify (λ m. record m { deleted_posts = set_extend hashes m.deleted_posts })
    post (New.delete (get_public_key m) [] timestamp hashes)

  unfoldable pub post_info_name : Outcome Timestamp → List ℕ → Step CableManager Hash
  post_info_name now username = do
    m ← get
    timestamp ← lift now
    name_info ← lift (user_name username)
    post (New.info (get_public_key m) [] timestamp (name_info ∷ []))

  unfoldable pub post_topic : Outcome Timestamp → Channel → Topic → Step CableManager Hash
  post_topic now channel topic = do
    (public_key, links, timestamp) ← post_header_values now channel
    lift (validate_topic topic)
    post (New.topic public_key links timestamp channel topic)

  unfoldable pub post_join : Outcome Timestamp → Channel → Step CableManager Hash
  post_join now channel = do
    (public_key, links, timestamp) ← post_header_values now channel
    lift (validate_channel channel)
    post (New.join public_key links timestamp channel)

  unfoldable pub post_leave : Outcome Timestamp → Channel → Step CableManager Hash
  post_leave now channel = do
    (public_key, links, timestamp) ← post_header_values now channel
    lift (validate_channel channel)
    post (New.leave public_key links timestamp channel)
