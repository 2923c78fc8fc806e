-- ===== src/Tests/Stores.antt =====
-- Examples for stores.
use cable_rs.Base.{
  ℕ, ◌≡◌, ◌≢◌, ◌∙◌, refl, sym, ap, true, false, Bool, List, [], ◌∷◌, length, none, some, inl, All,
  nat_beq,
}
use cable_rs.Base.Equality.{bytes_eq, list_beq}
use cable_rs.Cable.Crypto.Toy.{toy}
use cable_rs.Cable.Desert.Leb128.{leb128, leb128_laws}
use cable_rs.Cable.Error.{ok}
use cable_rs.Cable.Post.{Post}
use cable_rs.Cable.Post.Decode.{from_bytes}
use cable_rs.Cable.Post.Decode.RoundTrip.{from_bytes-post_bytes}
use cable_rs.Cable.Post.Decode.Valid.{IsPost}
use cable_rs.Cable.Post.Encode.{to_bytes, count_bytes}
use cable_rs.Cable.Post.Encode.Bytes.{post_bytes}
use cable_rs.Cable.Post.Encode.Written.{to_bytes_lem}
use cable_rs.Cable.Post.Sign.{hash}
use cable_rs.Cable.Reader.Sound.{Checks}
use cable_rs.Cable.Types.{ChannelOptions}
use cable_rs.Core.Map.Retain.{InSome}
use cable_rs.Core.Store.{
  MemoryStore, contains, is_channel_member, get_channel_membership_hashes,
  get_channel_topic_and_hash, get_peer_name_and_hash, get_info_hashes, insert_delete_hash,
}
use cable_rs.Core.Store.Authors.{insert_post-keeps_others, delete_one-same}
use cable_rs.Core.Store.Deletion.{insert_post-deletes}
use cable_rs.Core.Store.Insert.{insert_post, insert_body, delete_all}
use cable_rs.Core.Store.Inserted.{insert_post-stored, insert_post_lem, store_payload_lem}
use cable_rs.Core.Store.Membership.{is_listed, insert_post-join, insert_post-leave}
use cable_rs.Core.Store.Posts.{
  get_post_payload, delete_post, get_post_hashes, get_latest_hashes, want,
}
use cable_rs.Core.Store.Removed.{delete_post-no_trace}
use cable_rs.Tests.{
  digest, hash_of, no_posts, key32, other_key, name, hash32, join_home, leave_home, text_home,
  delete_home, join_home-IsPost, leave_home-IsPost, text_home-IsPost, delete_home-IsPost,
}
use mathlib.Core.List.{append-nil}

-- A store with the payload of one text by the author.
abbrev with_text : List ℕ → MemoryStore
with_text key = record no_posts { post_payloads = (hash32, post_bytes leb128 (text_home key)) ∷ [] }

decodes_text :
    (key : List ℕ)
    → length key ≡ 32
    → from_bytes leb128 (post_bytes leb128 (text_home key))
      ≡ ok (count_bytes leb128 (text_home key), text_home key)
decodes_text key n =
    ap (from_bytes leb128) (sym (append-nil (post_bytes leb128 (text_home key))))
    ∙ from_bytes-post_bytes leb128 leb128_laws (text_home key) [] (text_home-IsPost key n)

abbrev options : ChannelOptions
options = record { channel = name; time_start = 0; time_end = 100; limit = 5 }

insert_post-join_example :
    let r = insert_post leb128 toy join_home no_posts in
    (r.0 ≡ ok (digest join_home))
    × (is_channel_member name key32 r.1 ≡ true)
    × (is_listed name key32 r.1.ex_channel_members ≡ false)
    × (is_channel_member [] key32 r.1 ≡ is_channel_member [] key32 no_posts)
    × (is_listed [] key32 r.1.ex_channel_members ≡ is_listed [] key32 no_posts.ex_channel_members)
insert_post-join_example =
    insert_post-join leb128 toy join_home.header name [] key32 (digest join_home) no_posts
      (hash_of join_home join_home-IsPost) (inl (λ e. cc))

insert_post-leave_example :
    let r = insert_post leb128 toy leave_home no_posts in
    (r.0 ≡ ok (digest leave_home))
    × (is_channel_member name key32 r.1 ≡ false)
    × (is_listed name key32 r.1.ex_channel_members ≡ true)
    × (is_channel_member [] key32 r.1 ≡ is_channel_member [] key32 no_posts)
    × (is_listed [] key32 r.1.ex_channel_members ≡ is_listed [] key32 no_posts.ex_channel_members)
insert_post-leave_example =
    insert_post-leave leb128 toy leave_home.header name [] key32 (digest leave_home) no_posts
      (hash_of leave_home leave_home-IsPost) (inl (λ e. cc))

delete_post-no_trace_example :
    let s' = delete_post hash32 (with_text key32) in
    (get_post_payload hash32 s' ≡ none)
    × Checks (All (λ g. g ≢ hash32)) (get_post_hashes options s')
    × InSome (All (λ g. g ≢ hash32)) (get_latest_hashes name s')
    × InSome (All (λ g. g ≢ hash32)) (get_channel_membership_hashes name s')
    × InSome (λ x. x.1 ≢ hash32) (get_channel_topic_and_hash name s')
    × InSome (λ x. x.1 ≢ hash32) (get_peer_name_and_hash key32 s')
    × InSome (All (λ g. g ≢ hash32)) (get_info_hashes key32 s')
delete_post-no_trace_example = delete_post-no_trace hash32 (with_text key32) options name key32

join_done : (insert_post leb128 toy join_home no_posts).0 ≡ ok (digest join_home)
join_done = insert_post-join_example.0

insert_post-stored_example :
    (bs : List ℕ) × (to_bytes leb128 join_home ≡ ok bs)
    × (hash leb128 toy join_home ≡ ok (digest join_home))
    × (get_post_payload (digest join_home) (insert_post leb128 toy join_home no_posts).1 ≡ some bs)
    × (want (digest join_home ∷ []) (insert_post leb128 toy join_home no_posts).1 ≡ [])
insert_post-stored_example =
    insert_post-stored leb128 toy join_home (digest join_home) no_posts tt join_done

abbrev own_delete : Post
own_delete = delete_home key32 hash32

own_delete-IsPost : IsPost own_delete
own_delete-IsPost = delete_home-IsPost key32 hash32 refl refl

abbrev same_second : List ℕ → Bool
same_second (a ∷ b ∷ xs) = nat_beq b 1
same_second xs = false

-- The hash of the deletion is another one.
not_hash32 : hash32 ≢ digest own_delete
not_hash32 e = let second : false ≡ true = ap (λ xs. same_second xs) (sym e) in absurd cc

listed : contains hash32 (hash32 ∷ []) ≡ true
unfolding list_beq
listed = refl

stored :
    get_post_payload hash32 (with_text other_key) ≡ some (post_bytes leb128 (text_home other_key))
unfolding list_beq
stored = refl

stored_own : get_post_payload hash32 (with_text key32) ≡ some (post_bytes leb128 (text_home key32))
unfolding list_beq
stored_own = refl

insert_post-keeps_others_example :
    get_post_payload hash32 (insert_post leb128 toy own_delete (with_text other_key)).1
    ≡ some (post_bytes leb128 (text_home other_key))
insert_post-keeps_others_example =
    insert_post-keeps_others leb128 toy own_delete (digest own_delete) hash32
      (post_bytes leb128 (text_home other_key)) (with_text other_key)
      (count_bytes leb128 (text_home other_key)) (text_home other_key)
      (hash_of own_delete own_delete-IsPost) not_hash32 stored (decodes_text other_key refl)
      (λ e. cc)

delete_done : (insert_post leb128 toy own_delete (with_text key32)).0 ≡ ok (digest own_delete)
unfolding insert_body delete_all
delete_done =
    rw
      (
        insert_post_lem leb128 toy own_delete (digest own_delete) (with_text key32)
            (hash_of own_delete own_delete-IsPost),
        delete_one-same leb128 toy own_delete (digest own_delete) hash32
            (post_bytes leb128 (text_home key32)) (with_text key32)
            (count_bytes leb128 (text_home key32)) (text_home key32) true stored_own
            (decodes_text key32 refl) ((bytes_eq.beq_iff key32 key32).1 refl),
        store_payload_lem leb128 toy own_delete (digest own_delete) (post_bytes leb128 own_delete)
            (insert_delete_hash key32 (digest own_delete) (delete_post hash32 (with_text key32)))
            (to_bytes_lem leb128 leb128_laws own_delete own_delete-IsPost.writable).0,
      )
      refl

insert_post-deletes_example :
    get_post_payload hash32 (insert_post leb128 toy own_delete (with_text key32)).1 ≡ none
insert_post-deletes_example =
    insert_post-deletes leb128 toy own_delete.header (hash32 ∷ []) (digest own_delete) hash32
      (post_bytes leb128 (text_home key32)) (with_text key32) (count_bytes leb128 (text_home key32))
      (text_home key32) (hash_of own_delete own_delete-IsPost) not_hash32 listed stored_own
      (decodes_text key32 refl) refl delete_done
