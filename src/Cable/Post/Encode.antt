-- ===== src/Cable/Post/Encode.antt =====
-- `ToBytes` and `CountBytes` for `Post`.
pub mod Bytes
pub mod Written
use cable_rs.Base.{ℕ, ◌+◌, ◌*◌, List, [], ◌++◌, length, replicate}
use cable_rs.Cable.Error.{Outcome, ok, raise, post_write_unrecognized_type, ◌>>=◌}
use cable_rs.Cable.Fields.{put_sized, put_hashes}
use cable_rs.Cable.Post.{
  PostBody, Post, text, delete, info, topic, join, leave, unrecognized, body_type,
}
use cable_rs.Cable.Types.{UserInfo}
use cable_rs.Cable.Desert.{Desert}
use cable_rs.Cable.Writer.{Writer, ◌>>◌, put_slice, put_varint, put_each}
use mathlib.Core.List.{foldl}

module _ (v : Desert) where
  unfoldable pub put_info : UserInfo → Writer
  put_info u = put_sized v u.key >> put_sized v u.val

  unfoldable pub write_body : PostBody → Writer
  write_body (text c t) = put_sized v c >> put_sized v t
  write_body (delete hashes) = put_hashes v hashes
  write_body (info i) = put_each put_info i >> put_varint v 0
  write_body (topic c t) = put_sized v c >> put_sized v t
  write_body (join c) = put_sized v c
  write_body (leave c) = put_sized v c
  write_body (unrecognized post_type) = λ _. raise (post_write_unrecognized_type post_type)

  -- The header, with the type of the body, and the body.
  unfoldable pub write_post : Post → Writer
  write_post p =
      put_slice p.header.public_key
      >> put_slice p.header.signature
      >> put_hashes v p.header.links
      >> put_varint v (body_type p.body)
      >> put_varint v p.header.timestamp
      >> write_body p.body

  -- The result is the final offset; the buffer is written in place.
  unfoldable pub write_bytes : Post → List ℕ → Outcome (ℕ × List ℕ)
  write_bytes p buf = do
    b ← write_post p (record { written = []; rest = buf })
    ok (length b.written, b.written ++ b.rest)

  unfoldable pub body_size : PostBody → ℕ
  body_size (text c t) = v.size (length c) + length c + v.size (length t) + length t
  body_size (delete hashes) = v.size (length hashes) + length hashes * 32
  body_size (info i) =
      foldl
        (λ sum u. sum + v.size (length u.key) + length u.key + v.size (length u.val) + length u.val)
        0 i
      + v.size 0
  body_size (topic c t) = v.size (length c) + length c + v.size (length t) + length t
  body_size (join c) = v.size (length c) + length c
  body_size (leave c) = v.size (length c) + length c
  body_size (unrecognized _) = 0

  unfoldable pub count_bytes : Post → ℕ
  count_bytes p =
      32
      + 64
      + v.size (length p.header.links)
      + length p.header.links * 32
      + v.size (body_type p.body)
      + v.size p.header.timestamp
      + body_size p.body

  unfoldable pub to_bytes : Post → Outcome (List ℕ)
  to_bytes p = do r ← write_bytes p (replicate (count_bytes p) 0); ok r.1
