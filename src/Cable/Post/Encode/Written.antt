-- ===== src/Cable/Post/Encode/Written.antt =====
-- What `Post::to_bytes` and `write_bytes` write.
use cable_rs.Base.{
  ℕ, ◌≤◌, ◌≡◌, sym, ap, ◌∙◌, List, [], ◌++◌, length, drop, replicate, length-replicate, drop_all,
  arith,
}
use cable_rs.Cable.Error.{Outcome, ok, ◌>>=◌}
use cable_rs.Cable.Fields.{Writes-put_sized, Writes-put_hashes}
use cable_rs.Cable.Post.{PostBody, Post, text, delete, info, topic, join, leave, unrecognized}
use cable_rs.Cable.Post.Encode.{
  put_info, write_post, write_body, write_bytes, count_bytes, to_bytes,
}
use cable_rs.Cable.Post.Encode.Bytes.{
  InfoFits, BodyFits, BodyFits-type, IsWritable, info_bytes, body_bytes, post_bytes,
  length-post_bytes,
}
use cable_rs.Cable.Types.{UserInfo}
use cable_rs.Cable.Desert.{Desert, DesertLaws}
use cable_rs.Cable.Writer.{
  Buffer, Writes, Writes-seq, Writes-put_slice, Writes-put_varint, Writes-put_each,
}
use mathlib.Core.List.{append-nil}

module _ (v : Desert) (laws : DesertLaws v) where
  Writes-put_info : (u : UserInfo) → InfoFits u → Writes (put_info v u) (info_bytes v u)
  unfolding put_info
  Writes-put_info u h =
      Writes-seq _ _ _ _ (Writes-put_sized v laws u.key h.0) (Writes-put_sized v laws u.val h.1)

  Writes-body : (b : PostBody) → BodyFits b → Writes (write_body v b) (body_bytes v b)
  unfolding write_body
  Writes-body (text c t) h =
      Writes-seq _ _ _ _ (Writes-put_sized v laws c h.0) (Writes-put_sized v laws t h.1)
  Writes-body (delete hashes) h = Writes-put_hashes v laws hashes h
  Writes-body (info i) h =
      Writes-seq _ _ _ _ (Writes-put_each _ _ InfoFits Writes-put_info i h)
        (Writes-put_varint v laws 0 (omega arith))
  Writes-body (topic c t) h =
      Writes-seq _ _ _ _ (Writes-put_sized v laws c h.0) (Writes-put_sized v laws t h.1)
  Writes-body (join c) h = Writes-put_sized v laws c h
  Writes-body (leave c) h = Writes-put_sized v laws c h
  Writes-body (unrecognized _) h = absurd h

  Writes-post : (p : Post) → IsWritable p → Writes (write_post v p) (post_bytes v p)
  unfolding write_post
  Writes-post p h = Writes-seq _ _ _ _ (Writes-put_slice p.header.public_key) (
      Writes-seq _ _ _ _ (Writes-put_slice p.header.signature) (
        Writes-seq _ _ _ _ (Writes-put_hashes v laws p.header.links h.links) (
          Writes-seq _ _ _ _ (Writes-put_varint v laws _ (BodyFits-type p.body h.body)) (
            Writes-seq _ _ _ _ (Writes-put_varint v laws _ h.timestamp)
              (Writes-body p.body h.body)))))

  -- Into a buffer with room for a writable post, write_bytes writes exactly its bytes and leaves
  -- what follows them.
  pub write_bytes_lem :
      (p : Post) (buf : List ℕ)
      → IsWritable p
      → count_bytes v p ≤ length buf
      → write_bytes v p buf ≡ ok (count_bytes v p, post_bytes v p ++ drop (count_bytes v p) buf)
  unfolding write_bytes
  write_bytes_lem p buf h room =
      let size : length (post_bytes v p) ≡ count_bytes v p = length-post_bytes v laws p h in
      ap (λ (m : Outcome Buffer). m >>= λ b. ok (length b.written, b.written ++ b.rest))
        ((Writes-post p h).run (record { written = []; rest = buf }) (omega (arith, size)))
      ∙ rw size

  -- `to_bytes` of a writable post is `post_bytes`, of `count_bytes` bytes.
  pub to_bytes_lem :
      (p : Post)
      → IsWritable p
      → (to_bytes v p ≡ ok (post_bytes v p)) × (length (post_bytes v p) ≡ count_bytes v p)
  unfolding to_bytes
  to_bytes_lem p h =
      let buf = replicate (count_bytes v p) 0 in
      let room : length buf ≡ count_bytes v p = length-replicate (count_bytes v p) 0 in
      (
        ap (λ (m : Outcome (ℕ × List ℕ)). m >>= λ r. ok r.1)
              (write_bytes_lem p buf h (omega (arith, room)))
            ∙ ap (λ (t : List ℕ). ok (post_bytes v p ++ t))
                (ap (λ (n : ℕ). drop n buf) (sym room) ∙ drop_all buf)
            ∙ ap ok (append-nil (post_bytes v p)),
        length-post_bytes v laws p h,
      )
