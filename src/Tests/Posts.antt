-- ===== src/Tests/Posts.antt =====
-- Examples for posts.
use cable_rs.Base.{ℕ, ◌≡◌, refl, true, List, [], ◌∷◌, ◌++◌, length, replicate, ◌≤◌, arith, drop}
use cable_rs.Cable.Crypto.Toy.{toy, toy_laws, ToyPair}
use cable_rs.Cable.Desert.Leb128.{leb128, leb128_laws}
use cable_rs.Cable.Error.{ok, panic}
use cable_rs.Cable.Post.{Post}
use cable_rs.Cable.Post.Decode.{from_bytes}
use cable_rs.Cable.Post.Decode.AnyInput.{from_bytes-Decoded, Decoded, reencode, from_bytes-short}
use cable_rs.Cable.Post.Decode.RoundTrip.{from_bytes-to_bytes, from_bytes-post_bytes}
use cable_rs.Cable.Post.Encode.{to_bytes, count_bytes, body_size, write_bytes}
use cable_rs.Cable.Post.Encode.Bytes.{post_bytes}
use cable_rs.Cable.Post.Encode.Written.{write_bytes_lem}
use cable_rs.Cable.Post.Sign.{sign, verify, with_signature}
use cable_rs.Cable.Post.Sign.Verified.{verify-sign}
use cable_rs.Tests.{key64, join_home, join_home-IsPost, sig64}

from_bytes-to_bytes_example :
    (bs : List ℕ) × (to_bytes leb128 join_home ≡ ok bs)
    × (length bs ≡ count_bytes leb128 join_home)
    × (from_bytes leb128 (bs ++ (9 ∷ [])) ≡ ok (count_bytes leb128 join_home, join_home))
from_bytes-to_bytes_example =
    from_bytes-to_bytes leb128 leb128_laws join_home (9 ∷ []) join_home-IsPost

verify-sign_example :
    (q : Post) × (bs : List ℕ) × (sign leb128 toy join_home key64 ≡ ok q)
    × (q.body ≡ join_home.body)
    × (with_signature q sig64 ≡ join_home)
    × (to_bytes leb128 q ≡ ok bs)
    × (verify toy bs ≡ true)
verify-sign_example =
    verify-sign leb128 leb128_laws toy ToyPair toy_laws join_home key64 join_home-IsPost.writable
      refl refl

-- The bytes of a post decode, so that this is no vacuous statement.
from_bytes-Decoded_example :
    Decoded (post_bytes leb128 join_home) (from_bytes leb128 (post_bytes leb128 join_home))
from_bytes-Decoded_example = from_bytes-Decoded leb128 leb128_laws (post_bytes leb128 join_home)

reencode_example :
    (bs : List ℕ) × (to_bytes leb128 join_home ≡ ok bs)
    × (from_bytes leb128 (bs ++ []) ≡ ok (length bs, join_home))
reencode_example =
    reencode leb128 leb128_laws (post_bytes leb128 join_home ++ (9 ∷ [])) []
      (count_bytes leb128 join_home) join_home
      (from_bytes-post_bytes leb128 leb128_laws join_home (9 ∷ []) join_home-IsPost) (omega arith)

from_bytes-short_example : from_bytes leb128 key64 ≡ panic
from_bytes-short_example = from_bytes-short leb128 leb128_laws key64 (omega arith)

room : count_bytes leb128 join_home ≤ length {A = ℕ} (replicate 200 5)
unfolding count_bytes body_size leb128
room = omega arith

write_bytes_example :
    write_bytes leb128 join_home (replicate 200 5)
    ≡ ok (
      count_bytes leb128 join_home,
      post_bytes leb128 join_home ++ drop (count_bytes leb128 join_home) (replicate 200 5),
    )
write_bytes_example =
    write_bytes_lem leb128 leb128_laws join_home (replicate 200 5) join_home-IsPost.writable room
