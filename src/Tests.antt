-- ===== src/Tests.antt =====
-- Data for the examples: posts, messages and stores that keep to the protocol.
mod Posts
mod Messages
mod Stores
mod Orders
mod Handshakes
mod Exchanges
mod Managers
mod Requests
use cable_rs.Base.{ℕ, ◌≡◌, ◌<◌, refl, true, List, [], ◌∷◌, length, replicate, All, arith}
use cable_rs.Cable.Desert.Leb128.{leb128, leb128_laws}
use cable_rs.Cable.Fields.{HashesFit}
use cable_rs.Cable.Message.{Message, MessageBody, post, request, response, channels}
use cable_rs.Cable.Message.Encode.{message_size}
use cable_rs.Cable.Message.Encode.Bytes.{
  IsFitting, IsWritable, BodyFits, length-payload_bytes, payload_bytes,
}
use cable_rs.Cable.Message.Decode.RoundTrip.{IsMessage, BodyValid}
use cable_rs.Cable.Post.{Post, PostHeader, PostBody, join, leave, text, delete, topic}
use cable_rs.Cable.Post.Decode.Valid.{IsPost}
use cable_rs.Cable.Crypto.Toy.{toy, toy_laws, ToyPair}
use cable_rs.Cable.Error.{ok}
use cable_rs.Cable.Post.Encode.Bytes.{post_bytes}
use cable_rs.Cable.Post.Sign.{hash}
use cable_rs.Cable.Post.Sign.Verified.{hash_lem}
use cable_rs.Core.Store.{MemoryStore, empty_store}
use cable_rs.Cable.Utf8.{valid_utf8, chars_count}
use cable_rs.Cable.Utf8.Bounds.{ascii_valid}

abbrev pub key32 : List ℕ
key32 = replicate 32 7

abbrev pub other_key : List ℕ
other_key = replicate 32 8

abbrev pub key64 : List ℕ
key64 = replicate 64 7

abbrev pub sig64 : List ℕ
sig64 = replicate 64 0

abbrev pub hash32 : List ℕ
hash32 = replicate 32 1

abbrev pub name : List ℕ
name = 104 ∷ 111 ∷ 109 ∷ 101 ∷ []

abbrev pub header : List ℕ → ℕ → PostHeader
header key t = record {
  public_key = key;
  signature = sig64;
  links = hash32 ∷ [];
  post_type = t;
  timestamp = 80;
}

name_ascii : All (λ b. b < 128) name
name_ascii = (omega arith, (omega arith, (omega arith, (omega arith, tt))))

pub name_valid : valid_utf8 name ≡ true
name_valid = (ascii_valid name name_ascii).0

name_count : chars_count name ≡ 4
name_count = (ascii_valid name name_ascii).1

pub one_hash-HashesFit : HashesFit (hash32 ∷ [])
one_hash-HashesFit = (omega arith, (refl, tt))

abbrev pub join_home : Post
join_home = record { header = header key32 4; body = join name }

abbrev pub leave_home : Post
leave_home = record { header = header key32 5; body = leave name }

abbrev pub text_home : List ℕ → Post
text_home key = record { header = header key 0; body = text name name }

pub join_home-IsPost : IsPost join_home
join_home-IsPost = record {
  writable = record {
    public_key = refl;
    signature = refl;
    links = one_hash-HashesFit;
    timestamp = omega arith;
    body = omega arith;
  };
  post_type = refl;
  valid = (name_valid, omega (arith, name_count), omega (arith, name_count));
}

pub leave_home-IsPost : IsPost leave_home
leave_home-IsPost = record {
  writable = record {
    public_key = refl;
    signature = refl;
    links = one_hash-HashesFit;
    timestamp = omega arith;
    body = omega arith;
  };
  post_type = refl;
  valid = (name_valid, omega (arith, name_count), omega (arith, name_count));
}

pub text_home-IsPost : (key : List ℕ) → length key ≡ 32 → IsPost (text_home key)
text_home-IsPost key n = record {
  writable = record {
    public_key = n;
    signature = refl;
    links = one_hash-HashesFit;
    timestamp = omega arith;
    body = (omega arith, omega arith);
  };
  post_type = refl;
  valid = (
    (name_valid, omega (arith, name_count), omega (arith, name_count)),
    (name_valid, omega arith),
  );
}

-- A `post/delete` that names the hash.
abbrev pub delete_home : List ℕ → List ℕ → Post
delete_home key h = record { header = header key 1; body = delete (h ∷ []) }

pub delete_home-IsPost :
    (key h : List ℕ) → length key ≡ 32 → length h ≡ 32 → IsPost (delete_home key h)
delete_home-IsPost key h n m = record {
  writable = record {
    public_key = n;
    signature = refl;
    links = one_hash-HashesFit;
    timestamp = omega arith;
    body = (omega arith, (m, tt));
  };
  post_type = refl;
  valid = tt;
}

abbrev pub message : MessageBody → ℕ → Message
message b t = record {
  header = record { msg_type = t; circuit_id = replicate 4 0; req_id = 4 ∷ 3 ∷ 2 ∷ 1 ∷ [] };
  body = b;
}

abbrev pub post_request : Message
post_request = message (request 1 (post (hash32 ∷ []))) 2

abbrev pub channel_list_response : Message
channel_list_response = message (response (channels (name ∷ name ∷ []))) 7

abbrev pub topic_home : Post
topic_home = record { header = header key32 3; body = topic name name }

pub topic_home-IsPost : IsPost topic_home
topic_home-IsPost = record {
  writable = record {
    public_key = refl;
    signature = refl;
    links = one_hash-HashesFit;
    timestamp = omega arith;
    body = (omega arith, omega arith);
  };
  post_type = refl;
  valid = (
    (name_valid, omega (arith, name_count), omega (arith, name_count)),
    (name_valid, omega (arith, name_count)),
  );
}

-- The stand-in's hash of a post's bytes.
abbrev pub digest : Post → List ℕ
digest p = length (post_bytes leb128 p) ∷ replicate 31 0

pub hash_of : (p : Post) → IsPost p → hash leb128 toy p ≡ ok (digest p)
hash_of p h = hash_lem leb128 leb128_laws toy ToyPair toy_laws p (digest p) h.writable refl refl

abbrev pub no_posts : MemoryStore
no_posts = empty_store (key32, key64)
