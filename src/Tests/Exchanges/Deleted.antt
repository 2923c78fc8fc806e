-- ===== src/Tests/Exchanges/Deleted.antt =====
-- Examples for a post that the manager deletes before a peer sends it.
use cable_rs.Base.{ℕ, ◌≡◌, ◌≢◌, ◌++◌, arith, refl, ap, true, List, [], ◌∷◌, none}
use cable_rs.Base.Equality.{==_refl, bytes_eq, nat_eq}
use cable_rs.Cable.Crypto.Toy.{toy}
use cable_rs.Cable.Desert.Leb128.{leb128, leb128_laws}
use cable_rs.Cable.Error.{ok}
use cable_rs.Cable.Post.{Post}
use cable_rs.Cable.Post.Decode.Valid.{IsPost}
use cable_rs.Core.Manager.{CableManager}
use cable_rs.Cable.Crypto.Toy.{ToyPair, pad, toy_laws}
use cable_rs.Cable.Post.New as New
use cable_rs.Cable.Post.Encode.Bytes.{IsWritable}
use cable_rs.Cable.Post.Sign.{is_signed}
use cable_rs.Cable.Post.Sign.Verified.{sign_lem}
use cable_rs.Core.Manager.Frame.Published.{post-absent}
use cable_rs.Core.Manager.Publish.{sign_if_required}
use cable_rs.Core.Store.Fresh.{insert_post-own_hash}
use cable_rs.Core.Manager.Deleted.{post_delete-stays_deleted}
use cable_rs.Core.Manager.Frame.Handled.{handle_all}
use cable_rs.Core.Manager.Publish.{post_delete}
use cable_rs.Core.Store.{contains}
use mathlib.Core.List.{flat_map}
use cable_rs.Core.Store.Posts.{get_post_payload}
use cable_rs.Tests.{digest, hash_of, key32, key64, no_posts}
use cable_rs.Tests.Exchanges.{accepts_each, answer, asking, signed_join}

-- The manager that asked for the post deletes it before the answer.
abbrev noted : CableManager
noted = record asking { deleted_posts = digest signed_join ∷ [] }

abbrev count_first : List ℕ → ℕ
count_first [] = 0
count_first (n ∷ _) = n

abbrev deletes_asked : CableManager
deletes_asked = (post_delete leb128 toy accepts_each (ok 90) (digest signed_join ∷ []) asking).1

abbrev own_delete : Post
own_delete = New.delete key32 [] 90 (digest signed_join ∷ [])

own_delete-IsWritable : IsWritable own_delete
unfolding New.delete
own_delete-IsWritable = record {
  public_key = refl;
  signature = refl;
  links = (omega arith, tt);
  timestamp = omega arith;
  body = (omega arith, (refl, tt));
}

abbrev signed_delete : Post
unfolding New.delete
signed_delete = record own_delete {
  header = record own_delete.header { signature = pad key64 ++ pad key64 };
}

signed_delete-IsPost : IsPost signed_delete
unfolding New.delete
signed_delete-IsPost = record {
  writable = record {
    public_key = refl;
    signature = refl;
    links = (omega arith, tt);
    timestamp = omega arith;
    body = (omega arith, (refl, tt));
  };
  post_type = refl;
  valid = tt;
}

signs : sign_if_required leb128 toy accepts_each own_delete noted ≡ (ok signed_delete, noted)
unfolding sign_if_required New.delete is_signed
signs =
    ap (λ o. (o, noted))
      (sign_lem leb128 leb128_laws toy ToyPair toy_laws own_delete key64 own_delete-IsWritable refl)

other_length : digest signed_join ≢ digest signed_delete
unfolding leb128 flat_map New.delete
other_length e = let sizes = ap count_first e in absurd (omega (arith, sizes))

asked_absent : get_post_payload (digest signed_join) deletes_asked.store ≡ none
unfolding post_delete
asked_absent =
    post-absent leb128 toy accepts_each own_delete signed_delete (digest signed_join) noted signs (
      insert_post-own_hash leb128 toy signed_delete (digest signed_delete) (digest signed_join)
        no_posts (hash_of signed_delete signed_delete-IsPost) other_length refl)

in_asked : contains (digest signed_join) (digest signed_join ∷ []) ≡ true
in_asked = rw (==_refl (digest signed_join)) refl

post_delete-stays_deleted_example :
    let after = handle_all leb128 toy accepts_each ((3, answer) ∷ []) deletes_asked in
    (get_post_payload (digest signed_join) after.store ≡ none)
    × (contains (digest signed_join) after.deleted_posts ≡ true)
post_delete-stays_deleted_example =
    post_delete-stays_deleted leb128 toy accepts_each 90 (digest signed_join ∷ [])
      (digest signed_join) ((3, answer) ∷ []) asking in_asked asked_absent
