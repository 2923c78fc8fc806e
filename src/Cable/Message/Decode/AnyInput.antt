-- ===== src/Cable/Message/Decode/AnyInput.antt =====
-- `Message::from_bytes` on any input, well formed or not.
use cable_rs.Base.{ℕ, ◌^◌, ◌≤◌, ◌<◌, ◌≡◌, ◌∙◌, sym, List, [], ◌∷◌, ◌++◌, length, arith, inl, inr}
use cable_rs.Cable.Constants
use cable_rs.Cable.Desert.{Desert, DesertLaws}
use cable_rs.Cable.Error
use cable_rs.Cable.Error.{Outcome, ok, err, panic, stuck}
use cable_rs.Cable.Message.{Message}
use cable_rs.Cable.Message.Encode.{to_bytes, message_size}
use cable_rs.Cable.Message.Decode.{read_message, from_bytes}
use cable_rs.Cable.Message.Decode.RoundTrip.{IsMessage, message_from_bytes-to_bytes}
use cable_rs.Cable.Reader.{Cursor}
use cable_rs.Cable.Reader.Sound.{Holds}
use mathlib.Core.Path.{subst}
use cable_rs.Cable.Message.Decode.Sound.{DecodedMessage, Ensures-message}

-- What a decoded buffer comes to: a message that was read from inside the buffer, an error or a
-- panic.
abbrev pub Decoded : List ℕ → Outcome (ℕ × Message) → Type 0
Decoded buf (ok (n, m)) = (n ≤ length buf) × DecodedMessage m
Decoded buf (err e) = Unit
Decoded buf panic = Unit
Decoded buf stuck = ⊥

module _ (v : Desert) (laws : DesertLaws v) where
  -- On any buffer the decoder ends. A message that it returns was read from inside the buffer. Unless
  -- its type is unrecognized, its header names the type of its body, its fields fit their encodings,
  -- its strings are UTF-8, and no post or channel name in a list is empty.
  pub message_from_bytes-Decoded : (buf : List ℕ) → Decoded buf (from_bytes v buf)
  unfolding from_bytes
  message_from_bytes-Decoded [] = tt
  message_from_bytes-Decoded (b ∷ bs) = go (read_message v (record { offset = 0; rest = b ∷ bs })) (
      (Ensures-message v laws (length (b ∷ bs))).run (record { offset = 0; rest = b ∷ bs })
        (omega arith))
    where
      go :
          (x : Outcome (Message × Cursor))
          → Holds 0 DecodedMessage (record { offset = 0; rest = b ∷ bs }) x
          → Decoded (b ∷ bs) (Error.◌>>=◌ x (λ r. ok (r.1.offset, r.0)))
      go (ok (m, c)) (hm, same, _) = (omega arith, hm)
      go (err e) h = tt
      go panic h = tt
      go stuck h = absurd h

  -- Whatever bytes a recognized message was decoded from, if its size leaves room for the length
  -- field, it can be encoded again, and the bytes so written decode to it.
  pub message_reencode :
      (buf rest : List ℕ) (n : ℕ) (m : Message)
      → from_bytes v buf ≡ ok (n, m)
      → m.header.msg_type ≤ Constants.channel_list_response
      → message_size v m < 2 ^ 55
      → (bs : List ℕ) × (to_bytes v m ≡ ok bs) × (from_bytes v (bs ++ rest) ≡ ok (length bs, m))
  message_reencode buf rest n m e known small =
      let (_, d) = subst (Decoded buf) e (message_from_bytes-Decoded buf) in
      elim d [
        | inl (fit, same, valid) ↦
            let whole : IsMessage v m = record {
              writable = record { fitting = fit; size = small };
              msg_type = same;
              valid = valid;
            } in
            let (bs, w, size, r) = message_from_bytes-to_bytes v laws m rest whole in
            (bs, w, r ∙ λ i. ok (sym size i, m))
        | inr (_, unknown) ↦ absurd (omega arith)
      ]
