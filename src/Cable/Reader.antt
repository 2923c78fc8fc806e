-- ===== src/Cable/Reader.antt =====
-- Reading from a buffer at an offset: `&buf[offset..]`, slices of it and `offset +=`.
pub mod Sound
use cable_rs.Base.{
  ℕ, zero, suc, ◌+◌, ◌≡◌, ◌∙◌, List, [], ◌∷◌, ◌++◌, length, take, drop, length-append,
  drop-append_length, take-append_length, none, some, ltb, leb, Bool, true, false, if◌then◌else◌,
  le→leb, le→not_ltb, arith, All,
}
use cable_rs.Cable.Error
use cable_rs.Cable.Error.{
  Error, CableErrorKind, Outcome, ok, err, panic, stuck, raise, varint_src_insufficient, from_utf8,
}
use cable_rs.Cable.Utf8.{valid_utf8}
use cable_rs.Cable.Desert.{Desert, DesertLaws, Fits}
use mathlib.Core.Path.{subst}
use mathlib.Core.List.{append_assoc, flat_map}

-- `rest` is `buf[offset..]`, so `buf.len()` is `offset + length rest`.
pub record Cursor : Type 0 where
  pub offset : ℕ
  pub rest : List ℕ

abbrev pub advance : ℕ → Cursor → Cursor
advance n c = record { offset = c.offset + n; rest = drop n c.rest }

abbrev pub Reader {ℓ} : Type ℓ → Type ℓ
Reader A = Cursor → Outcome (A × Cursor)

infixl 5 ◌>>=◌ ◌>>◌
abbrev pub ◌>>=◌ {ℓ κ} : {A : Type ℓ} {B : Type κ} → Reader A → (A → Reader B) → Reader B
◌>>=◌ m f c = Error.◌>>=◌ (m c) (λ r. f r.0 r.1)

abbrev pub ◌>>◌ {ℓ κ} : {A : Type ℓ} {B : Type κ} → Reader A → Reader B → Reader B
m >> k = m >>= λ _. k

abbrev pub pure {ℓ} : {A : Type ℓ} → A → Reader A
pure a c = ok (a, c)

-- A call that does not read, such as a validation.
abbrev pub lift {ℓ} : {A : Type ℓ} → Outcome A → Reader A
lift r c = Error.◌>>=◌ r (λ a. ok (a, c))

-- `let (s, n) = varint::decode(&buf[offset..])?; offset += s;`
unfoldable pub get_varint : Desert → Reader ℕ
get_varint v c = elim (v.decode c.rest) [
  | none ↦ err varint_src_insufficient
  | some (s, n) ↦ ok (n, advance s c)
]

-- `buf[offset..offset + n]`, which panics past the end; `offset += n`
unfoldable pub get_slice : ℕ → Reader (List ℕ)
get_slice n c = if leb n (length c.rest) then ok (take n c.rest, advance n c) else panic

-- A hash behind the guard `if offset + 32 > buf.len()`.
unfoldable pub get_hash : Reader (List ℕ)
get_hash c =
    if ltb (c.offset + length c.rest) (c.offset + 32)
    then raise CableErrorKind.message_hash_response_end
    else get_slice 32 c

-- `for _ in 0..n`
unfoldable pub get_hashes : ℕ → Reader (List (List ℕ))
get_hashes zero = pure []
get_hashes (suc n) = do h ← get_hash; hs ← get_hashes n; pure (h ∷ hs)

abbrev pub check_utf8 : List ℕ → Outcome (List ℕ)
check_utf8 bytes = if valid_utf8 bytes then ok bytes else err from_utf8

-- `String::from_utf8(buf[offset..offset + n].to_vec())?`
unfoldable pub get_string : ℕ → Reader (List ℕ)
get_string n = do bytes ← get_slice n; lift (check_utf8 bytes)

-- On a buffer that goes on with `bs`, the reader reads `bs` and returns `a`.
pub record Reads {ℓ} {A : Type ℓ} (r : Reader A) (bs : List ℕ) (a : A) : Type ℓ where
  pub run :
      (offset : ℕ) (rest : List ℕ)
      → r (record { offset = offset; rest = bs ++ rest })
        ≡ ok (a, record { offset = offset + length bs; rest = rest })

same_cursor {ℓ} :
    {A : Type ℓ} (a : A) (rest : List ℕ) (o o' : ℕ)
    → o ≡ o'
    → ◌≡◌ {A = Outcome (A × Cursor)}
        (ok (a, record { offset = o; rest = rest }))
        (ok (a, record { offset = o'; rest = rest }))
same_cursor a rest o o' e = λ i. ok (a, record { offset = e i; rest = rest })

pub Reads-pure {ℓ} : {A : Type ℓ} (a : A) → Reads (pure a) [] a
Reads-pure a = record { run = λ o rest. same_cursor a rest _ _ (omega arith) }

pub Reads-get_varint :
    (v : Desert) → DesertLaws v → (n : ℕ) → Fits n → Reads (get_varint v) (v.encode n) n
unfolding get_varint
Reads-get_varint v laws n fits = record {
  run = λ o rest.
      rw (
        laws.decode-encode n rest fits,
        get_varint,
        ← laws.length-encode n fits,
        drop-append_length,
      );
}

pub Reads-get_slice : (bs : List ℕ) → Reads (get_slice (length bs)) bs bs
unfolding get_slice
Reads-get_slice bs = record {
  run = λ o rest.
      rw (le→leb (length bs) (length (bs ++ rest)) (omega (arith, length-append bs rest)))
        (rw (take-append_length, drop-append_length));
}

pub Reads-bind {ℓ κ} :
    {A : Type ℓ} {B : Type κ} (m : Reader A) (f : A → Reader B) (bs cs : List ℕ) (a : A) (b : B)
    → Reads m bs a
    → Reads (f a) cs b
    → Reads (m >>= f) (bs ++ cs) b
Reads-bind m f bs cs a b hm hf = record {
  run = λ o rest.
      rw (append_assoc bs cs rest, hm.run o (cs ++ rest))
        (hf.run (o + length bs) rest ∙ same_cursor b rest _ _ (omega (arith, length-append bs cs)));
}

pub Reads-bind_last {ℓ κ} :
    {A : Type ℓ} {B : Type κ} (m : Reader A) (f : A → Reader B) (bs : List ℕ) (a : A) (b : B)
    → Reads m bs a
    → Reads (f a) [] b
    → Reads (m >>= f) bs b
Reads-bind_last m f bs a b hm hf = record {
  run = λ o rest.
      rw (hm.run o rest) (hf.run (o + length bs) rest ∙ same_cursor b rest _ _ (omega arith));
}

pub Reads-lift {ℓ} : {A : Type ℓ} (r : Outcome A) (a : A) → r ≡ ok a → Reads (lift r) [] a
Reads-lift r a e = record { run = λ o rest. rw e (same_cursor a rest _ _ (omega arith)) }

-- The same bytes, bracketed otherwise.
pub Reads-eq {ℓ} :
    {A : Type ℓ} (r : Reader A) (bs cs : List ℕ) (a : A) → bs ≡ cs → Reads r bs a → Reads r cs a
Reads-eq r bs cs a e h = subst (λ t. Reads r t a) e h

pub Reads-else {ℓ} :
    {A : Type ℓ} (b : Bool) (m r : Reader A) (bs : List ℕ) (a : A)
    → b ≡ false
    → Reads r bs a
    → Reads (if b then m else r) bs a
Reads-else b m r bs a e h = rw e h

pub Reads-get_hash : (h : List ℕ) → length h ≡ 32 → Reads get_hash h h
unfolding get_hash
Reads-get_hash h e = record {
  run = λ o rest.
      rw (le→not_ltb (o + length (h ++ rest)) (o + 32) (omega (arith, length-append h rest)), ← e)
        ((Reads-get_slice h).run o rest);
}

-- A link or a hash is an array of 32 bytes.
abbrev pub IsHash : List ℕ → Type 0
IsHash h = length h ≡ 32

pub Reads-get_hashes :
    (hs : List (List ℕ)) → All IsHash hs → Reads (get_hashes (length hs)) (flat_map (λ h. h) hs) hs
unfolding get_hashes flat_map
Reads-get_hashes [] h = Reads-pure []
Reads-get_hashes (x ∷ xs) h =
    Reads-bind _ _ _ _ _ _ (Reads-get_hash x h.0)
      (Reads-bind_last _ _ _ _ _ (Reads-get_hashes xs h.1) (Reads-pure (x ∷ xs)))

pub Reads-get_string : (s : List ℕ) → valid_utf8 s ≡ true → Reads (get_string (length s)) s s
unfolding get_string
Reads-get_string s e =
    Reads-bind_last _ _ _ _ _ (Reads-get_slice s) (Reads-lift (check_utf8 s) s (rw e))
