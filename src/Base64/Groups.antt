-- ===== src/Base64/Groups.antt =====
-- Of base64.c.
-- The digits of a group and the bytes that `b64_pton` makes of them.
use Prim.Native.Nat.{bit_or}
use hassio_installer.Prelude.{
  ℕ, suc, ◌+◌, ◌*◌, ◌/◌, ◌%◌, ◌<◌, ◌≡◌, sym, ◌∙◌, ap₂, subst, none, some, Option, [], ◌∷◌, ◌++◌,
  arith, Bytes, length, get_or, ◌==◌, Bool-cases, inl, inr, ==_iff,
}
use hassio_installer.Base64.{alphabet, digit, pad, position, first, second, third, fourth, Decoder}
use hassio_installer.Base64.Alphabet.{or_four, or_sixteen, or_sixty_four}
use hassio_installer.Base64.Encode.{sextet, quantum, encoding}
use hassio_installer.Base64.Decode.{decoder}

abbrev Found : Bytes → ℕ → Option ℕ → Type 0
Found xs c none = Unit
Found xs c (some v) = (get_or xs v 0 ≡ c) × (v < length xs)

next-Found :
    (x : ℕ) (xs : Bytes) (c : ℕ) (o : Option ℕ)
    → Found xs c o
    → Found (x ∷ xs) c (elim o [ none ↦ none | some n ↦ some (n + 1) ])
next-Found x xs c none h = tt
next-Found x xs c (some n) (e, h) = let s : n + 1 ≡ suc n = omega arith in rw s (e, omega arith)

position-Found : (xs : Bytes) (c : ℕ) → Found xs c (position xs c)
unfolding position
position-Found [] c = tt
position-Found (x ∷ xs) c = elim (Bool-cases (x == c)) [
  | inl e ↦ rw e ((==_iff x c).0 e, omega arith)
  | inr e ↦ rw e (next-Found x xs c (position xs c) (position-Found xs c))
]

pub digit-position : (c v : ℕ) → position alphabet c ≡ some v → (digit v ≡ c) × (v < 64)
unfolding digit
digit-position c v h = subst (Found alphabet c) h (position-Found alphabet c)

-- The digits of a group that are read.
pub data Group : Type 0 where
  begun : Group
  one : ℕ → Group
  two : ℕ → ℕ → Group
  three : ℕ → ℕ → ℕ → Group

-- The bytes that digits make.
abbrev pub byte_one : ℕ → ℕ → ℕ
byte_one v w = bit_or (v * 4 % 256) (w / 16) % 256

abbrev pub byte_two : ℕ → ℕ → ℕ
byte_two w u = bit_or (w % 16 * 16 % 256) (u / 4) % 256

abbrev pub byte_three : ℕ → ℕ → ℕ
byte_three u z = bit_or (u % 4 * 64 % 256) z % 256

-- The decoder within a group, behind the complete groups' bytes `xs`.
abbrev pub within : Bytes → Group → Bytes → Decoder
within xs begun ys = decoder first xs ys
within xs (one v) ys = decoder second xs (v * 4 % 256 ∷ ys)
within xs (two v w) ys = decoder third (xs ++ byte_one v w ∷ []) (w % 16 * 16 % 256 ∷ ys)
within xs (three v w u) ys =
    decoder fourth ((xs ++ byte_one v w ∷ []) ++ byte_two w u ∷ []) (u % 4 * 64 % 256 ∷ ys)

abbrev pub seen : Group → Bytes
seen begun = []
seen (one v) = digit v ∷ []
seen (two v w) = digit v ∷ digit w ∷ []
seen (three v w u) = digit v ∷ digit w ∷ digit u ∷ []

abbrev pub Small : Group → Type 0
Small begun = Unit
Small (one v) = v < 64
Small (two v w) = (v < 64) × (w < 64)
Small (three v w u) = (v < 64) × (w < 64) × (u < 64)

abbrev pub size : Group → ℕ
size begun = 0
size (one v) = 1
size (two v w) = 2
size (three v w u) = 3

pub bytes_of :
    (v w u z : ℕ)
    → v < 64
    → w < 64
    → u < 64
    → z < 64
    → (byte_one v w ≡ v * 4 + w / 16)
      × (byte_two w u ≡ w % 16 * 16 + u / 4)
      × (byte_three u z ≡ u % 4 * 64 + z)
bytes_of v w u z hv hw hu hz =
    let x = v * 4 + w / 16 in
    let y = w % 16 * 16 + u / 4 in
    let o = u % 4 * 64 + z in
    let p : x / 4 * 4 ≡ v * 4 % 256 = omega arith in
    let p' : x % 4 ≡ w / 16 = omega arith in
    let q : y / 16 * 16 ≡ w % 16 * 16 % 256 = omega arith in
    let q' : y % 16 ≡ u / 4 = omega arith in
    let r : o / 64 * 64 ≡ u % 4 * 64 % 256 = omega arith in
    let r' : o % 64 ≡ z = omega arith in
    let e : bit_or (v * 4 % 256) (w / 16) ≡ x =
      ap₂ bit_or (sym p) (sym p') ∙ or_four x (omega arith) in
    let f : bit_or (w % 16 * 16 % 256) (u / 4) ≡ y =
      ap₂ bit_or (sym q) (sym q') ∙ or_sixteen y (omega arith) in
    let g : bit_or (u % 4 * 64 % 256) z ≡ o =
      ap₂ bit_or (sym r) (sym r') ∙ or_sixty_four o (omega arith) in
    (rw e (omega arith), rw f (omega arith), rw g (omega arith))

-- The digits of the bytes are the digits that made them.
pub digits_of :
    (v w u z : ℕ)
    → v < 64
    → w < 64
    → u < 64
    → z < 64
    → (let n = quantum (byte_one v w) (byte_two w u) (byte_three u z) in
        (sextet n 3 ≡ v) × (sextet n 2 ≡ w) × (sextet n 1 ≡ u) × (sextet n 0 ≡ z))
digits_of v w u z hv hw hu hz =
    let (e, f, g) = bytes_of v w u z hv hw hu hz in rw (e, f, g) (omega arith)

-- One byte from two digits, if the low bits of the second are zero, and two from three.
pub encoding-one :
    (v w : ℕ)
    → v < 64
    → w < 64
    → w % 16 * 16 % 256 ≡ 0
    → encoding (byte_one v w ∷ []) ≡ digit v ∷ digit w ∷ pad ∷ pad ∷ []
encoding-one v w hv hw z =
    let (e, f, g) = bytes_of v w 0 0 hv hw (omega arith) (omega arith) in
    let p : sextet (quantum (byte_one v w) 0 0) 3 ≡ v = rw e (omega arith) in
    let q : sextet (quantum (byte_one v w) 0 0) 2 ≡ w = rw e (omega arith) in rw (p, q)

pub encoding-two :
    (v w u : ℕ)
    → v < 64
    → w < 64
    → u < 64
    → u % 4 * 64 % 256 ≡ 0
    → encoding (byte_one v w ∷ byte_two w u ∷ []) ≡ digit v ∷ digit w ∷ digit u ∷ pad ∷ []
encoding-two v w u hv hw hu z =
    let (e, f, g) = bytes_of v w u 0 hv hw hu (omega arith) in
    let n = quantum (byte_one v w) (byte_two w u) 0 in
    let p : sextet n 3 ≡ v = rw (e, f) (omega arith) in
    let q : sextet n 2 ≡ w = rw (e, f) (omega arith) in
    let r : sextet n 1 ≡ u = rw (e, f) (omega arith) in rw (p, q, r)
