-- ===== src/Base64/Decode.antt =====
-- Of base64.c.
-- `b64_pton` on what `b64_ntop` writes.
use Prim.Native.Nat.{bit_or}
use hassio_installer.Prelude.{
  ℕ, ◌+◌, ◌-◌, ◌^◌, false, ◌*◌, ◌/◌, ◌%◌, ◌≤◌, ◌<◌, ◌≡◌, refl, ◌∙◌, some, [], ◌∷◌, ◌++◌,
  append_assoc, append-nil, arith, Bytes, All, length, length-append, store-append,
  store-append_next, get_elem?-append, done, Outcome, le→leb_false, ltb,
}
use hassio_installer.Base64.{
  digit, pad, Phase, first, second, third, fourth, Decoder, Decoded, pton_step, store_bits,
  pton_from, b64_pton, isspace, moved,
}
use hassio_installer.Base64.Alphabet.{digit_reads, or_four, or_sixteen, or_sixty_four}
use hassio_installer.Base64.Encode.{IsByte, sextet, quantum, digit_at, quad, encoding}

-- The decoder when the bytes `xs` are complete and `ys` is the memory behind them.
unfoldable pub decoder : Phase → Bytes → Bytes → Decoder
decoder p xs ys = record { target = some (xs ++ ys); tarindex = length xs; state = p }

pub int_index : (n : ℕ) → n < 2 ^ 31 → ltb (2 ^ 31 - 1) n ≡ false
int_index n h = ground arith

pub step_first :
    (targsize v : ℕ) (xs : Bytes)
    → length xs < 2 ^ 31
    → (y : ℕ) (ys : Bytes) → length xs < targsize
    → pton_step targsize v (decoder first xs (y ∷ ys))
      ≡ done (some (decoder second xs (v * 4 % 256 ∷ ys)))
unfolding pton_step store_bits decoder moved
step_first targsize v xs int y ys h =
    rw (le→leb_false _ _ h, store-append xs (v * 4 % 256) y ys, int_index (length xs) int)

module _ (targsize v : ℕ) (xs : Bytes) (int : length xs + 1 < 2 ^ 31) where
  pub step_second :
      (x y : ℕ) (ys : Bytes)
      → length xs + 1 < targsize
      → pton_step targsize v (decoder second xs (x ∷ y ∷ ys))
        ≡ done (some (decoder third (xs ++ bit_or x (v / 16) % 256 ∷ []) (v % 16 * 16 % 256 ∷ ys)))
  unfolding pton_step store_bits decoder moved
  step_second x y ys h =
      rw
        (
          le→leb_false _ _ h,
          get_elem?-append xs x (y ∷ ys),
          store-append xs (bit_or x (v / 16) % 256) x (y ∷ ys),
          store-append_next xs (v % 16 * 16 % 256) _ y ys,
          int_index (length xs + 1) int,
        )
        (rw (length-append {0}, append_assoc))

  pub step_third :
      (x y : ℕ) (ys : Bytes)
      → length xs + 1 < targsize
      → pton_step targsize v (decoder third xs (x ∷ y ∷ ys))
        ≡ done (some (decoder fourth (xs ++ bit_or x (v / 4) % 256 ∷ []) (v % 4 * 64 % 256 ∷ ys)))
  unfolding pton_step store_bits decoder moved
  step_third x y ys h =
      rw
        (
          le→leb_false _ _ h,
          get_elem?-append xs x (y ∷ ys),
          store-append xs (bit_or x (v / 4) % 256) x (y ∷ ys),
          store-append_next xs (v % 4 * 64 % 256) _ y ys,
          int_index (length xs + 1) int,
        )
        (rw (length-append {0}, append_assoc))

  pub step_fourth :
      (x : ℕ) (ys : Bytes)
      → length xs < targsize
      → pton_step targsize v (decoder fourth xs (x ∷ ys))
        ≡ done (some (decoder first (xs ++ bit_or x v % 256 ∷ []) ys))
  unfolding pton_step store_bits decoder moved
  step_fourth x ys h =
      rw
        (
          le→leb_false _ _ h,
          get_elem?-append xs x ys,
          store-append xs (bit_or x v % 256) x ys,
          int_index (length xs + 1) int,
        )
        (rw (length-append {0}, append_assoc))

-- A digit takes the switch.
pton_from-digit :
    (targsize v : ℕ) (s : Bytes) (d d' : Decoder)
    → v < 64
    → pton_step targsize v d ≡ done (some d')
    → pton_from targsize (digit v ∷ s) d ≡ pton_from targsize s d'
unfolding pton_from
pton_from-digit targsize v s d d' h e = ground (arith, digit_reads v h, e)

-- The stored fields join to the bytes of the group.
joined :
    (a b c : ℕ)
    → IsByte a
    → IsByte b
    → IsByte c
    → (let n = quantum a b c in
        (bit_or (sextet n 3 * 4 % 256) (sextet n 2 / 16) % 256 ≡ a)
        × (bit_or (sextet n 2 % 16 * 16 % 256) (sextet n 1 / 4) % 256 ≡ b)
        × (bit_or (sextet n 1 % 4 * 64 % 256) (sextet n 0) % 256 ≡ c))
joined a b c ha hb hc =
    let n = quantum a b c in
    let p : sextet n 3 * 4 % 256 ≡ a / 4 * 4 = omega arith in
    let p' : sextet n 2 / 16 ≡ a % 4 = omega arith in
    let q : sextet n 2 % 16 * 16 % 256 ≡ b / 16 * 16 = omega arith in
    let q' : sextet n 1 / 4 ≡ b % 16 = omega arith in
    let r : sextet n 1 % 4 * 64 % 256 ≡ c / 64 * 64 = omega arith in
    let r' : sextet n 0 ≡ c % 64 = omega arith in
    (
      rw (p, p', or_four a ha) (omega arith),
      rw (q, q', or_sixteen b hb) (omega arith),
      rw (r, r', or_sixty_four c hc) (omega arith),
    )

module _ (targsize a b c : ℕ) (xs : Bytes) (ha : IsByte a) (hb : IsByte b) (hc : IsByte c) where
  -- Two digits complete the first byte, a third one the second, a fourth the last.
  pton_from-two :
      (y0 y1 : ℕ) (ys s : Bytes)
      → length xs + 1 < targsize
      → length xs + 1 < 2 ^ 31
      → (let n = quantum a b c in
          pton_from targsize (digit_at n 3 ∷ digit_at n 2 ∷ s) (decoder first xs (y0 ∷ y1 ∷ ys))
          ≡ pton_from targsize s (decoder third (xs ++ a ∷ []) (sextet n 2 % 16 * 16 % 256 ∷ ys)))
  pton_from-two y0 y1 ys s h int =
      pton_from-digit _ _ _ _ _ (omega arith)
        (step_first _ _ xs (omega arith) y0 (y1 ∷ ys) (omega arith))
      ∙ pton_from-digit _ _ _ _ _ (omega arith) (step_second _ _ xs int _ y1 ys h)
      ∙ rw ((joined a b c ha hb hc).0)

  pton_from-three :
      (y0 y1 y2 : ℕ) (ys s : Bytes)
      → length xs + 2 < targsize
      → length xs + 2 < 2 ^ 31
      → (let n = quantum a b c in
          pton_from targsize
            (digit_at n 3 ∷ digit_at n 2 ∷ digit_at n 1 ∷ s)
            (decoder first xs (y0 ∷ y1 ∷ y2 ∷ ys))
          ≡ pton_from targsize s
              (decoder fourth ((xs ++ a ∷ []) ++ b ∷ []) (sextet n 1 % 4 * 64 % 256 ∷ ys)))
  pton_from-three y0 y1 y2 ys s h int =
      pton_from-two y0 y1 (y2 ∷ ys) _ (omega arith) (omega arith)
      ∙ pton_from-digit _ _ _ _ _ (omega arith) (
          step_third _ _ (xs ++ a ∷ []) (omega (arith, length-append {0})) _ y2 ys
            (omega (arith, length-append {0})))
      ∙ rw ((joined a b c ha hb hc).1)

  pton_from-quad :
      (y0 y1 y2 : ℕ) (ys s : Bytes)
      → length xs + 2 < targsize
      → length xs + 3 < 2 ^ 31
      → pton_from targsize (quad (quantum a b c) ++ s) (decoder first xs (y0 ∷ y1 ∷ y2 ∷ ys))
        ≡ pton_from targsize s (decoder first (((xs ++ a ∷ []) ++ b ∷ []) ++ c ∷ []) ys)
  pton_from-quad y0 y1 y2 ys s h int =
      pton_from-three y0 y1 y2 ys _ h (omega arith)
      ∙ pton_from-digit _ _ _ _ _ (omega arith) (
          step_fourth _ _ ((xs ++ a ∷ []) ++ b ∷ []) (omega (arith, length-append {0})) _ ys
            (omega (arith, length-append {0})))
      ∙ rw ((joined a b c ha hb hc).2)

-- Behind complete bytes a zero byte passes the last test.
module _ (targsize : ℕ) (xs ys : Bytes) where
  pton_from_one_pad :
      pton_from targsize (pad ∷ []) (decoder fourth xs (0 ∷ ys))
      ≡ done (some (length xs), some (xs ++ 0 ∷ ys))
  unfolding pton_from decoder isspace
  pton_from_one_pad = rw (get_elem?-append xs 0 ys)

  pton_from_two_pads :
      pton_from targsize (pad ∷ pad ∷ []) (decoder third xs (0 ∷ ys))
      ≡ done (some (length xs), some (xs ++ 0 ∷ ys))
  unfolding pton_from decoder isspace
  pton_from_two_pads = rw (get_elem?-append xs 0 ys)

  pton_from-nil :
      pton_from targsize [] (decoder first xs ys) ≡ done (some (length xs), some (xs ++ ys))
  unfolding pton_from decoder
  pton_from-nil = refl

-- The lower bits of the last digit are the zero bits that were added.
no_extra_bits :
    (a b : ℕ)
    → (sextet (quantum a 0 0) 2 % 16 * 16 % 256 ≡ 0) × (sextet (quantum a b 0) 1 % 4 * 64 % 256 ≡ 0)
no_extra_bits a b = omega arith

-- What the target needs: `b64_pton` stores one byte ahead where the input ends in padding.
abbrev pub decoded_room : Bytes → ℕ
decoded_room [] = 0
decoded_room (a ∷ []) = 2
decoded_room (a ∷ b ∷ []) = 3
decoded_room (a ∷ b ∷ c ∷ s) = decoded_room s + 3

abbrev Gives : Outcome Decoded → Bytes → ℕ → Type 0
Gives r bs n =
    (rest : Bytes) × (r ≡ done (some (length bs), some (bs ++ rest))) × (length (bs ++ rest) ≡ n)

pton_from-encoding :
    (targsize : ℕ) (src xs ys : Bytes)
    → All IsByte src
    → length xs + decoded_room src ≤ targsize
    → length xs + length src < 2 ^ 31
    → targsize ≤ length xs + length ys
    → Gives
        (pton_from targsize (encoding src) (decoder first xs ys))
        (xs ++ src)
        (length xs + length ys)
pton_from-encoding targsize [] xs ys h fits int room =
    (ys, rw append-nil (pton_from-nil targsize xs ys), rw append-nil (length-append xs ys))
pton_from-encoding targsize (a ∷ []) xs (y0 ∷ y1 ∷ ys) h fits int room = (
  0 ∷ ys,
  pton_from-two targsize a 0 0 xs h.0 (omega arith) (omega arith) y0 y1 ys _ (omega arith)
        (omega arith)
      ∙ rw ((no_extra_bits a 0).0) (pton_from_two_pads targsize (xs ++ a ∷ []) ys),
  omega (arith, length-append {0}),
)
pton_from-encoding targsize (a ∷ b ∷ []) xs (y0 ∷ y1 ∷ y2 ∷ ys) h fits int room = (
  0 ∷ ys,
  pton_from-three targsize a b 0 xs h.0 h.1.0 (omega arith) y0 y1 y2 ys _ (omega arith)
        (omega arith)
      ∙ rw ((no_extra_bits a b).1, pton_from_one_pad targsize ((xs ++ a ∷ []) ++ b ∷ []) ys)
          (simp append_assoc),
  omega (arith, length-append {0}),
)
pton_from-encoding targsize (a ∷ b ∷ c ∷ src) xs (y0 ∷ y1 ∷ y2 ∷ ys) h fits int room =
    let xs' = ((xs ++ a ∷ []) ++ b ∷ []) ++ c ∷ [] in
    let (rest, e, n) =
      pton_from-encoding targsize src xs' ys h.1.1.1 (omega (arith, length-append {0}))
        (omega (arith, length-append {0})) (omega (arith, length-append {0})) in
    let same : xs' ++ src ≡ xs ++ (a ∷ b ∷ c ∷ src) = simp append_assoc in
    (
      rest,
      pton_from-quad targsize a b c xs h.0 h.1.0 h.1.1.0 y0 y1 y2 ys (encoding src) (omega arith)
            (omega arith)
          ∙ e
          ∙ rw same,
      rw (← same) (omega (arith, n, length-append {0})),
    )
pton_from-encoding targsize (a ∷ src) xs _ h fits int room = absurd (omega arith)

-- `b64_pton` takes the encoding of fewer than 2^31 bytes back to them and returns their number, if
-- `targsize` does not exceed the target and leaves the room that `decoded_room` names: the number
-- of bytes, and one more unless it is a multiple of three. The target keeps its length.
pub b64_pton-encoding :
    (src target : Bytes) (targsize : ℕ)
    → All IsByte src
    → decoded_room src ≤ targsize
    → length src < 2 ^ 31
    → targsize ≤ length target
    → (rest : Bytes) × (b64_pton (encoding src) (some target) targsize
        ≡ done (some (length src), some (src ++ rest)))
      × (length (src ++ rest) ≡ length target)
unfolding b64_pton decoder
b64_pton-encoding src target targsize h fits int room =
    let (rest, e, n) =
      pton_from-encoding targsize src [] target h (omega arith) (omega arith) (omega arith) in
    (rest, e, omega arith)
