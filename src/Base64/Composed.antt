-- ===== src/Base64/Composed.antt =====
-- Of base64.c.
-- `b64_ntop`, and `b64_pton` on the string that it leaves in memory.
use hassio_installer.Prelude.{
  ℕ, zero, suc, ◌≤◌, ◌<◌, ◌^◌, ◌≡◌, ◌≢◌, refl, true, not, ◌==◌, some, [], ◌∷◌, ◌++◌, arith, Bytes,
  All, length, c_string, done, tabulate, at_tabulate, drop,
}
use hassio_installer.Base64.{digit, pad, b64_ntop, b64_pton}
use hassio_installer.Base64.Encode.{
  IsByte, sextet, digit_at, encoding, encoded_size, b64_ntop-encoding,
}
use hassio_installer.Base64.Decode.{decoded_room, b64_pton-encoding}

abbrev IsText : ℕ → Type 0
IsText c = c ≢ 0

digits_text : tabulate (λ v. not (digit v == 0)) 64 ≡ true
unfolding tabulate digit
digits_text = refl

digit_at-IsText : (n k : ℕ) → IsText (digit_at n k)
digit_at-IsText n k e =
    ground
      (arith, at_tabulate (λ v. not (digit v == 0)) 64 (sextet n k) (omega arith) digits_text, e)

pad-IsText : IsText pad
pad-IsText e = ground arith

-- No character of an encoding is the '\0'.
encoding-IsText : (s : Bytes) → All IsText (encoding s)
encoding-IsText [] = tt
encoding-IsText (a ∷ []) =
    (digit_at-IsText _ 3, (digit_at-IsText _ 2, (pad-IsText, (pad-IsText, tt))))
encoding-IsText (a ∷ b ∷ []) =
    (digit_at-IsText _ 3, (digit_at-IsText _ 2, (digit_at-IsText _ 1, (pad-IsText, tt))))
encoding-IsText (a ∷ b ∷ c ∷ s) = (
  digit_at-IsText _ 3,
  (digit_at-IsText _ 2, (digit_at-IsText _ 1, (digit_at-IsText _ 0, encoding-IsText s))),
)

c_string-IsText : (s m : Bytes) → All IsText s → c_string (s ++ 0 ∷ m) ≡ s
unfolding c_string
c_string-IsText [] m h = refl
c_string-IsText (zero ∷ s) m (h, hs) = absurd (h refl)
c_string-IsText (suc c ∷ s) m (h, hs) = rw (c_string-IsText s m hs)

-- Bytes whose encoding has fewer than 2^31 characters go through both functions: if the memory
-- behind each target has the size that is passed, and the first exceeds four characters for each
-- three bytes or part of three, and the second leaves the room that `decoded_room` names,
-- `b64_pton` on the string that `b64_ntop` left returns the number of the bytes and has them at
-- the front of its target.
pub b64_pton-b64_ntop :
    (src first second : Bytes)
    → All IsByte src
    → encoded_size src < length first
    → decoded_room src ≤ length second
    → encoded_size src < 2 ^ 31
    → (m rest : Bytes) × (b64_ntop src first (length first) ≡ done (some (encoded_size src), m))
      × (b64_pton (c_string m) (some second) (length second)
          ≡ done (some (length src), some (src ++ rest)))
b64_pton-b64_ntop src first second h room space int =
    let m = encoding src ++ 0 ∷ drop (suc (encoded_size src)) first in
    let (rest, e, n) =
      b64_pton-encoding src second (length second) h space (omega arith) (omega arith) in
    (
      m,
      rest,
      b64_ntop-encoding src first (length first) h (omega arith) room int,
      rw
          (c_string-IsText (encoding src) (drop (suc (encoded_size src)) first)
            (encoding-IsText src))
          e,
    )
