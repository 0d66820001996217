-- ===== src/Base64/Encode.antt =====
-- Of base64.c.
-- `b64_ntop` against the encoding that RFC 1521 describes: groups of 24 bits, read as four digits
-- of 6 bits, the last group filled with zero bits and pad characters.
pub mod Full
use hassio_installer.Prelude.{
  ℕ, zero, suc, ◌+◌, ◌*◌, ◌/◌, ◌%◌, ◌^◌, ◌≤◌, ◌<◌, ◌≡◌, refl, ◌∙◌, true, false, none, some, [], ◌∷◌,
  ◌++◌, append_assoc, append-nil, arith, Bytes, All, length, drop, length-append, ltb, store-append,
  done, Outcome, length-drop, le→ltb, lt→ltb, dec_lt,
}
use hassio_installer.Base64.{
  digit, pad, out_first, out_second, out_third, out_fourth, Writer, put, put_four, ntop_end, Reply,
  ntop_tail, ntop_group, ntop_from, b64_ntop, as_int,
}

abbrev pub IsByte : ℕ → Type 0
IsByte c = c < 256

-- The digits of a group of 24 bits, the highest first.
abbrev pub sextet : ℕ → ℕ → ℕ
sextet n k = n / 64 ^ k % 64

abbrev pub quantum : ℕ → ℕ → ℕ → ℕ
quantum a b c = (a * 256 + b) * 256 + c

abbrev pub digit_at : ℕ → ℕ → ℕ
digit_at n k = digit (sextet n k)

abbrev pub quad : ℕ → Bytes
quad n = digit_at n 3 ∷ digit_at n 2 ∷ digit_at n 1 ∷ digit_at n 0 ∷ []

abbrev pub encoding : Bytes → Bytes
encoding [] = []
encoding (a ∷ []) = digit_at (quantum a 0 0) 3 ∷ digit_at (quantum a 0 0) 2 ∷ pad ∷ pad ∷ []
encoding (a ∷ b ∷ []) =
    digit_at (quantum a b 0) 3 ∷ digit_at (quantum a b 0) 2 ∷ digit_at (quantum a b 0) 1 ∷ pad ∷ []
encoding (a ∷ b ∷ c ∷ s) = quad (quantum a b c) ++ encoding s

-- Four characters for each group of three bytes, a last incomplete one included.
pub length-encoding : (s : Bytes) → length (encoding s) ≡ (length s + 2) / 3 * 4
length-encoding [] = omega arith
length-encoding (a ∷ []) = omega arith
length-encoding (a ∷ b ∷ []) = omega arith
length-encoding (a ∷ b ∷ c ∷ s) = omega (arith, length-encoding s)

-- The writer when `xs` is written and `ys` is the memory behind it.
unfoldable pub filled : Bytes → Bytes → Writer
filled xs ys = record { target = xs ++ ys; datalength = length xs }

put-filled :
    (xs ys : Bytes) (y c : ℕ) → put (filled xs (y ∷ ys)) c ≡ done (filled (xs ++ c ∷ []) ys)
unfolding put filled
put-filled xs ys y c = rw (store-append xs c y ys, length-append {0}, append_assoc)

pub put_four-filled :
    (xs ys : Bytes) (c0 c1 c2 c3 : ℕ)
    → 4 ≤ length ys
    → put_four (filled xs ys) c0 c1 c2 c3 ≡ done (filled (xs ++ c0 ∷ c1 ∷ c2 ∷ c3 ∷ []) (drop 4 ys))
unfolding put_four
put_four-filled xs (y0 ∷ y1 ∷ y2 ∷ y3 ∷ ys) c0 c1 c2 c3 h = simp (put-filled, append_assoc)
put_four-filled xs _ c0 c1 c2 c3 h = absurd (omega arith)

-- The shifts and masks of the code pick out the 6-bit digits of the group.
pub outs-sextet :
    (a b c : ℕ)
    → IsByte a
    → IsByte b
    → IsByte c
    → (out_first a ≡ sextet (quantum a b c) 3)
      × (out_second a b ≡ sextet (quantum a b c) 2)
      × (out_third b c ≡ sextet (quantum a b c) 1)
      × (out_fourth c ≡ sextet (quantum a b c) 0)
outs-sextet a b c ha hb hc = omega arith

pub sextet-ltb : (n k : ℕ) → ltb (sextet n k) 64 ≡ true
sextet-ltb n k = ground arith

pub filled-ltb :
    (targsize : ℕ) (xs ys : Bytes)
    → length xs + 4 ≤ targsize
    → ltb targsize ((filled xs ys).datalength + 4) ≡ false
unfolding filled
filled-ltb targsize xs ys h = le→ltb _ _ h

pub ntop_group-filled :
    (targsize a b c : ℕ) (xs ys : Bytes)
    → IsByte a
    → IsByte b
    → IsByte c
    → length xs + 4 ≤ targsize
    → targsize ≤ length xs + length ys
    → ntop_group targsize a b c (filled xs ys)
      ≡ done (some (filled (xs ++ quad (quantum a b c)) (drop 4 ys)))
unfolding ntop_group
ntop_group-filled targsize a b c xs ys ha hb hc fits room =
    let (e3, e2, e1, e0) = outs-sextet a b c ha hb hc in
    rw (e3, e2, e1, e0, sextet-ltb _ 3, sextet-ltb _ 2, sextet-ltb _ 1, sextet-ltb _ 0)
      (rw (filled-ltb targsize xs ys fits, put_four-filled xs ys _ _ _ _ (omega arith)))

ntop_end-filled :
    (targsize : ℕ) (xs ys : Bytes)
    → length xs < targsize
    → targsize ≤ length xs + length ys
    → ntop_end targsize (filled xs ys) ≡ done (as_int (length xs), xs ++ 0 ∷ drop 1 ys)
unfolding ntop_end filled
ntop_end-filled targsize xs [] fits room = absurd (omega arith)
ntop_end-filled targsize xs (y ∷ ys) fits room = ground (arith, store-append xs 0 y ys)

-- A last group of one or two bytes; `third` is the character that the branch chooses.
ntop_tail-filled :
    (targsize a b third : ℕ) (xs ys : Bytes)
    → IsByte a
    → IsByte b
    → length xs + 4 < targsize
    → targsize ≤ length xs + length ys
    → (let four =
          xs ++ digit_at (quantum a b 0) 3 ∷ digit_at (quantum a b 0) 2 ∷ third ∷ pad ∷ [] in
        ntop_tail targsize a b third (filled xs ys)
        ≡ done (as_int (length four), four ++ 0 ∷ drop 1 (drop 4 ys)))
unfolding ntop_tail
ntop_tail-filled targsize a b third xs ys ha hb fits room =
    let (e3, e2, e1, e0) = outs-sextet a b 0 ha hb (omega arith) in
    rw (e3, e2, e1, sextet-ltb _ 3, sextet-ltb _ 2, sextet-ltb _ 1)
      (rw (filled-ltb targsize xs ys (omega arith), put_four-filled xs ys _ _ _ _ (omega arith))
        (ntop_end-filled targsize _ _ (omega (arith, length-append {0}))
          (omega (arith, length-append {0}, length-drop {0}))))

drop_four : (n : ℕ) (ys : Bytes) → drop n (drop 4 ys) ≡ drop (suc (suc (suc (suc n)))) ys
drop_four n (y0 ∷ y1 ∷ y2 ∷ y3 ∷ ys) = refl
drop_four zero _ = refl
drop_four (suc n) _ = refl

ntop_from-filled :
    (targsize : ℕ) (src xs ys : Bytes)
    → All IsByte src
    → length xs + length (encoding src) < targsize
    → targsize ≤ length xs + length ys
    → ntop_from targsize src (filled xs ys)
      ≡ done (
        as_int (length (xs ++ encoding src)),
        (xs ++ encoding src) ++ 0 ∷ drop (suc (length (encoding src))) ys,
      )
unfolding ntop_from
ntop_from-filled targsize [] xs ys h fits room =
    rw append-nil (ntop_end-filled targsize xs ys (omega arith) room)
ntop_from-filled targsize (a ∷ []) xs ys h fits room =
    ntop_tail-filled targsize a 0 pad xs ys h.0 (omega arith) fits room ∙ rw (drop_four 1 ys)
ntop_from-filled targsize (a ∷ b ∷ []) xs ys h fits room =
    ntop_tail-filled targsize a b _ xs ys h.0 h.1.0 fits room
    ∙ rw ((outs-sextet a b 0 h.0 h.1.0 (omega arith)).2, drop_four 1 ys)
ntop_from-filled targsize (a ∷ b ∷ c ∷ src) xs ys h fits room =
    rw (ntop_group-filled targsize a b c xs ys h.0 h.1.0 h.1.1.0 (omega arith) room) (
      ntop_from-filled targsize src _ (drop 4 ys) h.1.1.1 (omega (arith, length-append {0}))
        (omega (arith, length-append {0}, length-drop {0}))
      ∙ rw (drop_four _ ys, append_assoc))

-- The room that `b64_ntop` takes, without the '\0'.
abbrev pub encoded_size : Bytes → ℕ
encoded_size src = (length src + 2) / 3 * 4

as_int_small : (n : ℕ) → n < 2 ^ 31 → as_int n ≡ some n
as_int_small n h = ground arith

-- For any bytes, if `targsize` does not exceed the memory behind `target` and exceeds four
-- characters for each three bytes or part of three, a number below 2^31, `b64_ntop` returns that
-- number and leaves the RFC 1521 encoding and a '\0' at the front of the memory, and what stood
-- behind them as it was.
pub b64_ntop-encoding :
    (src target : Bytes) (targsize : ℕ)
    → All IsByte src
    → targsize ≤ length target
    → encoded_size src < targsize
    → encoded_size src < 2 ^ 31
    → b64_ntop src target targsize
      ≡ done (some (encoded_size src), encoding src ++ 0 ∷ drop (suc (encoded_size src)) target)
unfolding b64_ntop filled
b64_ntop-encoding src target targsize h room fits small =
    rw (← as_int_small (encoded_size src) small) (
      rw (← length-encoding src) (
        ntop_from-filled targsize src [] target h (omega (arith, length-encoding src))
          (omega arith)))
