-- ===== src/Base64/Encode/Full.antt =====
-- Of base64.c.
-- `b64_ntop` where the encoding does not fit.
use hassio_installer.Prelude.{
  ℕ, ◌+◌, ◌≤◌, ◌<◌, ◌≡◌, refl, true, none, [], ◌∷◌, ◌++◌, arith, Bytes, All, length, drop,
  length-append, ltb, done, Outcome, length-drop, lt→ltb, dec_lt,
}
use hassio_installer.Base64.{pad, ntop_end, Reply, ntop_tail, ntop_group, ntop_from, b64_ntop}
use hassio_installer.Base64.Encode.{
  IsByte, quantum, digit_at, quad, encoding, encoded_size, filled, put_four-filled, outs-sextet,
  sextet-ltb, filled-ltb, ntop_group-filled, length-encoding,
}

-- Where the encoding and its '\0' do not fit, -1 is returned and nothing is written out of bounds.
abbrev Rejects : ℕ → Outcome Reply → Type 0
Rejects n r = (t : Bytes) × (r ≡ done (none, t)) × (length t ≡ n)

length-filled : (xs ys : Bytes) → length (filled xs ys).target ≡ length xs + length ys
unfolding filled
length-filled xs ys = length-append xs ys

filled-ltb_gt :
    (targsize : ℕ) (xs ys : Bytes)
    → targsize < length xs + 4
    → ltb targsize ((filled xs ys).datalength + 4) ≡ true
unfolding filled
filled-ltb_gt targsize xs ys h = lt→ltb _ _ h

ntop_end-Rejects :
    (targsize : ℕ) (xs ys : Bytes)
    → targsize ≤ length xs
    → Rejects (length xs + length ys) (ntop_end targsize (filled xs ys))
unfolding ntop_end filled
ntop_end-Rejects targsize xs ys h = (xs ++ ys, ground arith, length-append xs ys)

ntop_group-filled_gt :
    (targsize a b c : ℕ) (xs ys : Bytes)
    → IsByte a
    → IsByte b
    → IsByte c
    → targsize < length xs + 4
    → ntop_group targsize a b c (filled xs ys) ≡ done none
unfolding ntop_group
ntop_group-filled_gt targsize a b c xs ys ha hb hc full =
    let (e3, e2, e1, e0) = outs-sextet a b c ha hb hc in
    rw (e3, e2, e1, e0, sextet-ltb _ 3, sextet-ltb _ 2, sextet-ltb _ 1, sextet-ltb _ 0)
      (rw (filled-ltb_gt targsize xs ys full))

ntop_tail-Rejects :
    (targsize a b third : ℕ) (xs ys : Bytes)
    → IsByte a
    → IsByte b
    → targsize ≤ length xs + 4
    → targsize ≤ length xs + length ys
    → Rejects (length xs + length ys) (ntop_tail targsize a b third (filled xs ys))
unfolding ntop_tail
ntop_tail-Rejects targsize a b third xs ys ha hb full room =
    let (e3, e2, e1, e0) = outs-sextet a b 0 ha hb (omega arith) in
    rw (e3, e2, e1, sextet-ltb _ 3, sextet-ltb _ 2, sextet-ltb _ 1)
      (elim (dec_lt targsize (length xs + 4)) [
        | yes lt ↦ rw (filled-ltb_gt targsize xs ys lt) (_, refl, length-filled xs ys)
        | no ge ↦
            let fits : length xs + 4 ≤ targsize = omega arith in
            let end =
              ntop_end-Rejects targsize
                (xs ++ digit_at (quantum a b 0) 3 ∷ digit_at (quantum a b 0) 2 ∷ third ∷ pad ∷ [])
                (drop 4 ys) (omega (arith, length-append {0})) in
            rw (filled-ltb targsize xs ys fits, put_four-filled xs ys _ _ _ _ (omega arith))
              (end.0, end.1, omega (arith, end.2, length-append {0}, length-drop {0}))
      ])

ntop_from-Rejects :
    (targsize : ℕ) (src xs ys : Bytes)
    → All IsByte src
    → targsize ≤ length xs + length (encoding src)
    → targsize ≤ length xs + length ys
    → Rejects (length xs + length ys) (ntop_from targsize src (filled xs ys))
unfolding ntop_from
ntop_from-Rejects targsize [] xs ys h full room = ntop_end-Rejects targsize xs ys (omega arith)
ntop_from-Rejects targsize (a ∷ []) xs ys h full room =
    ntop_tail-Rejects targsize a 0 pad xs ys h.0 (omega arith) full room
ntop_from-Rejects targsize (a ∷ b ∷ []) xs ys h full room =
    ntop_tail-Rejects targsize a b _ xs ys h.0 h.1.0 full room
ntop_from-Rejects targsize (a ∷ b ∷ c ∷ src) xs ys h full room =
    elim (dec_lt targsize (length xs + 4)) [
      | yes lt ↦
          rw (ntop_group-filled_gt targsize a b c xs ys h.0 h.1.0 h.1.1.0 lt)
            (_, refl, length-filled xs ys)
      | no ge ↦
          let (t, e, n) =
            ntop_from-Rejects targsize src (xs ++ quad (quantum a b c)) (drop 4 ys) h.1.1.1
              (omega (arith, length-append {0}))
              (omega (arith, length-append {0}, length-drop {0})) in
          rw (ntop_group-filled targsize a b c xs ys h.0 h.1.0 h.1.1.0 (omega arith) room)
            (t, e, omega (arith, n, length-append {0}, length-drop {0}))
    ]

-- If the encoding and its '\0' do not fit in `targsize`, which does not exceed the memory behind
-- `target`, `b64_ntop` returns -1, without a fault or an abort, and the memory keeps its length.
pub b64_ntop_full :
    (src target : Bytes) (targsize : ℕ)
    → All IsByte src
    → targsize ≤ length target
    → targsize ≤ encoded_size src
    → (t : Bytes) × (b64_ntop src target targsize ≡ done (none, t)) × (length t ≡ length target)
unfolding b64_ntop filled
b64_ntop_full src target targsize h room full =
    let (t, e, n) =
      ntop_from-Rejects targsize src [] target h (omega (arith, length-encoding src))
        (omega arith) in
    (t, e, omega arith)
