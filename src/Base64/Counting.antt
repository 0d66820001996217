-- ===== src/Base64/Counting.antt =====
-- Of base64.c.
-- `b64_pton` without a target, which only counts the bytes.
use hassio_installer.Prelude.{
  ℕ, ◌-◌, ◌^◌, ltb, Bool, ◌≡◌, true, false, Option, none, some, [], ◌∷◌, Bytes, arith, Outcome,
  done, fault, aborted, read, ◌>>=◌, ◌==◌, if◌then◌else◌, Bool-cases, Option-cases, inl, inr,
}
use hassio_installer.Base64.{
  alphabet, pad, isspace, position, Phase, first, second, third, fourth, Decoder, Decoded,
  store_bits, advance, next_index, pton_step, moved, skip_spaces, only_spaces, extra_bits, pad_end,
  second_pad, padded, unpadded, pton_from, b64_pton,
}

-- Two decoders at the same place, of which the second has no target.
abbrev at : Option Bytes → ℕ → Phase → Decoder
at t i p = record { target = t; tarindex = i; state = p }

-- The second call accepts what the first does, with the same number.
abbrev Counts : Outcome Decoded → Outcome Decoded → Type 0
Counts r q = (k : ℕ) (t : Option Bytes) → r ≡ done (some k, t) → q ≡ done (some k, none)

refused-Counts : (t : Option Bytes) (q : Outcome Decoded) → Counts (done (none, t)) q
refused-Counts t q k u e = cc

if_Counts :
    (b : Bool) (r r' q q' : Outcome Decoded)
    → Counts r q
    → Counts r' q'
    → Counts (if b then r else r') (if b then q else q')
if_Counts true r r' q q' h h' = h
if_Counts false r r' q q' h h' = h'

zero_bits :
    (x : Outcome ℕ) (i : ℕ) (m : Bytes)
    → Counts (x >>= λ b. done ((if b == 0 then some i else none), some m)) (done (some i, none))
zero_bits (done b) i m k t e = elim (Bool-cases (b == 0)) [
  | inl z ↦ ground (arith, z)
  | inr z ↦ ground (arith, z)
]
zero_bits fault i m k t e = cc
zero_bits aborted i m k t e = cc

module _ (m : Bytes) (i : ℕ) (p : Phase) where
  extra_bits-Counts : Counts (extra_bits (at (some m) i p)) (extra_bits (at none i p))
  unfolding extra_bits
  extra_bits-Counts = zero_bits (read m i) i m

  pad_end-Counts : (s : Bytes) → Counts (pad_end s (at (some m) i p)) (pad_end s (at none i p))
  unfolding pad_end
  pad_end-Counts s =
      if_Counts (only_spaces s) _ _ _ _ extra_bits-Counts
        (refused-Counts (some m) (done (none, none)))

  second_pad-Counts :
      (s : Bytes) → Counts (second_pad s (at (some m) i p)) (second_pad s (at none i p))
  unfolding second_pad
  second_pad-Counts [] = refused-Counts (some m) _
  second_pad-Counts (c ∷ s) =
      if_Counts (c == pad) _ _ _ _ (pad_end-Counts s) (refused-Counts (some m) (done (none, none)))

padded-Counts :
    (q : Phase) (s : Bytes) (m : Bytes) (i : ℕ) (p : Phase)
    → Counts (padded q s (at (some m) i p)) (padded q s (at none i p))
unfolding padded
padded-Counts first s m i p = refused-Counts (some m) _
padded-Counts second s m i p = refused-Counts (some m) _
padded-Counts third s m i p = second_pad-Counts m i p (skip_spaces s)
padded-Counts fourth s m i p = pad_end-Counts m i p s

unpadded-Counts :
    (p : Phase) (m : Bytes) (i : ℕ)
    → Counts (unpadded p (at (some m) i p)) (unpadded p (at none i p))
unfolding unpadded
unpadded-Counts first m i k t e = ground (arith, e)
unpadded-Counts second m i k t e = refused-Counts (some m) _ k t e
unpadded-Counts third m i k t e = refused-Counts (some m) _ k t e
unpadded-Counts fourth m i k t e = refused-Counts (some m) _ k t e

-- What a stored digit leads to, whatever the store comes to.
stored-Counts :
    (x : Outcome (Option Bytes)) (m : Bytes) (p : Phase) (i : ℕ)
    (go null : Decoder → Outcome Decoded)
    → ((t : Bytes)
        → Counts
            (go (at (some t) (next_index p i) (advance p)))
            (null (at none (next_index p i) (advance p))))
    → Counts
        ((x >>= λ r. elim r [ none ↦ done none | some t ↦ moved (at (some m) i p) (some t) ])
          >>= λ r. elim r [ none ↦ done (none, some m) | some d ↦ go d ])
        (moved (at none i p) none >>= λ r. elim r [ none ↦ done (none, none) | some d ↦ null d ])
unfolding moved
stored-Counts (done none) m p i go null h = refused-Counts (some m) _
stored-Counts (done (some u)) m p i go null h =
    elim (Bool-cases (ltb (2 ^ 31 - 1) (next_index p i))) [
      | inl over ↦ rw over (λ k t e. cc)
      | inr int ↦ rw int (h u)
    ]
stored-Counts fault m p i go null h = λ k t e. cc
stored-Counts aborted m p i go null h = λ k t e. cc

pton_from-Counts :
    (s : Bytes) (n n' : ℕ) (m : Bytes) (i : ℕ) (p : Phase)
    → Counts (pton_from n s (at (some m) i p)) (pton_from n' s (at none i p))
unfolding pton_from pton_step
pton_from-Counts [] n n' m i p = unpadded-Counts p m i
pton_from-Counts (c ∷ s) n n' m i p = elim (Bool-cases (isspace c)) [
  | inl e ↦ rw (pton_from, e) (pton_from-Counts s n n' m i p)
  | inr e ↦ elim (Bool-cases (c == pad)) [
    | inl f ↦ rw (pton_from, e, f) (padded-Counts p s m i p)
    | inr f ↦ elim (Option-cases (position alphabet c)) [
      | inl g ↦ rw (pton_from, e, f, g) (refused-Counts (some m) _)
      | inr (v, g) ↦
          rw (pton_from, e, f, g)
            (stored-Counts (store_bits n p i v m) m p i (pton_from n s) (pton_from n' s)
              (λ t. pton_from-Counts s n n' t (next_index p i) (advance p)))
    ]
  ]
]

-- Whatever `b64_pton` decodes into a target, it counts alike without one, where no size is looked
-- at: a first call with NULL tells how many bytes the second one stores.
pub b64_pton-counts :
    (src target : Bytes) (targsize size k : ℕ) (t : Option Bytes)
    → b64_pton src (some target) targsize ≡ done (some k, t)
    → b64_pton src none size ≡ done (some k, none)
unfolding b64_pton
b64_pton-counts src target targsize size k t e =
    pton_from-Counts src targsize size target 0 first k t e
