-- ===== src/Base64/Rounds.antt =====
-- Of base64.c.
-- The rounds of the loop of `b64_pton`, one equation for each kind of character.
use hassio_installer.Prelude.{
  ℕ, ◌≡◌, true, false, none, some, ◌∷◌, arith, Bytes, ◌==◌, inl, inr, Bool-cases, Option-cases,
  done, ◌>>=◌, refl,
}
use hassio_installer.Base64.{
  alphabet, pad, isspace, position, Decoder, pton_step, padded, pton_from,
}

-- What a character of the input is.
pub data Kind (c : ℕ) : Type 0 where
  space : isspace c ≡ true → Kind c
  padding : isspace c ≡ false → (c == pad) ≡ true → Kind c
  foreign : isspace c ≡ false → (c == pad) ≡ false → position alphabet c ≡ none → Kind c
  value : (v : ℕ) → isspace c ≡ false → (c == pad) ≡ false → position alphabet c ≡ some v → Kind c

pub kind : (c : ℕ) → Kind c
kind c = elim (Bool-cases (isspace c)) [
  | inl h ↦ space h
  | inr h ↦ elim (Bool-cases (c == pad)) [
    | inl e ↦ padding h e
    | inr e ↦ elim (Option-cases (position alphabet c)) [
      | inl f ↦ foreign h e f
      | inr (v, f) ↦ value v h e f
    ]
  ]
]

module _ (targsize c : ℕ) (s : Bytes) (d : Decoder) where
  pub pton_from-space : isspace c ≡ true → pton_from targsize (c ∷ s) d ≡ pton_from targsize s d
  unfolding pton_from
  pton_from-space h = ground arith

  pub pton_from-padding :
      isspace c ≡ false → (c == pad) ≡ true → pton_from targsize (c ∷ s) d ≡ padded d.state s d
  unfolding pton_from
  pton_from-padding h e = ground arith

  pub pton_from-foreign :
      isspace c ≡ false
      → (c == pad) ≡ false
      → position alphabet c ≡ none
      → pton_from targsize (c ∷ s) d ≡ done (none, d.target)
  unfolding pton_from
  pton_from-foreign h e f = ground arith

  module _ (v : ℕ) (h : isspace c ≡ false) (e : (c == pad) ≡ false)
      (f : position alphabet c ≡ some v) where
    pub pton_from-refused :
        pton_step targsize v d ≡ done none → pton_from targsize (c ∷ s) d ≡ done (none, d.target)
    unfolding pton_from
    pton_from-refused g = ground arith

    pub pton_from-value :
        (d' : Decoder)
        → pton_step targsize v d ≡ done (some d')
        → pton_from targsize (c ∷ s) d ≡ pton_from targsize s d'
    unfolding pton_from
    pton_from-value d' g = ground arith

    -- Whatever the step comes to.
    pub pton_from_step : pton_from targsize (c ∷ s) d ≡ (
        pton_step targsize v d >>= λ r. elim r [
          | none ↦ done (none, d.target)
          | some d' ↦ pton_from targsize s d'
        ])
    unfolding pton_from
    pton_from_step = rw (pton_from, h, e, f) refl
