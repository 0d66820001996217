-- ===== src/Base64/Canonical.antt =====
-- Of base64.c.
-- What `b64_pton` accepts is an encoding, with white space in between.
use hassio_installer.Prelude.{
  ℕ, ◌-◌, ◌^◌, ltb, Option, Outcome, fault, aborted, ◌>>=◌, ◌+◌, ◌*◌, ◌%◌, ◌≤◌, ◌<◌, ◌≡◌, sym, ap,
  subst, true, false, none, some, [], ◌∷◌, ◌++◌, append-nil, arith, Bytes, length, take,
  length-append, leb, ◌==◌, Bool-cases, inl, inr, done, ==_iff,
}
use hassio_installer.Base64.{
  alphabet, digit, pad, position, isspace, Phase, first, second, third, fourth, Decoder, sized,
  store_bits, pton_step, pton_from, b64_pton, moved, next_index, Decoded,
}
use hassio_installer.Base64.Rounds.{
  kind, space, padding, foreign, value, pton_from-space, pton_from-padding, pton_from-foreign,
  pton_from-refused, pton_from-value, pton_from_step,
}
use hassio_installer.Base64.Encode.{encoding}
use hassio_installer.Base64.Decode.{decoder, step_first, step_second, step_third, step_fourth}
use hassio_installer.Base64.Groups.{
  digit-position, Group, begun, one, two, three, byte_one, byte_two, byte_three, within, seen,
  Small, size,
}
use hassio_installer.Base64.Endings.{no_space, Sound, unpadded-Sound, padded-Sound, group-Sound}

-- The index that a store needs.
abbrev needs : Phase → ℕ → ℕ
needs first i = i
needs second i = i + 1
needs third i = i + 1
needs fourth i = i

pton_step_full :
    (targsize v : ℕ) (p : Phase) (zs ys : Bytes)
    → leb targsize (needs p (length zs)) ≡ true
    → pton_step targsize v (decoder p zs ys) ≡ done none
unfolding pton_step store_bits sized decoder
pton_step_full targsize v first zs ys h = rw h
pton_step_full targsize v second zs ys h = rw h
pton_step_full targsize v third zs ys h = rw h
pton_step_full targsize v fourth zs ys h = rw h

-- An index that an int does not hold.
overflow-Sound :
    (x : Outcome (Option Bytes)) (p : Phase) (zs ys xs code : Bytes)
    (go : Decoder → Outcome Decoded)
    → ltb (2 ^ 31 - 1) (next_index p (length zs)) ≡ true
    → Sound xs code (
        (x >>= λ r. elim r [ none ↦ done none | some t ↦ moved (decoder p zs ys) (some t) ])
        >>= λ r. elim r [ none ↦ done (none, some (zs ++ ys)) | some d ↦ go d ])
unfolding moved decoder
overflow-Sound (done none) p zs ys xs code go over = tt
overflow-Sound (done (some t)) p zs ys xs code go over = rw over tt
overflow-Sound fault p zs ys xs code go over = tt
overflow-Sound aborted p zs ys xs code go over = tt

module _ (targsize c v : ℕ) (s : Bytes) (h : isspace c ≡ false) (e : (c == pad) ≡ false)
    (f : position alphabet c ≡ some v) where
  -- A digit is stored, if there is room, and otherwise refused.
  stored-Sound :
      (p : Phase) (zs ms xs code : Bytes)
      → (needs p (length zs) < targsize
          → next_index p (length zs) < 2 ^ 31
          → (d : Decoder) × (pton_step targsize v (decoder p zs ms) ≡ done (some d))
            × Sound xs code (pton_from targsize s d))
      → Sound xs code (pton_from targsize (c ∷ s) (decoder p zs ms))
  stored-Sound p zs ms xs code go = elim (Bool-cases (leb targsize (needs p (length zs)))) [
    | inl full ↦
        rw
          (pton_from-refused targsize c s (decoder p zs ms) v h e f
            (pton_step_full targsize v p zs ms full))
          tt
    | inr room ↦ elim (Bool-cases (ltb (2 ^ 31 - 1) (next_index p (length zs)))) [
      | inl over ↦
          subst (Sound xs code) (sym (pton_from_step targsize c s (decoder p zs ms) v h e f)) (
            unfold pton_step in
            unfold decoder in
            overflow-Sound (store_bits targsize p (length zs) v (zs ++ ms)) p zs ms xs code
              (pton_from targsize s) over)
      | inr int ↦
          let (d, step, next) = go (ground arith) (ground arith) in
          rw (pton_from-value targsize c s (decoder p zs ms) v h e f d step) next
    ]
  ]

  -- A digit within a group, when the rest of the string is sound behind it.
  value-Sound :
      (xs : Bytes) (g : Group) (ys : Bytes)
      → Small g
      → targsize ≤ length xs + size g + length ys
      → ((xs' : Bytes) (g' : Group) (ys' : Bytes)
          → Small g'
          → targsize ≤ length xs' + size g' + length ys'
          → Sound xs' (seen g' ++ no_space s) (pton_from targsize s (within xs' g' ys')))
      → Sound xs (seen g ++ digit v ∷ no_space s) (pton_from targsize (c ∷ s) (within xs g ys))
  unfolding next_index
  value-Sound xs begun [] hg fits go =
      stored-Sound first xs [] xs _ (λ room int. absurd (omega arith))
  value-Sound xs begun (y ∷ ys) hg fits go = stored-Sound first xs (y ∷ ys) xs _ (λ room int. (
    _,
    step_first targsize v xs int y ys room,
    go xs (one v) ys (digit-position c v f).1 (omega arith),
  ))
  value-Sound xs (one a) [] ha fits go =
      stored-Sound second xs _ xs _ (λ room int. absurd (omega arith))
  value-Sound xs (one a) (y ∷ ys) ha fits go = stored-Sound second xs _ xs _ (λ room int. (
    _,
    step_second targsize v xs int (a * 4 % 256) y ys room,
    go xs (two a v) ys (ha, (digit-position c v f).1) (omega arith),
  ))
  value-Sound xs (two a b) [] (ha, hb) fits go =
      let n : length (xs ++ byte_one a b ∷ []) ≡ length xs + 1 =
        omega (arith, length-append xs (byte_one a b ∷ [])) in
      stored-Sound third (xs ++ byte_one a b ∷ []) _ xs _ (λ room int. absurd (omega arith))
  value-Sound xs (two a b) (y ∷ ys) (ha, hb) fits go =
      stored-Sound third (xs ++ byte_one a b ∷ []) _ xs _ (λ room int. (
        _,
        step_third targsize v (xs ++ byte_one a b ∷ []) int (b % 16 * 16 % 256) y ys room,
        go xs (three a b v) ys (ha, hb, (digit-position c v f).1) (omega arith),
      ))
  value-Sound xs (three a b u) ys (ha, hb, hu) fits go =
      let zs = (xs ++ byte_one a b ∷ []) ++ byte_two b u ∷ [] in
      let n : length (zs ++ byte_three u v ∷ []) ≡ length xs + 3 =
        omega (arith, length-append {0}) in
      stored-Sound fourth zs _ xs _ (λ room int. (
        _,
        step_fourth targsize v zs int (u % 4 * 64 % 256) ys room,
        group-Sound a b u v xs (no_space s) _ ha hb hu (digit-position c v f).1
            (go (zs ++ byte_three u v ∷ []) begun ys tt (omega arith)),
      ))

pton_from-Sound :
    (targsize : ℕ) (s xs : Bytes) (g : Group) (ys : Bytes)
    → Small g
    → targsize ≤ length xs + size g + length ys
    → Sound xs (seen g ++ no_space s) (pton_from targsize s (within xs g ys))
pton_from-Sound targsize [] xs g ys hg fits =
    rw append-nil (unfold pton_from in unpadded-Sound xs g ys)
pton_from-Sound targsize (c ∷ s) xs g ys hg fits = elim (kind c) [
  | space h ↦ rw (pton_from-space targsize c s _ h, h) (pton_from-Sound targsize s xs g ys hg fits)
  | padding h e ↦
      let same : c ≡ pad = (==_iff c pad).0 e in
      rw (pton_from-padding targsize c s _ h e, h, same) (padded-Sound s xs g ys hg)
  | foreign h e f ↦ rw (pton_from-foreign targsize c s _ h e f) tt
  | value v h e f ↦
      let same : c ≡ digit v = sym (digit-position c v f).0 in
      let code : seen g ++ no_space (c ∷ s) ≡ seen g ++ digit v ∷ no_space s =
        rw h (ap (λ z. seen g ++ z ∷ no_space s) same) in
      rw code (
        value-Sound targsize c v s h e f xs g ys hg fits
          (λ xs' g' ys' hg' fits'. pton_from-Sound targsize s xs' g' ys' hg' fits'))
]

-- What `b64_pton` accepts is, apart from white space, the very encoding of the bytes that it
-- returns: the digits, the pad characters and their number, and no set bit behind the last byte.
pub b64_pton-canonical :
    (src target t : Bytes) (targsize k : ℕ)
    → targsize ≤ length target
    → b64_pton src (some target) targsize ≡ done (some k, some t)
    → encoding (take k t) ≡ no_space src
unfolding b64_pton decoder
b64_pton-canonical src target t targsize k fits run =
    let (ws, e, code) =
      subst (Sound [] (no_space src)) run
        (pton_from-Sound targsize src [] begun target tt (omega arith)) in
    rw e code
