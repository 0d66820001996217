-- ===== src/Base64/Endings.antt =====
-- Of base64.c.
-- Where `b64_pton` returns: the bytes that are accepted and their encoding.
use hassio_installer.Prelude.{
  ℕ, ◌*◌, ◌%◌, ◌<◌, ◌≡◌, refl, sym, ◌∙◌, true, false, none, some, [], ◌∷◌, ◌++◌, append_assoc,
  append-nil, arith, Bytes, take, take-length-append, get_elem?-append, ◌==◌, if◌then◌else◌,
  Bool-cases, inl, inr, done, Outcome, ==_iff,
}
use hassio_installer.Base64.{
  digit, pad, isspace, Phase, third, fourth, Decoded, skip_spaces, only_spaces, extra_bits, pad_end,
  second_pad, padded, unpadded,
}
use hassio_installer.Base64.Encode.{encoding}
use hassio_installer.Base64.Decode.{decoder}
use hassio_installer.Base64.Groups.{
  Group, begun, one, two, three, byte_one, byte_two, byte_three, within, seen, Small, digits_of,
  encoding-one, encoding-two,
}

-- The string without its white space.
abbrev pub no_space : Bytes → Bytes
no_space [] = []
no_space (c ∷ s) = if isspace c then no_space s else c ∷ no_space s

-- What an outcome says of the bytes: those behind `xs` have the encoding `code`.
abbrev pub Sound : Bytes → Bytes → Outcome Decoded → Type 0
Sound xs code (done (some k, some t)) = (ws : Bytes) × (take k t ≡ xs ++ ws) × (encoding ws ≡ code)
Sound xs code _ = Unit

pub unpadded-Sound :
    (xs : Bytes) (g : Group) (ys : Bytes)
    → Sound xs (seen g) (unpadded (within xs g ys).state (within xs g ys))
unfolding unpadded decoder
unpadded-Sound xs begun ys = ([], take-length-append xs ys ∙ sym (append-nil xs), refl)
unpadded-Sound xs (one v) ys = tt
unpadded-Sound xs (two v w) ys = tt
unpadded-Sound xs (three v w u) ys = tt

-- The last test, with the byte behind the complete ones, which is `x`.
extra_bits-Sound :
    (p : Phase) (zs : Bytes) (x : ℕ) (ys xs ws code : Bytes)
    → zs ≡ xs ++ ws
    → (x ≡ 0 → encoding ws ≡ code)
    → Sound xs code (extra_bits (decoder p zs (x ∷ ys)))
unfolding extra_bits decoder
extra_bits-Sound p zs x ys xs ws code e h = elim (Bool-cases (x == 0)) [
  | inl z ↦
      rw (get_elem?-append zs x ys, z)
        (ws, take-length-append zs (x ∷ ys) ∙ e, h ((==_iff x 0).0 z))
  | inr z ↦ rw (get_elem?-append zs x ys, z) tt
]

only_spaces-no_space : (s : Bytes) → only_spaces s ≡ true → no_space s ≡ []
unfolding only_spaces
only_spaces-no_space [] h = refl
only_spaces-no_space (c ∷ s) h = ground (arith, only_spaces-no_space s)

no_space-skip_spaces : (s : Bytes) → no_space (skip_spaces s) ≡ no_space s
unfolding skip_spaces
no_space-skip_spaces [] = refl
no_space-skip_spaces (c ∷ s) = ground (arith, no_space-skip_spaces s)

pad_end-Sound :
    (s : Bytes) (p : Phase) (zs : Bytes) (x : ℕ) (ys xs ws code : Bytes)
    → zs ≡ xs ++ ws
    → (x ≡ 0 → no_space s ≡ [] → encoding ws ≡ code)
    → Sound xs code (pad_end s (decoder p zs (x ∷ ys)))
unfolding pad_end
pad_end-Sound s p zs x ys xs ws code e h = elim (Bool-cases (only_spaces s)) [
  | inl o ↦ rw o (extra_bits-Sound p zs x ys xs ws code e (λ z. h z (only_spaces-no_space s o)))
  | inr o ↦ rw o tt
]

pad_no_space : isspace pad ≡ false
unfolding isspace
pad_no_space = refl

second_pad-Sound :
    (s : Bytes) (p : Phase) (zs : Bytes) (x : ℕ) (ys xs ws code : Bytes)
    → zs ≡ xs ++ ws
    → (x ≡ 0 → no_space s ≡ pad ∷ [] → encoding ws ≡ code)
    → Sound xs code (second_pad s (decoder p zs (x ∷ ys)))
unfolding second_pad
second_pad-Sound [] p zs x ys xs ws code e h = tt
second_pad-Sound (c ∷ s) p zs x ys xs ws code e h = elim (Bool-cases (c == pad)) [
  | inl o ↦
      let same : c ≡ pad = (==_iff c pad).0 o in
      rw o (
        pad_end-Sound s p zs x ys xs ws code e
          (λ z none_left. h z (rw (same, pad_no_space, none_left) refl)))
  | inr o ↦ rw o tt
]

pub padded-Sound :
    (s xs : Bytes) (g : Group) (ys : Bytes)
    → Small g
    → Sound xs (seen g ++ pad ∷ no_space s) (padded (within xs g ys).state s (within xs g ys))
unfolding padded decoder
padded-Sound s xs begun ys h = tt
padded-Sound s xs (one v) ys h = tt
padded-Sound s xs (two v w) ys (hv, hw) =
    second_pad-Sound (skip_spaces s) third (xs ++ byte_one v w ∷ []) (w % 16 * 16 % 256) ys xs
      (byte_one v w ∷ []) _ refl
      (λ z left. rw (← no_space-skip_spaces s, left) (encoding-one v w hv hw z))
padded-Sound s xs (three v w u) ys (hv, hw, hu) =
    pad_end-Sound s fourth ((xs ++ byte_one v w ∷ []) ++ byte_two w u ∷ []) (u % 4 * 64 % 256) ys xs
      (byte_one v w ∷ byte_two w u ∷ []) _ (append_assoc xs (byte_one v w ∷ []) (byte_two w u ∷ []))
      (λ z left. rw left (encoding-two v w u hv hw hu z))

-- A group that is complete stands in front of what comes behind it.
pub group-Sound :
    (v w u z : ℕ) (xs code : Bytes) (r : Outcome Decoded)
    → v < 64
    → w < 64
    → u < 64
    → z < 64
    → Sound (((xs ++ byte_one v w ∷ []) ++ byte_two w u ∷ []) ++ byte_three u z ∷ []) code r
    → Sound xs (digit v ∷ digit w ∷ digit u ∷ digit z ∷ code) r
group-Sound v w u z xs code (done (some k, some t)) hv hw hu hz (ws, e, c) =
    let (p, q, r, o) = digits_of v w u z hv hw hu hz in
    (byte_one v w ∷ byte_two w u ∷ byte_three u z ∷ ws, e ∙ simp append_assoc, rw (p, q, r, o, c))
group-Sound v w u z xs code (done (none, t)) hv hw hu hz h = tt
group-Sound v w u z xs code (done (some k, none)) hv hw hu hz h = tt
group-Sound v w u z xs code Outcome.fault hv hw hu hz h = tt
group-Sound v w u z xs code Outcome.aborted hv hw hu hz h = tt
