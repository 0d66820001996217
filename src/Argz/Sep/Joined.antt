-- ===== src/Argz/Sep/Joined.antt =====
-- Of argz.c.
-- A vector printed with separators, and a string that is cut and printed again.
use hassio_installer.Prelude.{
  ℕ, zero, suc, ◌+◌, ◌^◌, ◌%◌, ◌<◌, ◌≡◌, ◌≢◌, refl, sym, ◌∙◌, ap, subst, List, [], ◌∷◌, ◌++◌,
  append_assoc, Bytes, length, All, arith, done, true, false, ◌==◌, Bool-cases, inl, inr,
}
use hassio_installer.Argz.{ok, Alloc, Argz, bytes, argz_stringify}
use hassio_installer.Argz.Vectors.{NoNul, packed}
use hassio_installer.Argz.Sep.{argz_create_sep}
use hassio_installer.Argz.Sep.Fields.{onto, pieces, kept}
use hassio_installer.Argz.Sep.Loop.{pieces-some}
use hassio_installer.Argz.Sep.Split.{fields, argz_create_sep-fields}

abbrev pub joined : ℕ → List Bytes → Bytes
joined sep [] = []
joined sep (s ∷ []) = s
joined sep (s ∷ t ∷ ss) = s ++ sep ∷ joined sep (t ∷ ss)

-- No piece but the last is empty: no delimiter in front or behind another.
abbrev pub Clean : List Bytes → Type 0
Clean [] = Unit
Clean (p ∷ []) = Unit
Clean (p ∷ q ∷ ps) = (p ≢ []) × Clean (q ∷ ps)

kept-Clean : (ps : List Bytes) → Clean ps → kept ps ≡ ps
kept-Clean [] h = refl
kept-Clean (p ∷ []) h = refl
kept-Clean ([] ∷ q ∷ ps) (n, h) = absurd (n refl)
kept-Clean ((c ∷ p) ∷ q ∷ ps) (n, h) = ap (◌∷◌ (c ∷ p)) (kept-Clean (q ∷ ps) h)

joined-onto :
    (sep : ℕ) (xs p : Bytes) (ps : List Bytes)
    → joined sep (onto xs (p ∷ ps)) ≡ xs ++ joined sep (p ∷ ps)
joined-onto sep xs p [] = refl
joined-onto sep xs p (q ∷ ps) = append_assoc xs p (sep ∷ joined sep (q ∷ ps))

joined-pieces : (sep : ℕ) (s : Bytes) → joined sep (pieces sep s) ≡ s
unfolding pieces
joined-pieces sep [] = refl
joined-pieces sep (c ∷ s) =
    let (p, ps, e) = pieces-some sep s in
    let rest : joined sep (p ∷ ps) ≡ s = ap (joined sep) (sym e) ∙ joined-pieces sep s in
    elim (Bool-cases (c == sep)) [
      | inl same ↦ let eq : sep ≡ c = ground arith in rw (same, e) (rw rest (ap (λ z. z ∷ s) eq))
      | inr other ↦ rw (other, e) (joined-onto sep (c ∷ []) p ps ∙ ap (◌∷◌ c) rest)
    ]

onto-NoNul : (c : ℕ) (ps : List Bytes) → c ≢ 0 → All NoNul ps → All NoNul (onto (c ∷ []) ps)
onto-NoNul c [] h hs = ((h, tt), tt)
onto-NoNul c (p ∷ ps) h (hp, hs) = ((h, hp), hs)

pub pieces-NoNul : (sep : ℕ) (s : Bytes) → NoNul s → All NoNul (pieces sep s)
unfolding pieces
pieces-NoNul sep [] h = (tt, tt)
pieces-NoNul sep (c ∷ s) (h, hs) = elim (Bool-cases (c == sep)) [
  | inl e ↦ rw e (tt, pieces-NoNul sep s hs)
  | inr e ↦ rw e (onto-NoNul c (pieces sep s) h (pieces-NoNul sep s hs))
]

some_packed : (t : Bytes) (ss : List Bytes) → (length (packed (t ∷ ss)) == 0) ≡ false
some_packed [] ss = ground arith
some_packed (c ∷ t) ss = ground arith

-- On a vector with a string in it `argz_stringify` leaves the strings with the separator in
-- between, and the last '\0'.
pub argz_stringify-joined :
    (sep : ℕ) (s : Bytes) (ss : List Bytes) (slack : Bytes)
    → sep < 256
    → NoNul s
    → All NoNul ss
    → argz_stringify (packed (s ∷ ss) ++ slack) (length (packed (s ∷ ss))) sep
      ≡ done (joined sep (s ∷ ss) ++ 0 ∷ slack)
unfolding argz_stringify
argz_stringify-joined sep [] [] slack byte h hs = refl
argz_stringify-joined sep [] (t ∷ ss) slack byte h (ht, hs) =
    let rest = argz_stringify-joined sep t ss slack byte ht hs in
    let small : sep % 256 ≡ sep = omega arith in rw (some_packed t ss, rest, small)
argz_stringify-joined sep (zero ∷ s) ss slack byte (h, hs) hss = absurd (h refl)
argz_stringify-joined sep (suc c ∷ s) [] slack byte (h, hs) hss =
    rw (argz_stringify-joined sep s [] slack byte hs hss)
argz_stringify-joined sep (suc c ∷ s) (t ∷ ss) slack byte (h, hs) hss =
    rw (argz_stringify-joined sep s (t ∷ ss) slack byte hs hss)

-- A string that is not empty, with no delimiter in front or behind another, is cut into a vector by
-- `argz_create_sep`, if there is memory for it, and `argz_stringify` with the delimiter gives the
-- string back, with its '\0'.
pub argz_stringify-argz_create_sep :
    (al : Alloc) (delim c : ℕ) (s : Bytes) (old : Argz)
    → delim ≢ 0
    → delim < 256
    → NoNul (c ∷ s)
    → length (c ∷ s) + 1 < 2 ^ 64
    → Clean (pieces delim (c ∷ s))
    → al.grants (length (c ∷ s) + 1) ≡ true
    → (a : Argz) × (slack : Bytes) × (argz_create_sep al (c ∷ s) delim old ≡ done (ok, a))
      × (argz_stringify (bytes a.block) a.len delim ≡ done ((c ∷ s) ++ 0 ∷ slack))
unfolding fields
argz_stringify-argz_create_sep al delim c s old nz byte h word clean memory =
    let (a, run, v) = argz_create_sep-fields al delim (c ∷ s) old nz h word in
    let (p, ps, e) = pieces-some delim (c ∷ s) in
    let all : kept (pieces delim (c ∷ s)) ≡ p ∷ ps = kept-Clean _ clean ∙ e in
    let (hp, hs) = subst (All NoNul) e (pieces-NoNul delim (c ∷ s) h) in
    let back : joined delim (p ∷ ps) ≡ c ∷ s =
      ap (joined delim) (sym e) ∙ joined-pieces delim (c ∷ s) in
    (
      a,
      v.slack,
      rw (run, memory),
      rw (v.holds, v.len, all) (argz_stringify-joined delim p ps v.slack byte hp hs ∙ rw back),
    )
