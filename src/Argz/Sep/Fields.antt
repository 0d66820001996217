-- ===== src/Argz/Sep/Fields.antt =====
-- Of argz.c.
-- The fields of a string, and the loop that writes them.
use hassio_installer.Prelude.{
  ℕ, ◌+◌, ◌-◌, ◌≡◌, ◌≢◌, ◌⊎◌, refl, sym, ◌∙◌, ap, some, List, [], ◌∷◌, ◌++◌, append-nil,
  append_assoc, Bytes, length, length-append, store-append, get_elem?, get_elem?-append, arith,
  done, ltb, true, false, if◌then◌else◌, ◌==◌, inl, inr,
}
use hassio_installer.Argz.Vectors.{NoNul, packed, packed-append}
use hassio_installer.Argz.Sep.{Splitter, shrunk, push, cut}

-- In front of the first of some pieces.
abbrev pub onto : Bytes → List Bytes → List Bytes
onto cur [] = cur ∷ []
onto cur (p ∷ ps) = (cur ++ p) ∷ ps

-- The pieces between the delimiters.
unfoldable pub pieces : ℕ → Bytes → List Bytes
pieces delim [] = [] ∷ []
pieces delim (c ∷ s) = if c == delim then [] ∷ pieces delim s else onto (c ∷ []) (pieces delim s)

-- Without the empty ones, but with the last.
abbrev pub kept : List Bytes → List Bytes
kept [] = []
kept (p ∷ []) = p ∷ []
kept ([] ∷ q ∷ ps) = kept (q ∷ ps)
kept ((c ∷ p) ∷ q ∷ ps) = (c ∷ p) ∷ kept (q ∷ ps)

abbrev pub writing : Bytes → Bytes → ℕ → Splitter
writing xs ys n = record { block = xs ++ ys; wp = length xs; nlen = n }

pub push-writing :
    (c : ℕ) (xs : Bytes) (y : ℕ) (ys : Bytes) (n : ℕ)
    → push c (writing xs (y ∷ ys) n) ≡ done (writing (xs ++ c ∷ []) ys n)
unfolding push
push-writing c xs y ys n =
    let at : length (xs ++ c ∷ []) ≡ length xs + 1 = omega (arith, length-append {0}) in
    rw (store-append xs c y ys, append_assoc, at)

cut_at_end :
    (xs ys : Bytes) (n : ℕ)
    → cut (writing (xs ++ 0 ∷ []) ys n) ≡ done (shrunk (writing (xs ++ 0 ∷ []) ys n))
unfolding cut
cut_at_end xs ys n =
    let at : length (xs ++ 0 ∷ []) ≡ length xs + 1 = omega (arith, length-append {0}) in
    let before : length xs + 1 - 1 ≡ length xs = omega arith in
    let pos : ltb 0 (length xs + 1) ≡ true = ground arith in
    rw (at, pos, before, append_assoc, get_elem?-append xs 0 ys)

cut_behind :
    (xs : Bytes) (c y : ℕ) (ys : Bytes) (n : ℕ)
    → c ≢ 0
    → cut (writing (xs ++ c ∷ []) (y ∷ ys) n) ≡ done (writing ((xs ++ c ∷ []) ++ 0 ∷ []) ys n)
unfolding cut
cut_behind xs c y ys n h =
    let at : length (xs ++ c ∷ []) ≡ length xs + 1 = omega (arith, length-append {0}) in
    let before : length xs + 1 - 1 ≡ length xs = omega arith in
    let pos : ltb 0 (length (xs ++ c ∷ [])) ≡ true = rw at (ground arith) in
    let other : (c == 0) ≡ false = ground arith in
    let got : get_elem? ((xs ++ c ∷ []) ++ y ∷ ys) (length (xs ++ c ∷ []) - 1) ≡ some c =
      rw (at, before, append_assoc) (get_elem?-append xs c (y ∷ ys)) in
    rw (pos, got, other) (push-writing 0 (xs ++ c ∷ []) y ys n)

-- What is written ends in a '\0', unless nothing is.
packed-last : (ds : List Bytes) → (packed ds ≡ []) ⊎ ((xs : Bytes) × (packed ds ≡ xs ++ 0 ∷ []))
packed-last [] = inl refl
packed-last (d ∷ ds) = elim (packed-last ds) [
  | inl e ↦ inr (d, rw e)
  | inr (xs, e) ↦ inr (d ++ 0 ∷ xs, rw (e, append_assoc))
]

field_last :
    (d : ℕ) (cs : Bytes)
    → NoNul (d ∷ cs)
    → (xs : Bytes) × (c : ℕ) × (d ∷ cs ≡ xs ++ c ∷ []) × (c ≢ 0)
field_last d [] (h, hs) = ([], d, refl, h)
field_last d (e ∷ cs) (h, hs) =
    let (xs, c, p, n) = field_last e cs hs in (d ∷ xs, c, ap (◌∷◌ d) p, n)

-- A delimiter behind another one, or in front of everything.
pub cut_empty :
    (ds : List Bytes) (ys : Bytes) (n : ℕ)
    → cut (writing (packed ds ++ []) ys n) ≡ done (shrunk (writing (packed ds ++ []) ys n))
unfolding cut
cut_empty ds ys n = elim (packed-last ds) [
  | inl e ↦ rw e refl
  | inr (xs, e) ↦ rw (append-nil, e) (cut_at_end xs ys n)
]

-- A delimiter behind a field.
pub cut_field :
    (ds : List Bytes) (d : ℕ) (cs : Bytes) (y : ℕ) (ys : Bytes) (n : ℕ)
    → NoNul (d ∷ cs)
    → cut (writing (packed ds ++ d ∷ cs) (y ∷ ys) n)
      ≡ done (writing (packed (ds ++ (d ∷ cs) ∷ []) ++ []) ys n)
cut_field ds d cs y ys n h =
    let (xs, c, e, nz) = field_last d cs h in
    let there : packed ds ++ d ∷ cs ≡ (packed ds ++ xs) ++ c ∷ [] =
      rw e (sym (append_assoc (packed ds) xs (c ∷ []))) in
    let all : packed (ds ++ (d ∷ cs) ∷ []) ++ [] ≡ ((packed ds ++ xs) ++ c ∷ []) ++ 0 ∷ [] =
      append-nil _
      ∙ packed-append ds ((d ∷ cs) ∷ [])
      ∙ sym (append_assoc (packed ds) (d ∷ cs) (0 ∷ []))
      ∙ ap (λ z. z ++ 0 ∷ []) there in
    rw (there, all) (cut_behind (packed ds ++ xs) c y ys n nz)
