-- ===== src/Argz/Sep/Loop.antt =====
-- Of argz.c.
-- The loop over a string, and the vectors that it makes.
use hassio_installer.Prelude.{
  ℕ, ◌+◌, ◌-◌, ◌^◌, ◌≤◌, ◌<◌, ◌≡◌, ◌≢◌, refl, sym, ◌∙◌, ap, List, [], ◌∷◌, ◌++◌, append-nil,
  append_assoc, Bytes, length, All-append, length-append, arith, Outcome, done, true, false, ◌==◌,
  Bool-cases, inl, inr,
}
use hassio_installer.Argz.{less}
use hassio_installer.Argz.Vectors.{NoNul, packed, packed-append}
use hassio_installer.Argz.Sep.{Splitter, cut, split_char, split_all}
use hassio_installer.Argz.Sep.Fields.{
  onto, pieces, kept, writing, push-writing, cut_empty, cut_field,
}

onto-onto : (xs ys : Bytes) (ps : List Bytes) → onto xs (onto ys ps) ≡ onto (xs ++ ys) ps
onto-onto xs ys [] = refl
onto-onto xs ys (p ∷ ps) = rw append_assoc

pub onto-nil : (p : Bytes) (ps : List Bytes) → onto [] (p ∷ ps) ≡ p ∷ ps
onto-nil p ps = refl

pub pieces-some :
    (delim : ℕ) (s : Bytes) → (p : Bytes) × (ps : List Bytes) × (pieces delim s ≡ p ∷ ps)
unfolding pieces
pieces-some delim [] = ([], [], refl)
pieces-some delim (c ∷ s) = elim (Bool-cases (c == delim)) [
  | inl e ↦ ([], pieces delim s, rw e)
  | inr e ↦ let (p, ps, q) = pieces-some delim s in (c ∷ p, ps, rw (e, q))
]

-- The fields behind those that are written, when `cur` is begun.
abbrev pub fields_of : ℕ → List Bytes → Bytes → Bytes → List Bytes
fields_of delim ds cur s = ds ++ kept (onto cur (pieces delim s))

-- Where the loop ends: the strings, and `nlen`, with what was in front, their length.
abbrev pub Splits : Outcome Splitter → ℕ → List Bytes → Type 0
Splits o base fs =
    (t : Splitter) × (slack : Bytes) × (o ≡ done t)
    × (t.block ≡ packed fs ++ slack)
    × (t.nlen + base ≡ length (packed fs))

module _ (delim : ℕ) where
  after_char :
      (c : ℕ) (s : Bytes) (st st' : Splitter) (base : ℕ) (fs fs' : List Bytes)
      → split_char delim c st ≡ done st'
      → fs ≡ fs'
      → Splits (split_all delim s st') base fs
      → Splits (split_all delim (c ∷ s) st) base fs'
  unfolding split_all
  after_char c s st st' base fs fs' one same (t, slack, run, held, n) =
      let grown : packed fs ≡ packed fs' = ap packed same in
      (t, slack, rw one run, rw (← grown) held, rw (← grown) n)

  next_empty :
      (ds : List Bytes) (s : Bytes) → fields_of delim ds [] s ≡ ds ++ kept ([] ∷ pieces delim s)
  next_empty ds s = let (p, ps, e) = pieces-some delim s in rw e refl

  next_field :
      (ds : List Bytes) (d : ℕ) (cs s : Bytes)
      → fields_of delim (ds ++ (d ∷ cs) ∷ []) [] s ≡ ds ++ kept ((d ∷ cs) ∷ pieces delim s)
  next_field ds d cs s = let (p, ps, e) = pieces-some delim s in rw (e, append_assoc) refl

  length_with_field :
      (ds : List Bytes) (f : Bytes)
      → length (packed (ds ++ f ∷ [])) ≡ length (packed ds) + length f + 1
  length_with_field ds f =
      rw (packed-append ds (f ∷ []))
        (omega (arith, length-append (packed ds) (f ++ 0 ∷ []), length-append f (0 ∷ [])))

  pieces_delim :
      (c : ℕ) (s : Bytes) → (c == delim) ≡ true → pieces delim (c ∷ s) ≡ [] ∷ pieces delim s
  unfolding pieces
  pieces_delim c s e = rw e

  at_delim :
      (c : ℕ) (st st' : Splitter)
      → (c == delim) ≡ true
      → cut st ≡ done st'
      → split_char delim c st ≡ done st'
  unfolding split_char
  at_delim c st st' e h = rw e h

  -- The '\0' of the string ends the last field.
  end_of_string :
      (ds : List Bytes) (cur : Bytes) (y : ℕ) (ys : Bytes) (n base : ℕ)
      → delim ≢ 0
      → n + base ≡ length (packed ds) + length cur + 0 + 1
      → Splits
          (split_all delim [] (writing (packed ds ++ cur) (y ∷ ys) n))
          base
          (fields_of delim ds cur [])
  unfolding split_all split_char pieces
  end_of_string ds cur y ys n base nz count =
      let other : (0 == delim) ≡ false = ground arith in
      let all : packed (ds ++ (cur ++ []) ∷ []) ≡ (packed ds ++ cur) ++ 0 ∷ [] =
        rw append-nil (packed-append ds (cur ∷ []) ∙ sym (append_assoc (packed ds) cur (0 ∷ []))) in
      (
        writing ((packed ds ++ cur) ++ 0 ∷ []) ys n,
        ys,
        rw other (push-writing 0 (packed ds ++ cur) y ys n),
        rw all,
        rw append-nil (count ∙ omega (arith, length_with_field ds cur)),
      )

  -- A character of a field.
  ordinary :
      (c : ℕ) (s : Bytes) (ds : List Bytes) (cur : Bytes) (y : ℕ) (ys : Bytes) (n base : ℕ)
      → (c == delim) ≡ false
      → Splits
          (split_all delim s (writing (packed ds ++ (cur ++ c ∷ [])) ys n))
          base
          (fields_of delim ds (cur ++ c ∷ []) s)
      → Splits
          (split_all delim (c ∷ s) (writing (packed ds ++ cur) (y ∷ ys) n))
          base
          (fields_of delim ds cur (c ∷ s))
  unfolding split_char pieces
  ordinary c s ds cur y ys n base e next =
      let put : split_char delim c (writing (packed ds ++ cur) (y ∷ ys) n)
          ≡ done (writing (packed ds ++ (cur ++ c ∷ [])) ys n) =
        rw (e, ← append_assoc) (push-writing c (packed ds ++ cur) y ys n) in
      after_char c s _ _ base _ _ put (rw (e, onto-onto cur (c ∷ []) (pieces delim s)) refl) next

  pub split_all-Splits :
      (s : Bytes) (ds : List Bytes) (cur rest : Bytes) (n base : ℕ)
      → delim ≢ 0
      → NoNul s
      → NoNul cur
      → length s < length rest
      → n + base ≡ length (packed ds) + length cur + length s + 1
      → base ≤ length (packed ds)
      → n < 2 ^ 64
      → Splits
          (split_all delim s (writing (packed ds ++ cur) rest n))
          base
          (fields_of delim ds cur s)
  split_all-Splits s ds cur [] n base nz hs hc room count low word = absurd (omega arith)
  split_all-Splits [] ds cur (y ∷ ys) n base nz hs hc room count low word =
      end_of_string ds cur y ys n base nz count
  split_all-Splits (c ∷ s) ds [] (y ∷ ys) n base nz (h, hs) hc room count low word =
      elim (Bool-cases (c == delim)) [
        | inl e ↦
            let one : less n 1 ≡ n - 1 = omega arith in
            let next =
              split_all-Splits s ds [] (y ∷ ys) (less n 1) base nz hs tt (omega arith) (omega arith)
                low (omega arith) in
            after_char c s _ (writing (packed ds ++ []) (y ∷ ys) (less n 1)) base _ _
              (at_delim c _ _ e (cut_empty ds (y ∷ ys) n))
              (next_empty ds s ∙ rw (pieces_delim c s e) refl) next
        | inr e ↦ ordinary c s ds [] y ys n base e (
            split_all-Splits s ds (c ∷ []) ys n base nz hs (h, tt) (omega arith) (omega arith) low
              word)
      ]
  split_all-Splits (c ∷ s) ds (d ∷ cs) (y ∷ ys) n base nz (h, hs) hc room count low word =
      elim (Bool-cases (c == delim)) [
        | inl e ↦
            let longer : length (packed (ds ++ (d ∷ cs) ∷ []))
                ≡ length (packed ds) + length (d ∷ cs) + 1 =
              length_with_field ds (d ∷ cs) in
            let next =
              split_all-Splits s (ds ++ (d ∷ cs) ∷ []) [] ys n base nz hs tt (omega arith)
                (omega arith) (omega arith) word in
            after_char c s _ _ base _ _ (at_delim c _ _ e (cut_field ds d cs y ys n hc))
              (next_field ds d cs s ∙ rw (pieces_delim c s e, append-nil) refl) next
        | inr e ↦
            let longer : length ((d ∷ cs) ++ c ∷ []) ≡ length (d ∷ cs) + 1 =
              omega (arith, length-append (d ∷ cs) (c ∷ [])) in
            ordinary c s ds (d ∷ cs) y ys n base e (
              split_all-Splits s ds ((d ∷ cs) ++ c ∷ []) ys n base nz hs
                (All-append _ (d ∷ cs) (c ∷ []) hc (h, tt)) (omega arith) (omega arith) low word)
      ]
