-- ===== src/Argz/Edit.antt =====
-- Of argz.c.
-- Deleting a string of a vector and inserting one.
use hassio_installer.Prelude.{
  ℕ, zero, suc, ◌+◌, ◌≤◌, ◌<◌, ◌≡◌, ◌↔◌, ◌≢◌, refl, sym, ◌∙◌, ap, true, false, none, some, List, [],
  ◌∷◌, ◌++◌, append-nil, append_assoc, Bytes, length, drop, length-append, arith, done, fault,
  if◌then◌else◌, leb, ◌==◌, drop-length-append, take-length-append, Bool-cases, inl, inr, get_elem?,
  get_elem?-append, le→leb, le→leb_false, lt→ltb,
}
use hassio_installer.Argz.{
  Alloc, Argz, argz, bytes, less, argz_delete, argz_insert, move, entry_start,
}
use hassio_installer.Argz.Vectors.{NoNul, packed, packed-append, IsVector}
use hassio_installer.Argz.Walk.{Fits, around, around_len, strlen-here, drop-append}

nil_of_length : (s : Bytes) → length s ≡ 0 → s ≡ []
nil_of_length [] h = refl
nil_of_length (c ∷ s) h = absurd (omega arith)

packed_nil : (ss : List Bytes) → length (packed ss) ≡ 0 → ss ≡ []
packed_nil [] h = refl
packed_nil (s ∷ ss) h = absurd (omega (arith, length-append s (0 ∷ packed ss)))

-- A move down over `gone` keeps what is in front of it and what is behind.
move_down :
    (xs gone ys zs : Bytes)
    → move (length xs) (length xs + length gone) (length ys) (xs ++ (gone ++ (ys ++ zs)))
      ≡ done (xs ++ (ys ++ drop (length ys) (gone ++ (ys ++ zs))))
unfolding move
move_down xs gone ys zs =
    let n = length-append xs (gone ++ (ys ++ zs)) in
    let n' = length-append gone (ys ++ zs) in
    let n'' = length-append ys zs in
    let a : leb (length xs + length ys) (length (xs ++ (gone ++ (ys ++ zs)))) ≡ true =
      le→leb _ _ (omega arith) in
    let b : leb (length xs + length gone + length ys) (length (xs ++ (gone ++ (ys ++ zs)))) ≡ true =
      le→leb _ _ (omega arith) in
    rw (a, b)
      (rw (
        take-length-append xs (gone ++ (ys ++ zs)),
        drop-append xs (gone ++ (ys ++ zs)) (length gone),
        drop-append xs (gone ++ (ys ++ zs)) (length ys),
        drop-length-append gone (ys ++ zs),
        take-length-append ys zs,
      ))

module _ (pre post : List Bytes) (s : Bytes) (a : Argz) (v : IsVector (pre ++ s ∷ post) a) where
  abbrev kept : ℕ
  kept = length (packed pre) + length (packed post)

  -- The bytes behind the strings that are kept.
  abbrev left_over : Bytes
  left_over = drop (length (packed post)) ((s ++ 0 ∷ []) ++ (packed post ++ v.slack))

  argz_delete_run :
      NoNul s
      → Fits a.len
      → argz_delete a (some (length (packed pre)))
        ≡ done (
            if kept == 0
            then argz none 0
            else argz (some (packed pre ++ (packed post ++ left_over))) kept)
  unfolding argz_delete
  argz_delete_run h fits =
      let n = around_len pre post s a v in
      let len' : less a.len (length s + 1) ≡ kept = omega arith in
      let k : less kept (length (packed pre)) ≡ length (packed post) = omega arith in
      let mem : bytes a.block ≡ packed pre ++ ((s ++ 0 ∷ []) ++ (packed post ++ v.slack)) =
        around pre post s a v ∙ simp append_assoc in
      let step : length (packed pre) + length s + 1 ≡ length (packed pre) + length (s ++ 0 ∷ []) =
        omega (arith, length-append s (0 ∷ [])) in
      rw (
        strlen-here pre post s a v h,
        len',
        k,
        mem,
        step,
        move_down (packed pre) (s ++ 0 ∷ []) (packed post) v.slack,
      )

  length-kept : length (packed (pre ++ post)) ≡ kept
  length-kept = ap length (packed-append pre post) ∙ length-append (packed pre) (packed post)

-- If its strings hold no '\0' and its length is one of an object in memory, `argz_delete` takes the
-- string at the entry out of a vector and keeps the others in order; the block is freed exactly
-- when none is left.
pub argz_delete-IsVector :
    (pre post : List Bytes) (s : Bytes) (a : Argz)
    → IsVector (pre ++ s ∷ post) a
    → NoNul s
    → Fits a.len
    → (a' : Argz) × (argz_delete a (some (length (packed pre))) ≡ done a')
      × IsVector (pre ++ post) a'
      × ((pre ++ post ≡ []) ↔ (a'.block ≡ none))
argz_delete-IsVector pre post s a v h fits =
    let run = argz_delete_run pre post s a v h fits in
    let both = length-kept pre post s a v in
    elim (Bool-cases (length (packed pre) + length (packed post) == 0)) [
      | inl e ↦ (
        argz none 0,
        run ∙ rw e,
        record {
          len = ground arith;
          slack = [];
          holds = rw append-nil (sym (nil_of_length (packed (pre ++ post)) (ground arith)));
        },
        (λ _. refl, λ _. packed_nil (pre ++ post) (ground arith)),
      )
      | inr e ↦ (
        argz (some (packed pre ++ (packed post ++ left_over pre post s a v))) (kept pre post s a v),
        run ∙ rw e,
        record {
          len = sym both;
          slack = left_over pre post s a v;
          holds = rw (packed-append pre post) (simp append_assoc);
        },
        (
          λ nil. absurd (let z : length (packed (pre ++ post)) ≡ 0 = rw nil in ground arith),
          λ freed. ground arith,
        ),
      )
    ]

-- Where an entry begins, a byte back is the '\0' of the string before it.
pub packed_last : (s : Bytes) (ss : List Bytes) → (xs : Bytes) × (packed (s ∷ ss) ≡ xs ++ 0 ∷ [])
packed_last s [] = (s, refl)
packed_last s (t ∷ ss) = let (xs, e) = packed_last t ss in (s ++ 0 ∷ xs, rw e (simp append_assoc))

pub entry_start_here :
    (xs ys : Bytes)
    → entry_start ((xs ++ 0 ∷ []) ++ ys) (length (xs ++ 0 ∷ [])) ≡ done (length (xs ++ 0 ∷ []))
unfolding entry_start
entry_start_here xs ys =
    let n : length (xs ++ 0 ∷ []) ≡ suc (length xs) = omega (arith, length-append xs (0 ∷ [])) in
    rw (n, append_assoc) (rw (get_elem?-append xs 0 ys))

-- In the middle of the first string the search for its beginning leaves the block.
get_elem?-NoNul :
    (s m : Bytes) (i : ℕ)
    → NoNul s
    → i < length s
    → (c : ℕ) × (get_elem? (s ++ m) i ≡ some c) × (c ≢ 0)
get_elem?-NoNul [] m i h lt = elim lt [ ]
get_elem?-NoNul (c ∷ s) m zero (h, hs) lt = (c, refl, h)
get_elem?-NoNul (c ∷ s) m (suc i) (h, hs) lt = get_elem?-NoNul s m i hs (omega arith)

entry_start_first : (s m : Bytes) (b : ℕ) → NoNul s → b ≤ length s → entry_start (s ++ m) b ≡ fault
unfolding entry_start
entry_start_first s m zero h le = refl
entry_start_first s m (suc b) h le =
    let (c, e, ne) = get_elem?-NoNul s m b h le in
    let back = entry_start_first s m b h (omega arith) in rw e (ground arith)

-- In a vector whose first string holds no '\0', with a `before` behind the first byte of the first
-- string, up to its '\0', `argz_insert` reads in front of the block.
pub argz_insert_first_faults :
    (al : Alloc) (ss : List Bytes) (s entry : Bytes) (a : Argz) (b : ℕ)
    → IsVector (s ∷ ss) a
    → NoNul s
    → 0 < b
    → b ≤ length s
    → argz_insert al a (some b) entry ≡ fault
unfolding argz_insert
argz_insert_first_faults al ss s entry a b v h pos le =
    let inside : leb a.len b ≡ false =
      le→leb_false _ _ (omega (arith, v.len, length-append s (0 ∷ packed ss))) in
    let mem : bytes a.block ≡ s ++ (0 ∷ packed ss ++ v.slack) =
      v.holds ∙ append_assoc s (0 ∷ packed ss) v.slack in
    rw (inside, lt→ltb 0 b pos, mem, entry_start_first s (0 ∷ packed ss ++ v.slack) b h le)
