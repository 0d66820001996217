-- ===== src/Argz/Insert.antt =====
-- Of argz.c.
-- Inserting a string at an entry of a vector.
use hassio_installer.Prelude.{
  drop-all, ℕ, ◌+◌, ◌-◌, ◌≡◌, refl, ◌∙◌, ap, true, false, some, List, [], ◌∷◌, ◌++◌, append-nil,
  append_assoc, Bytes, length, take, drop, length-append, length-take, arith, done, ◌>>=◌,
  if◌then◌else◌, leb, ltb, take-length-append, drop-length-append, Bool-cases, ◌⊎◌, inl, inr,
  le→leb, le→leb_false,
}
use hassio_installer.Argz.{
  Alloc, Argz, Errno, argz, ok, enomem, bytes, argz_insert, move, copy, resize, entry_start,
  insert_at,
}
use hassio_installer.Argz.Vectors.{
  packed, packed-append, IsVector, copy-append, resize_vector, take-append,
}
use hassio_installer.Argz.Edit.{packed_last, entry_start_here}

-- A move up by the length of `room` into it.
move_up :
    (xs ys room : Bytes) (k : ℕ)
    → length room ≡ k
    → (junk : Bytes) × (move (length xs + k) (length xs) (length ys) (xs ++ (ys ++ room))
        ≡ done (xs ++ (junk ++ ys)))
      × (length junk ≡ k)
unfolding move
move_up xs ys room k size =
    let m = xs ++ (ys ++ room) in
    let n : length m ≡ length xs + length ys + length room =
      omega (arith, length-append xs (ys ++ room), length-append ys room) in
    let a : leb (length xs + k + length ys) (length m) ≡ true = le→leb _ _ (omega arith) in
    let b : leb (length xs + length ys) (length m) ≡ true = le→leb _ _ (omega arith) in
    let nothing : drop (length xs + k + length ys) m ≡ [] = drop-all m _ (omega arith) in
    (
      take k (ys ++ room),
      rw (a, b)
          (rw
            (
              take-append xs (ys ++ room) k,
              drop-length-append xs (ys ++ room),
              take-length-append ys room,
              nothing,
            )
            (rw append-nil (rw append_assoc))),
      omega (arith, length-take k (ys ++ room), length-append ys room),
    )

-- What `insert_at` leaves: the block with the new string between the two parts, or ENOMEM with
-- nothing changed.
inserted : Alloc → Bytes → Bytes → Bytes → Argz → Errno × Argz
inserted al xs ys entry b =
    if al.grants (b.len + (length entry + 1))
    then (ok, argz (some (xs ++ ((entry ++ 0 ∷ []) ++ ys))) (b.len + (length entry + 1)))
    else (enomem, b)

insert_at_lem :
    (al : Alloc) (xs ys slack entry : Bytes) (b : Argz)
    → bytes b.block ≡ (xs ++ ys) ++ slack
    → b.len ≡ length (xs ++ ys)
    → insert_at al b (length xs) entry ≡ done (inserted al xs ys entry b)
unfolding insert_at inserted
insert_at_lem al xs ys slack entry b mem len =
    elim (Bool-cases (al.grants (b.len + (length entry + 1)))) [
      | inr e ↦ rw e
      | inl e ↦
          let (room, r, n) = resize_vector al (xs ++ ys) slack (length entry + 1) in
          let grown : resize al (bytes b.block) (b.len + (length entry + 1)) ≡ xs ++ (ys ++ room) =
            rw (mem, len) (r ∙ append_assoc xs ys room) in
          let (junk, moved, n') = move_up xs ys room (length entry + 1) n in
          let k : b.len - length xs ≡ length ys = omega (arith, length-append xs ys) in
          let size : length (entry ++ 0 ∷ []) ≡ length junk =
            omega (arith, length-append entry (0 ∷ [])) in
          let filled : drop (length (entry ++ 0 ∷ [])) (junk ++ ys) ≡ ys =
            rw size (drop-length-append junk ys) in
          rw e (
            rw (grown, k)
              (ap
                  (λ o. o >>= λ m. copy (length xs) (entry ++ 0 ∷ []) m >>= λ m'.
                    done (ok, argz (some m') (b.len + (length entry + 1))))
                  moved
                ∙ rw
                    (
                      copy-append (entry ++ 0 ∷ []) xs (junk ++ ys)
                          (omega (arith, length-append junk ys)),
                      filled,
                    )
                    (rw append_assoc)))
    ]

entry_start-packed :
    (pre : List Bytes) (ys : Bytes)
    → (ltb 0 (length (packed pre)) ≡ false)
      ⊎ (entry_start (packed pre ++ ys) (length (packed pre)) ≡ done (length (packed pre)))
entry_start-packed [] ys = inl refl
entry_start-packed (s ∷ ss) ys =
    let (xs, e) = packed_last s ss in inr (rw e (entry_start_here xs ys))

start_or_insert :
    (al : Alloc) (pre : List Bytes) (ys slack entry : Bytes) (a : Argz)
    → bytes a.block ≡ (packed pre ++ ys) ++ slack
    → (if ltb 0 (length (packed pre))
        then (entry_start (bytes a.block) (length (packed pre)) >>= λ b. insert_at al a b entry)
        else insert_at al a (length (packed pre)) entry)
      ≡ insert_at al a (length (packed pre)) entry
start_or_insert al pre ys slack entry a mem = elim (Bool-cases (ltb 0 (length (packed pre)))) [
  | inr e ↦ rw e
  | inl e ↦ elim (entry_start-packed pre (ys ++ slack)) [
    | inl none ↦ absurd (ground arith)
    | inr here ↦ rw e (rw (mem, append_assoc, here))
  ]
]

-- Where a vector has a string, `argz_insert` puts a new one in front of it and keeps the others in
-- order, or fails with ENOMEM and changes nothing.
pub argz_insert-IsVector :
    (al : Alloc) (pre post : List Bytes) (s entry : Bytes) (a : Argz)
    → IsVector (pre ++ s ∷ post) a
    → (a' : Argz) × (argz_insert al a (some (length (packed pre))) entry
        ≡ done (if al.grants (a.len + (length entry + 1)) then (ok, a') else (enomem, a)))
      × IsVector (pre ++ entry ∷ s ∷ post) a'
unfolding argz_insert inserted
argz_insert-IsVector al pre post s entry a v =
    let xs = packed pre in
    let ys = packed (s ∷ post) in
    let both : packed (pre ++ s ∷ post) ≡ xs ++ ys = packed-append pre (s ∷ post) in
    let mem : bytes a.block ≡ (xs ++ ys) ++ v.slack = v.holds ∙ ap (λ z. z ++ v.slack) both in
    let len : a.len ≡ length (xs ++ ys) = v.len ∙ ap length both in
    let run = insert_at_lem al xs ys v.slack entry a mem len in
    let inside : leb a.len (length xs) ≡ false =
      le→leb_false _ _ (omega (arith, length-append xs ys, length-append s (0 ∷ packed post))) in
    let whole : packed (pre ++ entry ∷ s ∷ post) ≡ xs ++ ((entry ++ 0 ∷ []) ++ ys) =
      packed-append pre (entry ∷ s ∷ post) ∙ simp append_assoc in
    (
      argz (some (xs ++ ((entry ++ 0 ∷ []) ++ ys))) (a.len + (length entry + 1)),
      rw inside (start_or_insert al pre ys v.slack entry a mem ∙ run),
      record {
        len = rw whole (
            omega (
              arith,
              length-append xs ys,
              length-append xs ((entry ++ 0 ∷ []) ++ ys),
              length-append (entry ++ 0 ∷ []) ys,
              length-append entry (0 ∷ []),
            ));
        slack = [];
        holds = rw (whole, append-nil);
      },
    )
