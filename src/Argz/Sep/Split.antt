-- ===== src/Argz/Sep/Split.antt =====
-- Of argz.c.
-- Vectors of the fields of a string, and back to the string.
use hassio_installer.Prelude.{
  Bool, ℕ, ◌+◌, ◌^◌, ◌<◌, ◌≡◌, ◌≢◌, refl, none, some, List, [], ◌∷◌, ◌++◌, append-nil, Bytes,
  length, replicate, length-replicate, arith, done, ltb, true, false, if◌then◌else◌, ◌==◌,
  Bool-cases, inl, inr,
}
use hassio_installer.Argz.{ok, enomem, Alloc, Argz, argz, bytes, resize}
use hassio_installer.Argz.Vectors.{NoNul, packed, IsVector, resize_vector}
use hassio_installer.Argz.Sep.{split_all, argz_create_sep, argz_add_sep}
use hassio_installer.Argz.Sep.Fields.{onto, pieces, kept, writing}
use hassio_installer.Argz.Sep.Loop.{Splits, split_all-Splits, pieces-some}

abbrev pub empty : Bytes → Bool
empty [] = true
empty (c ∷ s) = false

-- What the string is cut into: nothing if it is empty.
unfoldable pub fields : ℕ → Bytes → List Bytes
fields delim [] = []
fields delim (c ∷ s) = kept (pieces delim (c ∷ s))

onto-pieces : (delim : ℕ) (s : Bytes) → onto [] (pieces delim s) ≡ pieces delim s
onto-pieces delim s = let (p, ps, e) = pieces-some delim s in rw e refl

empty_of_length : (xs : Bytes) → length xs ≡ 0 → xs ≡ []
empty_of_length [] h = refl
empty_of_length (x ∷ xs) h = absurd (omega arith)

held-IsVector :
    (fs : List Bytes) (m slack : Bytes) (n : ℕ)
    → m ≡ packed fs ++ slack
    → n ≡ length (packed fs)
    → IsVector fs (argz (if n == 0 then none else some m) n)
held-IsVector fs m slack n held count = elim (Bool-cases (n == 0)) [
  | inl e ↦
      let nothing : packed fs ≡ [] = empty_of_length (packed fs) (ground arith) in
      record { len = count; slack = []; holds = rw (e, nothing) refl }
  | inr e ↦ record { len = count; slack = slack; holds = rw e held }
]

created :
    (al : Alloc) (delim c : ℕ) (s : Bytes) (old : Argz) (fs : List Bytes)
    → Splits
        (split_all delim
          (c ∷ s)
          (writing [] (replicate (length (c ∷ s) + 1) al.junk) (length (c ∷ s) + 1)))
        0
        fs
    → (a' : Argz) × (argz_create_sep al (c ∷ s) delim old ≡ (
        if al.grants (length (c ∷ s) + 1) then done (ok, a') else done (enomem, argz none old.len)))
      × IsVector fs a'
unfolding argz_create_sep
created al delim c s old fs (t, slack, run, held, count) =
    let some_bytes : ltb 1 (length (c ∷ s) + 1) ≡ true = ground arith in
    (
      argz (if t.nlen == 0 then none else some t.block) t.nlen,
      elim (Bool-cases (al.grants (length (c ∷ s) + 1))) [
        | inl e ↦ rw (some_bytes, e, run)
        | inr e ↦ rw (some_bytes, e)
      ],
      held-IsVector fs t.block slack t.nlen held (omega arith),
    )

extended :
    (al : Alloc) (delim c : ℕ) (s : Bytes) (a : Argz) (fs : List Bytes)
    → Splits
        (split_all delim (c ∷ s) (record {
          block = resize al (bytes a.block) (a.len + (length (c ∷ s) + 1));
          wp = a.len;
          nlen = length (c ∷ s) + 1;
        }))
        a.len
        fs
    → (a' : Argz) × (argz_add_sep al a (c ∷ s) delim ≡ (
        if al.grants (a.len + (length (c ∷ s) + 1))
        then done (ok, a')
        else done (enomem, argz none a.len)))
      × IsVector fs a'
unfolding argz_add_sep
extended al delim c s a fs (t, slack, run, held, count) =
    let some_bytes : ltb 1 (length (c ∷ s) + 1) ≡ true = ground arith in
    (
      argz (some t.block) (a.len + t.nlen),
      elim (Bool-cases (al.grants (a.len + (length (c ∷ s) + 1)))) [
        | inl e ↦ rw (some_bytes, e, run)
        | inr e ↦ rw (some_bytes, e)
      ],
      record { len = omega arith; slack = slack; holds = held },
    )

-- `argz_create_sep` makes the vector of the fields of a string between the delimiters, without the
-- empty ones but for the last, and of none for the empty string; without memory it returns ENOMEM,
-- `*argz` is NULL and `*len` stays.
pub argz_create_sep-fields :
    (al : Alloc) (delim : ℕ) (string : Bytes) (old : Argz)
    → delim ≢ 0
    → NoNul string
    → length string + 1 < 2 ^ 64
    → (a' : Argz) × (argz_create_sep al string delim old ≡ (
        if empty string
        then done (ok, argz none 0)
        else if al.grants (length string + 1)
        then done (ok, a')
        else done (enomem, argz none old.len)))
      × IsVector (fields delim string) a'
unfolding argz_create_sep fields
argz_create_sep-fields al delim [] old nz h word =
    (argz none 0, refl, record { len = refl; slack = []; holds = refl })
argz_create_sep-fields al delim (c ∷ s) old nz h word =
    let n = length (c ∷ s) + 1 in
    let fs = onto-pieces delim (c ∷ s) in
    created al delim c s old (kept (pieces delim (c ∷ s))) (
      rw (← fs) (
        split_all-Splits delim (c ∷ s) [] [] (replicate n al.junk) n 0 nz h tt
          (omega (arith, length-replicate n al.junk)) (omega arith) (omega arith) word))

-- `argz_add_sep` puts the same fields behind the strings of a vector; without memory it returns
-- ENOMEM and `*argz` is NULL.
pub argz_add_sep-fields :
    (al : Alloc) (ss : List Bytes) (a : Argz) (delim : ℕ) (string : Bytes)
    → IsVector ss a
    → delim ≢ 0
    → NoNul string
    → length string + 1 < 2 ^ 64
    → (a' : Argz) × (argz_add_sep al a string delim ≡ (
        if empty string
        then done (ok, a)
        else if al.grants (a.len + (length string + 1))
        then done (ok, a')
        else done (enomem, argz none a.len)))
      × IsVector (ss ++ fields delim string) a'
unfolding argz_add_sep fields
argz_add_sep-fields al ss a delim [] v nz h word = (a, refl, rw append-nil v)
argz_add_sep-fields al ss a delim (c ∷ s) v nz h word =
    let n = length (c ∷ s) + 1 in
    let (zs, grown, room) = resize_vector al (packed ss) v.slack n in
    let fs = onto-pieces delim (c ∷ s) in
    let start : resize al (bytes a.block) (a.len + n) ≡ (packed ss ++ []) ++ zs =
      rw (v.holds, v.len, append-nil) grown in
    let at : a.len ≡ length (packed ss ++ []) = rw append-nil v.len in
    extended al delim c s a (ss ++ kept (pieces delim (c ∷ s))) (
      rw (start, at, ← fs)
        (split_all-Splits delim (c ∷ s) ss [] zs n (length (packed ss ++ [])) nz h tt (omega arith)
          (omega (arith, v.len)) (omega (arith, v.len)) word))
