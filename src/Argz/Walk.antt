-- ===== src/Argz/Walk.antt =====
-- Of argz.c.
-- Reading a vector: counting its strings, taking their addresses, and going from one to the next.
use hassio_installer.Prelude.{
  ℕ, zero, suc, ◌+◌, ◌^◌, ◌<◌, ◌≡◌, refl, ◌∙◌, ap, false, none, some, Option, List, [], ◌∷◌, ◌++◌,
  append_assoc, Bytes, length, drop, All, length-append, arith, done, ◌==◌, drop-length-append,
}
use hassio_installer.Argz.{
  Argz, bytes, strlen, less, count_from, argz_count, extract_from, argz_extract, argz_next,
}
use hassio_installer.Argz.Vectors.{NoNul, packed, packed-append, IsVector}

-- Objects are smaller than the address space.
abbrev pub Fits : ℕ → Type 0
Fits n = n < 2 ^ 64

pub strlen-NoNul : (s m : Bytes) → NoNul s → strlen (s ++ 0 ∷ m) ≡ done (length s)
unfolding strlen
strlen-NoNul [] m h = refl
strlen-NoNul (zero ∷ s) m (h, hs) = absurd (h refl)
strlen-NoNul (suc c ∷ s) m (h, hs) = rw (strlen-NoNul s m hs) (ground arith)

count_from-NoNul :
    (s m : Bytes) (len part k : ℕ)
    → NoNul s
    → count_from (s ++ 0 ∷ m) len part k ≡ count_from (0 ∷ m) len (part + length s) k
unfolding count_from
count_from-NoNul [] m len part k h = let e : part + 0 ≡ part = omega arith in rw e
count_from-NoNul (zero ∷ s) m len part k (h, hs) = absurd (h refl)
count_from-NoNul (suc c ∷ s) m len part k (h, hs) =
    let e : part + 1 + length s ≡ part + suc (length s) = omega arith in
    rw (← e) (count_from-NoNul s m len (part + 1) k hs)

-- What is left of the length behind a string.
less-packed :
    (ss : List Bytes) (s : Bytes)
    → Fits (length (packed (s ∷ ss)))
    → less (length (packed (s ∷ ss))) (0 + length s + 1) ≡ length (packed ss)
less-packed ss s fits = omega (arith, length-append s (0 ∷ packed ss))

packed-pos : (ss : List Bytes) (s : Bytes) → (length (packed (s ∷ ss)) == 0) ≡ false
packed-pos ss s = ground (arith, length-append s (0 ∷ packed ss))

count_from-packed :
    (ss : List Bytes) (s slack : Bytes) (k : ℕ)
    → All NoNul (s ∷ ss)
    → Fits (length (packed (s ∷ ss)))
    → count_from (packed (s ∷ ss) ++ slack) (length (packed (s ∷ ss))) 0 k
      ≡ done (k + length (s ∷ ss))
unfolding count_from
count_from-packed [] s slack k (h, hs) fits =
    rw (
      append_assoc,
      count_from-NoNul s slack (length (packed (s ∷ []))) 0 k h,
      less-packed [] s fits,
    )
count_from-packed (t ∷ ss) s slack k (h, hs) fits =
    let e : k + 1 + length (t ∷ ss) ≡ k + length (s ∷ t ∷ ss) = omega arith in
    rw
      (
        append_assoc,
        count_from-NoNul s (packed (t ∷ ss) ++ slack) (length (packed (s ∷ t ∷ ss))) 0 k h,
      )
      (rw (less-packed (t ∷ ss) s fits, packed-pos ss t)
        (count_from-packed ss t slack (k + 1) hs
            (omega (arith, less-packed (t ∷ ss) s fits, length-append s (0 ∷ packed (t ∷ ss))))
          ∙ rw e))

-- If its strings hold no '\0' and its length is one of an object in memory, `argz_count` gives the
-- number of strings of a vector.
pub argz_count-length :
    (ss : List Bytes) (a : Argz)
    → IsVector ss a
    → All NoNul ss
    → Fits a.len
    → argz_count (bytes a.block) a.len ≡ done (length ss)
unfolding argz_count
argz_count-length [] a v h fits = rw v.len
argz_count-length (s ∷ ss) a v h fits =
    let e : 0 + length (s ∷ ss) ≡ length (s ∷ ss) = omega arith in
    rw (v.holds, v.len, packed-pos ss s)
      (count_from-packed ss s v.slack 0 h (omega (arith, v.len)) ∙ rw e)

-- The offsets at which the strings begin.
abbrev pub starts : List Bytes → ℕ → List ℕ
starts [] p = []
starts (s ∷ ss) p = p ∷ starts ss (p + length s + 1)

extract_from-NoNul :
    (s m : Bytes) (len part k : ℕ)
    → NoNul s
    → extract_from (s ++ 0 ∷ m) len part k ≡ extract_from (0 ∷ m) len (part + length s) k
unfolding extract_from
extract_from-NoNul [] m len part k h = let e : part + 0 ≡ part = omega arith in rw e
extract_from-NoNul (zero ∷ s) m len part k (h, hs) = absurd (h refl)
extract_from-NoNul (suc c ∷ s) m len part k (h, hs) =
    let e : part + 1 + length s ≡ part + suc (length s) = omega arith in
    rw (← e) (extract_from-NoNul s m len (part + 1) k hs)

extract_from-packed :
    (ss : List Bytes) (s slack : Bytes) (k : ℕ)
    → All NoNul (s ∷ ss)
    → Fits (length (packed (s ∷ ss)))
    → extract_from (packed (s ∷ ss) ++ slack) (length (packed (s ∷ ss))) 0 k
      ≡ done (starts (s ∷ ss) k)
unfolding extract_from
extract_from-packed [] s slack k (h, hs) fits = rw (
  append_assoc,
  extract_from-NoNul s slack (length (packed (s ∷ []))) 0 k h,
  less-packed [] s fits,
)
extract_from-packed (t ∷ ss) s slack k (h, hs) fits =
    let e : k + (0 + length s) + 1 ≡ k + length s + 1 = omega arith in
    rw
      (
        append_assoc,
        extract_from-NoNul s (packed (t ∷ ss) ++ slack) (length (packed (s ∷ t ∷ ss))) 0 k h,
      )
      (rw (less-packed (t ∷ ss) s fits, packed-pos ss t, e)
        (rw (
          extract_from-packed ss t slack (k + length s + 1) hs
            (omega (arith, less-packed (t ∷ ss) s fits, length-append s (0 ∷ packed (t ∷ ss)))))))

-- If its strings hold no '\0' and its length is one of an object in memory, `argz_extract` puts the
-- address of each string of a vector, in order, into `argv`.
pub argz_extract-starts :
    (ss : List Bytes) (a : Argz)
    → IsVector ss a
    → All NoNul ss
    → Fits a.len
    → argz_extract (bytes a.block) a.len ≡ done (starts ss 0)
unfolding argz_extract
argz_extract-starts [] a v h fits = rw v.len
argz_extract-starts (s ∷ ss) a v h fits =
    rw (v.holds, v.len, packed-pos ss s)
      (extract_from-packed ss s v.slack 0 h (omega (arith, v.len)))

pub drop-append : (xs ys : Bytes) (k : ℕ) → drop (length xs + k) (xs ++ ys) ≡ drop k ys
drop-append [] ys k = let e : 0 + k ≡ k = omega arith in rw e
drop-append (x ∷ xs) ys k =
    let e : suc (length xs) + k ≡ suc (length xs + k) = omega arith in rw e (drop-append xs ys k)

-- A string of a vector, with what lies around it.
module _ (pre post : List Bytes) (s : Bytes) (a : Argz) (v : IsVector (pre ++ s ∷ post) a) where
  abbrev pub here : ℕ
  here = length (packed pre)

  pub around : bytes a.block ≡ packed pre ++ (s ++ 0 ∷ (packed post ++ v.slack))
  around = v.holds ∙ rw (packed-append pre (s ∷ post)) (simp append_assoc)

  pub around_len : a.len ≡ here + length s + 1 + length (packed post)
  around_len =
      v.len
      ∙ ap length (packed-append pre (s ∷ post))
      ∙ omega
          (arith, length-append (packed pre) (packed (s ∷ post)), length-append s (0 ∷ packed post))

  tail_here : drop here (bytes a.block) ≡ s ++ 0 ∷ (packed post ++ v.slack)
  tail_here = rw around (drop-length-append (packed pre) (s ++ 0 ∷ (packed post ++ v.slack)))

  pub strlen-here : NoNul s → strlen (drop here (bytes a.block)) ≡ done (length s)
  strlen-here h = rw tail_here (strlen-NoNul s (packed post ++ v.slack) h)

-- The address of the first of some strings at offset `p`, NULL for none.
abbrev pub first_at : List Bytes → ℕ → Option ℕ
first_at [] p = none
first_at (s ∷ ss) p = some p

-- From NULL `argz_next` goes to the first string of a vector, and to NULL if there is none.
pub argz_next-first :
    (ss : List Bytes) (a : Argz)
    → IsVector ss a
    → argz_next (bytes a.block) a.len none ≡ done (first_at ss 0)
unfolding argz_next
argz_next-first [] a v = rw v.len
argz_next-first (s ∷ ss) a v = ground (arith, v.len, length-append s (0 ∷ packed ss))

-- From the beginning of a string of a vector that holds no '\0', `argz_next` goes to the string
-- behind it, and from the last one to NULL.
pub argz_next-next :
    (pre post : List Bytes) (s : Bytes) (a : Argz)
    → IsVector (pre ++ s ∷ post) a
    → NoNul s
    → argz_next (bytes a.block) a.len (some (length (packed pre)))
      ≡ done (first_at post (length (packed pre) + length s + 1))
unfolding argz_next
argz_next-next pre [] s a v h = ground (arith, around_len pre [] s a v, strlen-here pre [] s a v h)
argz_next-next pre (t ∷ post) s a v h = ground (
  arith,
  around_len pre (t ∷ post) s a v,
  strlen-here pre (t ∷ post) s a v h,
  length-append t (0 ∷ packed post),
)
