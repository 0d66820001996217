-- ===== src/Argz/Vectors.antt =====
-- Of argz.c.
-- A vector stands for a list of strings: how it is made, extended and read.
use hassio_installer.Prelude.{
  drop-all, ℕ, suc, ◌+◌, ◌≤◌, ◌≡◌, ◌≢◌, refl, sym, ◌∙◌, ap, subst, none, some, List, [], ◌∷◌, ◌++◌,
  append-nil, append_assoc, Bytes, length, take, drop, replicate, All, length-append, length-take,
  length-drop, length-replicate, store-append, arith, done, if◌then◌else◌, ◌==◌, Bool-cases, inl,
  inr,
}
use hassio_installer.Argz.{
  ok, enomem, Alloc, Argz, argz, bytes, resize, copy, argz_append, argz_add, total, copy_all,
  argz_create,
}

-- A string, and strings end to end.
abbrev pub NoNul : Bytes → Type 0
NoNul = All (λ c. c ≢ 0)

abbrev pub packed : List Bytes → Bytes
packed [] = []
packed (s ∷ ss) = s ++ 0 ∷ packed ss

-- The vector holds these strings; the block may be longer.
pub record IsVector (ss : List Bytes) (a : Argz) : Type 0 where
  pub len : a.len ≡ length (packed ss)
  pub slack : Bytes
  pub holds : bytes a.block ≡ packed ss ++ slack

pub packed-append : (ss ts : List Bytes) → packed (ss ++ ts) ≡ packed ss ++ packed ts
packed-append [] ts = refl
packed-append (s ∷ ss) ts = rw (packed-append ss ts) (simp append_assoc)

pub copy-append :
    (s xs ys : Bytes)
    → length s ≤ length ys
    → copy (length xs) s (xs ++ ys) ≡ done (xs ++ s ++ drop (length s) ys)
unfolding copy
copy-append [] xs ys h = rw append-nil
copy-append (c ∷ s) xs [] h = absurd (omega arith)
copy-append (c ∷ s) xs (y ∷ ys) h =
    let at : length (xs ++ c ∷ []) ≡ length xs + 1 = omega (arith, length-append {0}) in
    rw (store-append xs c y ys, ← at)
      (subst (λ m. copy (length (xs ++ c ∷ [])) s m ≡ done (xs ++ c ∷ s ++ drop (length s) ys))
        (append_assoc xs (c ∷ []) ys)
        (copy-append s (xs ++ c ∷ []) ys (omega arith) ∙ simp append_assoc))

pub take-append : (xs zs : Bytes) (k : ℕ) → take (length xs + k) (xs ++ zs) ≡ xs ++ take k zs
take-append [] zs k = let e : 0 + k ≡ k = omega arith in rw e
take-append (x ∷ xs) zs k =
    let e : suc (length xs) + k ≡ suc (length xs + k) = omega arith in
    rw e (ap (◌∷◌ x) (take-append xs zs k))

-- A larger block keeps the bytes of the vector and has room for the new ones.
pub resize_vector :
    (al : Alloc) (xs slack : Bytes) (k : ℕ)
    → (zs : Bytes) × (resize al (xs ++ slack) (length xs + k) ≡ xs ++ zs) × (length zs ≡ k)
unfolding resize
resize_vector al xs slack k = (
  take k (slack ++ replicate (length xs + k) al.junk),
  rw append_assoc (take-append xs _ k),
  omega (arith, length-take {0}, length-append {0}, length-replicate {0}),
)

-- `argz_append` writes the bytes behind the strings of a vector, or fails with ENOMEM and changes
-- nothing.
pub argz_append_lem :
    (al : Alloc) (ss : List Bytes) (a : Argz) (buf : Bytes)
    → IsVector ss a
    → argz_append al a buf ≡ (
        if al.grants (a.len + length buf)
        then done (ok, argz (some (packed ss ++ buf)) (a.len + length buf))
        else done (enomem, a))
unfolding argz_append
argz_append_lem al ss a buf v = elim (Bool-cases (al.grants (a.len + length buf))) [
  | inr e ↦ rw e
  | inl e ↦
      let (zs, r, n) = resize_vector al (packed ss) v.slack (length buf) in
      let rest : drop (length buf) zs ≡ [] = drop-all zs (length buf) (omega arith) in
      rw e (rw (v.holds, v.len, r, copy-append buf (packed ss) zs (omega arith), rest, append-nil))
]

-- `argz_add` puts a string behind the others, or fails with ENOMEM and changes nothing.
pub argz_add-IsVector :
    (al : Alloc) (ss : List Bytes) (a : Argz) (str : Bytes)
    → IsVector ss a
    → (a' : Argz) × (argz_add al a str
        ≡ (if al.grants (a.len + (length str + 1)) then done (ok, a') else done (enomem, a)))
      × IsVector (ss ++ str ∷ []) a'
unfolding argz_add
argz_add-IsVector al ss a str v =
    let n : length (str ++ 0 ∷ []) ≡ length str + 1 = omega (arith, length-append {0}) in
    let eq : packed (ss ++ str ∷ []) ≡ packed ss ++ (str ++ 0 ∷ []) = packed-append ss (str ∷ []) in
    (
      argz (some (packed ss ++ (str ++ 0 ∷ []))) (a.len + (length str + 1)),
      rw (← n) (argz_append_lem al ss a (str ++ 0 ∷ []) v),
      record {
        len = rw eq (omega (arith, v.len, length-append {0}));
        slack = [];
        holds = rw append-nil (sym eq);
      },
    )

length-packed-total : (ss : List Bytes) → length (packed ss) ≡ total ss
unfolding total
length-packed-total [] = refl
length-packed-total (s ∷ ss) =
    omega (arith, length-packed-total ss, length-append s (0 ∷ packed ss))

copy_all-append :
    (ss : List Bytes) (xs ys : Bytes)
    → total ss ≡ length ys
    → copy_all (length xs) ss (xs ++ ys) ≡ done (xs ++ packed ss)
unfolding copy_all total
copy_all-append [] xs [] h = rw append-nil
copy_all-append [] xs (y ∷ ys) h = absurd (omega arith)
copy_all-append (s ∷ ss) xs ys h =
    let s0 = s ++ 0 ∷ [] in
    let n : length s0 ≡ length s + 1 = omega (arith, length-append {0}) in
    let at : length (xs ++ s0) ≡ length xs + length s + 1 = omega (arith, length-append xs s0) in
    let ends : (xs ++ s0) ++ packed ss ≡ xs ++ packed (s ∷ ss) = simp append_assoc in
    rw (copy-append s0 xs ys (omega arith), ← at)
      (copy_all-append ss (xs ++ s0) (drop (length s0) ys) (omega (arith, length-drop {0}))
        ∙ rw ends)

-- `argz_create` makes the vector of the strings of `argv`, and NULL for none; on ENOMEM `*argz` is
-- NULL and `*len` stays.
pub argz_create-packed :
    (al : Alloc) (argv : List Bytes) (old : Argz)
    → argz_create al argv old ≡ (
        if total argv == 0
        then done (ok, argz none 0)
        else if al.grants (total argv)
        then done (ok, argz (some (packed argv)) (length (packed argv)))
        else done (enomem, argz none old.len))
unfolding argz_create
argz_create-packed al argv old =
    let e =
      copy_all-append argv [] (replicate (total argv) al.junk)
        (sym (length-replicate (total argv) al.junk)) in
    rw (e, length-packed-total argv) (ground arith)
