-- ===== src/Argz/Client/Entries.antt =====
-- Of argz.c.
-- Entries reached and read by `argz_next`.
use hassio_installer.Prelude.{
  ℕ, zero, suc, ◌+◌, ◌≤◌, ◌≡◌, refl, sym, ◌∙◌, ap, subst, Option, List, [], ◌∷◌, ◌++◌, append_assoc,
  append-nil, Bytes, length, length-append, drop, take, All, arith, done, ◌>>=◌, drop-length-append,
}
use hassio_installer.Argz.{Argz, bytes}
use hassio_installer.Argz.Vectors.{NoNul, packed, packed-append, IsVector}
use hassio_installer.Argz.Walk.{around, first_at, argz_next-first, argz_next-next}
use hassio_installer.Argz.Replace.{string}
use hassio_installer.Argz.Replace.Counts.{string-NoNul}
use hassio_installer.Argz.Replace.Strings.{length-le-packed}
use hassio_installer.Argz.Client.{steps, entry, strings_from, contents}

-- The address of the string `k` behind `pre`.
abbrev pub place : List Bytes → List Bytes → ℕ → Option ℕ
place pre post k = first_at (drop k post) (length (packed (pre ++ take k post)))

-- The vector with its string taken to the front part, and where that ends.
shifted :
    (pre post : List Bytes) (s : Bytes) (a : Argz)
    → IsVector (pre ++ s ∷ post) a
    → IsVector ((pre ++ s ∷ []) ++ post) a
shifted pre post s a v = subst (λ ss. IsVector ss a) (sym (append_assoc pre (s ∷ []) post)) v

length-shifted :
    (pre : List Bytes) (s : Bytes)
    → length (packed pre) + length s + 1 ≡ length (packed (pre ++ s ∷ []))
length-shifted pre s =
    rw (packed-append pre (s ∷ []))
      (omega (arith, length-append (packed pre) (s ++ 0 ∷ []), length-append s (0 ∷ [])))

steps-place :
    (k : ℕ) (pre post : List Bytes) (a : Argz)
    → IsVector (pre ++ post) a
    → All NoNul post
    → steps k a (first_at post (length (packed pre))) ≡ done (place pre post k)
unfolding steps
steps-place zero pre post a v h = rw append-nil
steps-place (suc k) pre [] a v h = refl
steps-place (suc k) pre (s ∷ post) a v (h, hs) =
    let next = steps-place k (pre ++ s ∷ []) post a (shifted pre post s a v) hs in
    rw (argz_next-next pre post s a v h, length-shifted pre s)
      (next
        ∙ ap (λ ss. done (first_at (drop k post) (length (packed ss))))
            (append_assoc pre (s ∷ []) (take k post)))

pub entry-place :
    (k : ℕ) (ss : List Bytes) (a : Argz)
    → IsVector ss a
    → All NoNul ss
    → entry a k ≡ done (place [] ss k)
unfolding entry
entry-place k ss a v h =
    ap (λ o. o >>= steps k a) (argz_next-first ss a v) ∙ steps-place k [] ss a v h

strings_from-post :
    (fuel : ℕ) (pre post : List Bytes) (a : Argz)
    → IsVector (pre ++ post) a
    → All NoNul post
    → length post ≤ fuel
    → strings_from fuel a (first_at post (length (packed pre))) ≡ done post
unfolding strings_from
strings_from-post fuel pre [] a v h enough = refl
strings_from-post zero pre (s ∷ post) a v h enough = absurd (omega arith)
strings_from-post (suc fuel) pre (s ∷ post) a v (h, hs) enough =
    let next =
      strings_from-post fuel (pre ++ s ∷ []) post a (shifted pre post s a v) hs (omega arith) in
    let here : string (drop (length (packed pre)) (bytes a.block)) ≡ done s =
      rw
        (around pre post s a v, drop-length-append (packed pre) (s ++ 0 ∷ (packed post ++ v.slack)))
        (string-NoNul s _ h) in
    rw (here, argz_next-next pre post s a v h, length-shifted pre s, next)

-- Reading with `argz_next` from NULL to NULL gives the strings of a vector in order.
pub contents-strings :
    (ss : List Bytes) (a : Argz) → IsVector ss a → All NoNul ss → contents a ≡ done ss
unfolding contents
contents-strings ss a v h =
    ap (λ o. o >>= strings_from a.len a) (argz_next-first ss a v)
    ∙ strings_from-post a.len [] ss a v h (omega (arith, v.len, length-le-packed ss))

-- A place in a list: behind its end, or at one of its strings.
pub data Place (k : ℕ) (ss : List Bytes) : Type 0 where
  beyond : drop k ss ≡ [] → drop (suc k) ss ≡ [] → take k ss ≡ ss → Place k ss
  at :
      (s : Bytes) (post : List Bytes)
      → drop k ss ≡ s ∷ post
      → drop (suc k) ss ≡ post
      → ss ≡ take k ss ++ s ∷ post
      → Place k ss

pub find : (k : ℕ) (ss : List Bytes) → Place k ss
find zero [] = beyond refl refl refl
find zero (s ∷ ss) = at s ss refl refl refl
find (suc k) [] = beyond refl refl refl
find (suc k) (s ∷ ss) = elim (find k ss) [
  | beyond d d' t ↦ beyond d d' (ap (◌∷◌ s) t)
  | at u post d d' e ↦ at u post d d' (ap (◌∷◌ s) e)
]
