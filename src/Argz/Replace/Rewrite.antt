-- ===== src/Argz/Replace/Rewrite.antt =====
-- Of argz.c.
-- One string with a match: what `to` comes to.
use hassio_installer.Prelude.{
  All-append, ◌≢◌, ℕ, zero, suc, ◌+◌, ◌-◌, ◌≤◌, ◌<◌, ◌≡◌, ◌⊎◌, refl, sym, ◌∙◌, ap, true, false,
  none, some, Option, [], ◌∷◌, ◌++◌, append_assoc, Bytes, length, take, drop, length-append,
  length-drop, length-take, arith, Outcome, done, if◌then◌else◌, Bool-cases, Option-cases, write,
  inl, inr, ◌>>=◌, store-append,
}
use hassio_installer.Argz.{Alloc, resize, copy}
use hassio_installer.Argz.Vectors.{NoNul, copy-append, resize_vector}
use hassio_installer.Argz.Replace.{
  Text, text, starts_with, strstr, str_append, strndup, append_rest, append_found, fill,
  rewrite_string,
}

-- The string with each occurrence replaced, from the left; `skip` bytes belong to one.
unfoldable pub replaced_from : Bytes → Bytes → ℕ → Bytes → Bytes
replaced_from str with skip [] = []
replaced_from str with (suc skip) (c ∷ s) = replaced_from str with skip s
replaced_from str with zero (c ∷ s) =
    let behind = replaced_from str with (length str - 1) s in
    let kept = replaced_from str with zero s in
    if starts_with str (c ∷ s) then with ++ behind else c ∷ kept

unfoldable pub replaced : Bytes → Bytes → Bytes → Bytes
unfolding replaced_from
replaced str with s = replaced_from str with zero s

-- A request that the allocator refuses.
abbrev pub Refuses : Alloc → Type 0
Refuses al = (n : ℕ) × (al.grants n ≡ false)

-- The block holds the string and its '\0'.
abbrev pub holding : Bytes → Text
holding t = text (t ++ 0 ∷ []) (length t)

single : (zs : Bytes) → length zs ≡ 1 → (z : ℕ) × (zs ≡ z ∷ [])
single [] h = absurd (omega arith)
single (z ∷ []) h = (z, refl)
single (z ∷ y ∷ zs) h = absurd (omega arith)

-- The copy and the '\0' behind it, in a block that is larger by both.
abbrev filled : Bytes → Bytes → Bytes → Outcome (Option Text)
filled t buf m = copy (length t) buf m >>= λ m1.
    write m1 (length t + length buf) 0 >>= λ m2. done (some (text m2 (length t + length buf)))

filled-holding :
    (t buf room : Bytes)
    → length room ≡ length buf + 1
    → filled t buf (t ++ room) ≡ done (some (holding (t ++ buf)))
filled-holding t buf room n =
    let (z, last) =
      single (drop (length buf) room) (omega (arith, length-drop (length buf) room)) in
    let size : length t + length buf ≡ length (t ++ buf) = omega (arith, length-append t buf) in
    rw (size, copy-append buf t room (omega arith), last, store-append (t ++ buf) 0 z [])

pub str_append-holding :
    (al : Alloc) (t buf : Bytes)
    → str_append al (holding t) buf
      ≡ done (if al.grants (length t + length buf + 1) then some (holding (t ++ buf)) else none)
unfolding str_append
str_append-holding al t buf = elim (Bool-cases (al.grants (length t + length buf + 1))) [
  | inr e ↦ rw e
  | inl e ↦
      let (room, r, n) = resize_vector al t (0 ∷ []) (length buf + 1) in
      let size : length t + length buf + 1 ≡ length t + (length buf + 1) = omega arith in
      rw e (ap (filled t buf) (ap (resize al (t ++ 0 ∷ [])) size ∙ r) ∙ filled-holding t buf room n)
]

replaced-skip :
    (str with : Bytes) (k : ℕ) (s : Bytes)
    → replaced_from str with k s ≡ replaced_from str with zero (drop k s)
unfolding replaced_from
replaced-skip str with zero s = refl
replaced-skip str with (suc k) [] = refl
replaced-skip str with (suc k) (c ∷ s) = replaced-skip str with k s

starts_with-length : (str s : Bytes) → starts_with str s ≡ true → length str ≤ length s
unfolding starts_with
starts_with-length [] s h = omega arith
starts_with-length (d ∷ str) [] h = ground arith
starts_with-length (d ∷ str) (c ∷ s) h = ground (arith, starts_with-length str s)

strstr-nil : (str : Bytes) (k : ℕ) → 0 < length str → strstr str [] ≡ some k → ⊥
unfolding strstr
strstr-nil [] k pos h = omega arith
strstr-nil (d ∷ str) k pos h = ground arith

-- Without a match nothing is replaced; a match is where the first replacement is.
module _ (str with : Bytes) (pos : 0 < length str) where
  pub replaced-none : (s : Bytes) → strstr str s ≡ none → replaced str with s ≡ s
  unfolding strstr replaced
  replaced-none [] h = refl
  replaced-none (c ∷ s) h = elim (Bool-cases (starts_with str (c ∷ s))) [
    | inl e ↦ ground arith
    | inr e ↦ rw e (ap (◌∷◌ c) (replaced-none s (ground arith)))
  ]

  abbrev Found : Bytes → ℕ → Type 0
  Found s k =
      (k + length str ≤ length s)
      × (replaced str with s ≡ take k s ++ (with ++ replaced str with (drop (k + length str) s)))

  first-Found : (c : ℕ) (s : Bytes) → starts_with str (c ∷ s) ≡ true → Found (c ∷ s) 0
  unfolding replaced
  first-Found c s e =
      let n : 0 + length str ≡ suc (length str - 1) = omega arith in
      (
        omega (arith, starts_with-length str (c ∷ s) e),
        rw (e, n) (ap (λ z. with ++ z) (replaced-skip str with (length str - 1) s)),
      )

  next-Found :
      (c : ℕ) (s : Bytes) (k : ℕ)
      → starts_with str (c ∷ s) ≡ false
      → Found s k
      → Found (c ∷ s) (k + 1)
  unfolding replaced
  next-Found c s k e (fits, eq) =
      let n : k + 1 + length str ≡ suc (k + length str) = omega arith in
      let m : k + 1 ≡ suc k = omega arith in (omega arith, rw (n, m, e) (ap (◌∷◌ c) eq))

  pub replaced-some : (s : Bytes) (k : ℕ) → strstr str s ≡ some k → Found s k
  unfolding strstr
  replaced-some [] k h = absurd (strstr-nil str k pos h)
  replaced-some (c ∷ s) k h = elim (Bool-cases (starts_with str (c ∷ s))) [
    | inl e ↦ let z : k ≡ 0 = ground arith in rw z (first-Found c s e)
    | inr e ↦ elim (Option-cases (strstr str s)) [
      | inl nothing ↦ ground arith
      | inr (j, found) ↦
          let z : k ≡ j + 1 = ground arith in rw z (next-Found c s j e (replaced-some s j found))
    ]
  ]

module _ (al : Alloc) (str with : Bytes) (pos : 0 < length str) where
  -- The new string, or NULL where memory is refused.
  abbrev pub Made : Outcome (Option Text) → Bytes → Type 0
  Made o t = (o ≡ done (some (holding t))) ⊎ ((o ≡ done none) × Refuses al)

  appended : (t buf : Bytes) → Made (str_append al (holding t) buf) (t ++ buf)
  appended t buf = elim (Bool-cases (al.grants (length t + length buf + 1))) [
    | inl e ↦ inl (str_append-holding al t buf ∙ rw e)
    | inr e ↦ inr (str_append-holding al t buf ∙ rw e, (length t + length buf + 1, e))
  ]

  fill_null : (fuel : ℕ) (from : Bytes) → 0 < fuel → fill al str with fuel none from ≡ done none
  unfolding fill
  fill_null zero from h = absurd (omega arith)
  fill_null (suc fuel) from h = refl

  -- The turns behind this one, on what is left of the string.
  abbrev Again : (Option Text → Bytes → Outcome (Option Text)) → ℕ → Type 0
  Again again fuel =
      (t from : Bytes)
      → length from < fuel
      → Made (again (some (holding t)) from) (t ++ (with ++ replaced str with from))

  append_rest-Made :
      (fuel : ℕ) (t from : Bytes) (o : Option ℕ)
      → length from < suc fuel
      → strstr str from ≡ o
      → Again (fill al str with fuel) fuel
      → Made
          (append_rest al str with (fill al str with fuel) from o (holding (t ++ with)))
          (t ++ (with ++ replaced str with from))
  unfolding append_rest
  append_rest-Made fuel t from none h nothing ih =
      let same : (t ++ with) ++ from ≡ t ++ (with ++ replaced str with from) =
        rw (replaced-none str with pos from nothing) (append_assoc t with from) in
      rw (← same) (appended (t ++ with) from)
  append_rest-Made fuel t from (some k) h found ih =
      let (fits, eq) = replaced-some str with pos from k found in
      let left = drop (k + length str) from in
      let t' = (t ++ with) ++ take k from in
      let same : t' ++ (with ++ replaced str with left) ≡ t ++ (with ++ replaced str with from) =
        rw eq (simp append_assoc) in
      elim (appended (t ++ with) (take k from)) [
        | inr (e, never) ↦ rw e (inr (fill_null fuel left (omega arith), never))
        | inl e ↦ rw e (rw (← same) (ih t' left (omega (arith, length-drop (k + length str) from))))
      ]

  pub fill-Made : (fuel : ℕ) → Again (fill al str with fuel) fuel
  unfolding fill append_found
  fill-Made zero t from h = absurd (omega arith)
  fill-Made (suc fuel) t from h = elim (appended t with) [
    | inr (e, never) ↦ inr (rw e, never)
    | inl e ↦ rw e (append_rest-Made fuel t from (strstr str from) h refl (fill-Made fuel))
  ]

  -- A string with a match: all of it, its occurrences replaced.
  pub rewrite_string-Made :
      (s : Bytes) (k : ℕ)
      → strstr str s ≡ some k
      → Made (rewrite_string al str with s k) (replaced str with s)
  unfolding rewrite_string strndup
  rewrite_string-Made s k found =
      let (fits, eq) = replaced-some str with pos s k found in
      let left = drop (k + length str) s in
      let n : length (take k s) ≡ k = omega (arith, length-take k s) in
      elim (Bool-cases (al.grants (k + 1))) [
        | inr e ↦ rw e (inr (fill_null (length s + 1) left (omega arith), (k + 1, e)))
        | inl e ↦
            let start : text (take k s ++ 0 ∷ []) k ≡ holding (take k s) =
              ap (text (take k s ++ 0 ∷ [])) (sym n) in
            rw (e, start)
              (rw eq (
                fill-Made (length s + 1) (take k s) left
                  (omega (arith, length-drop (k + length str) s))))
      ]

pub replaced_from-NoNul :
    (str with : Bytes)
    → NoNul with
    → (skip : ℕ) (s : Bytes) → NoNul s
    → NoNul (replaced_from str with skip s)
unfolding replaced_from
replaced_from-NoNul str with w skip [] h = tt
replaced_from-NoNul str with w (suc skip) (c ∷ s) (h, hs) = replaced_from-NoNul str with w skip s hs
replaced_from-NoNul str with w zero (c ∷ s) (h, hs) = elim (Bool-cases (starts_with str (c ∷ s))) [
  | inl e ↦
      rw e (All-append (λ c. c ≢ 0) with _ w (replaced_from-NoNul str with w (length str - 1) s hs))
  | inr e ↦ rw e (h, replaced_from-NoNul str with w zero s hs)
]
