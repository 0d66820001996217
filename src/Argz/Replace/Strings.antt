-- ===== src/Argz/Replace/Strings.antt =====
-- Of argz.c.
-- `argz_replace` on the strings of a vector.
use mathlib.Core.List.{map, map-append}
use hassio_installer.Prelude.{
  ℕ, zero, suc, ◌+◌, ◌≤◌, ◌<◌, ◌≡◌, ◌⊎◌, refl, sym, ◌∙◌, ap, subst, true, false, none, some, Option,
  List, [], ◌∷◌, ◌++◌, append_assoc, append-nil, Bytes, length, All, length-append,
  drop-length-append, take-length-append, arith, Outcome, done, ltb, Bool-cases, inl, inr, ◌>>=◌,
  lt→ltb,
}
use hassio_installer.Argz.{
  Alloc, Argz, argz, Errno, ok, enomem, bytes, argz_append, argz_add, argz_next,
}
use hassio_installer.Argz.Vectors.{
  NoNul, packed, packed-append, IsVector, argz_append_lem, argz_add-IsVector,
}
use hassio_installer.Argz.Walk.{around, first_at, argz_next-first, argz_next-next}
use hassio_installer.Argz.Replace.{
  strstr, Progress, progress, counted, catch_up, add_text, with_text, without_match, on_match,
  each_string, unless_error, from_next, replace_from, install, argz_replace,
}
use hassio_installer.Argz.Replace.Rewrite.{
  replaced_from-NoNul, replaced, Refuses, holding, replaced-none, rewrite_string-Made,
}
use hassio_installer.Argz.Replace.Counts.{
  string-NoNul, hits, plus, Word, plus_none, search_count, search_count-Word, plus-search_count,
}

module _ (al : Alloc) (str with : Bytes) (pos : 0 < length str) (w : NoNul with) where
  abbrev news : List Bytes → List Bytes
  news = map (replaced str with)

  -- What `dst` holds when the strings `pre` are done.
  data Shows (pre : List Bytes) : Progress → Type 0 where
    delaying : (c : Option ℕ) → news pre ≡ pre → Shows pre (progress (argz none 0) true c)
    copying :
        (dst : Argz) (c : Option ℕ) → IsVector (news pre) dst → Shows pre (progress dst false c)

  -- A turn ends with the string done, or in want of memory.
  abbrev Turned : List Bytes → Option ℕ → Outcome (Errno × Progress) → Type 0
  Turned pre c o =
      ((p : Progress) × (o ≡ done (ok, p)) × Shows pre p × (p.count ≡ c))
      ⊎ ((p : Progress) × (o ≡ done (enomem, p)) × Refuses al)

  abbrev noted : Option ℕ → Errno × Argz → Outcome (Errno × Progress)
  noted c r = done (r.0, progress r.1 false c)

  added :
      (pre : List Bytes) (s : Bytes) (dst : Argz) (c : Option ℕ)
      → IsVector (news pre) dst
      → Turned (pre ++ s ∷ []) c (argz_add al dst (replaced str with s) >>= noted c)
  added pre s dst c v =
      let t = replaced str with s in
      let (a', run, v') = argz_add-IsVector al (news pre) dst t v in
      let all : news (pre ++ s ∷ []) ≡ news pre ++ t ∷ [] =
        map-append (replaced str with) pre (s ∷ []) in
      elim (Bool-cases (al.grants (dst.len + (length t + 1)))) [
        | inl e ↦
            let run' : argz_add al dst t ≡ done (ok, a') = run ∙ rw e in
            inl (progress a' false c, rw run', copying a' c (rw all v'), refl)
        | inr e ↦
            let run' : argz_add al dst t ≡ done (enomem, dst) = run ∙ rw e in
            inr (progress dst false c, rw run', (dst.len + (length t + 1), e))
      ]

  nothing : IsVector [] (argz none 0)
  nothing = record { len = refl; slack = []; holds = refl }

  -- The strings in front, copied when they have to be.
  abbrev Caught : List Bytes → Argz → Outcome (Errno × Argz) → Type 0
  Caught pre old o =
      ((dst : Argz) × (o ≡ done (ok, dst)) × IsVector (news pre) dst)
      ⊎ ((o ≡ done (enomem, old)) × Refuses al)

  copy_front :
      (front more : Bytes) (c : Option ℕ)
      → ((dst : Argz) × (catch_up al str with
              (front ++ more)
              (length front)
              (progress (argz none 0) true c)
            ≡ done (ok, dst))
          × (dst.len ≡ length front)
          × (bytes dst.block ≡ front))
        ⊎ ((catch_up al str with (front ++ more) (length front) (progress (argz none 0) true c)
              ≡ done (enomem, argz none 0))
            × Refuses al)
  unfolding catch_up
  copy_front [] more c = inl (argz none 0, refl, refl, refl)
  copy_front (x ∷ front) more c =
      let all = x ∷ front in
      let pos' : ltb 0 (length all) ≡ true = lt→ltb _ _ (omega arith) in
      let cut = ap (argz_append al (argz none 0)) (take-length-append all more) in
      let run = argz_append_lem al [] (argz none 0) all nothing in
      elim (Bool-cases (al.grants (0 + length all))) [
        | inl g ↦
            let run' : argz_append al (argz none 0) all
                ≡ done (ok, argz (some all) (0 + length all)) =
              run ∙ rw g in
            inl (argz (some all) (0 + length all), rw pos' (cut ∙ run'), omega arith, refl)
        | inr g ↦
            let run' : argz_append al (argz none 0) all ≡ done (enomem, argz none 0) = run ∙ rw g in
            inr (rw pos' (cut ∙ run'), (0 + length all, g))
      ]

  catch_up-Caught :
      (pre : List Bytes) (more : Bytes) (p : Progress)
      → Shows pre p
      → Caught pre p.dst (catch_up al str with (packed pre ++ more) (length (packed pre)) p)
  unfolding catch_up
  catch_up-Caught pre more _ (delaying c same) = elim (copy_front (packed pre) more c) [
    | inr refused ↦ inr refused
    | inl (dst, run, len, holds) ↦ inl (
      dst,
      run,
      rw same (record { len = len; slack = []; holds = holds ∙ sym (append-nil (packed pre)) }),
    )
  ]
  catch_up-Caught pre more _ (copying dst c v) = inl (dst, refl, v)

  with_text-Turned :
      (pre : List Bytes) (more s : Bytes) (p : Progress)
      → Shows pre p
      → NoNul s
      → Turned (pre ++ s ∷ []) (counted p.count) (
          with_text al str with
            (packed pre ++ more)
            (length (packed pre))
            p
            (some (holding (replaced str with s))))
  unfolding with_text add_text replaced
  with_text-Turned pre more s p shown h =
      let t = replaced str with s in
      let made = string-NoNul t [] (replaced_from-NoNul str with w 0 s h) in
      elim (catch_up-Caught pre more p shown) [
        | inr (run, never) ↦ inr (progress p.dst false (counted p.count), rw run, never)
        | inl (dst, run, v) ↦ rw run (rw made (added pre s dst (counted p.count) v))
      ]

  on_match-Turned :
      (pre : List Bytes) (more s : Bytes) (p : Progress) (o : Option ℕ)
      → Shows pre p
      → NoNul s
      → strstr str s ≡ o
      → Turned
          (pre ++ s ∷ [])
          (search_count o p.count)
          (on_match al str with (packed pre ++ more) (length (packed pre)) p s o)
  unfolding on_match without_match
  on_match-Turned pre more s _ none (delaying c same) h missed =
      let unchanged : news (pre ++ s ∷ []) ≡ pre ++ s ∷ [] =
        map-append (replaced str with) pre (s ∷ [])
        ∙ rw (same, replaced-none str with pos s missed) in
      inl (progress (argz none 0) true c, refl, delaying c unchanged, refl)
  on_match-Turned pre more s _ none (copying dst c v) h missed =
      subst (λ t. Turned (pre ++ s ∷ []) c (argz_add al dst t >>= noted c))
        (replaced-none str with pos s missed) (added pre s dst c v)
  on_match-Turned pre more s p (some k) shown h found =
      elim (rewrite_string-Made al str with pos s k found) [
        | inr (run, never) ↦ inr (progress p.dst p.delayed (counted p.count), rw run, never)
        | inl run ↦ rw run (with_text-Turned pre more s p shown h)
      ]

  each_string-Turned :
      (pre post : List Bytes) (s : Bytes) (a : Argz) (p : Progress)
      → IsVector (pre ++ s ∷ post) a
      → NoNul s
      → Shows pre p
      → Turned
          (pre ++ s ∷ [])
          (search_count (strstr str s) p.count)
          (each_string al str with (bytes a.block) (length (packed pre)) p)
  unfolding each_string
  each_string-Turned pre post s a p v h shown =
      let behind = packed post ++ v.slack in
      let read = string-NoNul s behind h in
      rw (around pre post s a v, drop-length-append (packed pre) (s ++ 0 ∷ behind), read)
        (on_match-Turned pre (s ++ 0 ∷ behind) s p (strstr str s) shown h refl)

  replace_from-Turned :
      (post pre : List Bytes) (fuel : ℕ) (p : Progress) (a : Argz) (arg : Option ℕ)
      → IsVector (pre ++ post) a
      → All NoNul post
      → length post < fuel
      → Shows pre p
      → Word p.count
      → argz_next (bytes a.block) a.len arg ≡ done (first_at post (length (packed pre)))
      → Turned
          (pre ++ post)
          (plus p.count (hits str post))
          (replace_from al str with fuel (bytes a.block) a.len p arg)
  unfolding replace_from from_next unless_error
  replace_from-Turned post pre zero p a arg v h lt shown wd next = absurd (omega arith)
  replace_from-Turned [] pre (suc fuel) p a arg v h lt shown wd next =
      rw next (rw append-nil (inl (p, refl, shown, sym (plus_none p.count wd))))
  replace_from-Turned (s ∷ post) pre (suc fuel) p a arg v (h, hs) lt shown wd next =
      let here = length (packed pre) in
      elim (each_string-Turned pre post s a p v h shown) [
        | inr (p', run, never) ↦ rw next (rw run (inr (p', refl, never)))
        | inl (p', run, shown', count) ↦
            let moved : here + length s + 1 ≡ length (packed (pre ++ s ∷ [])) = omega (
              arith,
              ap length (packed-append pre (s ∷ [])),
              length-append (packed pre) (packed (s ∷ [])),
              length-append s (0 ∷ []),
            ) in
            let all : (pre ++ s ∷ []) ++ post ≡ pre ++ s ∷ post = append_assoc pre (s ∷ []) post in
            let sum : plus p'.count (hits str post) ≡ plus p.count (hits str (s ∷ post)) =
              ap (λ c. plus c (hits str post)) count
              ∙ plus-search_count (strstr str s) p.count (hits str post) in
            rw next (
              rw run (
                rw (← all, ← sum)
                  (replace_from-Turned post (pre ++ s ∷ []) fuel p' a (some here) (rw all v) hs
                    (omega arith) shown' (rw count (search_count-Word (strstr str s) p.count wd))
                    (rw (← moved) (argz_next-next pre post s a v h)))))
      ]

  install-IsVector :
      (ss : List Bytes) (a : Argz) (p : Progress)
      → IsVector ss a
      → Shows ss p
      → (a' : Argz) × (install al str with a (ok, p) ≡ (ok, a', p.count)) × IsVector (news ss) a'
  unfolding install
  install-IsVector ss a _ v (delaying c same) = (a, refl, rw same v)
  install-IsVector ss a _ v (copying dst c v') = (dst, refl, v')

pub length-le-packed : (ss : List Bytes) → length ss ≤ length (packed ss)
length-le-packed [] = omega arith
length-le-packed (s ∷ ss) = omega (arith, length-le-packed ss, length-append s (0 ∷ packed ss))

-- On a vector of strings without '\0', for a string `str` that is not empty and a `with` without
-- '\0', `argz_replace` returns 0 with the vector of the same strings in which each occurrence of
-- `str`, from the left and without overlap, is `with`, and the count, if it is asked for and below
-- 2^32, grows modulo 2^32 by the number of strings in which there is one. Otherwise the allocator
-- refuses some request, ENOMEM is returned and the vector is left as it was.
pub argz_replace-replaced :
    (al : Alloc) (ss : List Bytes) (a : Argz) (c : ℕ) (str with : Bytes) (count : Option ℕ)
    → IsVector ss a
    → All NoNul ss
    → NoNul with
    → Word count
    → ((a' : Argz) × (argz_replace al a (some (c ∷ str)) with count
          ≡ done (ok, a', plus count (hits (c ∷ str) ss)))
        × IsVector (map (replaced (c ∷ str) with) ss) a')
      ⊎ ((count' : Option ℕ) × (argz_replace al a (some (c ∷ str)) with count
            ≡ done (enomem, a, count'))
          × Refuses al)
unfolding argz_replace
argz_replace-replaced al ss a c str with count v h w wd =
    let start = progress (argz none 0) true count in
    elim (replace_from-Turned al (c ∷ str) with (omega arith) w ss [] (a.len + 1) start a none v h
      (omega (arith, v.len, length-le-packed ss)) (delaying count refl) wd
      (argz_next-first ss a v)) [
        | inr (p, run, never) ↦ inr (p.count, rw run refl, never)
        | inl (p, run, shown, total) ↦
            let (a', put, v') = install-IsVector al (c ∷ str) with (omega arith) w ss a p v shown in
            inl (a', rw run (rw put (rw total)), v')
      ]
