-- ===== src/Argz/Client/Changes.antt =====
-- Of argz.c.
-- One change of a vector, against the same change of a list of strings.
use mathlib.Core.List.{map}
use hassio_installer.Prelude.{
  ℕ, zero, suc, ◌+◌, ◌≡◌, ◌≢◌, ◌⊎◌, inl, inr, refl, sym, ◌∙◌, ap, subst, Bool-cases, if_yes, if_no,
  Option, none, List, [], ◌∷◌, append-nil, Bytes, length, drop, take, All, All-append, arith,
  Outcome, done, ◌>>=◌,
}
use hassio_installer.Argz.{Errno, ok, enomem, Alloc, Argz, argz, argz_insert, argz_delete}
use hassio_installer.Argz.Sep.{argz_add_sep}
use hassio_installer.Argz.Vectors.{NoNul, packed, IsVector, argz_add-IsVector}
use hassio_installer.Argz.Walk.{Fits}
use hassio_installer.Argz.Edit.{argz_delete-IsVector}
use hassio_installer.Argz.Insert.{argz_insert-IsVector}
use hassio_installer.Argz.Sep.Fields.{kept}
use hassio_installer.Argz.Sep.Joined.{pieces-NoNul}
use hassio_installer.Argz.Sep.Split.{fields, argz_add_sep-fields}
use hassio_installer.Argz.Replace.Rewrite.{replaced, replaced_from-NoNul, Refuses}
use hassio_installer.Argz.Replace.Strings.{argz_replace-replaced}
use hassio_installer.Argz.Client.{
  entry, Op, add, insert, delete, add_sep, replace, perform, run, apply,
}
use hassio_installer.Argz.Client.Entries.{place, entry-place, beyond, at, find}

-- Strings are C strings, and a delimiter is no '\0'.
abbrev pub Legal : Op → Type 0
Legal (add s) = NoNul s
Legal (insert k s) = NoNul s
Legal (delete k) = Unit
Legal (add_sep s delim) = NoNul s × (delim ≢ 0) × Fits (length s + 1)
Legal (replace c str with) = NoNul with

-- Without memory a vector stays as it was, but for `argz_add_sep`, which loses it.
abbrev pub Kept : Op → List Bytes → Argz → Type 0
Kept (add_sep s delim) ss a = a.block ≡ none
Kept op ss a = IsVector ss a

-- What a change comes to.
abbrev pub Performed : Alloc → Op → List Bytes → Outcome (Errno × Argz) → Type 0
Performed al op ss o =
    ((a' : Argz) × (o ≡ done (ok, a')) × IsVector (apply op ss) a')
    ⊎ ((a' : Argz) × (o ≡ done (enomem, a')) × Kept op ss a' × Refuses al)

kept-NoNul : (ps : List Bytes) → All NoNul ps → All NoNul (kept ps)
kept-NoNul [] h = tt
kept-NoNul (p ∷ []) h = h
kept-NoNul ([] ∷ q ∷ ps) (h, hs) = kept-NoNul (q ∷ ps) hs
kept-NoNul ((c ∷ p) ∷ q ∷ ps) (h, hs) = (h, kept-NoNul (q ∷ ps) hs)

fields-NoNul : (delim : ℕ) (s : Bytes) → NoNul s → All NoNul (fields delim s)
unfolding fields
fields-NoNul delim [] h = tt
fields-NoNul delim (c ∷ s) h = kept-NoNul _ (pieces-NoNul delim (c ∷ s) h)

replaced-NoNul :
    (str with : Bytes) (ss : List Bytes)
    → NoNul with
    → All NoNul ss
    → All NoNul (map (replaced str with) ss)
unfolding replaced
replaced-NoNul str with [] w h = tt
replaced-NoNul str with (s ∷ ss) w (h, hs) =
    (replaced_from-NoNul str with w 0 s h, replaced-NoNul str with ss w hs)

take-NoNul : (k : ℕ) (ss : List Bytes) → All NoNul ss → All NoNul (take k ss)
take-NoNul zero ss h = tt
take-NoNul (suc k) [] h = tt
take-NoNul (suc k) (s ∷ ss) (h, hs) = (h, take-NoNul k ss hs)

drop-NoNul : (k : ℕ) (ss : List Bytes) → All NoNul ss → All NoNul (drop k ss)
drop-NoNul zero ss h = h
drop-NoNul (suc k) [] h = tt
drop-NoNul (suc k) (s ∷ ss) (h, hs) = drop-NoNul k ss hs

pub apply-NoNul : (op : Op) (ss : List Bytes) → Legal op → All NoNul ss → All NoNul (apply op ss)
unfolding apply
apply-NoNul (add s) ss l h = All-append NoNul ss (s ∷ []) h (l, tt)
apply-NoNul (insert k s) ss l h =
    All-append NoNul (take k ss) (s ∷ drop k ss) (take-NoNul k ss h) (l, drop-NoNul k ss h)
apply-NoNul (delete k) ss l h =
    All-append NoNul (take k ss) (drop (suc k) ss) (take-NoNul k ss h) (drop-NoNul (suc k) ss h)
apply-NoNul (add_sep s delim) ss l h =
    All-append NoNul ss (fields delim s) h (fields-NoNul delim s l.0)
apply-NoNul (replace c str with) ss l h = replaced-NoNul (c ∷ str) with ss l h

module _ (al : Alloc) (ss : List Bytes) (a : Argz) (v : IsVector ss a) (h : All NoNul ss)
    (fits : Fits (length (packed ss))) where
  perform_add : (s : Bytes) → Performed al (add s) ss (perform al (add s) a)
  unfolding perform apply
  perform_add s =
      let (a', e, v') = argz_add-IsVector al ss a s v in
      elim (Bool-cases (al.grants (a.len + (length s + 1)))) [
        | inl g ↦ inl (a', rw g at e, v')
        | inr g ↦ inr (a, rw g at e, v, (a.len + (length s + 1), g))
      ]

  -- At an entry, when it is known what follows from its address.
  at_entry :
      (k : ℕ) (op : Op) (go : Option ℕ → Outcome (Errno × Argz))
      → Performed al op ss (go (place [] ss k))
      → Performed al op ss (entry a k >>= go)
  at_entry k op go = subst (λ o. Performed al op ss (o >>= go)) (sym (entry-place k ss a v h))

  perform_insert : (k : ℕ) (s : Bytes) → Performed al (insert k s) ss (perform al (insert k s) a)
  unfolding perform apply argz_insert
  perform_insert k s =
      at_entry k (insert k s) (λ p. argz_insert al a p s)
        (elim (find k ss) [
          | beyond d d' t ↦ rw (d, t) (perform_add s)
          | at u post d d' e ↦
              let here = subst (λ z. IsVector z a) e v in
              let (a', run, v') = argz_insert-IsVector al (take k ss) post u s a here in
              elim (Bool-cases (al.grants (a.len + (length s + 1)))) [
                | inl g ↦ inl (a', rw d (run ∙ ap done (if_yes _ (ok, a') (enomem, a) g)), rw d v')
                | inr g ↦ inr (
                  a,
                  rw d (run ∙ ap done (if_no _ (ok, a') (enomem, a) g)),
                  v,
                  (a.len + (length s + 1), g),
                )
              ]
        ])

  perform_delete : (k : ℕ) → Performed al (delete k) ss (perform al (delete k) a)
  unfolding perform apply argz_delete
  perform_delete k =
      at_entry k (delete k) (λ p. argz_delete a p >>= λ a'. done (ok, a'))
        (elim (find k ss) [
          | beyond d d' t ↦ inl (a, rw d refl, rw (d', t, append-nil) v)
          | at u post d d' e ↦
              let here = subst (λ z. IsVector z a) e v in
              let hu = (subst (All NoNul) d (drop-NoNul k ss h)).0 in
              let (a', run, v', freed) =
                argz_delete-IsVector (take k ss) post u a here hu (omega (arith, v.len)) in
              inl (a', rw d (rw run refl), rw d' v')
        ])

  perform_add_sep :
      (s : Bytes) (delim : ℕ)
      → Legal (add_sep s delim)
      → Performed al (add_sep s delim) ss (perform al (add_sep s delim) a)
  unfolding perform apply argz_add_sep fields
  perform_add_sep [] delim l = inl (a, refl, rw append-nil v)
  perform_add_sep (c ∷ s) delim (hs, nz, short) =
      let (a', e, v') = argz_add_sep-fields al ss a delim (c ∷ s) v nz hs short in
      elim (Bool-cases (al.grants (a.len + (length (c ∷ s) + 1)))) [
        | inl g ↦ inl (a', e ∙ if_yes _ (done (ok, a')) (done (enomem, argz none a.len)) g, v')
        | inr g ↦ inr (
          argz none a.len,
          e ∙ if_no _ (done (ok, a')) (done (enomem, argz none a.len)) g,
          refl,
          (a.len + (length (c ∷ s) + 1), g),
        )
      ]

  perform_replace :
      (c : ℕ) (str with : Bytes)
      → NoNul with
      → Performed al (replace c str with) ss (perform al (replace c str with) a)
  unfolding perform apply
  perform_replace c str with w = elim (argz_replace-replaced al ss a c str with none v h w tt) [
    | inl (a', e, v') ↦ inl (a', rw e refl, v')
    | inr (count, e, never) ↦ inr (a, rw e refl, v, never)
  ]

  pub perform-Performed : (op : Op) → Legal op → Performed al op ss (perform al op a)
  perform-Performed (add s) l = perform_add s
  perform-Performed (insert k s) l = perform_insert k s
  perform-Performed (delete k) l = perform_delete k
  perform-Performed (add_sep s delim) l = perform_add_sep s delim l
  perform-Performed (replace c str with) l = perform_replace c str with l
