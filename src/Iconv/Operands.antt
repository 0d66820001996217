-- ===== src/Iconv/Operands.antt =====
-- Of iconv.c.
-- All the operands of a run.
use hassio_installer.Prelude.{
  ℕ, ◌<◌, ◌≡◌, refl, ◌∙◌, ap, Bool, true, false, Option, none, some, List, [], ◌∷◌, ◌++◌,
  append_assoc, append-nil, Bytes, length, Outcome, done, if◌then◌else◌, arith, Bool-cases, inl,
  inr,
}
use hassio_installer.Iconv.{
  Converted, File, Run, System, State, ran, is_stdin, read_once, opened, file_done, each_file,
  files, Flag, parse, sets, set_or, names_of, opening, with_charsets, main,
}
use hassio_installer.Iconv.Pieces.{Converts, convert-Whole, nothing_Quiet}

-- The files of the operands, where there are any; stdin is given once.
unfoldable pub given : {S : Type 0} → System S → File → List Bytes → List (Option File)
given sys input [] = []
given sys input (name ∷ names) =
    (if is_stdin name then some input else sys.fopen name) ∷ given sys (read_once input name) names

-- What the conversions of the whole files give, from one file's to the next.
unfoldable pub conversions :
    {S : Type 0} → (S → Bytes → Converted S) → S → List (Option File) → Bytes
conversions ideal cd [] = []
conversions ideal cd (none ∷ fs) = conversions ideal cd fs
conversions ideal cd (some f ∷ fs) = let r = ideal cd f.bytes in r.out ++ conversions ideal r.cd fs

-- An operand is missing, or its reading ended in an error.
unfoldable pub goes_wrong : List (Option File) → Bool
goes_wrong [] = false
goes_wrong (none ∷ fs) = true
goes_wrong (some f ∷ fs) = if f.error then true else goes_wrong fs

-- Each file is valid where the conversion of the one before it leaves off, and has fewer bytes than
-- the fuel.
abbrev pub Convertible :
    {S : Type 0}
    → (S → Bytes → Type 0)
    → (S → Bytes → Converted S)
    → ℕ
    → S
    → List (Option File)
    → Type 0
Convertible Valid ideal fuel cd [] = Unit
Convertible Valid ideal fuel cd (none ∷ fs) = Convertible Valid ideal fuel cd fs
Convertible Valid ideal fuel cd (some f ∷ fs) =
    Valid cd f.bytes
    × (length f.bytes < fuel)
    × Convertible Valid ideal fuel (ideal cd f.bytes).cd fs

abbrev pub status : ℕ → List (Option File) → ℕ
status err fs = if goes_wrong fs then 1 else err

status_one : (fs : List (Option File)) → status 1 fs ≡ 1
status_one fs = ground arith

status_next :
    (f : File) (fs : List (Option File)) (err : ℕ)
    → status (if f.error then 1 else err) fs ≡ status err (some f ∷ fs)
unfolding goes_wrong
status_next f fs err = elim (Bool-cases f.error) [ inl e ↦ rw e (status_one fs) | inr e ↦ rw e ]

module _ {S : Type 0} (sys : System S) (from : Bytes) (Valid : S → Bytes → Type 0)
    (ideal : S → Bytes → Converted S) (c : Converts sys Valid ideal) (fuel : ℕ) where
  -- What the rest of a run does with the operands that are left.
  abbrev Goes : (ℕ → State S → Outcome Run) → S → List (Option File) → Type 0
  Goes again cd fs =
      (err : ℕ) (st : State S)
      → st.cd ≡ cd
      → again err st ≡ done (ran (st.out ++ conversions ideal cd fs) (status err fs))

  each_file-Goes :
      (again : ℕ → State S → Outcome Run) (fs : List (Option File)) (cd : S) (o : Option File)
      → Convertible Valid ideal fuel cd (o ∷ fs)
      → ((cd' : S) → Convertible Valid ideal fuel cd' fs → Goes again cd' fs)
      → Goes (λ err st. each_file sys from fuel again err st o) cd (o ∷ fs)
  unfolding each_file file_done conversions goes_wrong
  each_file-Goes again fs cd none h g err st e = rw (g cd h 1 st e, status_one fs)
  each_file-Goes again fs cd (some f) (v, h, hs) g err st e =
      let v' : Valid st.cd f.bytes = rw e v in
      let (st', run, out, left) =
        convert-Whole sys from Valid ideal c fuel f.bytes (record st { pending = [] }) h v'
          (nothing_Quiet sys from Valid ideal c st.cd) in
      let same : st'.cd ≡ (ideal cd f.bytes).cd = left ∙ ap (λ z. (ideal z f.bytes).cd) e in
      rw run (
        rw
          (
            g (ideal cd f.bytes).cd hs (if f.error then 1 else err) st' same,
            status_next f fs err,
            out,
            e,
          )
          (ap (λ z. done (ran z (status err (some f ∷ fs)))) (append_assoc st.out _ _)))

  files-Goes :
      (names : List Bytes) (input : File) (cd : S)
      → Convertible Valid ideal fuel cd (given sys input names)
      → Goes (files sys from fuel input names) cd (given sys input names)
  unfolding files given conversions goes_wrong opened
  files-Goes [] input cd h err st e = rw (append-nil st.out)
  files-Goes (name ∷ names) input cd h err st e =
      each_file-Goes (files sys from fuel (read_once input name) names)
        (given sys (read_once input name) names) cd _ h
        (λ cd' hs. files-Goes names (read_once input name) cd' hs) err st e

-- With a conversion as in `Converts`, valid files, and fuel for them, a run whose flags ask for a
-- conversion and that finds both character sets ends: it writes what the conversions of the whole
-- files give, from one operand to the next, and its status is 1 exactly if an operand is missing or
-- fails to be read. A file whose last character is incomplete is no reason for 1.
pub main-conversions :
    {S : Type 0} (sys : System S) (Valid : S → Bytes → Type 0) (ideal : S → Bytes → Converted S)
    → (fuel : ℕ) (flags : List Flag) (names : List Bytes) (from to : Option Bytes) (cd : S)
    → Converts sys Valid ideal
    → parse flags none none ≡ sets from to
    → sys.iconv_open (set_or to sys.codeset) (set_or from sys.codeset) ≡ some cd
    → Convertible Valid ideal fuel cd (given sys sys.stdin (names_of names))
    → main sys fuel flags names
      ≡ done (
          ran
            (conversions ideal cd (given sys sys.stdin (names_of names)))
            (if goes_wrong (given sys sys.stdin (names_of names)) then 1 else 0))
unfolding main with_charsets
main-conversions sys Valid ideal fuel flags names from to cd c parsed works h =
    rw (parsed, main)
      (rw (works, with_charsets)
        (files-Goes sys (set_or from sys.codeset) Valid ideal c fuel (names_of names) sys.stdin cd h
          0 (opening cd) refl))
