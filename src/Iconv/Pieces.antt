-- ===== src/Iconv/Pieces.antt =====
-- Of iconv.c.
-- A file converted in pieces of the buffer, against the conversion of the whole file.
use hassio_installer.Prelude.{
  ℕ, zero, suc, ◌-◌, ◌<◌, ◌≤◌, ◌≡◌, refl, sym, ◌∙◌, ap, subst, true, false, and_false, not, none,
  some, Option, [], ◌∷◌, ◌++◌, append_assoc, append-nil, Bytes, length, take, drop, length-append,
  length-take, length-drop, take-append-drop, take-nil, arith, done, ◌==◌,
}
use hassio_installer.Iconv.{
  Errno, einval, Converted, System, State, next, leave, is_empty, is_eilseq, or_else,
  write_and_move, unless_stuck, converted, filled, continue, convert, opening,
}

-- What is left of the bytes that a call was given.
abbrev pub left_of : {S : Type 0} → Converted S → Bytes → Bytes
left_of r s = drop r.used s

-- A call stops at the end of its bytes, or in front of an incomplete character, with EINVAL.
abbrev pub Stops : Bytes → Option Errno → Type 0
Stops [] e = e ≡ none
Stops (c ∷ s) e = e ≡ some einval

-- What iconv() does with some bytes of a state, the valid ones: none of their characters is
-- illegal, and where they fit the buffer, what they become fits the buffer for the output. `ideal`
-- is the conversion with an output of any size. What the beginning of valid bytes leaves is valid
-- with the rest behind it. The conversion stops in front of an incomplete character alone, which
-- is shorter than the buffer, and gives on bytes that come in two parts what it gives on the first
-- and, behind it, on what is left with the second. Nothing is asked of other bytes.
pub record Converts {S : Type 0} (sys : System S) (Valid : S → Bytes → Type 0)
    (ideal : S → Bytes → Converted S) : Type 0 where
  pub agrees :
      (cd : S) (s : Bytes) → Valid cd s → length s ≤ sys.bufsiz → sys.iconv cd s ≡ ideal cd s
  pub begins : (cd : S) (s t : Bytes) → Valid cd (s ++ t) → Valid cd s
  pub goes_on :
      (cd : S) (s t : Bytes)
      → Valid cd (s ++ t)
      → Valid (ideal cd s).cd (left_of (ideal cd s) s ++ t)
  pub stops : (cd : S) (s : Bytes) → Valid cd s → Stops (left_of (ideal cd s) s) (ideal cd s).err
  pub short : (cd : S) (s : Bytes) → Valid cd s → length (left_of (ideal cd s) s) < sys.bufsiz
  pub joins_out :
      (cd : S) (s t : Bytes)
      → Valid cd (s ++ t)
      → (ideal cd (s ++ t)).out
        ≡ (ideal cd s).out ++ (ideal (ideal cd s).cd (left_of (ideal cd s) s ++ t)).out
  pub joins_cd :
      (cd : S) (s t : Bytes)
      → Valid cd (s ++ t)
      → (ideal cd (s ++ t)).cd ≡ (ideal (ideal cd s).cd (left_of (ideal cd s) s ++ t)).cd
  pub settles :
      (cd : S) (s : Bytes) → Valid cd s → (ideal (ideal cd s).cd (left_of (ideal cd s) s)).used ≡ 0
  pub idle :
      (cd : S) → ((ideal cd []).out ≡ []) × ((ideal cd []).cd ≡ cd) × ((ideal cd []).used ≡ 0)
  pub room : 0 < sys.bufsiz
  pub writes : (s : Bytes) → sys.fwrite s ≡ true

module _ {S : Type 0} (sys : System S) (from : Bytes) (Valid : S → Bytes → Type 0)
    (ideal : S → Bytes → Converted S) (c : Converts sys Valid ideal) where
  not_illegal : (s : Bytes) (e : Option Errno) → Stops s e → is_eilseq e ≡ false
  not_illegal [] e h = rw h
  not_illegal (x ∷ s) e h = rw h

  moved : State S → Converted S → Bytes → State S
  moved st r s = record {
    cd = r.cd;
    pending = left_of r s;
    errno = or_else r.err st.errno;
    unitsize = st.unitsize;
    out = st.out ++ r.out;
  }

  -- What a call leads to in a turn that read some bytes, and in one at the end of the file.
  converted-next :
      (st : State S) (l : ℕ) (s : Bytes) (r : Converted S)
      → 0 < l
      → Stops (left_of r s) r.err
      → converted sys from st l s r ≡ done (next (moved st r s))
  unfolding converted unless_stuck write_and_move moved
  converted-next st l s r pos h =
      let legal = not_illegal (left_of r s) r.err h in
      let some_read : (l == 0) ≡ false = ground arith in
      rw legal (
        rw (some_read, c.writes r.out)
          (rw (and_false (not (is_empty (left_of r s))), and_false (not (is_empty r.out)))))

  converted-leave :
      (st : State S) (s : Bytes) (r : Converted S) (x : ℕ) (w : Bytes)
      → left_of r s ≡ x ∷ w
      → Stops (left_of r s) r.err
      → converted sys from st 0 s r ≡ done (leave (record st { cd = r.cd; errno = some einval }))
  unfolding converted unless_stuck
  converted-leave st s r x w e h =
      let err : r.err ≡ some einval = subst (λ z. Stops z r.err) e h in rw (err, e)

  filled-converted :
      (st : State S) (l : ℕ) (s : Bytes)
      → 0 < length s
      → filled sys from st l s ≡ converted sys from st l s (sys.iconv st.cd s)
  unfolding filled
  filled-converted st l [] h = absurd (omega arith)
  filled-converted st l (x ∷ s) h = refl

  -- What is pending is the beginning of a character, or nothing.
  pub record Quiet (cd : S) (s : Bytes) : Type 0 where
    pub used : (ideal cd s).used ≡ 0
    pub out : (ideal cd s).out ≡ []
    pub same : (ideal cd s).cd ≡ cd
    pub fits : length s < sys.bufsiz

  nil_of_append : (xs ys : Bytes) → xs ≡ xs ++ ys → ys ≡ []
  nil_of_append xs [] e = refl
  nil_of_append xs (y ∷ ys) e = absurd (omega (arith, ap length e, length-append xs (y ∷ ys)))

  left-Quiet : (cd : S) (s : Bytes) → Valid cd s → Quiet (ideal cd s).cd (left_of (ideal cd s) s)
  left-Quiet cd s v =
      let r = ideal cd s in
      let w = left_of r s in
      let v' : Valid cd (s ++ []) = rw (append-nil s) v in
      let out : r.out ≡ r.out ++ (ideal r.cd w).out =
        ap (λ z. (ideal cd z).out) (sym (append-nil s))
        ∙ c.joins_out cd s [] v'
        ∙ ap (λ z. r.out ++ (ideal r.cd z).out) (append-nil w) in
      let same : r.cd ≡ (ideal r.cd w).cd =
        ap (λ z. (ideal cd z).cd) (sym (append-nil s))
        ∙ c.joins_cd cd s [] v'
        ∙ ap (λ z. (ideal r.cd z).cd) (append-nil w) in
      record {
        used = c.settles cd s v;
        out = nil_of_append r.out _ out;
        same = sym same;
        fits = c.short cd s v;
      }

  pub nothing_Quiet : (cd : S) → Quiet cd []
  nothing_Quiet cd =
      let (out, same, used) = c.idle cd in
      record { used = used; out = out; same = same; fits = c.room }

  ends_here :
      (st : State S) (s : Bytes)
      → Valid st.cd s
      → Quiet st.cd s
      → (st' : State S) × (filled sys from st 0 s ≡ done (leave st'))
        × (st'.out ≡ st.out)
        × (st'.cd ≡ (ideal st.cd s).cd)
  unfolding filled
  ends_here st [] v q = (st, refl, refl, sym q.same)
  ends_here st (x ∷ w) v q =
      let r = ideal st.cd (x ∷ w) in
      let call : sys.iconv st.cd (x ∷ w) ≡ r = c.agrees st.cd (x ∷ w) v (omega (arith, q.fits)) in
      let stay : left_of r (x ∷ w) ≡ x ∷ w = rw q.used in
      (
        record st { cd = r.cd; errno = some einval },
        rw call (converted-leave st (x ∷ w) r x w stay (c.stops st.cd (x ∷ w) v)),
        refl,
        refl,
      )

  -- The rest of the file, behind what is pending.
  abbrev pub Whole : ℕ → Bytes → State S → Type 0
  Whole fuel file st =
      (st' : State S) × (convert sys from fuel file st ≡ done (leave st'))
      × (st'.out ≡ st.out ++ (ideal st.cd (st.pending ++ file)).out)
      × (st'.cd ≡ (ideal st.cd (st.pending ++ file)).cd)

  end_of_file :
      (fuel : ℕ) (st : State S)
      → Valid st.cd st.pending
      → Quiet st.cd st.pending
      → Whole (suc fuel) [] st
  unfolding convert continue
  end_of_file fuel st v q =
      let (st', run, out, cd) = ends_here st st.pending v q in
      let p = st.pending in
      let none_new = append-nil st.pending in
      let whole : filled sys from st (length (take {A = ℕ} (sys.bufsiz - length p) []))
            (p ++ take (sys.bufsiz - length p) [])
          ≡ done (leave st') =
        rw (take-nil (sys.bufsiz - length p), none_new) run in
      (st', rw whole, rw (none_new, q.out, append-nil) out, rw none_new cd)

  pub convert-Whole :
      (fuel : ℕ) (file : Bytes) (st : State S)
      → length file < fuel
      → Valid st.cd (st.pending ++ file)
      → Quiet st.cd st.pending
      → Whole fuel file st
  unfolding convert continue moved
  convert-Whole zero file st h v q = absurd (omega arith)
  convert-Whole (suc fuel) [] st h v q = end_of_file fuel st (c.begins st.cd st.pending [] v) q
  convert-Whole (suc fuel) (b ∷ f) st h v q =
      let file = b ∷ f in
      let room = sys.bufsiz - length st.pending in
      let piece = take room file in
      let s = st.pending ++ piece in
      let r = ideal st.cd s in
      let all : s ++ drop room file ≡ st.pending ++ file =
        append_assoc st.pending piece (drop room file)
        ∙ ap (λ z. st.pending ++ z) (take-append-drop room file) in
      let v' : Valid st.cd (s ++ drop room file) = rw all v in
      let vs = c.begins st.cd s (drop room file) v' in
      let sum = length-append st.pending piece in
      let cut = length-take room file in
      let got : 0 < length piece = omega (arith, q.fits, cut) in
      let call : sys.iconv st.cd s ≡ r = c.agrees st.cd s vs (omega (arith, q.fits, cut, sum)) in
      let run =
        filled-converted st (length piece) s (omega (arith, sum))
        ∙ ap (converted sys from st (length piece) s) call
        ∙ converted-next st (length piece) s r got (c.stops st.cd s vs) in
      let (st', rest, out, cd) =
        convert-Whole fuel (drop room file) (moved st r s)
          (omega (arith, q.fits, length-drop room file)) (c.goes_on st.cd s (drop room file) v')
          (left-Quiet st.cd s vs) in
      (
        st',
        rw run rest,
        out
            ∙ append_assoc st.out r.out _
            ∙ ap (λ z. st.out ++ z)
                (sym (c.joins_out st.cd s (drop room file) v') ∙ ap (λ z. (ideal st.cd z).out) all),
        cd ∙ sym (c.joins_cd st.cd s (drop room file) v') ∙ ap (λ z. (ideal st.cd z).cd) all,
      )

-- A valid file of any length, read in pieces of the buffer, is converted as it would be in one
-- call with an output of any size, if writing works: the loop ends within one turn more than the
-- file has bytes, what it writes is what the conversion gives of the whole file, and the
-- conversion is left in the same state. That a file is valid means that none of its characters is
-- illegal, and that what fits the buffer becomes no more than fits the buffer for the output; its
-- last character may be incomplete.
pub convert-whole :
    {S : Type 0} (sys : System S) (Valid : S → Bytes → Type 0) (ideal : S → Bytes → Converted S)
    → (from file : Bytes) (fuel : ℕ) (cd : S) → Converts sys Valid ideal
    → Valid cd file
    → length file < fuel
    → (st : State S) × (convert sys from fuel file (opening cd) ≡ done (leave st))
      × (st.out ≡ (ideal cd file).out)
      × (st.cd ≡ (ideal cd file).cd)
convert-whole sys Valid ideal from file fuel cd c v h =
    convert-Whole sys from Valid ideal c fuel file (opening cd) h v
      (nothing_Quiet sys from Valid ideal c cd)
