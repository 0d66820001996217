-- ===== src/Iconv/Lost.antt =====
-- Of iconv.c.
-- What the loop does not write.
use hassio_installer.Prelude.{
  ℕ, suc, ◌-◌, ◌≤◌, ◌<◌, ◌≡◌, refl, true, some, [], ◌∷◌, append-nil, Bytes, length, drop, done,
  arith, drop-all, take-all, take-nil,
}
use hassio_installer.Iconv.{
  eilseq, einval, Converted, System, State, next, leave, past, unit_of, errno_of, converted,
  unless_stuck, write_and_move, filled, continue, convert, opening,
}

-- A file that fits into the buffer, of which the first call stops at an illegal character, and the
-- second, on the rest behind the unit that is skipped, at an incomplete one at its end.
pub record Broken {S : Type 0} (sys : System S) (from : Bytes) (cd : S) (file : Bytes)
    (behind : Bytes) : Type 0 where
  pub fits : length file ≤ sys.bufsiz
  pub some_read : 0 < length file
  pub illegal : (sys.iconv cd file).err ≡ some eilseq
  pub skipped : past (unit_of sys from 0) (drop (sys.iconv cd file).used file) ≡ some behind
  pub some_left : 0 < length behind
  pub incomplete : (sys.iconv (sys.iconv cd file).cd behind).err ≡ some einval
  pub still_left : 0 < length (drop (sys.iconv (sys.iconv cd file).cd behind).used behind)
  pub writes : sys.fwrite (sys.iconv cd file).out ≡ true

module _ {S : Type 0} (sys : System S) (from : Bytes) where
  stuck_end :
      (st : State S) (s : Bytes) (r : Converted S) (w : Bytes)
      → drop r.used s ≡ w
      → r.err ≡ some einval
      → 0 < length w
      → converted sys from st 0 s r ≡ done (leave (record st { cd = r.cd; errno = some einval }))
  unfolding converted unless_stuck
  stuck_end st s r [] e err h = absurd (omega arith)
  stuck_end st s r (x ∷ w) e err h = rw (err, e)

  abbrev after_first : S → Bytes → Bytes → State S
  after_first cd file behind = record {
    cd = (sys.iconv cd file).cd;
    pending = behind;
    errno = errno_of sys from 0;
    unitsize = unit_of sys from 0;
    out = (sys.iconv cd file).out;
  }

  first_turn :
      (cd : S) (file behind : Bytes)
      → Broken sys from cd file behind
      → filled sys from (opening cd) (length file) file ≡ done (next (after_first cd file behind))
  unfolding filled converted unless_stuck write_and_move unit_of errno_of
  first_turn cd [] behind b = absurd (omega (arith, b.some_read))
  first_turn cd (x ∷ w) behind b = rw (b.illegal, b.skipped, b.writes) (ground arith)

  last_turn :
      (st : State S) (behind : Bytes)
      → 0 < length behind
      → (sys.iconv st.cd behind).err ≡ some einval
      → 0 < length (drop (sys.iconv st.cd behind).used behind)
      → filled sys from st 0 behind
        ≡ done (leave (record st { cd = (sys.iconv st.cd behind).cd; errno = some einval }))
  unfolding filled converted unless_stuck
  last_turn st [] h e left = absurd (omega arith)
  last_turn st (x ∷ w) h e left =
      let r = sys.iconv st.cd (x ∷ w) in stuck_end st (x ∷ w) r (drop r.used (x ∷ w)) refl e left

-- A file as in `Broken` is left with the output of the first call alone: what the second one gave,
-- of the whole characters between the illegal one and the incomplete one, is never written.
pub convert-lost :
    {S : Type 0} (sys : System S) (from : Bytes) (cd : S) (file behind : Bytes) (fuel : ℕ)
    → Broken sys from cd file behind
    → (st : State S) × (convert sys from (suc (suc fuel)) file (opening cd) ≡ done (leave st))
      × (st.out ≡ (sys.iconv cd file).out)
unfolding convert continue
convert-lost sys from cd file behind fuel b =
    let all = take-all file (sys.bufsiz - 0) (omega (arith, b.fits)) in
    let rest = drop-all file (sys.bufsiz - 0) (omega (arith, b.fits)) in
    let st = after_first sys from cd file behind in
    let last = last_turn sys from st behind b.some_left b.incomplete b.still_left in
    (
      record st { cd = (sys.iconv st.cd behind).cd; errno = some einval },
      rw (all, rest, first_turn sys from cd file behind b)
          (rw (take-nil (sys.bufsiz - length behind), append-nil behind) (rw last refl)),
      refl,
    )
