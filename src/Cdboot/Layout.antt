-- ===== src/Cdboot/Layout.antt =====
-- Of mk-s390-cdboot.c.
-- Where the parts of the image lie.
use hassio_installer.Prelude.{
  ℕ, suc, ◌+◌, ◌-◌, ◌<◌, ◌≡◌, refl, ◌∙◌, false, some, [], ◌∷◌, Bytes, length, get_or, arith, done,
  if◌then◌else◌, leb, ltb, ◌&&◌,
}
use hassio_installer.Cdboot.{
  Host, Image, Input, put, copy, seek, copy_at, write_image, object, empty, initrd_start,
  start_psw_address,
}

-- A run of writes puts the bytes behind the position and changes nothing else.
abbrev written : Bytes → Image → ℕ → ℕ
written s im i =
    if leb im.pos i && ltb i (im.pos + length s) then get_or s (i - im.pos) 0 else im.at i

record Copied (s : Bytes) (im im' : Image) : Type 0 where
  at : (i : ℕ) → im'.at i ≡ written s im i
  pos : im'.pos ≡ im.pos + length s

abbrev NoWriteError : Host → Type 0
NoWriteError h = (i : ℕ) → h.write_error i ≡ false

get_or-suc :
    (c : ℕ) (s : Bytes) (i p : ℕ) → p < i → get_or (c ∷ s) (i - p) 0 ≡ get_or s (i - (p + 1)) 0
get_or-suc c s i p h = let e : i - p ≡ suc (i - (p + 1)) = omega arith in rw e

get_or-first : (c : ℕ) (s : Bytes) (i p : ℕ) → i ≡ p → get_or (c ∷ s) (i - p) 0 ≡ c
get_or-first c s i p h = let e : i - p ≡ 0 = omega arith in rw e

put-written :
    (c : ℕ) (s : Bytes) (im : Image) (i : ℕ) → written s (put im c) i ≡ written (c ∷ s) im i
unfolding put
put-written c s im i = ground (arith, get_or-suc c s i im.pos, get_or-first c s i im.pos)

copy-Copied :
    (h : Host)
    → NoWriteError h
    → (s : Bytes) (im : Image) → (im' : Image) × (copy h s im ≡ done im') × Copied s im im'
unfolding copy
copy-Copied h ok [] im = (im, refl, record { at = λ i. ground arith; pos = omega arith })
copy-Copied h ok (c ∷ s) im =
    let (im', e, g) = copy-Copied h ok s (put im c) in
    (
      im',
      rw (ok im.pos, copy) e,
      record { at = λ i. g.at i ∙ put-written c s im i; pos = unfold put in omega (arith, g.pos) },
    )

-- The bytes `s` at offset `p`, over `f`.
abbrev pub placed : ℕ → Bytes → (ℕ → ℕ) → ℕ → ℕ
placed p s f i = if leb p i && ltb i (p + length s) then get_or s (i - p) 0 else f i

-- No write fails, and no seek.
pub record Works (h : Host) : Type 0 where
  pub writes : (i : ℕ) → h.write_error i ≡ false
  pub seeks : (i : ℕ) → h.seek_error i ≡ false

-- The parts in the order in which they are written, the last on top.
abbrev pub layout : Host → Bytes → Bytes → Bytes → ℕ → ℕ → ℕ
layout h kernel ramdisk parmfile n = placed 0x10480 parmfile (
    placed 0x10410 (object h 8 n) (
      placed 0x10408 (object h 8 initrd_start) (
        placed 0x4 (object h 4 start_psw_address)
          (placed initrd_start ramdisk (placed 0 kernel (λ i. 0))))))

module _ (h : Host) (w : Works h) where
  seek-done : (n : ℕ) (im : Image) → seek h n im ≡ done (record im { pos = n })
  unfolding seek
  seek-done n im = rw (w.seeks n)

  -- A seek and the run of writes behind it.
  copy_at-placed :
      (n : ℕ) (s : Bytes) (im : Image) (f : ℕ → ℕ)
      → ((i : ℕ) → im.at i ≡ f i)
      → (im' : Image) × (copy_at h n s im ≡ done im') × ((i : ℕ) → im'.at i ≡ placed n s f i)
  unfolding copy_at
  copy_at-placed n s im f same =
      let (im', e, g) = copy-Copied h w.writes s (record im { pos = n }) in
      (im', rw (seek-done n im) e, λ i. ground (arith, g.at i, same i))

  -- Where the host's writes and seeks work and `ftell` answers `n` for the ramdisk, the image is
  -- made, and holds at every offset what the layout says.
  pub write_image-layout :
      (kernel ramdisk parmfile : Input) (n : ℕ)
      → ramdisk.ftell_end ≡ some n
      → (im : Image) × (write_image h kernel ramdisk parmfile ≡ done im)
        × ((i : ℕ) → im.at i ≡ layout h kernel.bytes ramdisk.bytes parmfile.bytes n i)
  unfolding write_image
  write_image-layout kernel ramdisk parmfile n e =
      let (k, ek, gk) = copy-Copied h w.writes kernel.bytes empty in
      let (r, er, gr) = copy-Copied h w.writes ramdisk.bytes (record k { pos = initrd_start }) in
      let (p, ep, gp) =
        copy_at-placed 0x4 (object h 4 start_psw_address) r
          (placed initrd_start ramdisk.bytes (placed 0 kernel.bytes (λ i. 0)))
          (λ i. ground (arith, gr.at i, gk.at i)) in
      let (s, es, gs) = copy_at-placed 0x10408 (object h 8 initrd_start) p _ gp in
      let (z, ez, gz) = copy_at-placed 0x10410 (object h 8 n) s _ gs in
      let (m, em, gm) = copy_at-placed 0x10480 parmfile.bytes z _ gz in
      (m, rw (ek, w.seeks initrd_start, er, e, ep, es, ez) em, gm)
