-- ===== src/Cdboot/Parts.antt =====
-- Of mk-s390-cdboot.c.
-- What stands in the image, if the parts do not overlap.
use hassio_installer.Prelude.{
  ℕ, zero, suc, ◌+◌, ◌-◌, ◌*◌, ◌^◌, ◌≤◌, ◌<◌, ◌≡◌, refl, ◌∙◌, Bool, some, [], ◌∷◌, Bytes, length,
  get_or, arith, done, if◌then◌else◌, ap, ap₂, ◌⊎◌,
}
use hassio_installer.Cdboot.{
  Host, Image, Input, write_image, object, big_end, little_end, initrd_start, start_psw_address,
}
use hassio_installer.Cdboot.Layout.{placed, Works, write_image-layout}

-- The number that bytes in memory stand for.
abbrev pub from_big : Bytes → ℕ → ℕ
from_big [] n = n
from_big (b ∷ s) n = from_big s (n * 256 + b)

abbrev pub from_little : Bytes → ℕ
from_little [] = 0
from_little (b ∷ s) = b + 256 * from_little s

abbrev pub number : Bool → Bytes → ℕ
number big s = if big then from_big s 0 else from_little s

abbrev pub bytes_at : (ℕ → ℕ) → ℕ → ℕ → Bytes
bytes_at f p zero = []
bytes_at f p (suc w) = f p ∷ bytes_at f (p + 1) w

number-object_eight : (h : Host) (n : ℕ) → n < 2 ^ 64 → number h.big_endian (object h 8 n) ≡ n
unfolding big_end little_end
number-object_eight h n lt = ground arith

length-object_eight : (h : Host) (n : ℕ) → length (object h 8 n) ≡ 8
unfolding big_end little_end
length-object_eight h n = ground arith

psw_bytes :
    (h : Host)
    → (length (object h 4 start_psw_address) ≡ 4)
      × (number h.big_endian (object h 4 start_psw_address) ≡ start_psw_address)
unfolding big_end little_end
psw_bytes h = ground arith

bytes_at-eq :
    (s : Bytes) (w : ℕ) (f : ℕ → ℕ) (p : ℕ)
    → length s ≡ w
    → ((j : ℕ) → j < length s → f (p + j) ≡ get_or s j 0)
    → bytes_at f p w ≡ s
bytes_at-eq [] zero f p n h = refl
bytes_at-eq [] (suc w) f p n h = absurd (omega arith)
bytes_at-eq (c ∷ s) zero f p n h = absurd (omega arith)
bytes_at-eq (c ∷ s) (suc w) f p n h = ap₂ ◌∷◌ (ground (arith, h 0)) (
    bytes_at-eq s w f (p + 1) (omega arith)
      (λ j lt. let e : p + 1 + j ≡ p + suc j = omega arith in rw e (h (suc j) (omega arith))))

placed_at :
    (p : ℕ) (s : Bytes) (f : ℕ → ℕ) (j : ℕ) → j < length s → placed p s f (p + j) ≡ get_or s j 0
placed_at p s f j h = let e : p + j - p ≡ j = omega arith in rw e (ground arith)

placed_below : (p : ℕ) (s : Bytes) (f : ℕ → ℕ) (i : ℕ) → i < p → placed p s f i ≡ f i
placed_below p s f i h = ground arith

placed_above : (p : ℕ) (s : Bytes) (f : ℕ → ℕ) (i : ℕ) → p + length s ≤ i → placed p s f i ≡ f i
placed_above p s f i h = ground arith

-- An offset of the kernel where nothing is patched.
abbrev pub Unpatched : Bytes → ℕ → Type 0
Unpatched parmfile i =
    (i < 0x4)
    ⊎ ((0x8 ≤ i) × (i < 0x10408))
    ⊎ ((0x10418 ≤ i) × (i < 0x10480))
    ⊎ (0x10480 + length parmfile ≤ i)

-- The kernel ends where the ramdisk begins at the latest, and reaches to the place of the parmfile,
-- which ends there too.
abbrev pub Room : Bytes → Bytes → Type 0
Room kernel parmfile =
    (0x10480 ≤ length kernel)
    × (length kernel ≤ initrd_start)
    × (0x10480 + length parmfile ≤ initrd_start)

-- The eight bytes at 0x10408 and at 0x10410 are the ramdisk's address and size; the ramdisk, the
-- parmfile and the start address are whole and in their places; every other byte of the kernel is
-- as it was.
pub record Packs (h : Host) (kernel ramdisk parmfile : Bytes) (im : Image) : Type 0 where
  pub start : number h.big_endian (bytes_at im.at 0x10408 8) ≡ initrd_start
  pub size : number h.big_endian (bytes_at im.at 0x10410 8) ≡ length ramdisk
  pub psw : number h.big_endian (bytes_at im.at 0x4 4) ≡ start_psw_address
  pub ramdisk_at : (j : ℕ) → j < length ramdisk → im.at (initrd_start + j) ≡ get_or ramdisk j 0
  pub parmfile_at : (j : ℕ) → j < length parmfile → im.at (0x10480 + j) ≡ get_or parmfile j 0
  pub kernel_at : (i : ℕ) → i < length kernel → Unpatched parmfile i → im.at i ≡ get_or kernel i 0

-- The layout over any three objects of these lengths, read back part by part.
module _ (psw start size k r p : Bytes) (four : length psw ≡ 4) (eight : length start ≡ 8)
    (eight' : length size ≡ 8) (room : Room k p) where
  abbrev over_kernel : ℕ → ℕ
  over_kernel = placed 0x4 psw (placed initrd_start r (placed 0 k (λ i. 0)))

  abbrev parts : ℕ → ℕ
  parts = placed 0x10480 p (placed 0x10410 size (placed 0x10408 start over_kernel))

  parts_start : (j : ℕ) → j < length start → parts (0x10408 + j) ≡ get_or start j 0
  parts_start j lt = ground (arith, placed_at 0x10408 start over_kernel j lt)

  parts_size : (j : ℕ) → j < length size → parts (0x10410 + j) ≡ get_or size j 0
  parts_size j lt = ground (arith, placed_at 0x10410 size (placed 0x10408 start over_kernel) j lt)

  parts_psw : (j : ℕ) → j < length psw → parts (0x4 + j) ≡ get_or psw j 0
  parts_psw j lt =
      ground (arith, placed_at 0x4 psw (placed initrd_start r (placed 0 k (λ i. 0))) j lt)

  parts_ramdisk : (j : ℕ) → j < length r → parts (initrd_start + j) ≡ get_or r j 0
  parts_ramdisk j lt =
      let (low, high, short) = room in
      ground (arith, placed_at initrd_start r (placed 0 k (λ i. 0)) j lt)

  parts_parmfile : (j : ℕ) → j < length p → parts (0x10480 + j) ≡ get_or p j 0
  parts_parmfile j lt =
      placed_at 0x10480 p (placed 0x10410 size (placed 0x10408 start over_kernel)) j lt

  parts_kernel : (i : ℕ) → i < length k → Unpatched p i → parts i ≡ get_or k i 0
  parts_kernel i lt place = let (low, high, short) = room in ground arith

-- If the ramdisk's size is what `ftell` answers, and no part reaches into another, the program
-- makes an image of these parts, on a host of either byte order whose writes and seeks work.
pub write_image-Packs :
    (h : Host) (kernel ramdisk parmfile : Input)
    → Works h
    → ramdisk.ftell_end ≡ some (length ramdisk.bytes)
    → length ramdisk.bytes < 2 ^ 64
    → Room kernel.bytes parmfile.bytes
    → (im : Image) × (write_image h kernel ramdisk parmfile ≡ done im)
      × Packs h kernel.bytes ramdisk.bytes parmfile.bytes im
write_image-Packs h kernel ramdisk parmfile w told fits room =
    let (im, e, same) = write_image-layout h w kernel ramdisk parmfile _ told in
    let n = length ramdisk.bytes in
    let four = psw_bytes h in
    let begins = length-object_eight h initrd_start in
    let sized = length-object_eight h n in
    let k = kernel.bytes in
    let r = ramdisk.bytes in
    let p = parmfile.bytes in
    let psw = object h 4 start_psw_address in
    let start = object h 8 initrd_start in
    let size = object h 8 n in
    (
      im,
      e,
      record {
        start =
            ap (number h.big_endian) (
              bytes_at-eq start 8 im.at 0x10408 begins
                (λ j lt. same _ ∙ parts_start psw start size k r p four.0 begins sized room j lt))
            ∙ number-object_eight h initrd_start (omega arith);
        size =
            ap (number h.big_endian) (
              bytes_at-eq size 8 im.at 0x10410 sized
                (λ j lt. same _ ∙ parts_size psw start size k r p four.0 begins sized room j lt))
            ∙ number-object_eight h n fits;
        psw =
            ap (number h.big_endian) (
              bytes_at-eq psw 4 im.at 0x4 four.0
                (λ j lt. same _ ∙ parts_psw psw start size k r p four.0 begins sized room j lt))
            ∙ four.1;
        ramdisk_at =
            λ j lt. same _ ∙ parts_ramdisk psw start size k r p four.0 begins sized room j lt;
        parmfile_at =
            λ j lt. same _ ∙ parts_parmfile psw start size k r p four.0 begins sized room j lt;
        kernel_at = λ i lt only.
            same _ ∙ parts_kernel psw start size k r p four.0 begins sized room i lt only;
      },
    )
