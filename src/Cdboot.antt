-- ===== src/Cdboot.antt =====
-- vols/build/aports/main/s390-tools/mk-s390-cdboot.c: one image of a kernel, a ramdisk and a
-- parmfile. A file that is read is the bytes that `fread` delivers before it returns 0, at the end
-- of the file or at a read error alike, with the answer of `ftell` at its end. The image is a
-- function from offsets; where nothing was written it holds 0. `abort()` after a message is
-- `aborted`, and the exit with the text of `usage`, whose status is 0, is `none`. A name that is
-- printed though strdup() had no memory for it is NULL, which is a fault.
pub mod Layout
pub mod Parts
pub mod Flags
pub mod Program
use hassio_installer.Prelude.{
  ℕ, zero, suc, ◌+◌, ◌/◌, ◌%◌, ◌^◌, Bool, true, false, ◌&&◌, Option, none, some, List, [], ◌∷◌,
  Bytes, ◌==◌, if◌then◌else◌, Outcome, done, fault, aborted, ◌>>=◌,
}
use Prim.Native.Nat.{max}

abbrev pub initrd_start : ℕ
initrd_start = 0x800000

abbrev pub start_psw_address : ℕ
start_psw_address = 0x80010000

pub record Input : Type 0 where
  pub bytes : Bytes
  pub ftell_end : Option ℕ

-- The host: its byte order, the offsets at which a write or a seek fails, and its files. A file
-- that is read is the one of the second name, as it is once the first name has been opened for
-- writing.
pub record Host : Type 0 where
  pub big_endian : Bool
  pub write_error : ℕ → Bool
  pub seek_error : ℕ → Bool
  pub fopen_read : Bytes → Bytes → Option Input
  pub fopen_write : Bytes → Bool

pub record Image : Type 0 where
  pub at : ℕ → ℕ
  pub size : ℕ
  pub pos : ℕ

abbrev pub empty : Image
empty = record { at = λ i. 0; size = 0; pos = 0 }

-- The bytes of an object of `w` bytes in memory.
unfoldable pub big_end : ℕ → ℕ → Bytes
big_end zero n = []
big_end (suc w) n = n / 256 ^ w % 256 ∷ big_end w n

unfoldable pub little_end : ℕ → ℕ → Bytes
little_end zero n = []
little_end (suc w) n = n % 256 ∷ little_end w (n / 256)

abbrev pub object : Host → ℕ → ℕ → Bytes
object h w n = if h.big_endian then big_end w n else little_end w n

unfoldable pub put : Image → ℕ → Image
put im c = record {
  at = λ i. if i == im.pos then c else im.at i;
  size = max im.size (im.pos + 1);
  pos = im.pos + 1;
}

module _ (h : Host) where
  -- `fwrite` of each byte, with the test of `ferror` behind it.
  unfoldable pub copy : Bytes → Image → Outcome Image
  unfolding put
  copy [] im = done im
  copy (c ∷ s) im = elim (h.write_error im.pos) [ true ↦ aborted | false ↦ copy s (put im c) ]

  -- `if (fseek(…) == -1) abort()`
  unfoldable pub seek : ℕ → Image → Outcome Image
  seek n im = if h.seek_error n then aborted else done (record im { pos = n })

  -- The first seek is not tested: where it fails the position stays.
  unfoldable pub seek_unchecked : ℕ → Image → Image
  seek_unchecked n im = if h.seek_error n then im else record im { pos = n }

  -- `ftell` at the end of the ramdisk, behind a seek there that is tested too.
  unfoldable pub tell : Input → Outcome ℕ
  tell f = elim f.ftell_end [ none ↦ aborted | some n ↦ done n ]

  -- A tested seek and the writes behind it.
  unfoldable pub copy_at : ℕ → Bytes → Image → Outcome Image
  unfolding copy seek
  copy_at n s im = do m ← seek n im; copy s m

  -- From `writing kernel...` to the end.
  unfoldable pub write_image : Input → Input → Input → Outcome Image
  unfolding copy copy_at seek_unchecked tell
  write_image kernel ramdisk parmfile = do
    k ← copy kernel.bytes empty
    r ← copy ramdisk.bytes (seek_unchecked initrd_start k)
    initrd_size ← tell ramdisk
    p ← copy_at 0x4 (object h 4 start_psw_address) r
    s ← copy_at 0x10408 (object h 8 initrd_start) p
    z ← copy_at 0x10410 (object h 8 initrd_size) s
    copy_at 0x10480 parmfile.bytes z

-- The answers of `getopt_long`, with what `strdup` makes of a name.
pub data Flag : Type 0 where
  image ramdisk parmfile outfile : Option Bytes → Flag
  help other : Flag

-- The pointer of a name, where the name is specified.
pub record Options : Type 0 where
  pub image : Option (Option Bytes)
  pub ramdisk : Option (Option Bytes)
  pub parmfile : Option (Option Bytes)
  pub outfile : Option (Option Bytes)

abbrev pub unspecified : Options
unspecified = record { image = none; ramdisk = none; parmfile = none; outfile = none }

-- `none` is the call of `usage`.
unfoldable pub parse : List Flag → Options → Option Options
parse [] o = some o
parse (Flag.image s ∷ fs) o = parse fs (record o { image = some s })
parse (Flag.ramdisk s ∷ fs) o = parse fs (record o { ramdisk = some s })
parse (Flag.parmfile s ∷ fs) o = parse fs (record o { parmfile = some s })
parse (Flag.outfile s ∷ fs) o = parse fs (record o { outfile = some s })
parse (Flag.help ∷ fs) o = none
parse (Flag.other ∷ fs) o = none

module _ (h : Host) where
  abbrev opened : Option Input → Outcome Input
  opened none = aborted
  opened (some f) = done f

  -- The files are opened in this order, the image for writing first.
  unfoldable pub open_files : Bytes → Bytes → Bytes → Bytes → Outcome Image
  unfolding write_image
  open_files i r p o = elim (h.fopen_write o) [
    | false ↦ aborted
    | true ↦ opened (h.fopen_read o i) >>= λ fi. opened (h.fopen_read o r) >>= λ fr.
        opened (h.fopen_read o p) >>= λ fp. write_image h fi fr fp
  ]

  -- The names are printed in front of the first fopen().
  unfoldable pub with_copies :
      Option Bytes → Option Bytes → Option Bytes → Option Bytes → Outcome (Option Image)
  unfolding open_files
  with_copies (some i) (some r) (some p) (some o) = do im ← open_files i r p o; done (some im)
  with_copies _ _ _ _ = fault

  -- `!image_specified || …`: `usage` unless all four names are there.
  unfoldable pub with_names :
      Option (Option Bytes)
      → Option (Option Bytes)
      → Option (Option Bytes)
      → Option (Option Bytes)
      → Outcome (Option Image)
  unfolding with_copies
  with_names (some i) (some r) (some p) (some o) = with_copies i r p o
  with_names _ _ _ _ = done none

  unfoldable pub main : List Flag → Outcome (Option Image)
  unfolding parse with_names
  main flags = elim (parse flags unspecified) [
    | none ↦ done none
    | some o ↦ with_names o.image o.ramdisk o.parmfile o.outfile
  ]
