-- ===== src/Cdboot/Flags.antt =====
-- Of mk-s390-cdboot.c.
-- What a list of flags comes to: of each kind the last one counts.
use hassio_installer.Prelude.{
  ◌≡◌, refl, Bool, true, false, Option, none, some, List, [], ◌∷◌, Bytes, if◌then◌else◌,
}
use hassio_installer.Cdboot.{Flag, Options, parse}

-- What a flag says of each name.
abbrev pub image_of : Flag → Option (Option Bytes)
image_of (Flag.image s) = some s
image_of _ = none

abbrev pub ramdisk_of : Flag → Option (Option Bytes)
ramdisk_of (Flag.ramdisk s) = some s
ramdisk_of _ = none

abbrev pub parmfile_of : Flag → Option (Option Bytes)
parmfile_of (Flag.parmfile s) = some s
parmfile_of _ = none

abbrev pub outfile_of : Flag → Option (Option Bytes)
outfile_of (Flag.outfile s) = some s
outfile_of _ = none

-- The last flag that says something counts.
abbrev pub or_else : Option (Option Bytes) → Option (Option Bytes) → Option (Option Bytes)
or_else none old = old
or_else (some s) old = some s

unfoldable pub last :
    (Flag → Option (Option Bytes)) → List Flag → Option (Option Bytes) → Option (Option Bytes)
last pick [] old = old
last pick (f ∷ fs) old = last pick fs (or_else (pick f) old)

unfoldable pub asks_usage : List Flag → Bool
asks_usage [] = false
asks_usage (Flag.help ∷ fs) = true
asks_usage (Flag.other ∷ fs) = true
asks_usage (Flag.image s ∷ fs) = asks_usage fs
asks_usage (Flag.ramdisk s ∷ fs) = asks_usage fs
asks_usage (Flag.parmfile s ∷ fs) = asks_usage fs
asks_usage (Flag.outfile s ∷ fs) = asks_usage fs

abbrev pub lasts : List Flag → Options → Options
lasts flags o = record {
  image = last image_of flags o.image;
  ramdisk = last ramdisk_of flags o.ramdisk;
  parmfile = last parmfile_of flags o.parmfile;
  outfile = last outfile_of flags o.outfile;
}

pub parse-lasts :
    (flags : List Flag) (o : Options)
    → parse flags o ≡ (if asks_usage flags then none else some (lasts flags o))
unfolding parse asks_usage last
parse-lasts [] o = refl
parse-lasts (Flag.image s ∷ fs) o = parse-lasts fs (record o { image = some s })
parse-lasts (Flag.ramdisk s ∷ fs) o = parse-lasts fs (record o { ramdisk = some s })
parse-lasts (Flag.parmfile s ∷ fs) o = parse-lasts fs (record o { parmfile = some s })
parse-lasts (Flag.outfile s ∷ fs) o = parse-lasts fs (record o { outfile = some s })
parse-lasts (Flag.help ∷ fs) o = refl
parse-lasts (Flag.other ∷ fs) o = refl
