-- ===== src/Cdboot/Program.antt =====
-- Of mk-s390-cdboot.c.
-- The whole program, from its options to the image.
use hassio_installer.Prelude.{
  ◌^◌, ◌<◌, ◌≡◌, refl, ◌⊎◌, inl, inr, Bool, true, false, Option, none, some, List, Bytes, length,
  arith, Outcome, done, fault, aborted, ◌∙◌, Bool-cases, Option-cases,
}
use hassio_installer.Cdboot.{
  Host, Image, Input, write_image, Flag, unspecified, open_files, with_copies, with_names, main,
}
use hassio_installer.Cdboot.Layout.{Works}
use hassio_installer.Cdboot.Parts.{Packs, Room, write_image-Packs}
use hassio_installer.Cdboot.Flags.{
  image_of, ramdisk_of, parmfile_of, outfile_of, last, asks_usage, parse-lasts,
}

-- The pointers of the four names, where they are specified.
abbrev pub Specified :
    List Flag → Option Bytes → Option Bytes → Option Bytes → Option Bytes → Type 0
Specified flags i r p o =
    (last image_of flags none ≡ some i)
    × (last ramdisk_of flags none ≡ some r)
    × (last parmfile_of flags none ≡ some p)
    × (last outfile_of flags none ≡ some o)

-- The four names that a run works with.
abbrev pub Named : List Flag → Bytes → Bytes → Bytes → Bytes → Type 0
Named flags i r p o = Specified flags (some i) (some r) (some p) (some o)

abbrev pub Unnamed : List Flag → Type 0
Unnamed flags =
    (last image_of flags none ≡ none)
    ⊎ (last ramdisk_of flags none ≡ none)
    ⊎ (last parmfile_of flags none ≡ none)
    ⊎ (last outfile_of flags none ≡ none)

-- The files of a host in front of a run, and which names are names of one file: to open one for
-- writing leaves the others as they were. `ftell` tells their sizes, which are those of objects in
-- memory.
pub record Files (h : Host) : Type 0 where
  pub contents : Bytes → Option Input
  pub same_file : Bytes → Bytes → Bool
  pub others : (o s : Bytes) → same_file s o ≡ false → h.fopen_read o s ≡ contents s
  pub told : (s : Bytes) (f : Input) → contents s ≡ some f → f.ftell_end ≡ some (length f.bytes)
  pub sized : (s : Bytes) (f : Input) → contents s ≡ some f → length f.bytes < 2 ^ 64

-- A file that a run needs and cannot have.
abbrev pub Lacks : (h : Host) → Files h → Bytes → Bytes → Bytes → Bytes → Type 0
Lacks h files i r p o =
    (h.fopen_write o ≡ false)
    ⊎ (files.contents i ≡ none)
    ⊎ (files.contents r ≡ none)
    ⊎ (files.contents p ≡ none)

-- What is asked of the names: the outfile is none of the files that are read, and these have the
-- sizes that keep their parts of the image from one another.
pub record Suits (h : Host) (files : Files h) (flags : List Flag) : Type 0 where
  pub apart :
      (i d p o : Bytes)
      → Named flags i d p o
      → (files.same_file i o ≡ false)
        × (files.same_file d o ≡ false)
        × (files.same_file p o ≡ false)
  pub room :
      (i d p o : Bytes) (fi fp : Input)
      → Named flags i d p o
      → files.contents i ≡ some fi
      → files.contents p ≡ some fp
      → Room fi.bytes fp.bytes

-- What a run comes to.
pub data Program (h : Host) (files : Files h) (flags : List Flag) (r : Outcome (Option Image))
    : Type 0 where
  shows_usage : (asks_usage flags ≡ true) ⊎ Unnamed flags → r ≡ done none → Program h files flags r
  lacks_memory :
      (i d p o : Option Bytes)
      → asks_usage flags ≡ false
      → Specified flags i d p o
      → (i ≡ none) ⊎ (d ≡ none) ⊎ (p ≡ none) ⊎ (o ≡ none)
      → r ≡ fault
      → Program h files flags r
  gives_up :
      (i d p o : Bytes)
      → asks_usage flags ≡ false
      → Named flags i d p o
      → Lacks h files i d p o
      → r ≡ aborted
      → Program h files flags r
  makes_image :
      (i d p o : Bytes) (fi fd fp : Input) (im : Image)
      → asks_usage flags ≡ false
      → Named flags i d p o
      → files.contents i ≡ some fi
      → files.contents d ≡ some fd
      → files.contents p ≡ some fp
      → r ≡ done (some im)
      → Packs h fi.bytes fd.bytes fp.bytes im
      → Program h files flags r

module _ (h : Host) (files : Files h) (i d p o : Bytes) (ai : files.same_file i o ≡ false)
    (ad : files.same_file d o ≡ false) (ap : files.same_file p o ≡ false) where
  -- A lacking file is met before anything is written.
  open_files-Lacks : Lacks h files i d p o → open_files h i d p o ≡ aborted
  unfolding open_files
  open_files-Lacks (inl e) = ground (arith, e)
  open_files-Lacks (inr (inl e)) = let n = files.others o i ai ∙ e in ground (arith, n)
  open_files-Lacks (inr (inr (inl e))) = let n = files.others o d ad ∙ e in ground (arith, n)
  open_files-Lacks (inr (inr (inr e))) = let n = files.others o p ap ∙ e in ground (arith, n)

  with_names-Lacks :
      Lacks h files i d p o
      → with_names h (some (some i)) (some (some d)) (some (some p)) (some (some o)) ≡ aborted
  unfolding with_names with_copies
  with_names-Lacks lacks = rw (open_files-Lacks lacks) refl

  with_names-write_image :
      (fi fd fp : Input) (im : Image)
      → h.fopen_write o ≡ true
      → files.contents i ≡ some fi
      → files.contents d ≡ some fd
      → files.contents p ≡ some fp
      → write_image h fi fd fp ≡ done im
      → with_names h (some (some i)) (some (some d)) (some (some p)) (some (some o))
        ≡ done (some im)
  unfolding with_names with_copies open_files
  with_names-write_image fi fd fp im eo ei ed ep run =
      let ri = files.others o i ai ∙ ei in
      let rd = files.others o d ad ∙ ed in
      let rp = files.others o p ap ∙ ep in ground (arith, eo, ri, rd, rp, run)

module _ (h : Host) (w : Works h) (files : Files h) (flags : List Flag)
    (suits : Suits h files flags) (asks : asks_usage flags ≡ false) where
  with_files :
      (i d p o : Bytes)
      → Named flags i d p o
      → Program h files flags
          (with_names h (some (some i)) (some (some d)) (some (some p)) (some (some o)))
  with_files i d p o named =
      let (ai, ad, ap) = suits.apart i d p o named in
      let gone : Lacks h files i d p o
          → Program h files flags
              (with_names h (some (some i)) (some (some d)) (some (some p)) (some (some o))) =
        λ lacks.
          gives_up i d p o asks named lacks (with_names-Lacks h files i d p o ai ad ap lacks) in
      elim (Bool-cases (h.fopen_write o)) [
        | inr eo ↦ gone (inl eo)
        | inl eo ↦ elim (Option-cases (files.contents i)) [
          | inl ni ↦ gone (inr (inl ni))
          | inr (fi, ei) ↦ elim (Option-cases (files.contents d)) [
            | inl nd ↦ gone (inr (inr (inl nd)))
            | inr (fd, ed) ↦ elim (Option-cases (files.contents p)) [
              | inl np ↦ gone (inr (inr (inr np)))
              | inr (fp, ep) ↦
                  let (im, run, packs) =
                    write_image-Packs h fi fd fp w (files.told d fd ed) (files.sized d fd ed)
                      (suits.room i d p o fi fp named ei ep) in
                  makes_image i d p o fi fd fp im asks named ei ed ep
                    (with_names-write_image h files i d p o ai ad ap fi fd fp im eo ei ed ep run)
                    packs
            ]
          ]
        ]
      ]

  copied :
      (i d p o : Option Bytes)
      → Specified flags i d p o
      → Program h files flags (with_names h (some i) (some d) (some p) (some o))
  unfolding with_names with_copies
  copied (some i) (some d) (some p) (some o) named = with_files i d p o named
  copied none d p o named = lacks_memory none d p o asks named (inl refl) refl
  copied (some i) none p o named = lacks_memory (some i) none p o asks named (inr (inl refl)) refl
  copied (some i) (some d) none o named =
      lacks_memory (some i) (some d) none o asks named (inr (inr (inl refl))) refl
  copied (some i) (some d) (some p) none named =
      lacks_memory (some i) (some d) (some p) none asks named (inr (inr (inr refl))) refl

  chosen :
      (is ds ps os : Option (Option Bytes))
      → last image_of flags none ≡ is
      → last ramdisk_of flags none ≡ ds
      → last parmfile_of flags none ≡ ps
      → last outfile_of flags none ≡ os
      → Program h files flags (with_names h is ds ps os)
  unfolding with_names
  chosen (some i) (some d) (some p) (some o) ei ed ep eo =
      unfold with_names in copied i d p o (ei, ed, ep, eo)
  chosen none ds ps os ei ed ep eo = shows_usage (inr (inl ei)) refl
  chosen (some i) none ps os ei ed ep eo = shows_usage (inr (inr (inl ed))) refl
  chosen (some i) (some d) none os ei ed ep eo = shows_usage (inr (inr (inr (inl ep)))) refl
  chosen (some i) (some d) (some p) none ei ed ep eo = shows_usage (inr (inr (inr (inr eo)))) refl

-- On a host whose writes and seeks work, the program ends in one of four ways, if the outfile is
-- none of the files that it reads, the kernel reaches to 0x10480 and ends at 0x800000 at the
-- latest, where the parmfile ends too. A flag that asks for it or a missing name brings up the
-- usage text; a name that strdup() has no memory for is read through NULL; a file that cannot be
-- opened aborts the run. Else, of each kind of name the last one counts, and the image has the
-- contents that these files had in front of the run, each in its place, with the ramdisk's address
-- and size and the start address patched into the kernel.
pub main-Program :
    (h : Host)
    → Works h
    → (files : Files h) (flags : List Flag) → Suits h files flags
    → Program h files flags (main h flags)
unfolding main
main-Program h w files flags suits = elim (Bool-cases (asks_usage flags)) [
  | inl asks ↦ rw (main, parse-lasts flags unspecified, asks) (shows_usage (inl asks) refl)
  | inr asks ↦
      rw (main, parse-lasts flags unspecified, asks)
        (chosen h w files flags suits asks _ _ _ _ refl refl refl refl)
]
