-- ===== src/Iconv.antt =====
-- vols/build/aports/main/musl/iconv.c: files converted from one character set to another, in pieces
-- of a buffer. The C library is a record of parameters over the states of a conversion, with the
-- buffer's size; a file is what fread() delivers of it, and whether that ends in an error. What
-- is written to stdout is a list of bytes. The bytes in the buffer are `pending`; their number is
-- `inb`. getopt() is its answers.
pub mod Pieces
pub mod Operands
pub mod Lost
use hassio_installer.Prelude.{
  ℕ, zero, suc, ◌+◌, ◌-◌, Bool, true, false, ◌&&◌, not, Option, none, some, List, [], ◌∷◌, ◌++◌,
  Bytes, codes, length, take, drop, leb, ◌==◌, if◌then◌else◌, Outcome, done, fault, ◌>>=◌,
}

pub data Errno : Type 0 where
  eilseq einval e2big : Errno

-- A call of iconv(): the conversion behind it, how many bytes it used, what it wrote, and errno if
-- it returned -1.
pub record Converted (S : Type 0) : Type 0 where
  pub cd : S
  pub used : ℕ
  pub out : Bytes
  pub err : Option Errno

pub record File : Type 0 where
  pub bytes : Bytes
  pub error : Bool

pub record System (S : Type 0) : Type 0 where
  pub bufsiz : ℕ
  -- iconv_open(to, from)
  pub iconv_open : Bytes → Bytes → Option S
  pub iconv : S → Bytes → Converted S
  -- What the conversion of a '0' from wide characters to `from` writes.
  pub unit_written : Bytes → ℕ
  -- The errno that it leaves, if it sets one.
  pub unit_errno : Bytes → Option Errno
  pub codeset : Bytes
  pub fopen : Bytes → Option File
  pub stdin : File
  -- fwrite() of these bytes succeeds.
  pub fwrite : Bytes → Bool

-- The variables of the loop over a file. `err` is errno, which a call that succeeds leaves.
pub record State (S : Type 0) : Type 0 where
  pub cd : S
  pub pending : Bytes
  pub errno : Option Errno
  pub unitsize : ℕ
  pub out : Bytes

-- A turn goes on, leaves the loop, or ends the program with exit(1).
pub data Turn (S : Type 0) : Type 0 where
  next leave write_error : State S → Turn S

abbrev pub is_eilseq : Option Errno → Bool
is_eilseq (some eilseq) = true
is_eilseq _ = false

abbrev pub is_einval : Option Errno → Bool
is_einval (some einval) = true
is_einval _ = false

abbrev pub or_else : Option Errno → Option Errno → Option Errno
or_else none old = old
or_else (some e) old = some e

abbrev pub is_empty : Bytes → Bool
is_empty [] = true
is_empty (c ∷ s) = false

-- Past a unit; with fewer bytes left `inb` wraps.
abbrev pub past : ℕ → Bytes → Option Bytes
past n s = if leb n (length s) then some (drop n s) else none

module _ {S : Type 0} (sys : System S) (from : Bytes) where
  unfoldable pub unit_of : ℕ → ℕ
  unit_of unitsize =
      if unitsize == 0
      then (if sys.unit_written from == 0 then 1 else sys.unit_written from)
      else unitsize

  -- errno behind EILSEQ: the unit is looked up once, by calls that may set it.
  unfoldable pub errno_of : ℕ → Option Errno
  errno_of unitsize =
      if unitsize == 0 then or_else (sys.unit_errno from) (some eilseq) else some eilseq

  -- Behind the break: the write, and the move of what is left to the front of the buffer, which
  -- reads far behind it where `inb` wrapped.
  unfoldable pub write_and_move : State S → Bytes → Option Bytes → Outcome (Turn S)
  write_and_move st out left =
      if not (is_empty out) && not (sys.fwrite out) then done (write_error st) else elim left [
        | none ↦ fault
        | some s ↦ done (next (record st { pending = s; out = st.out ++ out }))
      ]

  -- `if (inb && !l && errno==EINVAL) break;`
  unfoldable pub unless_stuck : State S → ℕ → Bytes → Option Bytes → Outcome (Turn S)
  unfolding write_and_move
  unless_stuck st l out none =
      if l == 0 && is_einval st.errno then done (leave st) else write_and_move st out none
  unless_stuck st l out (some s) =
      if not (is_empty s) && (l == 0 && is_einval st.errno)
      then done (leave st)
      else write_and_move st out (some s)

  -- What a call of iconv() leads to; `s` is the buffer that it was given.
  unfoldable pub converted : State S → ℕ → Bytes → Converted S → Outcome (Turn S)
  unfolding unit_of errno_of unless_stuck
  converted st l s r =
      let left = drop r.used s in
      let st' = record st { cd = r.cd; errno = or_else r.err st.errno } in
      if is_eilseq r.err
      then (let n = unit_of st.unitsize in
          unless_stuck (record st' { errno = errno_of st.unitsize; unitsize = n }) l r.out
            (past n left))
      else unless_stuck st' l r.out (some left)

  unfoldable pub filled : State S → ℕ → Bytes → Outcome (Turn S)
  unfolding converted
  filled st l [] = done (leave st)
  filled st l (c ∷ s) = converted st l (c ∷ s) (sys.iconv st.cd (c ∷ s))

  unfoldable pub continue : (State S → Outcome (Turn S)) → Turn S → Outcome (Turn S)
  continue again (next st) = again st
  continue again (leave st) = done (leave st)
  continue again (write_error st) = done (write_error st)

  -- `for (;;)`, on fuel, with what of the file is left to read; to be out of fuel is a fault.
  unfoldable pub convert : ℕ → Bytes → State S → Outcome (Turn S)
  unfolding filled continue
  convert zero file st = fault
  convert (suc fuel) file st =
      let room = sys.bufsiz - length st.pending in
      filled st (length (take room file)) (st.pending ++ take room file)
      >>= continue (convert fuel (drop room file))

-- The program ends with a status; what was written stays.
pub record Run : Type 0 where
  pub written : Bytes
  pub status : ℕ

abbrev pub ran : Bytes → ℕ → Run
ran s n = record { written = s; status = n }

unfoldable pub is_stdin : Bytes → Bool
is_stdin [] = false
is_stdin (c ∷ s) = c == b'-' && is_empty s

-- stdin behind an operand: the loop leaves it at its end, where a second "-" finds it.
abbrev pub read_once : File → Bytes → File
read_once input name = if is_stdin name then record input { bytes = [] } else input

module _ {S : Type 0} (sys : System S) (from : Bytes) (fuel : ℕ) where
  -- One operand: stdin for "-", a file, or none.
  unfoldable pub opened : File → Bytes → Option File
  unfolding is_stdin
  opened input name = if is_stdin name then some input else sys.fopen name

  -- `again` converts the operands behind this one, with `err` so far.
  unfoldable pub file_done : (ℕ → State S → Outcome Run) → ℕ → File → Turn S → Outcome Run
  file_done again err f (write_error st) = done (ran st.out 1)
  file_done again err f (next st) = fault
  file_done again err f (leave st) = again (if f.error then 1 else err) st

  unfoldable pub each_file : (ℕ → State S → Outcome Run) → ℕ → State S → Option File → Outcome Run
  unfolding convert file_done
  each_file again err st none = again 1 st
  each_file again err st (some f) =
      convert sys from fuel f.bytes (record st { pending = [] }) >>= file_done again err f

  unfoldable pub files : File → List Bytes → ℕ → State S → Outcome Run
  unfolding each_file opened
  files input [] err st = done (ran st.out err)
  files input (name ∷ names) err st =
      each_file (files (read_once input name) names) err st (opened input name)

pub data Flag : Type 0 where
  list ignored unknown : Flag
  from_set to_set : Bytes → Flag

pub data Parsed : Type 0 where
  listed : Parsed
  wrong : Parsed
  sets : Option Bytes → Option Bytes → Parsed

-- The flags in order, with `from` and `to` so far.
unfoldable pub parse : List Flag → Option Bytes → Option Bytes → Parsed
parse [] from to = sets from to
parse (list ∷ flags) from to = listed
parse (ignored ∷ flags) from to = parse flags from to
parse (unknown ∷ flags) from to = wrong
parse (from_set s ∷ flags) from to = parse flags (some s) to
parse (to_set s ∷ flags) from to = parse flags from (some s)

abbrev pub set_or : Option Bytes → Bytes → Bytes
set_or none s = s
set_or (some t) s = t

abbrev pub names_of : List Bytes → List Bytes
names_of [] = codes "-" ∷ []
names_of (name ∷ names) = name ∷ names

abbrev pub charsets : Bytes
charsets =
    codes "UTF-8, UTF-16BE, UTF-16LE, UTF-32BE, UTF32-LE, UCS-2BE, UCS-2LE, WCHAR_T,\n"
    ++ (codes "US_ASCII, ISO8859-1, ISO8859-2, ISO8859-3, ISO8859-4, ISO8859-5,\n"
        ++ codes "ISO8859-6, ISO8859-7, ...\n")

abbrev pub opening : {S : Type 0} → S → State S
opening cd = record { cd = cd; pending = []; errno = none; unitsize = 0; out = [] }

module _ {S : Type 0} (sys : System S) where
  unfoldable pub with_charsets : ℕ → Bytes → Bytes → List Bytes → Outcome Run
  unfolding files
  with_charsets fuel from to names = elim (sys.iconv_open to from) [
    | none ↦ done (ran [] 1)
    | some cd ↦ files sys from fuel sys.stdin (names_of names) 0 (opening cd)
  ]

  -- `fuel` is for the turns of each file.
  unfoldable pub main : ℕ → List Flag → List Bytes → Outcome Run
  unfolding parse with_charsets
  main fuel flags names = elim (parse flags none none) [
    | listed ↦ done (ran charsets 0)
    | wrong ↦ done (ran [] 1)
    | sets from to ↦ with_charsets fuel (set_or from sys.codeset) (set_or to sys.codeset) names
  ]
