-- ===== src/Getconf.antt =====
-- vols/build/aports/main/musl/getconf.c: the handlers and `main`. `sysconf`, `confstr`,
-- `pathconf`, `malloc`, the headers' constants and the state of stdout are a parameter, `System`.
-- `getopt` is its answers, one character each, with the operands that it leaves. What is printed
-- is a list of lines, before printf's formatting of numbers. `err` and `errx` end the program with
-- a message and keep what was printed.
pub mod Table
pub mod Query
pub mod Listing
pub mod Families
use Prim.Native.String.{String}
use text.Mathlib.Text.{◌==◌ as str_eq}
use hassio_installer.Prelude.{
  ℕ, Bool, true, false, not, ◌&&◌, Option, none, some, List, [], ◌∷◌, ◌++◌, ◌==◌, if◌then◌else◌,
}
use hassio_installer.Prelude.Int.{ℤ, is_minus_one, to_ulong}
use Table.{Handler, sysconf, confstr, pathconf, constant, uconstant, Variable, conf_table}

pub data Shown : Type 0 where
  long : ℤ → Shown
  ulong : ℕ → Shown
  string : String → Shown

-- `name = value`, or the value alone.
pub record Line : Type 0 where
  pub label : Option String
  pub shown : Shown

pub data Message : Type 0 where
  usage : Message
  failed : Handler → ℤ → Message
  no_memory : ℕ → Message
  invalid_type : String → Message
  unknown : String → Message

-- A call's value and the `errno` that it leaves.
pub record System : Type 0 where
  pub macro : String → ℤ
  pub sysconf_of : ℤ → ℤ × ℕ
  pub confstr_size : ℤ → ℕ × ℕ
  pub confstr_text : ℤ → ℕ → ℕ × ℕ × String
  pub pathconf_of : String → ℤ → ℤ × ℕ
  pub malloc : ℕ → Bool
  pub stdout_error : Bool

-- `EINVAL`
abbrev pub einval : ℕ
einval = 22

-- A handler returns 0, with what it printed, or -1, or ends the program.
pub data Reply : Type 0 where
  printed : List Line → Reply
  undefined : Reply
  died : Message → Reply

-- What a row of the table comes to.
pub data Answer : Type 0 where
  prints : List Line → Answer
  exits : Message → Answer

abbrev pub line : Bool → String → Shown → Line
line all name v = record { label = if all then some name else none; shown = v }

module _ (sys : System) (all : Bool) where
  unfoldable pub print_constant : Variable → Reply
  print_constant cp = printed (line all cp.name (long (sys.macro cp.value)) ∷ [])

  unfoldable pub print_uconstant : Variable → Reply
  print_uconstant cp = printed (line all cp.name (ulong (to_ulong (sys.macro cp.value))) ∷ [])

  unfoldable pub print_sysconf : Variable → Reply
  print_sysconf cp =
      let (val, errno) = sys.sysconf_of (sys.macro cp.value) in
      if is_minus_one val
      then if not (errno == 0) then died (failed sysconf (sys.macro cp.value)) else undefined
      else printed (line all cp.name (long val) ∷ [])

  -- The label `error`.
  confstr_error : Variable → ℕ → Reply
  confstr_error cp errno =
      if not (errno == einval) then died (failed confstr (sys.macro cp.value)) else undefined

  confstr_filled : Variable → ℕ × ℕ × String → Reply
  confstr_filled cp (len, errno, val) =
      if len == 0 then confstr_error cp errno else printed (line all cp.name (string val) ∷ [])

  unfoldable pub print_confstr : Variable → Reply
  unfolding confstr_error confstr_filled
  print_confstr cp =
      let (len, errno) = sys.confstr_size (sys.macro cp.value) in
      if len == 0
      then confstr_error cp errno
      else if not (sys.malloc len)
      then died (no_memory len)
      else confstr_filled cp (sys.confstr_text (sys.macro cp.value) len)

  unfoldable pub print_pathconf : Variable → String → Reply
  print_pathconf cp pathname =
      let (val, errno) = sys.pathconf_of pathname (sys.macro cp.value) in
      if is_minus_one val
      then if all && errno == einval
        then printed []
        else if not (errno == 0)
        then died (failed pathconf (sys.macro cp.value))
        else undefined
      else printed (line all cp.name (long val) ∷ [])

  -- `type_handlers[cp->type](cp, pathname)`; only `print_pathconf` reads the path name.
  unfoldable pub handle : Handler → Variable → String → Reply
  handle sysconf cp p = print_sysconf cp
  handle confstr cp p = print_confstr cp
  handle pathconf cp p = print_pathconf cp p
  handle constant cp p = print_constant cp
  handle uconstant cp p = print_uconstant cp

abbrev pub is_pathconf : Handler → Bool
is_pathconf pathconf = true
is_pathconf _ = false

abbrev pub given : Option String → Bool
given none = false
given (some p) = true

abbrev pub path : Option String → String
path none = ""
path (some p) = p

-- `(cp->type == PATHCONF) == (pathname != NULL)`
unfoldable pub applies : Variable → Option String → Bool
applies cp p = if is_pathconf cp.type then given p else not (given p)

-- How the program ends: `EXIT_SUCCESS`, or `EXIT_FAILURE` with a message on stderr if there is one.
pub data Exit : Type 0 where
  success : Exit
  failure : Option Message → Exit

pub record Run : Type 0 where
  pub out : List Line
  pub exit : Exit

abbrev pub ends : List Line → Exit → Run
ends out e = record { out = out; exit = e }

module _ (sys : System) where
  -- `varname` is NULL under `-a`; the rows behind `cp` are read next, with `out` printed so far.
  unfoldable pub finish : Option String → Bool → List Line → Run
  finish (some varname) false out = ends out (failure (some (unknown varname)))
  finish _ _ out = ends out (if sys.stdout_error then failure none else success)

  unfoldable pub skips : Option String → Variable → Bool
  skips none cp = false
  skips (some varname) cp = not (str_eq varname cp.name)

  -- A row that the path name does not suit: an error, or under `-a` the next row.
  unfoldable pub mismatch : Option String → Variable → List Line → Run → Run
  mismatch (some varname) cp out next = ends out (failure (some (invalid_type cp.name)))
  mismatch none cp out next = next

  unfoldable pub all_of : Option String → Bool
  all_of none = true
  all_of (some varname) = false

  -- What a matching row prints, or how it ends the program.
  unfoldable pub answer : Option String → Option String → Variable → Answer
  unfolding all_of
  answer varname p cp = elim (handle sys (all_of varname) cp.type cp (path p)) [
    | printed ls ↦ prints ls
    | undefined ↦ prints (line (all_of varname) cp.name (string "undefined") ∷ [])
    | died m ↦ exits m
  ]

  unfoldable pub scan : Option String → Option String → List Variable → Bool → List Line → Run
  unfolding finish skips mismatch
  scan varname p [] found out = finish varname found out
  scan varname p (cp ∷ cps) found out = elim (skips varname cp) [
    | true ↦ scan varname p cps found out
    | false ↦ elim (applies cp p) [
      | true ↦ elim (answer varname p cp) [
        | prints ls ↦ scan varname p cps true (out ++ ls)
        | exits m ↦ ends out (failure (some m))
      ]
      | false ↦ mismatch varname cp out (scan varname p cps found out)
    ]
  ]

  -- The operands behind the options, and behind the variable's name.
  unfoldable pub with_path : Option String → List String → Run
  with_path varname [] = scan varname none conf_table false []
  with_path varname (p ∷ []) = scan varname (some p) conf_table false []
  with_path varname (p ∷ q ∷ rest) = ends [] (failure (some usage))

  unfoldable pub operands : Bool → List String → Run
  unfolding with_path
  operands true args = with_path none args
  operands false [] = ends [] (failure (some usage))
  operands false (varname ∷ args) = with_path (some varname) args

  unfoldable pub main : Bool → List ℕ → List String → Run
  unfolding operands
  main all [] args = operands all args
  main all (ch ∷ chs) args = elim (ch == b'a') [
    | true ↦ main true chs args
    | false ↦ ends [] (failure (some usage))
  ]
