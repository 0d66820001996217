-- ===== src/LegacyError.antt =====
-- vols/build/aports/community/musl-legacy-error/error.h: `error` and `error_at_line`. The static
-- variables are a state; what is written to stderr is a list of the messages. The formatted text
-- is an argument, the C library's conversions are a record of parameters. A pointer to a file's
-- name is an address, since pointers are what is compared. The type of `old_linenum` is int, which
-- the comparison converts back, so it is kept as the unsigned number.
pub mod Printed
use hassio_installer.Prelude.{
  ℕ, ◌+◌, ◌%◌, ◌^◌, Bool, true, false, ◌&&◌, Option, none, some, List, [], ◌∷◌, ◌++◌, Bytes, codes,
  ◌==◌, if◌then◌else◌,
}
use hassio_installer.Prelude.Int.{ℤ, pos, negsuc}

pub record Libc : Type 0 where
  pub program_invocation_name : Bytes
  pub strerror : ℤ → Bytes
  -- "%u", and the string at an address.
  pub decimal : ℕ → Bytes
  pub name_at : ℕ → Bytes

pub record State : Type 0 where
  pub error_message_count : ℕ
  pub error_one_per_line : Bool
  pub old_filename : Option ℕ
  pub old_linenum : ℕ
  pub stderr : List Bytes

-- A call of `error`, or of `error_at_line` with the file's name and the line.
pub data Call : Type 0 where
  error_call : ℤ → ℤ → Bytes → Call
  at_line_call : ℤ → ℤ → ℕ → ℕ → Bytes → Call

-- The state behind a call, and the status if it ended the program.
abbrev pub Result : Type 0
Result = State × Option ℤ

abbrev pub is_zero : ℤ → Bool
is_zero (pos n) = n == 0
is_zero (negsuc n) = false

abbrev pub is_at : Option ℕ → ℕ → Bool
is_at none filename = false
is_at (some old) filename = filename == old

-- The message behind the program's name and the place.
unfoldable pub text_of : Libc → ℤ → Bytes → Bytes
text_of libc errnum text =
    text ++ ((if is_zero errnum then [] else codes ": " ++ libc.strerror errnum) ++ codes "\n")

-- Behind the last fprintf().
unfoldable pub reported : ℤ → Bytes → State → Result
reported status line st = (
  record st {
    stderr = st.stderr ++ line ∷ [];
    error_message_count = (st.error_message_count + 1) % 2 ^ 32;
  },
  if is_zero status then none else some status,
)

unfoldable pub error : Libc → ℤ → ℤ → Bytes → State → Result
unfolding text_of reported
error libc status errnum text st =
    reported status (libc.program_invocation_name ++ (codes ": " ++ text_of libc errnum text)) st

unfoldable pub at_line : Libc → ℤ → ℕ → ℕ → Bytes → Bytes
unfolding text_of
at_line libc errnum filename linenum text =
    libc.program_invocation_name
    ++ (codes ": "
        ++ (libc.name_at filename
            ++ (codes ":" ++ (libc.decimal linenum ++ (codes ": " ++ text_of libc errnum text)))))

unfoldable pub error_at_line : Libc → ℤ → ℤ → ℕ → ℕ → Bytes → State → Result
unfolding at_line reported
error_at_line libc status errnum filename linenum text st =
    if st.error_one_per_line
    then (if linenum == st.old_linenum && is_at st.old_filename filename
        then (st, none)
        else reported status (at_line libc errnum filename linenum text)
            (record st { old_filename = some filename; old_linenum = linenum }))
    else reported status (at_line libc errnum filename linenum text) st

unfoldable pub call : Libc → Call → State → Result
unfolding error error_at_line
call libc (error_call status errnum text) st = error libc status errnum text st
call libc (at_line_call status errnum filename linenum text) st =
    error_at_line libc status errnum filename linenum text st
