-- ===== src/ErrorHeaders.antt =====
-- vols/build/aports/main/elfutils/error.h and vols/build/aports/main/kbd/error.h: `error` of two
-- packages. What is written to stderr is a list of the messages; the formatted text is an
-- argument, and the flush of stdout is left out. The functions of <err.h> are a record of
-- parameters: each is given what it reads, `errno` among it, and answers with the line that it
-- writes.
pub mod Runs
use hassio_installer.Prelude.{
  ℕ, ◌+◌, ◌%◌, ◌^◌, Bool, true, false, Option, none, some, List, [], ◌∷◌, ◌++◌, Bytes, codes,
  if◌then◌else◌,
}
use hassio_installer.Prelude.Int.{ℤ}
use hassio_installer.LegacyError.{Libc, is_zero}

-- Of elfutils: the static variable and stderr.
pub record Counted : Type 0 where
  pub error_message_count : ℕ
  pub stderr : List Bytes

-- The status is that of a call of exit().
unfoldable pub elfutils_error : Libc → ℤ → ℤ → Bytes → Counted → Counted × Option ℤ
elfutils_error libc status errnum format st =
    let line =
      libc.program_invocation_name
      ++ (codes ": "
          ++ (format
              ++ ((if is_zero errnum then [] else codes ": " ++ libc.strerror errnum)
                  ++ codes "\n"))) in
    (
      record {
        error_message_count = (st.error_message_count + 1) % 2 ^ 32;
        stderr = st.stderr ++ line ∷ [];
      },
      if is_zero status then none else some status,
    )

-- <err.h>: `errno` and the text make a line; verr() and verrx() end the program with a status too.
pub record Err : Type 0 where
  pub verr : ℤ → ℤ → Bytes → Bytes × ℤ
  pub verrx : ℤ → Bytes → Bytes × ℤ
  pub vwarn : ℤ → Bytes → Bytes
  pub vwarnx : Bytes → Bytes

-- Of kbd. `errfunc` and `warnfunc` are arrays of two functions.
unfoldable pub errfunc : Err → ℤ → Bool → ℤ → Bytes → Bytes × ℤ
errfunc h errno false = λ status format. h.verr errno status format
errfunc h errno true = λ status format. h.verrx status format

unfoldable pub warnfunc : Err → ℤ → Bool → Bytes → Bytes
warnfunc h errno false = λ format. h.vwarn errno format
warnfunc h errno true = λ format. h.vwarnx format

unfoldable pub kbd_error : Err → ℤ → ℤ → ℤ → Bytes → List Bytes → List Bytes × Option ℤ
unfolding errfunc warnfunc
kbd_error h errno status errnum fmt stderr =
    let ended = errfunc h errno (is_zero errnum) status fmt in
    let warned = warnfunc h errno (is_zero errnum) fmt in
    if is_zero status then (stderr ++ warned ∷ [], none) else (stderr ++ ended.0 ∷ [], some ended.1)
