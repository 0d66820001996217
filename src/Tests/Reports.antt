-- ===== src/Tests/Reports.antt =====
-- The messages of error.h.
use mathlib.Core.List.{map}
use hassio_installer.ErrorHeaders.{Err}
use hassio_installer.ErrorHeaders.Runs.{
  Message, elfutils_run, kbd_run, by_errno, line, IsErr, fresh, legacy_call, counted, headers_agree,
}
use hassio_installer.Prelude.{◌≡◌, refl, ◌++◌, arith, ◌+◌, List, [], ◌∷◌, codes, true, some}
use hassio_installer.Prelude.Int.{ℤ, pos}
use hassio_installer.LegacyError.{Libc, Call, error_call, at_line_call}
use hassio_installer.LegacyError.Printed.{
  calls, distinct, up_to_exit, started, Prints, calls-distinct,
}

-- The same place twice, another one, and an error that ends the program.
abbrev reports : List Call
reports =
    at_line_call (pos 0) (pos 0) 1 7 (codes "bad")
    ∷ at_line_call (pos 0) (pos 0) 1 7 (codes "worse")
    ∷ at_line_call (pos 0) (pos 2) 1 8 (codes "open")
    ∷ error_call (pos 1) (pos 0) (codes "giving up")
    ∷ error_call (pos 0) (pos 0) (codes "not said")
    ∷ []

abbrev words_of : Libc
words_of = record {
  program_invocation_name = codes "prog";
  strerror = λ e. codes "No such file";
  decimal = λ n. (b'0' + n) ∷ [];
  name_at = λ a. codes "f.c";
}

calls-distinct_example :
    Prints words_of
      (started true)
      (
        at_line_call (pos 0) (pos 0) 1 7 (codes "bad")
            ∷ at_line_call (pos 0) (pos 2) 1 8 (codes "open")
            ∷ error_call (pos 1) (pos 0) (codes "giving up")
            ∷ [],
        some (pos 1),
      )
      (calls words_of reports (started true))
unfolding distinct up_to_exit
calls-distinct_example = calls-distinct words_of reports true

-- <err.h> as its manual has it.
abbrev manual : Err
manual = record {
  vwarn =
      λ errno text. line words_of (text ++ ((codes ": " ++ words_of.strerror errno) ++ codes "\n"));
  vwarnx = λ text. line words_of (text ++ ([] ++ codes "\n"));
  verr = λ errno status text.
      (line words_of (text ++ ((codes ": " ++ words_of.strerror errno) ++ codes "\n")), status);
  verrx = λ status text. (line words_of (text ++ ([] ++ codes "\n")), status);
}

manual-IsErr : IsErr words_of manual
manual-IsErr = record {
  vwarn = λ errno text. refl;
  vwarnx = λ text. refl;
  verr = λ errno status text. refl;
  verrx = λ status text. refl;
}

abbrev said : ℤ → ℤ → ℤ → Message
said errno status errnum = record {
  errno = errno;
  status = status;
  errnum = errnum;
  text = codes "open";
}

abbrev three_calls : List Message
three_calls =
    said (pos 0) (pos 0) (pos 0) ∷ said (pos 13) (pos 0) (pos 2) ∷ said (pos 2) (pos 1) (pos 2) ∷ []

headers_agree_example :
    (elfutils_run words_of three_calls fresh
      ≡ (counted (calls words_of (map legacy_call three_calls) (started true)).0, some (pos 1)))
    × (kbd_run manual three_calls []
        ≡ ((elfutils_run words_of (map by_errno three_calls) fresh).0.stderr, some (pos 1)))
unfolding calls elfutils_run
headers_agree_example =
    headers_agree words_of manual three_calls true manual-IsErr
      ((λ e. ground arith), ((λ e. ground arith), ((λ e. ground arith), tt)))
