-- ===== src/ErrorHeaders/Runs.antt =====
-- Of the error.h of kbd, elfutils and musl-legacy-error.
-- A program's calls of `error`, in order, with each of the three headers.
use mathlib.Core.List.{map}
use hassio_installer.Prelude.{
  Bool, ◌≡◌, refl, false, Option, none, some, List, [], ◌∷◌, ◌++◌, Bytes, codes, All, if◌then◌else◌,
  Bool-cases, inl, inr,
}
use hassio_installer.Prelude.Int.{ℤ}
use hassio_installer.LegacyError.{Libc, State, is_zero, Result, text_of, reported, Call, error_call}
use hassio_installer.LegacyError.{error as legacy_error}
use hassio_installer.LegacyError.Printed.{calls, started, then_calls}
use hassio_installer.LegacyError.{call}
use hassio_installer.ErrorHeaders.{Counted, elfutils_error, Err, errfunc, warnfunc, kbd_error}

-- A call, with the value of `errno` that it meets.
pub record Message : Type 0 where
  pub errno : ℤ
  pub status : ℤ
  pub errnum : ℤ
  pub text : Bytes

-- The calls behind one, unless it ended the program.
abbrev pub unless_ended : {S : Type 0} → S × Option ℤ → (S → S × Option ℤ) → S × Option ℤ
unless_ended (st, none) go = go st
unless_ended (st, some status) go = (st, some status)

-- Two programs that go on alike, from states of which one is a view of the other.
unless_ended_view :
    {S : Type 0} {V : Type 0} (view : S → V) (go : S → S × Option ℤ) (see : V → V × Option ℤ)
    → ((st : S) → see (view st) ≡ (view (go st).0, (go st).1))
    → (r : S × Option ℤ)
    → unless_ended (view r.0, r.1) see ≡ (view (unless_ended r go).0, (unless_ended r go).1)
unless_ended_view view go see h (st, none) = h st
unless_ended_view view go see h (st, some status) = refl

unfoldable pub elfutils_run : Libc → List Message → Counted → Counted × Option ℤ
unfolding elfutils_error
elfutils_run libc [] st = (st, none)
elfutils_run libc (m ∷ ms) st =
    unless_ended (elfutils_error libc m.status m.errnum m.text st) (elfutils_run libc ms)

unfoldable pub kbd_run : Err → List Message → List Bytes → List Bytes × Option ℤ
unfolding kbd_error
kbd_run h [] out = (out, none)
kbd_run h (m ∷ ms) out =
    unless_ended (kbd_error h m.errno m.status m.errnum m.text out) (kbd_run h ms)

-- The same call with the number that kbd's header reads.
abbrev pub by_errno : Message → Message
by_errno m = record m { errnum = if is_zero m.errnum then m.errnum else m.errno }

-- What the manual says of <err.h>: the name of the program, the text, the message of `errno` in the
-- functions without an x, and the status as it was given.
abbrev pub line : Libc → Bytes → Bytes
line libc text = libc.program_invocation_name ++ (codes ": " ++ text)

pub record IsErr (libc : Libc) (h : Err) : Type 0 where
  pub vwarn :
      (errno : ℤ) (text : Bytes)
      → h.vwarn errno text ≡ line libc (text ++ ((codes ": " ++ libc.strerror errno) ++ codes "\n"))
  pub vwarnx : (text : Bytes) → h.vwarnx text ≡ line libc (text ++ ([] ++ codes "\n"))
  pub verr :
      (errno status : ℤ) (text : Bytes) → h.verr errno status text ≡ (h.vwarn errno text, status)
  pub verrx : (status : ℤ) (text : Bytes) → h.verrx status text ≡ (h.vwarnx text, status)

-- A call that names an error meets one in `errno`.
abbrev pub MeetsError : Message → Type 0
MeetsError m = is_zero m.errnum ≡ false → is_zero m.errno ≡ false

kbd_error-elfutils_error :
    (libc : Libc) (h : Err) (m : Message) (st : Counted)
    → IsErr libc h
    → MeetsError m
    → kbd_error h m.errno m.status m.errnum m.text st.stderr ≡ (
      (elfutils_error libc m.status (by_errno m).errnum m.text st).0.stderr,
      (elfutils_error libc m.status (by_errno m).errnum m.text st).1,
    )
unfolding kbd_error elfutils_error errfunc warnfunc
kbd_error-elfutils_error libc h m st d meets = elim (Bool-cases (is_zero m.errnum)) [
  | inl e ↦ elim (Bool-cases (is_zero m.status)) [
    | inl s ↦ rw (kbd_error, errfunc, warnfunc, e, e, s, d.vwarnx m.text) refl
    | inr s ↦
        rw (kbd_error, errfunc, warnfunc, e, e, s, d.verrx m.status m.text, d.vwarnx m.text) refl
  ]
  | inr e ↦ elim (Bool-cases (is_zero m.status)) [
    | inl s ↦ rw (kbd_error, errfunc, warnfunc, e, s, meets e, d.vwarn m.errno m.text) refl
    | inr s ↦
        rw
          (
            kbd_error,
            errfunc,
            warnfunc,
            e,
            s,
            meets e,
            d.verr m.errno m.status m.text,
            d.vwarn m.errno m.text,
          )
          refl
  ]
]

kbd_run-elfutils_run :
    (libc : Libc) (h : Err) (ms : List Message) (st : Counted)
    → IsErr libc h
    → All MeetsError ms
    → kbd_run h ms st.stderr ≡ (
      (elfutils_run libc (map by_errno ms) st).0.stderr,
      (elfutils_run libc (map by_errno ms) st).1,
    )
unfolding kbd_run elfutils_run
kbd_run-elfutils_run libc h [] st d meets = refl
kbd_run-elfutils_run libc h (m ∷ ms) st d (meet, meets) =
    rw (kbd_run, elfutils_run, kbd_error-elfutils_error libc h m st d meet)
      (unless_ended_view (λ x. x.stderr) (elfutils_run libc (map by_errno ms)) (kbd_run h ms)
        (λ next. kbd_run-elfutils_run libc h ms next d meets) _)

abbrev pub fresh : Counted
fresh = record { error_message_count = 0; stderr = [] }

-- A call of the `error` of musl-legacy-error.
abbrev pub legacy_call : Message → Call
legacy_call m = error_call m.status m.errnum m.text

-- The state of musl-legacy-error, as elfutils has it.
abbrev pub counted : State → Counted
counted st = record { error_message_count = st.error_message_count; stderr = st.stderr }

legacy_error-elfutils_error :
    (libc : Libc) (status errnum : ℤ) (text : Bytes) (st : State)
    → elfutils_error libc status errnum text (counted st) ≡ (
      counted (legacy_error libc status errnum text st).0,
      (legacy_error libc status errnum text st).1,
    )
unfolding legacy_error elfutils_error reported text_of
legacy_error-elfutils_error libc status errnum text st = refl

then_calls-unless_ended :
    (libc : Libc) (cs : List Call) (r : Result)
    → then_calls libc cs r ≡ unless_ended r (calls libc cs)
then_calls-unless_ended libc cs (st, none) = refl
then_calls-unless_ended libc cs (st, some status) = refl

calls-unless_ended :
    (libc : Libc) (c : Call) (cs : List Call) (st : State)
    → calls libc (c ∷ cs) st ≡ unless_ended (call libc c st) (calls libc cs)
unfolding calls
calls-unless_ended libc c cs st = then_calls-unless_ended libc cs (call libc c st)

calls-elfutils_run :
    (libc : Libc) (ms : List Message) (st : State)
    → elfutils_run libc ms (counted st)
      ≡ (counted (calls libc (map legacy_call ms) st).0, (calls libc (map legacy_call ms) st).1)
unfolding elfutils_run calls
calls-elfutils_run libc [] st = refl
calls-elfutils_run libc (m ∷ ms) st =
    let r = call libc (legacy_call m) st in
    rw
      (
        elfutils_run,
        legacy_error-elfutils_error libc m.status m.errnum m.text st,
        calls-unless_ended libc (legacy_call m) (map legacy_call ms) st,
      )
      (unfold call in
        unless_ended_view counted (calls libc (map legacy_call ms)) (elfutils_run libc ms)
          (calls-elfutils_run libc ms) r)

-- A program that calls `error` any number of times, up to a call that ends it. The header of
-- elfutils writes the same lines as that of musl-legacy-error, counts them alike and ends alike.
-- The header of kbd writes and ends as if each call had named the error of `errno` in place of its
-- own: that is so if `errno` holds one at each call that names an error, and <err.h> does what its
-- manual says, for a program that it knows by the name that the program was invoked by.
pub headers_agree :
    (libc : Libc) (h : Err) (ms : List Message) (single : Bool)
    → IsErr libc h
    → All MeetsError ms
    → (elfutils_run libc ms fresh ≡ (
      counted (calls libc (map legacy_call ms) (started single)).0,
      (calls libc (map legacy_call ms) (started single)).1,
    ))
      × (kbd_run h ms [] ≡ (
        (elfutils_run libc (map by_errno ms) fresh).0.stderr,
        (elfutils_run libc (map by_errno ms) fresh).1,
      ))
headers_agree libc h ms single d meets =
    (calls-elfutils_run libc ms (started single), kbd_run-elfutils_run libc h ms fresh d meets)
