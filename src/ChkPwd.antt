-- ===== src/ChkPwd.antt =====
-- vols/build/aports/community/xfce4-screensaver/xfce4-screensaver-chkpwd.c: the check of the
-- password that the screensaver's dialog sends. The C library's calls are a record of parameters;
-- a string is its bytes before the '\0'. What the uninitialised `encrypted` happens to hold is one
-- of them; to read through it where it is no string is a fault.
pub mod Accepts
use hassio_installer.Prelude.{
  ℕ, zero, suc, ◌+◌, ◌-◌, ◌%◌, ◌∷◌, [], List, Bool, true, false, Option, none, some, Bytes, codes,
  c_string, Outcome, done, fault, aborted, ltb, ◌==◌, if◌then◌else◌,
}
use hassio_installer.Prelude.Int.{ℤ, pos, negsuc}

pub data Disposition : Type 0 where
  -- `sighandler` with SA_RESETHAND, and SIG_IGN.
  handler ignore : Disposition

-- The numbers are Linux's: SIGILL, SIGTRAP, SIGBUS, SIGSEGV; SIGTERM, SIGHUP, SIGINT, SIGQUIT,
-- SIGALRM.
abbrev pub setup_signals : List (ℕ × Disposition)
setup_signals =
    (4, handler)
    ∷ (5, handler)
    ∷ (7, handler)
    ∷ (11, handler)
    ∷ (15, ignore)
    ∷ (1, ignore)
    ∷ (2, ignore)
    ∷ (3, ignore)
    ∷ (14, ignore)
    ∷ []

-- The message of err() or errx(), or the value that main returns.
pub data End : Type 0 where
  failed : Bytes → End
  returned : ℤ → End

-- `errx(sig, ...)` where the signal's number is positive.
unfoldable pub sighandler : ℤ → Option ℤ
sighandler (pos zero) = none
sighandler (pos (suc n)) = some (pos (suc n))
sighandler (negsuc n) = none

-- What the variable holds at first: NULL, a string, or neither.
pub data Pointer : Type 0 where
  null wild : Pointer
  string : Bytes → Pointer

-- An entry is found or not, and its password is a string or NULL.
pub record Libc : Type 0 where
  -- open() of /dev/null at its n-th call.
  pub open_null : ℕ → ℤ
  pub getlogin : Option Bytes
  -- read() of standard input, at most 8191 bytes.
  pub input : Option Bytes
  pub getspnam : Bytes → Option (Option Bytes)
  pub getpwnam : Bytes → Option (Option Bytes)
  pub crypt : Bytes → Bytes → Option Bytes
  pub strcmp : Bytes → Bytes → ℤ
  pub uninitialised : Pointer

-- `while ((fd = open("/dev/null", O_RDWR)) <= 2);` on fuel: the descriptor to close.
unfoldable pub connect : (ℕ → ℤ) → ℕ → ℕ → Option ℕ
connect open_null zero n = none
connect open_null (suc fuel) n =
    let next = connect open_null fuel (n + 1) in
    elim (open_null n) [ pos fd ↦ if ltb 2 fd then some fd else next | negsuc _ ↦ next ]

-- `p && p->sp_pwdp && p->sp_pwdp[0] != '*'`
unfoldable pub shadow_password : Option (Option Bytes) → Option Bytes
shadow_password none = none
shadow_password (some none) = none
shadow_password (some (some [])) = some []
shadow_password (some (some (c ∷ s))) = if c == 42 then none else some (c ∷ s)

-- `p && p->pw_passwd`
unfoldable pub plain_password : Option (Option Bytes) → Option Bytes
plain_password none = none
plain_password (some p) = p

abbrev pub assigned : Pointer → Option Bytes → Pointer
assigned old none = old
assigned old (some e) = string e

-- `encrypted` behind the look-ups, which may assign nothing to it.
unfoldable pub encrypted : Libc → Bytes → Pointer
unfolding shadow_password plain_password
encrypted libc user = elim (shadow_password (libc.getspnam user)) [
  | some e ↦ string e
  | none ↦ assigned libc.uninitialised (plain_password (libc.getpwnam user))
]

-- `s` is what crypt() gives.
unfoldable pub compare_hash : Libc → Bytes → Option Bytes → End
compare_hash libc e none = failed (codes "failed to encrypt password")
compare_hash libc e (some s) = returned (libc.strcmp s e)

unfoldable pub with_encrypted : Libc → Bytes → Pointer → Outcome End
unfolding compare_hash
with_encrypted libc pass null = done (failed (codes "failed to get encrypted password"))
with_encrypted libc pass wild = fault
with_encrypted libc pass (string e) = done (compare_hash libc e (libc.crypt (c_string pass) e))

unfoldable pub with_input : Libc → Bytes → Option Bytes → Outcome End
unfolding encrypted with_encrypted
with_input libc user none = done (failed (codes "error reading password"))
with_input libc user (some pass) = with_encrypted libc pass (encrypted libc user)

unfoldable pub with_login : Libc → Option Bytes → Outcome End
unfolding with_input
with_login libc none = done (failed (codes "failed to get login name"))
with_login libc (some user) = with_input libc user libc.input

-- main behind the loop over the descriptors.
unfoldable pub check : Libc → Outcome End
unfolding with_login
check libc = with_login libc libc.getlogin

-- The status that the parent sees: the low 8 bits, and 1 after err().
unfoldable pub status : End → ℕ
status (failed message) = 1
status (returned (pos n)) = n % 256
status (returned (negsuc n)) = (256 - (n + 1) % 256) % 256

unfoldable pub main : ℕ → Libc → Option (Outcome End)
unfolding connect check
main fuel libc = elim (connect libc.open_null fuel 0) [ none ↦ none | some fd ↦ some (check libc) ]
