-- ===== src/SendmailSh.antt =====
-- vols/build/aports/community/mini-sendmail/sh.c: a `sh -c` that runs one command without a shell.
-- The array `args` is its cells; strdup() gives a copy or, without memory, NULL. What execvp() is
-- called with is the result, since it does not return but on failure.
pub mod Words
use hassio_installer.Prelude.{
  ℕ, zero, suc, ◌+◌, Bool, true, false, Option, none, some, List, [], ◌∷◌, Bytes, codes, replicate,
  length, get_elem?, leb, ◌==◌, if◌then◌else◌, Outcome, done, fault, access, ◌>>=◌, ◌&&◌,
}

abbrev pub maxarg : ℕ
maxarg = 64

abbrev pub Args : Type 0
Args = List (Option Bytes)

pub data Ended : Type 0 where
  returned : ℕ → Ended
  execvp : Option Bytes → Args → Ended

-- `strsep(&argStr, " ")`: the token, and what argStr is then.
unfoldable pub strsep : Bytes → Bytes × Option Bytes
strsep [] = ([], none)
strsep (c ∷ s) = let rest = strsep s in if c == b' ' then ([], some s) else (c ∷ rest.0, rest.1)

-- `args[i] = token`; behind the last cell it is a fault.
unfoldable pub set_arg : ℕ → Bytes → Args → Outcome Args
set_arg i token [] = fault
set_arg zero token (a ∷ args) = done (some token ∷ args)
set_arg (suc i) token (a ∷ args) = set_arg i token args >>= λ args'. done (a ∷ args')

-- `if (token && strlen(token)) args[i++] = token;`
unfoldable pub add_token : Bytes → ℕ → Args → Outcome (ℕ × Args)
unfolding set_arg
add_token [] i args = done (i, args)
add_token (c ∷ token) i args = set_arg i (c ∷ token) args >>= λ args'. done (i + 1, args')

-- The loop, on fuel, out of which is a fault; `none` is `return 2`.
unfoldable pub split : ℕ → Option Bytes → ℕ → Args → Outcome (Option Args)
unfolding strsep add_token
split zero str i args = fault
split (suc fuel) none i args = done (some args)
split (suc fuel) (some str) i args =
    let (token, rest) = strsep str in
    add_token token i args >>= λ r.
    (let again = split fuel rest r.0 r.1 in if leb maxarg r.0 then done none else again)

unfoldable pub run : Option Args → Outcome Ended
run none = done (returned 2)
run (some args) = access (get_elem? args 0) >>= λ first. done (execvp first args)

-- strcmp() == 0
unfoldable pub streq : Bytes → Bytes → Bool
streq [] [] = true
streq (c ∷ s) (d ∷ t) = c == d && streq s t
streq _ _ = false

-- The turns are at most one more than the command has bytes, and one for the end.
unfoldable pub main : (Bytes → Option Bytes) → List Bytes → Outcome Ended
unfolding split run streq
main strdup (name ∷ flag ∷ command ∷ more) =
    if streq flag (codes "-c")
    then split (length command + 2) (strdup command) 0 (replicate maxarg none) >>= run
    else done (returned 1)
main strdup _ = done (returned 1)
