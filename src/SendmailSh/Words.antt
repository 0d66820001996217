-- ===== src/SendmailSh/Words.antt =====
-- Of sh.c.
-- The words of a command, and the array that they are put into.
use mathlib.Core.List.{map}
use hassio_installer.Prelude.{
  ℕ, zero, suc, ◌+◌, ◌-◌, ◌≤◌, ◌<◌, ◌≡◌, ◌⊎◌, refl, ◌∙◌, ap, true, false, Option, none, some, List,
  [], ◌∷◌, ◌++◌, append_assoc, append-nil, Bytes, length, length-append, replicate, leb, ◌==◌,
  if◌then◌else◌, Outcome, done, arith, codes, Bool-cases, inl, inr, ◌>>=◌, le→leb, le→leb_false,
}
use hassio_installer.SendmailSh.{
  maxarg, Args, Ended, returned, execvp, strsep, set_arg, add_token, split, run, main, streq,
}

-- The parts between the spaces.
unfoldable pub parts : Bytes → List Bytes
parts [] = [] ∷ []
parts (c ∷ s) =
    if c == b' '
    then [] ∷ parts s
    else elim (parts s) [ [] ↦ (c ∷ []) ∷ [] | p ∷ ps ↦ (c ∷ p) ∷ ps ]

abbrev pub words : List Bytes → List Bytes
words [] = []
words ([] ∷ ps) = words ps
words ((c ∷ p) ∷ ps) = (c ∷ p) ∷ words ps

-- What is left behind a token.
abbrev left_of : Option Bytes → List Bytes
left_of none = []
left_of (some s) = parts s

abbrev Shorter : ℕ → Option Bytes → Type 0
Shorter n none = Unit
Shorter n (some s) = length s < n

strsep-parts : (s : Bytes) → parts s ≡ (strsep s).0 ∷ left_of (strsep s).1
unfolding parts strsep
strsep-parts [] = refl
strsep-parts (c ∷ s) = elim (Bool-cases (c == b' ')) [
  | inl e ↦ rw e refl
  | inr e ↦ rw (e, strsep-parts s) refl
]

longer : (n : ℕ) (o : Option Bytes) → Shorter n o → Shorter (suc n) o
longer n none h = tt
longer n (some s) h = omega arith

strsep-Shorter : (s : Bytes) → Shorter (length s) (strsep s).1
unfolding strsep
strsep-Shorter [] = tt
strsep-Shorter (c ∷ s) = elim (Bool-cases (c == b' ')) [
  | inl e ↦ rw e (omega arith)
  | inr e ↦ rw e (longer (length s) (strsep s).1 (strsep-Shorter s))
]

-- The array with some words in it.
abbrev holding : List Bytes → ℕ → Args
holding ws k = map some ws ++ replicate k none

set_arg-holding :
    (ws : List Bytes) (token : Bytes) (k : ℕ)
    → set_arg (length ws) token (holding ws (suc k)) ≡ done (holding (ws ++ token ∷ []) k)
unfolding set_arg
set_arg-holding [] token k = refl
set_arg-holding (w ∷ ws) token k = rw (set_arg-holding ws token k)

-- The array for all the words, or none where there are too many.
abbrev pub array_of : List Bytes → Option Args
array_of ws = if leb maxarg (length ws) then none else some (holding ws (maxarg - length ws))

-- Fuel for the turns.
abbrev Enough : ℕ → Option Bytes → Type 0
Enough n none = 1 ≤ n
Enough n (some s) = length s + 2 ≤ n

Shorter-Enough : (n fuel : ℕ) (o : Option Bytes) → Shorter n o → n + 1 ≤ fuel → Enough fuel o
Shorter-Enough n fuel none h e = omega arith
Shorter-Enough n fuel (some s) h e = omega arith

array_of-few :
    (ws : List Bytes) (k : ℕ) → length ws + suc k ≡ maxarg → some (holding ws (suc k)) ≡ array_of ws
array_of-few ws k e =
    let few : leb maxarg (length ws) ≡ false = le→leb_false _ _ (omega arith) in
    let left : maxarg - length ws ≡ suc k = omega arith in rw (few, left) refl

array_of-many : (ws : List Bytes) → maxarg ≤ length ws → array_of ws ≡ none
array_of-many ws h = rw (le→leb maxarg (length ws) h) refl

-- A turn with a token, when the turns behind it put the rest.
turn_lem :
    (again : ℕ → Args → Outcome (Option Args)) (token : Bytes) (ps ws : List Bytes) (k : ℕ)
    → length ws + suc k ≡ maxarg
    → ((ws' : List Bytes) (k' : ℕ)
        → length ws' + suc k' ≡ maxarg
        → again (length ws') (holding ws' (suc k')) ≡ done (array_of (ws' ++ words ps)))
    → (add_token token (length ws) (holding ws (suc k)) >>= λ r.
        (let rest = again r.0 r.1 in if leb maxarg r.0 then done none else rest))
      ≡ done (array_of (ws ++ words (token ∷ ps)))
unfolding add_token
turn_lem again [] ps ws k room go =
    let few : leb maxarg (length ws) ≡ false = le→leb_false _ _ (omega arith) in
    rw few (go ws k room)
turn_lem again (c ∷ token) ps ws zero room go =
    let many : leb maxarg (length ws + 1) ≡ true = le→leb _ _ (omega arith) in
    let all =
      array_of-many (ws ++ (c ∷ token) ∷ words ps)
        (omega (arith, length-append ws ((c ∷ token) ∷ words ps))) in
    rw (set_arg-holding ws (c ∷ token) zero, many, all)
turn_lem again (c ∷ token) ps ws (suc k) room go =
    let few : leb maxarg (length ws + 1) ≡ false = le→leb_false _ _ (omega arith) in
    let n : length (ws ++ (c ∷ token) ∷ []) ≡ length ws + 1 =
      omega (arith, length-append ws ((c ∷ token) ∷ [])) in
    let next = go (ws ++ (c ∷ token) ∷ []) k (omega arith) in
    rw (set_arg-holding ws (c ∷ token) (suc k), few, ← n)
      (next ∙ ap (λ z. done (array_of z)) (append_assoc ws ((c ∷ token) ∷ []) (words ps)))

split-array_of :
    (fuel : ℕ) (str : Option Bytes) (ws : List Bytes) (k : ℕ)
    → Enough fuel str
    → length ws + suc k ≡ maxarg
    → split fuel str (length ws) (holding ws (suc k)) ≡ done (array_of (ws ++ words (left_of str)))
unfolding split
split-array_of zero none ws k e room = absurd (omega arith)
split-array_of zero (some s) ws k e room = absurd (omega arith)
split-array_of (suc fuel) none ws k e room = rw append-nil (ap done (array_of-few ws k room))
split-array_of (suc fuel) (some s) ws k e room =
    let enough = Shorter-Enough (length s) fuel (strsep s).1 (strsep-Shorter s) (omega arith) in
    rw (strsep-parts s) (
      turn_lem (split fuel (strsep s).1) (strsep s).0 (left_of (strsep s).1) ws k room
        (λ ws' k' room'. split-array_of fuel (strsep s).1 ws' k' enough room'))

-- What becomes of a command of some words: execvp() gets them in order, with the first as the
-- program, and NULL in all of `args` behind them; from 64 words on, nothing is run.
abbrev pub started : List Bytes → Ended
started [] = execvp none (replicate maxarg none)
started (w ∷ ws) =
    if leb maxarg (length (w ∷ ws))
    then returned 2
    else execvp (some w) (map some (w ∷ ws) ++ replicate (maxarg - length (w ∷ ws)) none)

run-array_of : (ws : List Bytes) → run (array_of ws) ≡ done (started ws)
unfolding run
run-array_of [] = refl
run-array_of (w ∷ ws) = elim (Bool-cases (leb maxarg (length (w ∷ ws)))) [
  | inl e ↦ rw e refl
  | inr e ↦ rw e refl
]

-- For `sh -c command` the words are what stands between spaces and is not empty: `main` never
-- writes behind `args`, ends, and starts the command with them, or returns 2 if there are 64 or
-- more. With no memory for the copy of the command there is no word.
pub main-started :
    (strdup : Bytes → Option Bytes) (name command : Bytes) (more : List Bytes)
    → ((s : Bytes) → (strdup s ≡ some s) ⊎ (strdup s ≡ none))
    → (main strdup (name ∷ codes "-c" ∷ command ∷ more) ≡ done (started (words (parts command))))
      ⊎ ((strdup command ≡ none)
          × (main strdup (name ∷ codes "-c" ∷ command ∷ more) ≡ done (started [])))
unfolding main streq
main-started strdup name command more copies = elim (copies command) [
  | inl e ↦ inl (
      rw e (
        rw (split-array_of (length command + 2) (some command) [] 63 (omega arith) (omega arith))
          (run-array_of (words (parts command)))))
  | inr e ↦ inr (
    e,
    rw e (
        rw (split-array_of (length command + 2) none [] 63 (omega arith) (omega arith))
          (run-array_of [])),
  )
]
