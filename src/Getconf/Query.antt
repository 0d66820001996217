-- ===== src/Getconf/Query.antt =====
-- Of getconf.c.
-- What `getconf` prints for one variable.
use Prim.Native.String.{String}
use text.Mathlib.Text.{◌==◌ as str_eq}
use text.Mathlib.TextEquality.{eq_iff}
use hassio_installer.Prelude.{
  ℕ, ◌<◌, ◌^◌, ◌≡◌, refl, ◌∙◌, Bool, true, false, not, ◌&&◌, Option, none, some, List, [], ◌∷◌,
  arith, if◌then◌else◌, Bool-cases, ◌⊎◌, inl, inr, subst,
}
use hassio_installer.Prelude.Int.{to_long, to_ulong-to_long}
use hassio_installer.Getconf.{
  System, Answer, prints, exits, printed, print_uconstant, ulong, Run, ends, success, failure,
  unknown, invalid_type, line, Line, Message, answer, applies, skips, finish, mismatch, scan, main,
}
use hassio_installer.Getconf.Table.{Variable, conf_table}

-- The row of a name.
abbrev pub row_of : String → List Variable → Option Variable
row_of n [] = none
row_of n (cp ∷ cps) = if str_eq n cp.name then some cp else row_of n cps

-- No later row has the name of an earlier one.
abbrev fresh : String → List Variable → Bool
fresh n [] = true
fresh n (cp ∷ cps) = not (str_eq n cp.name) && fresh n cps

distinct : List Variable → Bool
distinct [] = true
distinct (cp ∷ cps) = fresh cp.name cps && distinct cps

conf_table-distinct : distinct conf_table ≡ true
unfolding distinct conf_table
conf_table-distinct = refl

pub Answer-cases :
    (r : Answer) → ((ls : List Line) × (r ≡ prints ls)) ⊎ ((m : Message) × (r ≡ exits m))
Answer-cases (prints ls) = inl (ls, refl)
Answer-cases (exits m) = inr (m, refl)

module _ (sys : System) (n : String) (p : Option String) where
  -- Once the row is passed no other answers.
  scan-fresh :
      (cps : List Variable) (found : Bool) (out : List Line)
      → fresh n cps ≡ true
      → scan sys (some n) p cps found out ≡ finish sys (some n) found out
  unfolding scan skips
  scan-fresh [] found out h = refl
  scan-fresh (cp ∷ cps) found out h = ground (arith, scan-fresh cps found out)

  -- The answer of the row of a name.
  unfoldable pub answered : Variable → Run
  answered cp =
      if not (applies cp p)
      then ends [] (failure (some (invalid_type cp.name)))
      else elim (answer sys (some n) p cp) [
        | prints ls ↦ ends ls (if sys.stdout_error then failure none else success)
        | exits m ↦ ends [] (failure (some m))
      ]

  scan_hit :
      (cp : Variable) (cps : List Variable)
      → str_eq n cp.name ≡ true
      → fresh n cps ≡ true
      → scan sys (some n) p (cp ∷ cps) false [] ≡ answered cp
  unfolding scan skips answered finish mismatch
  scan_hit cp cps e d = elim (Answer-cases (answer sys (some n) p cp)) [
    | inl (ls, r) ↦ ground (arith, scan-fresh cps true ls d)
    | inr (m, r) ↦ ground arith
  ]

  scan_skip :
      (cp : Variable) (cps : List Variable)
      → str_eq n cp.name ≡ false
      → scan sys (some n) p (cp ∷ cps) false [] ≡ scan sys (some n) p cps false []
  unfolding scan skips
  scan_skip cp cps e = ground arith

  scan-row_of :
      (cps : List Variable) (cp : Variable)
      → distinct cps ≡ true
      → row_of n cps ≡ some cp
      → scan sys (some n) p cps false [] ≡ answered cp
  unfolding distinct
  scan-row_of [] cp d e = cc
  scan-row_of (c ∷ cps) cp d e = elim (Bool-cases (str_eq n c.name)) [
    | inl same ↦
        let n_is : n ≡ c.name = (eq_iff n c.name).0 same in
        let first : c ≡ cp = ground arith in
        subst (λ x. scan sys (some n) p (c ∷ cps) false [] ≡ answered x) first
          (scan_hit c cps same (rw n_is (ground arith)))
    | inr other ↦ scan_skip c cps other ∙ scan-row_of cps cp (ground arith) (ground arith)
  ]

  scan_unknown :
      (cps : List Variable)
      → row_of n cps ≡ none
      → scan sys (some n) p cps false [] ≡ ends [] (failure (some (unknown n)))
  unfolding finish
  scan_unknown [] e = unfold scan in refl
  scan_unknown (c ∷ cps) e = elim (Bool-cases (str_eq n c.name)) [
    | inl same ↦ absurd (ground arith)
    | inr other ↦ scan_skip c cps other ∙ scan_unknown cps (ground arith)
  ]

-- The operands behind a variable's name: an optional path name.
abbrev pub operand : Option String → List String
operand none = []
operand (some p) = p ∷ []

-- `getconf name [path]` for a name of the table answers by the row of that name alone: with the
-- handler's line or none, `undefined` where the handler returns -1, and the handler's message where
-- it ends the program; a path name that the row does not suit is an error with no output.
pub main-row_of :
    (sys : System) (n : String) (p : Option String) (cp : Variable)
    → row_of n conf_table ≡ some cp
    → main sys false [] (n ∷ operand p) ≡ answered sys n p cp
unfolding main
main-row_of sys n none cp e = scan-row_of sys n none conf_table cp conf_table-distinct e
main-row_of sys n (some q) cp e = scan-row_of sys n (some q) conf_table cp conf_table-distinct e

-- For a name that is not of the table nothing is printed and the program fails with `unknown
-- variable`.
pub main_unknown :
    (sys : System) (n : String) (p : Option String)
    → row_of n conf_table ≡ none
    → main sys false [] (n ∷ operand p) ≡ ends [] (failure (some (unknown n)))
unfolding main
main_unknown sys n none e = scan_unknown sys n none conf_table e
main_unknown sys n (some q) e = scan_unknown sys n (some q) conf_table e

-- A row of unsigned type prints the header's value exactly, if it is below 2^64, though the table
-- holds it as a `long`.
pub print_uconstant-to_long :
    (sys : System) (all : Bool) (cp : Variable) (n : ℕ)
    → n < 2 ^ 64
    → sys.macro cp.value ≡ to_long n
    → print_uconstant sys all cp ≡ printed (line all cp.name (ulong n) ∷ [])
unfolding print_uconstant
print_uconstant-to_long sys all cp n h e = rw (e, to_ulong-to_long n h)
