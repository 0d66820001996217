-- ===== src/Getconf/Families.antt =====
-- Of getconf.c.
-- Which numbers the program passes to which function of the system.
use Prim.Native.String.{String}
use hassio_installer.Prelude.{
  ℕ, ◌≡◌, refl, Bool, true, false, ◌&&◌, Option, none, some, List, [], ◌∷◌, ◌++◌, Bytes, codes,
  ◌==◌, arith, Bool-cases, inl, inr,
}
use hassio_installer.Getconf.{
  System, Run, Line, handle, answer, applies, skips, finish, mismatch, scan, with_path, operands,
  main, print_constant, print_uconstant, print_sysconf, print_confstr, print_pathconf,
}
use hassio_installer.Getconf.Query.{Answer-cases}
use hassio_installer.Getconf.{path}
use hassio_installer.Getconf.Table.{
  Handler, sysconf, confstr, pathconf, constant, uconstant, Variable, conf_table,
}

abbrev pub begins : Bytes → Bytes → Bool
begins [] s = true
begins (x ∷ p) [] = false
begins (x ∷ p) (c ∷ s) = x == c && begins p s

-- The macros of a handler: those of <unistd.h> have a prefix for each function that takes them.
abbrev pub takes : Handler → String → Bool
takes sysconf v = begins (codes "_SC_") (codes v)
takes confstr v = begins (codes "_CS_") (codes v)
takes pathconf v = begins (codes "_PC_") (codes v)
takes constant v = true
takes uconstant v = true

well_typed : List Variable → Bool
well_typed [] = true
well_typed (cp ∷ cps) = takes cp.type cp.value && well_typed cps

conf_table-well_typed : well_typed conf_table ≡ true
unfolding well_typed conf_table
conf_table-well_typed = refl

-- Two systems with the same headers whose functions answer alike, each on the numbers that its own
-- macros stand for.
pub record Agree (sys other : System) : Type 0 where
  pub macro : (v : String) → sys.macro v ≡ other.macro v
  pub sysconf_of :
      (v : String)
      → takes sysconf v ≡ true
      → sys.sysconf_of (sys.macro v) ≡ other.sysconf_of (sys.macro v)
  pub confstr_size :
      (v : String)
      → takes confstr v ≡ true
      → sys.confstr_size (sys.macro v) ≡ other.confstr_size (sys.macro v)
  pub confstr_text :
      (v : String) (len : ℕ)
      → takes confstr v ≡ true
      → sys.confstr_text (sys.macro v) len ≡ other.confstr_text (sys.macro v) len
  pub pathconf_of :
      (v p : String)
      → takes pathconf v ≡ true
      → sys.pathconf_of p (sys.macro v) ≡ other.pathconf_of p (sys.macro v)
  pub malloc : (n : ℕ) → sys.malloc n ≡ other.malloc n
  pub stdout_error : sys.stdout_error ≡ other.stdout_error

module _ (sys other : System) (agree : Agree sys other) where
  handle-takes :
      (all : Bool) (t : Handler) (cp : Variable) (p : String)
      → takes t cp.value ≡ true
      → handle sys all t cp p ≡ handle other all t cp p
  unfolding handle print_constant print_uconstant print_sysconf print_confstr print_pathconf
  handle-takes all sysconf cp p h = rw (← agree.macro cp.value, agree.sysconf_of cp.value h)
  handle-takes all confstr cp p h =
      let len = (other.confstr_size (sys.macro cp.value)).0 in
      rw (
        print_confstr,
        ← agree.macro cp.value,
        agree.confstr_size cp.value h,
        agree.malloc len,
        agree.confstr_text cp.value len h,
      )
  handle-takes all pathconf cp p h = rw (← agree.macro cp.value, agree.pathconf_of cp.value p h)
  handle-takes all constant cp p h = rw (agree.macro cp.value)
  handle-takes all uconstant cp p h = rw (agree.macro cp.value)

  answer-takes :
      (varname p : Option String) (cp : Variable)
      → takes cp.type cp.value ≡ true
      → answer sys varname p cp ≡ answer other varname p cp
  unfolding answer
  answer-takes none p cp h = rw (answer, handle-takes true cp.type cp (path p) h)
  answer-takes (some n) p cp h = rw (answer, handle-takes false cp.type cp (path p) h)

  skips_same :
      (varname : Option String) (cp : Variable) → skips sys varname cp ≡ skips other varname cp
  unfolding skips
  skips_same none cp = refl
  skips_same (some n) cp = refl

  finish_same :
      (varname : Option String) (found : Bool) (out : List Line)
      → finish sys varname found out ≡ finish other varname found out
  unfolding finish
  finish_same none found out = rw agree.stdout_error
  finish_same (some n) true out = rw agree.stdout_error
  finish_same (some n) false out = refl

  mismatch_same :
      (varname : Option String) (cp : Variable) (out : List Line) (r next : Run)
      → r ≡ next
      → mismatch sys varname cp out r ≡ mismatch other varname cp out next
  unfolding mismatch
  mismatch_same none cp out r next e = e
  mismatch_same (some n) cp out r next e = refl

  scan-well_typed :
      (varname p : Option String) (cps : List Variable) (found : Bool) (out : List Line)
      → well_typed cps ≡ true
      → scan sys varname p cps found out ≡ scan other varname p cps found out
  unfolding scan well_typed
  scan-well_typed varname p [] found out h = finish_same varname found out
  scan-well_typed varname p (cp ∷ cps) found out h =
      let now : takes cp.type cp.value ≡ true = ground arith in
      let later : well_typed cps ≡ true = ground arith in
      let same = answer-takes varname p cp now in
      elim (Bool-cases (skips sys varname cp)) [
        | inl e ↦
            ground (arith, skips_same varname cp, scan-well_typed varname p cps found out later)
        | inr e ↦ elim (Bool-cases (applies cp p)) [
          | inl on ↦ elim (Answer-cases (answer sys varname p cp)) [
            | inl (ls, r) ↦ ground (
              arith,
              skips_same varname cp,
              same,
              scan-well_typed varname p cps true (out ++ ls) later,
            )
            | inr (m, r) ↦ ground (arith, skips_same varname cp, same)
          ]
          | inr off ↦
              let next =
                mismatch_same varname cp out _ _ (scan-well_typed varname p cps found out later) in
              ground (arith, skips_same varname cp, next)
        ]
      ]

  with_path-well_typed :
      (varname : Option String) (args : List String)
      → with_path sys varname args ≡ with_path other varname args
  unfolding with_path
  with_path-well_typed varname [] =
      scan-well_typed varname none conf_table false [] conf_table-well_typed
  with_path-well_typed varname (p ∷ []) =
      scan-well_typed varname (some p) conf_table false [] conf_table-well_typed
  with_path-well_typed varname (p ∷ q ∷ rest) = refl

  operands-well_typed :
      (all : Bool) (args : List String) → operands sys all args ≡ operands other all args
  unfolding operands
  operands-well_typed true args = with_path-well_typed none args
  operands-well_typed false [] = refl
  operands-well_typed false (n ∷ args) = with_path-well_typed (some n) args

-- Whatever its options and operands, the program passes to sysconf() only numbers that macros with
-- _SC_ stand for, to confstr() only those of _CS_ and to pathconf() only those of _PC_: on two
-- systems with the same headers whose functions answer alike on these numbers, it prints and ends
-- alike.
pub main-Agree :
    (sys other : System)
    → Agree sys other
    → (all : Bool) (opts : List ℕ) (args : List String)
    → main sys all opts args ≡ main other all opts args
unfolding main
main-Agree sys other agree all [] args = operands-well_typed sys other agree all args
main-Agree sys other agree all (ch ∷ chs) args = elim (Bool-cases (ch == b'a')) [
  | inl e ↦ rw (main, e) (main-Agree sys other agree true chs args)
  | inr e ↦ rw (main, e) refl
]
