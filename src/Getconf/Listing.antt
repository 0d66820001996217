-- ===== src/Getconf/Listing.antt =====
-- Of getconf.c.
-- What `getconf` prints under `-a`.
use Prim.Native.String.{String}
use hassio_installer.Prelude.{
  ◌≡◌, ◌≢◌, refl, ap, Bool, true, false, not, Option, none, some, List, [], ◌∷◌, ◌++◌, append-nil,
  append_assoc, arith, if◌then◌else◌, Bool-cases, inl, inr, All,
}
use hassio_installer.Getconf.{
  System, prints, exits, Run, ends, success, failure, Line, Message, answer, applies, skips, finish,
  mismatch, scan, main,
}
use hassio_installer.Getconf.Table.{Variable, conf_table}
use hassio_installer.Getconf.Query.{Answer-cases, operand}

module _ (sys : System) (p : Option String) where
  -- The lines of a row under `-a`.
  unfoldable pub row_lines : Variable → List Line
  row_lines cp =
      if not (applies cp p)
      then []
      else elim (answer sys none p cp) [ prints ls ↦ ls | exits m ↦ [] ]

  unfoldable pub all_lines : List Variable → List Line
  unfolding row_lines
  all_lines [] = []
  all_lines (cp ∷ cps) = row_lines cp ++ all_lines cps

  -- The row's handler, if it is called, does not end the program.
  abbrev pub Survives : Variable → Type 0
  Survives cp = applies cp p ≡ true → (m : Message) → answer sys none p cp ≢ exits m

  -- How a run under `-a` over these rows ends, with `out` printed before.
  pub data Lists (cps : List Variable) (out : List Line) (r : Run) : Type 0 where
    all_rows :
        All Survives cps
        → r ≡ ends (out ++ all_lines cps) (if sys.stdout_error then failure none else success)
        → Lists cps out r
    ended_by :
        (front back : List Variable) (cp : Variable) (m : Message)
        → cps ≡ front ++ cp ∷ back
        → All Survives front
        → applies cp p ≡ true
        → answer sys none p cp ≡ exits m
        → r ≡ ends (out ++ all_lines front) (failure (some m))
        → Lists cps out r

  -- One more row in front.
  cons-Lists :
      (cp : Variable) (cps : List Variable) (out : List Line) (r : Run)
      → Survives cp
      → Lists cps (out ++ row_lines cp) r
      → Lists (cp ∷ cps) out r
  unfolding all_lines
  cons-Lists cp cps out r h (all_rows hs e) =
      all_rows (h, hs) (rw (← append_assoc out (row_lines cp) (all_lines cps)) e)
  cons-Lists cp cps out r h (ended_by front back c m s hs on x e) =
      ended_by (cp ∷ front) back c m (ap (cp ∷◌) s) (h, hs) on x
        (rw (← append_assoc out (row_lines cp) (all_lines front)) e)

  row_lines_off : (cp : Variable) → applies cp p ≡ false → row_lines cp ≡ []
  unfolding row_lines
  row_lines_off cp off = rw off

  row_lines_on :
      (cp : Variable) (ls : List Line)
      → applies cp p ≡ true
      → answer sys none p cp ≡ prints ls
      → row_lines cp ≡ ls
  unfolding row_lines
  row_lines_on cp ls on r = rw (on, r)

  scan-Lists :
      (cps : List Variable) (found : Bool) (out : List Line)
      → Lists cps out (scan sys none p cps found out)
  unfolding scan skips finish all_lines row_lines mismatch
  scan-Lists [] found out = all_rows tt (rw append-nil)
  scan-Lists (cp ∷ cps) found out = elim (Bool-cases (applies cp p)) [
    | inr off ↦
        let rest : Lists cps (out ++ row_lines cp) (scan sys none p cps found out) =
          rw (row_lines_off cp off, append-nil) (scan-Lists cps found out) in
        rw (scan, off) (cons-Lists cp cps out _ (λ on. absurd (ground arith)) rest)
    | inl on ↦ elim (Answer-cases (answer sys none p cp)) [
      | inl (ls, r) ↦
          let rest : Lists cps (out ++ row_lines cp) (scan sys none p cps true (out ++ ls)) =
            rw (row_lines_on cp ls on r) (scan-Lists cps true (out ++ ls)) in
          rw (scan, on, r) (cons-Lists cp cps out _ (λ x m e. ground (arith, r, e)) rest)
      | inr (m, r) ↦ rw (scan, on, r) (ended_by [] cps cp m refl tt on r (rw append-nil))
    ]
  ]

-- `getconf -a [path]` goes through the rows that the path name suits (those of `pathconf` with a
-- path name, the others without one). Either no handler of these ends the program: then their
-- lines are printed in the order of the table, and the program succeeds unless stdout has an
-- error. Or one does: then the lines of the rows in front of it are printed, and its message ends
-- the program.
pub main-Lists :
    (sys : System) (p : Option String)
    → Lists sys p conf_table [] (main sys false (b'a' ∷ []) (operand p))
unfolding main
main-Lists sys none = scan-Lists sys none conf_table false []
main-Lists sys (some q) = scan-Lists sys (some q) conf_table false []
