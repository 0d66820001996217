-- ===== src/LegacyError/Printed.antt =====
-- Of error.h.
-- Which messages a run of calls prints.
use mathlib.Core.List.{map}
use hassio_installer.Prelude.{
  ℕ, ◌+◌, ◌%◌, ◌^◌, ◌<◌, ◌≡◌, refl, sym, ◌∙◌, subst, Bool, true, false, ◌&&◌, Option, none, some,
  List, [], ◌∷◌, ◌++◌, append_assoc, append-nil, Bytes, codes, length, ◌==◌, if◌then◌else◌,
  Bool-cases, inl, inr, arith, and_false, if_yes, if_no,
}
use hassio_installer.Prelude.Int.{ℤ}
use hassio_installer.LegacyError.{
  Libc, State, Call, error_call, at_line_call, Result, is_zero, is_at, text_of, reported, error,
  at_line, error_at_line, call,
}

-- The calls of a program in order, up to one that ends it.
unfoldable pub calls : Libc → List Call → State → Result
unfolding call
calls libc [] st = (st, none)
calls libc (c ∷ cs) st =
    let rest = calls libc cs (call libc c st).0 in
    elim (call libc c st).1 [ none ↦ rest | some status ↦ ((call libc c st).0, some status) ]

-- The place of the last call of `error_at_line`.
abbrev pub at_same : Option (ℕ × ℕ) → ℕ → ℕ → Bool
at_same none filename linenum = false
at_same (some (f, l)) filename linenum = linenum == l && filename == f

-- The calls without those that repeat a place, if one message per line is asked for.
unfoldable pub distinct : Bool → Option (ℕ × ℕ) → List Call → List Call
distinct single last [] = []
distinct single last (error_call status errnum text ∷ cs) =
    error_call status errnum text ∷ distinct single last cs
distinct single last (at_line_call status errnum f l text ∷ cs) =
    let again = distinct single last cs in
    let next = distinct single (some (f, l)) cs in
    if single && at_same last f l then again else at_line_call status errnum f l text ∷ next

abbrev pub status_of : Call → ℤ
status_of (error_call status errnum text) = status
status_of (at_line_call status errnum f l text) = status

abbrev pub message : Libc → Call → Bytes
message libc (error_call status errnum text) =
    libc.program_invocation_name ++ (codes ": " ++ text_of libc errnum text)
message libc (at_line_call status errnum f l text) = at_line libc errnum f l text

-- The calls up to the first with a status, and that status.
unfoldable pub up_to_exit : List Call → List Call × Option ℤ
up_to_exit [] = ([], none)
up_to_exit (c ∷ cs) =
    let rest = up_to_exit cs in
    if is_zero (status_of c) then (c ∷ rest.0, rest.1) else (c ∷ [], some (status_of c))

-- A run from a state prints the messages of these calls, counts them, and ends as they do.
abbrev pub Prints : Libc → State → List Call × Option ℤ → Result → Type 0
Prints libc st ps r =
    (r.1 ≡ ps.1)
    × (r.0.stderr ≡ st.stderr ++ map (message libc) ps.0)
    × (r.0.error_message_count ≡ (st.error_message_count + length ps.0) % 2 ^ 32)

abbrev pub started : Bool → State
started single = record {
  error_message_count = 0;
  error_one_per_line = single;
  old_filename = none;
  old_linenum = 0;
  stderr = [];
}

-- What the state keeps of the last place, where it is asked for.
abbrev pub Remembers : Option (ℕ × ℕ) → State → Type 0
Remembers none st = st.old_filename ≡ none
Remembers (some (f, l)) st = (st.old_filename ≡ some f) × (st.old_linenum ≡ l)

abbrev pub then_calls : Libc → List Call → Result → Result
then_calls libc cs r = elim r.1 [ none ↦ calls libc cs r.0 | some status ↦ (r.0, some status) ]

one_message :
    (libc : Libc) (c : Call) (cs ps : List Call) (st : State)
    → Prints libc
        (reported (status_of c) (message libc c) st).0
        (up_to_exit ps)
        (calls libc cs (reported (status_of c) (message libc c) st).0)
    → Prints libc st
        (up_to_exit (c ∷ ps))
        (then_calls libc cs (reported (status_of c) (message libc c) st))
unfolding reported up_to_exit
one_message libc c cs ps st (ends, out, count) = elim (Bool-cases (is_zero (status_of c))) [
  | inl e ↦ rw e (ends, out ∙ append_assoc st.stderr (message libc c ∷ []) _, count ∙ omega arith)
  | inr e ↦ rw e (refl, refl, refl)
]

same_place :
    (last : Option (ℕ × ℕ)) (st : State) (f l : ℕ)
    → Remembers last st
    → (l == st.old_linenum && is_at st.old_filename f) ≡ at_same last f l
same_place none st f l h = rw h (and_false (l == st.old_linenum))
same_place (some (g, k)) st f l (hf, hl) = rw (hf, hl)

distinct-false : (last : Option (ℕ × ℕ)) (cs : List Call) → distinct false last cs ≡ cs
unfolding distinct
distinct-false last [] = refl
distinct-false last (error_call status errnum text ∷ cs) = rw (distinct-false last cs)
distinct-false last (at_line_call status errnum f l text ∷ cs) =
    rw (distinct-false (some (f, l)) cs)

reported-Remembers :
    (last : Option (ℕ × ℕ)) (status : ℤ) (line : Bytes) (st : State)
    → Remembers last st
    → Remembers last (reported status line st).0
unfolding reported
reported-Remembers none status line st h = h
reported-Remembers (some (f, l)) status line st h = h

module _ (libc : Libc) (status errnum : ℤ) (f l : ℕ) (text : Bytes) (st : State) where
  abbrev at : Call
  at = at_line_call status errnum f l text

  call_every :
      st.error_one_per_line ≡ false → call libc at st ≡ reported status (message libc at) st
  unfolding call error_at_line
  call_every e = if_no st.error_one_per_line _ _ e

  call_again :
      st.error_one_per_line ≡ true
      → (l == st.old_linenum && is_at st.old_filename f) ≡ true
      → call libc at st ≡ (st, none)
  unfolding call error_at_line
  call_again e same = if_yes st.error_one_per_line _ _ e ∙ if_yes _ (st, none) _ same

  call_new :
      st.error_one_per_line ≡ true
      → (l == st.old_linenum && is_at st.old_filename f) ≡ false
      → call libc at st
        ≡ reported status (message libc at) (record st { old_filename = some f; old_linenum = l })
  unfolding call error_at_line
  call_new e other = if_yes st.error_one_per_line _ _ e ∙ if_no _ (st, none) _ other

calls_next :
    (libc : Libc) (c : Call) (cs : List Call) (st : State) (ps : List Call × Option ℤ) (r : Result)
    → call libc c st ≡ r
    → Prints libc st ps (then_calls libc cs r)
    → Prints libc st ps (calls libc (c ∷ cs) st)
unfolding calls
calls_next libc c cs st ps r e h = subst (λ z. Prints libc st ps (then_calls libc cs z)) (sym e) h

calls-Prints :
    (libc : Libc) (cs : List Call) (st : State) (last : Option (ℕ × ℕ)) (single : Bool)
    → st.error_one_per_line ≡ single
    → st.error_message_count < 2 ^ 32
    → Remembers last st
    → Prints libc st (up_to_exit (distinct single last cs)) (calls libc cs st)
unfolding calls call error distinct reported
calls-Prints libc [] st last single e small h =
    unfold up_to_exit in (refl, sym (append-nil st.stderr), omega arith)
calls-Prints libc (error_call status errnum text ∷ cs) st last single e small h =
    let c = error_call status errnum text in
    one_message libc c cs (distinct single last cs) st (
      calls-Prints libc cs (reported status (message libc c) st).0 last single e (omega arith)
        (reported-Remembers last status (message libc c) st h))
calls-Prints libc (at_line_call status errnum f l text ∷ cs) st last false e small h =
    let c = at_line_call status errnum f l text in
    let next =
      calls-Prints libc cs (reported status (message libc c) st).0 last false e (omega arith)
        (reported-Remembers last status (message libc c) st h) in
    let same : distinct false last cs ≡ distinct false (some (f, l)) cs =
      distinct-false last cs ∙ sym (distinct-false (some (f, l)) cs) in
    calls_next libc c cs st _ _ (call_every libc status errnum f l text st e)
      (one_message libc c cs (distinct false (some (f, l)) cs) st (rw (← same) next))
calls-Prints libc (at_line_call status errnum f l text ∷ cs) st last true e small h =
    let c = at_line_call status errnum f l text in
    let place = same_place last st f l h in
    elim (Bool-cases (at_same last f l)) [
      | inl again ↦ rw again (
          calls_next libc c cs st _ _ (call_again libc status errnum f l text st e (place ∙ again))
            (calls-Prints libc cs st last true e small h))
      | inr other ↦
          let st' = record st { old_filename = some f; old_linenum = l } in
          let next =
            calls-Prints libc cs (reported status (message libc c) st').0 (some (f, l)) true e
              (omega arith) (refl, refl) in
          rw other (
            calls_next libc c cs st _ _ (call_new libc status errnum f l text st e (place ∙ other))
              (one_message libc c cs (distinct true (some (f, l)) cs) st' next))
    ]

-- Any run of calls, from the start of the program: the messages are those of the calls, without the
-- ones that repeat the place of the call of `error_at_line` before them, if `error_one_per_line` is
-- set, up to the first that is printed with a status, which ends the program; `error_message_count`
-- is their number modulo 2^32.
pub calls-distinct :
    (libc : Libc) (cs : List Call) (single : Bool)
    → Prints libc
        (started single)
        (up_to_exit (distinct single none cs))
        (calls libc cs (started single))
calls-distinct libc cs single =
    calls-Prints libc cs (started single) none single refl (omega arith) refl
