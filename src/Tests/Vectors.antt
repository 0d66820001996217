-- ===== src/Tests/Vectors.antt =====
-- Vectors of short strings.
use hassio_installer.Prelude.{
  ◌≡◌, ◌↔◌, ◌⊎◌, Option, ℕ, refl, ◌∷◌, [], ◌++◌, All, List, none, some, Bytes, done, fault, codes,
  arith, leb,
}
use hassio_installer.Argz.{Alloc, Argz, argz, ok, argz_delete, argz_insert, enomem}
use mathlib.Core.List.{map}
use hassio_installer.Argz.Replace.{argz_replace}
use hassio_installer.Argz.Replace.Rewrite.{replaced, Refuses}
use hassio_installer.Argz.Replace.Counts.{plus, hits}
use hassio_installer.Argz.Replace.Strings.{argz_replace-replaced}
use hassio_installer.Argz.Vectors.{NoNul, IsVector}
use hassio_installer.Argz.Edit.{argz_delete-IsVector, argz_insert_first_faults}
use hassio_installer.Argz.Insert.{argz_insert-IsVector}

abbrev pub small : Alloc
small = record { grants = λ n. leb n 10; junk = 9 }

-- "ab" and "c", in a block with two bytes more.
abbrev pub two : List Bytes
two = codes "ab" ∷ codes "c" ∷ []

abbrev pub vector : Argz
vector = argz (some (codes "ab" ++ 0 ∷ codes "c" ++ 0 ∷ 9 ∷ 9 ∷ [])) 5

pub two-IsVector : IsVector two vector
two-IsVector = record { len = refl; slack = 9 ∷ 9 ∷ []; holds = refl }

ab-NoNul : NoNul (codes "ab")
ab-NoNul = ((λ e. ground arith), ((λ e. ground arith), tt))

two-NoNul : All NoNul two
two-NoNul = (ab-NoNul, (((λ e. ground arith), tt), tt))

argz_delete-IsVector_example :
    (a' : Argz) × (argz_delete vector (some 3) ≡ done a')
    × IsVector (codes "ab" ∷ []) a'
    × ((codes "ab" ∷ [] ≡ []) ↔ (a'.block ≡ none))
argz_delete-IsVector_example =
    argz_delete-IsVector (codes "ab" ∷ []) [] (codes "c") vector two-IsVector
      ((λ e. ground arith), tt) (omega arith)

argz_insert-IsVector_example :
    (a' : Argz) × (argz_insert small vector (some 3) (codes "d") ≡ done (ok, a'))
    × IsVector (codes "ab" ∷ codes "d" ∷ codes "c" ∷ []) a'
argz_insert-IsVector_example =
    argz_insert-IsVector small (codes "ab" ∷ []) [] (codes "c") (codes "d") vector two-IsVector

argz_insert_first_faults_example : argz_insert small vector (some 1) (codes "d") ≡ fault
argz_insert_first_faults_example =
    argz_insert_first_faults small (codes "c" ∷ []) (codes "ab") (codes "d") vector 1 two-IsVector
      ab-NoNul (omega arith) (omega arith)

x-NoNul : NoNul (codes "x")
x-NoNul = ((λ e. ground arith), tt)

argz_replace-replaced_example :
    ((a' : Argz) × (argz_replace small vector (some (codes "b")) (codes "x") (some 7)
        ≡ done (ok, a', plus (some 7) (hits (codes "b") two)))
      × IsVector (map (replaced (codes "b") (codes "x")) two) a')
    ⊎ ((count' : Option ℕ) × (argz_replace small vector (some (codes "b")) (codes "x") (some 7)
          ≡ done (enomem, vector, count'))
        × Refuses small)
argz_replace-replaced_example =
    argz_replace-replaced small two vector b'b' [] (codes "x") (some 7) two-IsVector two-NoNul
      x-NoNul (omega arith)
