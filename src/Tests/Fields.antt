-- ===== src/Tests/Fields.antt =====
-- Vectors of the fields of a short string.
use hassio_installer.Prelude.{◌≡◌, refl, ◌∷◌, [], ◌++◌, Bytes, done, codes, none, arith}
use hassio_installer.Argz.{Argz, argz, ok, bytes, argz_stringify}
use hassio_installer.Argz.Vectors.{NoNul, IsVector}
use hassio_installer.Argz.Sep.{argz_create_sep}
use hassio_installer.Argz.Sep.Fields.{pieces}
use hassio_installer.Argz.Sep.Split.{fields, argz_create_sep-fields}
use hassio_installer.Argz.Sep.Joined.{argz_stringify-argz_create_sep}
use hassio_installer.Tests.Vectors.{small}

pub list-NoNul : NoNul (codes "x,,y")
list-NoNul =
    ((λ e. ground arith), ((λ e. ground arith), ((λ e. ground arith), ((λ e. ground arith), tt))))

argz_create_sep-fields_example :
    (a' : Argz) × (argz_create_sep small (codes "x,,y") b',' (argz none 0) ≡ done (ok, a'))
    × IsVector (codes "x" ∷ codes "y" ∷ []) a'
unfolding fields pieces
argz_create_sep-fields_example =
    argz_create_sep-fields small b',' (codes "x,,y") (argz none 0) (λ e. ground arith) list-NoNul
      (omega arith)

pair-NoNul : NoNul (codes "x,y")
pair-NoNul = ((λ e. ground arith), ((λ e. ground arith), ((λ e. ground arith), tt)))

argz_stringify-argz_create_sep_example :
    (a : Argz) × (slack : Bytes) × (argz_create_sep small (codes "x,y") b',' (argz none 0)
      ≡ done (ok, a))
    × (argz_stringify (bytes a.block) a.len b',' ≡ done (codes "x,y" ++ 0 ∷ slack))
unfolding pieces
argz_stringify-argz_create_sep_example =
    argz_stringify-argz_create_sep small b',' b'x' (codes ",y") (argz none 0) (λ e. ground arith)
      (omega arith) pair-NoNul (omega arith) ((λ e. ground arith), tt) refl
