-- ===== src/Tests/Histories.antt =====
-- A short history of a vector.
use hassio_installer.Prelude.{◌≡◌, ◌⊎◌, ◌∷◌, [], ◌++◌, List, done, codes, none, arith, All}
use hassio_installer.Argz.{Argz, argz, ok, enomem}
use hassio_installer.Argz.Sep.Split.{fields}
use hassio_installer.Argz.Sep.Fields.{pieces}
use hassio_installer.Argz.Replace.Rewrite.{replaced, Refuses}
use hassio_installer.Argz.Replace.{starts_with}
use hassio_installer.Argz.Client.{Op, insert, delete, add_sep, replace, run, apply, replay}
use hassio_installer.Argz.Client.Changes.{Legal}
use hassio_installer.Argz.Client.History.{Sized, Reads, Finds, run-replay}
use hassio_installer.Tests.Vectors.{small}
use hassio_installer.Tests.Fields.{list-NoNul}

-- "x" and "y", "b" between them, without the first, and with "ok" for "y".
abbrev changes : List Op
changes =
    add_sep (codes "x,,y") b','
    ∷ insert 1 (codes "b")
    ∷ delete 0
    ∷ replace b'y' [] (codes "ok")
    ∷ []

changes-Legal : All Legal changes
changes-Legal = (
  (list-NoNul, (λ e. ground arith), omega arith),
  (((λ e. ground arith), tt), (tt, (((λ e. ground arith), ((λ e. ground arith), tt)), tt))),
)

changes-Sized : Sized changes []
unfolding apply fields pieces replaced starts_with
changes-Sized = (omega arith, (omega arith, (omega arith, (omega arith, omega arith))))

run-replay_example :
    ((a : Argz) × (run small changes (argz none 0) ≡ done (ok, a))
      × Reads (codes "b" ∷ codes "ok" ∷ []) a)
    ⊎ ((before after : List Op) × (op : Op) × (a : Argz) × (changes ≡ before ++ op ∷ after)
        × (run small changes (argz none 0) ≡ done (enomem, a))
        × Finds op (replay before []) a
        × Refuses small)
unfolding replay fields pieces replaced starts_with
run-replay_example = run-replay small changes changes-Legal changes-Sized
