-- ===== src/Getent/Dispatch.antt =====
-- Of getent.c.
-- `main` and the table of databases.
use hassio_installer.Prelude.{◌≡◌, refl, false, some, List, [], ◌∷◌, Bytes, All, done, ◌>>=◌}
use hassio_installer.Getent.{Getentdb, databases, usage_text, used, replied, called, main}
use hassio_installer.Getent.Replies.{bytes_eq}
use hassio_installer.Getent.Types.{Library}

-- The callback of the row runs on the keys behind the name, and its reply is the program's.
abbrev pub IsReached : Library → Getentdb → Type 0
IsReached lib d =
    (arg0 : Bytes) (keys : List Bytes)
    → main lib arg0 (d.name ∷ keys) ≡ (d.callback keys >>= λ r. done (replied r))

-- Every row of the table is reached by its name: none is hidden by a row above it.
pub databases-IsReached : (lib : Library) → All (IsReached lib) (databases lib)
unfolding databases main called bytes_eq
databases-IsReached lib = (
  λ a k. refl,
  (
    λ a k. refl,
    (
      λ a k. refl,
      (
        λ a k. refl,
        (
          λ a k. refl,
          (
            λ a k. refl,
            (
              λ a k. refl,
              (λ a k. refl, (λ a k. refl, (λ a k. refl, (λ a k. refl, (λ a k. refl, tt))))),
            ),
          ),
        ),
      ),
    ),
  ),
)

called_unknown :
    (arg0 : Bytes) (all : List Getentdb) (name : Bytes) (ds : List Getentdb) (keys : List Bytes)
    → All (λ d. bytes_eq d.name name ≡ false) ds
    → called arg0 all name ds keys ≡ done (used (some name) (usage_text arg0 all))
unfolding called
called_unknown arg0 all name [] keys h = refl
called_unknown arg0 all name (d ∷ ds) keys (h, hs) =
    rw (h, called) (called_unknown arg0 all name ds keys hs)

-- A name that is in no row ends the program with the text of `usage` and RV_USAGE, and nothing is
-- printed on stdout.
pub main_unknown_database :
    (lib : Library) (arg0 name : Bytes) (keys : List Bytes)
    → All (λ d. bytes_eq d.name name ≡ false) (databases lib)
    → main lib arg0 (name ∷ keys) ≡ done (used (some name) (usage_text arg0 (databases lib)))
unfolding main
main_unknown_database lib arg0 name keys h =
    called_unknown arg0 (databases lib) name (databases lib) keys h
