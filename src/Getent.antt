-- ===== src/Getent.antt =====
-- vols/build/aports/main/musl/getent.c: the table of databases, `usage` and `main`.
pub mod Types
pub mod Number
pub mod Print
pub mod Replies
pub mod Databases
pub mod Lookup
pub mod Numeric
pub mod Dispatch
pub mod Answers
pub mod Addresses
pub mod Program
use hassio_installer.Prelude.{
  ℕ, suc, ◌+◌, ◌%◌, Option, none, some, List, [], ◌∷◌, ◌++◌, Bytes, codes, if◌then◌else◌, ◌==◌,
  true, false, Outcome, done, ◌>>=◌,
}
use hassio_installer.Getent.Types.{Library}
use hassio_installer.Getent.Replies.{Rv, usage, Reply, reply, bytes_eq}
use hassio_installer.Getent.Databases.{
  ethers, group, hosts, ahosts, ahostsv4, ahostsv6, networks, passwd, protocols, services, shadow,
  shells,
}

-- A row of `databases`.
pub record Getentdb : Type 0 where
  pub name : Bytes
  pub callback : List Bytes → Outcome Reply

module _ (lib : Library) where
  unfoldable pub databases : List Getentdb
  databases =
      record { name = codes "ethers"; callback = λ keys. done (ethers lib keys) }
      ∷ record { name = codes "group"; callback = λ keys. done (group lib keys) }
      ∷ record { name = codes "hosts"; callback = λ keys. done (hosts lib keys) }
      ∷ record { name = codes "ahosts"; callback = ahosts lib }
      ∷ record { name = codes "ahostsv4"; callback = ahostsv4 lib }
      ∷ record { name = codes "ahostsv6"; callback = ahostsv6 lib }
      ∷ record { name = codes "networks"; callback = networks lib }
      ∷ record { name = codes "passwd"; callback = λ keys. done (passwd lib keys) }
      ∷ record { name = codes "protocols"; callback = λ keys. done (protocols lib keys) }
      ∷ record { name = codes "services"; callback = λ keys. done (services lib keys) }
      ∷ record { name = codes "shadow"; callback = λ keys. done (shadow lib keys) }
      ∷ record { name = codes "shells"; callback = λ keys. done (shells lib keys) }
      ∷ []

-- The names that `usage` lists, seven to a line.
unfoldable pub usage_names : ℕ → List Getentdb → Bytes
usage_names i [] = []
usage_names i (d ∷ ds) =
    (if i % 7 == 0 then codes "\n\t\t" else codes " ") ++ (d.name ++ usage_names (suc i) ds)

-- What `usage` writes to stderr; it then exits with RV_USAGE.
unfoldable pub usage_text : Bytes → List Getentdb → Bytes
unfolding usage_names
usage_text arg0 ds =
    codes "Usage: "
    ++ (arg0
        ++ (codes " database [key ...]\n\tdatabase may be one of:"
            ++ (usage_names 0 ds ++ codes "\n")))

-- The exit status is that of the reply. stderr has the text of `usage`, if it is called, behind a
-- warning that names an unknown database.
pub record Run : Type 0 where
  pub reply : Reply
  pub unknown : Option Bytes
  pub usage_out : Bytes

abbrev pub used : Option Bytes → Bytes → Run
used unknown text = record { reply = reply [] usage; unknown = unknown; usage_out = text }

abbrev pub replied : Reply → Run
replied r = record { reply = r; unknown = none; usage_out = [] }

unfoldable pub called : Bytes → List Getentdb → Bytes → List Getentdb → List Bytes → Outcome Run
unfolding usage_text bytes_eq
called arg0 all name [] keys = done (used (some name) (usage_text arg0 all))
called arg0 all name (d ∷ ds) keys = elim (bytes_eq d.name name) [
  | true ↦ d.callback keys >>= λ r. done (replied r)
  | false ↦ called arg0 all name ds keys
]

-- `argv` without its first element.
unfoldable pub main : Library → Bytes → List Bytes → Outcome Run
unfolding called databases
main lib arg0 [] = done (used none (usage_text arg0 (databases lib)))
main lib arg0 (name ∷ keys) = called arg0 (databases lib) name (databases lib) keys
