-- ===== src/Getent/Program.antt =====
-- Of getent.c.
-- The whole program on any arguments.
use mathlib.Core.List.{map}
use hassio_installer.Prelude.{
  ◌≡◌, ◌≢◌, ◌⊎◌, inl, inr, refl, ap, false, none, some, List, [], ◌∷◌, Bytes, codes, All, Outcome,
  done, fault, Bool-cases, arith,
}
use hassio_installer.Getent.Types.{Library, Netent}
use hassio_installer.Getent.Print.{networksprint}
use hassio_installer.Getent.Replies.{reply, ok, notfound, bytes_eq}
use hassio_installer.Getent.Databases.{find_network, networks}
use hassio_installer.Getent.{Getentdb, Run, databases, usage_text, used, replied, called, main}
use hassio_installer.Getent.Lookup.{bytes_eq_iff, networks_inverted}
use hassio_installer.Getent.Answers.{
  Database, by_ether, by_group, by_host, by_passwd, by_protocol, by_service, by_shadow, by_shell,
  look_up, line, enumerated, Answers, main-Answers, each_entry-map,
}
use hassio_installer.Getent.Answers.{name_of as database_name}
use hassio_installer.Getent.Addresses.{Family, any_family, ipv4, ipv6, Addressed, main-Addressed}
use hassio_installer.Getent.Addresses.{name_of as family_name}
use hassio_installer.Getent.Dispatch.{main_unknown_database}

-- What a program's run comes to.
pub data Runs (lib : Library) (arg0 : Bytes) (args : List Bytes) (o : Outcome Run) : Type 0 where
  no_name :
      args ≡ [] → o ≡ done (used none (usage_text arg0 (databases lib))) → Runs lib arg0 args o
  unknown_name :
      (name : Bytes) (keys : List Bytes)
      → args ≡ name ∷ keys
      → All (λ d. d.name ≢ name) (databases lib)
      → o ≡ done (used (some name) (usage_text arg0 (databases lib)))
      → Runs lib arg0 args o
  looks_up :
      (d : Database) (keys : List Bytes)
      → args ≡ database_name d ∷ keys
      → Answers (look_up lib d) (line lib d) (enumerated lib d) keys o
      → Runs lib arg0 args o
  finds_addresses :
      (f : Family) (keys : List Bytes)
      → args ≡ family_name f ∷ keys
      → Addressed lib f keys o
      → Runs lib arg0 args o
  lists_networks :
      args ≡ codes "networks" ∷ []
      → o ≡ done (replied (reply (map (networksprint lib) lib.networks) ok))
      → Runs lib arg0 args o
  hides_network :
      (k : Bytes) (keys : List Bytes) (ne : Netent)
      → args ≡ codes "networks" ∷ k ∷ keys
      → find_network lib k ≡ some ne
      → o ≡ done (replied (reply [] notfound))
      → Runs lib arg0 args o
  reads_null :
      (k : Bytes) (keys : List Bytes)
      → args ≡ codes "networks" ∷ k ∷ keys
      → find_network lib k ≡ none
      → o ≡ fault
      → Runs lib arg0 args o

-- The rows of the table by the way that they answer, in its order.
data Kind : Type 0 where
  entries : Database → Kind
  addresses : Family → Kind
  nets : Kind

abbrev kind_name : Kind → Bytes
kind_name (entries d) = database_name d
kind_name (addresses f) = family_name f
kind_name nets = codes "networks"

abbrev kinds : List Kind
kinds =
    entries by_ether
    ∷ entries by_group
    ∷ entries by_host
    ∷ addresses any_family
    ∷ addresses ipv4
    ∷ addresses ipv6
    ∷ nets
    ∷ entries by_passwd
    ∷ entries by_protocol
    ∷ entries by_service
    ∷ entries by_shadow
    ∷ entries by_shell
    ∷ []

find_kind :
    (name : Bytes) (ks : List Kind)
    → ((k : Kind) × (kind_name k ≡ name)) ⊎ All (λ k. bytes_eq (kind_name k) name ≡ false) ks
find_kind name [] = inr tt
find_kind name (k ∷ ks) = elim (Bool-cases (bytes_eq (kind_name k) name)) [
  | inl e ↦ inl (k, (bytes_eq_iff (kind_name k) name).0 e)
  | inr e ↦ elim (find_kind name ks) [ inl found ↦ inl found | inr rest ↦ inr (e, rest) ]
]

names_apart : (a b : Bytes) → bytes_eq a b ≡ false → a ≢ b
names_apart a b e same = ground (arith, (bytes_eq_iff a b).1 same, e)

names_differ :
    (name : Bytes) (ds : List Getentdb)
    → All (λ d. bytes_eq d.name name ≡ false) ds
    → All (λ d. d.name ≢ name) ds
names_differ name [] h = tt
names_differ name (d ∷ ds) (h, hs) = (names_apart d.name name h, names_differ name ds hs)

networks-Runs :
    (lib : Library) (arg0 : Bytes) (keys : List Bytes)
    → Runs lib arg0 (codes "networks" ∷ keys) (main lib arg0 (codes "networks" ∷ keys))
unfolding main called databases bytes_eq networks
networks-Runs lib arg0 [] = lists_networks refl (
    ap (λ ls. done (replied (reply ls ok)))
      (each_entry-map (λ k. none) (networksprint lib) lib.networks))
networks-Runs lib arg0 (k ∷ keys) = elim (networks_inverted lib k keys) [
  | inl (n, e) ↦ reads_null k keys refl n (rw e refl)
  | inr (ne, h, e) ↦ hides_network k keys ne refl h (rw e refl)
]

kind-Runs :
    (lib : Library) (arg0 : Bytes) (k : Kind) (keys : List Bytes)
    → Runs lib arg0 (kind_name k ∷ keys) (main lib arg0 (kind_name k ∷ keys))
kind-Runs lib arg0 (entries d) keys = looks_up d keys refl (main-Answers lib arg0 d keys)
kind-Runs lib arg0 (addresses f) keys = finds_addresses f keys refl (main-Addressed lib arg0 f keys)
kind-Runs lib arg0 nets keys = networks-Runs lib arg0 keys

-- On any arguments the program ends in one of these ways. Without any, or with a first one that
-- names no database, stderr has the text of `usage` and the status is RV_USAGE. The databases with
-- an entry for a key answer as `Answers` says, those of addresses as `Addressed` does. The networks
-- are all printed if there is no key; with a key, one that is found is reported as missing, and one
-- that is not is read through NULL.
pub main-Runs :
    (lib : Library) (arg0 : Bytes) (args : List Bytes) → Runs lib arg0 args (main lib arg0 args)
main-Runs lib arg0 [] = unfold main in no_name refl refl
main-Runs lib arg0 (name ∷ keys) = elim (find_kind name kinds) [
  | inl (k, e) ↦ rw (← e) (kind-Runs lib arg0 k keys)
  | inr none_of ↦
      let absent : All (λ d. bytes_eq d.name name ≡ false) (databases lib) =
        unfold databases in none_of in
      unknown_name name keys refl (names_differ name (databases lib) absent)
        (main_unknown_database lib arg0 name keys absent)
]
