-- ===== src/Getent/Answers.antt =====
-- Of getent.c.
-- The whole program on the databases that print an entry for each key.
use mathlib.Core.List.{map}
use hassio_installer.Prelude.{
  ℕ, inl, inr, ◌≡◌, ◌≢◌, refl, ap, Option, none, some, List, [], ◌∷◌, ◌++◌, Bytes, codes, Outcome,
  done, Option-cases,
}
use hassio_installer.Getent.Types.{Library, Group, Passwd, Hostent, Protoent, Servent}
use hassio_installer.Getent.Print.{
  groupprint, hostsprint, passwdprint, protocolsprint, servicesprint,
}
use hassio_installer.Getent.Replies.{
  Reply, reply, ok, notfound, noenum, before, each_key, each_entry, dump_or_find, bytes_eq,
}
use hassio_installer.Getent.Databases.{
  find_ether, print_ether, ethers, find_group, group, find_host, hosts, find_passwd, passwd,
  find_protocol, protocols, find_service, services, shadow, find_shell, shells,
}
use hassio_installer.Getent.{Run, replied, main, called, databases}

-- These databases, with their entries, the look-up of a key and the line of an entry.
pub data Database : Type 0 where
  by_ether by_group by_host by_passwd by_protocol by_service by_shadow by_shell : Database

abbrev pub name_of : Database → Bytes
name_of by_ether = codes "ethers"
name_of by_group = codes "group"
name_of by_host = codes "hosts"
name_of by_passwd = codes "passwd"
name_of by_protocol = codes "protocols"
name_of by_service = codes "services"
name_of by_shadow = codes "shadow"
name_of by_shell = codes "shells"

module _ (lib : Library) where
  abbrev pub Entry : Database → Type 0
  Entry by_ether = ℕ × Bytes
  Entry by_group = Group
  Entry by_host = Hostent
  Entry by_passwd = Passwd
  Entry by_protocol = Protoent
  Entry by_service = Servent
  Entry by_shadow = lib.Spwd
  Entry by_shell = Bytes

  abbrev pub look_up : (d : Database) → Bytes → Option (Entry d)
  look_up by_ether = find_ether lib
  look_up by_group = find_group lib
  look_up by_host = find_host lib
  look_up by_passwd = find_passwd lib
  look_up by_protocol = find_protocol lib
  look_up by_service = find_service lib
  look_up by_shadow = lib.getspnam
  look_up by_shell = find_shell lib.usershells

  abbrev pub line : (d : Database) → Entry d → Bytes
  line by_ether = print_ether lib
  line by_group = groupprint
  line by_host = hostsprint lib
  line by_passwd = passwdprint
  line by_protocol = protocolsprint
  line by_service = servicesprint
  line by_shadow = lib.spent_line
  line by_shell = λ sh. sh ++ codes "\n"

  -- The entries that a look-up without a key prints, where the C library enumerates them.
  abbrev pub enumerated : (d : Database) → Option (List (Entry d))
  enumerated by_ether = none
  enumerated by_group = some lib.groups
  enumerated by_host = some lib.hosts
  enumerated by_passwd = some lib.passwds
  enumerated by_protocol = some lib.protocols
  enumerated by_service = some lib.services
  enumerated by_shadow = some lib.spwds
  enumerated by_shell = some lib.usershells

-- What the program answers.
pub data Answers {A : Type 0} (find : Bytes → Option A) (print : A → Bytes) (all : Option (List A))
    (keys : List Bytes) (o : Outcome Run) : Type 0 where
  no_enumeration :
      keys ≡ [] → all ≡ none → o ≡ done (replied (reply [] noenum)) → Answers find print all keys o
  prints_all :
      (es : List A)
      → keys ≡ []
      → all ≡ some es
      → o ≡ done (replied (reply (map print es) ok))
      → Answers find print all keys o
  prints_keys :
      (es : List A)
      → keys ≢ []
      → map find keys ≡ map some es
      → o ≡ done (replied (reply (map print es) ok))
      → Answers find print all keys o
  stops_at :
      (found rest : List Bytes) (k : Bytes) (es : List A)
      → keys ≡ found ++ k ∷ rest
      → map find found ≡ map some es
      → find k ≡ none
      → o ≡ done (replied (reply (map print es) notfound))
      → Answers find print all keys o

module _ {A : Type 0} (find : Bytes → Option A) (print : A → Bytes) where
  -- The reply to keys: an entry for each, or for those before the first that is missing.
  data Keyed (keys : List Bytes) (r : Reply) : Type 0 where
    found_all :
        (es : List A) → map find keys ≡ map some es → r ≡ reply (map print es) ok → Keyed keys r
    missing :
        (found rest : List Bytes) (k : Bytes) (es : List A)
        → keys ≡ found ++ k ∷ rest
        → map find found ≡ map some es
        → find k ≡ none
        → r ≡ reply (map print es) notfound
        → Keyed keys r

  before-Keyed :
      (k : Bytes) (e : A) (keys : List Bytes) (r : Reply)
      → find k ≡ some e
      → Keyed keys r
      → Keyed (k ∷ keys) (before (print e) r)
  before-Keyed k e keys r h (found_all es m o) = found_all (e ∷ es) (rw (h, m)) (rw o)
  before-Keyed k e keys r h (missing found rest j es s m n o) =
      missing (k ∷ found) rest j (e ∷ es) (ap (k ∷◌) s) (rw (h, m)) n (rw o)

  each_key-Keyed : (keys : List Bytes) → Keyed keys (each_key find print keys)
  unfolding each_key
  each_key-Keyed [] = found_all [] refl refl
  each_key-Keyed (k ∷ keys) = elim (Option-cases (find k)) [
    | inl n ↦ rw (each_key, n) (missing [] keys k [] refl refl n refl)
    | inr (e, h) ↦ rw (each_key, h) (before-Keyed k e keys _ h (each_key-Keyed keys))
  ]

  pub each_entry-map : (es : List A) → each_entry find print es ≡ map print es
  unfolding each_entry
  each_entry-map [] = refl
  each_entry-map (e ∷ es) = ap (print e ∷◌) (each_entry-map es)

module _ {A : Type 0} (find : Bytes → Option A) (print : A → Bytes) where
  Keyed-Answers :
      (all : Option (List A)) (k : Bytes) (keys : List Bytes) (r : Reply)
      → Keyed find print (k ∷ keys) r
      → Answers find print all (k ∷ keys) (done (replied r))
  Keyed-Answers all k keys r (found_all es m o) =
      prints_keys es (λ e. cc) m (ap (λ x. done (replied x)) o)
  Keyed-Answers all k keys r (missing found rest j es s m n o) =
      stops_at found rest j es s m n (ap (λ x. done (replied x)) o)

  dump_or_find-Answers :
      (es : List A) (keys : List Bytes)
      → Answers find print (some es) keys (done (replied (dump_or_find find print es keys)))
  unfolding dump_or_find
  dump_or_find-Answers es [] =
      prints_all es refl refl (ap (λ x. done (replied (reply x ok))) (each_entry-map find print es))
  dump_or_find-Answers es (k ∷ keys) =
      Keyed-Answers (some es) k keys _ (each_key-Keyed find print (k ∷ keys))

-- On the name of one of these databases and any keys, the whole program ends in one of four ways.
-- Without a key it prints all entries, or returns RV_NOENUM where there is no enumeration. With
-- keys it prints the entry of each, in their order; or at the first key that is not found it stops
-- with RV_NOTFOUND behind the entries of those in front of it.
pub main-Answers :
    (lib : Library) (arg0 : Bytes) (d : Database) (keys : List Bytes)
    → Answers
        (look_up lib d)
        (line lib d)
        (enumerated lib d)
        keys
        (main lib arg0 (name_of d ∷ keys))
unfolding main called databases bytes_eq ethers group hosts passwd protocols services shadow shells
main-Answers lib arg0 by_ether [] = no_enumeration refl refl refl
main-Answers lib arg0 by_ether (k ∷ keys) =
    Keyed-Answers (find_ether lib) (print_ether lib) none k keys _
      (each_key-Keyed (find_ether lib) (print_ether lib) (k ∷ keys))
main-Answers lib arg0 by_group keys =
    dump_or_find-Answers (find_group lib) groupprint lib.groups keys
main-Answers lib arg0 by_host keys =
    dump_or_find-Answers (find_host lib) (hostsprint lib) lib.hosts keys
main-Answers lib arg0 by_passwd keys =
    dump_or_find-Answers (find_passwd lib) passwdprint lib.passwds keys
main-Answers lib arg0 by_protocol keys =
    dump_or_find-Answers (find_protocol lib) protocolsprint lib.protocols keys
main-Answers lib arg0 by_service keys =
    dump_or_find-Answers (find_service lib) servicesprint lib.services keys
main-Answers lib arg0 by_shadow keys =
    dump_or_find-Answers lib.getspnam lib.spent_line lib.spwds keys
main-Answers lib arg0 by_shell keys =
    dump_or_find-Answers (find_shell lib.usershells) (line lib by_shell) lib.usershells keys
