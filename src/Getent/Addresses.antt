-- ===== src/Getent/Addresses.antt =====
-- Of getent.c.
-- The whole program on `ahosts`, `ahostsv4` and `ahostsv6`.
use mathlib.Core.List.{map}
use hassio_installer.Prelude.{
  inl, inr, ◌≡◌, ◌≢◌, refl, ap, true, false, ◌||◌, Option, none, some, List, [], ◌∷◌, ◌++◌, Bytes,
  codes, All, arith, Outcome, done, fault, ◌>>=◌, ◌==◌, if◌then◌else◌, Option-cases, Bool-cases,
}
use hassio_installer.Getent.Types.{Library, Addrinfo, Hint, af_unspec, af_inet, af_inet6}
use hassio_installer.Getent.Number.{left_field}
use hassio_installer.Getent.Print.{shown}
use hassio_installer.Getent.Replies.{Reply, reply, ok, notfound, bytes_eq}
use hassio_installer.Getent.Databases.{
  sockstr, canonical, ahost_line, addr_lines, each_ahost, hosts, ahosts_ex, ahosts, ahostsv4,
  ahostsv6,
}
use hassio_installer.Getent.{Run, replied, main, called, databases}

-- An address that is printed, and the name of its socket type, which is to be in the table.
abbrev pub IsInet : Addrinfo → Type 0
IsInet r = (r.ai_family == af_inet || r.ai_family == af_inet6) ≡ true

abbrev pub HasName : Addrinfo → Type 0
HasName r = IsInet r → (name : Bytes) × (sockstr r.ai_socktype ≡ some name)

abbrev pub socket_name : Option Bytes → Bytes
socket_name none = []
socket_name (some name) = name

module _ (lib : Library) where
  -- The lines of the addresses of IPv4 and IPv6, in their order.
  abbrev text : Addrinfo → Bytes → Bytes
  text r name =
      left_field 15 (shown (lib.inet_ntop r.ai_family r.ai_addr))
      ++ (codes " "
          ++ (left_field 6 name ++ (codes " " ++ (canonical r.ai_canonname ++ codes "\n"))))

  unfoldable pub texts : List Addrinfo → List Bytes
  texts [] = []
  texts (r ∷ res) =
      let rest = texts res in
      if r.ai_family == af_inet || r.ai_family == af_inet6
      then text r (socket_name (sockstr r.ai_socktype)) ∷ rest
      else rest

  unfoldable pub all_texts : List (List Addrinfo) → List Bytes
  unfolding texts
  all_texts [] = []
  all_texts (res ∷ ress) = texts res ++ all_texts ress

-- An address of a list is to be printed with a socket type that has no name.
pub record Nameless (res : List Addrinfo) : Type 0 where
  pub front : List Addrinfo
  pub back : List Addrinfo
  pub address : Addrinfo
  pub place : res ≡ front ++ address ∷ back
  pub inet : IsInet address
  pub no_name : sockstr address.ai_socktype ≡ none

module _ (lib : Library) where
  data Lined (res : List Addrinfo) (o : Outcome (List Bytes)) : Type 0 where
    named : All HasName res → o ≡ done (texts lib res) → Lined res o
    nameless : Nameless res → o ≡ fault → Lined res o

  -- One more address, with the lines that it makes.
  cons-Lined :
      (r : Addrinfo) (res : List Addrinfo) (ls : List Bytes) (o : Outcome (List Bytes))
      → HasName r
      → ls ++ texts lib res ≡ texts lib (r ∷ res)
      → Lined res o
      → Lined (r ∷ res) (o >>= λ rest. done (ls ++ rest))
  cons-Lined r res ls o h e (named hs d) = named (h, hs) (rw d (ap done e))
  cons-Lined r res ls o h e (nameless n d) =
      nameless
        (record {
          front = r ∷ n.front;
          back = n.back;
          address = n.address;
          place = ap (r ∷◌) n.place;
          inet = n.inet;
          no_name = n.no_name;
        })
        (rw d refl)

  addr_lines-Lined : (res : List Addrinfo) → Lined res (addr_lines lib res)
  unfolding addr_lines ahost_line texts
  addr_lines-Lined [] = named tt refl
  addr_lines-Lined (r ∷ res) =
      elim (Bool-cases (r.ai_family == af_inet || r.ai_family == af_inet6)) [
        | inr off ↦
            rw (addr_lines, ahost_line, off)
              (cons-Lined r res [] _ (λ on. absurd (ground arith)) (rw (texts, off) refl)
                (addr_lines-Lined res))
        | inl on ↦ elim (Option-cases (sockstr r.ai_socktype)) [
          | inl n ↦
              rw (addr_lines, ahost_line, on, n)
                (nameless
                  (record {
                    front = [];
                    back = res;
                    address = r;
                    place = refl;
                    inet = on;
                    no_name = n;
                  })
                  refl)
          | inr (name, n) ↦
              rw (addr_lines, ahost_line, on, n)
                (cons-Lined r res (text lib r name ∷ []) _ (λ x. (name, n)) (rw (texts, on, n) refl)
                  (addr_lines-Lined res))
        ]
      ]

  -- What the reply to keys is, with the addresses that the host names among them stand for.
  pub data Resolved (hint : Hint) (keys : List Bytes) (o : Outcome Reply) : Type 0 where
    resolves_all :
        (ress : List (List Addrinfo))
        → map (λ k. lib.getaddrinfo k hint) keys ≡ map some ress
        → All (All HasName) ress
        → o ≡ done (reply (all_texts lib ress) ok)
        → Resolved hint keys o
    stops_at :
        (found rest : List Bytes) (k : Bytes) (ress : List (List Addrinfo))
        → keys ≡ found ++ k ∷ rest
        → map (λ k. lib.getaddrinfo k hint) found ≡ map some ress
        → All (All HasName) ress
        → lib.getaddrinfo k hint ≡ none
        → o ≡ done (reply (all_texts lib ress) notfound)
        → Resolved hint keys o
    faults_at :
        (found rest : List Bytes) (k : Bytes) (res : List Addrinfo)
        → keys ≡ found ++ k ∷ rest
        → lib.getaddrinfo k hint ≡ some res
        → Nameless res
        → o ≡ fault
        → Resolved hint keys o

  cons-Resolved :
      (hint : Hint) (k : Bytes) (keys : List Bytes) (res : List Addrinfo) (o : Outcome Reply)
      → lib.getaddrinfo k hint ≡ some res
      → All HasName res
      → Resolved hint keys o
      → Resolved hint (k ∷ keys) (o >>= λ r. done (reply (texts lib res ++ r.out) r.rv))
  unfolding all_texts
  cons-Resolved hint k keys res o h n (resolves_all ress m hs e) =
      resolves_all (res ∷ ress) (rw (h, m)) (n, hs) (rw e refl)
  cons-Resolved hint k keys res o h n (stops_at found rest j ress s m hs x e) =
      stops_at (k ∷ found) rest j (res ∷ ress) (ap (k ∷◌) s) (rw (h, m)) (n, hs) x (rw e refl)
  cons-Resolved hint k keys res o h n (faults_at found rest j bad s x w e) =
      faults_at (k ∷ found) rest j bad (ap (k ∷◌) s) x w (rw e refl)

  each_ahost-Resolved :
      (hint : Hint) (keys : List Bytes) → Resolved hint keys (each_ahost lib hint keys)
  unfolding each_ahost all_texts
  each_ahost-Resolved hint [] = resolves_all [] refl tt refl
  each_ahost-Resolved hint (k ∷ keys) = elim (Option-cases (lib.getaddrinfo k hint)) [
    | inl n ↦ rw (each_ahost, n) (stops_at [] keys k [] refl refl tt n refl)
    | inr (res, h) ↦ elim (addr_lines-Lined res) [
      | nameless w e ↦ rw (each_ahost, h, e) (faults_at [] keys k res refl h w refl)
      | named ns e ↦
          rw (each_ahost, h, e)
            (cons-Resolved hint k keys res _ h ns (each_ahost-Resolved hint keys))
    ]
  ]

-- The databases, with what each asks of getaddrinfo().
pub data Family : Type 0 where
  any_family ipv4 ipv6 : Family

abbrev pub name_of : Family → Bytes
name_of any_family = codes "ahosts"
name_of ipv4 = codes "ahostsv4"
name_of ipv6 = codes "ahostsv6"

abbrev pub hint_of : Family → Hint
hint_of any_family = record { family = af_unspec; v4mapped = false }
hint_of ipv4 = record { family = af_inet; v4mapped = false }
hint_of ipv6 = record { family = af_inet6; v4mapped = true }

pub data Addressed (lib : Library) (f : Family) (keys : List Bytes) (o : Outcome Run) : Type 0 where
  as_hosts : keys ≡ [] → o ≡ done (replied (hosts lib [])) → Addressed lib f keys o
  as_resolved :
      (r : Outcome Reply)
      → keys ≢ []
      → Resolved lib (hint_of f) keys r
      → o ≡ (r >>= λ x. done (replied x))
      → Addressed lib f keys o

-- On one of these names and any keys the whole program does as follows. Without a key it prints
-- what `hosts` prints. With keys, it prints the IPv4 and IPv6 addresses that each key stands for,
-- in the order of the keys, up to one that getaddrinfo() does not know, where it stops with
-- RV_NOTFOUND. It reads a name that was never written only if a key stands for such an address
-- with a type of socket that has no name; else the types of all the addresses that it prints have
-- names.
pub main-Addressed :
    (lib : Library) (arg0 : Bytes) (f : Family) (keys : List Bytes)
    → Addressed lib f keys (main lib arg0 (name_of f ∷ keys))
unfolding main called databases bytes_eq ahosts ahostsv4 ahostsv6 ahosts_ex
main-Addressed lib arg0 any_family [] = as_hosts refl refl
main-Addressed lib arg0 ipv4 [] = as_hosts refl refl
main-Addressed lib arg0 ipv6 [] = as_hosts refl refl
main-Addressed lib arg0 any_family (k ∷ keys) =
    as_resolved _ (λ e. cc) (each_ahost-Resolved lib (hint_of any_family) (k ∷ keys)) refl
main-Addressed lib arg0 ipv4 (k ∷ keys) =
    as_resolved _ (λ e. cc) (each_ahost-Resolved lib (hint_of ipv4) (k ∷ keys)) refl
main-Addressed lib arg0 ipv6 (k ∷ keys) =
    as_resolved _ (λ e. cc) (each_ahost-Resolved lib (hint_of ipv6) (k ∷ keys)) refl
