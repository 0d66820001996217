-- ===== src/Getent/Databases.antt =====
-- vols/build/aports/main/musl/getent.c: the callbacks of the databases. `keys` are the arguments
-- from argv[2] on; that there are none is `argc == 2`. The calls that open and close a database
-- have no result and are left out.
use hassio_installer.Prelude.{
  ℕ, ◌%◌, ◌^◌, Bool, true, false, Option, none, some, List, [], ◌∷◌, ◌++◌, Bytes, codes, get_or,
  ◌==◌, ◌||◌, if◌then◌else◌, Outcome, done, fault, ◌>>=◌,
}
use hassio_installer.Prelude.Int.{ℤ, pos, negsuc}
use hassio_installer.Getent.Number.{parsenum, left_field}
use hassio_installer.Getent.Types.{
  Library, Group, Passwd, Hostent, Netent, Protoent, Servent, Addrinfo, Hint, af_unspec, af_inet,
  af_inet6,
}
use hassio_installer.Getent.Print.{
  groupprint, hostsprint, networksprint, passwdprint, protocolsprint, servicesprint, swap16, shown,
}
use hassio_installer.Getent.Replies.{
  ok, notfound, noenum, Reply, reply, each_key, each_entry, dump_or_find, bytes_eq,
}

-- `strchr(argv[i], '/')`, and the key cut there.
unfoldable pub cut_slash : Bytes → Bytes × Option Bytes
cut_slash [] = ([], none)
cut_slash (c ∷ s) =
    let (a, b) = cut_slash s in elim (c == b'/') [ true ↦ ([], some s) | false ↦ (c ∷ a, b) ]

-- `socktypes[t]`, NULL where the table has no name.
abbrev pub sock_name : ℕ → Option Bytes
sock_name t =
    get_or
      (none
        ∷ some (codes "STREAM")
        ∷ some (codes "DGRAM")
        ∷ some (codes "RAW")
        ∷ some (codes "RDM")
        ∷ some (codes "SEQPACKET")
        ∷ some (codes "DCCP")
        ∷ none
        ∷ none
        ∷ none
        ∷ some (codes "PACKET")
        ∷ [])
      t none

unfoldable pub sockstr : ℤ → Option Bytes
sockstr (pos t) = sock_name t
sockstr (negsuc t) = none

-- `while ((sh = getusershell()) != NULL)` up to the first that is the key.
unfoldable pub find_shell : List Bytes → Bytes → Option Bytes
unfolding bytes_eq
find_shell [] k = none
find_shell (sh ∷ shs) k = if bytes_eq sh k then some sh else find_shell shs k

-- `r->ai_canonname ?: ""`
abbrev pub canonical : Option Bytes → Bytes
canonical none = []
canonical (some name) = name

module _ (lib : Library) where
  unfoldable pub find_ether : Bytes → Option (ℕ × Bytes)
  find_ether k = elim (lib.ether_aton k) [
    | none ↦ elim (lib.ether_hostton k) [ none ↦ none | some ea ↦ some (ea, k) ]
    | some ea ↦ elim (lib.ether_ntohost ea) [ none ↦ none | some hp ↦ some (ea, hp) ]
  ]

  unfoldable pub print_ether : ℕ × Bytes → Bytes
  print_ether (ea, hp) = left_field 17 (lib.ether_ntoa ea) ++ (codes "  " ++ (hp ++ codes "\n"))

  unfoldable pub ethers : List Bytes → Reply
  unfolding each_key find_ether print_ether
  ethers [] = reply [] noenum
  ethers (k ∷ keys) = each_key find_ether print_ether (k ∷ keys)

  -- `(gid_t)id`, of 32 bits.
  unfoldable pub find_group : Bytes → Option Group
  find_group k = elim (parsenum k) [ none ↦ lib.getgrnam k | some id ↦ lib.getgrgid (id % 2 ^ 32) ]

  unfoldable pub group : List Bytes → Reply
  unfolding dump_or_find find_group
  group = dump_or_find find_group groupprint lib.groups

  find_host_name : Bytes → Option Hostent
  find_host_name k = elim (lib.gethostbyname2 k af_inet6) [
    | none ↦ lib.gethostbyname2 k af_inet
    | some he ↦ some he
  ]

  unfoldable pub find_host : Bytes → Option Hostent
  unfolding find_host_name
  find_host k = elim (lib.inet_pton af_inet6 k) [
    | some addr ↦ lib.gethostbyaddr addr af_inet6
    | none ↦ elim (lib.inet_pton af_inet k) [
      | some addr ↦ lib.gethostbyaddr addr af_inet
      | none ↦ find_host_name k
    ]
  ]

  unfoldable pub hosts : List Bytes → Reply
  unfolding dump_or_find find_host
  hosts = dump_or_find find_host (hostsprint lib) lib.hosts

  -- The name of a socket type without one is read from `sockbuf`, which nothing has written.
  unfoldable pub ahost_line : Addrinfo → Outcome (List Bytes)
  unfolding sockstr
  ahost_line r = elim (r.ai_family == af_inet || r.ai_family == af_inet6) [
    | false ↦ done []
    | true ↦ elim (sockstr r.ai_socktype) [
      | none ↦ fault
      | some name ↦ done (
          (left_field 15 (shown (lib.inet_ntop r.ai_family r.ai_addr))
            ++ (codes " "
                ++ (left_field 6 name ++ (codes " " ++ (canonical r.ai_canonname ++ codes "\n")))))
          ∷ [])
    ]
  ]

  unfoldable pub addr_lines : List Addrinfo → Outcome (List Bytes)
  unfolding ahost_line
  addr_lines [] = done []
  addr_lines (r ∷ res) = do ls ← ahost_line r; rest ← addr_lines res; done (ls ++ rest)

  unfoldable pub each_ahost : Hint → List Bytes → Outcome Reply
  unfolding addr_lines
  each_ahost hint [] = done (reply [] ok)
  each_ahost hint (k ∷ keys) = elim (lib.getaddrinfo k hint) [
    | none ↦ done (reply [] notfound)
    | some res ↦
        addr_lines res >>= λ ls. each_ahost hint keys >>= λ r. done (reply (ls ++ r.out) r.rv)
  ]

  unfoldable pub ahosts_ex : ℕ → Bool → List Bytes → Outcome Reply
  unfolding hosts each_ahost
  ahosts_ex family v4mapped [] = done (hosts [])
  ahosts_ex family v4mapped (k ∷ keys) =
      each_ahost (record { family = family; v4mapped = v4mapped }) (k ∷ keys)

  unfoldable pub ahosts : List Bytes → Outcome Reply
  unfolding ahosts_ex
  ahosts = ahosts_ex af_unspec false

  unfoldable pub ahostsv4 : List Bytes → Outcome Reply
  unfolding ahosts_ex
  ahostsv4 = ahosts_ex af_inet false

  unfoldable pub ahostsv6 : List Bytes → Outcome Reply
  unfolding ahosts_ex
  ahostsv6 = ahosts_ex af_inet6 true

  unfoldable pub find_network : Bytes → Option Netent
  find_network k = elim (lib.inet_network k) [
    | none ↦ lib.getnetbyname k
    | some net ↦ lib.getnetbyaddr net
  ]

  -- The test of the loop is `ne != NULL`, and the print reads through `ne`.
  unfoldable pub each_network : List Bytes → Outcome Reply
  unfolding find_network
  each_network [] = done (reply [] ok)
  each_network (k ∷ keys) = elim (find_network k) [
    | none ↦ fault
    | some ne ↦ done (reply [] notfound)
  ]

  unfoldable pub networks : List Bytes → Outcome Reply
  unfolding each_network each_entry
  networks [] = done (reply (each_entry (λ k. none) (networksprint lib) lib.networks) ok)
  networks (k ∷ keys) = each_network (k ∷ keys)

  -- `(uid_t)id`, of 32 bits.
  unfoldable pub find_passwd : Bytes → Option Passwd
  find_passwd k = elim (parsenum k) [ none ↦ lib.getpwnam k | some id ↦ lib.getpwuid (id % 2 ^ 32) ]

  unfoldable pub passwd : List Bytes → Reply
  unfolding dump_or_find find_passwd
  passwd = dump_or_find find_passwd passwdprint lib.passwds

  -- `(int)id`: the numbers from 2^31 on stand for negative ones, which no protocol has.
  unfoldable pub find_protocol : Bytes → Option Protoent
  find_protocol k = elim (parsenum k) [
    | none ↦ lib.getprotobyname k
    | some id ↦ lib.getprotobynumber (id % 2 ^ 32)
  ]

  unfoldable pub protocols : List Bytes → Reply
  unfolding dump_or_find find_protocol
  protocols = dump_or_find find_protocol protocolsprint lib.protocols

  -- `htons` takes an `uint16_t`.
  unfoldable pub find_service : Bytes → Option Servent
  unfolding cut_slash
  find_service k =
      let (name, proto) = cut_slash k in
      elim (parsenum name) [
        | none ↦ lib.getservbyname name proto
        | some id ↦ lib.getservbyport (swap16 (id % 2 ^ 16)) proto
      ]

  unfoldable pub services : List Bytes → Reply
  unfolding dump_or_find find_service
  services = dump_or_find find_service servicesprint lib.services

  unfoldable pub shadow : List Bytes → Reply
  unfolding dump_or_find
  shadow = dump_or_find lib.getspnam lib.spent_line lib.spwds

  unfoldable pub shells : List Bytes → Reply
  unfolding dump_or_find find_shell
  shells = dump_or_find (find_shell lib.usershells) (λ sh. sh ++ codes "\n") lib.usershells
