-- ===== src/Tests/Entries.antt =====
-- Entries of a small C library: root, one service, one network and no address.
use hassio_installer.Prelude.{
  ℕ, ◌≡◌, ◌≢◌, refl, ◌^◌, ◌≤◌, ◌∷◌, [], All, none, some, Option, Bytes, codes, arith, ◌==◌,
  if◌then◌else◌,
}
use hassio_installer.Getent.{main}
use hassio_installer.Getent.Types.{Library, Passwd, Servent, Netent}
use hassio_installer.Getent.Number.{ulong_max, parsenum, decimal}
use hassio_installer.Getent.Databases.{find_group, find_passwd}
use hassio_installer.Getent.Numeric.{
  IsDigit, value, parsenum_only, parsenum-decimal, find_passwd_wraps,
}
use hassio_installer.Prelude.Int.{pos}
use hassio_installer.Getent.Types.{Addrinfo}
use hassio_installer.Getent.Addresses.{Addressed, ipv4, main-Addressed}
use hassio_installer.Getent.Replies.{bytes_eq}
use hassio_installer.Getent.Program.{Runs, main-Runs}
use hassio_installer.Getent.Answers.{Answers, look_up, line, by_passwd, main-Answers}

abbrev root : Passwd
root = record {
  pw_name = codes "root";
  pw_passwd = codes "x";
  pw_uid = 0;
  pw_gid = 0;
  pw_gecos = codes "root";
  pw_dir = codes "/root";
  pw_shell = codes "/bin/ash";
}

abbrev ssh : Servent
ssh = record { s_name = codes "ssh"; s_aliases = []; s_port = 5632; s_proto = codes "tcp" }

abbrev loopback : Netent
loopback = record { n_name = codes "loopback"; n_aliases = []; n_addrtype = 2; n_net = 127 }

abbrev small : Library
small = record {
  ether_aton = λ s. none;
  ether_hostton = λ s. none;
  ether_ntohost = λ n. none;
  ether_ntoa = λ n. [];
  groups = [];
  getgrgid = λ n. none;
  getgrnam = λ s. none;
  hosts = [];
  inet_pton = λ n s. none;
  inet_ntop = λ n s. none;
  gethostbyaddr = λ s n. none;
  gethostbyname2 = λ s n. none;
  getaddrinfo = λ s h. none;
  networks = loopback ∷ [];
  inet_makeaddr = λ n. [];
  inet_network = λ s. none;
  getnetbyaddr = λ n. none;
  getnetbyname = λ s. some loopback;
  passwds = root ∷ [];
  getpwuid = λ n. if n == 0 then some root else none;
  getpwnam = λ s. none;
  protocols = [];
  getprotobynumber = λ n. none;
  getprotobyname = λ s. none;
  services = ssh ∷ [];
  getservbyport = λ n p. if n == 5632 then some ssh else none;
  getservbyname = λ s p. none;
  Spwd = ℕ;
  spwds = [];
  getspnam = λ s. none;
  spent_line = λ n. [];
  usershells = codes "/bin/ash" ∷ [];
}

-- The look-up by name or id that the small library gives.
abbrev find : Bytes → Option Passwd
find = find_passwd small

seven : parsenum (codes "7") ≡ some 7
unfolding parsenum
seven = refl

parsenum_only_example :
    (codes "7" ≢ []) × All IsDigit (codes "7") × (7 ≡ value (codes "7") 0) × (7 ≤ ulong_max)
parsenum_only_example = parsenum_only (codes "7") seven

parsenum-decimal_example : parsenum (decimal 65534) ≡ some 65534
parsenum-decimal_example = parsenum-decimal 65534 (omega arith)

find_passwd_wraps_example :
    (find_passwd small (decimal (2 ^ 32)) ≡ some root)
    × (find_group small (decimal (2 ^ 32)) ≡ none)
find_passwd_wraps_example = find_passwd_wraps small (2 ^ 32) (omega arith)

-- The second key is a user that the small library does not know.
main-Answers_example :
    Answers
      (look_up small by_passwd)
      (line small by_passwd)
      (some (root ∷ []))
      (codes "0" ∷ codes "guest" ∷ [])
      (main small (codes "getent") (codes "passwd" ∷ codes "0" ∷ codes "guest" ∷ []))
main-Answers_example =
    main-Answers small (codes "getent") by_passwd (codes "0" ∷ codes "guest" ∷ [])

-- Three addresses, of which the last has a type without a name, and one is no address of the net.
abbrev address : ℕ → ℕ → Addrinfo
address family type = record {
  ai_family = family;
  ai_socktype = pos type;
  ai_addr = [];
  ai_canonname = none;
}

abbrev resolving : Library
resolving = record small {
  getaddrinfo =
      λ k h. some (address 2 1 ∷ address 1 7 ∷ (if bytes_eq k [] then address 10 7 ∷ [] else []));
}

main-Addressed_example :
    Addressed resolving ipv4
      (codes "localhost" ∷ [] ∷ [])
      (main resolving (codes "getent") (codes "ahostsv4" ∷ codes "localhost" ∷ [] ∷ []))
main-Addressed_example =
    main-Addressed resolving (codes "getent") ipv4 (codes "localhost" ∷ [] ∷ [])

main-Runs_example :
    Runs small
      (codes "getent")
      (codes "networks" ∷ codes "loopback" ∷ [])
      (main small (codes "getent") (codes "networks" ∷ codes "loopback" ∷ []))
main-Runs_example = main-Runs small (codes "getent") (codes "networks" ∷ codes "loopback" ∷ [])
