-- ===== src/Getent/Types.antt =====
-- vols/build/aports/main/musl/getent.c: the entries of the C library's databases, and the calls
-- that read these, which are a parameter of the program.
use Prim.Native.Nat.{ℕ}
use hassio_installer.Prelude.{Bool, Option, List, Bytes}
use hassio_installer.Prelude.Int.{ℤ}

-- `struct group`
pub record Group : Type 0 where
  pub gr_name : Bytes
  pub gr_passwd : Bytes
  pub gr_gid : ℕ
  pub gr_mem : List Bytes

-- `struct passwd`
pub record Passwd : Type 0 where
  pub pw_name : Bytes
  pub pw_passwd : Bytes
  pub pw_uid : ℕ
  pub pw_gid : ℕ
  pub pw_gecos : Bytes
  pub pw_dir : Bytes
  pub pw_shell : Bytes

-- `struct hostent`, with the first address; its family is that of the address.
pub record Hostent : Type 0 where
  pub h_addrtype : ℕ
  pub h_addr : Bytes
  pub h_name : Bytes
  pub h_aliases : List Bytes

-- `struct netent`
pub record Netent : Type 0 where
  pub n_name : Bytes
  pub n_aliases : List Bytes
  pub n_addrtype : ℕ
  pub n_net : ℕ

-- `struct protoent`
pub record Protoent : Type 0 where
  pub p_name : Bytes
  pub p_aliases : List Bytes
  pub p_proto : ℕ

-- `struct servent`; the port is in network byte order.
pub record Servent : Type 0 where
  pub s_name : Bytes
  pub s_aliases : List Bytes
  pub s_port : ℕ
  pub s_proto : Bytes

-- `struct addrinfo`, without the list's pointer.
pub record Addrinfo : Type 0 where
  pub ai_family : ℕ
  pub ai_socktype : ℤ
  pub ai_addr : Bytes
  pub ai_canonname : Option Bytes

-- `struct addrinfo hint`: the family, and AI_V4MAPPED besides AI_ADDRCONFIG and AI_CANONNAME.
pub record Hint : Type 0 where
  pub family : ℕ
  pub v4mapped : Bool

-- The C library. A NULL result is `none`; a `get…ent` loop is the list of its answers.
pub record Library : Type 1 where
  pub ether_aton : Bytes → Option ℕ
  pub ether_hostton : Bytes → Option ℕ
  pub ether_ntohost : ℕ → Option Bytes
  pub ether_ntoa : ℕ → Bytes
  pub groups : List Group
  pub getgrgid : ℕ → Option Group
  pub getgrnam : Bytes → Option Group
  pub hosts : List Hostent
  pub inet_pton : ℕ → Bytes → Option Bytes
  pub inet_ntop : ℕ → Bytes → Option Bytes
  pub gethostbyaddr : Bytes → ℕ → Option Hostent
  pub gethostbyname2 : Bytes → ℕ → Option Hostent
  pub getaddrinfo : Bytes → Hint → Option (List Addrinfo)
  pub networks : List Netent
  pub inet_makeaddr : ℕ → Bytes
  pub inet_network : Bytes → Option ℕ
  pub getnetbyaddr : ℕ → Option Netent
  pub getnetbyname : Bytes → Option Netent
  pub passwds : List Passwd
  pub getpwuid : ℕ → Option Passwd
  pub getpwnam : Bytes → Option Passwd
  pub protocols : List Protoent
  pub getprotobynumber : ℕ → Option Protoent
  pub getprotobyname : Bytes → Option Protoent
  pub services : List Servent
  pub getservbyport : ℕ → Option Bytes → Option Servent
  pub getservbyname : Bytes → Option Bytes → Option Servent
  pub Spwd : Type 0
  pub spwds : List Spwd
  pub getspnam : Bytes → Option Spwd
  pub spent_line : Spwd → Bytes
  pub usershells : List Bytes

abbrev pub af_unspec : ℕ
af_unspec = 0

abbrev pub af_inet : ℕ
af_inet = 2

abbrev pub af_inet6 : ℕ
af_inet6 = 10
