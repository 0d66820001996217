-- ===== src/Getent/Print.antt =====
-- vols/build/aports/main/musl/getent.c: `printfmtstrings` and the functions that print an entry. A
-- line is its bytes, with the newline.
use hassio_installer.Prelude.{
  ℕ, ◌+◌, ◌*◌, ◌/◌, ◌%◌, none, some, Option, List, [], ◌∷◌, ◌++◌, Bytes, codes,
}
use hassio_installer.Getent.Number.{decimal, left_field, right_field}
use hassio_installer.Getent.Types.{Group, Passwd, Hostent, Netent, Protoent, Servent, Library}

-- The aliases: the first behind `curpref`, the others behind `sep`.
unfoldable pub aliases : List Bytes → Bytes → Bytes → Bytes
aliases [] curpref sep = []
aliases (s ∷ ss) curpref sep = curpref ++ (s ++ aliases ss sep sep)

-- `head` is what the format makes.
unfoldable pub printfmtstrings : List Bytes → Bytes → Bytes → Bytes → Bytes
unfolding aliases
printfmtstrings strings prefix sep head = head ++ (aliases strings prefix sep ++ codes "\n")

unfoldable pub groupprint : Group → Bytes
unfolding printfmtstrings decimal
groupprint gr =
    printfmtstrings gr.gr_mem (codes ":") (codes ",")
      (gr.gr_name ++ (codes ":" ++ (gr.gr_passwd ++ (codes ":" ++ decimal gr.gr_gid))))

-- `inet_ntop` into `buf`, or "# unknown".
abbrev pub shown : Option Bytes → Bytes
shown none = codes "# unknown"
shown (some buf) = buf

module _ (lib : Library) where
  unfoldable pub hostsprint : Hostent → Bytes
  unfolding printfmtstrings left_field
  hostsprint he =
      printfmtstrings he.h_aliases (codes "  ") (codes " ")
        (left_field 16 (shown (lib.inet_ntop he.h_addrtype he.h_addr)) ++ (codes "  " ++ he.h_name))

  unfoldable pub networksprint : Netent → Bytes
  unfolding printfmtstrings left_field
  networksprint ne = printfmtstrings ne.n_aliases (codes "  ") (codes " ") (
      left_field 16 ne.n_name
      ++ (codes "  " ++ shown (lib.inet_ntop ne.n_addrtype (lib.inet_makeaddr ne.n_net))))

unfoldable pub passwdprint : Passwd → Bytes
unfolding decimal
passwdprint pw =
    pw.pw_name
    ++ (codes ":"
        ++ (pw.pw_passwd
            ++ (codes ":"
                ++ (decimal pw.pw_uid
                    ++ (codes ":"
                        ++ (decimal pw.pw_gid
                            ++ (codes ":"
                                ++ (pw.pw_gecos
                                    ++ (codes ":"
                                        ++ (pw.pw_dir
                                            ++ (codes ":" ++ (pw.pw_shell ++ codes "\n"))))))))))))

unfoldable pub protocolsprint : Protoent → Bytes
unfolding printfmtstrings left_field right_field decimal
protocolsprint pe =
    printfmtstrings pe.p_aliases (codes "  ") (codes " ")
      (left_field 16 pe.p_name ++ (codes "  " ++ right_field 5 (decimal pe.p_proto)))

-- `htons` and `ntohs` of a little-endian host, on an `uint16_t`.
unfoldable pub swap16 : ℕ → ℕ
swap16 n = n % 256 * 256 + n / 256 % 256

unfoldable pub servicesprint : Servent → Bytes
unfolding printfmtstrings left_field right_field decimal swap16
servicesprint se = printfmtstrings se.s_aliases (codes "  ") (codes " ") (
    left_field 16 se.s_name
    ++ (codes "  " ++ (right_field 5 (decimal (swap16 se.s_port)) ++ (codes "/" ++ se.s_proto))))
