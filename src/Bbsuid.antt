-- ===== src/Bbsuid.antt =====
-- vols/build/aports/main/busybox/bbsuid.c: the setuid front of busybox, which hands only the
-- applets of its list to /bin/busybox. A C string is its bytes before the '\0'. The system calls
-- are parameters, and the calls that change the system are returned in order.
pub mod Guard
use hassio_installer.Prelude.{
  ℕ, zero, suc, ◌+◌, ◌∷◌, [], ◌++◌, List, Bool, true, false, ◌&&◌, ◌||◌, not, Option, none, some,
  Bytes, codes, ◌==◌, if◌then◌else◌,
}

abbrev pub slash : ℕ
slash = 47

abbrev pub busybox : Bytes
busybox = codes "/bin/busybox"

abbrev pub bbsuid_path : Bytes
bbsuid_path = codes "/bin/bbsuid"

abbrev pub applets : List Bytes
applets =
    codes "/bin/mount"
    ∷ codes "/bin/umount"
    ∷ codes "/bin/su"
    ∷ codes "/usr/bin/crontab"
    ∷ codes "/usr/bin/passwd"
    ∷ codes "/usr/bin/traceroute"
    ∷ codes "/usr/bin/traceroute6"
    ∷ codes "/usr/bin/vlock"
    ∷ []

-- strcmp() == 0
unfoldable pub same : Bytes → Bytes → Bool
same [] [] = true
same [] (d ∷ t) = false
same (c ∷ s) [] = false
same (c ∷ s) (d ∷ t) = (c == d) && same s t

-- What is behind the last '/' of `str`; `p` is what is behind the last one so far.
unfoldable pub after_slash : Bytes → Bytes → Bytes
after_slash p [] = p
after_slash p (c ∷ str) = if c == slash then after_slash str str else after_slash p str

unfoldable pub applet_from_path : Bytes → Bytes
unfolding after_slash
applet_from_path str = after_slash str str

unfoldable pub listed : List Bytes → Bytes → Bool
unfolding same applet_from_path
listed [] str = false
listed (a ∷ rest) str = same (applet_from_path str) (applet_from_path a) || listed rest str

unfoldable pub is_valid_applet : Bytes → Bool
unfolding listed
is_valid_applet str = listed applets str

-- What the process did with the system.
pub data Call : Type 0 where
  execv : Bytes → List Bytes → Call
  unlink symlink : Bytes → Call

-- How it ends: a return from main, or errx(1) with a message.
pub data End : Type 0 where
  exit : ℕ → End
  errx : Bytes → End

pub record System : Type 0 where
  pub uid : ℕ
  -- lstat() succeeds and the file is a symbolic link.
  pub is_link : Bytes → Bool
  -- symlink() of bbsuid at this path succeeds.
  pub links : Bytes → Bool

-- A successful execv() does not return; a failed one makes the exit status 1.
unfoldable pub exec_busybox : Bytes → List Bytes → List Call × End
exec_busybox app [] = (execv busybox (busybox ∷ app ∷ []) ∷ [], exit 1)
exec_busybox app (arg0 ∷ args) = (execv busybox (busybox ∷ app ∷ args) ∷ [], exit 1)

module _ (sys : System) where
  unfoldable pub link_all : List Bytes → ℕ → List Call × ℕ
  link_all [] r = ([], r)
  link_all (a ∷ rest) r =
      let next = link_all rest (if sys.links a then r else r + 1) in
      ((if sys.is_link a then unlink a ∷ [] else []) ++ symlink a ∷ next.0, next.1)

  unfoldable pub install_links : List Call × End
  unfolding link_all
  install_links =
      if not (sys.uid == 0)
      then ([], errx (codes "Only root can install symlinks"))
      else let all = link_all applets 0 in (all.0, exit all.1)

  -- `argc == 2 && strcmp(argv[1], "--install") == 0`
  unfoldable pub wants_install : List Bytes → Bool
  unfolding same
  wants_install (arg1 ∷ []) = same arg1 (codes "--install")
  wants_install _ = false

  -- `argv[0]` and the arguments behind it.
  unfoldable pub main : Bytes → List Bytes → List Call × End
  unfolding same applet_from_path is_valid_applet exec_busybox install_links wants_install
  main argv0 args =
      let app = applet_from_path argv0 in
      if same app (codes "bbsuid")
      then (if wants_install args
          then install_links
          else ([], errx (codes "Use --install to install symlinks")))
      else if is_valid_applet app
      then exec_busybox app (argv0 ∷ args)
      else ([], errx (app ++ codes " is not a valid applet"))
