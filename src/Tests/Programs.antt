-- ===== src/Tests/Programs.antt =====
-- The small programs on short inputs.
use hassio_installer.Prelude.{
  ℕ, zero, suc, Bool, length-replicate, Outcome, Option, List, ◌≤◌, ◌⊎◌, inl, inr, ◌≡◌, refl, ◌+◌,
  ◌∷◌, [], ◌++◌, All, true, false, none, some, Bytes, length, replicate, done, codes, arith,
  if◌then◌else◌, ◌==◌, ap₂, sym, ◌∙◌, Bool-cases, inl, inr,
}
use hassio_installer.Prelude.Int.{ℤ, pos, negsuc}
use hassio_installer.Cdboot.{Input, Host, Flag}
use hassio_installer.Cdboot.Layout.{Works}
use hassio_installer.Cdboot.Program.{Program, Files, Suits, main-Program}
use hassio_installer.Cdboot.Flags.{last}
use hassio_installer.Cdboot.{main as cdboot_main}
use hassio_installer.Bbsuid.{System}
use hassio_installer.Bbsuid.{main as bbsuid_main}
use hassio_installer.Bbsuid.Guard.{Allowed, main-Allowed}
use hassio_installer.Mkmntdirs.{exit}
use hassio_installer.Mkmntdirs.{main as mkmntdirs_main}
use hassio_installer.Mkmntdirs.Prefixes.{all_ancestors, main-ancestors}
use hassio_installer.ChkPwd.{Libc, End, null}
use hassio_installer.ChkPwd.{main as chkpwd_main}
use hassio_installer.ChkPwd.Accepts.{Ends, IsStrcmp, Opens, main-Accepted}
use hassio_installer.Timepps.{Kernel, Kparams, Params, time_pps_setparams, time_pps_getparams}
use hassio_installer.Timepps.RoundTrip.{Device, instant, instant_of, getparams-setparams}
use hassio_installer.SendmailSh.{execvp}
use hassio_installer.SendmailSh.{main as sh_main}
use hassio_installer.SendmailSh.Words.{parts, started, main-started}
use hassio_installer.SslClient.{
  took, again, got, retry, copied, finished, copy_from_stdin_to_tls, copy_from_tls_to_stdout,
}
use hassio_installer.SslClient.Copies.{copies_whole, partial_write_skips}

abbrev host : Host
host = record {
  big_endian = false;
  write_error = λ i. false;
  seek_error = λ i. false;
  fopen_read = λ o s. none;
  fopen_write = λ s. true;
}

host-Works : Works host
host-Works = record { writes = λ i. refl; seeks = λ i. refl }

abbrev file : Bytes → Input
file s = record { bytes = s; ftell_end = some (length s) }

-- A kernel that reaches to the place of the parmfile.
kernel : Bytes
kernel = replicate 0x10480 1

kernel_lem : length kernel ≡ 0x10480
unfolding kernel
kernel_lem = length-replicate {A = ℕ} 0x10480 1

-- A machine with three files, named by their first letters.
abbrev three_files : Bytes → Option Input
three_files [] = none
three_files (c ∷ s) =
    if c == b'k'
    then some (file kernel)
    else if c == b'd'
    then some (file (codes "disk"))
    else if c == b'p'
    then some (file (codes "root=/"))
    else none

three_files_lem :
    (s : Bytes) (f : Input)
    → three_files s ≡ some f
    → (f.ftell_end ≡ some (length f.bytes)) × (length f.bytes ≤ 0x10480)
three_files_lem [] f e = ground (arith, e)
three_files_lem (c ∷ s) f e = ground (arith, e, kernel_lem)

abbrev same_letter : Bytes → Bytes → Bool
same_letter (c ∷ s) (d ∷ t) = c == d
same_letter _ _ = false

-- A file that is opened for writing is empty.
abbrev machine : Host
machine = record host {
  fopen_read = λ o s. if same_letter s o then some (file []) else three_files s;
}

abbrev machine-Files : Files machine
machine-Files = record {
  contents = three_files;
  same_file = same_letter;
  others = λ o s e. rw e refl;
  told = λ s f e. (three_files_lem s f e).0;
  sized = λ s f e. let h = (three_files_lem s f e).1 in omega arith;
}

-- The first name of a ramdisk is not the one that counts.
abbrev options : List Flag
options =
    Flag.image (some (codes "k"))
    ∷ Flag.ramdisk none
    ∷ Flag.outfile (some (codes "o"))
    ∷ Flag.ramdisk (some (codes "d"))
    ∷ Flag.parmfile (some (codes "p"))
    ∷ []

options-Suits : Suits machine machine-Files options
unfolding last
options-Suits = record {
  apart = λ i d p o (ei, ed, ep, eo).
      (ground (arith, ei, eo), ground (arith, ed, eo), ground (arith, ep, eo));
  room = λ i d p o fi fp (ei, ed, ep, eo) hi hp.
      let fi_is : fi.bytes ≡ kernel = ground (arith, ei, hi) in
      let fp_is : fp.bytes ≡ codes "root=/" = ground (arith, ep, hp) in
      rw (fi_is, fp_is, kernel_lem) (omega arith, omega arith, omega arith);
}

main-Program_example : Program machine machine-Files options (cdboot_main machine options)
main-Program_example =
    main-Program machine (record { writes = λ i. refl; seeks = λ i. refl }) machine-Files options
      options-Suits

abbrev user : System
user = record { uid = 1000; is_link = λ s. true; links = λ s. true }

main-Allowed_example :
    All
      (Allowed user (codes "/bin/su") (codes "-" ∷ []))
      (bbsuid_main user (codes "/bin/su") (codes "-" ∷ [])).0
main-Allowed_example = main-Allowed user (codes "/bin/su") (codes "-" ∷ [])

main-ancestors_example :
    mkmntdirs_main (λ f. some (codes "/a//b" ∷ codes "none" ∷ [])) []
    ≡ some (exit (codes "/" ∷ codes "/a//" ∷ codes "/a//b" ∷ []))
unfolding all_ancestors
main-ancestors_example = main-ancestors (λ f. some (codes "/a//b" ∷ codes "none" ∷ [])) []

-- A strcmp() whose result is one of three bytes' differences.
abbrev order : Bytes → Bytes → ℤ
order [] [] = pos 0
order [] (d ∷ t) = negsuc 0
order (c ∷ s) [] = pos 1
order (c ∷ s) (d ∷ t) = if c == d then order s t else pos 1

order-same : (s : Bytes) → order s s ≡ pos 0
order-same [] = refl
order-same (c ∷ s) = ground (arith, order-same s)

order-only_same : (s t : Bytes) → order s t ≡ pos 0 → s ≡ t
order-only_same [] [] h = refl
order-only_same [] (d ∷ t) h = ground arith
order-only_same (c ∷ s) [] h = ground arith
order-only_same (c ∷ s) (d ∷ t) h = elim (Bool-cases (c == d)) [
  | inl e ↦
      let q : order (c ∷ s) (d ∷ t) ≡ order s t = rw e in
      let p : c ≡ d = ground arith in ap₂ ◌∷◌ p (order-only_same s t (sym q ∙ h))
  | inr e ↦ let q : order (c ∷ s) (d ∷ t) ≡ pos 1 = rw e in absurd (ground arith)
]

-- The hash of a password is the password behind a '$'.
abbrev libc : Libc
libc = record {
  open_null = λ n. pos (if n == 0 then 0 else n + 2);
  getlogin = some (codes "alice");
  input = some (codes "secret" ++ 0 ∷ []);
  getspnam = λ u. some (some (b'$' ∷ codes "secret"));
  getpwnam = λ u. none;
  crypt = λ pass e. some (b'$' ∷ pass);
  strcmp = order;
  uninitialised = null;
}

order-IsStrcmp : IsStrcmp order
order-IsStrcmp = record { same = order-same; only_same = order-only_same }

-- Descriptor 0 alone is closed at first.
libc-Opens : Opens libc.open_null
libc-Opens = record {
  fd = λ n. if n == 0 then 0 else n + 2;
  opens = λ n. ground arith;
  rises = λ n. ground arith;
}

main-Accepted_example : (end : Outcome End) × (chkpwd_main 9 libc ≡ some end) × Ends libc end
main-Accepted_example = main-Accepted libc 9 (omega arith) libc-Opens order-IsStrcmp

copies_whole_example :
    (copy_from_stdin_to_tls
        (replicate 16 9)
        (retry ∷ got (codes "hi") ∷ [])
        (again ∷ again ∷ took 2 ∷ [])
      ≡ (true, copied (codes "hi") finished))
    × (copy_from_tls_to_stdout (replicate 16 9) (retry ∷ got (codes "hi") ∷ []) (took 2 ∷ [])
        ≡ (false, copied (codes "hi") finished))
copies_whole_example = copies_whole (replicate 16 9) (codes "i") b'h' 1 2 (omega arith)

-- "hi!" in two calls comes out as "h" and two bytes from the 9th on.
partial_write_skips_example :
    copy_from_tls_to_stdout (replicate 16 9) (got (codes "hi!") ∷ []) (took 1 ∷ took 2 ∷ [])
    ≡ (false, copied (codes "h" ++ 9 ∷ 9 ∷ []) finished)
partial_write_skips_example =
    partial_write_skips (replicate 16 9) (codes "i!") b'h' 1 (omega arith) (omega arith)
      (omega arith)

-- A device whose state is its parameters; it wants a mode, and forces a bit of it.
abbrev stored : Kparams → Kparams → ℕ → ℤ × Kparams
stored s p zero = (negsuc 0, s)
stored s p (suc m) = (pos 0, record p { api_version = 1; mode = suc m + 256 })

abbrev device : Kernel Kparams
device = record {
  pps_getparams = λ s h stack. (pos 0, s);
  pps_setparams = λ s h p. stored s p p.mode;
  pps_getcap = λ s h m. (pos 0, 0);
  pps_fetch = λ s h f. (negsuc 0, f, s);
  close = λ s h. (pos 0, s);
  pps_kc_bind = none;
  tsfmt_tspec = 4096;
  time_invalid = 1;
}

abbrev offsets : Params
offsets = record {
  api_version = 1;
  mode = 17;
  assert_offset = record { tv_sec = 0; tv_nsec = 500000000 };
  clear_offset = record { tv_sec = 0; tv_nsec = 250000000 };
}

abbrev blank : Kparams
blank = record {
  api_version = 0;
  mode = 0;
  assert_off_tu = record { sec = 0; nsec = 0; flags = 9 };
  clear_off_tu = record { sec = 0; nsec = 0; flags = 9 };
}

stored-kept :
    (s p : Kparams) (m : ℕ)
    → (stored s p m).0 ≡ pos 0
    → ((stored s p m).1.api_version ≡ 1)
      × ((stored s p m).1.mode ≡ m + 256)
      × (instant (stored s p m).1.assert_off_tu ≡ instant p.assert_off_tu)
      × (instant (stored s p m).1.clear_off_tu ≡ instant p.clear_off_tu)
stored-kept s p zero h = absurd cc
stored-kept s p (suc m) h = (refl, refl, refl, refl)

device-Device : Device device 3 (λ s. s) 1 (λ m. m + 256)
device-Device = record { sets = λ s p. stored-kept s p p.mode; gets = λ s stack h. refl }

getparams-setparams_example :
    (instant (time_pps_setparams device blank 3 offsets blank).1.assert_off_tu
      ≡ instant_of offsets.assert_offset)
    × (instant (time_pps_setparams device blank 3 offsets blank).1.clear_off_tu
        ≡ instant_of offsets.clear_offset)
    × ((time_pps_getparams device (time_pps_setparams device blank 3 offsets blank).1 3 blank).1
        ≡ record offsets { api_version = 1; mode = 273 })
unfolding time_pps_setparams time_pps_getparams
getparams-setparams_example =
    getparams-setparams device 3 (λ s. s) 1 (λ m. m + 256) blank offsets blank blank device-Device
      (omega arith) (omega arith) refl refl

main-started_example :
    (sh_main (λ s. some s) (codes "sh" ∷ codes "-c" ∷ codes "ls  -l " ∷ [])
      ≡ done
          (execvp (some (codes "ls")) (some (codes "ls") ∷ some (codes "-l") ∷ replicate 62 none)))
    ⊎ ((some (codes "ls  -l ") ≡ none)
        × (sh_main (λ s. some s) (codes "sh" ∷ codes "-c" ∷ codes "ls  -l " ∷ [])
            ≡ done (started [])))
unfolding parts
main-started_example = main-started (λ s. some s) (codes "sh") (codes "ls  -l ") [] (λ s. inl refl)
