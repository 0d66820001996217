-- ===== src/Tests/Variables.antt =====
-- Configuration variables of a small system, whose calls all succeed with small values.
use hassio_installer.Prelude.{
  ◌≡◌, refl, ◌^◌, ◌-◌, ◌∷◌, [], true, false, none, some, Bool, codes, ◌==◌, if◌then◌else◌,
}
use hassio_installer.Prelude.Int.{ℤ, pos, negsuc, to_long}
use hassio_installer.Getconf.{
  System, long, ends, success, line, answer, handle, print_sysconf, applies, main,
}
use hassio_installer.Getconf.Table.{sysconf, conf_table}
use hassio_installer.Getconf.Query.{answered, main-row_of}
use hassio_installer.Getconf.Listing.{Lists, main-Lists}
use hassio_installer.Getconf.Families.{begins, Agree, main-Agree}

abbrev is_one : ℤ → Bool
is_one (pos n) = n == 1
is_one (negsuc n) = false

abbrev small : System
small = record {
  macro = λ name. to_long (2 ^ 64 - 1);
  sysconf_of = λ i. (pos 4096, 0);
  confstr_size = λ i. (3, 0);
  confstr_text = λ i n. (3, 0, "/b");
  pathconf_of = λ p i. (pos 255, 0);
  malloc = λ n. true;
  stdout_error = false;
}

main-row_of_example :
    main small false [] ("ARG_MAX" ∷ [])
    ≡ ends (line false "ARG_MAX" (long (pos 4096)) ∷ []) success
unfolding conf_table answered answer handle print_sysconf applies
main-row_of_example =
    main-row_of small "ARG_MAX" none
      (record { name = "ARG_MAX"; type = sysconf; value = "_SC_ARG_MAX" }) refl

-- A system whose pathconf() fails, with an error that ends the program.
abbrev failing : System
failing = record small { pathconf_of = λ p i. (negsuc 0, 5) }

main-Lists_example :
    Lists failing (some "/tmp") conf_table [] (main failing false (b'a' ∷ []) ("/tmp" ∷ []))
main-Lists_example = main-Lists failing (some "/tmp")

-- The numbers of <unistd.h>, with one number for each function.
abbrev numbered : System
numbered = record small { macro = λ v. if begins (codes "_SC_") (codes v) then pos 1 else pos 2 }

abbrev elsewhere : System
elsewhere = record numbered { sysconf_of = λ i. if is_one i then (pos 4096, 0) else (negsuc 0, 22) }

numbered-Agree : Agree numbered elsewhere
numbered-Agree = record {
  macro = λ v. refl;
  sysconf_of = λ v h. rw h refl;
  confstr_size = λ v h. refl;
  confstr_text = λ v len h. refl;
  pathconf_of = λ v p h. refl;
  malloc = λ n. refl;
  stdout_error = refl;
}

main-Agree_example :
    main numbered false [] ("ARG_MAX" ∷ []) ≡ main elsewhere false [] ("ARG_MAX" ∷ [])
main-Agree_example = main-Agree numbered elsewhere numbered-Agree false [] ("ARG_MAX" ∷ [])
