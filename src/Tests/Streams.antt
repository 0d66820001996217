-- ===== src/Tests/Streams.antt =====
-- The programs that move bytes, ssl_client.c and iconv.c, on short inputs.
use mathlib.Core.List.{map}
use hassio_installer.Prelude.{
  zero, suc, ap, ◌++◌, ◌<◌, take, if◌then◌else◌, ◌==◌, ◌≡◌, refl, ◌∷◌, [], List, true, false, none,
  some, Bytes, length, replicate, done, codes, arith,
}
use hassio_installer.SslClient.{finished}
use hassio_installer.SslClient.Session.{Loop, Options, Tls, default, copy_loop, parse}
use hassio_installer.SslClient.Session.{main as ssl_main}
use hassio_installer.SslClient.Relay.{Heard, turn_of, relay, copy_loop-relay, copy_loop-ends}
use hassio_installer.Iconv.{
  is_stdin, System, State, leave, convert, opening, eilseq, einval, ran, from_set, unit_of,
  Converted,
}
use hassio_installer.Iconv.{parse as iconv_parse}
use hassio_installer.Iconv.{main as iconv_main}
use hassio_installer.Iconv.Operands.{given, conversions, goes_wrong, main-conversions}
use hassio_installer.Iconv.Lost.{Broken, convert-lost}
use hassio_installer.Iconv.Pieces.{Converts, Stops, left_of, convert-whole}

abbrev buffers : Loop
buffers = record { to_tls = replicate 16 9; to_stdout = replicate 16 9; stdin_open = true }

-- "hi" after an interrupted poll, both ways at once, then the end of both.
abbrev talk : List Heard
talk =
    record { stdin = some (codes "hi"); tls = none; tries = 1 }
    ∷ record { stdin = some (codes "a"); tls = some (codes "bc"); tries = 0 }
    ∷ record { stdin = some []; tls = none; tries = 0 }
    ∷ record { stdin = none; tls = some []; tries = 2 }
    ∷ []

copy_loop-relay_example : copy_loop buffers (map turn_of talk) ≡ relay true talk
copy_loop-relay_example = copy_loop-relay buffers 16 talk (omega arith) (omega arith) (
  (omega arith, omega arith),
  ((omega arith, omega arith), ((omega arith, omega arith), ((omega arith, omega arith), tt))),
)

abbrev willing : Tls
willing = record {
  ctx_made = true;
  ssl_made = true;
  name_set = λ s. true;
  host_set = λ s. true;
  connected = true;
}

abbrev named : Options
named = record default { sni = some (codes "a.org") }

-- Characters of two bytes, of which the first is 0 or illegal, to the second ones.
abbrev ucs : Bytes → Converted Unit
ucs [] = record { cd = tt; used = 0; out = []; err = none }
ucs (a ∷ []) = record { cd = tt; used = 0; out = []; err = some einval }
ucs (zero ∷ b ∷ s) =
    let r = ucs s in record { cd = tt; used = suc (suc r.used); out = b ∷ r.out; err = r.err }
ucs (suc a ∷ b ∷ s) = record { cd = tt; used = 0; out = []; err = some eilseq }

abbrev Legal : Bytes → Type 0
Legal [] = Unit
Legal (a ∷ []) = Unit
Legal (a ∷ b ∷ s) = (a ≡ 0) × Legal s

-- A buffer of 3, which cuts characters.
abbrev wide : System Unit
wide = record {
  bufsiz = 3;
  iconv_open = λ to from. some tt;
  iconv = λ cd s. ucs s;
  unit_written = λ s. 1;
  unit_errno = λ s. some einval;
  codeset = codes "UTF-8";
  fopen = λ s. none;
  stdin = record { bytes = 0 ∷ b'h' ∷ 0 ∷ b'i' ∷ 0 ∷ []; error = false };
  fwrite = λ s. true;
}

begins : (s t : Bytes) → Legal (s ++ t) → Legal s
begins [] t v = tt
begins (a ∷ []) t v = tt
begins (a ∷ b ∷ s) t (h, v) = (h, begins s t v)

goes_on : (s t : Bytes) → Legal (s ++ t) → Legal (left_of (ucs s) s ++ t)
goes_on [] t v = v
goes_on (a ∷ []) t v = v
goes_on (zero ∷ b ∷ s) t (h, v) = goes_on s t v
goes_on (suc a ∷ b ∷ s) t (h, v) = (h, v)

stops : (s : Bytes) → Legal s → Stops (left_of (ucs s) s) (ucs s).err
stops [] v = refl
stops (a ∷ []) v = refl
stops (zero ∷ b ∷ s) (h, v) = stops s v
stops (suc a ∷ b ∷ s) (h, v) = absurd (omega arith)

short : (s : Bytes) → Legal s → length (left_of (ucs s) s) < 3
short [] v = omega arith
short (a ∷ []) v = omega arith
short (zero ∷ b ∷ s) (h, v) = short s v
short (suc a ∷ b ∷ s) (h, v) = absurd (omega arith)

joins :
    (s t : Bytes)
    → Legal (s ++ t)
    → (ucs (s ++ t)).out ≡ (ucs s).out ++ (ucs (left_of (ucs s) s ++ t)).out
joins [] t v = refl
joins (a ∷ []) t v = refl
joins (zero ∷ b ∷ s) t (h, v) = ap (λ z. b ∷ z) (joins s t v)
joins (suc a ∷ b ∷ s) t (h, v) = absurd (omega arith)

settles : (s : Bytes) → Legal s → (ucs (left_of (ucs s) s)).used ≡ 0
settles [] v = refl
settles (a ∷ []) v = refl
settles (zero ∷ b ∷ s) (h, v) = settles s v
settles (suc a ∷ b ∷ s) (h, v) = absurd (omega arith)

wide-Converts : Converts wide (λ cd s. Legal s) (λ cd s. ucs s)
wide-Converts = record {
  agrees = λ cd s v h. refl;
  begins = λ cd s t v. begins s t v;
  goes_on = λ cd s t v. goes_on s t v;
  stops = λ cd s v. stops s v;
  short = λ cd s v. short s v;
  joins_out = λ cd s t v. joins s t v;
  joins_cd = λ cd s t v. refl;
  settles = λ cd s v. settles s v;
  idle = λ cd. (refl, refl, refl);
  room = omega arith;
  writes = λ s. refl;
}

-- "hell", and half a character.
abbrev hell : Bytes
hell = 0 ∷ b'h' ∷ 0 ∷ b'e' ∷ 0 ∷ b'l' ∷ 0 ∷ b'l' ∷ 0 ∷ []

convert-whole_example :
    (st : State Unit) × (convert wide (codes "UCS-2") 12 hell (opening tt) ≡ done (leave st))
    × (st.out ≡ codes "hell")
    × (st.cd ≡ tt)
convert-whole_example =
    convert-whole wide (λ cd s. Legal s) (λ cd s. ucs s) (codes "UCS-2") hell 12 tt wide-Converts
      (refl, (refl, (refl, (refl, tt)))) (omega arith)

-- stdin, a file that is not there, and stdin at its end.
abbrev operands : List Bytes
operands = codes "-" ∷ codes "none" ∷ codes "-" ∷ []

main-conversions_example :
    iconv_main wide 9 (from_set (codes "UCS-2") ∷ []) operands ≡ done (ran (codes "hi") 1)
unfolding given conversions goes_wrong iconv_parse is_stdin
main-conversions_example =
    main-conversions wide (λ cd s. Legal s) (λ cd s. ucs s) 9 (from_set (codes "UCS-2") ∷ [])
      operands (some (codes "UCS-2")) none tt wide-Converts refl refl
      ((refl, (refl, tt)), omega arith, (tt, omega arith, tt))

-- 255 is illegal, and the last byte of what does not begin with it is incomplete.
abbrev picky : Bytes → Converted Unit
picky [] = record { cd = tt; used = 0; out = []; err = none }
picky (c ∷ s) =
    if c == 255
    then record { cd = tt; used = 0; out = []; err = some eilseq }
    else record { cd = tt; used = length s; out = take (length s) (c ∷ s); err = some einval }

abbrev strict : System Unit
strict = record wide { bufsiz = 4; iconv = λ cd s. picky s; unit_written = λ s. 0 }

broken : Broken strict (codes "UTF-8") tt (255 ∷ b'a' ∷ 226 ∷ []) (b'a' ∷ 226 ∷ [])
unfolding unit_of
broken = record {
  fits = omega arith;
  some_read = omega arith;
  illegal = refl;
  skipped = refl;
  some_left = omega arith;
  incomplete = refl;
  still_left = omega arith;
  writes = refl;
}

convert-lost_example :
    (st : State Unit) × (convert strict (codes "UTF-8") 2 (255 ∷ b'a' ∷ 226 ∷ []) (opening tt)
      ≡ done (leave st))
    × (st.out ≡ [])
convert-lost_example =
    convert-lost strict (codes "UTF-8") tt (255 ∷ b'a' ∷ 226 ∷ []) (b'a' ∷ 226 ∷ []) 0 broken

copy_loop-ends_example :
    ((copy_loop buffers (map turn_of talk)).end ≡ finished)
    × ((copy_loop buffers (map turn_of talk)).stdout ≡ codes "bc")
copy_loop-ends_example =
    copy_loop-ends buffers 16
      (record { stdin = some (codes "hi"); tls = none; tries = 1 }
        ∷ record { stdin = some (codes "a"); tls = some (codes "bc"); tries = 0 }
        ∷ record { stdin = some []; tls = none; tries = 0 }
        ∷ [])
      [] (record { stdin = none; tls = some []; tries = 2 }) (omega arith) (omega arith)
      (
        (omega arith, omega arith),
        (
          (omega arith, omega arith),
          ((omega arith, omega arith), ((omega arith, omega arith), tt)),
        ),
      )
      (refl, (refl, (refl, tt))) refl
