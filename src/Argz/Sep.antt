-- ===== src/Argz/Sep.antt =====
-- vols/build/aports/main/s390-tools/argz.c: `argz_create_sep` and `argz_add_sep`.
pub mod Fields
pub mod Loop
pub mod Split
pub mod Joined
use hassio_installer.Prelude.{
  ℕ, ◌+◌, ◌-◌, not, none, some, [], ◌∷◌, Bytes, length, replicate, ltb, ◌==◌, if◌then◌else◌,
  Outcome, done, read, write, ◌>>=◌,
}
use hassio_installer.Argz.{Errno, ok, enomem, Alloc, Argz, argz, bytes, resize, less}

-- The block, the write position and `nlen` in the loop.
pub record Splitter : Type 0 where
  pub block : Bytes
  pub wp : ℕ
  pub nlen : ℕ

abbrev pub shrunk : Splitter → Splitter
shrunk s = record s { nlen = less s.nlen 1 }

unfoldable pub push : ℕ → Splitter → Outcome Splitter
push c s = write s.block s.wp c >>= λ m. done (record s { block = m; wp = s.wp + 1 })

-- At the delimiter: `if (wp > *argz && wp[-1] != '\0') *wp++ = '\0'; else --nlen;`
unfoldable pub cut : Splitter → Outcome Splitter
unfolding push
cut s =
    if ltb 0 s.wp
    then (read s.block (s.wp - 1) >>= λ x. if not (x == 0) then push 0 s else done (shrunk s))
    else done (shrunk s)

-- One round: `c` is `*rp`.
unfoldable pub split_char : ℕ → ℕ → Splitter → Outcome Splitter
unfolding push cut
split_char delim c s = if c == delim then cut s else push c s

-- The loop ends behind the '\0' of the string.
unfoldable pub split_all : ℕ → Bytes → Splitter → Outcome Splitter
unfolding split_char
split_all delim [] s = split_char delim 0 s
split_all delim (c ∷ string) s = split_char delim c s >>= λ s'. split_all delim string s'

-- `old` is what `*argz` and `*len` held: on ENOMEM `*len` stays.
unfoldable pub argz_create_sep : Alloc → Bytes → ℕ → Argz → Outcome (Errno × Argz)
unfolding split_all
argz_create_sep al string delim old =
    let nlen = length string + 1 in
    if not (ltb 1 nlen)
    then done (ok, argz none 0)
    else if not (al.grants nlen)
    then done (enomem, argz none old.len)
    else split_all delim string (record { block = replicate nlen al.junk; wp = 0; nlen = nlen })
      >>= λ s. done (ok, argz (if s.nlen == 0 then none else some s.block) s.nlen)

-- On ENOMEM `*argz` is NULL and `*argz_len` stays.
unfoldable pub argz_add_sep : Alloc → Argz → Bytes → ℕ → Outcome (Errno × Argz)
unfolding split_all resize
argz_add_sep al a string delim =
    let nlen = length string + 1 in
    if not (ltb 1 nlen)
    then done (ok, a)
    else if not (al.grants (a.len + nlen))
    then done (enomem, argz none a.len)
    else split_all delim string
        (record { block = resize al (bytes a.block) (a.len + nlen); wp = a.len; nlen = nlen })
      >>= λ s. done (ok, argz (some s.block) (a.len + s.nlen))
