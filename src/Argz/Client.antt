-- ===== src/Argz/Client.antt =====
-- vols/build/aports/main/s390-tools/argz.c and argz.h: what a client of a vector does. It reaches
-- an entry by `argz_next` from NULL, as the comment of argz.h says, changes the vector at it,
-- reads all entries in the same way, and stops at the first error.
pub mod Entries
pub mod Changes
pub mod History
use mathlib.Core.List.{map}
use hassio_installer.Prelude.{
  ℕ, zero, suc, ◌+◌, Option, none, some, List, [], ◌∷◌, ◌++◌, Bytes, drop, take, Outcome, done,
  fault, ◌>>=◌,
}
use hassio_installer.Argz.{
  Errno, ok, enomem, einval, Alloc, Argz, bytes, argz_add, argz_next, argz_delete, argz_insert,
}
use hassio_installer.Argz.Sep.{argz_add_sep}
use hassio_installer.Argz.Sep.Split.{fields}
use hassio_installer.Argz.Replace.{string, argz_replace}
use hassio_installer.Argz.Replace.Rewrite.{replaced}

-- `k` steps of `argz_next` from an entry, or from NULL behind the last one.
unfoldable pub steps : ℕ → Argz → Option ℕ → Outcome (Option ℕ)
unfolding argz_next
steps zero a p = done p
steps (suc k) a none = done none
steps (suc k) a (some p) = argz_next (bytes a.block) a.len (some p) >>= steps k a

-- The address of entry `k`, and NULL where there are fewer.
unfoldable pub entry : Argz → ℕ → Outcome (Option ℕ)
unfolding steps argz_next
entry a k = argz_next (bytes a.block) a.len none >>= steps k a

-- `for (; entry; entry = argz_next (argz, argz_len, entry))`, on fuel, with the strings read.
unfoldable pub strings_from : ℕ → Argz → Option ℕ → Outcome (List Bytes)
unfolding argz_next string
strings_from fuel a none = done []
strings_from zero a (some p) = fault
strings_from (suc fuel) a (some p) = do
  s ← string (drop p (bytes a.block))
  q ← argz_next (bytes a.block) a.len (some p)
  ss ← strings_from fuel a q
  done (s ∷ ss)

unfoldable pub contents : Argz → Outcome (List Bytes)
unfolding strings_from argz_next
contents a = argz_next (bytes a.block) a.len none >>= strings_from a.len a

-- A change of a vector, at entry `k` where it has a place.
pub data Op : Type 0 where
  add : Bytes → Op
  insert : ℕ → Bytes → Op
  delete : ℕ → Op
  add_sep : Bytes → ℕ → Op
  replace : ℕ → Bytes → Bytes → Op

unfoldable pub perform : Alloc → Op → Argz → Outcome (Errno × Argz)
unfolding entry argz_add argz_insert argz_delete argz_add_sep argz_replace
perform al (add s) a = argz_add al a s
perform al (insert k s) a = entry a k >>= λ p. argz_insert al a p s
perform al (delete k) a = entry a k >>= λ p. argz_delete a p >>= λ a'. done (ok, a')
perform al (add_sep s delim) a = argz_add_sep al a s delim
perform al (replace c str with) a =
    argz_replace al a (some (c ∷ str)) with none >>= λ r. done (r.0, r.1)

unfoldable pub unless_failed :
    (Argz → Outcome (Errno × Argz)) → Errno × Argz → Outcome (Errno × Argz)
unless_failed again (ok, a) = again a
unless_failed again (e, a) = done (e, a)

unfoldable pub run : Alloc → List Op → Argz → Outcome (Errno × Argz)
unfolding perform unless_failed
run al [] a = done (ok, a)
run al (op ∷ ops) a = perform al op a >>= unless_failed (run al ops)

-- The same on lists of strings.
unfoldable pub apply : Op → List Bytes → List Bytes
unfolding fields replaced
apply (add s) ss = ss ++ s ∷ []
apply (insert k s) ss = take k ss ++ s ∷ drop k ss
apply (delete k) ss = take k ss ++ drop (suc k) ss
apply (add_sep s delim) ss = ss ++ fields delim s
apply (replace c str with) ss = map (replaced (c ∷ str) with) ss

unfoldable pub replay : List Op → List Bytes → List Bytes
unfolding apply
replay [] ss = ss
replay (op ∷ ops) ss = replay ops (apply op ss)
