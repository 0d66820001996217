-- ===== src/Argz/Replace.antt =====
-- vols/build/aports/main/s390-tools/argz.c: `str_append` and `argz_replace`. The strings that are
-- read, `str`, `with` and those of the vector, are their bytes before the '\0'; the new string `to`
-- is a block of its own. A block that is freed is not seen again.
pub mod Rewrite
pub mod Counts
pub mod Strings
use hassio_installer.Prelude.{
  ℕ, zero, suc, ◌+◌, ◌%◌, ◌^◌, Bool, true, false, ◌&&◌, Option, none, some, List, [], ◌∷◌, ◌++◌,
  Bytes, length, take, drop, ltb, ◌==◌, if◌then◌else◌, Outcome, done, fault, write, ◌>>=◌,
}
use hassio_installer.Argz.{
  Errno, ok, enomem, Alloc, Argz, argz, bytes, resize, copy, argz_append, argz_add, argz_next,
}

-- The bytes before the '\0' in front of memory.
unfoldable pub string : Bytes → Outcome Bytes
string [] = fault
string (zero ∷ m) = done []
string (suc c ∷ m) = string m >>= λ s. done (suc c ∷ s)

unfoldable pub starts_with : Bytes → Bytes → Bool
starts_with [] s = true
starts_with (d ∷ str) [] = false
starts_with (d ∷ str) (c ∷ s) = (d == c) && starts_with str s

-- `strstr(s, str) - s`
unfoldable pub strstr : Bytes → Bytes → Option ℕ
unfolding starts_with
strstr str [] = if starts_with str [] then some 0 else none
strstr str (c ∷ s) =
    if starts_with str (c ∷ s)
    then some 0
    else elim (strstr str s) [ none ↦ none | some k ↦ some (k + 1) ]

-- `to` and `to_len`.
pub record Text : Type 0 where
  pub block : Bytes
  pub len : ℕ

abbrev pub text : Bytes → ℕ → Text
text b n = record { block = b; len = n }

-- Without memory `to` is freed, and is NULL.
unfoldable pub str_append : Alloc → Text → Bytes → Outcome (Option Text)
unfolding resize copy
str_append al to buf =
    let new_len = to.len + length buf in
    if al.grants (new_len + 1)
    then (do
      m ← copy to.len buf (resize al to.block (new_len + 1))
      m' ← write m new_len 0
      done (some (text m' new_len)))
    else done none

-- `strndup(arg, n)`
unfoldable pub strndup : Alloc → Bytes → ℕ → Option Text
strndup al s n = if al.grants (n + 1) then some (text (take n s ++ 0 ∷ []) n) else none

-- `*replace_count`, where it is asked for.
abbrev pub counted : Option ℕ → Option ℕ
counted none = none
counted (some n) = some ((n + 1) % 2 ^ 32)

-- `dst` with its length, `delayed_copy` and `*replace_count`.
pub record Progress : Type 0 where
  pub dst : Argz
  pub delayed : Bool
  pub count : Option ℕ

abbrev pub progress : Argz → Bool → Option ℕ → Progress
progress a d n = record { dst = a; delayed = d; count = n }

module _ (al : Alloc) (str with : Bytes) where
  -- In the loop's turn behind the append of `with`: the rest up to the next match, or all of it.
  unfoldable pub append_rest :
      (Option Text → Bytes → Outcome (Option Text))
      → Bytes
      → Option ℕ
      → Text
      → Outcome (Option Text)
  unfolding str_append
  append_rest again from none to = str_append al to from
  append_rest again from (some k) to =
      str_append al to (take k from) >>= λ r. again r (drop (k + length str) from)

  unfoldable pub append_found :
      (Option Text → Bytes → Outcome (Option Text)) → Bytes → Option Text → Outcome (Option Text)
  unfolding append_rest strstr
  append_found again from none = done none
  append_found again from (some to) = append_rest again from (strstr str from) to

  -- `while (to && from)`. The fuel is for the turns, of which each but the last shortens `from`; to
  -- be out of it is a fault.
  unfoldable pub fill : ℕ → Option Text → Bytes → Outcome (Option Text)
  unfolding str_append append_found
  fill zero to from = fault
  fill (suc fuel) none from = done none
  fill (suc fuel) (some to) from = str_append al to with >>= append_found (fill fuel) from

  -- A string with its match at `k`: `to`, or NULL.
  unfoldable pub rewrite_string : Bytes → ℕ → Outcome (Option Text)
  unfolding fill strndup
  rewrite_string s k = fill (length s + 1) (strndup al s k) (drop (k + length str) s)

  -- The strings in front of the first match, when it is found; `start` is the offset of its string.
  unfoldable pub catch_up : Bytes → ℕ → Progress → Outcome (Errno × Argz)
  unfolding argz_append
  catch_up src start p =
      if p.delayed && ltb 0 start then argz_append al p.dst (take start src) else done (ok, p.dst)

  -- `if (! err) err = argz_add (&dst, &dst_len, to);`
  unfoldable pub add_text : Errno × Argz → Text → Outcome (Errno × Argz)
  unfolding argz_add string
  add_text (ok, a) to = string to.block >>= λ s. argz_add al a s
  add_text (e, a) to = done (e, a)

  -- The body of the loop behind the search, for a string with a match; its `to` is made or NULL.
  unfoldable pub with_text : Bytes → ℕ → Progress → Option Text → Outcome (Errno × Progress)
  unfolding catch_up add_text
  with_text src start p none = done (enomem, progress p.dst p.delayed (counted p.count))
  with_text src start p (some to) = do
    caught ← catch_up src start p
    added ← add_text caught to
    done (added.0, progress added.1 false (counted p.count))

  unfoldable pub without_match : Bytes → Progress → Outcome (Errno × Progress)
  unfolding argz_add
  without_match s p =
      if p.delayed
      then done (ok, p)
      else argz_add al p.dst s >>= λ r. done (r.0, progress r.1 false p.count)

  -- `match` is `k` bytes into the string, or NULL.
  unfoldable pub on_match : Bytes → ℕ → Progress → Bytes → Option ℕ → Outcome (Errno × Progress)
  unfolding with_text without_match rewrite_string
  on_match src start p s none = without_match s p
  on_match src start p s (some k) = rewrite_string s k >>= with_text src start p

  unfoldable pub each_string : Bytes → ℕ → Progress → Outcome (Errno × Progress)
  unfolding string strstr on_match
  each_string src start p = string (drop start src) >>= λ s. on_match src start p s (strstr str s)

  unfoldable pub unless_error :
      (Progress → Outcome (Errno × Progress)) → Errno × Progress → Outcome (Errno × Progress)
  unless_error again (ok, p) = again p
  unless_error again (e, p) = done (e, p)

  unfoldable pub from_next :
      (ℕ → Progress → Outcome (Errno × Progress))
      → Bytes
      → Progress
      → Option ℕ
      → Outcome (Errno × Progress)
  unfolding each_string unless_error
  from_next again src p none = done (ok, p)
  from_next again src p (some start) = each_string src start p >>= unless_error (again start)

  -- `while (!err && (arg = argz_next (src, src_len, arg)))`, with fuel for the strings.
  unfoldable pub replace_from : ℕ → Bytes → ℕ → Progress → Option ℕ → Outcome (Errno × Progress)
  unfolding from_next argz_next
  replace_from zero src src_len p arg = fault
  replace_from (suc fuel) src src_len p arg =
      argz_next src src_len arg
      >>= from_next (λ start p'. replace_from fuel src src_len p' (some start)) src p

  -- What is behind the loop.
  unfoldable pub install : Argz → Errno × Progress → Errno × Argz × Option ℕ
  install a (ok, p) = (ok, (if p.delayed then a else p.dst), p.count)
  install a (e, p) = (e, a, p.count)

-- `str` is NULL or a string. A block has a string for each of its bytes at most.
unfoldable pub argz_replace :
    Alloc → Argz → Option Bytes → Bytes → Option ℕ → Outcome (Errno × Argz × Option ℕ)
unfolding replace_from install
argz_replace al a none with count = done (ok, a, count)
argz_replace al a (some []) with count = done (ok, a, count)
argz_replace al a (some (c ∷ str)) with count = do
  r ←
      replace_from al (c ∷ str) with (a.len + 1) (bytes a.block) a.len
        (progress (argz none 0) true count) none
  done (install al (c ∷ str) with a r)
