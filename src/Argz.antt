-- ===== src/Argz.antt =====
-- vols/build/aports/main/s390-tools/argz.c: vectors of strings, each ended by a '\0', in one block.
-- The block is the list of its bytes, a pointer into it is an offset, and an access out of it is a
-- fault. A string argument is its bytes before the '\0'. `malloc` and `realloc` are a parameter:
-- which sizes are granted, and what a fresh byte holds. A loop that calls strlen walks the bytes
-- itself. Lengths are those of objects in memory; only the differences that can wrap are taken
-- modulo 2^64.
pub mod Sep
pub mod Vectors
pub mod Walk
pub mod Edit
pub mod Insert
pub mod Replace
pub mod Client
use hassio_installer.Prelude.{
  ℕ, zero, suc, ◌+◌, ◌-◌, ◌%◌, ◌^◌, Bool, true, false, ◌&&◌, not, Option, none, some, List, [], ◌∷◌,
  ◌++◌, Bytes, length, take, drop, replicate, leb, ltb, ◌==◌, if◌then◌else◌, Outcome, done, fault,
  read, write, ◌>>=◌,
}

-- `error_t`: 0, ENOMEM, EINVAL.
pub data Errno : Type 0 where
  ok enomem einval : Errno

pub record Alloc : Type 0 where
  pub grants : ℕ → Bool
  pub junk : ℕ

-- `*argz` and `*argz_len`.
pub record Argz : Type 0 where
  pub block : Option Bytes
  pub len : ℕ

abbrev pub argz : Option Bytes → ℕ → Argz
argz b n = record { block = b; len = n }

-- The bytes of a block; NULL has none.
abbrev pub bytes : Option Bytes → Bytes
bytes none = []
bytes (some m) = m

-- `realloc(p, n)` where it is granted.
unfoldable pub resize : Alloc → Bytes → ℕ → Bytes
resize al m n = take n (m ++ replicate n al.junk)

-- `memcpy(p + i, s, strlen)`.
unfoldable pub copy : ℕ → Bytes → Bytes → Outcome Bytes
copy i [] m = done m
copy i (c ∷ s) m = write m i c >>= λ m'. copy (i + 1) s m'

-- `memmove(p + dst, p + src, n)`.
unfoldable pub move : ℕ → ℕ → ℕ → Bytes → Outcome Bytes
move dst src n m =
    if leb (dst + n) (length m) && leb (src + n) (length m)
    then done (take dst m ++ (take n (drop src m) ++ drop (dst + n) m))
    else fault

unfoldable pub strlen : Bytes → Outcome ℕ
strlen [] = fault
strlen (zero ∷ m) = done 0
strlen (suc c ∷ m) = strlen m >>= λ n. done (n + 1)

module _ (al : Alloc) where
  unfoldable pub argz_append : Argz → Bytes → Outcome (Errno × Argz)
  unfolding resize copy
  argz_append a buf =
      let new_len = a.len + length buf in
      if al.grants new_len
      then (do
        m ← copy a.len buf (resize al (bytes a.block) new_len)
        done (ok, argz (some m) new_len))
      else done (enomem, a)

  unfoldable pub argz_add : Argz → Bytes → Outcome (Errno × Argz)
  unfolding argz_append
  argz_add a str = argz_append a (str ++ 0 ∷ [])

-- `len -= part_len + 1` in size_t.
abbrev pub less : ℕ → ℕ → ℕ
less len n = (len + 2 ^ 64 - n) % 2 ^ 64

-- The walk over one part: `part` of its bytes are behind.
unfoldable pub count_from : Bytes → ℕ → ℕ → ℕ → Outcome ℕ
count_from [] len part count = fault
count_from (suc c ∷ m) len part count = count_from m len (part + 1) count
count_from (zero ∷ m) len part count =
    let rest = count_from m (less len (part + 1)) 0 (count + 1) in
    if less len (part + 1) == 0 then done (count + 1) else rest

unfoldable pub argz_count : Bytes → ℕ → Outcome ℕ
unfolding count_from
argz_count m len = if len == 0 then done 0 else count_from m len 0 0

-- `*argv++ = argz` for each part, as offsets from the first; `start` is that of the part.
unfoldable pub extract_from : Bytes → ℕ → ℕ → ℕ → Outcome (List ℕ)
extract_from [] len part start = fault
extract_from (suc c ∷ m) len part start = extract_from m len (part + 1) start
extract_from (zero ∷ m) len part start =
    let rest = extract_from m (less len (part + 1)) 0 (start + part + 1) in
    if less len (part + 1) == 0 then done (start ∷ []) else rest >>= λ argv. done (start ∷ argv)

unfoldable pub argz_extract : Bytes → ℕ → Outcome (List ℕ)
unfolding extract_from
argz_extract m len = if len == 0 then done [] else extract_from m len 0 0

-- The first loop of `argz_create`.
unfoldable pub total : List Bytes → ℕ
total [] = 0
total (s ∷ ss) = length s + 1 + total ss

-- `for (p = *argz, ap = argv; *ap; ++ap, ++p) p = stpcpy(p, *ap);`
unfoldable pub copy_all : ℕ → List Bytes → Bytes → Outcome Bytes
unfolding copy
copy_all p [] m = done m
copy_all p (s ∷ ss) m = copy p (s ++ 0 ∷ []) m >>= λ m'. copy_all (p + length s + 1) ss m'

-- `old` is what `*argz` and `*len` held: on ENOMEM `*len` stays.
unfoldable pub argz_create : Alloc → List Bytes → Argz → Outcome (Errno × Argz)
unfolding total copy_all
argz_create al argv old =
    let tlen = total argv in
    if tlen == 0
    then done (ok, argz none 0)
    else if not (al.grants tlen)
    then done (enomem, argz none old.len)
    else copy_all 0 argv (replicate tlen al.junk) >>= λ m. done (ok, argz (some m) tlen)

-- `entry` is NULL or an offset.
unfoldable pub argz_next : Bytes → ℕ → Option ℕ → Outcome (Option ℕ)
unfolding strlen
argz_next m len none = done (if ltb 0 len then some 0 else none)
argz_next m len (some e) =
    if ltb e len
    then (do n ← strlen (drop e m); done (if leb len (e + n + 1) then none else some (e + n + 1)))
    else done none

unfoldable pub argz_delete : Argz → Option ℕ → Outcome Argz
unfolding strlen move
argz_delete a none = done a
argz_delete a (some e) = do
  n ← strlen (drop e (bytes a.block))
  let len = less a.len (n + 1)
  m ← move e (e + n + 1) (less len e) (bytes a.block)
  done (if len == 0 then argz none 0 else argz (some m) len)

-- `while (before[-1]) before--;`: at the block's first byte it reads in front of the block.
unfoldable pub entry_start : Bytes → ℕ → Outcome ℕ
entry_start m zero = fault
entry_start m (suc b) =
    let back = entry_start m b in read m b >>= λ c. if c == 0 then done (suc b) else back

unfoldable pub insert_at : Alloc → Argz → ℕ → Bytes → Outcome (Errno × Argz)
unfolding resize move copy
insert_at al a b entry =
    let entry_len = length entry + 1 in
    let new_len = a.len + entry_len in
    if al.grants new_len
    then (do
      m ← move (b + entry_len) b (a.len - b) (resize al (bytes a.block) new_len)
      m' ← copy b (entry ++ 0 ∷ []) m
      done (ok, argz (some m') new_len))
    else done (enomem, a)

unfoldable pub argz_insert : Alloc → Argz → Option ℕ → Bytes → Outcome (Errno × Argz)
unfolding argz_add insert_at entry_start
argz_insert al a none entry = argz_add al a entry
argz_insert al a (some before) entry =
    if leb a.len before
    then done (einval, a)
    else if ltb 0 before
    then (do b ← entry_start (bytes a.block) before; insert_at al a b entry)
    else insert_at al a before entry

-- `strnlen` up to the next '\0', and `sep` over it unless at most that byte is left.
unfoldable pub argz_stringify : Bytes → ℕ → ℕ → Outcome Bytes
argz_stringify m zero sep = done m
argz_stringify [] (suc len) sep = fault
argz_stringify (suc c ∷ m) (suc len) sep = argz_stringify m len sep >>= λ m'. done (suc c ∷ m')
argz_stringify (zero ∷ m) (suc len) sep =
    let rest = argz_stringify m len sep >>= λ m'. done (sep % 256 ∷ m') in
    if len == 0 then done (zero ∷ m) else rest
