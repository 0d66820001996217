-- ===== src/Argz/Client/History.antt =====
-- Of argz.c.
-- Any sequence of changes to a vector, against the same changes of a list of strings.
use hassio_installer.Prelude.{
  ◌≡◌, ◌⊎◌, inl, inr, refl, ap, none, List, [], ◌∷◌, ◌++◌, Bytes, length, All, arith, Outcome, done,
}
use hassio_installer.Argz.{Errno, ok, enomem, Alloc, Argz, argz, bytes, argz_count}
use hassio_installer.Argz.Vectors.{NoNul, packed, IsVector}
use hassio_installer.Argz.Walk.{Fits, argz_count-length}
use hassio_installer.Argz.Replace.Rewrite.{Refuses}
use hassio_installer.Argz.Client.{
  contents, Op, add, insert, delete, add_sep, replace, unless_failed, run, apply, replay,
}
use hassio_installer.Argz.Client.Entries.{contents-strings}
use hassio_installer.Argz.Client.Changes.{Legal, Kept, apply-NoNul, perform-Performed}

-- All vectors of a history are objects in memory.
abbrev pub Sized : List Op → List Bytes → Type 0
Sized [] ss = Fits (length (packed ss))
Sized (op ∷ ops) ss = Fits (length (packed ss)) × Sized ops (apply op ss)

-- A vector of strings that a client can read.
record Holds (ss : List Bytes) (a : Argz) : Type 0 where
  vector : IsVector ss a
  strings : All NoNul ss
  size : Fits (length (packed ss))

-- A history ends as the lists do, or stops at a change without memory.
data Ends (al : Alloc) (ops : List Op) (ss : List Bytes) (o : Outcome (Errno × Argz)) : Type 0 where
  through : (a' : Argz) → o ≡ done (ok, a') → Holds (replay ops ss) a' → Ends al ops ss o
  stopped :
      (before after : List Op) (op : Op) (a' : Argz)
      → ops ≡ before ++ op ∷ after
      → o ≡ done (enomem, a')
      → All NoNul (replay before ss)
      → Fits (length (packed (replay before ss)))
      → Kept op (replay before ss) a'
      → Refuses al
      → Ends al ops ss o

run-Ends :
    (al : Alloc) (ops : List Op) (ss : List Bytes) (a : Argz)
    → All Legal ops
    → All NoNul ss
    → Sized ops ss
    → IsVector ss a
    → Ends al ops ss (run al ops a)
unfolding run unless_failed replay
run-Ends al [] ss a l h fits v = through a refl (record { vector = v; strings = h; size = fits })
run-Ends al (op ∷ ops) ss a (l, ls) h (fits, rest) v =
    elim (perform-Performed al ss a v h fits op l) [
      | inl (a', e, v') ↦
          elim (run-Ends al ops (apply op ss) a' ls (apply-NoNul op ss l h) rest v') [
            | through b r w ↦ through b (rw e r) w
            | stopped before after op' b cut r hs sz w never ↦
                stopped (op ∷ before) after op' b (ap (◌∷◌ op) cut) (rw e r) hs sz w never
          ]
      | inr (a', e, w, never) ↦ stopped [] ops op a' refl (rw e refl) h fits w never
    ]

-- What a client reads of a vector: its strings, one after the other, and their number.
abbrev pub Reads : List Bytes → Argz → Type 0
Reads ss a = (contents a ≡ done ss) × (argz_count (bytes a.block) a.len ≡ done (length ss))

-- What it finds behind a change without memory.
abbrev pub Finds : Op → List Bytes → Argz → Type 0
Finds (add_sep s delim) ss a = a.block ≡ none
Finds op ss a = Reads ss a

Holds-Reads : (ss : List Bytes) (a : Argz) → Holds ss a → Reads ss a
Holds-Reads ss a h = (
  contents-strings ss a h.vector h.strings,
  argz_count-length ss a h.vector h.strings (omega (arith, h.vector.len, h.size)),
)

Kept-Finds :
    (op : Op) (ss : List Bytes) (a : Argz)
    → All NoNul ss
    → Fits (length (packed ss))
    → Kept op ss a
    → Finds op ss a
Kept-Finds (add s) ss a hs sz v = Holds-Reads ss a (record { vector = v; strings = hs; size = sz })
Kept-Finds (insert k s) ss a hs sz v =
    Holds-Reads ss a (record { vector = v; strings = hs; size = sz })
Kept-Finds (delete k) ss a hs sz v =
    Holds-Reads ss a (record { vector = v; strings = hs; size = sz })
Kept-Finds (add_sep s delim) ss a hs sz v = v
Kept-Finds (replace c str with) ss a hs sz v =
    Holds-Reads ss a (record { vector = v; strings = hs; size = sz })

-- From the empty vector any sequence of changes is, for a client that reads with `argz_next` and
-- counts, the same sequence on a list of strings, if no string holds a '\0', no delimiter is one
-- and the vectors are objects in memory. It stops early only at a change for which the allocator
-- refuses some request, with ENOMEM and the strings as they were before that change, or with NULL
-- where the change was `argz_add_sep`.
pub run-replay :
    (al : Alloc) (ops : List Op)
    → All Legal ops
    → Sized ops []
    → ((a : Argz) × (run al ops (argz none 0) ≡ done (ok, a)) × Reads (replay ops []) a)
      ⊎ ((before after : List Op) × (op : Op) × (a : Argz) × (ops ≡ before ++ op ∷ after)
          × (run al ops (argz none 0) ≡ done (enomem, a))
          × Finds op (replay before []) a
          × Refuses al)
run-replay al ops legal sized =
    let nothing : IsVector [] (argz none 0) = record { len = refl; slack = []; holds = refl } in
    elim (run-Ends al ops [] (argz none 0) legal tt sized nothing) [
      | through a r h ↦ inl (a, r, Holds-Reads _ a h)
      | stopped before after op a cut r hs sz w never ↦
          inr (before, after, op, a, cut, r, Kept-Finds op (replay before []) a hs sz w, never)
    ]
