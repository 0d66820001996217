-- ===== src/Getent/Replies.antt =====
-- vols/build/aports/main/musl/getent.c: what a callback replies, and the loops over keys and
-- entries that the callbacks have in common.
use hassio_installer.Prelude.{
  Bool, true, false, ◌&&◌, Option, none, some, List, [], ◌∷◌, Bytes, ◌==◌,
}

-- `RV_OK` and the others, which `main` returns.
pub data Rv : Type 0 where
  ok usage notfound noenum : Rv

-- The lines of stdout and the result.
pub record Reply : Type 0 where
  pub out : List Bytes
  pub rv : Rv

abbrev pub reply : List Bytes → Rv → Reply
reply out rv = record { out = out; rv = rv }

abbrev pub before : Bytes → Reply → Reply
before l r = record r { out = l ∷ r.out }

module _ {A : Type 0} (find : Bytes → Option A) (print : A → Bytes) where
  -- `for (i = 2; i < argc; i++)`: the loop breaks with RV_NOTFOUND at the first NULL.
  unfoldable pub each_key : List Bytes → Reply
  each_key [] = reply [] ok
  each_key (k ∷ keys) = elim (find k) [
    | none ↦ reply [] notfound
    | some e ↦ before (print e) (each_key keys)
  ]

  -- `while ((e = get…ent()) != NULL)`.
  unfoldable pub each_entry : List A → List Bytes
  each_entry [] = []
  each_entry (e ∷ es) = print e ∷ each_entry es

  unfoldable pub dump_or_find : List A → List Bytes → Reply
  unfolding each_key each_entry
  dump_or_find es [] = reply (each_entry es) ok
  dump_or_find es (k ∷ keys) = each_key (k ∷ keys)

-- `strcmp(a, b) == 0`
unfoldable pub bytes_eq : Bytes → Bytes → Bool
bytes_eq [] [] = true
bytes_eq (x ∷ a) (y ∷ b) = x == y && bytes_eq a b
bytes_eq _ _ = false
