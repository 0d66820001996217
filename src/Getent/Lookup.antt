-- ===== src/Getent/Lookup.antt =====
-- Of getent.c.
-- The keys of `networks`, and the look-up of a shell.
use hassio_installer.Prelude.{
  ◌≡◌, ◌↔◌, true, none, some, List, [], ◌∷◌, Bytes, arith, done, fault, ◌⊎◌, inl, inr, Bool-cases,
  Option-cases,
}
use hassio_installer.Getent.Types.{Library, Netent}
use hassio_installer.Getent.Replies.{reply, notfound, bytes_eq}
use hassio_installer.Getent.Databases.{networks, each_network, find_network, find_shell}

-- With a key `networks` never prints: for a network that is found it returns RV_NOTFOUND with no
-- line, and for one that is not it reads through NULL.
pub networks_inverted :
    (lib : Library) (k : Bytes) (keys : List Bytes)
    → ((find_network lib k ≡ none) × (networks lib (k ∷ keys) ≡ fault))
      ⊎ ((ne : Netent) × (find_network lib k ≡ some ne)
          × (networks lib (k ∷ keys) ≡ done (reply [] notfound)))
unfolding networks each_network
networks_inverted lib k keys = elim (Option-cases (find_network lib k)) [
  | inl e ↦ inl (e, ground arith)
  | inr (ne, e) ↦ inr (ne, e, ground arith)
]

pub bytes_eq_iff : (a b : Bytes) → (bytes_eq a b ≡ true) ↔ (a ≡ b)
unfolding bytes_eq
bytes_eq_iff (x ∷ a) (y ∷ b) = ground (arith, bytes_eq_iff a b)
bytes_eq_iff _ _ = ground arith

abbrev pub Among : Bytes → List Bytes → Type 0
Among k [] = ⊥
Among k (s ∷ ss) = (s ≡ k) ⊎ Among k ss

find_shell-Among : (ss : List Bytes) (k : Bytes) → Among k ss → find_shell ss k ≡ some k
unfolding find_shell
find_shell-Among [] k h = absurd h
find_shell-Among (s ∷ ss) k (inl e) = ground (arith, bytes_eq_iff s k)
find_shell-Among (s ∷ ss) k (inr h) = ground (arith, bytes_eq_iff s k, find_shell-Among ss k h)

find_shell_only : (ss : List Bytes) (k sh : Bytes) → find_shell ss k ≡ some sh → Among k ss
unfolding find_shell
find_shell_only [] k sh h = cc
find_shell_only (s ∷ ss) k sh h = elim (Bool-cases (bytes_eq s k)) [
  | inl e ↦ inl ((bytes_eq_iff s k).0 e)
  | inr e ↦ inr (find_shell_only ss k sh (ground arith))
]

-- A shell is found exactly if it is in the list of shells, and what is printed is the key itself.
pub find_shell_iff :
    (ss : List Bytes) (k sh : Bytes) → (find_shell ss k ≡ some sh) ↔ ((sh ≡ k) × Among k ss)
find_shell_iff ss k sh = (
  λ h. let m = find_shell_only ss k sh h in (ground (arith, find_shell-Among ss k m), m),
  λ (e, m). rw e (find_shell-Among ss k m),
)
