-- ===== src/ChkPwd/Accepts.antt =====
-- Of xfce4-screensaver-chkpwd.c.
-- When the check accepts a password.
use hassio_installer.Prelude.{
  ◌⊎◌, fault, done, ◌%◌, sym, ℕ, zero, suc, ◌+◌, ◌≤◌, ◌<◌, ◌≡◌, ◌↔◌, refl, ◌∙◌, Option, none, some,
  Bytes, arith, ltb, Bool-cases, inl, inr, Outcome, codes, c_string,
}
use hassio_installer.Prelude.Int.{ℤ, pos, negsuc}
use hassio_installer.ChkPwd.{
  Libc, returned, failed, encrypted, compare_hash, with_encrypted, with_input, with_login, check,
  status, End, connect, main, shadow_password, plain_password, Pointer, null, wild, string,
  assigned,
}

-- A result that is not 0 and of which the parent sees a 0.
abbrev pub Multiple : ℤ → Type 0
Multiple (pos n) = (0 < n) × (n % 256 ≡ 0)
Multiple (negsuc n) = (n + 1) % 256 ≡ 0

-- strcmp() is 0 for equal strings alone.
pub record IsStrcmp (strcmp : Bytes → Bytes → ℤ) : Type 0 where
  pub same : (s : Bytes) → strcmp s s ≡ pos 0
  pub only_same : (s t : Bytes) → strcmp s t ≡ pos 0 → s ≡ t

status_zero : (i : ℤ) → status (returned i) ≡ 0 → (i ≡ pos 0) ⊎ Multiple i
unfolding status
status_zero (pos zero) h = inl refl
status_zero (pos (suc n)) h = inr (omega arith, h)
status_zero (negsuc n) h = inr (omega arith)

Multiple-status : (i : ℤ) → Multiple i → status (returned i) ≡ 0
unfolding status
Multiple-status (pos n) (h, e) = e
Multiple-status (negsuc n) e = omega arith

-- What `encrypted` points to, and what crypt() makes of the password that was read, are the same
-- string, or strcmp() gives a multiple of 256 for them.
abbrev pub Accepted : Libc → Type 0
Accepted libc =
    (user pass e s : Bytes) × (libc.getlogin ≡ some user)
    × (libc.input ≡ some pass)
    × (encrypted libc user ≡ string e)
    × (libc.crypt (c_string pass) e ≡ some s)
    × ((s ≡ e) ⊎ Multiple (libc.strcmp s e))

-- No database has a password of the user, and `encrypted` is wild.
abbrev pub Unassigned : Libc → Type 0
Unassigned libc =
    (user : Bytes) × (libc.getlogin ≡ some user)
    × (shadow_password (libc.getspnam user) ≡ none)
    × (plain_password (libc.getpwnam user) ≡ none)
    × (libc.uninitialised ≡ wild)

-- How the check ends.
pub data Ends (libc : Libc) (o : Outcome End) : Type 0 where
  reads_wild : Unassigned libc → o ≡ fault → Ends libc o
  answers : (end : End) → o ≡ done end → ((status end ≡ 0) ↔ Accepted libc) → Ends libc o

assigned_wild :
    (libc : Libc) (user : Bytes)
    → encrypted libc user ≡ wild
    → (shadow_password (libc.getspnam user) ≡ none)
      × (plain_password (libc.getpwnam user) ≡ none)
      × (libc.uninitialised ≡ wild)
unfolding encrypted
assigned_wild libc user e =
    go (shadow_password (libc.getspnam user)) (plain_password (libc.getpwnam user)) e
  where
    go :
        (a b : Option Bytes)
        → elim a [ some s ↦ string s | none ↦ assigned libc.uninitialised b ] ≡ wild
        → (a ≡ none) × (b ≡ none) × (libc.uninitialised ≡ wild)
    go none none h = (refl, refl, h)
    go none (some s) h = absurd cc
    go (some s) b h = absurd cc

module _ (libc : Libc) (d : IsStrcmp libc.strcmp) (user pass : Bytes)
    (hu : libc.getlogin ≡ some user) (hp : libc.input ≡ some pass) where
  -- Another login, password or string than these is none.
  the_same :
      (e : Bytes)
      → encrypted libc user ≡ string e
      → Accepted libc
      → (s : Bytes) × (libc.crypt (c_string pass) e ≡ some s)
        × ((s ≡ e) ⊎ Multiple (libc.strcmp s e))
  the_same e he (u, q, f, s, a, b, x, y, m) =
      let k : u ≡ user = cc in let l : q ≡ pass = cc in let g : f ≡ e = cc in (s, cc, rw (sym g) m)

  compared :
      (e : Bytes) (o : Option Bytes)
      → encrypted libc user ≡ string e
      → libc.crypt (c_string pass) e ≡ o
      → (status (compare_hash libc e o) ≡ 0) ↔ Accepted libc
  unfolding status compare_hash
  compared e none he hc =
      (λ z. absurd (omega arith), λ a. let (s, c, m) = the_same e he a in absurd cc)
  compared e (some s) he hc = (
    λ z. elim (status_zero (libc.strcmp s e) z) [
      | inl same ↦ (user, pass, e, s, hu, hp, he, hc, inl (d.only_same s e same))
      | inr m ↦ (user, pass, e, s, hu, hp, he, hc, inr m)
    ],
    λ a.
        let (t, c, m) = the_same e he a in
        let q : t ≡ s = cc in
        elim m [
          | inl r ↦ let p : s ≡ e = sym q ∙ r in rw (p, d.same e) refl
          | inr n ↦ Multiple-status (libc.strcmp s e) (rw (sym q) n)
        ],
  )

-- open() finds /dev/null, and gives the lowest descriptor that is free, which is one above those
-- that it gave before.
pub record Opens (open_null : ℕ → ℤ) : Type 0 where
  pub fd : ℕ → ℕ
  pub opens : (n : ℕ) → open_null n ≡ pos (fd n)
  pub rises : (n : ℕ) → fd n < fd (suc n)

module _ (open_null : ℕ → ℤ) (o : Opens open_null) where
  fd_above : (n : ℕ) → n ≤ o.fd n
  fd_above zero = omega arith
  fd_above (suc n) = let h = fd_above n in let r = o.rises n in omega arith

  -- The fourth descriptor at the latest is above 2.
  connect_ends :
      (fuel n : ℕ) → n ≤ 3 → 4 ≤ fuel + n → (fd : ℕ) × (connect open_null fuel n ≡ some fd)
  unfolding connect
  connect_ends zero n three four = absurd (omega arith)
  connect_ends (suc fuel) n three four = elim (Bool-cases (ltb 2 (o.fd n))) [
    | inl e ↦ (o.fd n, rw (connect, o.opens n, e) refl)
    | inr e ↦
        let low = fd_above n in
        let rest = connect_ends fuel (n + 1) (ground arith) (omega arith) in
        (rest.0, rw (connect, o.opens n, e) rest.1)
  ]

Ends-failed :
    (libc : Libc) (message : Bytes) → (Accepted libc → ⊥) → Ends libc (done (failed message))
unfolding status
Ends-failed libc message n =
    answers (failed message) refl (λ z. absurd (omega arith), λ a. absurd (n a))

module _ (libc : Libc) (d : IsStrcmp libc.strcmp) (user : Bytes)
    (hu : libc.getlogin ≡ some user) where
  with_encrypted-Ends :
      (pass : Bytes) (p : Pointer)
      → libc.input ≡ some pass
      → encrypted libc user ≡ p
      → Ends libc (with_encrypted libc pass p)
  unfolding with_encrypted
  with_encrypted-Ends pass null hp he =
      Ends-failed libc (codes "failed to get encrypted password")
        (λ (u, q, f, s, a, b, x, y, m). let k : u ≡ user = cc in absurd cc)
  with_encrypted-Ends pass wild hp he =
      let (a, b, c) = assigned_wild libc user he in reads_wild (user, hu, a, b, c) refl
  with_encrypted-Ends pass (string e) hp he =
      let o = libc.crypt (c_string pass) e in
      answers (compare_hash libc e o) refl (compared libc d user pass hu hp e o he refl)

  with_input-Ends : (i : Option Bytes) → libc.input ≡ i → Ends libc (with_input libc user i)
  unfolding with_input
  with_input-Ends none hi =
      Ends-failed libc (codes "error reading password") (λ (u, q, f, s, a, b, x, y, m). absurd cc)
  with_input-Ends (some pass) hi = with_encrypted-Ends pass (encrypted libc user) hi refl

with_login-Ends :
    (libc : Libc)
    → IsStrcmp libc.strcmp
    → (l : Option Bytes) → libc.getlogin ≡ l
    → Ends libc (with_login libc l)
unfolding with_login
with_login-Ends libc d none h =
    Ends-failed libc (codes "failed to get login name") (λ (u, q, f, s, a, b, x, y, m). absurd cc)
with_login-Ends libc d (some user) h = with_input-Ends libc d user h libc.input refl

-- Where /dev/null opens, and gives descriptors that rise, and strcmp() gives 0 for equal strings
-- alone, fuel of 4 or more has the program end. If no database has a password of the user who is
-- logged in and what the variable for it holds at first is neither NULL nor a string, the program
-- may read through that. In every other case it ends with an answer, and the status that its
-- parent sees is 0 exactly if there are a login and a password that was read, and crypt() makes of
-- this password and of the string that the variable points to this very string, or one for which
-- strcmp() gives a multiple of 256 other than 0. The string is the password of a database, or,
-- where none has any, what the variable happens to point to.
pub main-Accepted :
    (libc : Libc) (fuel : ℕ)
    → 4 ≤ fuel
    → Opens libc.open_null
    → IsStrcmp libc.strcmp
    → (o : Outcome End) × (main fuel libc ≡ some o) × Ends libc o
unfolding main check
main-Accepted libc fuel four opens d =
    let c = connect_ends libc.open_null opens fuel 0 (omega arith) (omega arith) in
    (check libc, rw (main, c.1) refl, with_login-Ends libc d libc.getlogin refl)
