-- ===== src/Bbsuid/Guard.antt =====
-- What bbsuid.c lets through to busybox.
use hassio_installer.Prelude.{
  ℕ, ◌+◌, ◌∷◌, [], ◌++◌, append_assoc, List, true, Bytes, codes, ◌==◌, if◌then◌else◌, ◌≡◌, ◌≢◌,
  refl, sym, ◌∙◌, ap₂, ◌⊎◌, inl, inr, All, arith, Bool-cases,
}
use hassio_installer.Bbsuid.{
  slash, busybox, applets, same, after_slash, applet_from_path, listed, is_valid_applet, Call,
  execv, unlink, symlink, System, exec_busybox, link_all, install_links, wants_install, main,
}

abbrev pub NoSlash : Bytes → Type 0
NoSlash s = All (λ c. c ≢ slash) s

same→eq : (s t : Bytes) → same s t ≡ true → s ≡ t
unfolding same
same→eq [] [] h = refl
same→eq [] (d ∷ t) h = ground arith
same→eq (c ∷ s) [] h = ground arith
same→eq (c ∷ s) (d ∷ t) h =
    let (e, r) : (c ≡ d) × (same s t ≡ true) = ground arith in ap₂ ◌∷◌ e (same→eq s t r)

same_refl : (s : Bytes) → same s s ≡ true
unfolding same
same_refl [] = refl
same_refl (c ∷ s) = ground (arith, same_refl s)

after_slash_none : (p str : Bytes) → NoSlash str → after_slash p str ≡ p
unfolding after_slash
after_slash_none p [] h = refl
after_slash_none p (c ∷ str) (h, hs) = ground (arith, after_slash_none p str hs)

-- A path that ends in a name gives the name.
after_slash_last : (p dir base : Bytes) → NoSlash base → after_slash p (dir ++ slash ∷ base) ≡ base
unfolding after_slash
after_slash_last p [] base h = after_slash_none base base h
after_slash_last p (c ∷ dir) base h =
    ground (arith, after_slash_last (dir ++ slash ∷ base) dir base h, after_slash_last p dir base h)

after_slash_kind :
    (p str : Bytes) → (NoSlash str × (after_slash p str ≡ p)) ⊎ NoSlash (after_slash p str)
unfolding after_slash
after_slash_kind p [] = inl (tt, refl)
after_slash_kind p (c ∷ str) = elim (Bool-cases (c == slash)) [
  | inl e ↦ elim (after_slash_kind str str) [
    | inl (h, q) ↦ inr (rw (e, q) h)
    | inr h ↦ inr (rw e h)
  ]
  | inr e ↦ elim (after_slash_kind p str) [
    | inl (h, q) ↦ inl ((ground arith, h), rw (e, q))
    | inr h ↦ inr (rw e h)
  ]
]

applet_from_path-NoSlash : (str : Bytes) → NoSlash (applet_from_path str)
unfolding applet_from_path
applet_from_path-NoSlash str = elim (after_slash_kind str str) [ inl (h, q) ↦ rw q h | inr h ↦ h ]

-- What an applet's name taken from a path is: the part behind the last '/', the whole of a name
-- without one, and never one with a '/'.
pub applet_from_path_lem :
    (dir base str : Bytes)
    → NoSlash base
    → (applet_from_path (dir ++ slash ∷ base) ≡ base)
      × (applet_from_path base ≡ base)
      × NoSlash (applet_from_path str)
unfolding applet_from_path
applet_from_path_lem dir base str h =
    (after_slash_last _ dir base h, after_slash_none base base h, applet_from_path-NoSlash str)

-- The name is that of an applet of the list.
abbrev pub AppletName : Bytes → Type 0
AppletName app =
    (before : List Bytes) × (a : Bytes) × (after : List Bytes) × (applets ≡ before ++ a ∷ after)
    × (app ≡ applet_from_path a)

listed-AppletName :
    (before rest : List Bytes) (app : Bytes)
    → NoSlash app
    → applets ≡ before ++ rest
    → listed rest app ≡ true
    → AppletName app
unfolding listed applet_from_path
listed-AppletName before [] app h all e = ground arith
listed-AppletName before (a ∷ rest) app h all e =
    elim (Bool-cases (same (applet_from_path app) (applet_from_path a))) [
      | inl q ↦ (
        before,
        a,
        rest,
        all,
        sym (after_slash_none app app h) ∙ same→eq (applet_from_path app) (applet_from_path a) q,
      )
      | inr q ↦
          listed-AppletName (before ++ a ∷ []) rest app h
            (all ∙ sym (append_assoc before (a ∷ []) rest)) (ground arith)
    ]

-- The allowed calls: busybox run as an applet of the list with the caller's arguments, and links
-- made by root alone.
abbrev pub Allowed : System → Bytes → List Bytes → Call → Type 0
Allowed sys argv0 args (execv path argv) =
    (path ≡ busybox)
    × (argv ≡ busybox ∷ applet_from_path argv0 ∷ args)
    × AppletName (applet_from_path argv0)
Allowed sys argv0 args (unlink a) = (sys.uid ≡ 0) × (sys.is_link a ≡ true)
Allowed sys argv0 args (symlink a) = sys.uid ≡ 0

link_all-Allowed :
    (sys : System) (argv0 : Bytes) (args names : List Bytes) (r : ℕ)
    → sys.uid ≡ 0
    → All (Allowed sys argv0 args) (link_all sys names r).0
unfolding link_all
link_all-Allowed sys argv0 args [] r root = tt
link_all-Allowed sys argv0 args (a ∷ rest) r root =
    let next = link_all-Allowed sys argv0 args rest (if sys.links a then r else r + 1) root in
    elim (Bool-cases (sys.is_link a)) [
      | inl e ↦ rw e ((root, e), (root, next))
      | inr e ↦ rw e (root, next)
    ]

install_links-Allowed :
    (sys : System) (argv0 : Bytes) (args : List Bytes)
    → All (Allowed sys argv0 args) (install_links sys).0
unfolding install_links
install_links-Allowed sys argv0 args = elim (Bool-cases (sys.uid == 0)) [
  | inl e ↦ rw e (link_all-Allowed sys argv0 args applets 0 (ground arith))
  | inr e ↦ rw e tt
]

-- Whatever name and arguments it is called with, and whoever calls it, the only program bbsuid
-- runs is /bin/busybox, as an applet of its list and with the caller's arguments; and it removes
-- and makes links for root alone, removing symbolic links only.
pub main-Allowed :
    (sys : System) (argv0 : Bytes) (args : List Bytes)
    → All (Allowed sys argv0 args) (main sys argv0 args).0
unfolding main is_valid_applet exec_busybox
main-Allowed sys argv0 args = elim (Bool-cases (same (applet_from_path argv0) (codes "bbsuid"))) [
  | inl e ↦ elim (Bool-cases (wants_install sys args)) [
    | inl w ↦ rw (e, w) (install_links-Allowed sys argv0 args)
    | inr w ↦ rw (e, w) tt
  ]
  | inr e ↦ elim (Bool-cases (listed applets (applet_from_path argv0))) [
    | inr w ↦ rw (e, w) tt
    | inl w ↦
        rw (e, w)
          (
            (
              refl,
              refl,
              listed-AppletName [] applets (applet_from_path argv0) (applet_from_path-NoSlash argv0)
                  refl w,
            ),
            tt,
          )
  ]
]
