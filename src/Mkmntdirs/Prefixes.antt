-- ===== src/Mkmntdirs/Prefixes.antt =====
-- The directories that mkmntdirs.c makes, against the beginnings of each mount point's path.
use hassio_installer.Prelude.{
  ℕ, zero, suc, ◌+◌, ◌≤◌, ◌<◌, ◌∷◌, [], ◌++◌, List, Bool, true, false, not, ◌&&◌, Option, none,
  some, Bytes, codes, length, ◌==◌, if◌then◌else◌, ◌≡◌, refl, sym, ◌∙◌, ap, arith, Bool-cases, inl,
  inr,
}
use hassio_installer.Mkmntdirs.{
  slash, same, skip_slashes, to_part, mkdir_from, mkdir_recursive, each_entry, file_name, End, exit,
  err, main,
}

-- `front` is what of the path is behind, and `after` whether a '/' was last: each beginning of the
-- path that ends at the end of a run of '/', and the path.
unfoldable pub ancestors_from : Bool → Bytes → Bytes → List Bytes
ancestors_from after front [] = front ∷ []
ancestors_from after front (c ∷ s) =
    let rest = ancestors_from (c == slash) (front ++ c ∷ []) s in
    if after && not (c == slash) then front ∷ rest else rest

unfoldable pub ancestors : Bytes → List Bytes
unfolding ancestors_from
ancestors path = ancestors_from false [] path

abbrev ends : Bytes × Bytes → List Bytes
ends (front, []) = front ∷ []
ends (front, c ∷ rest) = front ∷ ancestors_from false front (c ∷ rest)

ancestors-skip : (front s : Bytes) → ancestors_from true front s ≡ ends (skip_slashes front s)
unfolding ancestors_from skip_slashes
ancestors-skip front [] = refl
ancestors-skip front (c ∷ s) = elim (Bool-cases (c == slash)) [
  | inl e ↦ rw e (ancestors-skip (front ++ c ∷ []) s)
  | inr e ↦ rw e (ap (λ b. front ∷ ancestors_from b (front ++ c ∷ []) s) (sym e))
]

ancestors-part : (front s : Bytes) → ancestors_from false front s ≡ ends (to_part front s)
unfolding ancestors_from to_part
ancestors-part front [] = refl
ancestors-part front (c ∷ s) = elim (Bool-cases (c == slash)) [
  | inl e ↦ rw e (ancestors-skip (front ++ c ∷ []) s)
  | inr e ↦ rw e (ancestors-part (front ++ c ∷ []) s)
]

length-skip : (front s : Bytes) → length (skip_slashes front s).1 ≤ length s
unfolding skip_slashes
length-skip front [] = omega arith
length-skip front (c ∷ s) = ground (arith, length-skip (front ++ c ∷ []) s)

length-part : (front s : Bytes) (c : ℕ) → length (to_part front (c ∷ s)).1 ≤ length s
unfolding to_part
length-part front [] c = ground (arith, length-skip (front ++ c ∷ []) [])
length-part front (d ∷ s) c =
    ground (arith, length-skip (front ++ c ∷ []) (d ∷ s), length-part (front ++ c ∷ []) s d)

mkdir_turn :
    (fuel : ℕ) (next : Bytes × Bytes)
    → ((front s : Bytes)
        → length s < fuel
        → mkdir_from fuel front s ≡ some (ancestors_from false front s))
    → length next.1 < fuel
    → elim next.1 as (λ _. Option (List Bytes)) [
      | [] ↦ some (next.0 ∷ [])
      | c ∷ rest ↦ elim (mkdir_from fuel next.0 (c ∷ rest)) as (λ _. Option (List Bytes)) [
        | none ↦ none
        | some paths ↦ some (next.0 ∷ paths)
      ]
    ]
      ≡ some (ends next)
mkdir_turn fuel (front, []) ih h = refl
mkdir_turn fuel (front, c ∷ rest) ih h = rw (ih front (c ∷ rest) h)

mkdir_from_lem :
    (fuel : ℕ) (front s : Bytes)
    → length s < fuel
    → mkdir_from fuel front s ≡ some (ancestors_from false front s)
unfolding mkdir_from ancestors_from
mkdir_from_lem zero front s h = absurd (omega arith)
mkdir_from_lem (suc fuel) front [] h = ap some (ancestors-part front [])
mkdir_from_lem (suc fuel) front (c ∷ s) h =
    let short = length-part front s c in
    mkdir_turn fuel (to_part front (c ∷ s)) (λ f r. mkdir_from_lem fuel f r) (omega arith)
    ∙ ap some (sym (ancestors-part front (c ∷ s)))

unfoldable pub all_ancestors : List Bytes → List Bytes
unfolding ancestors same
all_ancestors [] = []
all_ancestors (mnt_dir ∷ rest) =
    if same mnt_dir (codes "none")
    then all_ancestors rest
    else ancestors mnt_dir ++ all_ancestors rest

each_entry_lem : (entries : List Bytes) → each_entry entries ≡ some (all_ancestors entries)
unfolding each_entry all_ancestors mkdir_recursive ancestors
each_entry_lem [] = refl
each_entry_lem (mnt_dir ∷ rest) =
    let run = mkdir_from_lem (length mnt_dir + 1) [] mnt_dir (omega arith) in
    elim (Bool-cases (same mnt_dir (codes "none"))) [
      | inl e ↦ rw (e, each_entry_lem rest)
      | inr e ↦ rw (e, run, each_entry_lem rest)
    ]

-- main ends on every list of arguments and every fstab: for each mount point but "none", in order,
-- it makes the directories that end at a run of '/', from the root down, and the mount point
-- itself; without a file to read it makes none and exits with an error.
pub main-ancestors :
    (fstab : Bytes → Option (List Bytes)) (args : List Bytes)
    → main fstab args ≡ elim (fstab (file_name args)) as (λ _. Option End) [
      | none ↦ some (err (file_name args))
      | some entries ↦ some (exit (all_ancestors entries))
    ]
unfolding main
main-ancestors fstab args =
    elim (fstab (file_name args))
      as (λ o.
        elim o as (λ _. Option End) [
          | none ↦ some (err (file_name args))
          | some entries ↦ elim (each_entry entries) as (λ _. Option End) [
            | none ↦ none
            | some paths ↦ some (exit paths)
          ]
        ]
        ≡ elim o as (λ _. Option End) [
          | none ↦ some (err (file_name args))
          | some entries ↦ some (exit (all_ancestors entries))
        ]) [ none ↦ refl | some entries ↦ rw (each_entry_lem entries) ]
