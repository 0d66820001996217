-- ===== src/Mkmntdirs.antt =====
-- vols/build/aports/main/alpine-baselayout/mkmntdirs.c: the directories of an fstab's mount points,
-- each with the directories above it. A C string is its bytes before the '\0'; the walk of `s` over
-- `path` is `front`, the bytes it passed, and the rest. What main did is the list of the paths it
-- called mkdir() with. setmntent() and getmntent() are a parameter: the mount points of each file.
pub mod Prefixes
use hassio_installer.Prelude.{
  ℕ, zero, suc, ◌+◌, ◌∷◌, [], ◌++◌, List, Bool, true, false, ◌&&◌, Option, none, some, Bytes, codes,
  length, ◌==◌, if◌then◌else◌,
}

abbrev pub slash : ℕ
slash = 47

-- strcmp() == 0
unfoldable pub same : Bytes → Bytes → Bool
same [] [] = true
same [] (d ∷ t) = false
same (c ∷ s) [] = false
same (c ∷ s) (d ∷ t) = (c == d) && same s t

-- The two inner loops: to the next '/' and over the ones behind it. What is passed, and the rest:
-- its first byte is `c`, which is '\0' where nothing is left.
unfoldable pub skip_slashes : Bytes → Bytes → Bytes × Bytes
skip_slashes front [] = (front, [])
skip_slashes front (c ∷ s) =
    let next = skip_slashes (front ++ c ∷ []) s in if c == slash then next else (front, c ∷ s)

unfoldable pub to_part : Bytes → Bytes → Bytes × Bytes
unfolding skip_slashes
to_part front [] = (front, [])
to_part front (c ∷ s) =
    let next = to_part (front ++ c ∷ []) s in
    if c == slash then skip_slashes (front ++ c ∷ []) s else next

-- The outer loop, on fuel: each turn but the last goes over a byte at least, so the length of the
-- path and one turn more are enough. With *s replaced by '\0', the path is what is passed.
unfoldable pub mkdir_from : ℕ → Bytes → Bytes → Option (List Bytes)
unfolding to_part
mkdir_from zero front s = none
mkdir_from (suc fuel) front s =
    let next = to_part front s in
    elim next.1 [
      | [] ↦ some (next.0 ∷ [])
      | c ∷ rest ↦ elim (mkdir_from fuel next.0 (c ∷ rest)) [
        | none ↦ none
        | some paths ↦ some (next.0 ∷ paths)
      ]
    ]

unfoldable pub mkdir_recursive : Bytes → Option (List Bytes)
unfolding mkdir_from
mkdir_recursive path = mkdir_from (length path + 1) [] path

unfoldable pub each_entry : List Bytes → Option (List Bytes)
unfolding same mkdir_recursive
each_entry [] = some []
each_entry (mnt_dir ∷ rest) =
    let next = each_entry rest in
    if same mnt_dir (codes "none") then next else elim (mkdir_recursive mnt_dir) [
      | none ↦ none
      | some paths ↦ elim next [ none ↦ none | some more ↦ some (paths ++ more) ]
    ]

-- How main ends, with the mkdir() calls: 0, or err(1) with the file that cannot be read.
pub data End : Type 0 where
  exit : List Bytes → End
  err : Bytes → End

-- `fstab` is what setmntent() and getmntent() give of a file: nothing, or its mount points.
-- Without exactly one argument the file is /etc/fstab.
unfoldable pub file_name : List Bytes → Bytes
file_name (arg1 ∷ []) = arg1
file_name _ = codes "/etc/fstab"

unfoldable pub main : (Bytes → Option (List Bytes)) → List Bytes → Option End
unfolding each_entry file_name
main fstab args = elim (fstab (file_name args)) [
  | none ↦ some (err (file_name args))
  | some entries ↦ elim (each_entry entries) [ none ↦ none | some paths ↦ some (exit paths) ]
]
