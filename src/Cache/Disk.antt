-- ===== src/Cache/Disk.antt =====
-- The file system as package cache uses it: os.Stat, os.ReadFile, os.WriteFile and os.Remove.
-- A locked path stands for the I/O errors other than "does not exist".
use azs3_proxy.Prelude.{
  ℕ, ◌<◌, ◌≡◌, Text, Bool, Option, none, some, List, length, eq_text, int64_half, arith,
  if◌then◌else◌,
}

pub record Disk : Type 0 where
  pub files : Text → Option (List ℕ)
  pub locked : Text → Bool

pub data Removed : Type 0 where
  removed not_exist remove_failed : Removed

abbrev pub update : (Text → Option (List ℕ)) → Text → Option (List ℕ) → Text → Option (List ℕ)
update f p v q = if eq_text p q then v else f q

-- os.ReadFile
abbrev pub read_file : Disk → Text → Option (List ℕ)
read_file d p = d.files p

-- os.Stat, of which the cache reads the size
abbrev pub stat : Disk → Text → Option ℕ
stat d p = elim (d.files p) [ none ↦ none | some bytes ↦ some (length bytes) ]

-- os.WriteFile
unfoldable pub write_file : Disk → Text → List ℕ → Option Disk
write_file d p bytes =
    if d.locked p then none else some (record d { files = update d.files p (some bytes) })

-- os.Remove
unfoldable pub remove : Disk → Text → Disk × Removed
remove d p = elim (d.files p) [
  | none ↦ (d, not_exist)
  | some _ ↦
      if d.locked p
      then (d, remove_failed)
      else (record d { files = update d.files p none }, removed)
]

-- copyFile of lru.go
unfoldable pub copy_file : Disk → Text → Text → Option Disk
unfolding write_file
copy_file d src dst = elim (read_file d src) [ none ↦ none | some bytes ↦ write_file d dst bytes ]

-- Sizes are int64: no file is longer.
abbrev pub FitsInt64 : Disk → Type 0
FitsInt64 d = (p : Text) (bytes : List ℕ) → d.files p ≡ some bytes → length bytes < int64_half

pub remove-FitsInt64 : (d : Disk) (p : Text) → FitsInt64 d → FitsInt64 (remove d p).0
unfolding remove
remove-FitsInt64 d p fits q bytes h = ground (arith, fits q bytes)

pub copy_file-FitsInt64 :
    (d : Disk) (src dst : Text) {d' : Disk}
    → copy_file d src dst ≡ some d'
    → FitsInt64 d
    → FitsInt64 d'
unfolding copy_file
copy_file-FitsInt64 d src dst h fits q bytes found = ground (arith, fits q bytes, fits src bytes)
