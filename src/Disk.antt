-- ===== src/Disk.antt =====
-- The directory of the uploads, as the upload service uses the file system. Each call is a parameter: it
-- fails, or does what `DiskLaws` documents of it; a failed write may leave any part of its data.
use pluto_feed.Prelude.{
  ◌≡◌, ◌⊎◌, false, Option, none, some, List, [], ◌∷◌, ◌++◌, Bytes, bytes_eq, if◌then◌else◌,
}
use pluto_feed.Apierror.{Error, Act, ok, err}
use pluto_feed.Outcome.{Writes}

-- The files by their paths.
abbrev pub Files : Type 0
Files = List (Bytes × Bytes)

unfoldable pub file_at : Bytes → Files → Option Bytes
file_at path [] = none
file_at path ((p, content) ∷ files) =
    let rest = file_at path files in if bytes_eq p path then some content else rest

abbrev pub or_empty : Option Bytes → Bytes
or_empty none = []
or_empty (some content) = content

-- A file that is made, or cut to nothing, and data at the end of a file.
unfoldable pub create_file : Bytes → Files → Files
create_file path files = (path, []) ∷ files

unfoldable pub append_file : Bytes → Bytes → Files → Files
append_file path content files = (path, or_empty (file_at path files) ++ content) ∷ files

pub record Disk : Type 0 where
  pub mkdir_all : Bytes → Act Files (Unit {0})
  pub create : Bytes → Act Files (Unit {0})
  pub write : Bytes → Bytes → Act Files (Unit {0})

-- The other files are as they were.
abbrev pub Elsewhere : Bytes → Files → Files → Type 0
Elsewhere path before after =
    (p : Bytes) → bytes_eq path p ≡ false → file_at p after ≡ file_at p before

pub record DiskLaws (disk : Disk) : Type 0 where
  pub mkdir_law : (dir : Bytes) → Writes (disk.mkdir_all dir) (λ files. files)
  pub create_law : (path : Bytes) → Writes (disk.create path) (create_file path)
  pub write_law :
      (path content : Bytes) (files : Files)
      → (disk.write path content files ≡ (ok tt, append_file path content files))
        ⊎ ((e : Error) × (after : Files) × (disk.write path content files ≡ (err e, after))
            × Elsewhere path files after)
