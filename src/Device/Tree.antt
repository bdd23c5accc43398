-- ===== src/Device/Tree.antt =====
-- The calls of `std::fs` that the device makes, on a tree of entries by their paths. Reading and the
-- synchronising calls do not fail here on a disk that is there; a write may, and what it answers is a
-- parameter.
pub mod Laws
use distributed_jbod.Common.{
  ℕ, ◌+◌, Bool, true, false, not, ◌&&◌, Option, none, some, List, [], ◌∷◌, ◌++◌, map, Outcome, ok,
  err, if◌then◌else◌, bytes_eq,
}
use distributed_jbod.Common.Find.{filter}
use distributed_jbod.Naming.{Text}
use distributed_jbod.Device.{
  FilePath, IoKind, not_found, already_exists, not_empty, other, DeviceError, io, Entry, dir, file,
  Disk, Io, done, fail, ◌>>=◌, ◌>>◌,
}

abbrev pub Entries : Type 0
Entries = List (FilePath × Entry)

unfoldable pub paths_eq : FilePath → FilePath → Bool
paths_eq [] [] = true
paths_eq [] (b ∷ q) = false
paths_eq (a ∷ p) [] = false
paths_eq (a ∷ p) (b ∷ q) = bytes_eq a b && paths_eq p q

unfoldable pub entry_at : FilePath → Entries → Option Entry
entry_at p [] = none
entry_at p ((q, entry) ∷ entries) = if paths_eq q p then some entry else entry_at p entries

unfoldable pub put : FilePath → Entry → Entries → Entries
put p entry [] = (p, entry) ∷ []
put p entry ((q, old) ∷ entries) =
    if paths_eq q p then (q, entry) ∷ entries else (q, old) ∷ put p entry entries

unfoldable pub take_away : FilePath → Entries → Entries
take_away p entries = filter (λ (e : FilePath × Entry). not (paths_eq e.0 p)) entries

-- The name of an entry that stands in the directory `p`.
unfoldable pub child_of : FilePath → FilePath → Option Text
child_of [] [] = none
child_of [] (name ∷ []) = some name
child_of [] (a ∷ b ∷ q) = none
child_of (a ∷ p) [] = none
child_of (a ∷ p) (b ∷ q) = if bytes_eq a b then child_of p q else none

unfoldable pub children_of : FilePath → Entries → List Text
children_of p [] = []
children_of p ((q, entry) ∷ entries) = elim (child_of p q) [
  | none ↦ children_of p entries
  | some name ↦ name ∷ children_of p entries
]

abbrev pub change : (Entries → Entries) → Io (Unit {0})
change f disk = (ok tt, record disk { entries = f disk.entries })

-- `fs::create_dir(dir/name)`, with the directory that it stands in given apart.
unfoldable pub create_dir : FilePath → Text → Io (Unit {0})
create_dir parent name disk = elim (entry_at (parent ++ name ∷ []) disk.entries) [
  | some entry ↦ fail (io (parent ++ name ∷ []) already_exists) disk
  | none ↦ elim (entry_at parent disk.entries) [
    | some dir ↦ change (put (parent ++ name ∷ []) dir) disk
    | some (file content) ↦ fail (io (parent ++ name ∷ []) other) disk
    | none ↦ fail (io (parent ++ name ∷ []) not_found) disk
  ]
]

-- `fs::remove_file`.
unfoldable pub remove_file : FilePath → Io (Unit {0})
remove_file p disk = elim (entry_at p disk.entries) [
  | some (file content) ↦ change (take_away p) disk
  | some dir ↦ fail (io p other) disk
  | none ↦ fail (io p not_found) disk
]

-- `fs::remove_dir`: only an empty one.
unfoldable pub remove_dir : FilePath → Io (Unit {0})
remove_dir p disk = elim (entry_at p disk.entries) [
  | some dir ↦ elim (children_of p disk.entries) [
    | [] ↦ change (take_away p) disk
    | name ∷ names ↦ fail (io p not_empty) disk
  ]
  | some (file content) ↦ fail (io p other) disk
  | none ↦ fail (io p not_found) disk
]

-- `fs::read_to_string`.
unfoldable pub read_file : FilePath → Io (List ℕ)
read_file p disk = elim (entry_at p disk.entries) [
  | some (file content) ↦ done content disk
  | some dir ↦ fail (io p other) disk
  | none ↦ fail (io p not_found) disk
]

-- `fs::read_dir`, as the names it finds.
unfoldable pub read_dir : FilePath → Io (List Text)
read_dir p disk = elim (entry_at p disk.entries) [
  | some dir ↦ done (children_of p disk.entries) disk
  | some (file content) ↦ fail (io p other) disk
  | none ↦ fail (io p not_found) disk
]

-- `path.exists()`.
unfoldable pub exists : FilePath → Io Bool
exists p disk = elim (entry_at p disk.entries) [
  | some entry ↦ done true disk
  | none ↦ done false disk
]
