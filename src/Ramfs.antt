-- ===== src/Ramfs.antt =====
-- kernel/src/ramfs.c and ramfs.h: files in kernel memory. A file's node and data are blocks of
-- the heap, by address; what the code writes into them stands in the record of the file. The
-- messages on the serial line are left out.
pub mod Files
pub mod Find
pub mod Pages
pub mod Tests
use tuna_os.Base.{
  ℕ, zero, suc, ◌+◌, Bool, true, false, Option, none, some, List, [], ◌∷◌, ◌==◌, if◌then◌else◌,
  length,
}
use tuna_os.Strings.{str_eq}
use tuna_os.Kheap.{Kheap, kmalloc, kfree}

abbrev pub ramfs_name_max : ℕ
ramfs_name_max = 64

-- sizeof(struct ramfs_file).
abbrev pub node_size : ℕ
node_size = 88

-- `struct ramfs_file`, with its address, the string in `name` and the bytes at `data`.
pub record File : Type 0 where
  pub node : ℕ
  pub name : List ℕ
  pub address : ℕ
  pub bytes : List ℕ
  pub size : ℕ

-- The heap below and the list from `file_list` along `next`.
pub record Ramfs : Type 0 where
  pub heap : Kheap
  pub file_list : List File

unfoldable pub ramfs_init : Ramfs → Ramfs
ramfs_init s = record s { file_list = [] }

-- while (name[i] && i < RAMFS_NAME_MAX - 1), with `room` characters left.
unfoldable pub copy_name : (room : ℕ) → List ℕ → List ℕ
copy_name zero name = []
copy_name (suc room) [] = []
copy_name (suc room) (c ∷ name) = c ∷ copy_name room name

-- After the node was allocated: the data, the copy and the link in front of the list. The result
-- is `none` where `kmalloc` or `kfree` does not return, and otherwise the file or NULL.
unfoldable pub create_at : (node : ℕ) (name source : List ℕ) → Ramfs → Option (Option File × Ramfs)
create_at node name source s = elim (kmalloc (length source) s.heap) [
  | none ↦ none
  | some (address, heap) ↦
      let file : File = record {
        node = node;
        name = copy_name 63 name;
        address = address;
        bytes = source;
        size = length source;
      } in
      let created : Option (Option File × Ramfs) =
        some (some file, record { heap = heap; file_list = file ∷ s.file_list }) in
      let failed : Option (Option File × Ramfs) = elim (kfree node heap) [
        | none ↦ none
        | some heap' ↦ some (none, record s { heap = heap' })
      ] in
      if address == 0 then failed else created
]

unfoldable pub ramfs_create : (name source : List ℕ) → Ramfs → Option (Option File × Ramfs)
ramfs_create name source s = elim (kmalloc node_size s.heap) [
  | none ↦ none
  | some (node, heap) ↦
      let rest = create_at node name source (record s { heap = heap }) in
      if node == 0 then some (none, record s { heap = heap }) else rest
]

-- The first file of that name from a node of the list on.
unfoldable pub find_from : (name : List ℕ) → List File → Option File
find_from name [] = none
find_from name (f ∷ fs) =
    let rest = find_from name fs in if str_eq f.name name then some f else rest

unfoldable pub ramfs_find : (name : List ℕ) → Ramfs → Option File
unfolding find_from
ramfs_find name s = find_from name s.file_list

-- The names and sizes that `ramfs_list` reports, and the count.
unfoldable pub ramfs_list : Ramfs → List (List ℕ × ℕ) × ℕ
ramfs_list s = (entries s.file_list, length s.file_list)
  where
    entries : List File → List (List ℕ × ℕ)
    entries [] = []
    entries (f ∷ fs) = (f.name, f.size) ∷ entries fs
