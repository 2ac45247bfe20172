-- ===== src/Ramfs/Tests.antt =====
-- Files that are created and found.
use tuna_os.Base.{ℕ, ◌+◌, ◌≡◌, ◌≢◌, ◌⊎◌, some, List, [], ◌∷◌, length, arith, ◌∙◌}
use tuna_os.Kheap.{kheap_start, header_size}
use tuna_os.Kheap.Tests.{
  half_used, half_blocks, half_used-IsHeap, after_node, after_data, node-run, data-run,
}
use tuna_os.Ramfs.{Ramfs, File, ramfs_create, ramfs_find}
use tuna_os.Ramfs.Files.{
  IsCreated, IsRefused, made, create_at-made, ramfs_create-at, ramfs_create-cases,
}
use tuna_os.Ramfs.Find.{ramfs_find-create}

abbrev no_files : Ramfs
no_files = record { heap = half_used; file_list = [] }

abbrev greeting : List ℕ
greeting = 104 ∷ 105 ∷ []

abbrev contents : List ℕ
contents = 1 ∷ 2 ∷ []

abbrev greeting_file : File
greeting_file =
    made (kheap_start + 1024 + header_size) (kheap_start + 1128 + header_size) greeting contents

abbrev one_file : Ramfs
one_file = record { heap = after_data; file_list = greeting_file ∷ [] }

one_file-run : ramfs_create greeting contents no_files ≡ some (some greeting_file, one_file)
one_file-run =
    ramfs_create-at (kheap_start + 1024) greeting contents no_files after_node node-run
    ∙ create_at-made (kheap_start + 1024 + header_size) (kheap_start + 1128) greeting contents
        (record { heap = after_node; file_list = [] }) after_data data-run

ramfs_create-cases_example :
    IsCreated no_files half_blocks greeting contents (ramfs_create greeting contents no_files)
    ⊎ IsRefused no_files half_blocks (length contents) (ramfs_create greeting contents no_files)
ramfs_create-cases_example =
    ramfs_create-cases no_files half_blocks greeting contents half_used-IsHeap (omega arith)
      (omega arith)

other_name : ◌≢◌ {A = List ℕ} (120 ∷ []) greeting
other_name e = let clash : ◌≡◌ {A = ℕ} 120 104 = cc in omega arith

ramfs_find-create_example :
    (ramfs_find greeting one_file ≡ some greeting_file)
    × (ramfs_find (120 ∷ []) one_file ≡ ramfs_find (120 ∷ []) no_files)
ramfs_find-create_example =
    ramfs_find-create no_files one_file half_blocks greeting_file greeting contents (120 ∷ [])
      half_used-IsHeap (omega arith) (omega arith) one_file-run (omega arith) other_name
