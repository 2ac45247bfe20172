-- ===== src/Kheap/Tests.antt =====
-- The heap after `kheap_init` and runs of its operations.
use tuna_os.Base.{
  ℕ, ◌+◌, ◌≤◌, ◌<◌, ◌≡◌, refl, ◌⊎◌, inl, ◌↔◌, none, some, List, [], ◌∷◌, arith, if◌then◌else◌, ◌==◌,
}
use tuna_os.Pmm.Tests.{three_free}
use tuna_os.Pmm.{all_used}
use tuna_os.Vmm.{Memory}
use tuna_os.Vmm.Tests.{empty_root}
use tuna_os.Kheap.{
  Kheap, take_block, kmalloc_retry, kheap_init, kmalloc, kfree, header_size, kheap_initial_size,
  kheap_start, kheap_max_size, block_size, expand_size, search_block,
}
use tuna_os.Kheap.Blocks.{Block, Owns, free_block, used_block, first_fit}
use tuna_os.Kheap.Chain.{IsHeap}
use tuna_os.Kheap.Malloc.{IsAllocated, kmalloc-cases}
use tuna_os.Kheap.Free.{IsFreed, kfree-IsFreed}
use tuna_os.Kheap.Init.{kheap_init-IsHeap, kmalloc-disjoint, kfree-kmalloc}

-- A machine with few frames and no tables, before the heap is set up.
abbrev before : Kheap
before = record {
  memory = record { pmm = three_free; words = λ _. 0; pml4 = 0x1000; cr3 = 0x1000 };
  heap_start = 0;
  heap_end = 0;
  free_list = 0;
  headers = λ _. record { size = 0; free = 0; pad = 0 };
}

abbrev initial : Kheap
initial = kheap_init before

abbrev initial_blocks : List Block
initial_blocks = free_block kheap_initial_size ∷ []

initial-IsHeap : IsHeap initial initial_blocks
initial-IsHeap = kheap_init-IsHeap before

kmalloc-cases_example :
    IsAllocated initial initial_blocks (100 + header_size) (kmalloc 100 initial)
    ⊎ ((kmalloc 100 initial ≡ some (0, initial))
        × (first_fit (block_size 100) initial.heap_start initial_blocks ≡ none)
        × (kheap_start + kheap_max_size < initial.heap_end + expand_size (block_size 100)))
kmalloc-cases_example =
    kmalloc-cases initial initial_blocks 100 initial-IsHeap (omega arith) (omega arith)

-- A heap of a block in use and a free one.
abbrev pub half_used : Kheap
half_used = record {
  memory = before.memory;
  heap_start = kheap_start;
  heap_end = kheap_start + 4096;
  free_list = kheap_start;
  headers = λ a.
      if a == kheap_start
      then record { size = 1024; free = 0; pad = 0 }
      else record { size = 3072; free = 1; pad = 0 };
}

abbrev pub half_blocks : List Block
half_blocks = used_block 1024 ∷ free_block 3072 ∷ []

pub half_used-IsHeap : IsHeap half_used half_blocks
half_used-IsHeap = record {
  start = refl;
  limit = omega arith;
  blocks = (omega arith, refl, (omega arith, refl, tt));
  chain = (refl, refl, (refl, refl, refl));
  nonempty = omega arith;
}

kfree-IsFreed_example :
    IsFreed half_used half_blocks kheap_start (kfree (kheap_start + header_size) half_used)
kfree-IsFreed_example =
    kfree-IsFreed half_used half_blocks kheap_start 1024 half_used-IsHeap (inl (refl, refl, refl))

abbrev after : Kheap
after = record half_used { headers = take_block (kheap_start + 1024) 120 half_used.headers }

half_used-run : kmalloc 100 half_used ≡ some (kheap_start + 1024 + header_size, after)
unfolding kmalloc kmalloc_retry search_block block_size
half_used-run = refl

kmalloc-disjoint_example :
    (half_used.heap_start + header_size ≤ kheap_start + 1024 + header_size)
    × (kheap_start + 1024 + header_size + 100 ≤ after.heap_end)
    × ((x n : ℕ)
        → Owns half_used.heap_start half_blocks x n
        → (kheap_start + 1024 + header_size + 100 ≤ x)
          ⊎ (x + n + header_size ≤ kheap_start + 1024 + header_size))
kmalloc-disjoint_example =
    kmalloc-disjoint half_used half_blocks 100 (kheap_start + 1024 + header_size) after
      half_used-IsHeap (omega arith) (omega arith) half_used-run (omega arith)

kfree-kmalloc_example :
    (u : Kheap) × (cs : List Block) × (kfree (kheap_start + 1024 + header_size) after ≡ some u)
    × IsHeap u cs
    × ((x n : ℕ) → Owns u.heap_start cs x n ↔ Owns half_used.heap_start half_blocks x n)
kfree-kmalloc_example =
    kfree-kmalloc half_used half_blocks 100 (kheap_start + 1024 + header_size) after
      half_used-IsHeap (omega arith) (omega arith) half_used-run (omega arith)

-- Two requests, one after the other.
abbrev pub after_node : Kheap
after_node = record half_used { headers = take_block (kheap_start + 1024) 104 half_used.headers }

abbrev pub after_data : Kheap
after_data = record half_used { headers = take_block (kheap_start + 1128) 32 after_node.headers }

pub node-run : kmalloc 88 half_used ≡ some (kheap_start + 1024 + header_size, after_node)
unfolding kmalloc kmalloc_retry search_block block_size
node-run = refl

pub data-run : kmalloc 2 after_node ≡ some (kheap_start + 1128 + header_size, after_data)
unfolding kmalloc kmalloc_retry search_block block_size take_block
data-run = refl

-- The heap of a machine whose frames are all in use, before and after an allocation.
abbrev full_memory : Memory
full_memory = record empty_root { pmm = all_used }

abbrev full_heap : Kheap
full_heap = record half_used { memory = full_memory }

abbrev full_after : Kheap
full_after = record after_node { memory = full_memory }
