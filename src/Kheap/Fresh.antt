-- ===== src/Kheap/Fresh.antt =====
-- kernel/src/kheap.c: the first allocations after `kheap_init`.
use tuna_os.Base.{ℕ, ◌+◌, ◌≡◌, refl, some, [], ◌∷◌, arith}
use tuna_os.Kheap.{
  Kheap, take_block, kmalloc_retry, kheap_init, kmalloc, header_size, kheap_initial_size,
  kheap_start, block_size, search_block,
}
use tuna_os.Kheap.Blocks.{free_block}
use tuna_os.Kheap.Live.{IsLive}

-- With a block of 80 bytes in use, and with one of 144 behind it.
abbrev pub one_block : Kheap → Kheap
one_block s = record (kheap_init s) { headers = take_block kheap_start 80 (kheap_init s).headers }

abbrev both_blocks : Kheap → Kheap
both_blocks s = record (one_block s) {
  headers = take_block (kheap_start + 80) 144 (one_block s).headers;
}

-- The blocks follow each other from the start of the heap.
pub two_blocks :
    (s : Kheap)
    → (kmalloc 64 (kheap_init s) ≡ some (kheap_start + header_size, one_block s))
      × (kmalloc 128 (one_block s) ≡ some (kheap_start + 80 + header_size, both_blocks s))
unfolding kmalloc kmalloc_retry search_block block_size take_block kheap_init
two_blocks s = (refl, refl)

-- Nothing is live in one free block.
pub fresh-IsLive :
    (s : Kheap) (x : ℕ) → ¬ IsLive (kheap_init s) (free_block kheap_initial_size ∷ []) x
fresh-IsLive s x (q, m, e, o) = ground arith
