-- ===== src/Kheap.antt =====
-- kernel/src/kheap.c and kheap.h: the kernel heap, a chain of blocks with a header each.
-- Headers are a map from addresses: blocks are at least 32 bytes long, so that headers do not
-- overlap. The loops run on fuel, one round for each byte of the heap and one more; `none` is
-- fuel that ran out. `serial_write` only reports and is left out.
pub mod Blocks
pub mod Chain
pub mod Search
pub mod Coalesce
pub mod Expand
pub mod Malloc
pub mod Free
pub mod Init
pub mod Live
pub mod Fresh
pub mod Tables
pub mod Backed
pub mod Tests
use tuna_os.Base.{
  ℕ, zero, suc, ◌+◌, ◌-◌, ◌*◌, ◌/◌, Bool, true, false, not, ◌&&◌, Option, none, some, ltb, leb,
  ◌==◌, if◌then◌else◌, update, bit_or, u64,
}
use tuna_os.Pmm.{pmm_alloc_frame}
use tuna_os.Vmm.{Memory, vmm_map_page, flag_present, flag_write}

abbrev pub kheap_start : ℕ
kheap_start = 0x200000

abbrev pub kheap_initial_size : ℕ
kheap_initial_size = 64 * 1024

abbrev pub kheap_max_size : ℕ
kheap_max_size = 16 * 1024 * 1024

abbrev pub min_block : ℕ
min_block = 32

abbrev pub header_size : ℕ
header_size = 16

-- ALIGN_UP(x, a) for a power of two `a`, on 64 bits.
abbrev pub align_up : ℕ → ℕ → ℕ
align_up x a = u64 (x + a - 1) / a * a

-- `struct block_header`.
pub record Header : Type 0 where
  pub size : ℕ
  pub free : ℕ
  pub pad : ℕ

abbrev pub is_free : Header → Bool
is_free h = not (h.free == 0)

-- The memory below, the file's static variables and the headers by address.
pub record Kheap : Type 0 where
  pub memory : Memory
  pub heap_start : ℕ
  pub heap_end : ℕ
  pub free_list : ℕ
  pub headers : ℕ → Header

-- for (off = 0; off < size; off += 4096), with `rounds` left; a return when no frame is found.
pub map_region : ℕ → (addr : ℕ) → Memory → Memory
map_region zero addr m = m
map_region (suc rounds) addr m =
    let (phys, pmm') = pmm_alloc_frame m.pmm in
    let m' = record m { pmm = pmm' } in
    let rest =
      map_region rounds (addr + 4096)
        (vmm_map_page addr phys (bit_or flag_present flag_write) m') in
    if phys == 0 then m' else rest

pub kheap_map_region : (start size : ℕ) → Memory → Memory
kheap_map_region start size m = map_region ((size + 4095) / 4096) start m

unfoldable pub kheap_init : Kheap → Kheap
kheap_init s = record s {
  memory = kheap_map_region kheap_start kheap_initial_size s.memory;
  heap_start = kheap_start;
  heap_end = kheap_start + kheap_initial_size;
  free_list = kheap_start;
  headers = update s.headers kheap_start (record { size = kheap_initial_size; free = 1; pad = 0 });
}

abbrev pub rounds : Kheap → ℕ
rounds s = suc (s.heap_end - s.heap_start)

-- The walk of `kheap_expand` to the last block, with the address of the previous one; 0 is NULL.
pub find_last : ℕ → (cur last heap_end : ℕ) → (ℕ → Header) → Option ℕ
find_last zero cur last heap_end h = none
find_last (suc fuel) cur last heap_end h =
    let rest = find_last fuel (cur + (h cur).size) cur heap_end h in
    if ltb cur heap_end then rest else some last

-- `kheap_expand` after its mapping: the new block, the walk, the new end and the merge.
pub append_block : ℕ → Kheap → Option Kheap
append_block expand s =
    let h = update s.headers s.heap_end (record { size = expand; free = 1; pad = 0 }) in
    elim (find_last (rounds s) s.heap_start 0 s.heap_end h) [
      | none ↦ none
      | some last ↦ some (record s {
        heap_end = s.heap_end + expand;
        headers =
            if not (last == 0) && is_free (h last)
            then update h last
                (record (h last) { size = u64 ((h last).size + (h s.heap_end).size) })
            else h;
      })
    ]

pub expand_size : ℕ → ℕ
expand_size min_size =
    let expand = align_up min_size 4096 in if ltb expand 4096 then 4096 else expand

-- The result of the C function beside the new state.
pub kheap_expand : ℕ → Kheap → Option (Bool × Kheap)
kheap_expand min_size s =
    let expand = expand_size min_size in
    if ltb (kheap_start + kheap_max_size) (u64 (s.heap_end + expand))
    then some (false, s)
    else let mapped = kheap_map_region s.heap_end expand s.memory in
      elim (append_block expand (record s { memory = mapped })) [
        | none ↦ none
        | some s' ↦ some (true, s')
      ]

-- Splitting and taking the block at `cur`.
pub take_block : (cur total : ℕ) → (ℕ → Header) → ℕ → Header
take_block cur total h =
    let block = h cur in
    if leb (u64 (total + min_block)) block.size
    then update (update h (cur + total) (record { size = block.size - total; free = 1; pad = 0 }))
        cur (record block { size = total; free = 0 })
    else update h cur (record block { free = 0 })

-- The walk of `kmalloc`: the block that it takes, or the end of the heap.
pub data BlockScan : Type 0 where
  fit : ℕ → BlockScan
  no_fit : BlockScan
  no_fuel : BlockScan

pub search_block : ℕ → (cur total heap_end : ℕ) → (ℕ → Header) → BlockScan
search_block zero cur total heap_end h = no_fuel
search_block (suc fuel) cur total heap_end h =
    let rest = search_block fuel (cur + (h cur).size) total heap_end h in
    if ltb cur heap_end
    then if is_free (h cur) && leb total (h cur).size then fit cur else rest
    else no_fit

-- From the label `retry` on. An expansion adds at least a page, so that 4096 of them reach the
-- maximal size.
pub kmalloc_retry : ℕ → ℕ → Kheap → Option (ℕ × Kheap)
kmalloc_retry zero total s = none
kmalloc_retry (suc fuel) total s =
    elim (search_block (rounds s) s.heap_start total s.heap_end s.headers) [
      | no_fuel ↦ none
      | fit cur ↦ some (cur + header_size, record s { headers = take_block cur total s.headers })
      | no_fit ↦ elim (kheap_expand total s) [
        | none ↦ none
        | some (true, s') ↦ kmalloc_retry fuel total s'
        | some (false, s') ↦ some (0, s')
      ]
    ]

pub block_size : ℕ → ℕ
block_size size =
    let total = align_up (u64 (size + header_size)) 8 in
    if ltb total min_block then min_block else total

-- The address of the payload, or 0 for NULL.
unfoldable pub kmalloc : ℕ → Kheap → Option (ℕ × Kheap)
kmalloc size s = if size == 0 then some (0, s) else kmalloc_retry 4097 (block_size size) s

-- while (next < heap_end && next->free), from the block at `cur`.
pub absorb : ℕ → (cur heap_end : ℕ) → (ℕ → Header) → Option (ℕ → Header)
absorb zero cur heap_end h = none
absorb (suc fuel) cur heap_end h =
    let next = cur + (h cur).size in
    let rest =
      absorb fuel cur heap_end
        (update h cur (record (h cur) { size = u64 ((h cur).size + (h next).size) })) in
    if ltb next heap_end && is_free (h next) then rest else some h

-- while (cur < heap_end) of `kfree`.
pub coalesce : ℕ → (cur heap_end : ℕ) → (ℕ → Header) → Option (ℕ → Header)
coalesce zero cur heap_end h = none
coalesce (suc fuel) cur heap_end h =
    let merged = if is_free (h cur) then absorb (suc (heap_end - cur)) cur heap_end h else some h in
    let rest : Option (ℕ → Header) = elim merged [
      | none ↦ none
      | some h' ↦ coalesce fuel (cur + (h' cur).size) heap_end h'
    ] in
    if ltb cur heap_end then rest else some h

unfoldable pub kfree : ℕ → Kheap → Option Kheap
kfree ptr s =
    let block = ptr - header_size in
    let h = update s.headers block (record (s.headers block) { free = 1 }) in
    if ptr == 0 then some s else elim (coalesce (rounds s) s.heap_start s.heap_end h) [
      | none ↦ none
      | some h' ↦ some (record s { headers = h' })
    ]
