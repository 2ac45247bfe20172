-- ===== src/Ramfs/Files.antt =====
-- kernel/src/ramfs.c: what `ramfs_create` does to the list of files and to the heap.
use tuna_os.Base.{
  ℕ, ◌+◌, ◌^◌, ◌≤◌, ◌<◌, ◌≡◌, ◌≢◌, refl, false, Option, none, some, List, ◌∷◌, ◌==◌, length, arith,
  ◌⊎◌, inl, inr, ◌↔◌, sym, ◌∙◌, ap, take, zero, suc, [],
}
use tuna_os.Kheap.{
  Kheap, kmalloc, kfree, header_size, kheap_start, kheap_max_size, expand_size, block_size,
}
use tuna_os.Kheap.Blocks.{Block, Owns, first_fit}
use tuna_os.Kheap.Chain.{IsHeap}
use tuna_os.Kheap.Malloc.{kmalloc-cases}
use tuna_os.Kheap.Init.{kfree-kmalloc}
use tuna_os.Ramfs.{Ramfs, File, node_size, copy_name, create_at, ramfs_create}

-- A block in use holds `size` bytes at `address`.
abbrev pub Holds : (start : ℕ) → List Block → (address size : ℕ) → Type 0
Holds start bs address size =
    (p : ℕ) × (m : ℕ) × (address ≡ p + header_size) × (size + header_size ≤ m) × Owns start bs p m

pub record IsCreated (s : Ramfs) (bs : List Block) (name source : List ℕ)
    (r : Option (Option File × Ramfs)) : Type 0 where
  pub file : File
  pub state : Ramfs
  pub blocks : List Block
  pub returns : r ≡ some (some file, state)
  pub listed : state.file_list ≡ file ∷ s.file_list
  pub named : file.name ≡ take 63 name
  pub contents : (file.bytes ≡ source) × (file.size ≡ length source)
  pub heap : IsHeap state.heap blocks
  pub node_live : Holds s.heap.heap_start blocks file.node node_size
  pub data_live : Holds s.heap.heap_start blocks file.address file.size
  pub live : (x n : ℕ) → Owns s.heap.heap_start bs x n → Owns s.heap.heap_start blocks x n

-- No free block fits a request of that size, and the heap cannot grow by it.
abbrev pub HasNoRoom : Kheap → List Block → (size : ℕ) → Type 0
HasNoRoom h bs size =
    (first_fit (block_size size) h.heap_start bs ≡ none)
    × (kheap_start + kheap_max_size < h.heap_end + expand_size (block_size size))

-- There was no room for the node, or, with the node allocated, none for the data.
abbrev pub LacksMemory : Kheap → List Block → (size : ℕ) → Type 0
LacksMemory h bs size =
    HasNoRoom h bs node_size
    ⊎ ((p : ℕ) × (h' : Kheap) × (bs' : List Block) × (kmalloc node_size h ≡ some (p, h'))
        × (p ≢ 0)
        × IsHeap h' bs'
        × HasNoRoom h' bs' size)

pub copy_name-take : (room : ℕ) (name : List ℕ) → copy_name room name ≡ take room name
unfolding copy_name
copy_name-take zero name = refl
copy_name-take (suc room) [] = refl
copy_name-take (suc room) (c ∷ name) = ap (λ (l : List ℕ). c ∷ l) (copy_name-take room name)

pub record IsRefused (s : Ramfs) (bs : List Block) (size : ℕ) (r : Option (Option File × Ramfs))
    : Type 0 where
  pub state : Ramfs
  pub blocks : List Block
  pub returns : r ≡ some (none, state)
  pub reason : LacksMemory s.heap bs size
  pub listed : state.file_list ≡ s.file_list
  pub heap : IsHeap state.heap blocks
  pub live : (x n : ℕ) → Owns state.heap.heap_start blocks x n ↔ Owns s.heap.heap_start bs x n

abbrev pub made : (node address : ℕ) (name source : List ℕ) → File
made node address name source = record {
  node = node;
  name = copy_name 63 name;
  address = address;
  bytes = source;
  size = length source;
}

pub create_at-made :
    (node address : ℕ) (name source : List ℕ) (s : Ramfs) (h : Kheap)
    → kmalloc (length source) s.heap ≡ some (address + header_size, h)
    → create_at node name source s
      ≡ some (
        some (made node (address + header_size) name source),
        record {
          heap = h;
          file_list = made node (address + header_size) name source ∷ s.file_list;
        },
      )
unfolding create_at
create_at-made node address name source s h e =
    let nonzero : (address + header_size == 0) ≡ false = ground arith in
    rw (e, create_at, nonzero) refl

create_at-freed :
    (node : ℕ) (name source : List ℕ) (s : Ramfs) (h h' : Kheap)
    → kmalloc (length source) s.heap ≡ some (0, h)
    → kfree node h ≡ some h'
    → create_at node name source s ≡ some (none, record s { heap = h' })
unfolding create_at
create_at-freed node name source s h h' e f = rw (e, f, create_at) refl

pub ramfs_create-at :
    (node : ℕ) (name source : List ℕ) (s : Ramfs) (h : Kheap)
    → kmalloc node_size s.heap ≡ some (node + header_size, h)
    → ramfs_create name source s
      ≡ create_at (node + header_size) name source (record s { heap = h })
unfolding ramfs_create
ramfs_create-at node name source s h e =
    let nonzero : (node + header_size == 0) ≡ false = ground arith in
    rw (e, ramfs_create, nonzero) refl

ramfs_create-full :
    (name source : List ℕ) (s : Ramfs) (h : Kheap)
    → kmalloc node_size s.heap ≡ some (0, h)
    → ramfs_create name source s ≡ some (none, record s { heap = h })
unfolding ramfs_create
ramfs_create-full name source s h e = rw (e, ramfs_create) refl

-- `ramfs_create` of a file that is not empty, in a well-formed heap, returns. Either the file is
-- in front of the list, with the first 63 characters of the name and the data, and its node and
-- data are blocks of the heap beside those in use before; or no free block fitted its node, or then
-- its data, and the heap could not grow by it, and the list and the blocks in use are as before.
pub ramfs_create-cases :
    (s : Ramfs) (bs : List Block) (name source : List ℕ)
    → IsHeap s.heap bs
    → length source ≢ 0
    → length source < 2 ^ 62
    → IsCreated s bs name source (ramfs_create name source s)
      ⊎ IsRefused s bs (length source) (ramfs_create name source s)
ramfs_create-cases s bs name source v ne hi =
    elim (kmalloc-cases s.heap bs node_size v (omega arith) (omega arith)) [
      | inr (e, full, over) ↦ inr (record {
        state = record s { heap = s.heap };
        blocks = bs;
        returns = ramfs_create-full name source s s.heap e;
        reason = inl (full, over);
        listed = refl;
        heap = v;
        live = λ x n. (λ o. o, λ o. o);
      })
      | inl a ↦
          let s' : Ramfs = record s { heap = a.state } in
          let reached = ramfs_create-at a.p name source s a.state a.returns in
          let node_used : Owns s.heap.heap_start a.blocks a.p a.m =
            (a.owns a.p a.m).1 (inl (refl, refl)) in
          elim (kmalloc-cases a.state a.blocks (length source) a.heap ne hi) [
            | inl b ↦ inl (record {
              file = made (a.p + header_size) (b.p + header_size) name source;
              state = record {
                heap = b.state;
                file_list = made (a.p + header_size) (b.p + header_size) name source ∷ s.file_list;
              };
              blocks = b.blocks;
              returns =
                  reached ∙ create_at-made (a.p + header_size) b.p name source s' b.state b.returns;
              listed = refl;
              named = copy_name-take 63 name;
              contents = (refl, refl);
              heap = b.heap;
              node_live = (
                a.p,
                a.m,
                refl,
                a.large,
                rw (sym a.same_start) ((b.owns a.p a.m).1 (inr (rw a.same_start node_used))),
              );
              data_live = (
                b.p,
                b.m,
                refl,
                b.large,
                rw (sym a.same_start) ((b.owns b.p b.m).1 (inl (refl, refl))),
              );
              live = λ x n o.
                  rw (sym a.same_start)
                    ((b.owns x n).1 (inr (rw a.same_start ((a.owns x n).1 (inr o)))));
            })
            | inr (e, full, over) ↦
                let (heap, blocks, freed, well, live) =
                  kfree-kmalloc s.heap bs node_size (a.p + header_size) a.state v (omega arith)
                    (omega arith) a.returns (omega arith) in
                inr (record {
                  state = record s { heap = heap };
                  blocks = blocks;
                  returns =
                      reached
                      ∙ create_at-freed (a.p + header_size) name source s' a.state heap e freed;
                  reason = inr (
                    a.p + header_size,
                    a.state,
                    a.blocks,
                    a.returns,
                    omega arith,
                    a.heap,
                    (full, over),
                  );
                  listed = refl;
                  heap = well;
                  live = live;
                })
          ]
    ]
