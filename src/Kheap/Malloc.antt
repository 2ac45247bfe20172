-- ===== src/Kheap/Malloc.antt =====
-- kernel/src/kheap.c: `kmalloc` returns a block that overlaps no other, or NULL when the heap has
-- reached its limit.
use tuna_os.Base.{
  ℕ, suc, ◌+◌, ◌%◌, ◌^◌, ◌≤◌, ◌<◌, ◌≡◌, ◌≢◌, refl, ◌⊎◌, inl, inr, false, Option, none, some, List,
  ◌==◌, arith, Option-cases, sym, ◌∙◌, ◌↔◌, ap,
}
use tuna_os.Kheap.{
  Kheap, rounds, header_size, search_block, take_block, kmalloc_retry, kmalloc, block_size,
  kheap_start, kheap_max_size, expand_size,
}
use tuna_os.Kheap.Blocks.{Block, Owns, IsCoalesced, first_fit, take_first, extend}
use tuna_os.Kheap.Blocks.Take.{
  take_first-IsTaken, take_first-AreBlocks, take_first-IsCoalesced, first_fit-aligned,
}
use tuna_os.Kheap.Blocks.Extend.{extend-Owns, extend-IsCoalesced, extend-first_fit}
use tuna_os.Kheap.Chain.{IsHeap, chain-length, chain-Owns}
use tuna_os.Kheap.Search.{outcome, search_block-first_fit, take_block-take_first}
use tuna_os.Kheap.Expand.{IsExtended, kheap_expand-cases}

-- A run that returned the block at `p`, of `m` bytes with its header, for a request of `size`.
pub record IsAllocated (s : Kheap) (bs : List Block) (size : ℕ) (r : Option (ℕ × Kheap))
    : Type 0 where
  pub p : ℕ
  pub m : ℕ
  pub state : Kheap
  pub blocks : List Block
  pub returns : r ≡ some (p + header_size, state)
  pub heap : IsHeap state blocks
  pub same_start : state.heap_start ≡ s.heap_start
  pub large : size ≤ m
  pub aligned : p % 8 ≡ 0
  pub inside : (s.heap_start ≤ p) × (p + m ≤ state.heap_end)
  pub was_free : (n : ℕ) → ¬ Owns s.heap_start bs p n
  pub owns :
      (x n : ℕ) → Owns s.heap_start blocks x n ↔ ((p ≡ x) × (m ≡ n)) ⊎ Owns s.heap_start bs x n
  pub coalesced : IsCoalesced bs → IsCoalesced blocks

pub block_size_lem :
    (size : ℕ)
    → size < 2 ^ 62
    → (32 ≤ block_size size)
      × (block_size size % 8 ≡ 0)
      × (size + header_size ≤ block_size size)
      × (block_size size < 2 ^ 63)
unfolding block_size
block_size_lem size h = ground arith

module _ (s : Kheap) (bs : List Block) (v : IsHeap s bs) (total : ℕ) (lo : 32 ≤ total)
    (div : total % 8 ≡ 0) (hi : total < 2 ^ 63) where
  search_lem :
      (o : Option ℕ)
      → first_fit total s.heap_start bs ≡ o
      → search_block (rounds s) s.heap_start total s.heap_end s.headers ≡ outcome o
  search_lem o e =
      search_block-first_fit (rounds s) s.heap_start total s.heap_end s.headers bs
        (omega (arith, chain-length s.headers s.heap_start s.heap_end bs v.blocks v.chain)) v.blocks
        v.chain
      ∙ ap outcome e

  retry_fit :
      (fuel p : ℕ)
      → first_fit total s.heap_start bs ≡ some p
      → IsAllocated s bs total (kmalloc_retry (suc fuel) total s)
  retry_fit fuel p found =
      let (m, t) = take_first-IsTaken total s.heap_start p bs v.blocks found in
      let chain =
        take_block-take_first s.heap_start total s.heap_end p s.headers bs lo hi v.blocks v.chain
          found in
      record {
        p = p;
        m = m;
        state = record s { headers = take_block p total s.headers };
        blocks = take_first total bs;
        returns = unfold kmalloc_retry in rw (search_lem (some p) found, kmalloc_retry);
        heap = record {
          start = v.start;
          limit = v.limit;
          blocks = take_first-AreBlocks total bs lo div v.blocks;
          chain = chain;
          nonempty = v.nonempty;
        };
        same_start = refl;
        large = t.large;
        aligned = first_fit-aligned total s.heap_start p bs (omega (arith, v.start)) v.blocks found;
        inside = (
          t.start,
          chain-Owns (take_block p total s.headers) s.heap_start s.heap_end (take_first total bs) p
              m chain ((t.after p m).1 (inl (refl, refl))),
        );
        was_free = t.before;
        owns = t.after;
        coalesced = take_first-IsCoalesced total bs;
      }

-- A run on the extended heap is a run on the heap before.
after_expand :
    (s s' : Kheap) (bs : List Block) (n total : ℕ) (r : Option (ℕ × Kheap))
    → IsExtended s bs n s'
    → IsAllocated s' (extend n bs) total r
    → IsAllocated s bs total r
after_expand s s' bs n total r x a = record {
  p = a.p;
  m = a.m;
  state = a.state;
  blocks = a.blocks;
  returns = a.returns;
  heap = a.heap;
  same_start = a.same_start ∙ x.same_start;
  large = a.large;
  aligned = a.aligned;
  inside = (rw (sym x.same_start) a.inside.0, a.inside.1);
  was_free = λ k o. a.was_free k (rw x.same_start ((extend-Owns n s.heap_start bs a.p k).1 o));
  owns = λ y k.
      let both = rw x.same_start at a.owns y k in
      let old = extend-Owns n s.heap_start bs y k in
      (
        λ h. elim (both.0 h) [ inl e ↦ inl e | inr o ↦ inr (old.0 o) ],
        λ h. both.1 (elim h [ inl e ↦ inl e | inr o ↦ inr (old.1 o) ]),
      );
  coalesced = λ c. a.coalesced (extend-IsCoalesced n bs c);
}

-- With fuel for two rounds: no block fits and the heap cannot grow, or one is returned.
pub retry-cases :
    (s : Kheap) (bs : List Block) (total fuel : ℕ)
    → IsHeap s bs
    → 32 ≤ total
    → total % 8 ≡ 0
    → total < 2 ^ 63
    → IsAllocated s bs total (kmalloc_retry (suc (suc fuel)) total s)
      ⊎ ((kmalloc_retry (suc (suc fuel)) total s ≡ some (0, s))
          × (first_fit total s.heap_start bs ≡ none)
          × (kheap_start + kheap_max_size < s.heap_end + expand_size total))
retry-cases s bs total fuel v lo div hi = elim (Option-cases (first_fit total s.heap_start bs)) [
  | inr (p, found) ↦ inl (retry_fit s bs v total lo div hi (suc fuel) p found)
  | inl missing ↦ elim (kheap_expand-cases total s bs hi v) [
    | inl (failed, over) ↦ inr (
      unfold kmalloc_retry in
          rw (search_lem s bs v total lo div hi none missing, failed, kmalloc_retry),
      missing,
      over,
    )
    | inr (s', n, grown, more, x) ↦
        let (p, found) = extend-first_fit n total s'.heap_start bs more in
        let again = retry_fit s' (extend n bs) x.heap total lo div hi fuel p found in
        let same : kmalloc_retry (suc (suc fuel)) total s ≡ kmalloc_retry (suc fuel) total s' =
          unfold kmalloc_retry in
          rw (search_lem s bs v total lo div hi none missing, grown, kmalloc_retry) in
        inl (rw same (after_expand s s' bs n total (kmalloc_retry (suc fuel) total s') x again))
  ]
]

-- What holds `t` bytes holds fewer.
smaller :
    (s : Kheap) (bs : List Block) (n t : ℕ) (r : Option (ℕ × Kheap))
    → n ≤ t
    → IsAllocated s bs t r
    → IsAllocated s bs n r
smaller s bs n t r le a = record {
  p = a.p;
  m = a.m;
  state = a.state;
  blocks = a.blocks;
  returns = a.returns;
  heap = a.heap;
  same_start = a.same_start;
  large = omega (arith, a.large);
  aligned = a.aligned;
  inside = a.inside;
  was_free = a.was_free;
  owns = a.owns;
  coalesced = a.coalesced;
}

kmalloc-retry :
    (s : Kheap) (size : ℕ) → size ≢ 0 → kmalloc size s ≡ kmalloc_retry 4097 (block_size size) s
unfolding kmalloc
kmalloc-retry s size ne = let nonzero : (size == 0) ≡ false = ground (arith, ne) in rw nonzero refl

-- `kmalloc` of a size other than 0 and below 2 ^ 62 returns a block that holds the request and its header, starts
-- at a multiple of 8, lies within the heap and was not in use; afterwards that block and those in
-- use before are the blocks in use. Only where no free block fits and the heap cannot grow by the
-- request does it return NULL, with the state as it was.
pub kmalloc-cases :
    (s : Kheap) (bs : List Block) (size : ℕ)
    → IsHeap s bs
    → size ≢ 0
    → size < 2 ^ 62
    → IsAllocated s bs (size + header_size) (kmalloc size s)
      ⊎ ((kmalloc size s ≡ some (0, s))
          × (first_fit (block_size size) s.heap_start bs ≡ none)
          × (kheap_start + kheap_max_size < s.heap_end + expand_size (block_size size)))
kmalloc-cases s bs size v ne hi =
    let (lo, div, large, small) = block_size_lem size hi in
    rw (kmalloc-retry s size ne) (elim (retry-cases s bs (block_size size) 4095 v lo div small) [
      | inl a ↦ inl (
          smaller s bs (size + header_size) (block_size size)
            (kmalloc_retry 4097 (block_size size) s) large a)
      | inr e ↦ inr e
    ])

-- `kmalloc(0)` returns NULL and changes nothing.
pub kmalloc-zero : (s : Kheap) → kmalloc 0 s ≡ some (0, s)
unfolding kmalloc
kmalloc-zero s = refl
