-- ===== src/Kheap/Free.antt =====
-- kernel/src/kheap.c: `kfree` of a live pointer returns, frees that block alone and merges.
use tuna_os.Base.{
  ℕ, ◌+◌, ◌-◌, ◌≡◌, ◌≢◌, refl, inl, inr, false, Option, none, some, List, [], ◌∷◌, ◌==◌, arith,
  update, ◌↔◌,
}
use tuna_os.Kheap.{Header, Kheap, header_size, rounds, kfree, coalesce}
use tuna_os.Kheap.Blocks.{Block, AreBlocks, Owns, Owns-ge, IsCoalesced, merge, release}
use tuna_os.Kheap.Blocks.Merge.{
  merge-Owns, merge-IsCoalesced, merge-AreBlocks, release-Owns, release-AreBlocks, release-here,
  release-later,
}
use tuna_os.Kheap.Chain.{IsChain, IsHeap, chain-length, IsChain-update_below}
use tuna_os.Kheap.Coalesce.{IsMerged, coalesce-IsMerged}

abbrev freed : (ℕ → Header) → ℕ → ℕ → Header
freed h p = update h p (record (h p) { free = 1 })

-- Marking the header of a block in use is releasing the block in the list.
freed-release :
    (h : ℕ → Header) (p m a e : ℕ) (bs : List Block)
    → AreBlocks bs
    → IsChain h a bs e
    → Owns a bs p m
    → IsChain (freed h p) a (release p a bs) e
freed-release h p m a e [] blocks c o = absurd o
freed-release h p m a e (b ∷ bs) blocks c (inl (at, _, _)) =
    rw (release-here p a b bs (omega arith)) (
      ground (arith, c.0),
      ground arith,
      IsChain-update_below h (a + b.size) e p _ bs (omega (arith, blocks.0)) blocks.2 c.2,
    )
freed-release h p m a e (b ∷ bs) blocks c (inr o) =
    let ge = Owns-ge (a + b.size) bs p m o in
    rw (release-later p a b bs (omega (arith, blocks.0))) (
      ground (arith, c.0, blocks.0),
      ground (arith, c.1, blocks.0),
      freed-release h p m (a + b.size) e bs blocks.2 c.2 o,
    )

-- The state after `kfree` of the block at `p`.
pub record IsFreed (s : Kheap) (bs : List Block) (p : ℕ) (r : Option Kheap) : Type 0 where
  pub state : Kheap
  pub blocks : List Block
  pub returns : r ≡ some state
  pub heap : IsHeap state blocks
  pub owns : (x n : ℕ) → Owns state.heap_start blocks x n ↔ (Owns s.heap_start bs x n × (x ≢ p))
  pub coalesced : IsCoalesced blocks
  pub same_end : state.heap_end ≡ s.heap_end

-- `kfree` of a pointer to a block in use terminates. The heap stays a chain of blocks; every other
-- block in use stays in use where it is, the freed one is not in use, and no two free blocks are
-- left side by side.
pub kfree-IsFreed :
    (s : Kheap) (bs : List Block) (p m : ℕ)
    → IsHeap s bs
    → Owns s.heap_start bs p m
    → IsFreed s bs p (kfree (p + header_size) s)
kfree-IsFreed s bs p m v o = record {
  state = record s { headers = merged.headers };
  blocks = merge none left;
  returns = unfold kfree in rw (not_null, header, merged.returns);
  heap = record {
    start = v.start;
    limit = v.limit;
    blocks = merge-AreBlocks none left tt are;
    chain = merged.chain;
    nonempty = v.nonempty;
  };
  owns = λ x n.
      let outer = merge-Owns s.heap_start left x n in
      let inner = release-Owns p m s.heap_start bs x n v.blocks o in
      ((λ h. inner.0 (outer.0 h)), (λ h. outer.1 (inner.1 h)));
  coalesced = merge-IsCoalesced none left;
  same_end = refl;
}
  where
    left : List Block
    left = release p s.heap_start bs

    are : AreBlocks left
    are = release-AreBlocks p s.heap_start bs v.blocks

    marked : IsChain (freed s.headers p) s.heap_start left s.heap_end
    marked = freed-release s.headers p m s.heap_start s.heap_end bs v.blocks v.chain o

    merged :
        IsMerged
          (freed s.headers p)
          s.heap_start
          s.heap_end
          left
          (coalesce (rounds s) s.heap_start s.heap_end (freed s.headers p))
    merged =
        coalesce-IsMerged (rounds s) s.heap_start s.heap_end (freed s.headers p) left
          (omega (arith, chain-length (freed s.headers p) s.heap_start s.heap_end left are marked))
          (omega (arith, v.limit)) are marked

    not_null : (p + header_size == 0) ≡ false
    not_null = ground arith

    header : p + header_size - header_size ≡ p
    header = omega arith

-- `kfree(NULL)` changes nothing.
pub kfree-null : (s : Kheap) → kfree 0 s ≡ some s
unfolding kfree
kfree-null s = refl
