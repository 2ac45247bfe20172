-- ===== src/Kheap/Chain.antt =====
-- The headers in memory stand for a list of blocks.
use tuna_os.Base.{
  ℕ, ◌+◌, ◌*◌, ◌≤◌, ◌<◌, ◌≡◌, refl, sym, ◌∙◌, List, [], ◌∷◌, arith, inl, inr, update, length,
}
use tuna_os.Kheap.{Header, is_free, Kheap, kheap_start, kheap_max_size}
use tuna_os.Kheap.Blocks.{Block, AreBlocks, Owns}

-- From address `a` the headers lead through the given blocks to address `e`.
abbrev pub IsChain : (ℕ → Header) → ℕ → List Block → ℕ → Type 0
IsChain h a [] e = a ≡ e
IsChain h a (b ∷ bs) e =
    ((h a).size ≡ b.size) × (is_free (h a) ≡ b.free) × IsChain h (a + b.size) bs e

-- The heap is a chain of blocks within its bounds.
pub record IsHeap (s : Kheap) (bs : List Block) : Type 0 where
  pub start : s.heap_start ≡ kheap_start
  pub limit : s.heap_end ≤ kheap_start + kheap_max_size
  pub blocks : AreBlocks bs
  pub chain : IsChain s.headers s.heap_start bs s.heap_end
  pub nonempty : s.heap_start < s.heap_end

-- A chain reaches from its start to its end, at 32 bytes a block.
pub chain-length :
    (h : ℕ → Header) (a e : ℕ) (bs : List Block)
    → AreBlocks bs
    → IsChain h a bs e
    → a + length bs * 32 ≤ e
chain-length h a e [] blocks c = omega arith
chain-length h a e (b ∷ bs) blocks c = omega (arith, chain-length h (a + b.size) e bs blocks.2 c.2)

chain-le : (h : ℕ → Header) (a e : ℕ) (bs : List Block) → IsChain h a bs e → a ≤ e
chain-le h a e [] c = omega arith
chain-le h a e (b ∷ bs) c = omega (arith, chain-le h (a + b.size) e bs c.2)

-- Headers below the chain do not matter.
pub IsChain-agree :
    (h g : ℕ → Header) (a e : ℕ) (bs : List Block)
    → ((x : ℕ) → a ≤ x → x < e → g x ≡ h x)
    → AreBlocks bs
    → IsChain h a bs e
    → IsChain g a bs e
IsChain-agree h g a e [] same blocks c = c
IsChain-agree h g a e (b ∷ bs) same blocks c =
    let l = chain-length h (a + b.size) e bs blocks.2 c.2 in
    let at = same a (omega arith) (omega arith) in
    (
      rw at c.0,
      rw at c.1,
      IsChain-agree h g (a + b.size) e bs (λ x lo hi. same x (omega arith) hi) blocks.2 c.2,
    )

pub IsChain-update_below :
    (h : ℕ → Header) (a e x : ℕ) (v : Header) (bs : List Block)
    → x < a
    → AreBlocks bs
    → IsChain h a bs e
    → IsChain (update h x v) a bs e
IsChain-update_below h a e x v bs lt blocks c =
    IsChain-agree h (update h x v) a e bs (λ y lo hi. ground arith) blocks c

-- A block in use ends within the chain.
pub chain-Owns :
    (h : ℕ → Header) (a e : ℕ) (bs : List Block) (x n : ℕ)
    → IsChain h a bs e
    → Owns a bs x n
    → x + n ≤ e
chain-Owns h a e [] x n c o = absurd o
chain-Owns h a e (b ∷ bs) x n c (inl (p, q, _)) = omega (arith, chain-le h (a + b.size) e bs c.2)
chain-Owns h a e (b ∷ bs) x n c (inr o) = chain-Owns h (a + b.size) e bs x n c.2 o

same_block : (b c : Block) → b.size ≡ c.size → b.free ≡ c.free → b ≡ c
same_block b c e e' = λ i. record { size = e i; free = e' i }

chain_unique :
    (h : ℕ → Header) (a e : ℕ) (bs cs : List Block)
    → AreBlocks bs
    → AreBlocks cs
    → IsChain h a bs e
    → IsChain h a cs e
    → bs ≡ cs
chain_unique h a e [] [] v w c d = refl
chain_unique h a e [] (b ∷ bs) v w c d = absurd (omega (arith, chain-length h a e (b ∷ bs) w d))
chain_unique h a e (b ∷ bs) [] v w c d = absurd (omega (arith, chain-length h a e (b ∷ bs) v c))
chain_unique h a e (b ∷ bs) (b' ∷ cs) v w c d =
    let size : b.size ≡ b'.size = sym c.0 ∙ d.0 in
    let head : b ≡ b' = same_block b b' size (sym c.1 ∙ d.1) in
    let tail : bs ≡ cs = chain_unique h (a + b.size) e bs cs v.2 w.2 c.2 (rw size d.2) in cc

-- The headers determine the blocks.
pub IsHeap_unique : (s : Kheap) (bs cs : List Block) → IsHeap s bs → IsHeap s cs → bs ≡ cs
IsHeap_unique s bs cs v w =
    chain_unique s.headers s.heap_start s.heap_end bs cs v.blocks w.blocks v.chain w.chain
