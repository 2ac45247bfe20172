-- ===== src/Kheap/Search.antt =====
-- kernel/src/kheap.c: the walk of `kmalloc` finds the first block that fits, and taking it is
-- taking it in the list.
use tuna_os.Base.{
  ℕ, zero, suc, ◌+◌, ◌-◌, ◌^◌, ◌≤◌, ◌<◌, ◌≡◌, ◌≢◌, inl, inr, true, false, ◌&&◌, Option, none, some,
  List, [], ◌∷◌, ltb, leb, leb→le, arith, Bool-cases, length, ◌∙◌, ap,
}
use tuna_os.Kheap.{Header, is_free, BlockScan, fit, no_fit, search_block, take_block}
use tuna_os.Kheap.Blocks.{Block, AreBlocks, first_fit, take_first, split}
use tuna_os.Kheap.Chain.{IsChain, chain-length, IsChain-agree}

-- What the walk returns for what the list says.
abbrev pub outcome : Option ℕ → BlockScan
outcome none = no_fit
outcome (some p) = fit p

-- On a chain of blocks, with more fuel than there are blocks, the walk of `kmalloc` stops at the
-- first free block that is large enough, or at the end of the heap if there is none.
pub search_block-first_fit :
    (fuel a total e : ℕ) (h : ℕ → Header) (bs : List Block)
    → length bs < fuel
    → AreBlocks bs
    → IsChain h a bs e
    → search_block fuel a total e h ≡ outcome (first_fit total a bs)
unfolding search_block first_fit
search_block-first_fit zero a total e h bs enough blocks c = absurd (omega arith)
search_block-first_fit (suc fuel) a total e h [] enough blocks c = ground arith
search_block-first_fit (suc fuel) a total e h (b ∷ bs) enough blocks c =
    let l = chain-length h (a + b.size) e bs blocks.2 c.2 in
    let inside : ltb a e ≡ true = ground arith in
    rw (inside, c.0, c.1)
      (elim (Bool-cases (b.free && leb total b.size)) [
        | inl hit ↦ rw hit
        | inr miss ↦
            rw miss
              (search_block-first_fit fuel (a + b.size) total e h bs (omega arith) blocks.2 c.2)
      ])

take_block-other :
    (p total x : ℕ) (h : ℕ → Header) → p ≢ x → p + total ≢ x → take_block p total h x ≡ h x
unfolding take_block
take_block-other p total x h ne ne' = ground arith

take_block-behind :
    (p total x : ℕ) (h : ℕ → Header)
    → total < 2 ^ 63
    → 32 ≤ (h p).size
    → p + (h p).size ≤ x
    → take_block p total h x ≡ h x
unfolding take_block
take_block-behind p total x h hi pos behind = ground arith

take_block-split :
    (p total : ℕ) (h : ℕ → Header)
    → 32 ≤ total
    → total < 2 ^ 63
    → total + 32 ≤ (h p).size
    → ((take_block p total h p).size ≡ total)
      × (is_free (take_block p total h p) ≡ false)
      × ((take_block p total h (p + total)).size ≡ (h p).size - total)
      × (is_free (take_block p total h (p + total)) ≡ true)
unfolding take_block
take_block-split p total h lo hi large = ground arith

take_block-whole :
    (p total : ℕ) (h : ℕ → Header)
    → total < 2 ^ 63
    → (h p).size < total + 32
    → ((take_block p total h p).size ≡ (h p).size) × (is_free (take_block p total h p) ≡ false)
unfolding take_block
take_block-whole p total h hi small = ground arith

-- The block at the front is taken.
take_block-front :
    (a total e : ℕ) (h : ℕ → Header) (b : Block) (bs : List Block)
    → 32 ≤ total
    → total < 2 ^ 63
    → AreBlocks (b ∷ bs)
    → IsChain h a (b ∷ bs) e
    → IsChain (take_block a total h) a (split total b bs) e
take_block-front a total e h b bs lo hi blocks c = elim (Bool-cases (leb (total + 32) b.size)) [
  | inl large ↦
      let fits = leb→le (total + 32) b.size large in
      let (s, f, s', f') = take_block-split a total h lo hi (omega (arith, c.0)) in
      rw large (s, f, (s' ∙ ap (λ (n : ℕ). n - total) c.0, f', rw (next fits) behind))
  | inr small ↦
      let (s, f) = take_block-whole a total h hi (ground (arith, c.0)) in
      rw small (s ∙ c.0, f, behind)
]
  where
    next : total + 32 ≤ b.size → a + total + (b.size - total) ≡ a + b.size
    next fits = omega arith

    behind : IsChain (take_block a total h) (a + b.size) bs e
    behind =
        IsChain-agree h (take_block a total h) (a + b.size) e bs
          (λ x lo' _. take_block-behind a total x h hi (omega (arith, c.0)) (omega (arith, c.0)))
          blocks.2 c.2

first_fit-ge : (total a p : ℕ) (bs : List Block) → first_fit total a bs ≡ some p → a ≤ p
unfolding first_fit
first_fit-ge total a p [] e = cc
first_fit-ge total a p (b ∷ bs) e = ground (arith, first_fit-ge total (a + b.size) p bs)

-- Taking the block that was found is `take_first` of the list.
pub take_block-take_first :
    (a total e p : ℕ) (h : ℕ → Header) (bs : List Block)
    → 32 ≤ total
    → total < 2 ^ 63
    → AreBlocks bs
    → IsChain h a bs e
    → first_fit total a bs ≡ some p
    → IsChain (take_block p total h) a (take_first total bs) e
unfolding first_fit take_first
take_block-take_first a total e p h [] lo hi blocks c found = cc
take_block-take_first a total e p h (b ∷ bs) lo hi blocks c found =
    elim (Bool-cases (b.free && leb total b.size)) [
      | inl hit ↦
          let here : some a ≡ some p = rw hit at found in
          let here' : p ≡ a = cc in
          rw (hit, here') (take_block-front a total e h b bs lo hi blocks c)
      | inr miss ↦
          let later = rw miss at found in
          let ge = first_fit-ge total (a + b.size) p bs later in
          let same = take_block-other p total a h (omega arith) (omega arith) in
          rw (miss, same)
            (c.0, c.1, take_block-take_first (a + b.size) total e p h bs lo hi blocks.2 c.2 later)
    ]
