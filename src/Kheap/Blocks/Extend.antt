-- ===== src/Kheap/Blocks/Extend.antt =====
-- Adding free bytes at the end of the heap.
use tuna_os.Base.{
  ℕ, ◌+◌, ◌%◌, ◌≤◌, ◌≡◌, refl, ◌⊎◌, inl, inr, true, false, ◌&&◌, some, List, [], ◌∷◌, leb, arith,
  Bool-cases, ◌↔◌,
}
use tuna_os.Kheap.Blocks.{
  Block, free_block, AreBlocks, Owns, IsCoalesced, free_first, first_fit, extend,
}
use tuna_os.Kheap.Blocks.Merge.{not_used, beside, skip_left, skip_right}

pub extend-merges :
    (n : ℕ) (b : Block) → b.free ≡ true → extend n (b ∷ []) ≡ free_block (b.size + n) ∷ []
unfolding extend
extend-merges n b f = simp f

pub extend-adds : (n : ℕ) (b : Block) → b.free ≡ false → extend n (b ∷ []) ≡ b ∷ free_block n ∷ []
unfolding extend
extend-adds n b f = simp f

pub extend-AreBlocks :
    (n : ℕ) (bs : List Block) → 32 ≤ n → n % 8 ≡ 0 → AreBlocks bs → AreBlocks (extend n bs)
extend-AreBlocks n [] h h' a = unfold extend in (h, h', tt)
extend-AreBlocks n (b ∷ []) h h' a = elim (Bool-cases b.free) [
  | inl f ↦ rw (extend-merges n b f) (omega (arith, a.0), omega (arith, a.1), tt)
  | inr f ↦ rw (extend-adds n b f) (a.0, a.1, (h, h', tt))
]
extend-AreBlocks n (b ∷ c ∷ bs) h h' a =
    let rest = extend-AreBlocks n (c ∷ bs) h h' a.2 in step rest
  where
    step : AreBlocks (extend n (c ∷ bs)) → AreBlocks (extend n (b ∷ c ∷ bs))
    step rest = unfold extend in (a.0, a.1, rest)

-- The blocks in use stay as they are.
pub extend-Owns : (n a : ℕ) (bs : List Block) (x m : ℕ) → Owns a (extend n bs) x m ↔ Owns a bs x m
extend-Owns n a [] x m = unfold extend in skip_left (not_used true refl) (λ h. h, λ h. h)
extend-Owns n a (b ∷ []) x m = elim (Bool-cases b.free) [
  | inl f ↦
      rw (extend-merges n b f)
        (skip_right (not_used b.free f) (skip_left (not_used true refl) (λ h. h, λ h. h)))
  | inr f ↦ rw (extend-adds n b f) (beside (skip_left (not_used true refl) (λ h. h, λ h. h)))
]
extend-Owns n a (b ∷ c ∷ bs) x m = step (extend-Owns n (a + b.size) (c ∷ bs) x m)
  where
    step :
        Owns (a + b.size) (extend n (c ∷ bs)) x m ↔ Owns (a + b.size) (c ∷ bs) x m
        → Owns a (extend n (b ∷ c ∷ bs)) x m ↔ Owns a (b ∷ c ∷ bs) x m
    step rest = unfold extend in beside rest

extend-free_first : (n : ℕ) (c : Block) (bs : List Block) → free_first (extend n (c ∷ bs)) ≡ c.free
unfolding extend
extend-free_first n c [] = ground arith
extend-free_first n c (d ∷ bs) = refl

pub extend-IsCoalesced : (n : ℕ) (bs : List Block) → IsCoalesced bs → IsCoalesced (extend n bs)
extend-IsCoalesced n [] h = unfold extend in (refl, tt)
extend-IsCoalesced n (b ∷ []) h = elim (Bool-cases b.free) [
  | inl f ↦ rw (extend-merges n b f) (refl, tt)
  | inr f ↦ rw (extend-adds n b f) (ground arith, (refl, tt))
]
extend-IsCoalesced n (b ∷ c ∷ bs) h = step (extend-IsCoalesced n (c ∷ bs) h.1)
  where
    step : IsCoalesced (extend n (c ∷ bs)) → IsCoalesced (extend n (b ∷ c ∷ bs))
    step rest = unfold extend in (rw (extend-free_first n c bs) h.0, rest)

-- With enough bytes added there is a block that fits.
pub extend-first_fit :
    (n total a : ℕ) (bs : List Block)
    → total ≤ n
    → (p : ℕ) × (first_fit total a (extend n bs) ≡ some p)
extend-first_fit n total a [] h = (a, unfold extend first_fit in ground arith)
extend-first_fit n total a (b ∷ []) h = elim (Bool-cases b.free) [
  | inl f ↦ (a, rw (extend-merges n b f) (unfold first_fit in ground arith))
  | inr f ↦ (a + b.size, rw (extend-adds n b f) (unfold first_fit in ground arith))
]
extend-first_fit n total a (b ∷ c ∷ bs) h =
    step (Bool-cases (b.free && leb total b.size))
      (extend-first_fit n total (a + b.size) (c ∷ bs) h)
  where
    step :
        ((b.free && leb total b.size) ≡ true) ⊎ ((b.free && leb total b.size) ≡ false)
        → (p : ℕ) × (first_fit total (a + b.size) (extend n (c ∷ bs)) ≡ some p)
        → (p : ℕ) × (first_fit total a (extend n (b ∷ c ∷ bs)) ≡ some p)
    step (inl hit) rest = (a, unfold extend first_fit in rw hit)
    step (inr miss) (p, found) = (p, unfold extend first_fit in rw miss found)
