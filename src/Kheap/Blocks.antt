-- ===== src/Kheap/Blocks.antt =====
-- The heap as a list of blocks: what `kmalloc`, `kfree` and `kheap_expand` mean for it.
pub mod Take
pub mod Merge
pub mod Extend
use tuna_os.Base.{
  ℕ, zero, suc, ◌+◌, ◌-◌, ◌*◌, ◌%◌, ◌≤◌, ◌<◌, ◌≡◌, ◌≢◌, refl, ◌⊎◌, inl, inr, Bool, true, false,
  ◌&&◌, Option, none, some, List, [], ◌∷◌, ◌++◌, ltb, leb, if◌then◌else◌, arith, Bool-cases, length,
}

pub record Block : Type 0 where
  pub size : ℕ
  pub free : Bool

abbrev pub free_block : ℕ → Block
free_block n = record { size = n; free = true }

abbrev pub used_block : ℕ → Block
used_block n = record { size = n; free = false }

-- The block that is taken, and the rest of it where that is large enough to be a block.
abbrev pub split : ℕ → Block → List Block → List Block
split total b rest =
    if leb (total + 32) b.size
    then used_block total ∷ free_block (b.size - total) ∷ rest
    else used_block b.size ∷ rest

-- The address of the first free block that is large enough, from blocks that start at `a`.
unfoldable pub first_fit : ℕ → (a : ℕ) → List Block → Option ℕ
first_fit total a [] = none
first_fit total a (b ∷ bs) =
    let rest = first_fit total (a + b.size) bs in
    if b.free && leb total b.size then some a else rest

-- The blocks after that one has been taken.
unfoldable pub take_first : ℕ → List Block → List Block
take_first total [] = []
take_first total (b ∷ bs) =
    let rest = b ∷ take_first total bs in
    if b.free && leb total b.size then split total b bs else rest

-- Runs of free blocks become one block. The number is the size of the run so far.
unfoldable pub merge : Option ℕ → List Block → List Block
merge none [] = []
merge (some n) [] = free_block n ∷ []
merge none (b ∷ bs) = elim b.free [ true ↦ merge (some b.size) bs | false ↦ b ∷ merge none bs ]
merge (some n) (b ∷ bs) = elim b.free [
  | true ↦ merge (some (n + b.size)) bs
  | false ↦ free_block n ∷ b ∷ merge none bs
]

-- The block at address `x` is marked free.
unfoldable pub release : ℕ → (a : ℕ) → List Block → List Block
release x a [] = []
release x a (b ∷ bs) =
    let rest = b ∷ release x (a + b.size) bs in if leb x a then free_block b.size ∷ bs else rest

-- `n` free bytes are added at the end, to the last block where that is free.
unfoldable pub extend : ℕ → List Block → List Block
extend n [] = free_block n ∷ []
extend n (b ∷ []) = if b.free then free_block (b.size + n) ∷ [] else b ∷ free_block n ∷ []
extend n (b ∷ c ∷ bs) = b ∷ extend n (c ∷ bs)

-- Every block can hold its header and keeps the next one aligned.
abbrev pub AreBlocks : List Block → Type 0
AreBlocks [] = Unit {0}
AreBlocks (b ∷ bs) = (32 ≤ b.size) × (b.size % 8 ≡ 0) × AreBlocks bs

-- A block in use stands at address `x` and is `n` bytes long.
abbrev pub Owns : (a : ℕ) → List Block → (x n : ℕ) → Type 0
Owns a [] x n = ⊥
Owns a (b ∷ bs) x n = ((a ≡ x) × (b.size ≡ n) × (b.free ≡ false)) ⊎ Owns (a + b.size) bs x n

-- Whether the list begins with a free block.
abbrev pub free_first : List Block → Bool
free_first [] = false
free_first (b ∷ bs) = b.free

-- No two free blocks stand side by side.
abbrev pub IsCoalesced : List Block → Type 0
IsCoalesced [] = Unit {0}
IsCoalesced (b ∷ bs) = ((b.free && free_first bs) ≡ false) × IsCoalesced bs

pub Owns-ge : (a : ℕ) (bs : List Block) (x n : ℕ) → Owns a bs x n → a ≤ x
Owns-ge a [] x n o = absurd o
Owns-ge a (b ∷ bs) x n (inl o) = omega arith
Owns-ge a (b ∷ bs) x n (inr o) = omega (arith, Owns-ge (a + b.size) bs x n o)

-- Two blocks in use are the same block, or share no byte.
pub Owns-disjoint :
    (a : ℕ) (bs : List Block) (x n y m : ℕ)
    → Owns a bs x n
    → Owns a bs y m
    → ((x ≡ y) × (n ≡ m)) ⊎ ((x + n ≤ y) ⊎ (y + m ≤ x))
Owns-disjoint a [] x n y m o p = absurd o
Owns-disjoint a (b ∷ bs) x n y m (inl o) (inl p) = inl (omega arith)
Owns-disjoint a (b ∷ bs) x n y m (inl o) (inr p) =
    inr (inl (omega (arith, Owns-ge (a + b.size) bs y m p)))
Owns-disjoint a (b ∷ bs) x n y m (inr o) (inl p) =
    inr (inr (omega (arith, Owns-ge (a + b.size) bs x n o)))
Owns-disjoint a (b ∷ bs) x n y m (inr o) (inr p) = Owns-disjoint (a + b.size) bs x n y m o p
