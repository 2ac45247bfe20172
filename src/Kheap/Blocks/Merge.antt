-- ===== src/Kheap/Blocks/Merge.antt =====
-- Releasing a block and merging runs of free blocks: which blocks are in use afterwards.
use tuna_os.Base.{
  ℕ, ◌+◌, ◌%◌, ◌≤◌, ◌<◌, ◌≡◌, ◌≢◌, refl, ◌⊎◌, inl, inr, Bool, true, false, Option, none, some, List,
  [], ◌∷◌, leb, arith, Bool-cases, ◌↔◌, sym, ◌∙◌,
}
use tuna_os.Kheap.Blocks.{Block, free_block, merge, release, AreBlocks, Owns, Owns-ge, IsCoalesced}

-- A run of `k` free bytes stands in front of the blocks.
abbrev pending : Option ℕ → ℕ
pending none = 0
pending (some k) = k

module _ {P Q R : Type 0} where
  pub skip_right : ¬ R → P ↔ Q → P ↔ (R ⊎ Q)
  skip_right not_r e = (λ p. inr (e.0 p), λ s. elim s [ inl r ↦ absurd (not_r r) | inr q ↦ e.1 q ])

  pub skip_left : ¬ R → P ↔ Q → (R ⊎ P) ↔ Q
  skip_left not_r e = (λ s. elim s [ inl r ↦ absurd (not_r r) | inr p ↦ e.0 p ], λ q. inr (e.1 q))

  pub beside : P ↔ Q → (R ⊎ P) ↔ (R ⊎ Q)
  beside e = (
    λ s. elim s [ inl r ↦ inl r | inr p ↦ inr (e.0 p) ],
    λ s. elim s [ inl r ↦ inl r | inr q ↦ inr (e.1 q) ],
  )

-- A free block is not in use.
pub not_used : {x y m n : ℕ} (f : Bool) → f ≡ true → ¬ ((x ≡ y) × (m ≡ n) × (f ≡ false))
not_used f e (_, _, used) = let clash : ◌≡◌ {A = Bool} true false = sym e ∙ used in cc

pub merge-free :
    (b : Block) (bs : List Block) → b.free ≡ true → merge none (b ∷ bs) ≡ merge (some b.size) bs
unfolding merge
merge-free b bs f = rw f

pub merge-used :
    (b : Block) (bs : List Block) → b.free ≡ false → merge none (b ∷ bs) ≡ b ∷ merge none bs
unfolding merge
merge-used b bs f = simp f

pub merge-some_free :
    (k : ℕ) (b : Block) (bs : List Block)
    → b.free ≡ true
    → merge (some k) (b ∷ bs) ≡ merge (some (k + b.size)) bs
unfolding merge
merge-some_free k b bs f = rw f

pub merge-some_used :
    (k : ℕ) (b : Block) (bs : List Block)
    → b.free ≡ false
    → merge (some k) (b ∷ bs) ≡ free_block k ∷ b ∷ merge none bs
unfolding merge
merge-some_used k b bs f = simp f

-- Merging leaves the blocks in use as they are.
merge-pending :
    (o : Option ℕ) (a c : ℕ) (bs : List Block) (x n : ℕ)
    → a + pending o ≡ c
    → Owns a (merge o bs) x n ↔ Owns c bs x n
merge-pending none a c [] x n e = unfold merge in (λ h. h, λ h. h)
merge-pending (some k) a c [] x n e =
    unfold merge in skip_left (not_used true refl) (λ h. h, λ h. h)
merge-pending none a c (b ∷ bs) x n e =
    let e' : c ≡ a = omega arith in
    rw e' (elim (Bool-cases b.free) [
      | inl f ↦
          rw (merge-free b bs f) (
            skip_right (not_used b.free f) (merge-pending (some b.size) a (a + b.size) bs x n refl))
      | inr f ↦
          rw (merge-used b bs f)
            (beside (merge-pending none (a + b.size) (a + b.size) bs x n (omega arith)))
    ])
merge-pending (some k) a c (b ∷ bs) x n e = rw (← e) (elim (Bool-cases b.free) [
  | inl f ↦ rw (merge-some_free k b bs f) (
      skip_right (not_used b.free f)
        (merge-pending (some (k + b.size)) a (a + k + b.size) bs x n (omega arith)))
  | inr f ↦ rw (merge-some_used k b bs f) (
      skip_left (not_used true refl)
        (beside (merge-pending none (a + k + b.size) (a + k + b.size) bs x n (omega arith))))
])

pub merge-Owns : (a : ℕ) (bs : List Block) (x n : ℕ) → Owns a (merge none bs) x n ↔ Owns a bs x n
merge-Owns a bs x n = merge-pending none a a bs x n (omega arith)

pub release-here :
    (y a : ℕ) (b : Block) (bs : List Block) → y ≤ a → release y a (b ∷ bs) ≡ free_block b.size ∷ bs
unfolding release
release-here y a b bs h = ground arith

pub release-later :
    (y a : ℕ) (b : Block) (bs : List Block)
    → a < y
    → release y a (b ∷ bs) ≡ b ∷ release y (a + b.size) bs
unfolding release
release-later y a b bs h = ground arith

-- After the release of a block in use all others are in use, and it is not.
pub release-Owns :
    (y m a : ℕ) (bs : List Block) (x n : ℕ)
    → AreBlocks bs
    → Owns a bs y m
    → Owns a (release y a bs) x n ↔ (Owns a bs x n × (x ≢ y))
release-Owns y m a [] x n blocks o = absurd o
release-Owns y m a (b ∷ bs) x n blocks (inl (at, _, _)) = rw (release-here y a b bs (omega arith)) (
  λ h. elim h [
    | inl (_, _, f) ↦ cc
    | inr h ↦ (inr h, omega (arith, Owns-ge (a + b.size) bs x n h))
  ],
  λ (h, ne). elim h [ inl (e, _, _) ↦ absurd (ne (omega arith)) | inr h ↦ inr h ],
)
release-Owns y m a (b ∷ bs) x n blocks (inr o) =
    let ge = Owns-ge (a + b.size) bs y m o in
    let rest = release-Owns y m (a + b.size) bs x n blocks.2 o in
    rw (release-later y a b bs (omega arith)) (
      λ h. elim h [
        | inl (e, s, f) ↦ (inl (e, s, f), omega arith)
        | inr h ↦ (inr (rest.0 h).0, (rest.0 h).1)
      ],
      λ (h, ne). elim h [ inl here ↦ inl here | inr h ↦ inr (rest.1 (h, ne)) ],
    )

pub release-AreBlocks : (y a : ℕ) (bs : List Block) → AreBlocks bs → AreBlocks (release y a bs)
unfolding release
release-AreBlocks y a [] h = h
release-AreBlocks y a (b ∷ bs) h = elim (Bool-cases (leb y a)) [
  | inl e ↦ rw e h
  | inr e ↦ rw e (h.0, h.1, release-AreBlocks y (a + b.size) bs h.2)
]

-- No two free blocks are left side by side.
pub merge-IsCoalesced : (o : Option ℕ) (bs : List Block) → IsCoalesced (merge o bs)
merge-IsCoalesced none [] = unfold merge in tt
merge-IsCoalesced (some k) [] = unfold merge in (refl, tt)
merge-IsCoalesced none (b ∷ bs) = elim (Bool-cases b.free) [
  | inl f ↦ rw (merge-free b bs f) (merge-IsCoalesced (some b.size) bs)
  | inr f ↦ rw (merge-used b bs f) (ground arith, merge-IsCoalesced none bs)
]
merge-IsCoalesced (some k) (b ∷ bs) = elim (Bool-cases b.free) [
  | inl f ↦ rw (merge-some_free k b bs f) (merge-IsCoalesced (some (k + b.size)) bs)
  | inr f ↦ rw (merge-some_used k b bs f) (f, (ground arith, merge-IsCoalesced none bs))
]

abbrev pub IsRun : Option ℕ → Type 0
IsRun none = Unit {0}
IsRun (some k) = (32 ≤ k) × (k % 8 ≡ 0)

pub merge-AreBlocks :
    (o : Option ℕ) (bs : List Block) → IsRun o → AreBlocks bs → AreBlocks (merge o bs)
merge-AreBlocks none [] run h = unfold merge in tt
merge-AreBlocks (some k) [] run h = unfold merge in (run.0, run.1, tt)
merge-AreBlocks none (b ∷ bs) run h = elim (Bool-cases b.free) [
  | inl f ↦ rw (merge-free b bs f) (merge-AreBlocks (some b.size) bs (h.0, h.1) h.2)
  | inr f ↦ rw (merge-used b bs f) (h.0, h.1, merge-AreBlocks none bs tt h.2)
]
merge-AreBlocks (some k) (b ∷ bs) run h = elim (Bool-cases b.free) [
  | inl f ↦
      rw (merge-some_free k b bs f)
        (merge-AreBlocks (some (k + b.size)) bs (omega (arith, run.0, run.1, h.0, h.1)) h.2)
  | inr f ↦ rw (merge-some_used k b bs f) (run.0, run.1, (h.0, h.1, merge-AreBlocks none bs tt h.2))
]
