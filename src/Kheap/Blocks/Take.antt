-- ===== src/Kheap/Blocks/Take.antt =====
-- Taking the first block that fits: which blocks are in use afterwards.
use tuna_os.Base.{
  ℕ, ◌+◌, ◌-◌, ◌%◌, ◌≤◌, ◌≡◌, refl, ◌⊎◌, inl, inr, Bool, true, false, ◌&&◌, some, List, [], ◌∷◌,
  leb, leb→le, if◌then◌else◌, arith, Bool-cases, ◌↔◌, sym, ◌∙◌,
}
use tuna_os.Kheap.Blocks.{
  Block, free_block, used_block, split, first_fit, take_first, AreBlocks, Owns, Owns-ge,
  IsCoalesced, free_first,
}

-- What the test of the loop tells of a block that is taken.
pub record Fits (t : ℕ) (b : Block) : Type 0 where
  pub was_free : b.free ≡ true
  pub large : t ≤ b.size

pub leb-Fits : (t : ℕ) (b : Block) → (b.free && leb t b.size) ≡ true → Fits t b
leb-Fits t b h = ground arith

split-AreBlocks :
    (t : ℕ) (b : Block) (bs : List Block)
    → 32 ≤ t
    → t % 8 ≡ 0
    → Fits t b
    → AreBlocks (b ∷ bs)
    → AreBlocks (split t b bs)
split-AreBlocks t b bs h h' f a = elim (Bool-cases (leb (t + 32) b.size)) [
  | inl e ↦ rw e (let l = leb→le (t + 32) b.size e in (h, h', (omega arith, omega arith, a.2)))
  | inr e ↦ rw e (a.0, a.1, a.2)
]

pub take_first-AreBlocks :
    (t : ℕ) (bs : List Block) → 32 ≤ t → t % 8 ≡ 0 → AreBlocks bs → AreBlocks (take_first t bs)
unfolding take_first
take_first-AreBlocks t [] h h' a = tt
take_first-AreBlocks t (b ∷ bs) h h' a = elim (Bool-cases (b.free && leb t b.size)) [
  | inl e ↦ rw e (split-AreBlocks t b bs h h' (leb-Fits t b e) a)
  | inr e ↦ rw e (a.0, a.1, take_first-AreBlocks t bs h h' a.2)
]

take_first-free_first :
    (t : ℕ) (bs : List Block) → free_first bs ≡ false → free_first (take_first t bs) ≡ false
unfolding take_first
take_first-free_first t [] h = refl
take_first-free_first t (b ∷ bs) h = ground arith

-- Taking a block leaves no two free blocks side by side where there were none.
pub take_first-IsCoalesced :
    (t : ℕ) (bs : List Block) → IsCoalesced bs → IsCoalesced (take_first t bs)
unfolding take_first
take_first-IsCoalesced t [] h = tt
take_first-IsCoalesced t (b ∷ bs) h = elim (Bool-cases (b.free && leb t b.size)) [
  | inl e ↦ elim (Bool-cases (leb (t + 32) b.size)) [
    | inl large ↦ rw (e, large) (refl, (ground arith, h.1))
    | inr small ↦ rw (e, small) (refl, h.1)
  ]
  | inr e ↦ rw e (alone (take_first-free_first t bs), take_first-IsCoalesced t bs h.1)
]
  where
    alone :
        (free_first bs ≡ false → free_first (take_first t bs) ≡ false)
        → (b.free && free_first (take_first t bs)) ≡ false
    alone keep = ground (arith, h.0, keep)

-- The blocks in use after a split: the new one, at the front, and those behind.
split-Owns :
    (t a x n : ℕ) (b : Block) (bs : List Block)
    → Fits t b
    → Owns a (split t b bs) x n
      ↔ ((a ≡ x) × ((if leb (t + 32) b.size then t else b.size) ≡ n)) ⊎ Owns (a + b.size) bs x n
split-Owns t a x n b bs f = elim (Bool-cases (leb (t + 32) b.size)) [
  | inl e ↦ rw e (to (leb→le (t + 32) b.size e), from (leb→le (t + 32) b.size e))
  | inr e ↦ rw e (
    (λ o. elim o [ inl (p, q, r) ↦ inl (p, q) | inr o ↦ inr o ]),
    (λ o. elim o [ inl (p, q) ↦ inl (p, q, refl) | inr o ↦ inr o ]),
  )
]
  where
    at : t + 32 ≤ b.size → a + t + (b.size - t) ≡ a + b.size
    at h = omega arith

    to :
        t + 32 ≤ b.size
        → Owns a (used_block t ∷ free_block (b.size - t) ∷ bs) x n
        → ((a ≡ x) × (t ≡ n)) ⊎ Owns (a + b.size) bs x n
    to h (inl (p, q, r)) = inl (p, q)
    to h (inr (inl (p, q, r))) = cc
    to h (inr (inr o)) = inr (rw (at h) at o)

    from :
        t + 32 ≤ b.size
        → ((a ≡ x) × (t ≡ n)) ⊎ Owns (a + b.size) bs x n
        → Owns a (used_block t ∷ free_block (b.size - t) ∷ bs) x n
    from h (inl (p, q)) = inl (p, q, refl)
    from h (inr o) = inr (inr (rw (at h) o))

-- The block that `first_fit` found, from the list alone.
pub record IsTaken (t a : ℕ) (bs : List Block) (p m : ℕ) : Type 0 where
  pub large : t ≤ m
  pub after : (x n : ℕ) → Owns a (take_first t bs) x n ↔ ((p ≡ x) × (m ≡ n)) ⊎ Owns a bs x n
  pub before : (n : ℕ) → ¬ Owns a bs p n
  pub start : a ≤ p

module _ (t a : ℕ) (b : Block) (bs : List Block) where
  fit-to :
      (x n : ℕ)
      → Fits t b
      → Owns a (split t b bs) x n
      → ((a ≡ x) × ((if leb (t + 32) b.size then t else b.size) ≡ n)) ⊎ Owns a (b ∷ bs) x n
  fit-to x n f o = elim ((split-Owns t a x n b bs f).0 o) [
    | inl new ↦ inl new
    | inr old ↦ inr (inr old)
  ]

  fit-from :
      (x n : ℕ)
      → Fits t b
      → ((a ≡ x) × ((if leb (t + 32) b.size then t else b.size) ≡ n)) ⊎ Owns a (b ∷ bs) x n
      → Owns a (split t b bs) x n
  fit-from x n f (inl new) = (split-Owns t a x n b bs f).1 (inl new)
  fit-from x n f (inr (inl (p, q, used))) =
      let clash : ◌≡◌ {A = Bool} true false = sym f.was_free ∙ used in cc
  fit-from x n f (inr (inr old)) = (split-Owns t a x n b bs f).1 (inr old)

  fit-before : (n : ℕ) → Fits t b → 32 ≤ b.size → ¬ Owns a (b ∷ bs) a n
  fit-before n f h (inl (p, q, used)) =
      let clash : ◌≡◌ {A = Bool} true false = sym f.was_free ∙ used in cc
  fit-before n f h (inr old) = omega (arith, Owns-ge (a + b.size) bs a n old)

  module _ (p m : ℕ) (i : IsTaken t (a + b.size) bs p m) where
    skip-to :
        (x n : ℕ) → Owns a (b ∷ take_first t bs) x n → ((p ≡ x) × (m ≡ n)) ⊎ Owns a (b ∷ bs) x n
    skip-to x n (inl here) = inr (inl here)
    skip-to x n (inr o) = elim ((i.after x n).0 o) [ inl new ↦ inl new | inr old ↦ inr (inr old) ]

    skip-from :
        (x n : ℕ) → ((p ≡ x) × (m ≡ n)) ⊎ Owns a (b ∷ bs) x n → Owns a (b ∷ take_first t bs) x n
    skip-from x n (inl new) = inr ((i.after x n).1 (inl new))
    skip-from x n (inr (inl here)) = inl here
    skip-from x n (inr (inr old)) = inr ((i.after x n).1 (inr old))

    skip-before : (n : ℕ) → 32 ≤ b.size → ¬ Owns a (b ∷ bs) p n
    skip-before n h (inl (q, _, _)) = omega (arith, i.start)
    skip-before n h (inr old) = i.before n old

pub take_first-IsTaken :
    (t a p : ℕ) (bs : List Block)
    → AreBlocks bs
    → first_fit t a bs ≡ some p
    → (m : ℕ) × IsTaken t a bs p m
unfolding take_first first_fit
take_first-IsTaken t a p [] blocks e = cc
take_first-IsTaken t a p (b ∷ bs) blocks e = elim (Bool-cases (b.free && leb t b.size)) [
  | inl fit ↦
      let f = leb-Fits t b fit in
      let e' : some a ≡ some p = rw fit at e in
      let here : a ≡ p = cc in
      (
        if leb (t + 32) b.size then t else b.size,
        record {
          large = ground (arith, f.large);
          after = λ x n. rw (fit, ← here) (fit-to t a b bs x n f, fit-from t a b bs x n f);
          before = λ n. rw (← here) (fit-before t a b bs n f blocks.0);
          start = omega arith;
        },
      )
  | inr skip ↦
      let (m, i) = take_first-IsTaken t (a + b.size) p bs blocks.2 (rw skip at e) in
      (
        m,
        record {
          large = i.large;
          after = λ x n. rw skip (skip-to t a b bs p m i x n, skip-from t a b bs p m i x n);
          before = λ n. skip-before t a b bs p m i n blocks.0;
          start = omega (arith, i.start);
        },
      )
]

-- The address of the block that was found is aligned.
pub first_fit-aligned :
    (t a p : ℕ) (bs : List Block) → a % 8 ≡ 0 → AreBlocks bs → first_fit t a bs ≡ some p → p % 8 ≡ 0
unfolding first_fit
first_fit-aligned t a p [] h blocks e = cc
first_fit-aligned t a p (b ∷ bs) h blocks e = elim (Bool-cases (b.free && leb t b.size)) [
  | inl fit ↦ let e' : some a ≡ some p = rw fit at e in let here : a ≡ p = cc in rw (← here) h
  | inr skip ↦
      first_fit-aligned t (a + b.size) p bs (omega (arith, blocks.1)) blocks.2 (rw skip at e)
]
