-- ===== src/Kheap/Coalesce.antt =====
-- kernel/src/kheap.c: the loops of `kfree` merge every run of free blocks.
use tuna_os.Base.{
  ℕ, zero, suc, ◌+◌, ◌-◌, ◌*◌, ◌^◌, ◌≤◌, ◌<◌, ◌≡◌, refl, inl, inr, Bool, true, false, ◌&&◌, Option,
  none, some, List, [], ◌∷◌, ltb, if◌then◌else◌, arith, Bool-cases, ==_refl, update, length, sym,
  ◌∙◌, ap, u64,
}
use tuna_os.Kheap.{Header, is_free, absorb, coalesce}
use tuna_os.Kheap.Blocks.{Block, free_block, AreBlocks, merge}
use tuna_os.Kheap.Blocks.Merge.{merge-free, merge-used, merge-some_free, merge-some_used}
use tuna_os.Kheap.Chain.{IsChain, chain-length, IsChain-update_below}

-- The run of free blocks at the front, added to `n` bytes, and the blocks behind it.
absorbed : ℕ → List Block → ℕ
absorbed n [] = n
absorbed n (b ∷ bs) = let more = absorbed (n + b.size) bs in if b.free then more else n

remaining : List Block → List Block
remaining [] = []
remaining (b ∷ bs) = if b.free then remaining bs else b ∷ bs

absorbed-ge : (n : ℕ) (bs : List Block) → n ≤ absorbed n bs
unfolding absorbed
absorbed-ge n [] = omega arith
absorbed-ge n (b ∷ bs) = ground (arith, absorbed-ge (n + b.size) bs)

length-remaining : (bs : List Block) → length (remaining bs) ≤ length bs
unfolding remaining
length-remaining [] = omega arith
length-remaining (b ∷ bs) = ground (arith, length-remaining bs)

remaining-AreBlocks : (bs : List Block) → AreBlocks bs → AreBlocks (remaining bs)
unfolding remaining
remaining-AreBlocks [] h = h
remaining-AreBlocks (b ∷ bs) h = elim (Bool-cases b.free) [
  | inl f ↦ simp f (remaining-AreBlocks bs h.2)
  | inr f ↦ simp f h
]

merge-absorbed :
    (n : ℕ) (bs : List Block)
    → merge (some n) bs ≡ free_block (absorbed n bs) ∷ merge none (remaining bs)
merge-absorbed n [] = unfold absorbed remaining merge in refl
merge-absorbed n (b ∷ bs) = elim (Bool-cases b.free) [
  | inl f ↦
      merge-some_free n b bs f
      ∙ merge-absorbed (n + b.size) bs
      ∙ unfold absorbed remaining in simp f
  | inr f ↦
      merge-some_used n b bs f
      ∙ ap (λ l. free_block n ∷ l) (sym (merge-used b bs f))
      ∙ unfold absorbed remaining in simp f
]

-- What the inner loop leaves: one block for the run, and nothing below it changed.
record IsAbsorbed (h : ℕ → Header) (cur e n : ℕ) (bs : List Block) (r : Option (ℕ → Header))
    : Type 0 where
  headers : ℕ → Header
  returns : r ≡ some headers
  size : (headers cur).size ≡ absorbed n bs
  free : is_free (headers cur) ≡ true
  chain : IsChain headers (cur + absorbed n bs) (remaining bs) e
  below : (x : ℕ) → x < cur → headers x ≡ h x

-- One round of the inner loop.
abbrev joined : (ℕ → Header) → ℕ → ℕ → Header
joined h cur =
    update h cur (record (h cur) { size = u64 ((h cur).size + (h (cur + (h cur).size)).size) })

absorb-round :
    (fuel cur e : ℕ) (h : ℕ → Header)
    → (ltb (cur + (h cur).size) e && is_free (h (cur + (h cur).size))) ≡ true
    → absorb (suc fuel) cur e h ≡ absorb fuel cur e (joined h cur)
unfolding absorb
absorb-round fuel cur e h test = rw test

absorb-stop :
    (fuel cur e : ℕ) (h : ℕ → Header)
    → (ltb (cur + (h cur).size) e && is_free (h (cur + (h cur).size))) ≡ false
    → absorb (suc fuel) cur e h ≡ some h
unfolding absorb
absorb-stop fuel cur e h test = rw test

IsAbsorbed-joined :
    (h : ℕ → Header) (cur e n : ℕ) (b : Block) (bs : List Block) (r q : Option (ℕ → Header))
    → b.free ≡ true
    → q ≡ r
    → IsAbsorbed (joined h cur) cur e (n + b.size) bs r
    → IsAbsorbed h cur e n (b ∷ bs) q
unfolding absorbed remaining
IsAbsorbed-joined h cur e n b bs r q free same rest = record {
  headers = rest.headers;
  returns = same ∙ rest.returns;
  size = rest.size ∙ simp free;
  free = rest.free;
  chain = simp free rest.chain;
  below = λ x lt. rest.below x lt ∙ ground arith;
}

absorb-IsAbsorbed :
    (fuel cur e n : ℕ) (h : ℕ → Header) (bs : List Block)
    → length bs < fuel
    → e < 2 ^ 64
    → 32 ≤ n
    → AreBlocks bs
    → (h cur).size ≡ n
    → is_free (h cur) ≡ true
    → IsChain h (cur + n) bs e
    → IsAbsorbed h cur e n bs (absorb fuel cur e h)
absorb-IsAbsorbed zero cur e n h bs enough small pos blocks s f c = absurd (omega arith)
absorb-IsAbsorbed (suc fuel) cur e n h [] enough small pos blocks s f c = record {
  headers = h;
  returns = absorb-stop fuel cur e h (ground arith);
  size = unfold absorbed in s;
  free = f;
  chain = unfold absorbed remaining in c;
  below = λ x lt. refl;
}
absorb-IsAbsorbed (suc fuel) cur e n h (b ∷ bs) enough small pos blocks s f c =
    elim (Bool-cases b.free) [
      | inl yes_free ↦
          IsAbsorbed-joined h cur e n b bs _ _ yes_free
            (absorb-round fuel cur e h (test true yes_free))
            (absorb-IsAbsorbed fuel cur e (n + b.size) (joined h cur) bs (omega arith) small
              (omega arith) blocks.2 new_size (ground arith) new_chain)
      | inr not_free ↦ record {
        headers = h;
        returns = absorb-stop fuel cur e h (test false not_free);
        size = s ∙ unfold absorbed in simp not_free;
        free = f;
        chain = unfold absorbed remaining in simp not_free (c.0, c.1 ∙ not_free, c.2);
        below = λ x lt. refl;
      }
    ]
  where
    room : cur + n + b.size + length bs * 32 ≤ e
    room = chain-length h (cur + n + b.size) e bs blocks.2 c.2

    test :
        (v : Bool)
        → b.free ≡ v
        → (ltb (cur + (h cur).size) e && is_free (h (cur + (h cur).size))) ≡ v
    test v is = rw (s, c.1, is) (inside v)
      where
        inside : (v : Bool) → (ltb (cur + n) e && v) ≡ v
        inside v = ground (arith, room, blocks.0)

    new_size : (joined h cur cur).size ≡ n + b.size
    new_size = rw (==_refl cur, s, c.0) (omega (arith, room))

    new_chain : IsChain (joined h cur) (cur + (n + b.size)) bs e
    new_chain =
        let at : cur + (n + b.size) ≡ cur + n + b.size = omega arith in
        rw at (IsChain-update_below h (cur + n + b.size) e cur _ bs (omega arith) blocks.2 c.2)

-- What the outer loop leaves: the merged list, and nothing below it changed.
pub record IsMerged (h : ℕ → Header) (a e : ℕ) (bs : List Block) (r : Option (ℕ → Header))
    : Type 0 where
  pub headers : ℕ → Header
  pub returns : r ≡ some headers
  pub chain : IsChain headers a (merge none bs) e
  pub below : (x : ℕ) → x < a → headers x ≡ h x

coalesce-end : (fuel a e : ℕ) (h : ℕ → Header) → a ≡ e → coalesce (suc fuel) a e h ≡ some h
unfolding coalesce
coalesce-end fuel a e h at = ground arith

coalesce-used :
    (fuel a e : ℕ) (h : ℕ → Header)
    → ltb a e ≡ true
    → is_free (h a) ≡ false
    → coalesce (suc fuel) a e h ≡ coalesce fuel (a + (h a).size) e h
unfolding coalesce
coalesce-used fuel a e h inside used = rw (inside, used)

coalesce-free :
    (fuel a e : ℕ) (h g : ℕ → Header)
    → ltb a e ≡ true
    → is_free (h a) ≡ true
    → absorb (suc (e - a)) a e h ≡ some g
    → coalesce (suc fuel) a e h ≡ coalesce fuel (a + (g a).size) e g
unfolding coalesce
coalesce-free fuel a e h g inside free r = rw (inside, free, r)

-- On a chain of blocks that ends below 2 ^ 64, with more fuel than there are blocks, the loops of
-- `kfree` return: each run of free blocks has become one block, the blocks in use are as before,
-- and so are the headers below the chain.
pub coalesce-IsMerged :
    (fuel a e : ℕ) (h : ℕ → Header) (bs : List Block)
    → length bs < fuel
    → e < 2 ^ 64
    → AreBlocks bs
    → IsChain h a bs e
    → IsMerged h a e bs (coalesce fuel a e h)
coalesce-IsMerged zero a e h bs enough small blocks c = absurd (omega arith)
coalesce-IsMerged (suc fuel) a e h [] enough small blocks c = record {
  headers = h;
  returns = coalesce-end fuel a e h c;
  chain = unfold merge in c;
  below = λ x lt. refl;
}
coalesce-IsMerged (suc fuel) a e h (b ∷ bs) enough small blocks c = elim (Bool-cases b.free) [
  | inl free ↦
      let x =
        absorb-IsAbsorbed (suc (e - a)) a e b.size h bs (omega (arith, room)) small blocks.0
          blocks.2 c.0 (c.1 ∙ free) c.2 in
      let rest =
        coalesce-IsMerged fuel (a + absorbed b.size bs) e x.headers (remaining bs)
          (omega (arith, length-remaining bs)) small (remaining-AreBlocks bs blocks.2) x.chain in
      let ge = absorbed-ge b.size bs in
      let here = rest.below a (omega (arith, blocks.0)) in
      record {
        headers = rest.headers;
        returns =
            coalesce-free fuel a e h x.headers inside (c.1 ∙ free) x.returns
            ∙ (rw (← x.size) at rest.returns);
        chain =
            rw (merge-free b bs free, merge-absorbed b.size bs, here) (x.size, x.free, rest.chain);
        below = λ y lt. rest.below y (omega arith) ∙ x.below y lt;
      }
  | inr used ↦
      let rest = coalesce-IsMerged fuel (a + b.size) e h bs (omega arith) small blocks.2 c.2 in
      let here = rest.below a (omega (arith, blocks.0)) in
      record {
        headers = rest.headers;
        returns = coalesce-used fuel a e h inside (c.1 ∙ used) ∙ (rw (← c.0) at rest.returns);
        chain = rw (merge-used b bs used, here) (c.0, c.1, rest.chain);
        below = λ y lt. rest.below y (omega arith);
      }
]
  where
    room : a + b.size + length bs * 32 ≤ e
    room = chain-length h (a + b.size) e bs blocks.2 c.2

    inside : ltb a e ≡ true
    inside = ground (arith, room, blocks.0)
