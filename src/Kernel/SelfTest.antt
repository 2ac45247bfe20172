-- ===== src/Kernel/SelfTest.antt =====
-- kernel/src/kernel.c: the self-test of the heap.
use tuna_os.Base.{
  ℕ, ◌≡◌, ◌≢◌, ◌↔◌, inl, inr, refl, Bool, true, false, Option, none, some, List, [], ◌∷◌, arith,
  ◌==◌, ◌||◌, sym, Option-cases,
}
use tuna_os.Kheap.{Kheap, kmalloc, kfree, kheap_init, kheap_initial_size}
use tuna_os.Kheap.Blocks.{Block, free_block}
use tuna_os.Kheap.Chain.{IsHeap}
use tuna_os.Kheap.Free.{kfree-null}
use tuna_os.Kheap.Init.{kheap_init-IsHeap}
use tuna_os.Kheap.Fresh.{two_blocks, fresh-IsLive}
use tuna_os.Kheap.Live.{IsLive, kmalloc-IsLive, kfree-IsLive}
use tuna_os.Kernel.{self_test_body, heap_self_test}

body-equation :
    (a b c : ℕ) (s s₁ s₂ s₃ s₄ : Kheap)
    → kfree a s ≡ some s₁
    → kmalloc 32 s₁ ≡ some (c, s₂)
    → kfree b s₂ ≡ some s₃
    → kfree c s₃ ≡ some s₄
    → self_test_body a b s ≡ some s₄
unfolding self_test_body
body-equation a b c s s₁ s₂ s₃ s₄ e₁ e₂ e₃ e₄ = rw (e₁, e₂, e₃, e₄) refl

-- An allocation that is freed behind the release of another block, or that was NULL.
inner_test :
    (s : Kheap) (bs : List Block) (b : ℕ)
    → IsHeap s bs
    → IsLive s bs b
    → (c : ℕ) × (s₂ s₃ s₄ : Kheap) × (cs : List Block) × (kmalloc 32 s ≡ some (c, s₂))
      × (kfree b s₂ ≡ some s₃)
      × (kfree c s₃ ≡ some s₄)
      × IsHeap s₄ cs
      × ((x : ℕ) → IsLive s₄ cs x ↔ (IsLive s bs x × (x ≢ b)))
inner_test s bs b heap live = elim (kmalloc-IsLive s bs 32 heap (omega arith) (omega arith)) [
  | inl full ↦
      let (s₃, cs, freed, heap', live') = kfree-IsLive s bs b heap live in
      (0, s, s₃, s₃, cs, full, freed, kfree-null s₃, heap', live')
  | inr (c, s₂, bs₂, run, heap₂, _, new, live₂) ↦
      let (s₃, bs₃, freed, heap₃, live₃) = kfree-IsLive s₂ bs₂ b heap₂ ((live₂ b).1 (inr live)) in
      let c_live = (live₃ c).1 ((live₂ c).1 (inl refl), λ e. new (rw (e) live)) in
      let (s₄, bs₄, freed', heap₄, live₄) = kfree-IsLive s₃ bs₃ c heap₃ c_live in
      (
        c,
        s₂,
        s₃,
        s₄,
        bs₄,
        run,
        freed,
        freed',
        heap₄,
        λ x. (
          λ h.
              let (h₃, other) = (live₄ x).0 h in
              let (h₂, other') = (live₃ x).0 h₃ in
              elim ((live₂ x).0 h₂) [ inl e ↦ absurd (other e) | inr old ↦ (old, other') ],
          λ (old, other).
              (live₄ x).1 ((live₃ x).1 ((live₂ x).1 (inr old), other), λ e. new (rw (← e) old)),
        ),
      )
]

-- The branch where both allocations succeeded.
pub self_test_body-IsLive :
    (s : Kheap) (bs : List Block) (a b : ℕ)
    → IsHeap s bs
    → IsLive s bs a
    → IsLive s bs b
    → a ≢ b
    → (t : Kheap) × (cs : List Block) × (self_test_body a b s ≡ some t)
      × IsHeap t cs
      × ((x : ℕ) → IsLive t cs x ↔ (IsLive s bs x × (x ≢ a) × (x ≢ b)))
self_test_body-IsLive s bs a b heap live_a live_b differ =
    let (s₁, bs₁, freed, heap₁, live₁) = kfree-IsLive s bs a heap live_a in
    let (c, s₂, s₃, s₄, cs, e₂, e₃, e₄, heap', live') =
      inner_test s₁ bs₁ b heap₁ ((live₁ b).1 (live_b, λ e. differ (sym e))) in
    (
      s₄,
      cs,
      body-equation a b c s s₁ s₂ s₃ s₄ freed e₂ e₃ e₄,
      heap',
      λ x. (
        λ h.
            let (h', not_b) = (live' x).0 h in
            let (old, not_a) = (live₁ x).0 h' in (old, not_a, not_b),
        λ (old, not_a, not_b). (live' x).1 ((live₁ x).1 (old, not_a), not_b),
      ),
    )

test-failed :
    (s t u : Kheap) (a b : ℕ)
    → kmalloc 64 s ≡ some (a, t)
    → kmalloc 128 t ≡ some (b, u)
    → (((a == 0) || (b == 0)) ≡ true)
    → heap_self_test s ≡ some (false, u)
unfolding heap_self_test
test-failed s t u a b e e' failed = rw (e, e', failed) refl

test-passed :
    (s t u v : Kheap) (a b : ℕ)
    → kmalloc 64 s ≡ some (a, t)
    → kmalloc 128 t ≡ some (b, u)
    → a ≢ 0
    → b ≢ 0
    → self_test_body a b u ≡ some v
    → heap_self_test s ≡ some (true, v)
unfolding heap_self_test
test-passed s t u v a b e e' na nb body =
    let na' : (a == 0) ≡ false = ground (arith, na) in
    let nb' : (b == 0) ≡ false = ground (arith, nb) in rw (e, e', na', nb', body) refl

-- The self-test of a well-formed heap returns and leaves a well-formed heap. Where it passes,
-- exactly the pointers that were live before are live after; where an allocation fails, those
-- that were live still are.
pub heap_self_test-IsLive :
    (s : Kheap) (bs : List Block)
    → IsHeap s bs
    → (passed : Bool) × (t : Kheap) × (cs : List Block) × (heap_self_test s ≡ some (passed, t))
      × IsHeap t cs
      × ((x : ℕ) → IsLive s bs x → IsLive t cs x)
      × (passed ≡ true → (x : ℕ) → IsLive t cs x → IsLive s bs x)
heap_self_test-IsLive s bs heap = elim (kmalloc-IsLive s bs 64 heap (omega arith) (omega arith)) [
  | inl full ↦ elim (kmalloc-IsLive s bs 128 heap (omega arith) (omega arith)) [
    | inl full' ↦ (false, s, bs, test-failed s s s 0 0 full full' refl, heap, λ x old. old, λ e. cc)
    | inr (b, u, cs, run, heap', _, _, live) ↦ (
      false,
      u,
      cs,
      test-failed s s u 0 b full run refl,
      heap',
      λ x old. (live x).1 (inr old),
      λ e. cc,
    )
  ]
  | inr (a, t, bs₁, run, heap₁, na, new_a, live₁) ↦
      elim (kmalloc-IsLive t bs₁ 128 heap₁ (omega arith) (omega arith)) [
        | inl full ↦ (
          false,
          t,
          bs₁,
          test-failed s t t a 0 run full (ground (arith, na)),
          heap₁,
          λ x old. (live₁ x).1 (inr old),
          λ e. cc,
        )
        | inr (b, u, bs₂, run', heap₂, nb, new_b, live₂) ↦
            let live_a = (live₁ a).1 (inl refl) in
            let (v, cs, body, heap₃, live₃) =
              self_test_body-IsLive u bs₂ a b heap₂ ((live₂ a).1 (inr live_a))
                ((live₂ b).1 (inl refl)) (λ e. new_b (rw (← e) live_a)) in
            (
              true,
              v,
              cs,
              test-passed s t u v a b run run' na nb body,
              heap₃,
              λ x old.
                  let old' = (live₁ x).1 (inr old) in
                  (live₃ x).1
                    ((live₂ x).1 (inr old'), λ e. new_a (rw (← e) old), λ e. new_b (rw (← e) old')),
              λ _ x h.
                  let (h₂, not_a, not_b) = (live₃ x).0 h in
                  elim ((live₂ x).0 h₂) [
                    | inl e ↦ absurd (not_b e)
                    | inr h₁ ↦ elim ((live₁ x).0 h₁) [ inl e ↦ absurd (not_a e) | inr old ↦ old ]
                  ],
            )
      ]
]

passes :
    (s t u r : Kheap) (a b : ℕ) (passed : Bool)
    → kmalloc 64 s ≡ some (a, t)
    → kmalloc 128 t ≡ some (b, u)
    → ((a == 0) || (b == 0)) ≡ false
    → heap_self_test s ≡ some (passed, r)
    → passed ≡ true
unfolding heap_self_test
passes s t u r a b passed e e' both run = elim (Option-cases (self_test_body a b u)) [
  | inl stuck ↦
      let clash : ◌≡◌ {A = Option (Bool × Kheap)} none (some (passed, r)) =
        rw (e, e', both, stuck) at run in
      cc
  | inr (v, body) ↦
      let same : ◌≡◌ {A = Option (Bool × Kheap)} (some (true, v)) (some (passed, r)) =
        rw (e, e', both, body) at run in
      cc
]

-- On the heap that `kheap_init` leaves, the self-test passes and leaves no live pointer.
pub self_test-passes :
    (s : Kheap)
    → (t : Kheap) × (cs : List Block) × (heap_self_test (kheap_init s) ≡ some (true, t))
      × IsHeap t cs
      × ((x : ℕ) → ¬ IsLive t cs x)
self_test-passes s =
    let (passed, t, cs, run, heap, _, old) =
      heap_self_test-IsLive (kheap_init s) (free_block kheap_initial_size ∷ [])
        (kheap_init-IsHeap s) in
    let (e, e') = two_blocks s in
    let good = passes (kheap_init s) _ _ t _ _ passed e e' refl run in
    (t, cs, rw (← good) run, heap, λ x h. fresh-IsLive s x (old good x h))
