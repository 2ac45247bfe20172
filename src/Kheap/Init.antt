-- ===== src/Kheap/Init.antt =====
-- kernel/src/kheap.c: `kheap_init` leaves one free block, and allocations that are freed are
-- forgotten.
use tuna_os.Base.{
  ℕ, ◌+◌, ◌^◌, ◌≤◌, ◌<◌, ◌≡◌, ◌≢◌, refl, ◌⊎◌, inl, inr, Option, some, List, [], ◌∷◌, arith, sym,
  ◌∙◌, ◌↔◌,
}
use tuna_os.Kheap.{Kheap, kheap_init, kmalloc, kfree, header_size, kheap_initial_size}
use tuna_os.Kheap.Blocks.{Block, Owns, Owns-disjoint, free_block}
use tuna_os.Kheap.Chain.{IsHeap}
use tuna_os.Kheap.Malloc.{IsAllocated, kmalloc-cases}
use tuna_os.Kheap.Free.{kfree-IsFreed}

-- After `kheap_init` the heap is one free block of the initial size.
pub kheap_init-IsHeap : (s : Kheap) → IsHeap (kheap_init s) (free_block kheap_initial_size ∷ [])
unfolding kheap_init
kheap_init-IsHeap s = record {
  start = refl;
  limit = omega arith;
  blocks = (omega arith, refl, tt);
  chain = ground arith;
  nonempty = omega arith;
}

abbrev returned : ℕ → Kheap → Option (ℕ × Kheap)
returned q s = some (q, s)

-- The two components of what a run returned.
some_pair : (a c : ℕ) (b d : Kheap) → returned a b ≡ returned c d → (a ≡ c) × (b ≡ d)
some_pair a c b d e = (cc, cc)

-- What `kmalloc` returned when that is not NULL.
allocated :
    (s : Kheap) (bs : List Block) (size q : ℕ) (t : Kheap)
    → IsHeap s bs
    → size ≢ 0
    → size < 2 ^ 62
    → kmalloc size s ≡ some (q, t)
    → q ≢ 0
    → (a : IsAllocated s bs (size + header_size) (kmalloc size s)) × (q ≡ a.p + header_size)
      × (t ≡ a.state)
allocated s bs size q t v ne hi run live = elim (kmalloc-cases s bs size v ne hi) [
  | inl a ↦ let e = some_pair q (a.p + header_size) t a.state (sym run ∙ a.returns) in (a, e.0, e.1)
  | inr (failed, _, _) ↦ absurd (live (some_pair q 0 t s (sym run ∙ failed)).0)
]

-- Where `kmalloc` of a size below 2 ^ 62 returns a pointer that is not NULL, the bytes at that
-- pointer are within the heap and are disjoint from every block that was in use.
pub kmalloc-disjoint :
    (s : Kheap) (bs : List Block) (size q : ℕ) (t : Kheap)
    → IsHeap s bs
    → size ≢ 0
    → size < 2 ^ 62
    → kmalloc size s ≡ some (q, t)
    → q ≢ 0
    → (s.heap_start + header_size ≤ q)
      × (q + size ≤ t.heap_end)
      × ((x n : ℕ) → Owns s.heap_start bs x n → (q + size ≤ x) ⊎ (x + n + header_size ≤ q))
kmalloc-disjoint s bs size q t v ne hi run live =
    let (a, at, same) = allocated s bs size q t v ne hi run live in
    let large = a.large in
    let end = rw (sym same) at a.inside.1 in
    (
      omega (arith, a.inside.0, at),
      omega (arith, at, large, end),
      λ x n o.
          elim (Owns-disjoint s.heap_start a.blocks a.p a.m x n
            ((a.owns a.p a.m).1 (inl (refl, refl))) ((a.owns x n).1 (inr o))) [
              | inl (e, _) ↦ absurd (a.was_free n (rw e o))
              | inr (inl le) ↦ inl (omega (arith, at, large, le))
              | inr (inr le) ↦ inr (omega (arith, at, le))
            ],
    )

-- Freeing what `kmalloc` of a size below 2 ^ 62 returned succeeds and leaves a well-formed heap with exactly the blocks
-- in use that there were before, each where it was.
pub kfree-kmalloc :
    (s : Kheap) (bs : List Block) (size q : ℕ) (t : Kheap)
    → IsHeap s bs
    → size ≢ 0
    → size < 2 ^ 62
    → kmalloc size s ≡ some (q, t)
    → q ≢ 0
    → (u : Kheap) × (cs : List Block) × (kfree q t ≡ some u)
      × IsHeap u cs
      × ((x n : ℕ) → Owns u.heap_start cs x n ↔ Owns s.heap_start bs x n)
kfree-kmalloc s bs size q t v ne hi run live =
    let (a, at, same) = allocated s bs size q t v ne hi run live in
    let o : Owns a.state.heap_start a.blocks a.p a.m =
      rw a.same_start ((a.owns a.p a.m).1 (inl (refl, refl))) in
    let f = kfree-IsFreed a.state a.blocks a.p a.m a.heap o in
    (
      f.state,
      f.blocks,
      rw (at, same) f.returns,
      f.heap,
      λ x n.
          let inner = f.owns x n in
          let outer = a.owns x n in
          (
            λ h. elim (outer.0 (rw (sym a.same_start) (inner.0 h).0)) [
              | inl e ↦ absurd ((inner.0 h).1 (sym e.0))
              | inr old ↦ old
            ],
            λ old.
                inner.1 (rw a.same_start (outer.1 (inr old)), λ e. a.was_free n (rw (sym e) old)),
          ),
    )
