-- ===== src/Kheap/Live.antt =====
-- kernel/src/kheap.c for its clients: the pointers that are live in a heap.
use tuna_os.Base.{ℕ, ◌+◌, ◌^◌, ◌<◌, ◌≡◌, ◌≢◌, refl, ◌⊎◌, inl, inr, ◌↔◌, some, List, arith}
use tuna_os.Kheap.{Kheap, kmalloc, kfree, header_size}
use tuna_os.Kheap.Blocks.{Block, Owns}
use tuna_os.Kheap.Chain.{IsHeap}
use tuna_os.Kheap.Malloc.{kmalloc-cases}
use tuna_os.Kheap.Free.{kfree-IsFreed}

-- A pointer that `kmalloc` returned and that was not freed.
abbrev pub IsLive : Kheap → List Block → ℕ → Type 0
IsLive h bs p = (q : ℕ) × (m : ℕ) × (p ≡ q + header_size) × Owns h.heap_start bs q m

abbrev pub IsWell : Kheap → Type 0
IsWell h = (bs : List Block) × IsHeap h bs

-- An allocation: NULL and the same heap, or a pointer that was not live and is.
pub kmalloc-IsLive :
    (h : Kheap) (bs : List Block) (size : ℕ)
    → IsHeap h bs
    → size ≢ 0
    → size < 2 ^ 62
    → (kmalloc size h ≡ some (0, h))
      ⊎ ((p : ℕ) × (h' : Kheap) × (bs' : List Block) × (kmalloc size h ≡ some (p, h'))
          × IsHeap h' bs'
          × (p ≢ 0)
          × (¬ IsLive h bs p)
          × ((x : ℕ) → IsLive h' bs' x ↔ ((x ≡ p) ⊎ IsLive h bs x)))
kmalloc-IsLive h bs size v ne hi = elim (kmalloc-cases h bs size v ne hi) [
  | inr (e, _, _) ↦ inl e
  | inl a ↦ inr (
    a.p + header_size,
    a.state,
    a.blocks,
    a.returns,
    a.heap,
    omega arith,
    λ (q, m, e, o). let at : q ≡ a.p = omega arith in a.was_free m (rw at at o),
    λ x. (
      λ (q, m, e, o). elim ((a.owns q m).0 (rw a.same_start at o)) [
        | inl (at, _) ↦ inl (omega arith)
        | inr old ↦ inr (q, m, e, old)
      ],
      λ h'. elim h' [
        | inl e ↦ (a.p, a.m, e, rw a.same_start ((a.owns a.p a.m).1 (inl (refl, refl))))
        | inr (q, m, e, o) ↦ (q, m, e, rw a.same_start ((a.owns q m).1 (inr o)))
      ],
    ),
  )
]

-- A release of a live pointer: that pointer alone is no longer live.
pub kfree-IsLive :
    (h : Kheap) (bs : List Block) (p : ℕ)
    → IsHeap h bs
    → IsLive h bs p
    → (h' : Kheap) × (bs' : List Block) × (kfree p h ≡ some h')
      × IsHeap h' bs'
      × ((x : ℕ) → IsLive h' bs' x ↔ (IsLive h bs x × (x ≢ p)))
kfree-IsLive h bs p v (q, m, e, o) =
    let f = kfree-IsFreed h bs q m v o in
    (
      f.state,
      f.blocks,
      rw e f.returns,
      f.heap,
      λ x. (
        λ (r, n, e', o').
            let (old, other) = (f.owns r n).0 o' in ((r, n, e', old), λ same. other (omega arith)),
        λ ((r, n, e', o'), other). (r, n, e', (f.owns r n).1 (o', λ same. other (omega arith))),
      ),
    )
