-- ===== src/Ramfs/Pages.antt =====
-- kernel/src/ramfs.c: the pages behind the files.
use tuna_os.Base.{
  ℕ, ◌^◌, ◌≡◌, ◌<◌, inl, inr, Option, none, some, List, arith, ◌==◌, Bool-cases, Option-cases,
  length,
}
use tuna_os.Kheap.{Kheap, kmalloc, kfree}
use tuna_os.Kheap.Backed.{IsBacked, Backs, Backs-trans, kmalloc-Backs, kfree-Backs}
use tuna_os.Ramfs.{Ramfs, File, ramfs_create, create_at, node_size}

-- What holds of the heap of what was returned holds of the heap of `t`.
same-heap :
    (P : Kheap → Type 0) (f g : Option File) (s t : Ramfs)
    → ◌≡◌ {A = Option (Option File × Ramfs)} (some (f, s)) (some (g, t))
    → P s.heap
    → P t.heap
same-heap P f g s t e h = let e' : s ≡ t = cc in rw (← e') h

no-result :
    {P : Type 0} (g : Option File) (t : Ramfs)
    → ◌≡◌ {A = Option (Option File × Ramfs)} none (some (g, t))
    → P
no-result g t e = cc

create_at-Backs :
    (node : ℕ) (name source : List ℕ) (s t : Ramfs) (f : Option File)
    → length source < 2 ^ 62
    → IsBacked s.heap
    → create_at node name source s ≡ some (f, t)
    → Backs s.heap t.heap
unfolding create_at
create_at-Backs node name source s t f small v run =
    elim (Option-cases (kmalloc (length source) s.heap)) [
      | inl e ↦ no-result f t (rw (e, create_at) at run)
      | inr ((address, heap), e) ↦
          let g = kmalloc-Backs (length source) address s.heap heap small v e in
          elim (Bool-cases (address == 0)) [
            | inl failed ↦ elim (Option-cases (kfree node heap)) [
              | inl e' ↦ no-result f t (rw (e, create_at, failed, e') at run)
              | inr (heap', e') ↦
                  same-heap (Backs s.heap) none f (record s { heap = heap' }) t
                    (rw (e, create_at, failed, e') at run)
                    (Backs-trans s.heap heap heap' g (kfree-Backs node heap heap' g.backed e'))
            ]
            | inr made ↦ same-heap (Backs s.heap) _ f _ t (rw (e, create_at, made) at run) g
          ]
    ]

-- The creation of a file maps the heap's pages alone.
pub ramfs_create-Backs :
    (name source : List ℕ) (s t : Ramfs) (f : Option File)
    → length source < 2 ^ 62
    → IsBacked s.heap
    → ramfs_create name source s ≡ some (f, t)
    → Backs s.heap t.heap
unfolding ramfs_create
ramfs_create-Backs name source s t f small v run = elim (Option-cases (kmalloc node_size s.heap)) [
  | inl e ↦ no-result f t (rw (e, ramfs_create) at run)
  | inr ((node, heap), e) ↦
      let g = kmalloc-Backs node_size node s.heap heap (omega arith) v e in
      elim (Bool-cases (node == 0)) [
        | inl failed ↦
            same-heap (Backs s.heap) none f (record s { heap = heap }) t
              (rw (e, ramfs_create, failed) at run) g
        | inr made ↦ Backs-trans s.heap heap t.heap g (
            create_at-Backs node name source (record s { heap = heap }) t f small g.backed
              (rw (e, ramfs_create, made) at run))
      ]
]
