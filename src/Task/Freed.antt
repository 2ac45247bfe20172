-- ===== src/Task/Freed.antt =====
-- kernel/src/kheap.c for task.c: which pointers a run of `kfree` releases.
use tuna_os.Base.{
  ℕ, ◌≡◌, refl, ◌↔◌, false, some, List, [], ◌∷◌, ◌++◌, ==_iff, ==_refl, arith, sym, ◌∙◌,
}
use tuna_os.Kheap.{Kheap, kfree}
use tuna_os.Kheap.Blocks.{Block}
use tuna_os.Kheap.Chain.{IsHeap, IsHeap_unique}
use tuna_os.Kheap.Live.{IsLive, kfree-IsLive}
use tuna_os.Task.Lists.{member, member-append}

-- The live pointers of the second heap are those of the first without the given ones.
abbrev pub Frees : Kheap → Kheap → List ℕ → Type 0
Frees h h' ps =
    (bs : List Block)
    → IsHeap h bs
    → (cs : List Block) × IsHeap h' cs
      × ((x : ℕ) → IsLive h' cs x ↔ (IsLive h bs x × (member x ps ≡ false)))

pub Frees-refl : (h : Kheap) → Frees h h []
Frees-refl h bs v = (bs, v, λ x. (λ l. (l, refl), λ (l, _). l))

pub Frees-trans :
    (h h' h'' : Kheap) (ps qs : List ℕ) → Frees h h' ps → Frees h' h'' qs → Frees h h'' (ps ++ qs)
Frees-trans h h' h'' ps qs f g bs v =
    let (cs, w, a) = f bs v in
    let (ds, u, b) = g cs w in
    (
      ds,
      u,
      λ x. (
        λ l.
            let (l', out) = (b x).0 l in
            let (l'', out') = (a x).0 l' in (l'', ground (arith, member-append x ps qs)),
        λ (l, out). (b x).1 (
          (a x).1 (l, ground (arith, member-append x ps qs)),
          ground (arith, member-append x ps qs),
        ),
      ),
    )

pub Frees-same :
    (h h' : Kheap) (ps qs : List ℕ)
    → ((x : ℕ) → member x qs ≡ member x ps)
    → Frees h h' ps
    → Frees h h' qs
Frees-same h h' ps qs same f bs v =
    let (cs, w, a) = f bs v in
    (
      cs,
      w,
      λ x. (
        λ l. let (l', out) = (a x).0 l in (l', same x ∙ out),
        λ (l, out). (a x).1 (l, sym (same x) ∙ out),
      ),
    )

-- One live pointer.
pub kfree-Frees :
    (h : Kheap) (bs : List Block) (p : ℕ)
    → IsHeap h bs
    → IsLive h bs p
    → (h' : Kheap) × (kfree p h ≡ some h') × Frees h h' (p ∷ [])
kfree-Frees h bs p v l =
    let (h', bs', e, w, still) = kfree-IsLive h bs p v l in
    (
      h',
      e,
      λ cs u.
          let same : bs ≡ cs = IsHeap_unique h bs cs v u in
          (
            bs',
            w,
            λ x. (
              λ m.
                  let (old, other) = (still x).0 m in
                  (rw same at old, ground (arith, ==_iff p x, other)),
              λ (m, out). (still x).1 (rw (sym same) at m, ground (arith, ==_refl p)),
            ),
          ),
    )
