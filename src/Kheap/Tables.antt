-- ===== src/Kheap/Tables.antt =====
-- kernel/src/kheap.c over vmm.c: the pages that the heap maps for itself.
use tuna_os.Base.{
  ℕ, zero, suc, ◌+◌, ◌*◌, ◌/◌, ◌^◌, ◌<◌, ◌≤◌, ◌≡◌, refl, ◌⊎◌, inl, inr, true, false, some, bit_or,
  arith, Bool-cases, ◌==◌, ==_iff, ◌∙◌,
}
use tuna_os.Pmm.{take_frame, page_size, pmm_alloc_frame}
use tuna_os.Pmm.Bitmap.{is_set}
use tuna_os.Pmm.Alloc.{IsFull, IsLowestFree, pmm_alloc_frame_lem}
use tuna_os.Vmm.{Memory, vmm_map_page}
use tuna_os.Vmm.Tree.{translate}
use tuna_os.Vmm.Descend.{lowest-ne_zero}
use tuna_os.Vmm.Map.{IsWellFormed, Maps}
use tuna_os.Vmm.Map.Leaf.{page_number}
use tuna_os.Vmm.Fresh.{taken, map_taken, map_taken-Remaps}
use tuna_os.Vmm.Range.{Remaps, Remaps-refl, Remaps-trans, Remaps-widen, translate-page}
use tuna_os.Kheap.{map_region}

-- The page of `v` leads to a frame that is in use, present and writable.
pub record IsHeld (m : Memory) (v : ℕ) : Type 0 where
  pub frame : ℕ
  pub leads : translate m.words m.pml4 v ≡ some (bit_or (frame * page_size) 3)
  pub used : is_set m.pmm.bitmap frame ≡ true

-- The pages from `lo` to below `hi` are held, unless the frames have run out.
abbrev pub AreHeld : (lo hi : ℕ) → Memory → Type 0
AreHeld lo hi m = IsFull m.pmm ⊎ ((v : ℕ) → lo ≤ page_number v → page_number v < hi → IsHeld m v)

-- A page that is not mapped again stays held.
IsHeld-Remaps :
    (lo hi v : ℕ) (m m' : Memory)
    → Remaps lo hi m m'
    → (page_number v < lo) ⊎ (hi ≤ page_number v)
    → IsHeld m v
    → IsHeld m' v
IsHeld-Remaps lo hi v m m' r apart h = record {
  frame = h.frame;
  leads = rw r.root (r.others v apart ∙ h.leads);
  used = r.marks h.frame h.used;
}

module _ (lo addr f : ℕ) (m : Memory) (well : IsWellFormed m) (least : IsLowestFree m.pmm f)
    (small : addr < 2 ^ 48) where
  abbrev held : Memory
  held = vmm_map_page addr (f * page_size) 3 (taken f m)

  held-Maps : Maps m addr (bit_or (f * page_size) 3) held
  held-Maps = (map_taken m f least addr 3 well refl).0

  held-Remaps : Remaps (addr / 4096) (addr / 4096 + 1) m held
  held-Remaps =
      map_taken-Remaps m f least (addr / 4096) (addr / 4096 + 1) addr 3 well refl (omega arith)
        (omega arith) (omega arith)

  here-AreHeld :
      AreHeld lo (addr / 4096) m
      → translate held.words m.pml4 addr ≡ some (bit_or (f * page_size) 3)
      → AreHeld lo (addr / 4096 + 1) held
  here-AreHeld (inl full) here = inl λ g h. held-Maps.marks g (full g h)
  here-AreHeld (inr old) here = inr λ v from below.
      elim (Bool-cases (page_number v == addr / 4096)) [
        | inl same ↦
            let e : page_number v ≡ addr / 4096 = (==_iff (page_number v) (addr / 4096)).0 same in
            record {
              frame = f;
              leads = rw held-Maps.root (translate-page _ m.pml4 v addr (omega arith) ∙ here);
              used = (map_taken m f least addr 3 well refl).1;
            }
        | inr other ↦
            let before : page_number v < addr / 4096 = ground arith in
            IsHeld-Remaps (addr / 4096) (addr / 4096 + 1) v m held held-Remaps (inl before)
              (old v from before)
      ]

  held-AreHeld : AreHeld lo (addr / 4096) m → AreHeld lo (addr / 4096 + 1) held
  held-AreHeld before = elim held-Maps.mapped [
    | inl (here, _, _) ↦ here-AreHeld before here
    | inr (full, _) ↦ inl full
  ]

step-equation :
    (rounds addr f : ℕ) (m : Memory)
    → pmm_alloc_frame m.pmm ≡ (f * page_size, take_frame f m.pmm)
    → (f * page_size == 0) ≡ false
    → map_region (suc rounds) addr m
      ≡ map_region rounds (addr + 4096) (vmm_map_page addr (f * page_size) 3 (taken f m))
unfolding map_region
step-equation rounds addr f m e n = rw (e, map_region, n) refl

full-equation :
    (rounds addr : ℕ) (m : Memory)
    → pmm_alloc_frame m.pmm ≡ (0, m.pmm)
    → map_region (suc rounds) addr m ≡ m
unfolding map_region
full-equation rounds addr m e = rw (e, map_region) refl

-- A run of the loop that maps maps its pages and no other.
pub map_region-Remaps :
    (lo rounds addr : ℕ) (m : Memory)
    → IsWellFormed m
    → addr + 4096 * rounds < 2 ^ 48
    → AreHeld lo (addr / 4096) m
    → let m' = map_region rounds addr m in
      Remaps (addr / 4096) (addr / 4096 + rounds) m m' × AreHeld lo (addr / 4096 + rounds) m'
map_region-Remaps lo zero addr m well small before =
    let e : addr / 4096 + 0 ≡ addr / 4096 = omega arith in
    unfold map_region in rw e (Remaps-refl (addr / 4096) (addr / 4096) m well, before)
map_region-Remaps lo (suc rounds) addr m well small before = elim (pmm_alloc_frame_lem m.pmm) [
  | inr (full, r) ↦
      rw (full-equation rounds addr m r) (Remaps-refl (addr / 4096) _ m well, inl full)
  | inl (f, least, r) ↦
      let (_, tree) = well in
      let one = held-Remaps lo addr f m well least (omega arith) in
      let next : (addr + 4096) / 4096 ≡ addr / 4096 + 1 = omega arith in
      let end : addr / 4096 + 1 + rounds ≡ addr / 4096 + suc rounds = omega arith in
      let (rest, held') =
        map_region-Remaps lo rounds (addr + 4096) (held lo addr f m well least (omega arith))
          one.well_formed (omega arith)
          (rw next (held-AreHeld lo addr f m well least (omega arith) before)) in
      rw (step-equation rounds addr f m r (lowest-ne_zero m f tree.zero_used least)) (
        Remaps-trans (addr / 4096) _ m _ _
            (Remaps-widen _ _ (addr / 4096) _ m _ (omega arith) (omega arith) one)
            (Remaps-widen _ _ (addr / 4096) _ _ _ (omega arith) (omega arith) rest),
        rw (next, end) at held',
      )
]
