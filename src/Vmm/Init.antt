-- ===== src/Vmm/Init.antt =====
-- kernel/src/vmm.c: the identity mapping that `vmm_init` builds and loads.
use tuna_os.Base.{
  ℕ, zero, suc, ◌+◌, ◌*◌, ◌/◌, ◌<◌, ◌≡◌, refl, ◌⊎◌, inl, inr, Bool, true, false, none, some, [],
  bit_or, arith, ◌∙◌, Bool-cases, ◌==◌, ==_iff, if◌then◌else◌, update, ltb,
}
use tuna_os.Pmm.{take_frame, page_size, pmm_alloc_frame}
use tuna_os.Pmm.Bitmap.{is_set}
use tuna_os.Pmm.Count.{IsValid, take_frame-IsValid, take_frame-is_set}
use tuna_os.Pmm.Alloc.{IsLowestFree, IsFull, pmm_alloc_frame_lem}
use tuna_os.Vmm.{
  Memory, slot, page_mask, zero_table, alloc_table, pml4_index, vmm_map_page, identity_map,
  vmm_init,
}
use tuna_os.Vmm.Entry.{zero_table-inside}
use tuna_os.Vmm.Tree.{Owner, Place, IsTree, reach, translate}
use tuna_os.Vmm.Descend.{lowest-ne_zero}
use tuna_os.Vmm.Map.{IsWellFormed, Maps, vmm_map_page-Maps}
use tuna_os.Vmm.Map.Leaf.{page_number}
use tuna_os.Vmm.Range.{translate-page}

-- The pages below `n` are mapped to themselves, present and writable, and no other page is mapped.
abbrev pub IsIdentity : ℕ → Memory → Type 0
IsIdentity n s =
    (virt : ℕ)
    → translate s.words s.pml4 virt
      ≡ (if ltb (page_number virt) n then some (bit_or (page_number virt * 4096) 3) else none)

step-IsIdentity :
    (k : ℕ) (s : Memory)
    → k < 1024
    → IsWellFormed s
    → IsIdentity k s
    → Maps s (k * 4096) (bit_or (page_mask (k * 4096)) 3) (vmm_map_page (k * 4096) (k * 4096) 3 s)
    → let s' = vmm_map_page (k * 4096) (k * 4096) 3 s in IsFull s'.pmm ⊎ IsIdentity (k + 1) s'
step-IsIdentity k s small (o, tree) identity m = elim m.mapped [
  | inr (full, _) ↦ inl full
  | inl (here, _, _) ↦ inr λ virt. rw m.root (elim (Bool-cases (page_number virt == k)) [
    | inl same ↦
        let e : page_number virt ≡ k = (==_iff (page_number virt) k).0 same in
        translate-page _ s.pml4 virt (k * 4096) (omega arith) ∙ here ∙ ground arith
    | inr other ↦ m.others virt (ground arith) ∙ identity virt ∙ ground arith
  ])
]

-- The loop, from page `k` on.
identity_map-IsIdentity :
    (n k addr : ℕ) (s : Memory)
    → k + n ≡ 1024
    → addr ≡ k * 4096
    → IsWellFormed s
    → IsFull s.pmm ⊎ IsIdentity k s
    → let s' = identity_map n addr s in IsWellFormed s' × (IsFull s'.pmm ⊎ IsIdentity 1024 s')
unfolding identity_map
identity_map-IsIdentity zero k addr s e ea well so_far =
    let e' : k ≡ 1024 = omega arith in (well, rw (← e') so_far)
identity_map-IsIdentity (suc n) k addr s e ea (o, tree) so_far =
    let m = vmm_map_page-Maps s o tree (k * 4096) (k * 4096) 3 refl in
    rw ea (
      identity_map-IsIdentity n (k + 1) (k * 4096 + 4096) (vmm_map_page (k * 4096) (k * 4096) 3 s)
        (omega arith) (omega arith) m.well_formed
        (elim so_far [
          | inl full ↦ inl (λ g h. m.marks g (full g h))
          | inr identity ↦ step-IsIdentity k s (omega arith) (o, tree) identity m
        ]))

module _ (s : Memory) (valid : IsValid s.pmm) (zero_used : is_set s.pmm.bitmap 0 ≡ true) (f : ℕ)
    (least : IsLowestFree s.pmm f) where
  -- The state with a root of zeroes.
  abbrev blank : Memory
  blank = record s {
    pmm = take_frame f s.pmm;
    words = zero_table 512 (f * page_size) 0 s.words;
    pml4 = f * page_size;
  }

  abbrev root_alone : Owner
  root_alone = update (λ _. none) (f * page_size) (some [])

  blank_entry : (i : ℕ) → i < 512 → blank.words (slot (f * page_size) i) ≡ 0
  blank_entry i h = zero_table-inside 512 (f * page_size) 0 s.words i (omega arith) (omega arith)

  root_alone_self : (t : ℕ) (p : Place) → root_alone t ≡ some p → t ≡ f * page_size
  root_alone_self t p e = ground arith

  blank-IsTree : IsTree blank root_alone
  blank-IsTree = record {
    counted = take_frame-IsValid s.pmm f valid least.in_range least.free;
    zero_used = ground (arith, take_frame-is_set s.pmm f 0 valid);
    root = ground arith;
    table = λ t p e. rw (root_alone_self t p e) (record {
      aligned = omega arith;
      in_range = omega (arith, least.in_range);
      marked = rw frame (ground (arith, take_frame-is_set s.pmm f f valid));
    });
    child = λ t p i e d h present.
        let e' = root_alone_self t p e in
        let clash : ◌≡◌ {A = Bool} false true = rw (e', blank_entry i h) at present in cc;
  }
    where
      frame : f * page_size / 4096 ≡ f
      frame = omega arith

  blank-IsIdentity : IsIdentity 0 blank
  blank-IsIdentity virt =
      unfold translate reach in rw (blank_entry (pml4_index virt) (omega arith)) (ground arith)

  vmm_init-blank :
      pmm_alloc_frame s.pmm ≡ (f * page_size, take_frame f s.pmm)
      → vmm_init s ≡ (let mapped = identity_map 1024 0 blank in record mapped { cr3 = mapped.pml4 })
  unfolding vmm_init alloc_table
  vmm_init-blank r = let ne = lowest-ne_zero s f zero_used least in rw (r, ne, ne)

pub loaded-IsTree : (s : Memory) (o : Owner) → IsTree s o → IsTree (record s { cr3 = s.pml4 }) o
loaded-IsTree s o tree = record {
  counted = tree.counted;
  zero_used = tree.zero_used;
  root = tree.root;
  table = tree.table;
  child = tree.child;
}

-- `vmm_init` loads page tables that map the first 4 MiB to themselves, present and writable, and
-- nothing else; or the frames have run out. The counters are right and frame 0 is in use, as
-- after `pmm_init`.
pub vmm_init-IsIdentity :
    (s : Memory)
    → IsValid s.pmm
    → is_set s.pmm.bitmap 0 ≡ true
    → let s' = vmm_init s in
      IsFull s'.pmm ⊎ (IsWellFormed s' × (s'.cr3 ≡ s'.pml4) × IsIdentity 1024 s')
vmm_init-IsIdentity s valid zero_used = elim (pmm_alloc_frame_lem s.pmm) [
  | inl (f, least, r) ↦
      let blank' = blank s valid zero_used f least in
      let tree = blank-IsTree s valid zero_used f least in
      let (well, outcome) =
        identity_map-IsIdentity 1024 0 0 blank' refl refl (_, tree)
          (inr (blank-IsIdentity s valid zero_used f least)) in
      rw (vmm_init-blank s valid zero_used f least r) (elim outcome [
        | inl full ↦ inl full
        | inr identity ↦
            inr ((well.0, loaded-IsTree (identity_map 1024 0 blank') well.0 well.1), refl, identity)
      ])
  | inr (full, r) ↦ inl (unfold vmm_init alloc_table in rw r full)
]
