-- ===== src/Vmm/Range.antt =====
-- kernel/src/vmm.c: a run of mappings that stays within a range of pages.
use tuna_os.Base.{
  ℕ, ◌≤◌, ◌<◌, ◌≡◌, refl, ◌⊎◌, inl, inr, true, ap, sym, ◌∙◌, arith, false, some, Bool-cases, ◌==◌,
  ==_iff, Bool, Option, ◌/◌, [], ◌∷◌,
}
use tuna_os.Pmm.Bitmap.{is_set}
use tuna_os.Vmm.{Memory, pml4_index, pdpt_index, pd_index, pt_index}
use tuna_os.Vmm.Tree.{translate, reach, entry_of, Grants, upper_indices}
use tuna_os.Vmm.Entry.{IsRight}
use tuna_os.Vmm.Map.{IsWellFormed, Maps}
use tuna_os.Vmm.Map.Leaf.{page_number}

-- The walk reads the number of the page alone.
pub translate-page :
    (w : ℕ → ℕ) (root u v : ℕ)
    → page_number u ≡ page_number v
    → translate w root u ≡ translate w root v
translate-page w root u v e =
    let i₄ : pml4_index u ≡ pml4_index v = omega arith in
    let i₃ : pdpt_index u ≡ pdpt_index v = omega arith in
    let i₂ : pd_index u ≡ pd_index v = omega arith in
    let i₁ : pt_index u ≡ pt_index v = omega arith in
    unfold translate in λ i. entry_of w (i₁ i) (reach w root (i₄ i ∷ i₃ i ∷ i₂ i ∷ []))

-- From `s` to `s'` pages from `lo` to below `hi` were mapped at most, and frames only taken.
pub record Remaps (lo hi : ℕ) (s s' : Memory) : Type 0 where
  pub well_formed : IsWellFormed s'
  pub root : s'.pml4 ≡ s.pml4
  pub cr3 : s'.cr3 ≡ s.cr3
  pub marks : (g : ℕ) → is_set s.pmm.bitmap g ≡ true → is_set s'.pmm.bitmap g ≡ true
  pub rights :
      (k v : ℕ)
      → IsRight k
      → Grants k s.words s.pml4 (upper_indices v)
      → Grants k s'.words s.pml4 (upper_indices v)
  -- What a page leads to that it did not lead to was free.
  pub fresh :
      (v e : ℕ)
      → translate s'.words s.pml4 v ≡ some e
      → (translate s.words s.pml4 v ≡ some e) ⊎ (is_set s.pmm.bitmap (e / 4096) ≡ false)
  pub others :
      (v : ℕ)
      → (page_number v < lo) ⊎ (hi ≤ page_number v)
      → translate s'.words s.pml4 v ≡ translate s.words s.pml4 v

pub same_entry : (a b : ℕ) → ◌≡◌ {A = Option ℕ} (some a) (some b) → a ≡ b
same_entry a b e = cc

pub Remaps-refl : (lo hi : ℕ) (s : Memory) → IsWellFormed s → Remaps lo hi s s
Remaps-refl lo hi s v = record {
  well_formed = v;
  root = refl;
  cr3 = refl;
  marks = λ g h. h;
  rights = λ k v right g. g;
  fresh = λ v e h. inl h;
  others = λ v h. refl;
}

-- What is free afterwards was free.
pub marks-free :
    (s t : Memory)
    → ((g : ℕ) → is_set s.pmm.bitmap g ≡ true → is_set t.pmm.bitmap g ≡ true)
    → (f : ℕ) → is_set t.pmm.bitmap f ≡ false
    → is_set s.pmm.bitmap f ≡ false
marks-free s t marks f free = elim (Bool-cases (is_set s.pmm.bitmap f)) [
  | inr before ↦ before
  | inl used ↦ let clash : ◌≡◌ {A = Bool} true false = sym (marks f used) ∙ free in cc
]

pub Remaps-trans :
    (lo hi : ℕ) (s t u : Memory) → Remaps lo hi s t → Remaps lo hi t u → Remaps lo hi s u
Remaps-trans lo hi s t u g h = record {
  well_formed = h.well_formed;
  root = h.root ∙ g.root;
  cr3 = h.cr3 ∙ g.cr3;
  marks = λ f used. h.marks f (g.marks f used);
  rights = λ k v right a. rw g.root at (h.rights k v right (rw g.root (g.rights k v right a)));
  fresh = λ v e there. elim (h.fresh v e (rw g.root there)) [
    | inl before ↦ g.fresh v e (rw (← g.root) before)
    | inr free ↦ inr (marks-free s t g.marks (e / 4096) free)
  ];
  others = λ v apart.
      ap (λ (r : ℕ). translate u.words r v) (sym g.root)
      ∙ h.others v apart
      ∙ ap (λ (r : ℕ). translate t.words r v) g.root
      ∙ g.others v apart;
}

pub Remaps-widen :
    (lo hi lo' hi' : ℕ) (s s' : Memory)
    → lo' ≤ lo
    → hi ≤ hi'
    → Remaps lo hi s s'
    → Remaps lo' hi' s s'
Remaps-widen lo hi lo' hi' s s' below above g = record {
  well_formed = g.well_formed;
  root = g.root;
  cr3 = g.cr3;
  marks = g.marks;
  rights = g.rights;
  fresh = g.fresh;
  others =
      λ v apart. g.others v (elim apart [ inl h ↦ inl (omega arith) | inr h ↦ inr (omega arith) ]);
}

-- One page, mapped to a frame that is free.
Maps-fresh :
    (virt entry : ℕ) (s s' : Memory)
    → Maps s virt entry s'
    → is_set s.pmm.bitmap (entry / 4096) ≡ false
    → (v e : ℕ) → translate s'.words s.pml4 v ≡ some e
    → (translate s.words s.pml4 v ≡ some e) ⊎ (is_set s.pmm.bitmap (e / 4096) ≡ false)
Maps-fresh virt entry s s' m free v e there =
    elim (Bool-cases (page_number v == page_number virt)) [
      | inr other ↦ inl (sym (m.others v (ground arith)) ∙ there)
      | inl same ↦
          let page : page_number v ≡ page_number virt =
            (==_iff (page_number v) (page_number virt)).0 same in
          let at = sym (translate-page s'.words s.pml4 v virt page) ∙ there in
          elim m.mapped [
            | inl (here, _, _) ↦
                let e' : entry ≡ e = same_entry entry e (sym here ∙ at) in inr (rw (← e') free)
            | inr (_, unchanged) ↦
                inl (translate-page s.words s.pml4 v virt page ∙ sym unchanged ∙ at)
          ]
    ]

pub Maps-Remaps :
    (lo hi virt entry : ℕ) (s s' : Memory)
    → lo ≤ page_number virt
    → page_number virt < hi
    → Maps s virt entry s'
    → is_set s.pmm.bitmap (entry / 4096) ≡ false
    → Remaps lo hi s s'
Maps-Remaps lo hi virt entry s s' below above m free = record {
  well_formed = m.well_formed;
  root = m.root;
  cr3 = m.cr3;
  marks = m.marks;
  rights = m.rights;
  fresh = Maps-fresh virt entry s s' m free;
  others = λ v apart. m.others v (elim apart [ inl h ↦ omega arith | inr h ↦ omega arith ]);
}
