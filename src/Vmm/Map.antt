-- ===== src/Vmm/Map.antt =====
-- kernel/src/vmm.c: what `vmm_map_page` does to the processor's translations.
pub mod Leaf
use tuna_os.Base.{
  ℕ, ◌+◌, ◌≤◌, ◌≡◌, ◌≢◌, refl, ◌⊎◌, inl, inr, Bool, true, false, not, Option, none, some, List, [],
  ◌∷◌, length, bit_or, bit_or_digit, arith, ap, ◌∙◌, sym, Bool-cases, if◌then◌else◌,
}
use tuna_os.Pmm.Bitmap.{is_set}
use tuna_os.Pmm.Alloc.{IsFull}
use tuna_os.Vmm.{
  Memory, slot, page_mask, write_word, pt_index, pd_index, pdpt_index, pml4_index, descend,
  next_table, no_frame, intermediate_flags, vmm_map_page, vmm_unmap_page,
}
use tuna_os.Vmm.Entry.{
  is_present, is_present-odd, odd-is_present, AreFlags, intermediate-AreFlags, IsRight, HasRight,
  intermediate-writable, intermediate-user,
}
use tuna_os.Vmm.Tree.{Owner, Place, IsTree, Grants, reach, translate, upper_indices}
use tuna_os.Vmm.Descend.{Extends, Extends-refl, Extends-trans, Descends, descend-Descends}
use Leaf.{page_number, stored-IsTree, stored_self, stored-others, stored-granted}

abbrev pub IsWellFormed : Memory → Type 0
IsWellFormed s = (o : Owner) × IsTree s o

-- The outcome of mapping the page of `virt`. The processor takes a right only where every level
-- grants it.
pub record Maps (s : Memory) (virt entry : ℕ) (s' : Memory) : Type 0 where
  pub well_formed : IsWellFormed s'
  pub root : s'.pml4 ≡ s.pml4
  pub cr3 : s'.cr3 ≡ s.cr3
  pub marks : (g : ℕ) → is_set s.pmm.bitmap g ≡ true → is_set s'.pmm.bitmap g ≡ true
  pub others :
      (v : ℕ)
      → page_number v ≢ page_number virt
      → translate s'.words s.pml4 v ≡ translate s.words s.pml4 v
  pub rights :
      (k v : ℕ)
      → IsRight k
      → Grants k s.words s.pml4 (upper_indices v)
      → Grants k s'.words s.pml4 (upper_indices v)
  pub mapped :
      ((translate s'.words s.pml4 virt ≡ some entry)
        × Grants 2 s'.words s.pml4 (upper_indices virt)
        × (HasRight 4 entry → Grants 4 s'.words s.pml4 (upper_indices virt)))
      ⊎ (IsFull s'.pmm × (translate s'.words s.pml4 virt ≡ translate s.words s.pml4 virt))

reach-step :
    (w : ℕ → ℕ) (t c i : ℕ) (is : List ℕ)
    → reach w t (i ∷ []) ≡ some c
    → reach w t (i ∷ is) ≡ reach w c is
unfolding reach
reach-step w t c i is h = elim (Bool-cases (is_present (w (slot t i)))) [
  | inl p ↦
      let e : some (page_mask (w (slot t i))) ≡ some c = rw p at h in
      let e' : page_mask (w (slot t i)) ≡ c = cc in rw (p, e')
  | inr p ↦ let e : ◌≡◌ {A = Option ℕ} none (some c) = rw p at h in cc
]

unmapped-Maps :
    {s s' : Memory} {o o' : Owner} (virt entry : ℕ)
    → IsTree s o
    → Extends s o s' o'
    → IsFull s'.pmm
    → Maps s virt entry s'
unmapped-Maps {s} {o'} virt entry tree x full = record {
  well_formed = (o', x.tree);
  root = x.root;
  cr3 = x.cr3;
  marks = x.marks;
  others = λ v ne. x.translated v;
  rights = λ k v right g.
      x.granted k right (upper_indices v) s.pml4 [] tree.root (omega arith) (omega arith) g;
  mapped = inr (full, x.translated virt);
}

leaf-Maps :
    {s s' : Memory} {o o' : Owner} (virt entry pt : ℕ)
    → IsTree s o
    → Extends s o s' o'
    → is_present entry ≡ true
    → reach s'.words s'.pml4 (upper_indices virt) ≡ some pt
    → Grants 2 s'.words s'.pml4 (upper_indices virt)
    → (HasRight 4 entry → Grants 4 s'.words s'.pml4 (upper_indices virt))
    → Maps s virt entry (write_word (slot pt (pt_index virt)) entry s')
unfolding write_word
leaf-Maps {s} {s'} {o'} virt entry pt tree x present there write user = record {
  well_formed = (o', stored-IsTree s' o' x.tree virt pt entry there);
  root = x.root;
  cr3 = x.cr3;
  marks = x.marks;
  others =
      λ v ne. (rw x.root at (stored-others s' o' x.tree virt pt entry there v ne)) ∙ x.translated v;
  rights = λ k v right g.
      kept k v
        (x.granted k right (upper_indices v) s.pml4 [] tree.root (omega arith) (omega arith) g);
  mapped = inl (
    (rw x.root at (stored_self s' o' x.tree virt pt entry there)) ∙ rw present,
    kept 2 virt (rw x.root at write),
    λ set. kept 4 virt (rw x.root at (user set)),
  );
}
  where
    kept :
        (k v : ℕ)
        → Grants k s'.words s.pml4 (upper_indices v)
        → Grants k (write_word (slot pt (pt_index virt)) entry s').words s.pml4 (upper_indices v)
    kept k v g =
        stored-granted s' o' x.tree virt pt entry there k (upper_indices v) s.pml4 []
          (rw x.root at (x.tree.root)) (omega arith) (omega arith) g

-- Three links in a row are a walk from the root.
links-reach :
    {s₁ s₂ s₃ : Memory} {o₁ o₂ o₃ : Owner} (root virt pdpt pd pt : ℕ)
    → Extends s₁ o₁ s₂ o₂
    → Extends s₂ o₂ s₃ o₃
    → o₁ root ≡ some []
    → o₂ pdpt ≡ some (pml4_index virt ∷ [])
    → reach s₁.words root (pml4_index virt ∷ []) ≡ some pdpt
    → reach s₂.words pdpt (pdpt_index virt ∷ []) ≡ some pd
    → reach s₃.words pd (pd_index virt ∷ []) ≡ some pt
    → reach s₃.words root (upper_indices virt) ≡ some pt
links-reach {s₃} root virt pdpt pd pt x y own₁ own₂ l₁ l₂ l₃ =
    let a = (Extends-trans x y).reached _ root pdpt [] own₁ (omega arith) (omega arith) l₁ in
    let b = y.reached _ pdpt pd (pml4_index virt ∷ []) own₂ (omega arith) (omega arith) l₂ in
    reach-step s₃.words root pdpt (pml4_index virt) _ a
    ∙ reach-step s₃.words pdpt pd (pdpt_index virt) _ b
    ∙ l₃

reach-step_mask :
    (w : ℕ → ℕ) (t c i : ℕ)
    → reach w t (i ∷ []) ≡ some c
    → is_present (w (slot t i)) ≡ true
    → page_mask (w (slot t i)) ≡ c
unfolding reach
reach-step_mask w t c i r p = let e : some (page_mask (w (slot t i))) ≡ some c = rw p at r in cc

-- Three links that grant a right.
links-Grants :
    {s₁ s₂ s₃ : Memory} {o₁ o₂ o₃ : Owner} (root virt pdpt pd k : ℕ)
    → IsRight k
    → Extends s₁ o₁ s₂ o₂
    → Extends s₂ o₂ s₃ o₃
    → o₁ root ≡ some []
    → o₂ pdpt ≡ some (pml4_index virt ∷ [])
    → reach s₁.words root (pml4_index virt ∷ []) ≡ some pdpt
    → reach s₂.words pdpt (pdpt_index virt ∷ []) ≡ some pd
    → Grants k s₁.words root (pml4_index virt ∷ [])
    → Grants k s₂.words pdpt (pdpt_index virt ∷ [])
    → Grants k s₃.words pd (pd_index virt ∷ [])
    → Grants k s₃.words root (upper_indices virt)
links-Grants {s₃} root virt pdpt pd k right x y own₁ own₂ l₁ l₂ g₁ g₂ g₃ =
    let z = Extends-trans x y in
    let a = z.granted k right (pml4_index virt ∷ []) root [] own₁ (omega arith) (omega arith) g₁ in
    let b =
      y.granted k right (pdpt_index virt ∷ []) pdpt (pml4_index virt ∷ []) own₂ (omega arith)
        (omega arith) g₂ in
    let at =
      reach-step_mask s₃.words root pdpt (pml4_index virt)
        (z.reached (pml4_index virt ∷ []) root pdpt [] own₁ (omega arith) (omega arith) l₁) a.0 in
    let at' =
      reach-step_mask s₃.words pdpt pd (pdpt_index virt)
        (y.reached (pdpt_index virt ∷ []) pdpt pd (pml4_index virt ∷ []) own₂ (omega arith)
          (omega arith) l₂)
        b.0 in
    (a.0, a.1, rw at (b.0, b.1, rw at' g₃))

leaf_entry-is_present :
    (phys flags : ℕ) → is_present flags ≡ true → is_present (bit_or (page_mask phys) flags) ≡ true
leaf_entry-is_present phys flags h =
    is_present-odd _ (omega (arith, bit_or_digit (page_mask phys) flags, odd-is_present flags h))

-- An entry grants what its flags grant.
abbrev Granting : Memory → (t i flags : ℕ) → Type 0
Granting s t i flags = (k : ℕ) → IsRight k → HasRight k flags → Grants k s.words t (i ∷ [])

module _ (s : Memory) (o : Owner) (tree : IsTree s o) (virt phys flags : ℕ) where
  -- `vmm_map_page` on a tree of tables keeps it a tree, the marks of used frames and every other
  -- page's translation, and takes from no page the rights that the upper levels grant. The page of
  -- `virt` is translated to the page of `phys` with the given flags, every level above it can be
  -- written and, where the flags have USER, is for programs; or the frames have run out and its
  -- translation is as before. The flags include PRESENT.
  pub vmm_map_page-Maps :
      is_present flags ≡ true
      → Maps s virt (bit_or (page_mask phys) flags) (vmm_map_page virt phys flags s)
  unfolding vmm_map_page
  vmm_map_page-Maps present =
      elim (descend-Descends s o tree s.pml4 [] (pml4_index virt) tree.root (omega arith)
        (omega arith) _ ok) [
          | inr (r₁, full) ↦
              rw (r₁, vmm_map_page) (unmapped-Maps virt entry tree (Extends-refl s o tree) full)
          | inl (pdpt, s₁, o₁, r₁, x₁, own₁, l₁, g₁) ↦
              rw (r₁, vmm_map_page)
                (elim (descend-Descends s₁ o₁ x₁.tree pdpt _ (pdpt_index virt) own₁ (omega arith)
                  (omega arith) _ ok) [
                    | inr (r₂, full) ↦ rw (r₂, vmm_map_page) (unmapped-Maps virt entry tree x₁ full)
                    | inl (pd, s₂, o₂, r₂, x₂, own₂, l₂, g₂) ↦
                        rw (r₂, vmm_map_page)
                          (elim (descend-Descends s₂ o₂ x₂.tree pd _ (pd_index virt) own₂
                            (omega arith) (omega arith) _ ok) [
                              | inr (r₃, full) ↦
                                  rw (r₃, vmm_map_page)
                                    (unmapped-Maps virt entry tree (Extends-trans x₁ x₂) full)
                              | inl (pt, s₃, o₃, r₃, x₃, own₃, l₃, g₃) ↦
                                  let x = Extends-trans x₁ (Extends-trans x₂ x₃) in
                                  rw (r₃, vmm_map_page)
                                    (leaf-Maps virt entry pt tree x
                                      (leaf_entry-is_present phys flags present)
                                      (rw x.root (
                                        links-reach s.pml4 virt pdpt pd pt x₂ x₃
                                          (x₁.owners _ _ tree.root) (x₂.owners _ _ own₁) l₁ l₂ l₃))
                                      (rw x.root (
                                        all x₁ x₂ x₃ own₁ l₁ l₂ g₁ g₂ g₃ 2 (inl refl)
                                          (intermediate-writable flags)))
                                      (λ set. rw x.root (
                                        all x₁ x₂ x₃ own₁ l₁ l₂ g₁ g₂ g₃ 4 (inr refl) (
                                          intermediate-user (page_mask phys) flags (omega arith)
                                            set))))
                            ])
                  ])
        ]
    where
      entry : ℕ
      entry = bit_or (page_mask phys) flags

      all :
          {s₁ s₂ s₃ : Memory} {o₁ o₂ o₃ : Owner} {pdpt pd : ℕ}
          → Extends s o s₁ o₁
          → Extends s₁ o₁ s₂ o₂
          → Extends s₂ o₂ s₃ o₃
          → o₁ pdpt ≡ some (pml4_index virt ∷ [])
          → reach s₁.words s.pml4 (pml4_index virt ∷ []) ≡ some pdpt
          → reach s₂.words pdpt (pdpt_index virt ∷ []) ≡ some pd
          → Granting s₁ s.pml4 (pml4_index virt) (intermediate_flags flags)
          → Granting s₂ pdpt (pdpt_index virt) (intermediate_flags flags)
          → Granting s₃ pd (pd_index virt) (intermediate_flags flags)
          → (k : ℕ) → IsRight k
          → HasRight k (intermediate_flags flags)
          → Grants k s₃.words s.pml4 (upper_indices virt)
      all {pdpt} {pd} x₁ x₂ x₃ own₁ l₁ l₂ g₁ g₂ g₃ k right set =
          links-Grants s.pml4 virt pdpt pd k right x₂ x₃ (x₁.owners _ _ tree.root)
            (x₂.owners _ _ own₁) l₁ l₂ (g₁ k right set) (g₂ k right set) (g₃ k right set)

      ok : AreFlags (intermediate_flags flags)
      ok = intermediate-AreFlags flags
