-- ===== src/Vmm/Unmap.antt =====
-- kernel/src/vmm.c: what `vmm_unmap_page` does to the processor's translations.
use tuna_os.Base.{ℕ, ◌≡◌, ◌≢◌, refl, none, some, inl, inr, Bool-cases}
use tuna_os.Vmm.{
  Memory, slot, page_mask, write_word, pt_index, pd_index, pdpt_index, pml4_index, vmm_unmap_page,
}
use tuna_os.Vmm.Entry.{is_present}
use tuna_os.Vmm.Tree.{Owner, IsTree, reach, translate, upper_indices}
use tuna_os.Vmm.Map.Leaf.{page_number, stored-IsTree, stored_self, stored-others}

-- The tables stay a tree, the page of `virt` has no translation, and every other page keeps its.
pub record Unmaps (s : Memory) (o : Owner) (virt : ℕ) (s' : Memory) : Type 0 where
  pub tree : IsTree s' o
  pub gone : translate s'.words s.pml4 virt ≡ none
  pub others :
      (v : ℕ)
      → page_number v ≢ page_number virt
      → translate s'.words s.pml4 v ≡ translate s.words s.pml4 v

module _ (s : Memory) (o : Owner) (tree : IsTree s o) (virt : ℕ) where
  missing-Unmaps : reach s.words s.pml4 (upper_indices virt) ≡ none → Unmaps s o virt s
  missing-Unmaps e = record { tree = tree; gone = unfold translate in rw e; others = λ v ne. refl }

  cleared-Unmaps :
      (pt : ℕ)
      → reach s.words s.pml4 (upper_indices virt) ≡ some pt
      → Unmaps s o virt (write_word (slot pt (pt_index virt)) 0 s)
  cleared-Unmaps pt e = record {
    tree = stored-IsTree s o tree virt pt 0 e;
    gone = stored_self s o tree virt pt 0 e;
    others = stored-others s o tree virt pt 0 e;
  }

  abbrev e₁ : ℕ
  e₁ = s.words (slot s.pml4 (pml4_index virt))

  abbrev e₂ : ℕ
  e₂ = s.words (slot (page_mask e₁) (pdpt_index virt))

  abbrev e₃ : ℕ
  e₃ = s.words (slot (page_mask e₂) (pd_index virt))

  -- `vmm_unmap_page` on a tree of tables keeps it a tree and every other page's translation; the page of
  -- `virt` has no translation afterwards, whether or not it had one.
  pub vmm_unmap_page-Unmaps : Unmaps s o virt (vmm_unmap_page virt s)
  unfolding vmm_unmap_page reach
  vmm_unmap_page-Unmaps = elim (Bool-cases (is_present e₁)) [
    | inr p₁ ↦ rw p₁ (missing-Unmaps (rw p₁))
    | inl p₁ ↦ elim (Bool-cases (is_present e₂)) [
      | inr p₂ ↦ rw (p₁, p₂) (missing-Unmaps (rw (p₁, p₂)))
      | inl p₂ ↦ elim (Bool-cases (is_present e₃)) [
        | inr p₃ ↦ rw (p₁, p₂, p₃) (missing-Unmaps (rw (p₁, p₂, p₃)))
        | inl p₃ ↦ rw (p₁, p₂, p₃) (cleared-Unmaps (page_mask e₃) (rw (p₁, p₂, p₃)))
      ]
    ]
  ]
