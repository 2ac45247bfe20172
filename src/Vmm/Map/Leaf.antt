-- ===== src/Vmm/Map/Leaf.antt =====
-- kernel/src/vmm.c: a write to the entry of a page changes the translation of that page alone.
use tuna_os.Base.{
  ℕ, ◌+◌, ◌/◌, ◌%◌, ◌^◌, ◌≤◌, ◌<◌, ◌≡◌, ◌≢◌, Option, none, some, List, [], ◌∷◌, length, inl, inr,
  arith, ◌∙◌, sym, Bool-cases, ◌==◌, ==_iff, ==_refl, if◌then◌else◌, Option-cases,
}
use tuna_os.Vmm.{Memory, slot, page_mask, write_word, pt_index, pd_index, pdpt_index, pml4_index}
use tuna_os.Vmm.Entry.{is_present, slot-injective}
use tuna_os.Vmm.Tree.{
  Owner, Place, IsTree, Grants, reach, reach-agree, reach-owner, translate, upper_indices,
  AreIndices,
}
use tuna_os.Vmm.Descend.{slot-ne_of_depth}

-- The number of the page of a virtual address, of which the processor reads 36 bits.
abbrev pub page_number : ℕ → ℕ
page_number virt = (virt / 4096) % 2 ^ 36

module _ (s : Memory) (o : Owner) (tree : IsTree s o) (virt pt e : ℕ)
    (reached : reach s.words s.pml4 (upper_indices virt) ≡ some pt) where
  abbrev pub stored : Memory
  stored = write_word (slot pt (pt_index virt)) e s

  place : o pt ≡ some (pd_index virt ∷ pdpt_index virt ∷ pml4_index virt ∷ [])
  place =
      reach-owner s o tree (upper_indices virt) s.pml4 pt [] tree.root (omega arith) (omega arith)
        reached

  upper_same :
      (u j : ℕ) (q : Place)
      → o u ≡ some q
      → length q < 3
      → j < 512
      → stored.words (slot u j) ≡ s.words (slot u j)
  unfolding write_word
  upper_same u j q own d hj =
      ground
        (arith, slot-ne_of_depth s o tree u pt j (pt_index virt) q _ own place d hj (omega arith))

  reach_same :
      (is : List ℕ) (u : ℕ) (q : Place)
      → o u ≡ some q
      → length q + length is ≤ 3
      → AreIndices is
      → reach stored.words u is ≡ reach s.words u is
  reach_same is u q own d small = reach-agree s o tree stored.words upper_same is u q own d small

  pub stored-granted :
      (k : ℕ) (is : List ℕ) (u : ℕ) (q : Place)
      → o u ≡ some q
      → length q + length is ≤ 3
      → AreIndices is
      → Grants k s.words u is
      → Grants k stored.words u is
  stored-granted k [] u q own d small g = tt
  stored-granted k (j ∷ is) u q own d small (pr, b, g) =
      rw (upper_same u j q own (omega arith) small.0) (
        pr,
        b,
        stored-granted k is (page_mask (s.words (slot u j))) (j ∷ q)
            (tree.child u q j own (omega arith) small.0 pr) (omega arith) small.1 g,
      )

  walk_same :
      (v : ℕ) → reach stored.words s.pml4 (upper_indices v) ≡ reach s.words s.pml4 (upper_indices v)
  walk_same v = reach_same (upper_indices v) s.pml4 [] tree.root (omega arith) (omega arith)

  pub stored-IsTree : IsTree stored o
  stored-IsTree = record {
    counted = unfold write_word in tree.counted;
    zero_used = unfold write_word in tree.zero_used;
    root = unfold write_word in tree.root;
    table = unfold write_word in tree.table;
    child = λ u q j own d hj h.
        let same = upper_same u j q own d hj in rw same (tree.child u q j own d hj (rw same at h));
  }

  pub stored_self : translate stored.words s.pml4 virt ≡ (if is_present e then some e else none)
  stored_self =
      unfold translate write_word in rw (walk_same virt, reached, ==_refl (slot pt (pt_index virt)))

  one_page :
      (v : ℕ)
      → o pt ≡ some (pd_index v ∷ pdpt_index v ∷ pml4_index v ∷ [])
      → pt_index virt ≡ pt_index v
      → page_number v ≡ page_number virt
  one_page v own' l =
      let e : ◌≡◌ {A = Option Place} (some (pd_index virt ∷ pdpt_index virt ∷ pml4_index virt ∷ []))
          (some (pd_index v ∷ pdpt_index v ∷ pml4_index v ∷ [])) =
        sym place ∙ own' in
      let k : pd_index virt ≡ pd_index v = cc in
      let j : pdpt_index virt ≡ pdpt_index v = cc in
      let i : pml4_index virt ≡ pml4_index v = cc in omega arith

  pub stored-others :
      (v : ℕ)
      → page_number v ≢ page_number virt
      → translate stored.words s.pml4 v ≡ translate s.words s.pml4 v
  stored-others v ne =
      unfold translate in
      rw (walk_same v) (elim (Option-cases (reach s.words s.pml4 (upper_indices v))) [
        | inl nowhere ↦ rw nowhere
        | inr (t, there) ↦ rw (there, other t there)
      ])
    where
      other :
          (t : ℕ)
          → reach s.words s.pml4 (upper_indices v) ≡ some t
          → stored.words (slot t (pt_index v)) ≡ s.words (slot t (pt_index v))
      other t there =
          unfold write_word in
          elim (Bool-cases (slot pt (pt_index virt) == slot t (pt_index v))) [
            | inl same ↦
                let (pt_t, l) =
                  slot-injective pt t (pt_index virt) (pt_index v) (tree.table pt _ place).aligned
                    (tree.table t _ own).aligned (omega arith) (omega arith)
                    ((==_iff (slot pt (pt_index virt)) (slot t (pt_index v))).0 same) in
                absurd (ne (one_page v (rw pt_t own) l))
            | inr differs ↦ rw differs
          ]
        where
          own : o t ≡ some (pd_index v ∷ pdpt_index v ∷ pml4_index v ∷ [])
          own =
              reach-owner s o tree (upper_indices v) s.pml4 t [] tree.root (omega arith)
                (omega arith) there
