-- ===== src/Vmm/Descend/Steps.antt =====
-- How a step of the walk may change the memory: it adds tables and keeps what is mapped.
use tuna_os.Base.{
  ℕ, ◌+◌, ◌≤◌, ◌<◌, ◌≡◌, ◌≢◌, refl, ◌⊎◌, true, some, List, [], ◌∷◌, length, inl, inr, arith, ap,
  ◌∙◌, sym, Option-cases,
}
use tuna_os.Pmm.Bitmap.{is_set}
use tuna_os.Pmm.Alloc.{IsFull}
use tuna_os.Vmm.{Memory, Descent, next_table, no_frame, slot, pt_index}
use tuna_os.Vmm.Entry.{slot-injective, IsRight, HasRight}
use tuna_os.Vmm.Tree.{
  Owner, Place, IsTree, Grants, reach, translate, upper_indices, AreIndices, reach-owner,
}

pub record Extends (s : Memory) (o : Owner) (s' : Memory) (o' : Owner) : Type 0 where
  pub tree : IsTree s' o'
  pub root : s'.pml4 ≡ s.pml4
  pub cr3 : s'.cr3 ≡ s.cr3
  pub marks : (g : ℕ) → is_set s.pmm.bitmap g ≡ true → is_set s'.pmm.bitmap g ≡ true
  pub owners : (t : ℕ) (p : Place) → o t ≡ some p → o' t ≡ some p
  pub reached :
      (is : List ℕ) (u t : ℕ) (q : Place)
      → o u ≡ some q
      → length q + length is ≤ 3
      → AreIndices is
      → reach s.words u is ≡ some t
      → reach s'.words u is ≡ some t
  pub granted :
      (k : ℕ)
      → IsRight k
      → (is : List ℕ) (u : ℕ) (q : Place) → o u ≡ some q
      → length q + length is ≤ 3
      → AreIndices is
      → Grants k s.words u is
      → Grants k s'.words u is
  pub translated : (virt : ℕ) → translate s'.words s.pml4 virt ≡ translate s.words s.pml4 virt

pub Extends-refl : (s : Memory) (o : Owner) → IsTree s o → Extends s o s o
Extends-refl s o tree = record {
  tree = tree;
  root = refl;
  cr3 = refl;
  marks = λ g h. h;
  owners = λ t p e. e;
  reached = λ is u t q own d small r. r;
  granted = λ k right is u q own d small g. g;
  translated = λ virt. refl;
}

pub Extends-trans :
    {s s' s'' : Memory} {o o' o'' : Owner}
    → Extends s o s' o'
    → Extends s' o' s'' o''
    → Extends s o s'' o''
Extends-trans {s} {s'} {s''} a b = record {
  tree = b.tree;
  root = b.root ∙ a.root;
  cr3 = b.cr3 ∙ a.cr3;
  marks = λ g h. b.marks g (a.marks g h);
  owners = λ t p e. b.owners t p (a.owners t p e);
  reached = λ is u t q own d small r.
      b.reached is u t q (a.owners u q own) d small (a.reached is u t q own d small r);
  granted = λ k right is u q own d small g.
      b.granted k right is u q (a.owners u q own) d small (a.granted k right is u q own d small g);
  translated = λ virt. (rw a.root at (b.translated virt)) ∙ a.translated virt;
}

-- The outcome of following or allocating the entry `i` of the table `t` at place `p`.
abbrev pub Descends : Memory → Owner → (t : ℕ) (p : Place) (i flags : ℕ) → Descent → Type 0
Descends s o t p i flags r =
    ((c : ℕ) × (s' : Memory) × (o' : Owner) × (r ≡ next_table c s')
      × Extends s o s' o'
      × (o' c ≡ some (i ∷ p))
      × (reach s'.words t (i ∷ []) ≡ some c)
      × ((k : ℕ) → IsRight k → HasRight k flags → Grants k s'.words t (i ∷ [])))
    ⊎ ((r ≡ no_frame s) × IsFull s.pmm)

module _ (s : Memory) (o : Owner) (tree : IsTree s o) where
  -- Entries of tables at different depths have different addresses.
  pub slot-ne_of_depth :
      (t u i j : ℕ) (p q : Place)
      → o t ≡ some p
      → o u ≡ some q
      → length p < length q
      → i < 512
      → j < 512
      → slot t i ≢ slot u j
  slot-ne_of_depth t u i j p q own own' depth hi hj e =
      let (e', _) =
        slot-injective t u i j (tree.table t p own).aligned (tree.table u q own').aligned hi hj e in
      let same : some p ≡ some q = sym own ∙ ap o e' ∙ own' in absurd (ne p q depth same)
    where
      ne : (a b : Place) → length a < length b → some a ≡ some b → ⊥
      ne a b lt e = let e' : a ≡ b = cc in omega (arith, ap (length {A = ℕ}) e')

  pub translate-same :
      (v : ℕ → ℕ) (virt : ℕ)
      → reach v s.pml4 (upper_indices virt) ≡ reach s.words s.pml4 (upper_indices virt)
      → ((t : ℕ) (q : Place)
          → o t ≡ some q
          → length q ≡ 3
          → v (slot t (pt_index virt)) ≡ s.words (slot t (pt_index virt)))
      → translate v s.pml4 virt ≡ translate s.words s.pml4 virt
  unfolding translate
  translate-same v virt same leaf =
      rw same (elim (Option-cases (reach s.words s.pml4 (upper_indices virt))) [
        | inl e ↦ rw e
        | inr (t, e) ↦ rw (
          e,
          leaf t _
              (reach-owner s o tree (upper_indices virt) s.pml4 t [] tree.root (omega arith)
                (omega arith) e)
              refl,
        )
      ])
