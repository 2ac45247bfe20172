-- ===== src/Vmm/Descend/Follow.antt =====
-- The entry is present: its flags are widened and the table it leads to is next.
use tuna_os.Base.{
  ℕ, ◌<◌, ◌≡◌, refl, true, some, List, [], ◌∷◌, length, inl, inr, arith, ◌∙◌, sym, Bool-cases, ◌==◌,
  bit_or, ==_iff, ==_refl,
}
use tuna_os.Vmm.{Memory, slot, page_mask, write_word, pt_index}
use tuna_os.Vmm.Entry.{
  is_present, AreFlags, is_present-or, page_mask-or, IsRight, HasRight, HasRight-or,
}
use tuna_os.Vmm.Tree.{
  Owner, Place, IsTree, Grants, reach, reach-SameLinks, SameLinks, upper_indices,
}
use tuna_os.Vmm.Descend.Steps.{Extends, slot-ne_of_depth, translate-same}

module _ (s : Memory) (o : Owner) (tree : IsTree s o) (t i : ℕ) (p : Place) (own : o t ≡ some p)
    (depth : length p < 3) (small : i < 512) (flags : ℕ) (ok : AreFlags flags)
    (present : is_present (s.words (slot t i)) ≡ true) where
  abbrev pub widened : Memory
  widened = write_word (slot t i) (bit_or (s.words (slot t i)) flags) s

  widened-SameLinks : SameLinks widened.words s.words
  unfolding write_word
  widened-SameLinks x = elim (Bool-cases (slot t i == x)) [
    | inl e ↦
        let e' = (==_iff (slot t i) x).0 e in
        rw (e, ← e') (is_present-or _ flags ok ∙ sym present, page_mask-or _ flags ok)
    | inr ne ↦ rw ne (refl, refl)
  ]

  widened-right : (k x : ℕ) → IsRight k → HasRight k (s.words x) → HasRight k (widened.words x)
  unfolding write_word
  widened-right k x right set = elim (Bool-cases (slot t i == x)) [
    | inl e ↦
        let e' = (==_iff (slot t i) x).0 e in
        rw (e, e') (HasRight-or k (s.words x) flags right (inl set))
    | inr ne ↦ rw ne set
  ]

  widened-Grants :
      (k : ℕ)
      → IsRight k
      → (is : List ℕ) (u : ℕ) → Grants k s.words u is
      → Grants k widened.words u is
  widened-Grants k right [] u g = tt
  widened-Grants k right (j ∷ is) u (p, b, g) =
      let (sp, sm) = widened-SameLinks (slot u j) in
      (sp ∙ p, widened-right k (slot u j) right b, rw sm (widened-Grants k right is _ g))

  pub follow-Extends : Extends s o widened o
  follow-Extends = record {
    tree = record {
      counted = unfold write_word in tree.counted;
      zero_used = unfold write_word in tree.zero_used;
      root = unfold write_word in tree.root;
      table = unfold write_word in tree.table;
      child = λ u q j own' d hj h.
          let (sp, sm) = widened-SameLinks (slot u j) in
          rw sm (tree.child u q j own' d hj (sym sp ∙ h));
    };
    root = unfold write_word in refl;
    cr3 = unfold write_word in refl;
    marks = unfold write_word in λ g h. h;
    owners = λ u q e. e;
    reached = λ is u c q own' d hs r. reach-SameLinks _ _ widened-SameLinks is u ∙ r;
    granted = λ k right is u q own' d hs g. widened-Grants k right is u g;
    translated = λ virt.
        translate-same s o tree widened.words virt
          (reach-SameLinks _ _ widened-SameLinks (upper_indices virt) s.pml4)
          λ u q own' d.
            unfold write_word in
            ground (
              arith,
              slot-ne_of_depth s o tree t u i (pt_index virt) p q own own' (omega arith) small
                  (omega arith),
            );
  }

  pub follow-reach : reach widened.words t (i ∷ []) ≡ some (page_mask (s.words (slot t i)))
  unfolding reach
  follow-reach = reach-SameLinks _ _ widened-SameLinks (i ∷ []) t ∙ rw present

  pub follow-Grants : (k : ℕ) → IsRight k → HasRight k flags → Grants k widened.words t (i ∷ [])
  unfolding write_word
  follow-Grants k right set =
      let here : widened.words (slot t i) ≡ bit_or (s.words (slot t i)) flags =
        ground (arith, ==_refl (slot t i)) in
      rw here (is_present-or _ flags ok, HasRight-or k _ flags right (inr set), tt)
