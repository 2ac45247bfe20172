-- ===== src/Vmm/Descend/Grow.antt =====
-- The entry is missing: a fresh frame becomes a table of zeroes and the entry leads to it.
use tuna_os.Base.{
  ℕ, ◌+◌, ◌*◌, ◌/◌, ◌≤◌, ◌<◌, ◌≡◌, ◌≢◌, refl, ◌⊎◌, Bool, true, false, none, some, List, [], ◌∷◌,
  length, inl, inr, arith, ap, ◌∙◌, sym, Bool-cases, ◌==◌, update, bit_or, ==_iff, ==_refl,
}
use tuna_os.Pmm.{take_frame, page_size}
use tuna_os.Pmm.Alloc.{IsLowestFree}
use tuna_os.Pmm.Count.{take_frame-IsValid, take_frame-is_set}
use tuna_os.Vmm.{Memory, slot, page_mask, write_word, pt_index, zero_table}
use tuna_os.Vmm.Entry.{
  is_present, IsRight, HasRight, HasRight-or, AreFlags, is_present-or, page_mask-table,
  slot-injective, zero_table-inside, zero_table-outside,
}
use tuna_os.Vmm.Tree.{
  Owner, Place, IsTable, IsTree, Grants, reach, translate, upper_indices, AreIndices,
}
use tuna_os.Vmm.Descend.Steps.{Extends, slot-ne_of_depth, translate-same}

module _ (s : Memory) (o : Owner) (tree : IsTree s o) (t i : ℕ) (p : Place) (own : o t ≡ some p)
    (depth : length p < 3) (small : i < 512) (flags : ℕ) (ok : AreFlags flags)
    (missing : is_present (s.words (slot t i)) ≡ false) (f : ℕ) (least : IsLowestFree s.pmm f) where
  abbrev pub table : ℕ
  table = f * page_size

  abbrev pub grown : Memory
  grown =
      write_word (slot t i) (bit_or table flags)
        (record s { pmm = take_frame f s.pmm; words = zero_table 512 table 0 s.words })

  fresh : (u : ℕ) (q : Place) → o u ≡ some q → u ≢ table
  fresh u q e same =
      let h = (tree.table u q e).marked in
      let at : u / 4096 ≡ f = omega arith in
      let clash : ◌≡◌ {A = Bool} false true = sym least.free ∙ (rw at at h) in cc

  entry_new : grown.words (slot t i) ≡ bit_or table flags
  unfolding write_word
  entry_new = ground arith

  -- The entries of the tables that were there before.
  entry_old :
      (u j : ℕ) (q : Place)
      → o u ≡ some q
      → j < 512
      → slot t i ≢ slot u j
      → grown.words (slot u j) ≡ s.words (slot u j)
  unfolding write_word
  entry_old u j q e hj ne = ground (
    arith,
    zero_table-outside 512 table 0 s.words (slot u j) λ k hk same.
        fresh u q e
          (slot-injective u table j k (tree.table u q e).aligned (omega arith) hj (omega arith)
            same).0,
  )

  entry_zero : (j : ℕ) → j < 512 → grown.words (slot table j) ≡ 0
  unfolding write_word
  entry_zero j hj = ground (
    arith,
    zero_table-inside 512 table 0 s.words j (omega arith) (omega arith),
    λ (same : slot t i ≡ slot table j).
        fresh t p own
          (slot-injective t table i j (tree.table t p own).aligned (omega arith) small hj same).0,
  )

  follow_new :
      (is : List ℕ)
      → AreIndices is
      → length is ≤ 3
      → (reach grown.words table is ≡ none) ⊎ (reach grown.words table is ≡ some table)
  unfolding reach
  follow_new [] h d = inr refl
  follow_new (j ∷ is) h d = inl (rw (entry_zero j h.0))

  -- A walk ends where it ended, or it ended nowhere and now may end at the new table.
  grow-reach :
      (is : List ℕ) (u : ℕ) (q : Place)
      → o u ≡ some q
      → length q + length is ≤ 3
      → AreIndices is
      → (reach grown.words u is ≡ reach s.words u is)
        ⊎ ((reach s.words u is ≡ none) × (reach grown.words u is ≡ some table))
  unfolding reach
  grow-reach [] u q e d h = inl refl
  grow-reach (j ∷ is) u q e d h = elim (Bool-cases (slot t i == slot u j)) [
    | inl same ↦
        let at = (==_iff (slot t i) (slot u j)).0 same in
        rw
          (
            ← at,
            missing,
            entry_new,
            is_present-or table flags ok,
            page_mask-table table flags ok (omega arith),
          )
          (elim (follow_new is h.1 (omega arith)) [
            | inl none_there ↦ inl none_there
            | inr there ↦ inr (refl, there)
          ])
    | inr ne ↦
        rw (entry_old u j q e h.0 (ground arith))
          (elim (Bool-cases (is_present (s.words (slot u j)))) [
            | inl pr ↦ rw pr (
                grow-reach is (page_mask (s.words (slot u j))) (j ∷ q)
                  (tree.child u q j e (omega arith) h.0 pr) (omega arith) h.1)
            | inr pr ↦ rw pr (inl refl)
          ])
  ]

  grow-reached :
      (is : List ℕ) (u c : ℕ) (q : Place)
      → o u ≡ some q
      → length q + length is ≤ 3
      → AreIndices is
      → reach s.words u is ≡ some c
      → reach grown.words u is ≡ some c
  grow-reached is u c q e d h r = elim (grow-reach is u q e d h) [
    | inl same ↦ same ∙ r
    | inr (before, _) ↦ let clash = sym before ∙ r in cc
  ]

  grow-granted :
      (k : ℕ)
      → IsRight k
      → (is : List ℕ) (u : ℕ) (q : Place) → o u ≡ some q
      → length q + length is ≤ 3
      → AreIndices is
      → Grants k s.words u is
      → Grants k grown.words u is
  grow-granted k right [] u q e d h g = tt
  grow-granted k right (j ∷ is) u q e d h (pr, b, g) = elim (Bool-cases (slot t i == slot u j)) [
    | inl same ↦
        let at = (==_iff (slot t i) (slot u j)).0 same in
        let clash : ◌≡◌ {A = Bool} false true = sym missing ∙ (rw (sym at) at pr) in cc
    | inr ne ↦ rw (entry_old u j q e h.0 (ground arith)) (
      pr,
      b,
      grow-granted k right is (page_mask (s.words (slot u j))) (j ∷ q)
          (tree.child u q j e (omega arith) h.0 pr) (omega arith) h.1 g,
    )
  ]

  pub grow-Grants : (k : ℕ) → IsRight k → HasRight k flags → Grants k grown.words t (i ∷ [])
  grow-Grants k right set =
      rw entry_new (is_present-or table flags ok, HasRight-or k table flags right (inr set), tt)

  grow-translated : (virt : ℕ) → translate grown.words s.pml4 virt ≡ translate s.words s.pml4 virt
  grow-translated virt =
      elim (grow-reach (upper_indices virt) s.pml4 [] tree.root (omega arith) (omega arith)) [
        | inl same ↦ translate-same s o tree grown.words virt same λ u q e d.
            entry_old u (pt_index virt) q e (omega arith) (
              slot-ne_of_depth s o tree t u i (pt_index virt) p q own e (omega arith) small
                (omega arith))
        | inr (before, after) ↦
            unfold translate in rw (before, after, entry_zero (pt_index virt) (omega arith))
      ]

  abbrev pub placed : Owner
  placed = update o table (some (i ∷ p))

  placed-old : (u : ℕ) (q : Place) → o u ≡ some q → placed u ≡ some q
  placed-old u q e = ground (arith, fresh u q e)

  grown-IsTable : (u : ℕ) → IsTable s.pmm u → IsTable grown.pmm u
  grown-IsTable u h = record {
    aligned = h.aligned;
    in_range = h.in_range;
    marked =
        unfold write_word in
        ground (arith, take_frame-is_set s.pmm f (u / 4096) tree.counted, h.marked);
  }

  grown-child :
      (u : ℕ) (q : Place) (j : ℕ)
      → placed u ≡ some q
      → length q < 3
      → j < 512
      → is_present (grown.words (slot u j)) ≡ true
      → placed (page_mask (grown.words (slot u j))) ≡ some (j ∷ q)
  grown-child u q j e d hj h = elim (Bool-cases (table == u)) [
    | inl here ↦
        let e' : table ≡ u = (==_iff table u).0 here in
        let zero : grown.words (slot u j) ≡ 0 = rw (← e') (entry_zero j hj) in
        let clash : ◌≡◌ {A = Bool} false true = rw zero at h in cc
    | inr other ↦ old (rw other at e)
  ]
    where
      old : o u ≡ some q → placed (page_mask (grown.words (slot u j))) ≡ some (j ∷ q)
      old e' = elim (Bool-cases (slot t i == slot u j)) [
        | inl same ↦
            let at = (==_iff (slot t i) (slot u j)).0 same in
            let (tu, ij) =
              slot-injective t u i j (tree.table t p own).aligned (tree.table u q e').aligned small
                hj at in
            let pq : some p ≡ some q = sym own ∙ ap o tu ∙ e' in
            rw (← at, entry_new, page_mask-table table flags ok (omega arith), ==_refl table)
              (place pq ij)
        | inr ne ↦
            let same = entry_old u j q e' hj (ground arith) in
            rw same (
              placed-old (page_mask (s.words (slot u j))) (j ∷ q)
                (tree.child u q j e' d hj (rw same at h)))
      ]
        where
          place : some p ≡ some q → i ≡ j → some (i ∷ p) ≡ some (j ∷ q)
          place pq ij = cc

  grown-table : (u : ℕ) (q : Place) → placed u ≡ some q → IsTable grown.pmm u
  grown-table u q e = elim (Bool-cases (table == u)) [
    | inl here ↦
        let at : u / 4096 ≡ f = ground arith in
        record {
          aligned = ground arith;
          in_range = omega (arith, least.in_range);
          marked =
              unfold write_word in rw at (ground (arith, take_frame-is_set s.pmm f f tree.counted));
        }
    | inr other ↦ grown-IsTable u (tree.table u q (rw other at e))
  ]

  pub grow-Extends : Extends s o grown placed
  grow-Extends = record {
    tree = record {
      counted =
          unfold write_word in take_frame-IsValid s.pmm f tree.counted least.in_range least.free;
      zero_used =
          unfold write_word in
          ground (arith, take_frame-is_set s.pmm f 0 tree.counted, tree.zero_used);
      root = unfold write_word in placed-old s.pml4 [] tree.root;
      table = grown-table;
      child = grown-child;
    };
    root = unfold write_word in refl;
    cr3 = unfold write_word in refl;
    marks = λ g h. unfold write_word in ground (arith, take_frame-is_set s.pmm f g tree.counted);
    owners = placed-old;
    reached = grow-reached;
    granted = grow-granted;
    translated = grow-translated;
  }

  pub grow-place : placed table ≡ some (i ∷ p)
  grow-place = ground arith

  pub grow-link : reach grown.words t (i ∷ []) ≡ some table
  unfolding reach
  grow-link =
      rw (entry_new, is_present-or table flags ok, page_mask-table table flags ok (omega arith))
