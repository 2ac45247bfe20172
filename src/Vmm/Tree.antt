-- ===== src/Vmm/Tree.antt =====
-- The invariant of the page tables, and the processor's walk through them.
-- An owner map gives each frame that is a table its place: the indices that lead to it from the
-- root, the last one first.
use tuna_os.Base.{
  ℕ, ◌+◌, ◌/◌, ◌%◌, ◌≤◌, ◌<◌, ◌≡◌, inl, inr, refl, true, Option, none, some, List, [], ◌∷◌, length,
  if◌then◌else◌, arith, Bool-cases, ap,
}
use tuna_os.Pmm.{Pmm, max_frames}
use tuna_os.Pmm.Bitmap.{is_set}
use tuna_os.Pmm.Count.{IsValid}
use tuna_os.Vmm.{Memory, slot, page_mask, pml4_index, pdpt_index, pd_index, pt_index}
use tuna_os.Vmm.Entry.{is_present, HasRight}

abbrev pub Place : Type 0
Place = List ℕ

abbrev pub Owner : Type 0
Owner = ℕ → Option Place

-- A frame that serves as a table.
pub record IsTable (p : Pmm) (t : ℕ) : Type 0 where
  pub aligned : t % 4096 ≡ 0
  pub in_range : t / 4096 < max_frames
  pub marked : is_set p.bitmap (t / 4096) ≡ true

-- The tables form a tree: each has one place, and a present entry of an upper table leads to the
-- table at the place below.
pub record IsTree (s : Memory) (o : Owner) : Type 0 where
  pub counted : IsValid s.pmm
  pub zero_used : is_set s.pmm.bitmap 0 ≡ true
  pub root : o s.pml4 ≡ some []
  pub table : (t : ℕ) (p : Place) → o t ≡ some p → IsTable s.pmm t
  pub child :
      (t : ℕ) (p : Place) (i : ℕ)
      → o t ≡ some p
      → length p < 3
      → i < 512
      → is_present (s.words (slot t i)) ≡ true
      → o (page_mask (s.words (slot t i))) ≡ some (i ∷ p)

-- The table that the walk reaches from table `t` by the given indices.
unfoldable pub reach : (ℕ → ℕ) → ℕ → List ℕ → Option ℕ
reach w t [] = some t
reach w t (i ∷ is) =
    let rest = reach w (page_mask (w (slot t i))) is in
    if is_present (w (slot t i)) then rest else none

-- Each entry that the walk by the given indices goes through is present and grants the right.
abbrev pub Grants : (k : ℕ) → (ℕ → ℕ) → ℕ → List ℕ → Type 0
Grants k w t [] = Unit {0}
Grants k w t (i ∷ is) =
    (is_present (w (slot t i)) ≡ true)
    × HasRight k (w (slot t i))
    × Grants k w (page_mask (w (slot t i))) is

abbrev pub entry_of : (ℕ → ℕ) → ℕ → Option ℕ → Option ℕ
entry_of w i none = none
entry_of w i (some t) = if is_present (w (slot t i)) then some (w (slot t i)) else none

abbrev pub upper_indices : ℕ → List ℕ
upper_indices virt = pml4_index virt ∷ pdpt_index virt ∷ pd_index virt ∷ []

-- What the processor finds for a virtual address: the entry of its page, where present entries
-- lead to it and it is present itself.
unfoldable pub translate : (ℕ → ℕ) → (root virt : ℕ) → Option ℕ
translate w root virt = entry_of w (pt_index virt) (reach w root (upper_indices virt))

-- The place of the table that indices lead to, from a table at place `p`.
abbrev pub place_after : Place → List ℕ → Place
place_after p [] = p
place_after p (i ∷ is) = place_after (i ∷ p) is

abbrev pub AreIndices : List ℕ → Type 0
AreIndices [] = Unit {0}
AreIndices (i ∷ is) = (i < 512) × AreIndices is

module _ (s : Memory) (o : Owner) (tree : IsTree s o) where
  -- The walk stays within the tree.
  pub reach-owner :
      (is : List ℕ) (u t : ℕ) (q : Place)
      → o u ≡ some q
      → length q + length is ≤ 3
      → AreIndices is
      → reach s.words u is ≡ some t
      → o t ≡ some (place_after q is)
  unfolding reach
  reach-owner [] u t q own depth small r = ground arith
  reach-owner (i ∷ is) u t q own depth small r =
      elim (Bool-cases (is_present (s.words (slot u i)))) [
        | inl p ↦
            reach-owner is (page_mask (s.words (slot u i))) t (i ∷ q)
              (tree.child u q i own (omega arith) small.0 p) (omega arith) small.1 (rw p at r)
        | inr p ↦ let e : ◌≡◌ {A = Option ℕ} none (some t) = rw p at r in cc
      ]

-- Two memories between which every entry keeps its presence and its page.
abbrev pub SameLinks : (ℕ → ℕ) → (ℕ → ℕ) → Type 0
SameLinks v w =
    (x : ℕ) → (is_present (v x) ≡ is_present (w x)) × (page_mask (v x) ≡ page_mask (w x))

pub reach-SameLinks :
    (v w : ℕ → ℕ) → SameLinks v w → (is : List ℕ) (u : ℕ) → reach v u is ≡ reach w u is
unfolding reach
reach-SameLinks v w same [] u = refl
reach-SameLinks v w same (i ∷ is) u =
    let (p, m) = same (slot u i) in
    rw (p, m)
      (ap (λ (r : Option ℕ). if is_present (w (slot u i)) then r else none)
        (reach-SameLinks v w same is (page_mask (w (slot u i)))))

-- Memories that agree at the entries of every upper table of the tree.
pub reach-agree :
    (s : Memory) (o : Owner) (tree : IsTree s o) (v : ℕ → ℕ)
    → ((t i : ℕ) (p : Place)
        → o t ≡ some p
        → length p < 3
        → i < 512
        → v (slot t i) ≡ s.words (slot t i))
    → (is : List ℕ) (u : ℕ) (q : Place) → o u ≡ some q
    → length q + length is ≤ 3
    → AreIndices is
    → reach v u is ≡ reach s.words u is
unfolding reach
reach-agree s o tree v same [] u q own depth small = refl
reach-agree s o tree v same (i ∷ is) u q own depth small =
    rw (same u i q own (omega arith) small.0) (elim (Bool-cases (is_present (s.words (slot u i)))) [
      | inl p ↦ rw p (
          reach-agree s o tree v same is (page_mask (s.words (slot u i))) (i ∷ q)
            (tree.child u q i own (omega arith) small.0 p) (omega arith) small.1)
      | inr p ↦ rw p
    ])
