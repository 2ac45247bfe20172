-- ===== src/Vmm/Descend.antt =====
-- kernel/src/vmm.c: one level of `vmm_map_page` keeps the tables a tree and every translation.
mod Steps
mod Follow
mod Grow
pub use Steps.*
use tuna_os.Base.{
  ℕ, ◌+◌, ◌*◌, ◌<◌, ◌≡◌, refl, ◌⊎◌, inl, inr, Bool, true, false, some, ◌∷◌, length, arith,
  Bool-cases, ◌==◌, bit_or, sym, ◌∙◌,
}
use tuna_os.Pmm.{pmm_alloc_frame, take_frame, page_size}
use tuna_os.Pmm.Bitmap.{is_set}
use tuna_os.Pmm.Alloc.{IsLowestFree, IsFull, pmm_alloc_frame_lem}
use tuna_os.Vmm.{
  Memory, Descent, next_table, no_frame, descend, alloc_table, slot, write_word, page_mask,
  zero_table,
}
use tuna_os.Vmm.Entry.{AreFlags, is_present}
use tuna_os.Vmm.Tree.{Owner, Place, IsTree}
use Follow.{follow-Extends, follow-reach, follow-Grants}
use Grow.{placed, grow-Extends, grow-place, grow-link, grow-Grants}

-- With frame 0 in use a frame that is found does not have address 0.
pub lowest-ne_zero :
    (s : Memory) (f : ℕ)
    → is_set s.pmm.bitmap 0 ≡ true
    → IsLowestFree s.pmm f
    → (f * page_size == 0) ≡ false
lowest-ne_zero s f used least = elim (Bool-cases (f * page_size == 0)) [
  | inl zero_frame ↦
      let e : f ≡ 0 = ground arith in
      let clash : ◌≡◌ {A = Bool} true false = sym used ∙ (rw e at (least.free)) in cc
  | inr other ↦ other
]

-- The three ways through `descend`.
descend-present :
    (a flags : ℕ) (s : Memory)
    → is_present (s.words a) ≡ true
    → descend a flags s
      ≡ next_table (page_mask (s.words a)) (write_word a (bit_or (s.words a) flags) s)
unfolding descend
descend-present a flags s h = rw h

descend-grown :
    (a flags f : ℕ) (s : Memory)
    → is_present (s.words a) ≡ false
    → pmm_alloc_frame s.pmm ≡ (f * page_size, take_frame f s.pmm)
    → (f * page_size == 0) ≡ false
    → descend a flags s
      ≡ next_table (f * page_size) (
          write_word a (bit_or (f * page_size) flags) (record s {
            pmm = take_frame f s.pmm;
            words = zero_table 512 (f * page_size) 0 s.words;
          }))
unfolding descend alloc_table
descend-grown a flags f s h r ne = rw (h, r, ne, ne)

descend-full :
    (a flags : ℕ) (s : Memory)
    → is_present (s.words a) ≡ false
    → pmm_alloc_frame s.pmm ≡ (0, s.pmm)
    → descend a flags s ≡ no_frame s
unfolding descend alloc_table
descend-full a flags s h r = rw (h, r)

module _ (s : Memory) (o : Owner) (tree : IsTree s o) (t : ℕ) (p : Place) (i : ℕ)
    (own : o t ≡ some p) (depth : length p < 3) (small : i < 512) (flags : ℕ)
    (ok : AreFlags flags) where
  pub descend-Descends : Descends s o t p i flags (descend (slot t i) flags s)
  descend-Descends = elim (Bool-cases (is_present (s.words (slot t i)))) [
    | inl present ↦ inl (
      page_mask (s.words (slot t i)),
      _,
      o,
      descend-present (slot t i) flags s present,
      follow-Extends s o tree t i p own depth small flags ok present,
      tree.child t p i own depth small present,
      follow-reach s o tree t i p own depth small flags ok present,
      follow-Grants s o tree t i p own depth small flags ok present,
    )
    | inr missing ↦ elim (pmm_alloc_frame_lem s.pmm) [
      | inl (f, least, r) ↦ inl (
        f * page_size,
        _,
        placed s o tree t i p own depth small flags ok missing f least,
        descend-grown (slot t i) flags f s missing r (lowest-ne_zero s f tree.zero_used least),
        grow-Extends s o tree t i p own depth small flags ok missing f least,
        grow-place s o tree t i p own depth small flags ok missing f least,
        grow-link s o tree t i p own depth small flags ok missing f least,
        grow-Grants s o tree t i p own depth small flags ok missing f least,
      )
      | inr (full, r) ↦ inr (descend-full (slot t i) flags s missing r, full)
    ]
  ]
