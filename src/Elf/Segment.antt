-- ===== src/Elf/Segment.antt =====
-- kernel/src/elf.c: what `load_segment` leaves in the user's pages.
use tuna_os.Base.{
  ℕ, zero, suc, ◌+◌, ◌-◌, ◌*◌, ◌/◌, ◌%◌, ◌^◌, ◌<◌, ◌≡◌, ◌≢◌, refl, ◌⊎◌, inl, inr, true, false, not,
  bit_and, bit_and_digit, bit_and-one, arith, Bool-cases, ◌==◌, Bool, ◌∙◌, sym, ap, some, bit_or,
}
use tuna_os.Pmm.{Pmm, take_frame, page_size, pmm_alloc_frame}
use tuna_os.Pmm.Bitmap.{is_set}
use tuna_os.Pmm.Alloc.{IsLowestFree, IsFull, pmm_alloc_frame_lem}
use tuna_os.Vmm.{vmm_map_page}
use tuna_os.Vmm.Entry.{is_present, HasRight-or}
use tuna_os.Vmm.Descend.{lowest-ne_zero}
use tuna_os.Vmm.Tree.{translate, Grants, upper_indices}
use tuna_os.Vmm.Map.{IsWellFormed}
use tuna_os.Vmm.Map.Leaf.{page_number}
use tuna_os.Vmm.Range.{Remaps, Remaps-refl, Remaps-trans, Remaps-widen}
use tuna_os.Vmm.Fresh.{taken, map_taken, map_taken-Remaps}
use tuna_os.Elf.{
  Machine, Phdr, page_flags, fill_page, load_pages, vaddr_start, vaddr_end, load_segment,
}
use tuna_os.Elf.Contents.{Fits, segment_byte, fill_page-outside, fill_page-segment_byte}

-- Present (1) and the user's (4), and writable (2) where PF_W, the second bit of `p_flags`, is set.
abbrev pub rights : Phdr → ℕ
rights phdr = 5 + 2 * (phdr.p_flags / 2 % 2)

-- The processor finds the bytes of the segment in the page, with the segment's rights, which the
-- upper levels grant.
pub record IsLoaded (image : ℕ → ℕ) (phdr : Phdr) (s : Machine) (page : ℕ) : Type 0 where
  pub frame : ℕ
  pub mapped :
      translate s.memory.words s.memory.pml4 page ≡ some (bit_or (frame * page_size) (rights phdr))
  pub granted :
      Grants 2 s.memory.words s.memory.pml4 (upper_indices page)
      × Grants 4 s.memory.words s.memory.pml4 (upper_indices page)
  pub used : is_set s.memory.pmm.bitmap frame ≡ true
  pub bytes :
      (j : ℕ) → j < 4096 → s.frames (frame * page_size + j) ≡ segment_byte image phdr (page + j)

-- From `s` to `s'`, at most the given pages were mapped, to frames that were free.
pub record Grows (s s' : Machine) (page rounds : ℕ) : Type 0 where
  pub pages : Remaps (page / 4096) (page / 4096 + rounds) s.memory s'.memory
  pub same_bytes : (a : ℕ) → is_set s.memory.pmm.bitmap (a / 4096) ≡ true → s'.frames a ≡ s.frames a

pub Grows-refl : (s : Machine) (page rounds : ℕ) → IsWellFormed s.memory → Grows s s page rounds
Grows-refl s page rounds v = record { pages = Remaps-refl _ _ s.memory v; same_bytes = λ a h. refl }

Grows-trans :
    (s t u : Machine) (page rounds : ℕ)
    → Grows s t page 1
    → Grows t u (page + 4096) rounds
    → Grows s u page (suc rounds)
Grows-trans s t u page rounds g h = record {
  pages =
      Remaps-trans (page / 4096) (page / 4096 + suc rounds) s.memory t.memory u.memory
        (Remaps-widen _ _ _ _ s.memory t.memory (omega arith) (omega arith) g.pages)
        (Remaps-widen _ _ _ _ t.memory u.memory (omega arith) (omega arith) h.pages);
  same_bytes = λ a used. h.same_bytes a (g.pages.marks (a / 4096) used) ∙ g.same_bytes a used;
}

not_free : (p : Pmm) (f g : ℕ) → IsLowestFree p f → is_set p.bitmap g ≡ true → g ≢ f
not_free p f g least used e =
    let clash : ◌≡◌ {A = Bool} true false = sym used ∙ rw e (least.free) in cc

page_flags-rights : (phdr : Phdr) → page_flags phdr ≡ rights phdr
unfolding page_flags
page_flags-rights phdr =
    let digit : bit_and phdr.p_flags 2 ≡ phdr.p_flags / 2 % 2 * 2 =
      omega (arith, bit_and_digit phdr.p_flags 2, bit_and-one (phdr.p_flags / 2)) in
    elim (Bool-cases (not (bit_and phdr.p_flags 2 == 0))) [
      | inl w ↦ let one : phdr.p_flags / 2 % 2 ≡ 1 = ground arith in rw (w, one) refl
      | inr r ↦ let none_set : phdr.p_flags / 2 % 2 ≡ 0 = ground arith in rw (r, none_set) refl
    ]

page_flags-small : (phdr : Phdr) → page_flags phdr < 4096
unfolding page_flags
page_flags-small phdr = ground arith

page_flags-is_present : (phdr : Phdr) → is_present (page_flags phdr) ≡ true
unfolding page_flags
page_flags-is_present phdr = elim (Bool-cases (not (bit_and phdr.p_flags 2 == 0))) [
  | inl w ↦ rw w refl
  | inr r ↦ rw r refl
]

module _ (image : ℕ → ℕ) (phdr : Phdr) where
  -- The first page.
  abbrev first_page : (page f : ℕ) → Machine → Machine
  first_page page f s = record {
    memory = vmm_map_page page (f * page_size) (page_flags phdr) (taken f s.memory);
    frames = fill_page image phdr page (f * page_size) s.frames;
  }

  load_pages-full :
      (rounds page : ℕ) (s : Machine)
      → pmm_alloc_frame s.memory.pmm ≡ (0, s.memory.pmm)
      → load_pages (suc rounds) image phdr page s ≡ s
  unfolding load_pages
  load_pages-full rounds page s e = rw e refl

  load_pages-step :
      (rounds page f : ℕ) (s : Machine)
      → pmm_alloc_frame s.memory.pmm ≡ (f * page_size, take_frame f s.memory.pmm)
      → (f * page_size == 0) ≡ false
      → load_pages (suc rounds) image phdr page s
        ≡ load_pages rounds image phdr (page + 4096) (first_page page f s)
  unfolding load_pages
  load_pages-step rounds page f s e n = rw (e, load_pages, n) refl

  -- The outcome of the loop.
  abbrev pub Loads : (rounds page : ℕ) (s s' : Machine) → Type 0
  Loads rounds page s s' =
      Grows s s' page rounds
      × (IsFull s'.memory.pmm ⊎ ((k : ℕ) → k < rounds → IsLoaded image phdr s' (page + 4096 * k)))

  first_page-Grows :
      (page f : ℕ) (s : Machine)
      → IsWellFormed s.memory
      → Fits phdr
      → page % 4096 ≡ 0
      → page + 4096 < 2 ^ 48
      → IsLowestFree s.memory.pmm f
      → Grows s (first_page page f s) page 1
        × (IsFull (first_page page f s).memory.pmm ⊎ IsLoaded image phdr (first_page page f s) page)
  first_page-Grows page f s v fits at room least =
      let (m, used) =
        map_taken s.memory f least page (page_flags phdr) v (page_flags-is_present phdr) in
      (
        record {
          pages =
              map_taken-Remaps s.memory f least (page / 4096) (page / 4096 + 1) page
                (page_flags phdr) v (page_flags-is_present phdr) (page_flags-small phdr)
                (omega arith) (omega arith);
          same_bytes = λ a h.
              fill_page-outside image phdr page (f * page_size) s.frames fits (omega arith) a
                (let apart = not_free s.memory.pmm f (a / 4096) least h in omega arith);
        },
        elim m.mapped [
          | inr (full, _) ↦ inl full
          | inl (there, write, user) ↦ inr (record {
            frame = f;
            mapped =
                ap (λ (r : ℕ). translate (first_page page f s).memory.words r page) m.root
                ∙ there
                ∙ ap (λ (k : ℕ). some (bit_or (f * page_size) k)) (page_flags-rights phdr);
            granted = (
              rw (m.root) write,
              rw (m.root) (
                  user (
                    HasRight-or 4 (f * page_size) (page_flags phdr) (inr refl)
                      (inr (rw (page_flags-rights phdr) (omega arith))))),
            );
            used = used;
            bytes = λ j lt.
                fill_page-segment_byte image phdr page (f * page_size) s.frames fits (omega arith) j
                  lt;
          })
        ],
      )

  -- A page that was loaded stays so, while others are.
  IsLoaded-Grows :
      (s s' : Machine) (page next rounds : ℕ)
      → IsLoaded image phdr s page
      → Grows s s' next rounds
      → page_number page < next / 4096
      → IsLoaded image phdr s' page
  IsLoaded-Grows s s' page next rounds l g before = record {
    frame = l.frame;
    mapped =
        ap (λ (r : ℕ). translate s'.memory.words r page) g.pages.root
        ∙ g.pages.others page (inl before)
        ∙ l.mapped;
    granted = (
      rw (g.pages.root) (g.pages.rights 2 page (inl refl) l.granted.0),
      rw (g.pages.root) (g.pages.rights 4 page (inr refl) l.granted.1),
    );
    used = g.pages.marks l.frame l.used;
    bytes = λ j lt.
        let at : (l.frame * page_size + j) / 4096 ≡ l.frame = omega arith in
        g.same_bytes (l.frame * page_size + j) (rw at (l.used)) ∙ l.bytes j lt;
  }

  nat_cases : (k : ℕ) → (k ≡ 0) ⊎ ((j : ℕ) × (k ≡ suc j))
  nat_cases zero = inl refl
  nat_cases (suc k) = inr (k, refl)

  -- The first page and the others together.
  both :
      (rounds page : ℕ) (s s' : Machine)
      → page % 4096 ≡ 0
      → page + 4096 * suc rounds < 2 ^ 48
      → Grows s s' (page + 4096) rounds
      → IsFull s.memory.pmm ⊎ IsLoaded image phdr s page
      → IsFull s'.memory.pmm
        ⊎ ((k : ℕ) → k < rounds → IsLoaded image phdr s' (page + 4096 + 4096 * k))
      → IsFull s'.memory.pmm ⊎ ((k : ℕ) → k < suc rounds → IsLoaded image phdr s' (page + 4096 * k))
  both rounds page s s' at room g (inl full) later = inl (λ f lt. g.pages.marks f (full f lt))
  both rounds page s s' at room g (inr l) (inl full) = inl full
  both rounds page s s' at room g (inr l) (inr ls) = inr (λ k lt. elim (nat_cases k) [
    | inl zero_k ↦
        let here : page + 4096 * k ≡ page = omega arith in
        rw here (IsLoaded-Grows s s' page (page + 4096) rounds l g (omega arith))
    | inr (j, suc_k) ↦
        let here : page + 4096 + 4096 * j ≡ page + 4096 * k = omega arith in
        rw here at (ls j (omega arith))
  ])

  load_pages-cases :
      (rounds page : ℕ) (s : Machine)
      → IsWellFormed s.memory
      → Fits phdr
      → page % 4096 ≡ 0
      → page + 4096 * rounds < 2 ^ 48
      → Loads rounds page s (load_pages rounds image phdr page s)
  load_pages-cases zero page s v fits at room =
      unfold load_pages in (Grows-refl s page 0 v, inr (λ k lt. absurd (omega arith)))
  load_pages-cases (suc rounds) page s v fits at room = elim (pmm_alloc_frame_lem s.memory.pmm) [
    | inr (full, r) ↦
        rw (load_pages-full rounds page s r) (Grows-refl s page (suc rounds) v, inl full)
    | inl (f, least, r) ↦
        let (_, tree) = v in
        let (first, loaded) = first_page-Grows page f s v fits at (omega arith) least in
        let (more, later) =
          load_pages-cases rounds (page + 4096) (first_page page f s) first.pages.well_formed fits
            (omega arith) (omega arith) in
        rw (load_pages-step rounds page f s r (lowest-ne_zero s.memory f tree.zero_used least)) (
          Grows-trans s _ _ page rounds first more,
          both rounds page (first_page page f s) _ at room more loaded later,
        )
  ]

  pub load_segment-Loads :
      (s : Machine)
      → IsWellFormed s.memory
      → Fits phdr
      → phdr.p_vaddr + phdr.p_memsz + 4095 < 2 ^ 48
      → Loads
          ((vaddr_end phdr - vaddr_start phdr) / 4096)
          (vaddr_start phdr)
          s
          (load_segment image phdr s)
  unfolding load_segment
  load_segment-Loads s v fits low =
      load_pages-cases ((vaddr_end phdr - vaddr_start phdr) / 4096) (vaddr_start phdr) s v fits
        (omega arith) (omega arith)
