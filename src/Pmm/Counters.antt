-- ===== src/Pmm/Counters.antt =====
-- kernel/src/pmm.c: the counters that `pmm_init` leaves, when no two available regions share a page.
use tuna_os.Base.{
  ℕ, zero, suc, ◌+◌, ◌-◌, ◌≤◌, ◌<◌, ◌≡◌, refl, true, false, not, List, [], ◌∷◌, ◌==◌, if◌then◌else◌,
  arith, Bool-cases, inl, inr, ◌⊎◌, ◌∙◌, sym, ◌^◌, ◌↔◌,
}
use tuna_os.Pmm.Bitmap.{ByteArray, is_set, is_set-bitmap_clear}
use tuna_os.Pmm.Count.{
  used_below, used_below-clear, used_below-le, IsValid, take_frame-IsValid, clear-IsValid,
}
use tuna_os.Pmm.Init.{
  covers, usable, FrameNumbersFit, covers-frames, release_region_lem, release_regions_lem,
  all_used-IsBytes, all_used-is_set,
}
use tuna_os.Pmm.{
  Pmm, MmapRegion, type_available, page_size, max_frames, take_frame, reserve_frame, release_frame,
  release_range, reserve_range, clamp_frame, frame_start, frame_end, release_region,
  release_regions, low_end, kernel_frame_start, kernel_frame_end, all_used, pmm_init,
  pmm_get_free_count,
}

-- No frame's page lies in two available regions.
abbrev pub Apart : List MmapRegion → Type 0
Apart [] = Unit {0}
Apart (r ∷ rs) = ((f : ℕ) → f < max_frames → covers r f ≡ true → usable rs f ≡ false) × Apart rs

-- The number of frames below `n` whose page an available region holds.
pub count_usable : List MmapRegion → ℕ → ℕ
count_usable rs zero = 0
count_usable rs (suc n) = count_usable rs n + (if usable rs n then 1 else 0)

-- While regions are released, every frame is counted as available or as used.
pub record IsBalanced (s : Pmm) : Type 0 where
  pub valid : IsValid s
  pub balance : s.total_frames + s.used_frames ≡ max_frames

release_frame-IsBalanced :
    (f : ℕ) (s : Pmm)
    → f < max_frames
    → is_set s.bitmap f ≡ true
    → IsBalanced s
    → IsBalanced (release_frame f s)
unfolding release_frame
release_frame-IsBalanced f s h used b = record {
  valid = clear-IsValid s f _ b.valid h used;
  balance = omega (
    arith,
    b.balance,
    used_below-clear s.bitmap b.valid.bytes f max_frames h used,
    b.valid.counted,
  );
}

release_range-IsBalanced :
    (n a : ℕ) (s : Pmm)
    → ((f : ℕ) → a ≤ f → f < a + n → (f < max_frames) × (is_set s.bitmap f ≡ true))
    → IsBalanced s
    → IsBalanced (release_range n a s)
unfolding release_range
release_range-IsBalanced zero a s used b = b
release_range-IsBalanced (suc n) a s used b =
    let (h, marked) = used a (omega arith) (omega arith) in
    release_range-IsBalanced n (a + 1) (release_frame a s)
      (λ f lo hi. (omega (arith, (used f (omega arith) (omega arith)).0), still f lo hi))
      (release_frame-IsBalanced a s h marked b)
  where
    still : (f : ℕ) → a + 1 ≤ f → f < a + 1 + n → is_set (release_frame a s).bitmap f ≡ true
    still f lo hi =
        unfold release_frame in
        ground (
          arith,
          is_set-bitmap_clear s.bitmap b.valid.bytes a f,
          (used f (omega arith) (omega arith)).1,
        )

release_region-IsBalanced :
    (r : MmapRegion) (s : Pmm)
    → r.base + r.length + page_size ≤ 2 ^ 44
    → ((f : ℕ) → f < max_frames → covers r f ≡ true → is_set s.bitmap f ≡ true)
    → IsBalanced s
    → IsBalanced (release_region r s)
unfolding release_region
release_region-IsBalanced r s fits used b = elim (Bool-cases (r.type == type_available)) [
  | inl t ↦ rw t (
      release_range-IsBalanced _ _ s
        (λ f lo hi. (below f lo hi, used f (below f lo hi) (covered f t lo hi))) b)
  | inr t ↦ rw t b
]
  where
    below :
        (f : ℕ)
        → frame_start r ≤ f
        → f < frame_start r + (frame_end r - frame_start r)
        → f < max_frames
    below f lo hi = unfold frame_end clamp_frame in ground arith

    covered :
        (f : ℕ)
        → (r.type == type_available) ≡ true
        → frame_start r ≤ f
        → f < frame_start r + (frame_end r - frame_start r)
        → covers r f ≡ true
    covered f t lo hi = sym (covers-frames r f (below f lo hi) fits t) ∙ ground arith

release_regions-IsBalanced :
    (rs : List MmapRegion) (s : Pmm)
    → FrameNumbersFit rs
    → Apart rs
    → ((f : ℕ) → f < max_frames → usable rs f ≡ true → is_set s.bitmap f ≡ true)
    → IsBalanced s
    → IsBalanced (release_regions rs s)
unfolding release_regions
release_regions-IsBalanced [] s fits apart used b = b
release_regions-IsBalanced (r ∷ rs) s fits apart used b =
    release_regions-IsBalanced rs (release_region r s) fits.1 apart.1 still
      (release_region-IsBalanced r s fits.0 (λ f h c. used f h (unfold usable in rw c)) b)
  where
    still :
        (f : ℕ) → f < max_frames → usable rs f ≡ true → is_set (release_region r s).bitmap f ≡ true
    still f h u =
        (release_region_lem r f s h fits.0 b.valid.bytes).1
        ∙ unfold usable in ground (arith, apart.0 f h, used f h)

module _ (rs : List MmapRegion) (m : ByteArray)
    (exact : (f : ℕ) → f < max_frames → is_set m f ≡ not (usable rs f)) where
  count_usable_lem : (n : ℕ) → n ≤ max_frames → count_usable rs n + used_below m n ≡ n
  unfolding count_usable used_below
  count_usable_lem zero h = omega arith
  count_usable_lem (suc n) h = ground (arith, exact n (omega arith), count_usable_lem n)

count_usable-le : (rs : List MmapRegion) (n : ℕ) → count_usable rs n ≤ n
unfolding count_usable
count_usable-le rs zero = omega arith
count_usable-le rs (suc n) = ground (arith, count_usable-le rs n)

reserve_frame-IsValid :
    (f : ℕ) (s : Pmm)
    → f < max_frames
    → IsValid s
    → (IsValid (reserve_frame f s)) × ((reserve_frame f s).total_frames ≡ s.total_frames)
unfolding reserve_frame
reserve_frame-IsValid f s h v = elim (Bool-cases (is_set s.bitmap f)) [
  | inl used ↦ rw used (v, refl)
  | inr free ↦ rw free (take_frame-IsValid s f v h free, unfold take_frame in refl)
]

reserve_range-IsValid :
    (n a : ℕ) (s : Pmm)
    → (n ≡ 0) ⊎ (a + n ≤ max_frames)
    → IsValid s
    → IsValid (reserve_range n a s) × ((reserve_range n a s).total_frames ≡ s.total_frames)
unfolding reserve_range
reserve_range-IsValid zero a s h v = (v, refl)
reserve_range-IsValid (suc n) a s h v =
    let (v', t) = reserve_frame-IsValid a s (omega arith) v in
    let (v'', t') = reserve_range-IsValid n (a + 1) (reserve_frame a s) (inr (omega arith)) v' in
    (v'', t' ∙ t)

used_below-all : (m : ByteArray) (n : ℕ) → ((f : ℕ) → is_set m f ≡ true) → used_below m n ≡ n
unfolding used_below
used_below-all m zero h = refl
used_below-all m (suc n) h = ground (arith, h n, used_below-all m n h)

pub all_used-IsBalanced : IsBalanced all_used
all_used-IsBalanced = record {
  valid = record {
    bytes = all_used-IsBytes;
    counted = unfold all_used in sym (used_below-all _ max_frames all_used-is_set);
  };
  balance = unfold all_used in refl;
}

-- After `pmm_init` `used_frames` is the number of frames marked used and `total_frames` the number
-- of frames whose page an available region holds. Regions and image end a page below 2 ^ 44, and
-- no page lies in two available regions.
pub pmm_init-IsValid :
    (regions : List MmapRegion) (k_start k_end : ℕ)
    → FrameNumbersFit regions
    → Apart regions
    → IsValid (pmm_init regions k_start k_end)
      × ((pmm_init regions k_start k_end).total_frames ≡ count_usable regions max_frames)
unfolding pmm_init
pmm_init-IsValid regions k_start k_end fits apart =
    let b =
      release_regions-IsBalanced regions all_used fits apart (λ f _ _. all_used-is_set f)
        all_used-IsBalanced in
    let (v, t) = reserve_range-IsValid low_end 0 _ (inr (omega arith)) b.valid in
    let (v', t') =
      reserve_range-IsValid (kernel_frame_end k_end - kernel_frame_start k_start)
        (kernel_frame_start k_start) _ (kernel_in_range k_start k_end) v in
    (
      v',
      t'
          ∙ t
          ∙ omega (
            arith,
            b.balance,
            b.valid.counted,
            count_usable_lem regions (release_regions regions all_used).bitmap exact max_frames
                (omega arith),
          ),
    )
  where
    exact :
        (f : ℕ)
        → f < max_frames
        → is_set (release_regions regions all_used).bitmap f ≡ not (usable regions f)
    exact f h = ground (
      arith,
      (release_regions_lem regions f all_used h fits all_used-IsBytes).1,
      all_used-is_set f,
    )

    kernel_in_range :
        (a b : ℕ)
        → (kernel_frame_end b - kernel_frame_start a ≡ 0)
          ⊎ (kernel_frame_start a + (kernel_frame_end b - kernel_frame_start a) ≤ max_frames)
    kernel_in_range a b = unfold kernel_frame_end clamp_frame in ground arith

-- After `pmm_init` the number that `pmm_get_free_count` reports is the number of frames that are
-- free exactly when the available regions hold the page of every frame that the bitmap has. Regions
-- end a page below 2 ^ 44, and no page lies in two available regions.
pub pmm_init-free_count :
    (regions : List MmapRegion) (k_start k_end : ℕ)
    → FrameNumbersFit regions
    → Apart regions
    → let s = pmm_init regions k_start k_end in
      (pmm_get_free_count s ≡ max_frames - used_below s.bitmap max_frames)
      ↔ (count_usable regions max_frames ≡ max_frames)
unfolding pmm_get_free_count
pmm_init-free_count regions k_start k_end fits apart =
    let s = pmm_init regions k_start k_end in
    let (v, t) = pmm_init-IsValid regions k_start k_end fits apart in
    let used = used_below-le s.bitmap max_frames in
    let usable = count_usable-le regions max_frames in
    (λ e. omega (arith, v.counted, t, used, usable), λ e. omega (arith, v.counted, t, used, usable))
