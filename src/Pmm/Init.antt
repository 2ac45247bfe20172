-- ===== src/Pmm/Init.antt =====
-- kernel/src/pmm.c: which frames `pmm_init` leaves free, in terms of the addresses of the memory map.
use tuna_os.Base.{
  ℕ, zero, suc, ◌+◌, ◌-◌, ◌*◌, ◌^◌, ◌≤◌, ◌<◌, ◌≡◌, refl, Bool, true, false, not, ◌&&◌, ◌||◌, List,
  [], ◌∷◌, ltb, leb, ◌==◌, if◌then◌else◌, arith, Bool-cases, inl, inr, ◌⊎◌, ==_iff, ◌∙◌,
}
use tuna_os.Pmm.Bitmap.{
  IsBytes, is_set, is_set_of_full, is_set-bitmap_set, is_set-bitmap_clear, bitmap_set-IsBytes,
  bitmap_clear-IsBytes,
}
use tuna_os.Pmm.{
  Pmm, MmapRegion, type_available, page_size, max_frames, take_frame, reserve_frame, release_frame,
  release_range, reserve_range, clamp_frame, frame_start, frame_end, release_region,
  release_regions, low_end, kernel_frame_start, kernel_frame_end, all_used, pmm_init,
}

-- Frame `f` lies in `[a, a + n)`.
abbrev pub within : ℕ → ℕ → ℕ → Bool
within a n f = leb a f && ltb f (a + n)

pub release_range_lem :
    (n a f : ℕ) (s : Pmm)
    → IsBytes s.bitmap
    → IsBytes (release_range n a s).bitmap
      × (is_set (release_range n a s).bitmap f
          ≡ (if within a n f then false else is_set s.bitmap f))
unfolding release_range release_frame
release_range_lem zero a f s b = (b, ground arith)
release_range_lem (suc n) a f s b =
    let (b', e) =
      release_range_lem n (a + 1) f (release_frame a s) (bitmap_clear-IsBytes s.bitmap b a) in
    (b', ground (arith, e, is_set-bitmap_clear s.bitmap b a f))

pub reserve_frame_lem :
    (a f : ℕ) (s : Pmm)
    → IsBytes s.bitmap
    → IsBytes (reserve_frame a s).bitmap
      × (is_set (reserve_frame a s).bitmap f ≡ ((a == f) || is_set s.bitmap f))
unfolding reserve_frame take_frame
reserve_frame_lem a f s b = elim (Bool-cases (is_set s.bitmap a)) [
  | inl used ↦ rw used (b, same (Bool-cases (a == f)) used)
  | inr free ↦
      rw free (bitmap_set-IsBytes s.bitmap b a, ground (arith, is_set-bitmap_set s.bitmap b a f))
]
  where
    same :
        ((a == f) ≡ true) ⊎ ((a == f) ≡ false)
        → is_set s.bitmap a ≡ true
        → is_set s.bitmap f ≡ ((a == f) || is_set s.bitmap f)
    same (inl e) used = rw e (rw ((==_iff a f).0 e) at used)
    same (inr e) used = rw e

pub reserve_range_lem :
    (n a f : ℕ) (s : Pmm)
    → IsBytes s.bitmap
    → IsBytes (reserve_range n a s).bitmap
      × (is_set (reserve_range n a s).bitmap f ≡ (within a n f || is_set s.bitmap f))
unfolding reserve_range
reserve_range_lem zero a f s b = (b, ground arith)
reserve_range_lem (suc n) a f s b =
    let (b', e) = reserve_frame_lem a f s b in
    let (b'', e') = reserve_range_lem n (a + 1) f (reserve_frame a s) b' in
    (b'', ground (arith, e, e'))

-- The region is available memory and holds the whole page of frame `f`.
unfoldable pub covers : MmapRegion → ℕ → Bool
covers r f =
    (r.type == type_available)
    && (leb r.base (f * page_size) && leb (f * page_size + page_size) (r.base + r.length))

unfoldable pub usable : List MmapRegion → ℕ → Bool
usable [] f = false
usable (r ∷ rs) f = covers r f || usable rs f

-- The page of frame `f` meets the bytes `[k_start, k_end)`.
unfoldable pub in_kernel : (k_start k_end f : ℕ) → Bool
in_kernel k_start k_end f = ltb (f * page_size) k_end && ltb k_start (f * page_size + page_size)

-- The region ends a page below 2 ^ 44, so that frame numbers fit 32 bits.
abbrev pub FrameNumbersFit : List MmapRegion → Type 0
FrameNumbersFit [] = Unit {0}
FrameNumbersFit (r ∷ rs) = (r.base + r.length + page_size ≤ 2 ^ 44) × FrameNumbersFit rs

pub covers-frames :
    (r : MmapRegion) (f : ℕ)
    → f < max_frames
    → r.base + r.length + page_size ≤ 2 ^ 44
    → (r.type == type_available) ≡ true
    → within (frame_start r) (frame_end r - frame_start r) f ≡ covers r f
unfolding frame_start frame_end clamp_frame covers
covers-frames r f h fits t = ground arith

pub release_region_lem :
    (r : MmapRegion) (f : ℕ) (s : Pmm)
    → f < max_frames
    → r.base + r.length + page_size ≤ 2 ^ 44
    → IsBytes s.bitmap
    → IsBytes (release_region r s).bitmap
      × (is_set (release_region r s).bitmap f ≡ (not (covers r f) && is_set s.bitmap f))
release_region_lem r f s h fits b = elim (Bool-cases (r.type == type_available)) [
  | inl t ↦
      let (b', e) = release_range_lem (frame_end r - frame_start r) (frame_start r) f s b in
      unfold release_region in rw t (b', ground (arith, e, covers-frames r f h fits t))
  | inr t ↦ unfold release_region covers in rw t (b, ground arith)
]

pub release_regions_lem :
    (rs : List MmapRegion) (f : ℕ) (s : Pmm)
    → f < max_frames
    → FrameNumbersFit rs
    → IsBytes s.bitmap
    → IsBytes (release_regions rs s).bitmap
      × (is_set (release_regions rs s).bitmap f ≡ (not (usable rs f) && is_set s.bitmap f))
unfolding release_regions usable
release_regions_lem [] f s h fits b = (b, refl)
release_regions_lem (r ∷ rs) f s h fits b =
    let (b', e) = release_region_lem r f s h fits.0 b in
    let (b'', e') = release_regions_lem rs f (release_region r s) h fits.1 b' in
    (b'', ground (arith, e, e'))

low-frames : (f : ℕ) → within 0 low_end f ≡ ltb (f * page_size) 0x100000
low-frames f = ground arith

kernel-frames :
    (k_start k_end f : ℕ)
    → f < max_frames
    → k_start < k_end
    → k_end + page_size ≤ 2 ^ 44
    → within (kernel_frame_start k_start) (kernel_frame_end k_end - kernel_frame_start k_start) f
      ≡ in_kernel k_start k_end f
unfolding kernel_frame_start kernel_frame_end clamp_frame in_kernel
kernel-frames k_start k_end f h order fits = ground arith

pub all_used-IsBytes : IsBytes all_used.bitmap
unfolding all_used
all_used-IsBytes i = omega arith

pub all_used-is_set : (f : ℕ) → is_set all_used.bitmap f ≡ true
all_used-is_set f = is_set_of_full all_used.bitmap f (unfold all_used in refl)

regroup : (k l u : Bool) → (k || (l || (not u && true))) ≡ (not u || (l || k))
regroup k l u = ground arith

-- After `pmm_init` the bitmap is an array of bytes, and a frame is marked used exactly when no
-- available region holds its whole page, or the page lies below 1 MiB, or it meets the kernel's
-- image. Regions and image end a page below 2 ^ 44; regions may overlap.
pub pmm_init_frames :
    (regions : List MmapRegion) (k_start k_end f : ℕ)
    → FrameNumbersFit regions
    → k_start < k_end
    → k_end + page_size ≤ 2 ^ 44
    → f < max_frames
    → IsBytes (pmm_init regions k_start k_end).bitmap
      × (is_set (pmm_init regions k_start k_end).bitmap f
          ≡ (not (usable regions f) || (ltb (f * page_size) 0x100000 || in_kernel k_start k_end f)))
unfolding pmm_init
pmm_init_frames regions k_start k_end f fits order image h =
    let (b, e) = release_regions_lem regions f all_used h fits all_used-IsBytes in
    let (b', e') = reserve_range_lem low_end 0 f (release_regions regions all_used) b in
    let k = kernel_frame_start k_start in
    let (b'', e'') =
      reserve_range_lem (kernel_frame_end k_end - k) k f
        (reserve_range low_end 0 (release_regions regions all_used)) b' in
    (
      b'',
      e''
          ∙ rw (kernel-frames k_start k_end f h order image, e', low-frames f, e, all_used-is_set f)
              (regroup (in_kernel k_start k_end f) (ltb (f * page_size) 0x100000)
                (usable regions f)),
    )
