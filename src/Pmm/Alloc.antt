-- ===== src/Pmm/Alloc.antt =====
-- kernel/src/pmm.c: what `pmm_alloc_frame` and `pmm_free_frame` do on every branch.
use tuna_os.Base.{
  ℕ, zero, suc, ◌+◌, ◌*◌, ◌/◌, ◌≤◌, ◌<◌, ◌≡◌, ◌≢◌, ◌⊎◌, inl, inr, refl, Bool, true, false, leb,
  ◌==◌, u32, arith, Bool-cases, ltb, ltb→lt, ==_iff, ap,
}
use tuna_os.Pmm.Bitmap.{
  is_set, is_set_of_full, bitmap_set, bitmap_clear-bitmap_set, is_set-bitmap_set,
}
use tuna_os.Pmm.Count.{IsValid, take_frame-IsValid, clear-IsValid, used_below-le}
use tuna_os.Pmm.{
  Pmm, page_size, max_frames, take_frame, BitScan, found, exhausted, scan_bits, scan_bytes,
  pmm_alloc_frame, pmm_free_frame,
}

-- No free frame lies at or above 2 MiB, where the heap takes the addresses that led to the frames.
abbrev pub IsLow : Pmm → Type 0
IsLow p = (g : ℕ) → 512 ≤ g → is_set p.bitmap g ≡ true

-- `f` is the lowest free frame.
pub record IsLowestFree (s : Pmm) (f : ℕ) : Type 0 where
  pub in_range : f < max_frames
  pub free : is_set s.bitmap f ≡ false
  pub lowest : (g : ℕ) → g < f → is_set s.bitmap g ≡ true

abbrev pub IsFull : Pmm → Type 0
IsFull s = (g : ℕ) → g < max_frames → is_set s.bitmap g ≡ true

-- The two outcomes of an allocation: the lowest free frame is taken, or nothing changes.
abbrev pub Allocates : Pmm → ℕ × Pmm → Type 0
Allocates s r =
    ((f : ℕ) × IsLowestFree s f × (r ≡ (f * page_size, take_frame f s))) ⊎ (IsFull s × (r ≡ (0, s)))

-- What the loop over bits leaves behind when it starts at frame `k`, all below being used.
abbrev ScanResult : Pmm → ℕ → BitScan → Type 0
ScanResult s e r =
    ((f : ℕ) × IsLowestFree s f × (r ≡ found (f * page_size) (take_frame f s)))
    ⊎ (((g : ℕ) → g < e → is_set s.bitmap g ≡ true) × (r ≡ exhausted))

below-suc :
    (p : ℕ → Bool) (k : ℕ)
    → ((g : ℕ) → g < k → p g ≡ true)
    → p k ≡ true
    → (g : ℕ) → g < suc k
    → p g ≡ true
below-suc p k low here g h = ground (arith, low g)

scan_bits_lem :
    (n i bit : ℕ) (s : Pmm)
    → i < 4096
    → bit + n ≡ 8
    → ((g : ℕ) → g < i * 8 + bit → is_set s.bitmap g ≡ true)
    → ScanResult s (i * 8 + 8) (scan_bits n i bit s)
unfolding scan_bits
scan_bits_lem zero i bit s hi e low = inr ((λ g h. low g (omega arith)), refl)
scan_bits_lem (suc n) i bit s hi e low = elim (Bool-cases (is_set s.bitmap (i * 8 + bit))) [
  | inl used ↦
      rw (in_range, used)
        (scan_bits_lem n i (bit + 1) s hi (omega arith)
          λ g h. below-suc (is_set s.bitmap) (i * 8 + bit) low used g (omega arith))
  | inr free ↦
      rw (in_range, free)
        (inl (i * 8 + bit, record { in_range = omega arith; free = free; lowest = low }, refl))
]
  where
    in_range : leb max_frames (i * 8 + bit) ≡ false
    in_range = ground arith

scan_bytes_lem :
    (n i : ℕ) (s : Pmm)
    → i + n ≡ 4096
    → ((g : ℕ) → g < i * 8 → is_set s.bitmap g ≡ true)
    → Allocates s (scan_bytes n i s)
unfolding scan_bytes
scan_bytes_lem zero i s e low = inr ((λ g h. low g (omega arith)), refl)
scan_bytes_lem (suc n) i s e low = elim (Bool-cases (s.bitmap i == 0xff)) [
  | inl full ↦ rw full (scan_bytes_lem n (i + 1) s (omega arith) λ g h. full_byte g full h)
  | inr some_free ↦ elim (scan_bits_lem 8 i 0 s (omega arith) refl (λ g h. low g (omega arith))) [
    | inl (f, least, r) ↦ rw (some_free, r) (inl (f, least, refl))
    | inr (all_set, r) ↦
        rw (some_free, r) (scan_bytes_lem n (i + 1) s (omega arith) λ g h. all_set g (omega arith))
  ]
]
  where
    full_byte : (g : ℕ) → (s.bitmap i == 0xff) ≡ true → g < (i + 1) * 8 → is_set s.bitmap g ≡ true
    full_byte g full h = elim (Bool-cases (ltb g (i * 8))) [
      | inl below ↦ low g (ltb→lt g (i * 8) below)
      | inr above ↦
          let e' : g / 8 ≡ i = ground arith in
          is_set_of_full s.bitmap g (rw e' ((==_iff (s.bitmap i) 0xff).0 full))
    ]

pub pmm_alloc_frame_lem : (s : Pmm) → Allocates s (pmm_alloc_frame s)
unfolding pmm_alloc_frame
pmm_alloc_frame_lem s = scan_bytes_lem 4096 0 s refl (λ g h. absurd (omega arith))

-- A nonzero result is the address of the lowest free frame, which the new state marks.
pub alloc-found :
    (s : Pmm)
    → (pmm_alloc_frame s).0 ≢ 0
    → (f : ℕ) × IsLowestFree s f × (pmm_alloc_frame s ≡ (f * page_size, take_frame f s))
alloc-found s ne = elim (pmm_alloc_frame_lem s) [
  | inl taken ↦ taken
  | inr (full, r) ↦ absurd (ne (ap (λ (p : ℕ × Pmm). p.0) r))
]

-- An allocation keeps `used_frames` equal to the number of frames marked used.
pub alloc-IsValid : (s : Pmm) → IsValid s → IsValid (pmm_alloc_frame s).1
alloc-IsValid s v = elim (pmm_alloc_frame_lem s) [
  | inl (f, least, r) ↦ rw r (take_frame-IsValid s f v least.in_range least.free)
  | inr (full, r) ↦ rw r v
]

-- Freeing any address, in range or not, used or not, keeps the counter equal to the number of
-- frames marked used.
pub free-IsValid : (s : Pmm) (addr : ℕ) → IsValid s → IsValid (pmm_free_frame addr s)
unfolding pmm_free_frame
free-IsValid s addr v = elim (Bool-cases (leb max_frames (u32 (addr / page_size)))) [
  | inl out ↦ rw out v
  | inr in_range ↦ elim (Bool-cases (is_set s.bitmap (u32 (addr / page_size)))) [
    | inl used ↦ rw (in_range, used) (clear-IsValid s _ _ v (ground arith) used)
    | inr free ↦ rw (in_range, free) v
  ]
]

-- Freeing the frame that was just allocated gives back the state before the allocation.
pub free-alloc :
    (s : Pmm)
    → IsValid s
    → (pmm_alloc_frame s).0 ≢ 0
    → pmm_free_frame (pmm_alloc_frame s).0 (pmm_alloc_frame s).1 ≡ s
unfolding pmm_free_frame take_frame
free-alloc s v ne =
    let (f, least, r) = alloc-found s ne in
    let frame : u32 (f * page_size / page_size) ≡ f = omega (arith, least.in_range) in
    let in_range : leb max_frames f ≡ false = ground (arith, least.in_range) in
    let marked : is_set (bitmap_set s.bitmap f) f ≡ true =
      ground (arith, is_set-bitmap_set s.bitmap v.bytes f f) in
    rw (r, frame, in_range, marked)
      λ i. record {
        bitmap = bitmap_clear-bitmap_set s.bitmap v.bytes f least.free i;
        total_frames = s.total_frames;
        used_frames = counter i;
      }
  where
    counter : u32 (u32 (s.used_frames + 1) + 0xffff_ffff) ≡ s.used_frames
    counter = omega (arith, v.counted, used_below-le s.bitmap max_frames)
