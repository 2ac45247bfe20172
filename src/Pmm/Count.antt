-- ===== src/Pmm/Count.antt =====
-- The invariant of the allocator: `used_frames` is the number of bits that are set.
use tuna_os.Base.{
  ℕ, zero, suc, ◌+◌, ◌≤◌, ◌<◌, ◌≡◌, refl, true, false, if◌then◌else◌, ◌==◌, u32, arith,
}
use tuna_os.Pmm.Bitmap.{
  ByteArray, IsBytes, is_set, bitmap_set, bitmap_clear, is_set-bitmap_set, is_set-bitmap_clear,
  bitmap_set-IsBytes, bitmap_clear-IsBytes,
}
use tuna_os.Pmm.{Pmm, max_frames, take_frame}

-- The number of frames below `n` that are marked used.
unfoldable pub used_below : ByteArray → ℕ → ℕ
used_below m zero = 0
used_below m (suc n) = used_below m n + (if is_set m n then 1 else 0)

pub used_below-le : (m : ByteArray) (n : ℕ) → used_below m n ≤ n
unfolding used_below
used_below-le m zero = omega arith
used_below-le m (suc n) = ground (arith, used_below-le m n)

module _ (m : ByteArray) (bytes : IsBytes m) (f : ℕ) where
  used_below-set_above : (n : ℕ) → n ≤ f → used_below (bitmap_set m f) n ≡ used_below m n
  unfolding used_below
  used_below-set_above zero h = refl
  used_below-set_above (suc n) h =
      ground (arith, used_below-set_above n, is_set-bitmap_set m bytes f n)

  used_below-clear_above : (n : ℕ) → n ≤ f → used_below (bitmap_clear m f) n ≡ used_below m n
  unfolding used_below
  used_below-clear_above zero h = refl
  used_below-clear_above (suc n) h =
      ground (arith, used_below-clear_above n, is_set-bitmap_clear m bytes f n)

  -- Marking a free frame adds one to the count.
  pub used_below-set :
      (n : ℕ) → f < n → is_set m f ≡ false → used_below (bitmap_set m f) n ≡ suc (used_below m n)
  unfolding used_below
  used_below-set zero h free = absurd (omega arith)
  used_below-set (suc n) h free =
      ground (arith, used_below-set n, used_below-set_above n, is_set-bitmap_set m bytes f n)

  -- Clearing a used frame takes one from the count.
  pub used_below-clear :
      (n : ℕ) → f < n → is_set m f ≡ true → suc (used_below (bitmap_clear m f) n) ≡ used_below m n
  unfolding used_below
  used_below-clear zero h used = absurd (omega arith)
  used_below-clear (suc n) h used =
      ground (arith, used_below-clear n, used_below-clear_above n, is_set-bitmap_clear m bytes f n)

pub record IsValid (s : Pmm) : Type 0 where
  pub bytes : IsBytes s.bitmap
  pub counted : s.used_frames ≡ used_below s.bitmap max_frames

pub take_frame-is_set :
    (s : Pmm) (f g : ℕ)
    → IsValid s
    → is_set (take_frame f s).bitmap g ≡ (if f == g then true else is_set s.bitmap g)
unfolding take_frame
take_frame-is_set s f g v = is_set-bitmap_set s.bitmap v.bytes f g

pub take_frame-IsValid :
    (s : Pmm) (f : ℕ)
    → IsValid s
    → f < max_frames
    → is_set s.bitmap f ≡ false
    → IsValid (take_frame f s)
unfolding take_frame
take_frame-IsValid s f v h free = record {
  bytes = bitmap_set-IsBytes s.bitmap v.bytes f;
  counted = omega (
    arith,
    v.counted,
    used_below-set s.bitmap v.bytes f max_frames h free,
    used_below-le s.bitmap max_frames,
  );
}

pub clear-IsValid :
    (s : Pmm) (f t : ℕ)
    → IsValid s
    → f < max_frames
    → is_set s.bitmap f ≡ true
    → IsValid (record {
      bitmap = bitmap_clear s.bitmap f;
      total_frames = t;
      used_frames = u32 (s.used_frames + 0xffff_ffff);
    })
clear-IsValid s f t v h used = record {
  bytes = bitmap_clear-IsBytes s.bitmap v.bytes f;
  counted = omega (
    arith,
    v.counted,
    used_below-clear s.bitmap v.bytes f max_frames h used,
    used_below-le s.bitmap max_frames,
  );
}
