-- ===== src/Elf/Contents.antt =====
-- kernel/src/elf.c: the bytes that `load_segment` puts into the frame of a page.
use tuna_os.Base.{
  ℕ, zero, suc, ◌+◌, ◌-◌, ◌^◌, ◌≤◌, ◌<◌, ◌≡◌, refl, ◌⊎◌, inl, inr, true, false, arith, Bool-cases,
  ltb, leb, u64, if◌then◌else◌, ◌&&◌, ◌∙◌, ap, update, ◌==◌, sym,
}
use tuna_os.Elf.{Phdr, zero_frame, copy_data, fill_page}

-- The two loops write the bytes of a range and no others.
zero_frame-outside :
    (rounds frame i : ℕ) (frames : ℕ → ℕ) (a : ℕ)
    → (a < frame + i) ⊎ (frame + i + rounds ≤ a)
    → zero_frame rounds frame i frames a ≡ frames a
unfolding zero_frame
zero_frame-outside zero frame i frames a h = refl
zero_frame-outside (suc rounds) frame i frames a h =
    zero_frame-outside rounds frame (i + 1) (update frames (frame + i) 0) a (ground arith)
    ∙ ground arith

zero_frame-inside :
    (rounds frame i : ℕ) (frames : ℕ → ℕ) (a : ℕ)
    → frame + i ≤ a
    → a < frame + i + rounds
    → zero_frame rounds frame i frames a ≡ 0
unfolding zero_frame
zero_frame-inside zero frame i frames a lo hi = absurd (omega arith)
zero_frame-inside (suc rounds) frame i frames a lo hi = elim (Bool-cases (frame + i == a)) [
  | inl at ↦
      zero_frame-outside rounds frame (i + 1) (update frames (frame + i) 0) a (inl (ground arith))
      ∙ rw at refl
  | inr other ↦
      zero_frame-inside rounds frame (i + 1) (update frames (frame + i) 0) a (ground arith)
        (omega arith)
]

copy_data-outside :
    (rounds : ℕ) (image : ℕ → ℕ) (src dst i : ℕ) (frames : ℕ → ℕ) (a : ℕ)
    → (a < dst + i) ⊎ (dst + i + rounds ≤ a)
    → copy_data rounds image src dst i frames a ≡ frames a
unfolding copy_data
copy_data-outside zero image src dst i frames a h = refl
copy_data-outside (suc rounds) image src dst i frames a h =
    copy_data-outside rounds image src dst (i + 1) (update frames (dst + i) (image (u64 (src + i))))
      a (ground arith)
    ∙ ground arith

copy_data-inside :
    (rounds : ℕ) (image : ℕ → ℕ) (src dst i : ℕ) (frames : ℕ → ℕ) (a j : ℕ)
    → a ≡ dst + j
    → i ≤ j
    → j < i + rounds
    → copy_data rounds image src dst i frames a ≡ image (u64 (src + j))
unfolding copy_data
copy_data-inside zero image src dst i frames a j e lo hi = absurd (omega arith)
copy_data-inside (suc rounds) image src dst i frames a j e lo hi = elim (Bool-cases (i == j)) [
  | inl at ↦
      let here : i ≡ j = ground arith in
      let hit : (dst + i == a) ≡ true = ground arith in
      copy_data-outside rounds image src dst (i + 1)
        (update frames (dst + i) (image (u64 (src + i)))) a (inl (omega arith))
      ∙ rw (hit, here) refl
  | inr other ↦
      copy_data-inside rounds image src dst (i + 1)
        (update frames (dst + i) (image (u64 (src + i)))) a j e (ground arith) (omega arith)
]

-- The byte at an address of a segment in memory: the file's, or zero.
abbrev pub segment_byte : (image : ℕ → ℕ) → Phdr → (address : ℕ) → ℕ
segment_byte image phdr address =
    if leb phdr.p_vaddr address && ltb address (phdr.p_vaddr + phdr.p_filesz)
    then image (u64 (phdr.p_offset + (address - phdr.p_vaddr)))
    else 0

segment_byte-file :
    (image : ℕ → ℕ) (phdr : Phdr) (a : ℕ)
    → phdr.p_vaddr ≤ a
    → a < phdr.p_vaddr + phdr.p_filesz
    → segment_byte image phdr a ≡ image (u64 (phdr.p_offset + (a - phdr.p_vaddr)))
segment_byte-file image phdr a lo hi =
    let e : leb phdr.p_vaddr a ≡ true = ground arith in
    let e' : ltb a (phdr.p_vaddr + phdr.p_filesz) ≡ true = ground arith in rw (e, e') refl

segment_byte-zero :
    (image : ℕ → ℕ) (phdr : Phdr) (a : ℕ)
    → (a < phdr.p_vaddr) ⊎ (phdr.p_vaddr + phdr.p_filesz ≤ a)
    → segment_byte image phdr a ≡ 0
segment_byte-zero image phdr a h =
    let e : (leb phdr.p_vaddr a && ltb a (phdr.p_vaddr + phdr.p_filesz)) ≡ false = ground arith in
    rw e refl

-- The sums of the loader stay within 64 bits.
pub record Fits (phdr : Phdr) : Type 0 where
  pub file : phdr.p_vaddr + phdr.p_filesz < 2 ^ 64
  pub memory : phdr.p_vaddr + phdr.p_memsz + 4095 < 2 ^ 64

module _ (image : ℕ → ℕ) (phdr : Phdr) (page frame : ℕ) (frames : ℕ → ℕ) (fits : Fits phdr)
    (room : page + 4096 < 2 ^ 64) where
  abbrev start : ℕ
  start = if ltb phdr.p_vaddr page then page else phdr.p_vaddr

  abbrev stop : ℕ
  stop =
      if ltb (page + 4096) (phdr.p_vaddr + phdr.p_filesz)
      then page + 4096
      else phdr.p_vaddr + phdr.p_filesz

  start_lem : (page ≤ start) × (phdr.p_vaddr ≤ start) × ((start ≡ page) ⊎ (start ≡ phdr.p_vaddr))
  start_lem = ground arith

  stop_lem :
      (stop ≤ page + 4096)
      × (stop ≤ phdr.p_vaddr + phdr.p_filesz)
      × ((stop ≡ page + 4096) ⊎ (stop ≡ phdr.p_vaddr + phdr.p_filesz))
  stop_lem = ground arith

  fill_page-copied :
      ltb start stop ≡ true
      → fill_page image phdr page frame frames
        ≡ copy_data
            (stop - start)
            image
            (u64 (phdr.p_offset + (start - phdr.p_vaddr)))
            (frame + (start - page))
            0
            (zero_frame 4096 frame 0 frames)
  unfolding fill_page
  fill_page-copied h =
      let file = fits.file in
      let e : u64 (page + 4096) ≡ page + 4096 = omega arith in
      let e' : u64 (phdr.p_vaddr + phdr.p_filesz) ≡ phdr.p_vaddr + phdr.p_filesz = omega arith in
      rw (e, e', h) refl

  fill_page-zeroed :
      ltb start stop ≡ false
      → fill_page image phdr page frame frames ≡ zero_frame 4096 frame 0 frames
  unfolding fill_page
  fill_page-zeroed h =
      let file = fits.file in
      let e : u64 (page + 4096) ≡ page + 4096 = omega arith in
      let e' : u64 (phdr.p_vaddr + phdr.p_filesz) ≡ phdr.p_vaddr + phdr.p_filesz = omega arith in
      rw (e, e', h) refl

  pub fill_page-outside :
      (a : ℕ)
      → (a < frame) ⊎ (frame + 4096 ≤ a)
      → fill_page image phdr page frame frames a ≡ frames a
  fill_page-outside a h =
      let cleared = zero_frame-outside 4096 frame 0 frames a (ground arith) in
      elim (Bool-cases (ltb start stop)) [
        | inl some_data ↦ rw (fill_page-copied some_data) (
            copy_data-outside (stop - start) image _ _ 0 _ a (ground (arith, start_lem, stop_lem))
            ∙ cleared)
        | inr no_data ↦ rw (fill_page-zeroed no_data) cleared
      ]

  -- The frame of a page holds the bytes of the segment that belong to the page.
  pub fill_page-segment_byte :
      (j : ℕ)
      → j < 4096
      → fill_page image phdr page frame frames (frame + j) ≡ segment_byte image phdr (page + j)
  fill_page-segment_byte j lt =
      let cleared = zero_frame-inside 4096 frame 0 frames (frame + j) (omega arith) (omega arith) in
      elim (Bool-cases (ltb start stop)) [
        | inr no_data ↦ rw (fill_page-zeroed no_data) (
            cleared
            ∙ sym (segment_byte-zero image phdr (page + j) (ground (arith, start_lem, stop_lem))))
        | inl some_data ↦
            rw (fill_page-copied some_data)
              (elim (Bool-cases (leb start (page + j) && ltb (page + j) stop)) [
                | inl inside ↦
                    copy_data-inside (stop - start) image _ _ 0 _ (frame + j) (page + j - start)
                      (ground (arith, start_lem)) (omega arith) (ground (arith, stop_lem))
                    ∙ ap image (ground (arith, start_lem))
                    ∙ sym (
                        segment_byte-file image phdr (page + j) (ground (arith, start_lem))
                          (ground (arith, stop_lem)))
                | inr outside ↦
                    copy_data-outside (stop - start) image _ _ 0 _ (frame + j)
                      (ground (arith, start_lem, stop_lem))
                    ∙ cleared
                    ∙ sym (
                        segment_byte-zero image phdr (page + j)
                          (ground (arith, start_lem, stop_lem)))
              ])
      ]
