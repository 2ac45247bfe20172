-- ===== src/Elf.antt =====
-- kernel/src/elf.c and elf.h: the loader of ELF64 images into user pages.
-- An image is a map from offsets to bytes, which stands apart from the frames that the loader
-- fills; the frames' bytes are a map from physical addresses, through which the loader writes
-- them. What the loader reports on the serial line is left out, and `invlpg` only drops a cached
-- translation.
pub mod Header
pub mod Contents
pub mod Segment
pub mod Load
pub mod Isolation
pub mod Tests
use tuna_os.Base.{
  ℕ, zero, suc, ◌+◌, ◌-◌, ◌*◌, ◌/◌, ◌%◌, ◌^◌, Bool, true, false, not, ◌||◌, ◌==◌, ltb,
  if◌then◌else◌, update, u64, u32, bit_or,
}
use tuna_os.Pmm.{pmm_alloc_frame}
use tuna_os.Vmm.{Memory, has_flag, flag_present, flag_write, flag_user, page_mask, vmm_map_page}

-- The page tables and the bytes of the frames.
pub record Machine : Type 0 where
  pub memory : Memory
  pub frames : ℕ → ℕ

-- Little-endian fields.
abbrev pub le16 : (image : ℕ → ℕ) → (offset : ℕ) → ℕ
le16 image offset = image offset + image (u64 (offset + 1)) * 2 ^ 8

abbrev pub le32 : (image : ℕ → ℕ) → (offset : ℕ) → ℕ
le32 image offset = le16 image offset + le16 image (u64 (offset + 2)) * 2 ^ 16

abbrev pub le64 : (image : ℕ → ℕ) → (offset : ℕ) → ℕ
le64 image offset = le32 image offset + le32 image (u64 (offset + 4)) * 2 ^ 32

-- `Elf64_Ehdr`, the fields that the loader reads.
pub record Ehdr : Type 0 where
  pub e_ident : ℕ → ℕ
  pub e_type : ℕ
  pub e_machine : ℕ
  pub e_entry : ℕ
  pub e_phoff : ℕ
  pub e_phentsize : ℕ
  pub e_phnum : ℕ

-- The header at the start of the image.
unfoldable pub read_ehdr : (image : ℕ → ℕ) → Ehdr
read_ehdr image = record {
  e_ident = image;
  e_type = le16 image 16;
  e_machine = le16 image 18;
  e_entry = le64 image 24;
  e_phoff = le64 image 32;
  e_phentsize = le16 image 54;
  e_phnum = le16 image 56;
}

-- `Elf64_Phdr`, the fields that the loader reads.
pub record Phdr : Type 0 where
  pub p_type : ℕ
  pub p_flags : ℕ
  pub p_offset : ℕ
  pub p_vaddr : ℕ
  pub p_filesz : ℕ
  pub p_memsz : ℕ

-- The program header at an offset of the image.
unfoldable pub read_phdr : (image : ℕ → ℕ) → (offset : ℕ) → Phdr
read_phdr image offset = record {
  p_type = le32 image offset;
  p_flags = le32 image (u64 (offset + 4));
  p_offset = le64 image (u64 (offset + 8));
  p_vaddr = le64 image (u64 (offset + 16));
  p_filesz = le64 image (u64 (offset + 32));
  p_memsz = le64 image (u64 (offset + 40));
}

-- sizeof(Elf64_Ehdr).
abbrev pub ehdr_size : ℕ
ehdr_size = 64

-- The indices and values of `e_ident`, and the values of the other fields that are tested.
abbrev pub ei_mag0 : ℕ
ei_mag0 = 0

abbrev pub ei_class : ℕ
ei_class = 4

abbrev pub ei_data : ℕ
ei_data = 5

abbrev pub elfmag0 : ℕ
elfmag0 = 0x7f

abbrev pub elfmag1 : ℕ
elfmag1 = 69

abbrev pub elfmag2 : ℕ
elfmag2 = 76

abbrev pub elfmag3 : ℕ
elfmag3 = 70

abbrev pub elfclass64 : ℕ
elfclass64 = 2

abbrev pub elfdata2lsb : ℕ
elfdata2lsb = 1

abbrev pub et_exec : ℕ
et_exec = 2

abbrev pub em_x86_64 : ℕ
em_x86_64 = 62

abbrev pub pt_load : ℕ
pt_load = 1

abbrev pub pf_w : ℕ
pf_w = 0x2

unfoldable pub elf_validate : Ehdr → (size : ℕ) → Bool
elf_validate ehdr size =
    if ltb size ehdr_size
    then false
    else if not (ehdr.e_ident ei_mag0 == elfmag0)
        || (not (ehdr.e_ident 1 == elfmag1)
            || (not (ehdr.e_ident 2 == elfmag2) || not (ehdr.e_ident 3 == elfmag3)))
    then false
    else if not (ehdr.e_ident ei_class == elfclass64)
    then false
    else if not (ehdr.e_ident ei_data == elfdata2lsb)
    then false
    else if not (ehdr.e_type == et_exec)
    then false
    else if not (ehdr.e_machine == em_x86_64)
    then false
    else true

-- for (i = 0; i < VMM_PAGE_SIZE; i++) frame_ptr[i] = 0, with `rounds` left.
unfoldable pub zero_frame : ℕ → (frame i : ℕ) → (ℕ → ℕ) → ℕ → ℕ
zero_frame zero frame i frames = frames
zero_frame (suc rounds) frame i frames =
    zero_frame rounds frame (i + 1) (update frames (frame + i) 0)

-- for (i = 0; i < copy_len; i++) dst[i] = src[i], with `rounds` left and `src` an offset.
unfoldable pub copy_data : ℕ → (image : ℕ → ℕ) → (src dst i : ℕ) → (ℕ → ℕ) → ℕ → ℕ
copy_data zero image src dst i frames = frames
copy_data (suc rounds) image src dst i frames =
    copy_data rounds image src dst (i + 1) (update frames (dst + i) (image (u64 (src + i))))

-- The page's frame is cleared and the file's data that falls into the page copied.
unfoldable pub fill_page : (image : ℕ → ℕ) → Phdr → (page frame : ℕ) → (ℕ → ℕ) → ℕ → ℕ
fill_page image phdr page frame frames =
    let zeroed = zero_frame 4096 frame 0 frames in
    let seg_data_start = phdr.p_vaddr in
    let seg_data_end = u64 (phdr.p_vaddr + phdr.p_filesz) in
    let page_end = u64 (page + 4096) in
    let copy_start = if ltb seg_data_start page then page else seg_data_start in
    let copy_end = if ltb page_end seg_data_end then page_end else seg_data_end in
    let dst_offset = copy_start - page in
    let src_offset = u64 (phdr.p_offset + (copy_start - phdr.p_vaddr)) in
    if ltb copy_start copy_end
    then copy_data (copy_end - copy_start) image src_offset (frame + dst_offset) 0 zeroed
    else zeroed

unfoldable pub page_flags : Phdr → ℕ
page_flags phdr =
    let flags = bit_or flag_present flag_user in
    if has_flag phdr.p_flags pf_w then bit_or flags flag_write else flags

-- for (page = vaddr_start; page < vaddr_end; page += VMM_PAGE_SIZE), with `rounds` left.
unfoldable pub load_pages : ℕ → (image : ℕ → ℕ) → Phdr → (page : ℕ) → Machine → Machine
load_pages zero image phdr page s = s
load_pages (suc rounds) image phdr page s =
    let (frame, pmm) = pmm_alloc_frame s.memory.pmm in
    let taken = record (s.memory) { pmm = pmm } in
    let rest = load_pages rounds image phdr (page + 4096) (record {
      memory = vmm_map_page page frame (page_flags phdr) taken;
      frames = fill_page image phdr page frame s.frames;
    }) in
    if frame == 0 then record s { memory = taken } else rest

abbrev pub vaddr_start : Phdr → ℕ
vaddr_start phdr = page_mask phdr.p_vaddr

abbrev pub vaddr_end : Phdr → ℕ
vaddr_end phdr = page_mask (u64 (phdr.p_vaddr + phdr.p_memsz + 0xfff))

-- Both ends are multiples of the page size.
unfoldable pub load_segment : (image : ℕ → ℕ) → Phdr → Machine → Machine
load_segment image phdr s =
    load_pages ((vaddr_end phdr - vaddr_start phdr) / 4096) image phdr (vaddr_start phdr) s

-- for (i = 0; i < ehdr->e_phnum; i++), with `rounds` left.
unfoldable pub load_segments : ℕ → (image : ℕ → ℕ) → Ehdr → (i : ℕ) → Machine → Machine
load_segments zero image ehdr i s = s
load_segments (suc rounds) image ehdr i s =
    let phdr = read_phdr image (u64 (ehdr.e_phoff + i * ehdr.e_phentsize)) in
    load_segments rounds image ehdr (i + 1)
      (if phdr.p_type == pt_load then load_segment image phdr s else s)

-- The entry point, or 0.
unfoldable pub elf_load : (image : ℕ → ℕ) → (size : ℕ) → Machine → ℕ × Machine
elf_load image size s =
    let ehdr = read_ehdr image in
    let ph_end = u64 (ehdr.e_phoff + ehdr.e_phnum * ehdr.e_phentsize) in
    if not (elf_validate ehdr size)
    then (0, s)
    else if ltb size ph_end
    then (0, s)
    else (ehdr.e_entry, load_segments ehdr.e_phnum image ehdr 0 s)
