-- ===== src/Elf/Tests.antt =====
-- Images, with and without a segment.
use tuna_os.Base.{ℕ, ◌≡◌, refl, update}
use tuna_os.Vmm.Tests.{empty_root}
use tuna_os.Elf.{Machine, Phdr, read_phdr}

-- An image for address 0x400000 without segments.
abbrev pub header : ℕ → ℕ
header =
    update
      (update
        (update
          (update (update (update (update (update (update (λ _. 0) 0 0x7f) 1 69) 2 76) 3 70) 4 2) 5
            1)
          16 2)
        18 62)
      26 0x40

-- One with two bytes at 0x400000 and six zeroes behind them.
abbrev pub image : ℕ → ℕ
image =
    update
      (update
        (update
          (update
            (update
              (update
                (update
                  (update
                    (update
                      (update
                        (update
                          (update
                            (update
                              (update
                                (update
                                  (update
                                    (update (update (update (update (λ _. 0) 0 0x7f) 1 69) 2 76) 3
                                      70)
                                    4 2)
                                  5 1)
                                16 2)
                              18 62)
                            26 0x40)
                          32 64)
                        54 56)
                      56 1)
                    64 1)
                  68 6)
                72 120)
              82 0x40)
            96 2)
          104 8)
        120 11)
      121 22

abbrev pub segment : Phdr
segment = record {
  p_type = 1;
  p_flags = 6;
  p_offset = 120;
  p_vaddr = 0x400000;
  p_filesz = 2;
  p_memsz = 8;
}

segment_read : read_phdr image 64 ≡ segment
unfolding read_phdr
segment_read = refl

abbrev pub machine : Machine
machine = record { memory = empty_root; frames = λ _. 0xcc }
