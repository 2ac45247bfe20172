-- ===== src/Vmm/Fresh.antt =====
-- kernel/src/vmm.c over pmm.c: a page that is mapped to a frame that was just allocated, as the
-- loader, the stacks of programs and the heap do it.
use tuna_os.Base.{ℕ, ◌*◌, ◌/◌, ◌≡◌, true, arith, bit_or, false, ◌<◌, ◌≤◌, bit_or-page}
use tuna_os.Pmm.{take_frame, page_size}
use tuna_os.Pmm.Bitmap.{is_set}
use tuna_os.Pmm.Alloc.{IsLowestFree}
use tuna_os.Pmm.Count.{take_frame-IsValid, take_frame-is_set}
use tuna_os.Vmm.{Memory, page_mask, vmm_map_page}
use tuna_os.Vmm.Entry.{is_present}
use tuna_os.Vmm.Tree.{Owner, IsTree}
use tuna_os.Vmm.Map.Leaf.{page_number}
use tuna_os.Vmm.Range.{Remaps, Maps-Remaps}
use tuna_os.Vmm.Map.{IsWellFormed, Maps, vmm_map_page-Maps}

abbrev pub taken : ℕ → Memory → Memory
taken f s = record s { pmm = take_frame f s.pmm }

module _ (s : Memory) (f : ℕ) (least : IsLowestFree s.pmm f) where
  taken-marks :
      (o : Owner)
      → IsTree s o
      → (g : ℕ) → is_set s.pmm.bitmap g ≡ true
      → is_set (take_frame f s.pmm).bitmap g ≡ true
  taken-marks o tree g h = ground (arith, take_frame-is_set s.pmm f g tree.counted)

  taken-IsTree : (o : Owner) → IsTree s o → IsTree (taken f s) o
  taken-IsTree o tree = record {
    counted = take_frame-IsValid s.pmm f tree.counted least.in_range least.free;
    zero_used = taken-marks o tree 0 tree.zero_used;
    root = tree.root;
    table = λ t p e.
        let h = tree.table t p e in
        record {
          aligned = h.aligned;
          in_range = h.in_range;
          marked = taken-marks o tree (t / 4096) h.marked;
        };
    child = tree.child;
  }

  -- The frame stays in use, and the page leads to it unless the frames have run out.
  pub map_taken :
      (virt flags : ℕ)
      → IsWellFormed s
      → is_present flags ≡ true
      → let s' = vmm_map_page virt (f * page_size) flags (taken f s) in
        Maps s virt (bit_or (f * page_size) flags) s' × (is_set s'.pmm.bitmap f ≡ true)
  map_taken virt flags (o, tree) present =
      let m =
        vmm_map_page-Maps (taken f s) o (taken-IsTree o tree) virt (f * page_size) flags present in
      let page : page_mask (f * page_size) ≡ f * page_size = omega arith in
      (
        record {
          well_formed = m.well_formed;
          root = m.root;
          cr3 = m.cr3;
          marks = λ g h. m.marks g (taken-marks o tree g h);
          others = m.others;
          rights = m.rights;
          mapped = rw page at (m.mapped);
        },
        m.marks f (ground (arith, take_frame-is_set s.pmm f f tree.counted)),
      )

  frame-free :
      (flags : ℕ) → flags < 4096 → is_set s.pmm.bitmap (bit_or (f * page_size) flags / 4096) ≡ false
  frame-free flags small =
      let e : bit_or (f * page_size) flags / 4096 ≡ f =
        omega (arith, bit_or-page (f * page_size) flags small) in
      rw e (least.free)

  -- No page outside a range with the page changes.
  pub map_taken-Remaps :
      (lo hi virt flags : ℕ)
      → IsWellFormed s
      → is_present flags ≡ true
      → flags < 4096
      → lo ≤ page_number virt
      → page_number virt < hi
      → Remaps lo hi s (vmm_map_page virt (f * page_size) flags (taken f s))
  map_taken-Remaps lo hi virt flags well present small below above =
      Maps-Remaps lo hi virt _ s _ below above (map_taken virt flags well present).0
        (frame-free flags small)
