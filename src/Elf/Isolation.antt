-- ===== src/Elf/Isolation.antt =====
-- kernel/src/elf.c and vmm.c: memory that programs cannot reach.
use tuna_os.Base.{
  ℕ, ◌+◌, ◌*◌, ◌/◌, ◌%◌, ◌<◌, ◌≤◌, ◌≡◌, inl, inr, refl, Bool, true, false, some, none, arith, sym,
  ◌∙◌, ◌==◌, bit_or, bit_and-four, update, ltb, Bool-cases, Option,
}
use tuna_os.Pmm.Bitmap.{is_set}
use tuna_os.Vmm.{has_flag, flag_user, page_mask}
use tuna_os.Vmm.Tree.{translate}
use tuna_os.Vmm.Map.Leaf.{page_number}
use tuna_os.Vmm.Range.{same_entry, Remaps, marks-free}
use tuna_os.Vmm.Init.{IsIdentity}
use tuna_os.Elf.{Machine}

-- The kernel's pages below 2 MiB are as in `base`, and what was in use in `base` is out of reach: no page for
-- programs leads there, and it has its bytes.
pub record IsIsolated (base m : Machine) : Type 0 where
  pub loaded : m.memory.cr3 ≡ m.memory.pml4
  pub root : m.memory.pml4 ≡ base.memory.pml4
  pub kernel_pages :
      (v : ℕ)
      → page_number v < 512
      → translate m.memory.words base.memory.pml4 v ≡ translate base.memory.words base.memory.pml4 v
  pub marks : (g : ℕ) → is_set base.memory.pmm.bitmap g ≡ true → is_set m.memory.pmm.bitmap g ≡ true
  pub user_pages :
      (v e : ℕ)
      → translate m.memory.words m.memory.pml4 v ≡ some e
      → has_flag e flag_user ≡ true
      → is_set base.memory.pmm.bitmap (e / 4096) ≡ false
  pub bytes : (a : ℕ) → is_set base.memory.pmm.bitmap (a / 4096) ≡ true → m.frames a ≡ base.frames a

not_user : (n : ℕ) → has_flag (bit_or (n * 4096) 3) flag_user ≡ false
not_user n = let e = bit_and-four n in rw e refl

-- After `vmm_init` no page is for programs.
pub identity-IsIsolated :
    (m : Machine) → m.memory.cr3 ≡ m.memory.pml4 → IsIdentity 1024 m.memory → IsIsolated m m
identity-IsIsolated m loaded identity = record {
  loaded = loaded;
  root = refl;
  kernel_pages = λ v low. refl;
  marks = λ g h. h;
  user_pages = λ v e there user. elim (Bool-cases (ltb (page_number v) 1024)) [
    | inl inside ↦
        let flags : bit_or (page_number v * 4096) 3 ≡ e =
          same_entry _ e (sym (rw inside at (identity v)) ∙ there) in
        let clash : ◌≡◌ {A = Bool} true false =
          sym user ∙ rw (← flags) (not_user (page_number v)) in
        cc
    | inr outside ↦
        let clash : ◌≡◌ {A = Option ℕ} none (some e) = sym (rw outside at (identity v)) ∙ there in
        cc
  ];
  bytes = λ a h. refl;
}

-- Mapping pages to frames that were free keeps it.
pub Remaps-IsIsolated :
    (base m m' : Machine) (lo hi : ℕ)
    → 512 ≤ lo
    → Remaps lo hi m.memory m'.memory
    → ((a : ℕ) → is_set m.memory.pmm.bitmap (a / 4096) ≡ true → m'.frames a ≡ m.frames a)
    → IsIsolated base m
    → IsIsolated base m'
Remaps-IsIsolated base m m' lo hi above r same i = record {
  loaded = r.cr3 ∙ i.loaded ∙ sym r.root;
  root = r.root ∙ i.root;
  kernel_pages = λ v low. (rw i.root at (r.others v (inl (omega arith)))) ∙ i.kernel_pages v low;
  marks = λ g h. r.marks g (i.marks g h);
  user_pages = λ v e there user. elim (r.fresh v e (rw r.root at there)) [
    | inl before ↦ i.user_pages v e before user
    | inr free ↦ marks-free base.memory m.memory i.marks (e / 4096) free
  ];
  bytes = λ a h. same a (i.marks (a / 4096) h) ∙ i.bytes a h;
}

-- A program that stores a byte at an address of its own.
abbrev pub stored : (address entry byte : ℕ) → Machine → Machine
stored address entry byte m = record m {
  frames = update m.frames (page_mask entry + address % 4096) byte;
}

pub stored-IsIsolated :
    (base m : Machine) (address entry byte : ℕ)
    → translate m.memory.words m.memory.cr3 address ≡ some entry
    → has_flag entry flag_user ≡ true
    → IsIsolated base m
    → IsIsolated base (stored address entry byte m)
stored-IsIsolated base m address entry byte there user i = record {
  loaded = i.loaded;
  root = i.root;
  kernel_pages = i.kernel_pages;
  marks = i.marks;
  user_pages = i.user_pages;
  bytes = λ a h. elim (Bool-cases (page_mask entry + address % 4096 == a)) [
    | inl hit ↦
        let free = i.user_pages address entry (rw i.loaded at there) user in
        let frame : a / 4096 ≡ entry / 4096 = ground arith in
        let clash : ◌≡◌ {A = Bool} true false = sym h ∙ rw frame free in cc
    | inr miss ↦ rw miss (i.bytes a h)
  ];
}
