-- ===== src/Kheap/Backed.antt =====
-- kernel/src/kheap.c over vmm.c: the pages behind the heap.
use tuna_os.Base.{
  ℕ, zero, suc, ◌+◌, ◌-◌, ◌/◌, ◌%◌, ◌^◌, ◌<◌, ◌≤◌, ◌≡◌, refl, ◌⊎◌, inl, inr, Bool, true, false,
  Option, none, some, arith, Bool-cases, Option-cases, ◌==◌, ltb, u64, sym, update,
}
use tuna_os.Vmm.Map.{IsWellFormed}
use tuna_os.Vmm.Range.{Remaps, Remaps-refl, Remaps-trans, Remaps-widen}
use tuna_os.Kheap.{
  Kheap, Header, BlockScan, fit, no_fit, no_fuel, map_region, kheap_map_region, kheap_init,
  kheap_expand, expand_size, append_block, find_last, rounds, search_block, kmalloc_retry, kmalloc,
  kfree, coalesce, header_size, block_size, kheap_start, kheap_max_size, kheap_initial_size,
}
use tuna_os.Kheap.Malloc.{block_size_lem}
use tuna_os.Kheap.Tables.{AreHeld, map_region-Remaps}
use tuna_os.Kheap.Expand.{expand_size_lem}

abbrev pub first_page : ℕ
first_page = kheap_start / 4096

abbrev pub last_page : ℕ
last_page = (kheap_start + kheap_max_size) / 4096

-- The heap is whole pages within its limits, and each is held unless the frames have run out.
pub record IsBacked (s : Kheap) : Type 0 where
  pub tables : IsWellFormed s.memory
  pub low : kheap_start ≤ s.heap_end
  pub high : s.heap_end ≤ kheap_start + kheap_max_size
  pub aligned : s.heap_end % 4096 ≡ 0
  pub pages : AreHeld first_page (s.heap_end / 4096) s.memory

-- The pages that the heap may take are the only ones that change from `s` to `t`.
pub record Backs (s t : Kheap) : Type 0 where
  pub pages : Remaps first_page last_page s.memory t.memory
  pub backed : IsBacked t

pub Backs-refl : (s : Kheap) → IsBacked s → Backs s s
Backs-refl s v = record { pages = Remaps-refl first_page last_page s.memory v.tables; backed = v }

-- Headers have no part in it.
headers-Backs : (s : Kheap) (h : ℕ → Header) → IsBacked s → Backs s (record s { headers = h })
headers-Backs s h v = record {
  pages = Remaps-refl first_page last_page s.memory v.tables;
  backed = record {
    tables = v.tables;
    low = v.low;
    high = v.high;
    aligned = v.aligned;
    pages = v.pages;
  };
}

pub Backs-trans : (s t u : Kheap) → Backs s t → Backs t u → Backs s u
Backs-trans s t u g h = record {
  pages = Remaps-trans first_page last_page s.memory t.memory u.memory g.pages h.pages;
  backed = h.backed;
}

-- What a run that returned a state returned.
some_state :
    (P : Kheap → Type 0) (s t : Kheap) → ◌≡◌ {A = Option Kheap} (some s) (some t) → P s → P t
some_state P s t e h = let e' : s ≡ t = cc in rw (sym e') h

some_pair :
    {A : Type 0} (P : Kheap → Type 0) (a b : A) (s t : Kheap)
    → ◌≡◌ {A = Option (A × Kheap)} (some (a, s)) (some (b, t))
    → P s
    → P t
some_pair P a b s t e h = let e' : s ≡ t = cc in rw (sym e') h

append_block-memory :
    (n : ℕ) (s s' : Kheap)
    → append_block n s ≡ some s'
    → (s'.memory ≡ s.memory) × (s'.heap_end ≡ s.heap_end + n)
unfolding append_block
append_block-memory n s s' e =
    let h = update s.headers s.heap_end (record { size = n; free = 1; pad = 0 }) in
    elim (Option-cases (find_last (rounds s) s.heap_start 0 s.heap_end h)) [
      | inl missing ↦
          let e' : ◌≡◌ {A = Option Kheap} none (some s') = rw (missing, append_block) at e in cc
      | inr (last, found) ↦
          some_state (λ t. (t.memory ≡ s.memory) × (t.heap_end ≡ s.heap_end + n)) _ s'
            (rw (found, append_block) at e) (refl, refl)
    ]

-- The pages of the heap are mapped before the block is added.
grown-Backs :
    (n : ℕ) (s s' : Kheap)
    → IsBacked s
    → n % 4096 ≡ 0
    → s.heap_end + n ≤ kheap_start + kheap_max_size
    → s'.memory ≡ kheap_map_region s.heap_end n s.memory
    → s'.heap_end ≡ s.heap_end + n
    → Backs s s'
unfolding kheap_map_region
grown-Backs n s s' v whole room same end =
    let (r, h) =
      map_region-Remaps first_page ((n + 4095) / 4096) s.heap_end s.memory v.tables (omega arith)
        v.pages in
    let top : s.heap_end / 4096 + (n + 4095) / 4096 ≡ s'.heap_end / 4096 =
      omega (arith, v.aligned) in
    let memory = map_region ((n + 4095) / 4096) s.heap_end s.memory in
    let pages : Remaps first_page last_page s.memory memory =
      Remaps-widen _ _ first_page last_page s.memory memory (omega (arith, v.low)) (omega arith)
        r in
    record {
      pages = rw same pages;
      backed = record {
        tables = rw same pages.well_formed;
        low = omega (arith, v.low);
        high = omega arith;
        aligned = omega (arith, v.aligned);
        pages = rw (same, ← top) h;
      };
    }

-- Whether it grows the heap or not.
kheap_expand-Backs :
    (n : ℕ) (s s' : Kheap) (b : Bool)
    → n < 2 ^ 63
    → IsBacked s
    → kheap_expand n s ≡ some (b, s')
    → Backs s s'
unfolding kheap_expand
kheap_expand-Backs n s s' b small v run =
    elim (Bool-cases (ltb (kheap_start + kheap_max_size) (u64 (s.heap_end + expand_size n)))) [
      | inl over ↦ some_pair (Backs s) false b s s' (rw over at run) (Backs-refl s v)
      | inr fits ↦
          let mapped : Kheap = record s {
            memory = kheap_map_region s.heap_end (expand_size n) s.memory;
          } in
          elim (Option-cases (append_block (expand_size n) mapped)) [
            | inl none' ↦
                let clash : ◌≡◌ {A = Option (Bool × Kheap)} none (some (b, s')) =
                  rw (fits, none', kheap_expand) at run in
                cc
            | inr (t, e) ↦
                let (memory, end) = append_block-memory (expand_size n) mapped t e in
                let (_, _, whole, _) = expand_size_lem n small in
                some_pair (Backs s) true b t s' (rw (fits, e, kheap_expand) at run) (
                  grown-Backs (expand_size n) s t v whole
                    (ground (arith, v.high, expand_size_lem n small)) memory end)
          ]
    ]

BlockScan-cases : (r : BlockScan) → ((c : ℕ) × (r ≡ fit c)) ⊎ ((r ≡ no_fit) ⊎ (r ≡ no_fuel))
BlockScan-cases (fit c) = inl (c, refl)
BlockScan-cases no_fit = inr (inl refl)
BlockScan-cases no_fuel = inr (inr refl)

retry-Backs :
    (fuel total : ℕ) (s s' : Kheap) (p : ℕ)
    → total < 2 ^ 63
    → IsBacked s
    → kmalloc_retry fuel total s ≡ some (p, s')
    → Backs s s'
unfolding kmalloc_retry
retry-Backs zero total s s' p small v run = cc
retry-Backs (suc fuel) total s s' p small v run =
    elim (BlockScan-cases (search_block (rounds s) s.heap_start total s.heap_end s.headers)) [
      | inl (c, e) ↦
          some_pair (Backs s) _ p _ s' (rw (e, kmalloc_retry) at run) (headers-Backs s _ v)
      | inr (inr e) ↦
          let clash : ◌≡◌ {A = Option (ℕ × Kheap)} none (some (p, s')) =
            rw (e, kmalloc_retry) at run in
          cc
      | inr (inl e) ↦ elim (Option-cases (kheap_expand total s)) [
        | inl e' ↦
            let clash : ◌≡◌ {A = Option (ℕ × Kheap)} none (some (p, s')) =
              rw (e, e', kmalloc_retry) at run in
            cc
        | inr ((true, t), e') ↦
            let g = kheap_expand-Backs total s t true small v e' in
            Backs-trans s t s' g
              (retry-Backs fuel total t s' p small g.backed (rw (e, e', kmalloc_retry) at run))
        | inr ((false, t), e') ↦
            let g = kheap_expand-Backs total s t false small v e' in
            some_pair (Backs s) 0 p t s' (rw (e, e', kmalloc_retry) at run) g
      ]
    ]

-- `kheap_init` maps the initial heap's pages, or the frames run out; no other page is mapped.
pub kheap_init-Backs : (s : Kheap) → IsWellFormed s.memory → Backs s (kheap_init s)
unfolding kheap_init
kheap_init-Backs s well =
    let empty : Kheap = record s { heap_end = kheap_start } in
    let start : IsBacked empty = record {
      tables = well;
      low = omega arith;
      high = omega arith;
      aligned = refl;
      pages = inr λ v from below. absurd (omega (arith, from, below));
    } in
    let g =
      grown-Backs kheap_initial_size empty (kheap_init s) start refl (omega arith) refl refl in
    record { pages = g.pages; backed = g.backed }

pub kmalloc-Backs :
    (size p : ℕ) (s t : Kheap)
    → size < 2 ^ 62
    → IsBacked s
    → kmalloc size s ≡ some (p, t)
    → Backs s t
unfolding kmalloc
kmalloc-Backs size p s t small v run = elim (Bool-cases (size == 0)) [
  | inl nothing ↦ some_pair (Backs s) 0 p s t (rw nothing at run) (Backs-refl s v)
  | inr something ↦
      let (_, _, _, total) = block_size_lem size small in
      retry-Backs 4097 (block_size size) s t p total v (rw something at run)
]

pub kfree-Backs : (p : ℕ) (s t : Kheap) → IsBacked s → kfree p s ≡ some t → Backs s t
unfolding kfree
kfree-Backs p s t v run = elim (Bool-cases (p == 0)) [
  | inl nothing ↦ some_state (Backs s) s t (rw nothing at run) (Backs-refl s v)
  | inr something ↦
      let block = p - header_size in
      let h = update s.headers block (record (s.headers block) { free = 1 }) in
      elim (Option-cases (coalesce (rounds s) s.heap_start s.heap_end h)) [
        | inl e ↦
            let clash : ◌≡◌ {A = Option Kheap} none (some t) = rw (something, e, kfree) at run in cc
        | inr (h', e) ↦
            some_state (Backs s) _ t (rw (something, e, kfree) at run) (headers-Backs s h' v)
      ]
]
