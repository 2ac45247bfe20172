-- ===== src/Kheap/Expand.antt =====
-- kernel/src/kheap.c: `kheap_expand` adds free bytes at the end of the chain.
use tuna_os.Base.{
  ℕ, zero, suc, ◌+◌, ◌%◌, ◌^◌, ◌≤◌, ◌<◌, ◌≡◌, ◌≢◌, refl, ◌⊎◌, inl, inr, true, false, some, List, [],
  ◌∷◌, ltb, ◌==◌, if◌then◌else◌, arith, Bool-cases, ==_refl, update, length, ◌∙◌, u64,
}
use tuna_os.Kheap.{
  Header, Kheap, is_free, rounds, find_last, append_block, expand_size, kheap_expand, kheap_start,
  kheap_max_size, kheap_map_region,
}
use tuna_os.Kheap.Blocks.{Block, AreBlocks, free_block, extend}
use tuna_os.Kheap.Blocks.Extend.{extend-AreBlocks, extend-merges, extend-adds}
use tuna_os.Kheap.Chain.{IsChain, IsHeap, chain-length, IsChain-agree}

-- The address of the last block, or `l` where there is none.
last_of : (l a : ℕ) → List Block → ℕ
last_of l a [] = l
last_of l a (b ∷ bs) = last_of a (a + b.size) bs

find_last-last_of :
    (fuel l a e : ℕ) (h : ℕ → Header) (bs : List Block)
    → length bs < fuel
    → AreBlocks bs
    → IsChain h a bs e
    → find_last fuel a l e h ≡ some (last_of l a bs)
unfolding find_last last_of
find_last-last_of zero l a e h bs enough blocks c = absurd (omega arith)
find_last-last_of (suc fuel) l a e h [] enough blocks c = ground arith
find_last-last_of (suc fuel) l a e h (b ∷ bs) enough blocks c =
    let room = chain-length h (a + b.size) e bs blocks.2 c.2 in
    let inside : ltb a e ≡ true = ground arith in
    rw (inside, c.0) (find_last-last_of fuel a (a + b.size) e h bs (omega arith) blocks.2 c.2)

last_of-ge : (l a : ℕ) (bs : List Block) → l ≤ a → l ≤ last_of l a bs
unfolding last_of
last_of-ge l a [] h = omega arith
last_of-ge l a (b ∷ bs) h = omega (arith, last_of-ge a (a + b.size) bs (omega arith))

-- The headers after the merge with the last block.
abbrev merged_last : (ℕ → Header) → (p e : ℕ) → ℕ → Header
merged_last h p e =
    if is_free (h p) then update h p (record (h p) { size = u64 ((h p).size + (h e).size) }) else h

merged_last-other : (h : ℕ → Header) (p e x : ℕ) → p ≢ x → merged_last h p e x ≡ h x
merged_last-other h p e x ne = ground arith

extend-IsChain :
    (h : ℕ → Header) (a e n : ℕ) (b : Block) (bs : List Block)
    → AreBlocks (b ∷ bs)
    → e + n < 2 ^ 64
    → IsChain h a (b ∷ bs) e
    → (h e).size ≡ n
    → is_free (h e) ≡ true
    → IsChain (merged_last h (last_of a (a + b.size) bs) e) a (extend n (b ∷ bs)) (e + n)
extend-IsChain h a e n b [] blocks small c s f =
    unfold last_of in
    elim (Bool-cases b.free) [
      | inl free ↦ rw (extend-merges n b free) (merges (c.1 ∙ free))
      | inr used ↦ rw (extend-adds n b used) (adds (c.1 ∙ used))
    ]
  where
    merges :
        is_free (h a) ≡ true → IsChain (merged_last h a e) a (free_block (b.size + n) ∷ []) (e + n)
    merges free = rw (free, ==_refl a) (rw (c.0, s) (omega (arith, c.2)), free, omega (arith, c.2))

    adds : is_free (h a) ≡ false → IsChain (merged_last h a e) a (b ∷ free_block n ∷ []) (e + n)
    adds used = rw (used, c.2) (c.0, c.1, (s, f, refl))
extend-IsChain h a e n b (d ∷ bs) blocks small c s f =
    step (extend-IsChain h (a + b.size) e n d bs blocks.2 small c.2 s f)
  where
    p : ℕ
    p = last_of (a + b.size) (a + b.size + d.size) bs

    same : merged_last h p e a ≡ h a
    same =
        merged_last-other h p e a
          (omega (arith, blocks.0, last_of-ge (a + b.size) (a + b.size + d.size) bs (omega arith)))

    step :
        IsChain (merged_last h p e) (a + b.size) (extend n (d ∷ bs)) (e + n)
        → IsChain
            (merged_last h (last_of a (a + b.size) (d ∷ bs)) e)
            a
            (extend n (b ∷ d ∷ bs))
            (e + n)
    step rest = unfold last_of extend in rw same (c.0, c.1, rest)

-- The state after `n` free bytes were added at the end.
pub record IsExtended (s : Kheap) (bs : List Block) (n : ℕ) (state : Kheap) : Type 0 where
  pub heap : IsHeap state (extend n bs)
  pub same_start : state.heap_start ≡ s.heap_start
  pub new_end : state.heap_end ≡ s.heap_end + n

module _ (s : Kheap) (n : ℕ) (b : Block) (bs : List Block) (v : IsHeap s (b ∷ bs)) (lo : 32 ≤ n)
    (aligned : n % 8 ≡ 0) (room : s.heap_end + n ≤ kheap_start + kheap_max_size) where
  abbrev with_new : ℕ → Header
  with_new = update s.headers s.heap_end (record { size = n; free = 1; pad = 0 })

  abbrev last : ℕ
  last = last_of s.heap_start (s.heap_start + b.size) bs

  with_new-IsChain : IsChain with_new s.heap_start (b ∷ bs) s.heap_end
  with_new-IsChain =
      IsChain-agree s.headers with_new s.heap_start s.heap_end (b ∷ bs) (λ x lo' hi. ground arith)
        v.blocks v.chain

  last-ne_zero : (last == 0) ≡ false
  last-ne_zero =
      ground (arith, v.start, last_of-ge s.heap_start (s.heap_start + b.size) bs (omega arith))

  abbrev extended : Kheap
  extended = record s { heap_end = s.heap_end + n; headers = merged_last with_new last s.heap_end }

  append_block-extended : append_block n s ≡ some extended
  unfolding append_block
  append_block-extended =
      let found =
        find_last-last_of (rounds s) 0 s.heap_start s.heap_end with_new (b ∷ bs)
          (omega (arith, chain-length s.headers s.heap_start s.heap_end (b ∷ bs) v.blocks v.chain))
          v.blocks with_new-IsChain in
      let found' : find_last (rounds s) s.heap_start 0 s.heap_end with_new ≡ some last =
        unfold last_of in found in
      rw (found', append_block, last-ne_zero)

  extended-IsExtended : IsExtended s (b ∷ bs) n extended
  extended-IsExtended = record {
    heap = record {
      start = v.start;
      limit = room;
      blocks = extend-AreBlocks n (b ∷ bs) lo aligned v.blocks;
      chain =
          extend-IsChain with_new s.heap_start s.heap_end n b bs v.blocks (omega (arith, room))
            with_new-IsChain (ground arith) (ground arith);
      nonempty = omega (arith, v.nonempty);
    };
    same_start = refl;
    new_end = refl;
  }

append_block-IsExtended :
    (s : Kheap) (n : ℕ) (bs : List Block)
    → IsHeap s bs
    → 32 ≤ n
    → n % 8 ≡ 0
    → s.heap_end + n ≤ kheap_start + kheap_max_size
    → (s' : Kheap) × (append_block n s ≡ some s') × IsExtended s bs n s'
append_block-IsExtended s n [] v lo aligned room = absurd (omega (arith, v.chain, v.nonempty))
append_block-IsExtended s n (b ∷ bs) v lo aligned room = (
  extended s n b bs v lo aligned room,
  append_block-extended s n b bs v lo aligned room,
  extended-IsExtended s n b bs v lo aligned room,
)

pub expand_size_lem :
    (m : ℕ)
    → m < 2 ^ 63
    → (m ≤ expand_size m)
      × (4096 ≤ expand_size m)
      × (expand_size m % 4096 ≡ 0)
      × (expand_size m ≤ m + 4096)
unfolding expand_size
expand_size_lem m h = ground arith

-- `kheap_expand` fails and changes nothing where the heap would outgrow its limit; otherwise it
-- adds at least `m` free bytes at the end of the chain.
pub kheap_expand-cases :
    (m : ℕ) (s : Kheap) (bs : List Block)
    → m < 2 ^ 63
    → IsHeap s bs
    → ((kheap_expand m s ≡ some (false, s))
        × (kheap_start + kheap_max_size < s.heap_end + expand_size m))
      ⊎ ((s' : Kheap) × (n : ℕ) × (kheap_expand m s ≡ some (true, s'))
          × (m ≤ n)
          × IsExtended s bs n s')
kheap_expand-cases m s bs h v =
    elim (Bool-cases (ltb (kheap_start + kheap_max_size) (u64 (s.heap_end + expand_size m)))) [
      | inl over ↦
          inl (unfold kheap_expand in rw over, ground (arith, v.limit, expand_size_lem m h))
      | inr fits ↦
          let mapped = record s { memory = kheap_map_region s.heap_end (expand_size m) s.memory } in
          let same : IsHeap mapped bs = record {
            start = v.start;
            limit = v.limit;
            blocks = v.blocks;
            chain = v.chain;
            nonempty = v.nonempty;
          } in
          let (s', r, x) =
            append_block-IsExtended mapped (expand_size m) bs same
              (omega (arith, expand_size_lem m h)) (omega (arith, expand_size_lem m h))
              (ground (arith, v.limit, expand_size_lem m h)) in
          inr (
            s',
            expand_size m,
            unfold kheap_expand in rw (fits, r, kheap_expand),
            (expand_size_lem m h).0,
            record { heap = x.heap; same_start = x.same_start; new_end = x.new_end },
          )
    ]
