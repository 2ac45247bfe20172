-- ===== src/Ramfs/Find.antt =====
-- kernel/src/ramfs.c: which file `ramfs_find` returns.
use tuna_os.Base.{
  ℕ, zero, suc, ◌^◌, ◌≤◌, ◌<◌, ◌≡◌, ◌≢◌, refl, Bool, true, false, Option, none, some, List, [], ◌∷◌,
  ◌++◌, length, arith, ◌⊎◌, inl, inr, sym, ◌∙◌, Bool-cases, ap,
}
use tuna_os.Strings.{str_eq, str_eq_iff, str_eq_refl, str_eq-false}
use tuna_os.Kheap.Blocks.{Block}
use tuna_os.Kheap.Chain.{IsHeap}
use tuna_os.Ramfs.{Ramfs, File, copy_name, ramfs_create, ramfs_find, find_from}
use tuna_os.Ramfs.Files.{ramfs_create-cases, copy_name-take}

-- No file of the list has that name.
abbrev pub IsAbsent : List ℕ → List File → Type 0
IsAbsent name [] = Unit {0}
IsAbsent name (f ∷ fs) = (f.name ≢ name) × IsAbsent name fs

find_from-cases :
    (name : List ℕ) (fs : List File)
    → ((f : File) × (before after : List File) × (fs ≡ before ++ f ∷ after)
        × (find_from name fs ≡ some f)
        × (f.name ≡ name)
        × IsAbsent name before)
      ⊎ ((find_from name fs ≡ none) × IsAbsent name fs)
unfolding find_from
find_from-cases name [] = inr (refl, tt)
find_from-cases name (g ∷ fs) = elim (Bool-cases (str_eq g.name name)) [
  | inl e ↦ inl (g, [], fs, refl, rw e refl, (str_eq_iff g.name name).0 e, tt)
  | inr n ↦
      let other : g.name ≢ name =
        λ e. let clash : ◌≡◌ {A = Bool} false true = sym n ∙ (str_eq_iff g.name name).1 e in cc in
      elim (find_from-cases name fs) [
        | inl (f, before, after, at, r, same, absent) ↦
            inl (
              f,
              g ∷ before,
              after,
              ap (λ (l : List File). g ∷ l) at,
              rw n r,
              same,
              (other, absent),
            )
        | inr (r, absent) ↦ inr (rw n r, (other, absent))
      ]
]

copy_name-short : (room : ℕ) (name : List ℕ) → length name ≤ room → copy_name room name ≡ name
unfolding copy_name
copy_name-short zero [] h = refl
copy_name-short zero (c ∷ name) h = absurd (omega arith)
copy_name-short (suc room) [] h = refl
copy_name-short (suc room) (c ∷ name) h = rw (copy_name-short room name (omega arith)) refl

abbrev outcome : Option File → Ramfs → Option (Option File × Ramfs)
outcome f t = some (f, t)

same_outcome : (f g : Option File) (s t : Ramfs) → outcome f s ≡ outcome g t → (f ≡ g) × (s ≡ t)
same_outcome f g s t e = (cc, cc)

pub some-file : (f g : File) → some f ≡ some g → f ≡ g
some-file f g e = cc

-- A run that returned a file put it in front.
created :
    (s : Ramfs) (bs : List Block) (name source : List ℕ) (f : File) (t : Ramfs)
    → IsHeap s.heap bs
    → length source ≢ 0
    → length source < 2 ^ 62
    → ramfs_create name source s ≡ some (some f, t)
    → (t.file_list ≡ f ∷ s.file_list) × (f.name ≡ copy_name 63 name)
created s bs name source f t v ne hi run = elim (ramfs_create-cases s bs name source v ne hi) [
  | inl c ↦
      let e = same_outcome (some f) (some c.file) t c.state (sym run ∙ c.returns) in
      let file = some-file f c.file e.0 in
      rw (e.1, file) (c.listed, c.named ∙ sym (copy_name-take 63 name))
  | inr r ↦
      let clash : ◌≡◌ {A = Option File} (some f) none =
        (same_outcome (some f) none t r.state (sym run ∙ r.returns)).0 in
      cc
]

-- A file that `ramfs_create` returned, for a name of at most 63 characters, is found under that
-- name, also where a file had the name before; under any other name `ramfs_find` finds what it
-- found before.
pub ramfs_find-create :
    (s t : Ramfs) (bs : List Block) (f : File) (name source other : List ℕ)
    → IsHeap s.heap bs
    → length source ≢ 0
    → length source < 2 ^ 62
    → ramfs_create name source s ≡ some (some f, t)
    → length name ≤ 63
    → other ≢ name
    → (ramfs_find name t ≡ some f) × (ramfs_find other t ≡ ramfs_find other s)
unfolding ramfs_find find_from
ramfs_find-create s t bs f name source other v ne hi run short differ =
    let (listed, named) = created s bs name source f t v ne hi run in
    let kept = named ∙ copy_name-short 63 name short in
    let miss = str_eq-false name other (λ e. differ (sym e)) in
    (rw (listed, kept, str_eq_refl name) refl, rw (listed, kept, miss) refl)

-- `ramfs_find` returns the first file of the list that has the name, or NULL where no file has it.
pub ramfs_find-cases :
    (name : List ℕ) (s : Ramfs)
    → ((f : File) × (before after : List File) × (s.file_list ≡ before ++ f ∷ after)
        × (ramfs_find name s ≡ some f)
        × (f.name ≡ name)
        × IsAbsent name before)
      ⊎ ((ramfs_find name s ≡ none) × IsAbsent name s.file_list)
unfolding ramfs_find
ramfs_find-cases name s = find_from-cases name s.file_list
