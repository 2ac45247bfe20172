-- ===== src/Kernel/Files.antt =====
-- kernel/src/kernel.c: the files that the kernel creates.
use tuna_os.Base.{
  ℕ, ◌^◌, ◌<◌, ◌≡◌, ◌≢◌, ◌⊎◌, inl, inr, refl, Option, none, some, List, [], ◌∷◌, arith, ◌∙◌, ap,
  length, Bool-cases, take,
}
use tuna_os.Strings.{str_eq}
use tuna_os.Kheap.Blocks.{Block}
use tuna_os.Kheap.Chain.{IsHeap}
use tuna_os.Ramfs.{Ramfs, File, ramfs_init, ramfs_create, ramfs_find, find_from}
use tuna_os.Ramfs.Files.{ramfs_create-cases, LacksMemory}
use tuna_os.Ramfs.Find.{ramfs_find-create, some-file}
use tuna_os.Kernel.{Provided, files_setup, hello_name, shell_name}

-- The creation of the shell's file found no memory in a well-formed heap, and left `t`.
abbrev pub ShellRefused : Provided → Ramfs → Type 0
ShellRefused p t =
    (before : Ramfs) × (bs : List Block) × IsHeap before.heap bs
    × LacksMemory before.heap bs (length p.shell_elf)
    × (ramfs_create shell_name p.shell_elf before ≡ some (none, t))

-- What is found under the shell's name: the embedded image, or, for want of memory, nothing.
abbrev pub ShellFile : Provided → Ramfs → Type 0
ShellFile p t =
    ((f : File) × (ramfs_find shell_name t ≡ some f)
      × (f.bytes ≡ p.shell_elf)
      × (f.size ≡ length p.shell_elf))
    ⊎ ((ramfs_find shell_name t ≡ none) × ShellRefused p t)

-- Every file holds one of the two images.
abbrev pub AreEmbedded : Provided → List File → Type 0
AreEmbedded p [] = Unit {0}
AreEmbedded p (f ∷ fs) = ((f.bytes ≡ p.hello_elf) ⊎ (f.bytes ≡ p.shell_elf)) × AreEmbedded p fs

in_list :
    (p : Provided) (name : List ℕ) (f : File) (fs : List File)
    → AreEmbedded p fs
    → find_from name fs ≡ some f
    → (f.bytes ≡ p.hello_elf) ⊎ (f.bytes ≡ p.shell_elf)
unfolding find_from
in_list p name f [] all found = cc
in_list p name f (g ∷ fs) (this, all) found = elim (Bool-cases (str_eq g.name name)) [
  | inl same ↦ let e : g ≡ f = some-file g f (rw same at found) in rw (← e) this
  | inr other ↦ in_list p name f fs all (rw other at found)
]

-- So that what is found does.
pub found-AreEmbedded :
    (p : Provided) (t : Ramfs) (name : List ℕ) (f : File)
    → AreEmbedded p t.file_list
    → ramfs_find name t ≡ some f
    → (f.bytes ≡ p.hello_elf) ⊎ (f.bytes ≡ p.shell_elf)
unfolding ramfs_find
found-AreEmbedded p t name f all found = in_list p name f t.file_list all found

-- A list of files that do not have the shell's name.
not_shell :
    (t : Ramfs) (files : List File)
    → t.file_list ≡ files
    → find_from shell_name files ≡ none
    → ramfs_find shell_name t ≡ none
unfolding ramfs_find
not_shell t files e h = rw e h

find-same :
    (s t : Ramfs) → t.file_list ≡ s.file_list → ramfs_find shell_name t ≡ ramfs_find shell_name s
unfolding ramfs_find
find-same s t e = ap (find_from shell_name) e

nothing : find_from shell_name [] ≡ none
unfolding find_from
nothing = refl

no_shell : (f : File) → f.name ≡ take 63 hello_name → find_from shell_name (f ∷ []) ≡ none
unfolding find_from str_eq
no_shell f e = rw e refl

names_differ : ◌≢◌ {A = List ℕ} hello_name shell_name
names_differ e = let clash : ◌≡◌ {A = ℕ} 104 115 = cc in omega arith

module _ (p : Provided) (hello : length p.hello_elf ≢ 0) (shell : length p.shell_elf ≢ 0)
    (hello_small : length p.hello_elf < 2 ^ 62) (shell_small : length p.shell_elf < 2 ^ 62) where
  setup-equation :
      (s s₁ s₂ : Ramfs) (f g : Option File)
      → ramfs_create hello_name p.hello_elf (ramfs_init s) ≡ some (f, s₁)
      → ramfs_create shell_name p.shell_elf s₁ ≡ some (g, s₂)
      → files_setup p s ≡ some s₂
  unfolding files_setup
  setup-equation s s₁ s₂ f g e e' = rw (e, e') refl

  -- The second file, after the first.
  second :
      (s s₁ : Ramfs) (f : Option File) (bs : List Block)
      → ramfs_create hello_name p.hello_elf (ramfs_init s) ≡ some (f, s₁)
      → IsHeap s₁.heap bs
      → ramfs_find shell_name s₁ ≡ none
      → AreEmbedded p s₁.file_list
      → (t : Ramfs) × (cs : List Block) × (files_setup p s ≡ some t)
        × IsHeap t.heap cs
        × ShellFile p t
        × AreEmbedded p t.file_list
  second s s₁ f bs first heap missing all =
      elim (ramfs_create-cases s₁ bs shell_name p.shell_elf heap shell shell_small) [
        | inl c ↦
            let (found, _) =
              ramfs_find-create s₁ c.state bs c.file shell_name p.shell_elf hello_name heap shell
                shell_small c.returns (omega arith) names_differ in
            (
              c.state,
              c.blocks,
              setup-equation s s₁ c.state f (some c.file) first c.returns,
              c.heap,
              inl (c.file, found, c.contents.0, c.contents.1),
              rw c.listed (inr c.contents.0, all),
            )
        | inr r ↦ (
          r.state,
          r.blocks,
          setup-equation s s₁ r.state f none first r.returns,
          r.heap,
          inr (find-same s₁ r.state r.listed ∙ missing, (s₁, bs, heap, r.reason, r.returns)),
          rw r.listed all,
        )
      ]

  -- The creation of the files returns and leaves the heap well-formed; under the shell's name the
  -- embedded image is found, or no file where there was no memory for it, and all files are embedded.
  pub files_setup-ShellFile :
      (s : Ramfs) (bs : List Block)
      → IsHeap s.heap bs
      → (t : Ramfs) × (cs : List Block) × (files_setup p s ≡ some t)
        × IsHeap t.heap cs
        × ShellFile p t
        × AreEmbedded p t.file_list
  files_setup-ShellFile s bs heap =
      elim (ramfs_create-cases (ramfs_init s) bs hello_name p.hello_elf (unfold ramfs_init in heap)
        hello hello_small) [
          | inl c ↦
              let embedded : c.state.file_list ≡ c.file ∷ [] = unfold ramfs_init in c.listed in
              second s c.state (some c.file) c.blocks c.returns c.heap
                (not_shell c.state (c.file ∷ []) embedded (no_shell c.file c.named))
                (rw embedded (inl c.contents.0, tt))
          | inr r ↦
              let empty : r.state.file_list ≡ [] = unfold ramfs_init in r.listed in
              second s r.state none r.blocks r.returns r.heap (not_shell r.state [] empty nothing)
                (rw empty tt)
        ]
