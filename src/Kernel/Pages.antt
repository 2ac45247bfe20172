-- ===== src/Kernel/Pages.antt =====
-- kernel/src/kernel.c: what the steps of the set-up do to the page tables.
use tuna_os.Base.{
  ℕ, ◌^◌, ◌≡◌, ◌<◌, inl, inr, Bool, true, false, Option, some, arith, ◌==◌, ◌||◌, Bool-cases,
  >>=-eq-some, length,
}
use tuna_os.Kheap.{Kheap, kmalloc, kfree}
use tuna_os.Kheap.Backed.{IsBacked, Backs, Backs-trans, kmalloc-Backs, kfree-Backs}
use tuna_os.Ramfs.{Ramfs, ramfs_init, ramfs_create}
use tuna_os.Ramfs.Pages.{ramfs_create-Backs}
use tuna_os.Kernel.{Provided, self_test_body, heap_self_test, files_setup, hello_name, shell_name}

self_test_body-Backs :
    (a b : ℕ) (s t : Kheap) → IsBacked s → self_test_body a b s ≡ some t → Backs s t
unfolding self_test_body
self_test_body-Backs a b s t v run =
    let (s₁, e₁, run₁) = >>=-eq-some (kfree a s) _ run in
    let ((c, s₂), e₂, run₂) = >>=-eq-some (kmalloc 32 s₁) _ run₁ in
    let (s₃, e₃, run₃) = >>=-eq-some (kfree b s₂) _ run₂ in
    let g₁ = kfree-Backs a s s₁ v e₁ in
    let g₂ = kmalloc-Backs 32 c s₁ s₂ (omega arith) g₁.backed e₂ in
    let g₃ = kfree-Backs b s₂ s₃ g₂.backed e₃ in
    Backs-trans s s₁ t g₁
      (Backs-trans s₁ s₂ t g₂ (Backs-trans s₂ s₃ t g₃ (kfree-Backs c s₃ t g₃.backed run₃)))

some-heap :
    (b d : Bool) (t u : Kheap) → ◌≡◌ {A = Option (Bool × Kheap)} (some (b, t)) (some (d, u)) → t ≡ u
some-heap b d t u e = cc

-- The self-test maps the heap's pages alone.
pub heap_self_test-Backs :
    (s t : Kheap) (passed : Bool) → IsBacked s → heap_self_test s ≡ some (passed, t) → Backs s t
unfolding heap_self_test
heap_self_test-Backs s t passed v run =
    let ((a, s₁), e₁, run₁) = >>=-eq-some (kmalloc 64 s) _ run in
    let ((b, s₂), e₂, run₂) = >>=-eq-some (kmalloc 128 s₁) _ run₁ in
    let g₁ = kmalloc-Backs 64 a s s₁ (omega arith) v e₁ in
    let g₂ = Backs-trans s s₁ s₂ g₁ (kmalloc-Backs 128 b s₁ s₂ (omega arith) g₁.backed e₂) in
    elim (Bool-cases ((a == 0) || (b == 0))) [
      | inl failed ↦ rw (← some-heap false passed s₂ t (rw failed at run₂)) g₂
      | inr both ↦
          let (u, e₃, run₃) = >>=-eq-some (self_test_body a b s₂) _ (rw both at run₂) in
          rw (← some-heap true passed u t run₃)
            (Backs-trans s s₂ u g₂ (self_test_body-Backs a b s₂ u g₂.backed e₃))
    ]

-- So do the files.
pub files_setup-Backs :
    (p : Provided) (s t : Ramfs)
    → length p.hello_elf < 2 ^ 62
    → length p.shell_elf < 2 ^ 62
    → IsBacked s.heap
    → files_setup p s ≡ some t
    → Backs s.heap t.heap
unfolding files_setup ramfs_init
files_setup-Backs p s t small small' v run =
    let ((f, s₁), e₁, run₁) =
      >>=-eq-some (ramfs_create hello_name p.hello_elf (ramfs_init s)) _ run in
    let ((f', s₂), e₂, run₂) = >>=-eq-some (ramfs_create shell_name p.shell_elf s₁) _ run₁ in
    let g₁ = ramfs_create-Backs hello_name p.hello_elf (ramfs_init s) s₁ f small v e₁ in
    let g₂ = ramfs_create-Backs shell_name p.shell_elf s₁ s₂ f' small' g₁.backed e₂ in
    let same : s₂ ≡ t = cc in rw (← same) (Backs-trans s.heap s₁.heap s₂.heap g₁ g₂)
