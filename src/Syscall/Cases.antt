-- ===== src/Syscall/Cases.antt =====
-- kernel/src/syscall.c: splits of the tests in the handlers of system calls.
use tuna_os.Base.{◌≡◌, refl, Bool, true, false, Option, none, some, if◌then◌else◌}
use tuna_os.Idt.{Resume}
use tuna_os.Syscall.{System}

-- Splits of a conditional and of an optional value, with the equation that each case has.
pub if_elim :
    (P : Resume System → Type 0) (b : Bool) (x y : Resume System)
    → (b ≡ true → P x)
    → (b ≡ false → P y)
    → P (if b then x else y)
if_elim P true x y h k = h refl
if_elim P false x y h k = k refl

pub option_elim :
    {A : Type 0} (P : Resume System → Type 0) (o : Option A) (n : Resume System)
    (f : A → Resume System)
    → (o ≡ none → P n)
    → ((a : A) → o ≡ some a → P (f a))
    → P (elim o [ none ↦ n | some a ↦ f a ])
option_elim P none n f h k = h refl
option_elim P (some a) n f h k = k a refl
