-- ===== src/Strings.antt =====
-- C strings, as the list of characters before the NUL: `str_eq` of kernel/src/ramfs.c and
-- user/shell.c and the walks to the end of a string.
use Prim.Native.Char.{code}
use Prim.Native.String.{String}
use tuna_os.Base.{
  ℕ, ◌≡◌, ◌≢◌, refl, Bool, true, false, List, [], ◌∷◌, ◌==◌, if◌then◌else◌, ◌↔◌, Bool-cases, inl,
  inr, ==_iff, ==_refl,
}

-- The characters of a literal.
abbrev pub codes : String → List ℕ
codes String.[] = []
codes (String.◌∷◌ c s) = code c ∷ codes s

-- while (*a && *b), then the comparison of the characters where the walk ended.
unfoldable pub str_eq : List ℕ → List ℕ → Bool
str_eq [] [] = true
str_eq [] (y ∷ b) = false
str_eq (x ∷ a) [] = false
str_eq (x ∷ a) (y ∷ b) = let rest = str_eq a b in if x == y then rest else false

pub str_eq_refl : (a : List ℕ) → str_eq a a ≡ true
unfolding str_eq
str_eq_refl [] = refl
str_eq_refl (x ∷ a) = rw (==_refl x) (str_eq_refl a)

str_eq_sound : (a b : List ℕ) → str_eq a b ≡ true → a ≡ b
unfolding str_eq
str_eq_sound [] [] h = refl
str_eq_sound [] (y ∷ b) h = cc
str_eq_sound (x ∷ a) [] h = cc
str_eq_sound (x ∷ a) (y ∷ b) h = elim (Bool-cases (x == y)) [
  | inl e ↦ let rest = rw e at h in rw ((==_iff x y).0 e, str_eq_sound a b rest)
  | inr n ↦ let clash : ◌≡◌ {A = Bool} false true = rw n at h in cc
]

-- `str_eq` is true exactly of equal strings.
pub str_eq_iff : (a b : List ℕ) → (str_eq a b ≡ true) ↔ (a ≡ b)
str_eq_iff a b = (str_eq_sound a b, λ e. rw e (str_eq_refl b))

pub str_eq-false : (a b : List ℕ) → a ≢ b → str_eq a b ≡ false
str_eq-false a b ne = elim (Bool-cases (str_eq a b)) [
  | inl e ↦ absurd (ne (str_eq_sound a b e))
  | inr n ↦ n
]
