-- ===== src/Task/Lists.antt =====
-- Membership in a list of addresses, lists without repetition, and rotation.
use tuna_os.Base.{
  ℕ, ◌≡◌, refl, inl, inr, Bool, true, false, ◌||◌, List, [], ◌∷◌, ◌++◌, ◌==◌, ==_iff, ==_refl,
  arith, Bool-cases, sym, ◌∙◌, ap,
}

abbrev pub member : ℕ → List ℕ → Bool
member x [] = false
member x (y ∷ ys) = (y == x) || member x ys

abbrev pub IsDistinct : List ℕ → Type 0
IsDistinct [] = Unit {0}
IsDistinct (x ∷ xs) = (member x xs ≡ false) × IsDistinct xs

pub member-append : (x : ℕ) (xs ys : List ℕ) → member x (xs ++ ys) ≡ (member x xs || member x ys)
member-append x [] ys = refl
member-append x (z ∷ xs) ys = ground (arith, member-append x xs ys)

pub member-swap : (x : ℕ) (xs ys : List ℕ) → member x (xs ++ ys) ≡ member x (ys ++ xs)
member-swap x xs ys = ground (arith, member-append x xs ys, member-append x ys xs)

pub append_nil : (xs : List ℕ) → xs ++ [] ≡ xs
append_nil [] = refl
append_nil (x ∷ xs) = ap (λ (l : List ℕ). x ∷ l) (append_nil xs)

-- One element put in the middle, and taken out.
pub IsDistinct-insert :
    (x : ℕ) (ys xs : List ℕ)
    → IsDistinct (ys ++ xs)
    → member x (ys ++ xs) ≡ false
    → IsDistinct (ys ++ x ∷ xs)
IsDistinct-insert x [] xs d out = (out, d)
IsDistinct-insert x (y ∷ ys) xs d out = (
  ground (arith, member-append y ys (x ∷ xs), member-append y ys xs, ==_iff x y, ==_iff y x),
  IsDistinct-insert x ys xs d.1 (ground arith),
)

pub IsDistinct-remove :
    (x : ℕ) (ys xs : List ℕ)
    → IsDistinct (ys ++ x ∷ xs)
    → IsDistinct (ys ++ xs) × (member x (ys ++ xs) ≡ false)
IsDistinct-remove x [] xs d = (d.1, d.0)
IsDistinct-remove x (y ∷ ys) xs d =
    let (rest, out) = IsDistinct-remove x ys xs d.1 in
    (
      (ground (arith, member-append y ys (x ∷ xs), member-append y ys xs), rest),
      ground (arith, member-append y ys (x ∷ xs), ==_iff x y, ==_iff y x),
    )

pub IsDistinct-rotate : (xs ys : List ℕ) → IsDistinct (xs ++ ys) → IsDistinct (ys ++ xs)
IsDistinct-rotate [] ys d = rw append_nil d
IsDistinct-rotate (x ∷ xs) ys d =
    IsDistinct-insert x ys xs (IsDistinct-rotate xs ys d.1) (ground (arith, member-swap x xs ys))

pub IsDistinct-append :
    (xs ys : List ℕ)
    → IsDistinct (xs ++ ys)
    → IsDistinct ys × ((x : ℕ) → member x xs ≡ true → member x ys ≡ false)
IsDistinct-append [] ys d = (d, λ x m. cc)
IsDistinct-append (z ∷ xs) ys d =
    let (rest, apart) = IsDistinct-append xs ys d.1 in
    (rest, λ x m. ground (arith, ==_iff z x, apart x, member-append z xs ys))

-- Where an element stands.
pub member-split :
    (x : ℕ) (xs : List ℕ)
    → member x xs ≡ true
    → (before after : List ℕ) × (xs ≡ before ++ x ∷ after)
member-split x [] m = cc
member-split x (y ∷ ys) m = elim (Bool-cases (y == x)) [
  | inl e ↦ ([], ys, rw ((==_iff y x).0 e) refl)
  | inr n ↦
      let (before, after, e) = member-split x ys (rw n at m) in
      (y ∷ before, after, ap (λ (l : List ℕ). y ∷ l) e)
]

-- The last element, or `d` of an empty list.
abbrev pub last : ℕ → List ℕ → ℕ
last d [] = d
last d (x ∷ xs) = last x xs

pub last-append : (d y : ℕ) (xs ys : List ℕ) → last d (xs ++ y ∷ ys) ≡ last y ys
last-append d y [] ys = refl
last-append d y (x ∷ xs) ys = last-append x y xs ys

pub member-last : (x : ℕ) (xs : List ℕ) → member (last x xs) (x ∷ xs) ≡ true
member-last x [] = ground (arith, ==_refl x)
member-last x (y ∷ ys) = ground (arith, member-last y ys)

pub append_assoc : (xs ys zs : List ℕ) → (xs ++ ys) ++ zs ≡ xs ++ (ys ++ zs)
append_assoc [] ys zs = refl
append_assoc (x ∷ xs) ys zs = ap (λ (l : List ℕ). x ∷ l) (append_assoc xs ys zs)

pub member-apart :
    (x y : ℕ) (xs : List ℕ) → member x xs ≡ true → member y xs ≡ false → (y == x) ≡ false
member-apart x y xs m out = elim (Bool-cases (y == x)) [
  | inl e ↦
      let same : y ≡ x = (==_iff y x).0 e in
      let clash : ◌≡◌ {A = Bool} true false =
        sym m ∙ ap (λ (k : ℕ). member k xs) (sym same) ∙ out in
      cc
  | inr n ↦ n
]

pub IsDistinct-snoc :
    (x : ℕ) (xs : List ℕ) → IsDistinct xs → member x xs ≡ false → IsDistinct (xs ++ x ∷ [])
IsDistinct-snoc x xs d out =
    IsDistinct-insert x xs [] (rw (append_nil xs) d) (rw (append_nil xs) out)
