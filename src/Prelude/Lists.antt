-- ===== src/Prelude/Lists.antt =====
-- Lists measured by native numbers and searched by Boolean tests, as the iterators of Rust do.
use nocturnal_discord.Prelude.Tests.{if◌then◌else◌}
use Prim.Native.Nat.{ℕ, zero, suc, ◌+◌, ◌≤◌}
use mathlib.Core.Path.{◌≡◌, refl}
use mathlib.Core.Bool.{Bool, true, false, ◌||◌}
use mathlib.Core.Option.{Option, none, some}
use mathlib.Core.List.{List, [], ◌∷◌, ◌++◌, map}
use native.Mathlib.Omega.{arith}

module _ {ℓ} {A : Type ℓ} where
  abbrev pub length : List A → ℕ
  length [] = 0
  length (x ∷ xs) = suc (length xs)

  abbrev pub get_elem? : List A → ℕ → Option A
  get_elem? [] i = none
  get_elem? (x ∷ xs) zero = some x
  get_elem? (x ∷ xs) (suc i) = get_elem? xs i

  abbrev pub take : ℕ → List A → List A
  take zero xs = []
  take (suc n) [] = []
  take (suc n) (x ∷ xs) = x ∷ take n xs

  abbrev pub drop : ℕ → List A → List A
  drop zero xs = xs
  drop (suc n) [] = []
  drop (suc n) (x ∷ xs) = drop n xs

  abbrev pub is_nil : List A → Bool
  is_nil [] = true
  is_nil (x ∷ xs) = false

  abbrev pub head? : List A → Option A
  head? [] = none
  head? (x ∷ xs) = some x

  abbrev pub last? : List A → Option A
  last? [] = none
  last? (x ∷ []) = some x
  last? (x ∷ y ∷ xs) = last? (y ∷ xs)

  -- `Iterator::any`
  abbrev pub any : (A → Bool) → List A → Bool
  any f [] = false
  any f (x ∷ xs) = f x || any f xs

  -- `Iterator::filter`, `Vec::retain`
  abbrev pub keep : (A → Bool) → List A → List A
  keep f [] = []
  keep f (x ∷ xs) = let rest = keep f xs in if f x then x ∷ rest else rest

  -- `Iterator::find`
  abbrev pub find : (A → Bool) → List A → Option A
  find f [] = none
  find f (x ∷ xs) = if f x then some x else find f xs

  -- A write through `iter_mut().find(..)`: the first element that fits.
  abbrev pub modify_first : (A → Bool) → (A → A) → List A → List A
  modify_first f g [] = []
  modify_first f g (x ∷ xs) = let rest = modify_first f g xs in if f x then g x ∷ xs else x ∷ rest

  -- Each element has the property.
  abbrev pub All {κ} : (A → Type κ) → List A → Type κ
  All P [] = Unit
  All P (x ∷ xs) = P x × All P xs

  -- `sort_by`: stable, so an element stays before those that it ties with.
  unfoldable pub insert_by : (A → A → Bool) → A → List A → List A
  insert_by leq x [] = x ∷ []
  insert_by leq x (y ∷ ys) =
      let rest = insert_by leq x ys in if leq x y then x ∷ y ∷ ys else y ∷ rest

  unfoldable pub sort_by : (A → A → Bool) → List A → List A
  unfolding insert_by
  sort_by leq [] = []
  sort_by leq (x ∷ xs) = insert_by leq x (sort_by leq xs)

  pub length-append : (xs ys : List A) → length (xs ++ ys) ≡ length xs + length ys
  length-append [] ys = omega arith
  length-append (x ∷ xs) ys = omega (arith, length-append xs ys)

  pub length-insert_by :
      (leq : A → A → Bool) (x : A) (xs : List A) → length (insert_by leq x xs) ≡ suc (length xs)
  unfolding insert_by
  length-insert_by leq x [] = refl
  length-insert_by leq x (y ∷ ys) = ground (arith, length-insert_by leq x ys)

  pub length-sort_by : (leq : A → A → Bool) (xs : List A) → length (sort_by leq xs) ≡ length xs
  unfolding sort_by
  length-sort_by leq [] = refl
  length-sort_by leq (x ∷ xs) =
      omega (arith, length-insert_by leq x (sort_by leq xs), length-sort_by leq xs)

  pub length-keep-le : (f : A → Bool) (xs : List A) → length (keep f xs) ≤ length xs
  length-keep-le f [] = omega arith
  length-keep-le f (x ∷ xs) = ground (arith, length-keep-le f xs)

-- What holds of each element holds of each of the lists made from it.
module _ {ℓ κ} {A : Type ℓ} (P : A → Type κ) where
  pub All-append : (xs ys : List A) → All P xs → All P ys → All P (xs ++ ys)
  All-append [] ys h k = k
  All-append (x ∷ xs) ys h k = (h.0, All-append xs ys h.1 k)

  pub All-insert_by :
      (leq : A → A → Bool) (x : A) (xs : List A) → P x → All P xs → All P (insert_by leq x xs)
  unfolding insert_by
  All-insert_by leq x [] p h = (p, tt)
  All-insert_by leq x (y ∷ ys) p h = let rest = All-insert_by leq x ys p h.1 in pick (leq x y) rest
    where
      pick :
          (b : Bool)
          → All P (insert_by leq x ys)
          → All P (if b then x ∷ y ∷ ys else y ∷ insert_by leq x ys)
      pick true rest = (p, h)
      pick false rest = (h.0, rest)

  pub All-sort_by : (leq : A → A → Bool) (xs : List A) → All P xs → All P (sort_by leq xs)
  unfolding sort_by
  All-sort_by leq [] h = tt
  All-sort_by leq (x ∷ xs) h = All-insert_by leq x (sort_by leq xs) h.0 (All-sort_by leq xs h.1)

  pub All-keep : (f : A → Bool) (xs : List A) → All P xs → All P (keep f xs)
  All-keep f [] h = tt
  All-keep f (x ∷ xs) h = pick (f x) (All-keep f xs h.1)
    where
      pick : (b : Bool) → All P (keep f xs) → All P (if b then x ∷ keep f xs else keep f xs)
      pick true rest = (h.0, rest)
      pick false rest = rest

  pub All-take : (n : ℕ) (xs : List A) → All P xs → All P (take n xs)
  All-take zero xs h = tt
  All-take (suc n) [] h = tt
  All-take (suc n) (x ∷ xs) h = (h.0, All-take n xs h.1)

pub length-take {ℓ} : {A : Type ℓ} (n : ℕ) (xs : List A) → length (take n xs) ≤ n
length-take zero xs = omega arith
length-take (suc n) [] = omega arith
length-take (suc n) (x ∷ xs) = omega (arith, length-take n xs)

pub All-keep-true {ℓ} :
    {A : Type ℓ} (f : A → Bool) (xs : List A) → All (λ x. f x ≡ true) (keep f xs)
All-keep-true f [] = tt
All-keep-true f (x ∷ xs) = pick (f x) refl (All-keep-true f xs)
  where
    pick :
        (b : Bool)
        → f x ≡ b
        → All (λ x. f x ≡ true) (keep f xs)
        → All (λ x. f x ≡ true) (if b then x ∷ keep f xs else keep f xs)
    pick true e rest = (e, rest)
    pick false e rest = rest

-- The same of the values that elements are mapped to.
pub All-map {ℓ κ ρ} :
    {A : Type ℓ} {B : Type κ} (P : B → Type ρ) (f : A → B) (xs : List A)
    → All (λ x. P (f x)) xs
    → All P (map f xs)
All-map P f [] h = tt
All-map P f (x ∷ xs) h = (h.0, All-map P f xs h.1)

pub keep-append {ℓ} :
    {A : Type ℓ} (f : A → Bool) (xs ys : List A) → keep f (xs ++ ys) ≡ keep f xs ++ keep f ys
keep-append f [] ys = refl
keep-append f (x ∷ xs) ys = ground (arith, keep-append f xs ys)

pub keep-keep {ℓ} : {A : Type ℓ} (f : A → Bool) (xs : List A) → keep f (keep f xs) ≡ keep f xs
keep-keep f [] = refl
keep-keep f (x ∷ xs) = ground (arith, keep-keep f xs)

pub All-weaken {ℓ κ ρ} :
    {A : Type ℓ} (P : A → Type κ) (Q : A → Type ρ) (xs : List A)
    → ((x : A) → P x → Q x)
    → All P xs
    → All Q xs
All-weaken P Q [] f h = tt
All-weaken P Q (x ∷ xs) f h = (f x h.0, All-weaken P Q xs f h.1)

pub All-both {ℓ κ ρ} :
    {A : Type ℓ} (P : A → Type κ) (Q : A → Type ρ) (xs : List A)
    → All P xs
    → All Q xs
    → All (λ x. P x × Q x) xs
All-both P Q [] h k = tt
All-both P Q (x ∷ xs) h k = ((h.0, k.0), All-both P Q xs h.1 k.1)
