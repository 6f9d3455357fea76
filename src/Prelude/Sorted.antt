-- ===== src/Prelude/Sorted.antt =====
-- Lists in the order of an integer key: what a stable sort by it gives.
use nocturnal_discord.Prelude.Tests.{if◌then◌else◌}
use nocturnal_discord.Prelude.Lists.{
  All, All-weaken, All-keep, All-insert_by, keep, insert_by, sort_by,
}
use nocturnal_discord.Prelude.Int.{ℤ, leb_ℤ}
use mathlib.Core.Path.{◌≡◌, refl, sym, ap, ◌∙◌}
use mathlib.Core.Bool.{Bool, true, false}
use mathlib.Core.List.{List, [], ◌∷◌}
use native.Mathlib.Omega.{arith}

module _ {ℓ} {A : Type ℓ} (key : A → ℤ) where
  -- `sort_by_key`: an element goes before those whose key is not less.
  abbrev pub leq : A → A → Bool
  leq a b = leb_ℤ (key a) (key b)

  abbrev pub Sorted : List A → Type 0
  Sorted [] = Unit
  Sorted (x ∷ xs) = All (λ y. leq x y ≡ true) xs × Sorted xs

  leq_trans : (a b c : A) → leq a b ≡ true → leq b c ≡ true → leq a c ≡ true
  leq_trans a b c h k = ground (arith, h, k)

  leq-flip : (a b : A) → leq a b ≡ false → leq b a ≡ true
  leq-flip a b h = ground (arith, h)

  least :
      (x y : A) (ys : List A)
      → leq x y ≡ true
      → All (λ z. leq y z ≡ true) ys
      → All (λ z. leq x z ≡ true) ys
  least x y ys h k =
      All-weaken (λ z. leq y z ≡ true) (λ z. leq x z ≡ true) ys (λ z e. leq_trans x y z h e) k

  insert_by-Sorted : (x : A) (ys : List A) → Sorted ys → Sorted (insert_by leq x ys)
  unfolding insert_by
  insert_by-Sorted x [] s = (tt, tt)
  insert_by-Sorted x (y ∷ ys) s = pick (leq x y) refl (insert_by-Sorted x ys s.1)
    where
      pick :
          (b : Bool)
          → leq x y ≡ b
          → Sorted (insert_by leq x ys)
          → Sorted (if b then x ∷ y ∷ ys else y ∷ insert_by leq x ys)
      pick true e rest = ((e, least x y ys e s.0), s)
      pick false e rest = (All-insert_by (λ z. leq y z ≡ true) leq x ys (leq-flip x y e) s.0, rest)

  pub sort_by-Sorted : (xs : List A) → Sorted (sort_by leq xs)
  unfolding sort_by
  sort_by-Sorted [] = tt
  sort_by-Sorted (x ∷ xs) = insert_by-Sorted x (sort_by leq xs) (sort_by-Sorted xs)

  insert_by-first :
      (x : A) (ys : List A) → All (λ y. leq x y ≡ true) ys → insert_by leq x ys ≡ x ∷ ys
  unfolding insert_by
  insert_by-first x [] h = refl
  insert_by-first x (y ∷ ys) h = rw (insert_by, h.0) refl

  -- A list in order is left as it is.
  pub sort_by_self : (xs : List A) → Sorted xs → sort_by leq xs ≡ xs
  unfolding sort_by
  sort_by_self [] h = refl
  sort_by_self (x ∷ xs) h = ap (insert_by leq x) (sort_by_self xs h.1) ∙ insert_by-first x xs h.0

  keep-insert_by :
      (f : A → Bool) (x : A) (ys : List A)
      → Sorted ys
      → keep f (insert_by leq x ys) ≡ (if f x then insert_by leq x (keep f ys) else keep f ys)
  unfolding insert_by
  keep-insert_by f x [] s = ground arith
  keep-insert_by f x (y ∷ ys) s =
      split (leq x y) ∙ pick (leq x y) refl (f x) (f y) (keep-insert_by f x ys s.1)
    where
      split :
          (b : Bool)
          → keep f (if b then x ∷ y ∷ ys else y ∷ insert_by leq x ys)
            ≡ (if b then keep f (x ∷ y ∷ ys) else keep f (y ∷ insert_by leq x ys))
      split true = refl
      split false = refl

      first : leq x y ≡ true → insert_by leq x (keep f ys) ≡ x ∷ keep f ys
      first e =
          insert_by-first x (keep f ys) (All-keep (λ z. leq x z ≡ true) f ys (least x y ys e s.0))

      pick :
          (b : Bool)
          → leq x y ≡ b
          → (c d : Bool)
          → keep f (insert_by leq x ys) ≡ (if c then insert_by leq x (keep f ys) else keep f ys)
          → (if b
              then (if c
                  then x ∷ (if d then y ∷ keep f ys else keep f ys)
                  else (if d then y ∷ keep f ys else keep f ys))
              else (if d then y ∷ keep f (insert_by leq x ys) else keep f (insert_by leq x ys)))
            ≡ (if c
                then insert_by leq x (if d then y ∷ keep f ys else keep f ys)
                else (if d then y ∷ keep f ys else keep f ys))
      pick true e true true rest = rw (insert_by, e) refl
      pick true e true false rest = sym (first e)
      pick true e false d rest = refl
      pick false e true true rest = rw (insert_by, e) (ap (λ r. y ∷ r) rest)
      pick false e true false rest = rest
      pick false e false true rest = ap (λ r. y ∷ r) rest
      pick false e false false rest = rest

  -- A sort keeps the order of what a filter keeps.
  pub keep-sort_by :
      (f : A → Bool) (xs : List A) → keep f (sort_by leq xs) ≡ sort_by leq (keep f xs)
  unfolding sort_by
  keep-sort_by f [] = refl
  keep-sort_by f (x ∷ xs) =
      keep-insert_by f x (sort_by leq xs) (sort_by-Sorted xs) ∙ pick (f x) (keep-sort_by f xs)
    where
      pick :
          (b : Bool)
          → keep f (sort_by leq xs) ≡ sort_by leq (keep f xs)
          → (if b then insert_by leq x (keep f (sort_by leq xs)) else keep f (sort_by leq xs))
            ≡ sort_by leq (if b then x ∷ keep f xs else keep f xs)
      pick true e = ap (insert_by leq x) e
      pick false e = e
