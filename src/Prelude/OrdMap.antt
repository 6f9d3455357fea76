-- ===== src/Prelude/OrdMap.antt =====
-- `BTreeMap` and `BTreeSet`: entries in the order of their keys, under an interface for the order.
use nocturnal_discord.Prelude.Tests.{if◌then◌else◌}
use nocturnal_discord.Prelude.Lists.{All, All-weaken}
use nocturnal_discord.Prelude.Int.{ℤ, pos_part, neg_part, eq_of_parts}
use Prim.Native.Nat.{ℕ, ◌+◌, compare, Ordering}
use Prim.Native.String.{String, compare as compare_text}
use mathlib.Core.Path.{◌≡◌, refl, subst}
use mathlib.Core.Logic.{◌↔◌}
use mathlib.Core.Bool.{Bool, true, false, false≢true}
use mathlib.Core.Option.{Option, none, some}
use mathlib.Core.List.{List, [], ◌∷◌}
use native.Mathlib.Omega.{arith}
use text.Mathlib.TextEquality.{path_by_compare}
use text.Mathlib.TextPositions.{compare_refl}

-- Keys with a comparison that says `eq` of equal keys only.
pub record Key {ℓ} (K : Type ℓ) : Type ℓ where
  pub cmp : K → K → Ordering
  pub cmp_refl : (a : K) → cmp a a ≡ Ordering.eq
  pub cmp_path : (a b : K) → cmp a b ≡ Ordering.eq → a ≡ b

pub ℕ-cmp_refl : (a : ℕ) → compare a a ≡ Ordering.eq
ℕ-cmp_refl a = ground arith

pub ℕ-cmp_path : (a b : ℕ) → compare a b ≡ Ordering.eq → a ≡ b
ℕ-cmp_path a b h = ground arith

instance abbrev pub nat_key : Key ℕ
nat_key = record { cmp = compare; cmp_refl = ℕ-cmp_refl; cmp_path = ℕ-cmp_path }

instance abbrev pub text_key : Key String
text_key = record { cmp = compare_text; cmp_refl = compare_refl; cmp_path = path_by_compare }

unfoldable pub ℤ-cmp : ℤ → ℤ → Ordering
ℤ-cmp a b = compare (pos_part a + neg_part b) (pos_part b + neg_part a)

pub ℤ-cmp_refl : (a : ℤ) → ℤ-cmp a a ≡ Ordering.eq
unfolding ℤ-cmp
ℤ-cmp_refl a = ground arith

pub ℤ-cmp_path : (a b : ℤ) → ℤ-cmp a b ≡ Ordering.eq → a ≡ b
unfolding ℤ-cmp
ℤ-cmp_path a b h = eq_of_parts a b (ground arith)

instance abbrev pub int_key : Key ℤ
int_key = record { cmp = ℤ-cmp; cmp_refl = ℤ-cmp_refl; cmp_path = ℤ-cmp_path }

-- `==` on keys.
unfoldable pub same {ℓ} : {K : Type ℓ} ⦃o : Key K⦄ → K → K → Bool
same ⦃o⦄ a b = elim (o.cmp a b) [ Ordering.eq ↦ true | _ ↦ false ]

module _ {ℓ} {K : Type ℓ} ⦃o : Key K⦄ where
  pub same_refl : (a : K) → same a a ≡ true
  unfolding same
  same_refl a = ground (arith, o.cmp_refl a)

  pub same→eq : (a b : K) → same a b ≡ true → a ≡ b
  unfolding same
  same→eq a b h = ground (arith, o.cmp_path a b)

  pub same_iff : (a b : K) → (same a b ≡ true) ↔ (a ≡ b)
  same_iff a b = (same→eq a b, λ e. subst_same e)
    where
      subst_same : a ≡ b → same a b ≡ true
      subst_same e = rw (← e) (same_refl a)

abbrev pub OrdMap {ℓ κ} : Type ℓ → Type κ → Type (ℓ ⊔ κ)
OrdMap K V = List (K × V)

module _ {ℓ κ} {K : Type ℓ} {V : Type κ} ⦃o : Key K⦄ where
  -- `BTreeMap::get`
  unfoldable pub get : OrdMap K V → K → Option V
  get [] k = none
  get ((j, v) ∷ m) k = if same j k then some v else get m k

  -- `BTreeMap::contains_key`
  unfoldable pub contains_key : OrdMap K V → K → Bool
  contains_key m k = elim (get m k) [ none ↦ false | some _ ↦ true ]

  -- `BTreeMap::insert`: an entry of that key is replaced.
  unfoldable pub insert : OrdMap K V → K → V → OrdMap K V
  insert [] k v = (k, v) ∷ []
  insert ((j, w) ∷ m) k v =
      let rest = insert m k v in
      elim (o.cmp k j) [
        | Ordering.lt ↦ (k, v) ∷ (j, w) ∷ m
        | Ordering.eq ↦ (k, v) ∷ m
        | Ordering.gt ↦ (j, w) ∷ rest
      ]

  -- `BTreeMap::remove`
  unfoldable pub remove : OrdMap K V → K → OrdMap K V
  remove [] k = []
  remove ((j, w) ∷ m) k = let rest = remove m k in if same j k then rest else (j, w) ∷ rest

  -- A write through `BTreeMap::get_mut`: nothing happens on a missing key.
  unfoldable pub modify : OrdMap K V → K → (V → V) → OrdMap K V
  modify [] k f = []
  modify ((j, w) ∷ m) k f =
      let rest = modify m k f in if same j k then (j, f w) ∷ m else (j, w) ∷ rest

  pub get-insert :
      (m : OrdMap K V) (k j : K) (v : V)
      → get (insert m k v) j ≡ (if same k j then some v else get m j)
  unfolding get insert same
  get-insert [] k j v = refl
  get-insert ((i, w) ∷ m) k j v =
      ground (arith, get-insert m k j v, o.cmp_path k i, o.cmp_path i j, o.cmp_path k j)

  pub get-remove :
      (m : OrdMap K V) (k j : K) → get (remove m k) j ≡ (if same k j then none else get m j)
  unfolding get remove
  get-remove [] k j = ground arith
  get-remove ((i, w) ∷ m) k j =
      ground (arith, get-remove m k j, same_iff i k, same_iff i j, same_iff k j)

  pub get-modify :
      (m : OrdMap K V) (k j : K) (f : V → V)
      → get (modify m k f) j
        ≡ (if same k j then elim (get m j) [ none ↦ none | some v ↦ some (f v) ] else get m j)
  unfolding get modify
  get-modify [] k j f = ground arith
  get-modify ((i, w) ∷ m) k j f =
      ground (arith, get-modify m k j f, same_iff i k, same_iff i j, same_iff k j)

-- `entry(k).or_insert_with(d)`, then a write.
module _ {ℓ κ} {K : Type ℓ} {V : Type κ} ⦃o : Key K⦄ where
  unfoldable pub get_or : OrdMap K V → K → V → V
  get_or m k d = elim (get m k) [ none ↦ d | some v ↦ v ]

  unfoldable pub upsert : OrdMap K V → K → V → (V → V) → OrdMap K V
  upsert m k d f = insert m k (f (get_or m k d))

  pub get-upsert :
      (m : OrdMap K V) (k j : K) (d : V) (f : V → V)
      → get (upsert m k d f) j ≡ (if same k j then some (f (get_or m k d)) else get m j)
  get-upsert m k j d f = unfold upsert in get-insert m k j (f (get_or m k d))

  pub get_or-upsert :
      (m : OrdMap K V) (k j : K) (d : V) (f : V → V)
      → get_or (upsert m k d f) j d ≡ (if same k j then f (get_or m k d) else get_or m j d)
  unfolding get_or
  get_or-upsert m k j d f = rw (get-upsert m k j d f, get_or) (ground arith)

-- Every entry of a map is found under its key.
pub contains_key-All {ℓ κ} :
    {K : Type ℓ} {V : Type κ} ⦃o : Key K⦄ (m : OrdMap K V) → All (λ e. contains_key m e.0 ≡ true) m
unfolding contains_key get
contains_key-All [] = tt
contains_key-All ((k, v) ∷ m) = (
  ground (arith, same_refl k),
  All-weaken (λ e. contains_key m e.0 ≡ true) (λ e. contains_key ((k, v) ∷ m) e.0 ≡ true) m
      (λ e h. later e.0 h) (contains_key-All m),
)
  where
    later : (j : _) → contains_key m j ≡ true → contains_key ((k, v) ∷ m) j ≡ true
    later j h = ground (arith, h)

pub All-contains_key {ℓ κ ρ} :
    {K : Type ℓ} {V : Type κ} ⦃o : Key K⦄ (P : K → Type ρ) (m : OrdMap K V) (k : K)
    → All (λ e. P e.0) m
    → contains_key m k ≡ true
    → P k
unfolding contains_key get
All-contains_key P [] k h e = absurd (false≢true e)
All-contains_key P ((j, v) ∷ m) k h e = pick (same j k) refl (All-contains_key P m k h.1) e
  where
    pick :
        (b : Bool)
        → same j k ≡ b
        → (contains_key m k ≡ true → P k)
        → elim (if b then some v else get m k) as (λ _. Bool) [ none ↦ false | some _ ↦ true ]
          ≡ true
        → P k
    pick true s rest t = subst P (same→eq j k s) h.0
    pick false s rest t = rest t
