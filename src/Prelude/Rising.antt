-- ===== src/Prelude/Rising.antt =====
-- The order of the keys of a map, and maps rebuilt by inserting their entries in that order.
pub mod Kept
use nocturnal_discord.Prelude.Lists.{All, any}
use nocturnal_discord.Prelude.OrdMap.{OrdMap, insert, contains_key, get-insert, same, text_key}
use Prim.Native.Nat.{Ordering, compare as compare_nat}
use Prim.Native.String.{String, compare, then}
use Prim.Native.String.compare as Clauses
use Prim.Native.Char.{Char, code}
use mathlib.Core.Path.{◌≡◌, refl, sym, ap, subst, ◌∙◌}
use mathlib.Core.Bool.{◌||◌}
use mathlib.Core.List.{List, [], ◌∷◌, ◌++◌, append_assoc, append-nil}
use native.Mathlib.Omega.{arith}
use text.Mathlib.TextEquality.{path_by_compare}

cons_lt :
    (x y : Char) (a b : String)
    → compare (String.◌∷◌ x a) (String.◌∷◌ y b) ≡ Ordering.lt
    → then (compare_nat (code x) (code y)) (compare a b) ≡ Ordering.lt
cons_lt x y a b h = sym (Clauses.cons-cons x y a b) ∙ h

compare_trans :
    (a b c : String)
    → compare a b ≡ Ordering.lt
    → compare b c ≡ Ordering.lt
    → compare a c ≡ Ordering.lt
compare_trans String.[] String.[] c h k = k
compare_trans String.[] (String.◌∷◌ y b) String.[] h k = ground (arith, k, Clauses.cons-nil y b)
compare_trans String.[] (String.◌∷◌ y b) (String.◌∷◌ z c) h k = Clauses.nil-cons z c
compare_trans (String.◌∷◌ x a) String.[] c h k = ground (arith, h, Clauses.cons-nil x a)
compare_trans (String.◌∷◌ x a) (String.◌∷◌ y b) String.[] h k =
    ground (arith, k, Clauses.cons-nil y b)
compare_trans (String.◌∷◌ x a) (String.◌∷◌ y b) (String.◌∷◌ z c) h k =
    Clauses.cons-cons x z a c
    ∙ ground (arith, cons_lt x y a b h, cons_lt y z b c k, compare_trans a b c)

compare-flip : (a b : String) → compare a b ≡ Ordering.gt → compare b a ≡ Ordering.lt
compare-flip String.[] String.[] h = ground (arith, h)
compare-flip String.[] (String.◌∷◌ y b) h = ground (arith, h, Clauses.nil-cons y b)
compare-flip (String.◌∷◌ x a) String.[] h = Clauses.nil-cons x a
compare-flip (String.◌∷◌ x a) (String.◌∷◌ y b) h =
    Clauses.cons-cons y x b a
    ∙ ground (arith, sym (Clauses.cons-cons x y a b) ∙ h, compare-flip a b)

pub compare-after : (a b : String) → compare a b ≡ Ordering.lt → compare b a ≡ Ordering.gt
compare-after String.[] String.[] h = ground (arith, h)
compare-after String.[] (String.◌∷◌ y b) h = Clauses.cons-nil y b
compare-after (String.◌∷◌ x a) String.[] h = ground (arith, h, Clauses.cons-nil x a)
compare-after (String.◌∷◌ x a) (String.◌∷◌ y b) h =
    Clauses.cons-cons y x b a ∙ ground (arith, cons_lt x y a b h, compare-after a b)

module _ {κ} {V : Type κ} where
  -- Each key of the map comes after the one given.
  abbrev pub Above : String → OrdMap String V → Type 0
  Above k m = All (λ e. compare k e.0 ≡ Ordering.lt) m

  -- The keys come in their order, none twice.
  abbrev pub Rising : OrdMap String V → Type 0
  Rising [] = Unit
  Rising (e ∷ m) = Above e.0 m × Rising m

  Above-lt :
      (i j : String) (m : OrdMap String V) → compare i j ≡ Ordering.lt → Above j m → Above i m
  Above-lt i j [] h k = tt
  Above-lt i j (e ∷ m) h k = (compare_trans i j e.0 h k.0, Above-lt i j m h k.1)

  pub All-insert {ℓ} :
      (P : (String × V) → Type ℓ) (m : OrdMap String V) (k : String) (v : V)
      → P (k, v)
      → All P m
      → All P (insert m k v)
  unfolding insert
  All-insert P [] k v p h = (p, tt)
  All-insert P ((j, w) ∷ m) k v p h = pick (compare k j) (All-insert P m k v p h.1)
    where
      pick :
          (o : Ordering)
          → All P (insert m k v)
          → All P (elim o [
            | Ordering.lt ↦ (k, v) ∷ (j, w) ∷ m
            | Ordering.eq ↦ (k, v) ∷ m
            | Ordering.gt ↦ (j, w) ∷ insert m k v
          ])
      pick Ordering.lt rest = (p, h)
      pick Ordering.eq rest = (p, h.1)
      pick Ordering.gt rest = (h.0, rest)

  pub insert-Rising : (m : OrdMap String V) (k : String) (v : V) → Rising m → Rising (insert m k v)
  unfolding insert
  insert-Rising [] k v h = (tt, tt)
  insert-Rising ((j, w) ∷ m) k v h = pick (compare k j) refl (insert-Rising m k v h.1)
    where
      pick :
          (o : Ordering)
          → compare k j ≡ o
          → Rising (insert m k v)
          → Rising (elim o [
            | Ordering.lt ↦ (k, v) ∷ (j, w) ∷ m
            | Ordering.eq ↦ (k, v) ∷ m
            | Ordering.gt ↦ (j, w) ∷ insert m k v
          ])
      pick Ordering.lt e rest = ((e, Above-lt k j m e h.0), h)
      pick Ordering.eq e rest = (subst (λ i. Above i m) (sym (path_by_compare k j e)) h.0, h.1)
      pick Ordering.gt e rest =
          (All-insert (λ x. compare j x.0 ≡ Ordering.lt) m k v (compare-flip k j e) h.0, rest)

  -- Entries inserted one after the other.
  unfoldable pub insert_all : OrdMap String V → List (String × V) → OrdMap String V
  insert_all m [] = m
  insert_all m (e ∷ es) = insert_all (insert m e.0 e.1) es

  insert-last :
      (m es : OrdMap String V) (k : String) (v : V)
      → Rising (m ++ (k, v) ∷ es)
      → insert m k v ≡ m ++ (k, v) ∷ []
  unfolding insert
  insert-last [] es k v h = refl
  insert-last ((j, w) ∷ m) es k v h =
      rw (insert, compare-after j k (before m h.0))
        (ap (λ r. (j, w) ∷ r) (insert-last m es k v h.1))
    where
      before : (n : OrdMap String V) → Above j (n ++ (k, v) ∷ es) → compare j k ≡ Ordering.lt
      before [] b = b.0
      before (e ∷ n) b = before n b.1

  -- A map in order is rebuilt by inserting its entries, in its order, after what comes before them.
  pub insert_all_self : (m es : OrdMap String V) → Rising (m ++ es) → insert_all m es ≡ m ++ es
  unfolding insert_all
  insert_all_self m [] h = sym (append-nil m)
  insert_all_self m (e ∷ es) h =
      rw (insert-last m es e.0 e.1 h)
        (insert_all_self (m ++ e ∷ []) es (subst Rising (sym split) h) ∙ split)
    where
      split : (m ++ e ∷ []) ++ es ≡ m ++ e ∷ es
      split = append_assoc m (e ∷ []) es

  pub insert_all-append :
      (m : OrdMap String V) (xs ys : List (String × V))
      → insert_all m (xs ++ ys) ≡ insert_all (insert_all m xs) ys
  unfolding insert_all
  insert_all-append m [] ys = refl
  insert_all-append m (x ∷ xs) ys = insert_all-append (insert m x.0 x.1) xs ys

  pub insert_all-Rising :
      (m : OrdMap String V) (es : List (String × V)) → Rising m → Rising (insert_all m es)
  unfolding insert_all
  insert_all-Rising m [] h = h
  insert_all-Rising m (e ∷ es) h =
      insert_all-Rising (insert m e.0 e.1) es (insert-Rising m e.0 e.1 h)

  pub insert_all-All {ℓ} :
      (P : (String × V) → Type ℓ) (m : OrdMap String V) (es : List (String × V))
      → All P m
      → All P es
      → All P (insert_all m es)
  unfolding insert_all
  insert_all-All P m [] h k = h
  insert_all-All P m (e ∷ es) h k =
      insert_all-All P (insert m e.0 e.1) es (All-insert P m e.0 e.1 k.0 h) k.1

  pub contains_key-insert_all :
      (m : OrdMap String V) (es : List (String × V)) (k : String)
      → contains_key (insert_all m es) k ≡ (contains_key m k || any (λ e. same e.0 k) es)
  unfolding insert_all contains_key
  contains_key-insert_all m [] k = ground arith
  contains_key-insert_all m (e ∷ es) k =
      ground (arith, contains_key-insert_all (insert m e.0 e.1) es k, get-insert m e.0 k e.1)
