-- ===== src/Prelude/Rising/Kept.antt =====
-- Removals and writes keep the keys of a map in their order, and so does a map of its values.
use nocturnal_discord.Prelude.Tests.{if◌then◌else◌}
use nocturnal_discord.Prelude.OrdMap.{OrdMap, remove, modify, get, contains_key, same, text_key}
use nocturnal_discord.Prelude.Rising.{Rising, Above}
use Prim.Native.String.{String}
use mathlib.Core.Path.{◌≡◌, refl}
use mathlib.Core.Bool.{Bool, true, false}
use mathlib.Core.List.{[], ◌∷◌, map}
use native.Mathlib.Omega.{arith}

module _ {κ} {V : Type κ} where
  Above-remove : (i : String) (m : OrdMap String V) (k : String) → Above i m → Above i (remove m k)
  unfolding remove
  Above-remove i [] k h = tt
  Above-remove i ((j, w) ∷ m) k h = pick (same j k) (Above-remove i m k h.1)
    where
      pick :
          (b : Bool)
          → Above i (remove m k)
          → Above i (if b then remove m k else (j, w) ∷ remove m k)
      pick true rest = rest
      pick false rest = (h.0, rest)

  pub remove-Rising : (m : OrdMap String V) (k : String) → Rising m → Rising (remove m k)
  unfolding remove
  remove-Rising [] k h = tt
  remove-Rising ((j, w) ∷ m) k h = pick (same j k) (remove-Rising m k h.1)
    where
      pick :
          (b : Bool) → Rising (remove m k) → Rising (if b then remove m k else (j, w) ∷ remove m k)
      pick true rest = rest
      pick false rest = (Above-remove j m k h.0, rest)

  Above-modify :
      (i : String) (m : OrdMap String V) (k : String) (f : V → V)
      → Above i m
      → Above i (modify m k f)
  unfolding modify
  Above-modify i [] k f h = tt
  Above-modify i ((j, w) ∷ m) k f h = pick (same j k) (Above-modify i m k f h.1)
    where
      pick :
          (b : Bool)
          → Above i (modify m k f)
          → Above i (if b then (j, f w) ∷ m else (j, w) ∷ modify m k f)
      pick true rest = h
      pick false rest = (h.0, rest)

  pub modify-Rising :
      (m : OrdMap String V) (k : String) (f : V → V) → Rising m → Rising (modify m k f)
  unfolding modify
  modify-Rising [] k f h = tt
  modify-Rising ((j, w) ∷ m) k f h = pick (same j k) (modify-Rising m k f h.1)
    where
      pick :
          (b : Bool)
          → Rising (modify m k f)
          → Rising (if b then (j, f w) ∷ m else (j, w) ∷ modify m k f)
      pick true rest = h
      pick false rest = (Above-modify j m k f h.0, rest)

module _ {κ ρ} {V : Type κ} {W : Type ρ} (f : V → W) where
  -- The map of the values.
  abbrev pub with_values : OrdMap String V → OrdMap String W
  with_values = map (λ e. (e.0, f e.1))

  Above-with_values : (i : String) (m : OrdMap String V) → Above i m → Above i (with_values m)
  Above-with_values i [] h = tt
  Above-with_values i (e ∷ m) h = (h.0, Above-with_values i m h.1)

  pub Rising-with_values : (m : OrdMap String V) → Rising m → Rising (with_values m)
  Rising-with_values [] h = tt
  Rising-with_values (e ∷ m) h = (Above-with_values e.0 m h.0, Rising-with_values m h.1)

  pub contains_key-with_values :
      (m : OrdMap String V) (k : String) → contains_key (with_values m) k ≡ contains_key m k
  unfolding contains_key get
  contains_key-with_values [] k = refl
  contains_key-with_values (e ∷ m) k = ground (arith, contains_key-with_values m k)
