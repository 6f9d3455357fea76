-- ===== src/Auction/Field.antt =====
-- Rolls in falling order and the cut between them: `roll_winners` of crates/nocturnal-core/src/auction.rs.
use nocturnal_discord.Prelude.{
  ℕ, zero, suc, ◌+◌, ◌≤◌, ◌<◌, ◌≡◌, refl, Bool, some, List, [], ◌∷◌, arith, Bool-cases, inl, inr,
  leb,
}
use nocturnal_discord.Prelude.Lists.{length, get_elem?, take, sort_by, insert_by, length-sort_by}
use nocturnal_discord.Event.{Roll}
use nocturnal_discord.Auction.Rolls.{sort_rolls, players_of, above, tied_at}

-- No roll of the field is above `n`.
abbrev AllBelow : ℕ → List Roll → Type 0
AllBelow n [] = Unit
AllBelow n (r ∷ rs) = (r.roll ≤ n) × AllBelow n rs

-- Highest roll first.
abbrev pub Falling : List Roll → Type 0
Falling [] = Unit
Falling (r ∷ rs) = AllBelow r.roll rs × Falling rs

abbrev by_roll : Roll → Roll → Bool
by_roll a b = leb b.roll a.roll

AllBelow-le : (m n : ℕ) (rs : List Roll) → m ≤ n → AllBelow m rs → AllBelow n rs
AllBelow-le m n [] h v = tt
AllBelow-le m n (r ∷ rs) h v = (omega arith, AllBelow-le m n rs h v.1)

insert_by-AllBelow :
    (n : ℕ) (x : Roll) (rs : List Roll)
    → x.roll ≤ n
    → AllBelow n rs
    → AllBelow n (insert_by by_roll x rs)
unfolding insert_by
insert_by-AllBelow n x [] h v = (h, tt)
insert_by-AllBelow n x (r ∷ rs) h v = elim (Bool-cases (leb r.roll x.roll)) [
  | inl e ↦ rw e (h, v)
  | inr e ↦ rw e (v.0, insert_by-AllBelow n x rs h v.1)
]

insert_by-Falling : (x : Roll) (rs : List Roll) → Falling rs → Falling (insert_by by_roll x rs)
unfolding insert_by
insert_by-Falling x [] v = (tt, tt)
insert_by-Falling x (r ∷ rs) v = elim (Bool-cases (leb r.roll x.roll)) [
  | inl e ↦ rw e ((ground arith, AllBelow-le r.roll x.roll rs (ground arith) v.0), v)
  | inr e ↦ rw e (insert_by-AllBelow r.roll x rs (ground arith) v.0, insert_by-Falling x rs v.1)
]

pub sort_rolls-Falling : (rs : List Roll) → Falling (sort_rolls rs)
unfolding sort_rolls sort_by
sort_rolls-Falling [] = tt
sort_rolls-Falling (r ∷ rs) = insert_by-Falling r (sort_rolls rs) (sort_rolls-Falling rs)

pub length-sort_rolls : (rs : List Roll) → length (sort_rolls rs) ≡ length rs
unfolding sort_rolls
length-sort_rolls rs = length-sort_by by_roll rs

pub length-players_of : (rs : List Roll) → length (players_of rs) ≡ length rs
length-players_of [] = refl
length-players_of (r ∷ rs) = rw (length-players_of rs) refl

pub length-take-le : (n : ℕ) (rs : List Roll) → n ≤ length rs → length (take n rs) ≡ n
length-take-le zero rs h = refl
length-take-le (suc n) [] h = ground arith
length-take-le (suc n) (r ∷ rs) h = omega (arith, length-take-le n rs (omega arith))

above-AllBelow : (n : ℕ) (rs : List Roll) → AllBelow n rs → length (above n rs) ≡ 0
above-AllBelow n [] v = refl
above-AllBelow n (r ∷ rs) v = ground (arith, above-AllBelow n rs v.1)

-- The roll at a place of a falling field has no more rolls above it than stand before it.
pub above-le :
    (i : ℕ) (rs : List Roll) (c : Roll)
    → Falling rs
    → get_elem? rs i ≡ some c
    → length (above c.roll rs) ≤ i
above-le i [] c v e = ground arith
above-le zero (r ∷ rs) c v e =
    ground (arith, above-AllBelow c.roll rs (AllBelow-le r.roll c.roll rs (ground arith) v.0))
above-le (suc i) (r ∷ rs) c v e = ground (arith, above-le i rs c v.1 e)

AllBelow-get_elem? :
    (n i : ℕ) (rs : List Roll) (c : Roll) → AllBelow n rs → get_elem? rs i ≡ some c → c.roll ≤ n
AllBelow-get_elem? n i [] c v e = ground arith
AllBelow-get_elem? n zero (r ∷ rs) c v e = ground arith
AllBelow-get_elem? n (suc i) (r ∷ rs) c v e = AllBelow-get_elem? n i rs c v.1 e

-- The rolls at the cut or above it reach past the place of the cut.
pub cut-reach :
    (i : ℕ) (rs : List Roll) (c : Roll)
    → Falling rs
    → get_elem? rs i ≡ some c
    → i < length (above c.roll rs) + length (tied_at c.roll rs)
cut-reach i [] c v e = ground arith
cut-reach zero (r ∷ rs) c v e = ground arith
cut-reach (suc i) (r ∷ rs) c v e =
    let h = cut-reach i rs c v.1 e in
    let h' = AllBelow-get_elem? r.roll i rs c v.0 e in ground arith
