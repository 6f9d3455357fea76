-- ===== src/Auction/Rng.antt =====
-- `Rng` of crates/nocturnal-core/src/auction.rs: splitmix64. The state is the `u64` inside.
use nocturnal_discord.Prelude.{ℕ, zero, suc, ◌+◌, ◌*◌, ◌/◌, ◌%◌, ◌^◌, Option, none, some}
use Prim.Native.Nat.{bit_xor}

-- `z ^ (z >> k)`, then the wrapping product.
mix : ℕ → ℕ → ℕ → ℕ
mix z k m = (bit_xor z (z / 2 ^ k) * m) % 2 ^ 64

-- The state after one step.
unfoldable pub advance : ℕ → ℕ
advance s = (s + 0x9E3779B97F4A7C15) % 2 ^ 64

-- `next_u64`: the value that a step to state `s` gives.
unfoldable pub output : ℕ → ℕ
unfolding mix
output s = let z = mix (mix s 30 0xBF58476D1CE4E5B9) 27 0x94D049BB133111EB in bit_xor z (z / 2 ^ 31)

-- `below`: the draw and the next state.
unfoldable pub below : ℕ → ℕ → Option (ℕ × ℕ)
unfolding advance output
below zero s = none
below (suc n) s = let s' = advance s in some (output s' % suc n, s')

-- `d100`
unfoldable pub d100 : ℕ → ℕ × ℕ
unfolding advance output
d100 s = let s' = advance s in (output s' % 100 + 1, s')
