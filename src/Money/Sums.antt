-- ===== src/Money/Sums.antt =====
-- Balances against logs: apply.rs of crates/nocturnal-core/src.
use nocturnal_discord.Prelude.{◌≡◌, refl, Option, List, [], ◌∷◌, ◌++◌, map, arith, String}
use nocturnal_discord.Prelude.Int.{ℤ, pos, ◌+ℤ◌, ◌-ℤ◌, wrap_i64, add_i64, sub_i64, neg_i64}
use nocturnal_discord.Event.{RaidRef, Item}
use nocturnal_discord.State.{Player, LogEntry}
use nocturnal_discord.Apply.Raids.{post, relabel, rename_line}
use nocturnal_discord.Apply.Auctions.{charge}
use mathlib.Core.List.{foldl, foldl-append}

-- The DKP of a log, added up line by line as `i64`.
abbrev add_line : ℤ → LogEntry → ℤ
add_line total e = add_i64 total e.dkp

unfoldable pub log_sum : List LogEntry → ℤ
log_sum = foldl add_line (pos 0)

pub log_sum-append :
    (log : List LogEntry) (e : LogEntry) → log_sum (log ++ e ∷ []) ≡ add_i64 (log_sum log) e.dkp
unfolding log_sum
log_sum-append log e = rw foldl-append

-- The balance is what the log says.
abbrev pub Booked : Player → Type 0
Booked q = q.balance ≡ log_sum q.log

sub-eq-add_neg : (a c : ℤ) → sub_i64 a c ≡ add_i64 a (neg_i64 c)
unfolding sub_i64 add_i64 neg_i64 wrap_i64 ◌+ℤ◌ ◌-ℤ◌
sub-eq-add_neg a c = ground arith

pub post-Booked : (e : LogEntry) (q : Player) → Booked q → Booked (post e q)
unfolding post
post-Booked e q h = rw (log_sum-append q.log e, h)

-- A line that keeps its DKP keeps the sum.
log_sum_from-map :
    (f : LogEntry → LogEntry)
    → ((e : LogEntry) → (f e).dkp ≡ e.dkp)
    → (log : List LogEntry) (total : ℤ)
    → foldl add_line total (map f log) ≡ foldl add_line total log
log_sum_from-map f h [] total = refl
log_sum_from-map f h (e ∷ log) total = rw (h e) (log_sum_from-map f h log (add_i64 total e.dkp))

pub log_sum-map :
    (f : LogEntry → LogEntry)
    → ((e : LogEntry) → (f e).dkp ≡ e.dkp)
    → (log : List LogEntry) → log_sum (map f log) ≡ log_sum log
unfolding log_sum
log_sum-map f h log = log_sum_from-map f h log (pos 0)

pub dkp-relabel : (id : String) (re : RaidRef) (e : LogEntry) → (relabel id re e).dkp ≡ e.dkp
unfolding relabel
dkp-relabel id re e = ground arith

pub dkp-rename_line : (id name : String) (e : LogEntry) → (rename_line id name e).dkp ≡ e.dkp
unfolding rename_line
dkp-rename_line id name e = ground arith

pub charge-Booked :
    (c : ℤ) (comment : String) (ts : ℤ) (raid : Option RaidRef) (item : Option Item) (q : Player)
    → Booked q
    → Booked (charge c comment ts raid item q)
unfolding charge
charge-Booked c comment ts raid item q h =
    rw (log_sum-append q.log _, ← h) (sub-eq-add_neg q.balance c)
