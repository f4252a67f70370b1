-- ===== src/Util/TokenBucket/Tests.antt =====
-- Concrete runs of util/TokenBucket.cc, and the theorems at concrete inputs.
use oasys.Base.{ℕ, ◌+◌, ◌-◌, ◌*◌, ◌^◌, ◌≤◌, ◌≡◌, refl, true, false, [], ◌∷◌, some, none, arith}
use oasys.Util.TokenBucket.{
  TokenBucket, new_bucket, elapsed, new_tokens, fill, update, take_out, drain, try_to_drain,
  time_to_level, time_to_fill,
}
use oasys.Util.TokenBucket.Level.{IsLevel}
use oasys.Util.TokenBucket.Rate.{run, run-bound}

program : Unit {0}
unfolding elapsed new_tokens fill update take_out drain try_to_drain time_to_level time_to_fill run
program = tt

-- 100 tokens, 50 in a second.
abbrev bucket : TokenBucket
bucket = new_bucket 100 50 0

abbrev low : TokenBucket
low = record bucket { tokens = 10 }

drained : drain 30 false 0 bucket ≡ some (true, record bucket { tokens = 70 })
unfolding program
drained = refl

not_enough :
    try_to_drain 30 100000 low ≡ some (false, record low { tokens = 15; last_update = 100000 })
unfolding program
not_enough = refl

until_full : time_to_fill 0 low ≡ some ((1, 800000), low)
unfolding program
until_full = refl

-- 30 tokens more than there are; then 20 ms bring one token, and with it 100.
overdrawn : drain 40 false 0 low ≡ some (false, record low { tokens = 2 ^ 64 - 30 })
unfolding program
overdrawn = refl

asserted : try_to_drain 1 0 (record low { tokens = 2 ^ 64 - 30 }) ≡ none
unfolding program
asserted = refl

low-IsLevel : IsLevel low
low-IsLevel = (omega arith, omega arith)

one_token : new_tokens 20000 (record low { tokens = 2 ^ 64 - 30 }) ≡ 1
unfolding program
one_token = refl

run-bound_example :
    (total : ℕ) × (b' : TokenBucket) × (run ((5, 20000) ∷ (30, 100000) ∷ []) low ≡ some (total, b'))
    × IsLevel b'
    × (1000000 * total + 50 * 0 ≤ 1000000 * 10 + 50 * 200000)
run-bound_example =
    run-bound 200000 ((5, 20000) ∷ (30, 100000) ∷ []) low low-IsLevel
      (omega arith, (omega arith, omega arith))
