-- ===== src/Util/TokenBucket.antt =====
-- util/TokenBucket.cc. `tokens_`, an int64_t, is its 64 bits as an unsigned number, which is what the
-- source computes with; it is negative from 2^63 on. A time is in microseconds, and each call gets
-- the time that its `update` reads. An assertion that fails is `none`.
pub mod Level
pub mod Rate
mod Tests
use oasys.Base.{
  ℕ, ◌+◌, ◌-◌, ◌*◌, ◌/◌, ◌%◌, ◌^◌, Bool, true, false, not, ◌&&◌, ◌||◌, Option, none, some, ltb, leb,
  ◌==◌, if◌then◌else◌,
}

abbrev pub u64_mod : ℕ
u64_mod = 2 ^ 64

pub record TokenBucket : Type 0 where
  pub depth : ℕ
  pub rate : ℕ
  pub tokens : ℕ
  pub last_update : ℕ

-- The constructor: the bucket is full.
abbrev pub new_bucket : ℕ → ℕ → ℕ → TokenBucket
new_bucket depth rate now = record { depth = depth; rate = rate; tokens = depth; last_update = now }

abbrev pub is_negative : ℕ → Bool
is_negative tokens = leb (2 ^ 63) tokens

-- `(now - last_update_).in_milliseconds()`, for a clock that does not go back.
unfoldable pub elapsed : ℕ → TokenBucket → ℕ
elapsed now b = ((now - b.last_update) / 1000) % 2 ^ 32

unfoldable pub new_tokens : ℕ → TokenBucket → ℕ
new_tokens now b = ((b.rate * elapsed now b) % u64_mod) / 1000

unfoldable pub fill : ℕ → ℕ → TokenBucket → TokenBucket
fill new now b = if new == 0 then b else record b {
  tokens =
      (b.tokens
        + (if ltb b.depth ((b.tokens + new) % u64_mod)
            then (b.depth + u64_mod - b.tokens) % u64_mod
            else new))
      % u64_mod;
  last_update = now;
}

unfoldable pub update : ℕ → TokenBucket → TokenBucket
update now b =
    if b.tokens == b.depth then record b { last_update = now } else fill (new_tokens now b) now b

-- The rest of `drain`, with the bucket that `update` leaves.
unfoldable pub take_out : ℕ → Bool → TokenBucket → Option (Bool × TokenBucket)
take_out length only_if_enough b =
    let enough = not (is_negative b.tokens) && leb length b.tokens in
    let tokens =
      if enough || not only_if_enough then (b.tokens + u64_mod - length) % u64_mod else b.tokens in
    if only_if_enough && is_negative tokens
    then none
    else some (enough, record b { tokens = tokens })

unfoldable pub drain : ℕ → Bool → ℕ → TokenBucket → Option (Bool × TokenBucket)
drain length only_if_enough now b = take_out length only_if_enough (update now b)

unfoldable pub try_to_drain : ℕ → ℕ → TokenBucket → Option (Bool × TokenBucket)
try_to_drain length now b = drain length true now b

abbrev pub set_depth : ℕ → ℕ → TokenBucket → TokenBucket
set_depth depth now b = update now (record b { depth = depth })

abbrev pub set_rate : ℕ → ℕ → TokenBucket → TokenBucket
set_rate rate now b = update now (record b { rate = rate })

abbrev pub empty_bucket : ℕ → TokenBucket → TokenBucket
empty_bucket now b = record b { tokens = 0; last_update = now }

-- Two int64_t compared by their 64 bits.
abbrev pub signed_ltb : ℕ → ℕ → Bool
signed_ltb m n = ltb ((m + 2 ^ 63) % u64_mod) ((n + 2 ^ 63) % u64_mod)

-- The seconds and microseconds until the level is `n`; a rate of 0 divides by 0, which is `none`.
unfoldable pub time_to_level : ℕ → ℕ → TokenBucket → Option ((ℕ × ℕ) × TokenBucket)
time_to_level n now b =
    let b' = update now b in
    let need = if signed_ltb b'.tokens n then (n + u64_mod - b'.tokens) % u64_mod else 0 in
    if b'.rate == 0
    then none
    else some (((need / b'.rate) % 2 ^ 32, (((need * 1000000) % u64_mod) / b'.rate) % 1000000), b')

unfoldable pub time_to_fill : ℕ → TokenBucket → Option ((ℕ × ℕ) × TokenBucket)
time_to_fill now b = time_to_level b.depth now b
