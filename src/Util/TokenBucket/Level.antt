-- ===== src/Util/TokenBucket/Level.antt =====
-- util/TokenBucket.cc: the level of the bucket.
use oasys.Base.{
  ℕ, ◌+◌, ◌-◌, ◌^◌, ◌<◌, ◌≤◌, ◌≡◌, ◌⊎◌, inl, inr, refl, true, false, some, leb, ◌==◌, if◌then◌else◌,
  arith, Bool-cases,
}
use oasys.Util.TokenBucket.{
  u64_mod, TokenBucket, new_tokens, fill, update, take_out, drain, try_to_drain,
}

-- The level is no more than the depth, which is a positive int64_t.
abbrev pub IsLevel : TokenBucket → Type 0
IsLevel b = (b.tokens ≤ b.depth) × (b.depth < 2 ^ 63)

pub new_tokens-bound : (now : ℕ) (b : TokenBucket) → new_tokens now b < 2 ^ 63
unfolding new_tokens
new_tokens-bound now b = omega arith

-- The lower of two numbers.
abbrev pub lower : ℕ → ℕ → ℕ
lower a b = if leb a b then a else b

-- The bucket behind an update, by what it has of new tokens.
pub record Updated (new now : ℕ) (b b' : TokenBucket) : Type 0 where
  pub level : b'.tokens ≡ lower b.depth (b.tokens + new)
  pub same_depth : b'.depth ≡ b.depth
  pub same_rate : b'.rate ≡ b.rate
  pub time : (b'.last_update ≡ now) ⊎ ((b'.last_update ≡ b.last_update) × (new ≡ 0))

fill-Updated :
    (new now : ℕ) (b : TokenBucket) → IsLevel b → new < 2 ^ 63 → Updated new now b (fill new now b)
unfolding fill
fill-Updated new now b (l, d) h = elim (Bool-cases (new == 0)) [
  | inl z ↦
      let e : new ≡ 0 = ground (arith, z) in
      rw z (record {
        level = ground (arith, z);
        same_depth = refl;
        same_rate = refl;
        time = inr (refl, e);
      })
  | inr z ↦
      rw z
        (record { level = ground (arith, z); same_depth = refl; same_rate = refl; time = inl refl })
]

-- A level that is not negative rises by the new tokens, up to the depth; the depth and the rate
-- stay, and the time of the last update also where there is no new token.
pub update-Updated :
    (now : ℕ) (b : TokenBucket) → IsLevel b → Updated (new_tokens now b) now b (update now b)
unfolding update
update-Updated now b l = elim (Bool-cases (b.tokens == b.depth)) [
  | inl e ↦
      rw e
        (record { level = ground (arith, e); same_depth = refl; same_rate = refl; time = inl refl })
  | inr e ↦ rw e (fill-Updated (new_tokens now b) now b l (new_tokens-bound now b))
]

pub update-IsLevel : (now : ℕ) (b : TokenBucket) → IsLevel b → IsLevel (update now b)
update-IsLevel now b (l, d) =
    let u = update-Updated now b (l, d) in rw (u.level, u.same_depth) (ground arith, d)

-- try_to_drain passes its assertion; it takes `length` tokens out of the bucket if that many are in
-- it after the update, and none otherwise.
pub try_to_drain-level :
    (length now : ℕ) (b : TokenBucket)
    → IsLevel b
    → try_to_drain length now b ≡ (
        let b' = update now b in
        if leb length b'.tokens
        then some (true, record b' { tokens = b'.tokens - length })
        else some (false, b'))
unfolding try_to_drain drain take_out
try_to_drain-level length now b l = let (t, d) = update-IsLevel now b l in ground arith

-- After a forced drain the level can be negative; then the next update that brings any new token
-- fills the whole bucket, because the sum with the new tokens is compared as an unsigned number.
pub update-negative :
    (now : ℕ) (b : TokenBucket)
    → 2 ^ 63 ≤ b.tokens
    → b.tokens + new_tokens now b < u64_mod
    → b.depth < 2 ^ 63
    → 0 < new_tokens now b
    → (update now b).tokens ≡ b.depth
unfolding update fill
update-negative now b n w d p = ground arith
