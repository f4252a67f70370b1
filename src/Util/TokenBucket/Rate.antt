-- ===== src/Util/TokenBucket/Rate.antt =====
-- util/TokenBucket.cc: how much a sequence of calls takes out of the bucket.
use oasys.Base.{
  ℕ, ◌+◌, ◌-◌, ◌*◌, ◌≤◌, ◌≡◌, inl, inr, refl, ap, ◌∙◌, Bool, true, false, Option, none, some, leb,
  if◌then◌else◌, arith, Bool-cases, leb→le, List, [], ◌∷◌,
}
use native.Mathlib.Nat.{mul-le-mul_left, mul-add, mul_left_comm}
use oasys.Util.TokenBucket.{TokenBucket, elapsed, new_tokens, update, try_to_drain}
use oasys.Util.TokenBucket.Level.{IsLevel, update-Updated, update-IsLevel, try_to_drain-level}

elapsed-le : (now : ℕ) (b : TokenBucket) → 1000 * elapsed now b ≤ now - b.last_update
unfolding elapsed
elapsed-le now b = omega arith

new_tokens-le : (now : ℕ) (b : TokenBucket) → 1000 * new_tokens now b ≤ b.rate * elapsed now b
unfolding new_tokens
new_tokens-le now b = omega arith

-- New tokens come at no more than the rate.
new_tokens-rate :
    (now : ℕ) (b : TokenBucket)
    → b.last_update ≤ now
    → 1000000 * new_tokens now b + b.rate * b.last_update ≤ b.rate * now
new_tokens-rate now b h =
    let e = elapsed now b in
    let m : b.rate * (1000 * e + b.last_update) ≤ b.rate * now =
      mul-le-mul_left b.rate (omega (arith, elapsed-le now b, h)) in
    omega (
      arith,
      m,
      mul-add b.rate (1000 * e) b.last_update,
      mul_left_comm b.rate 1000 e,
      new_tokens-le now b,
    )

-- An update adds no more than the rate allows for the time that `last_update_` moves on.
update-rate :
    (now : ℕ) (b : TokenBucket)
    → IsLevel b
    → b.last_update ≤ now
    → (1000000 * (update now b).tokens + b.rate * b.last_update
        ≤ 1000000 * b.tokens + b.rate * (update now b).last_update)
      × ((update now b).last_update ≤ now)
update-rate now b l h =
    let u = update-Updated now b l in
    let r = new_tokens-rate now b h in
    let t : (update now b).tokens ≤ b.tokens + new_tokens now b = rw u.level (ground arith) in
    elim u.time [
      | inl e ↦ rw e (omega (arith, t, r), omega arith)
      | inr (e, z) ↦ rw e (omega (arith, t, z), h)
    ]

-- A sequence of calls of `try_to_drain`, each a length and its time: how much they take out, and the
-- bucket behind them.
abbrev pub add_drained : ℕ → Option (ℕ × TokenBucket) → Option (ℕ × TokenBucket)
add_drained n none = none
add_drained n (some (total, b)) = some (n + total, b)

unfoldable pub run : List (ℕ × ℕ) → TokenBucket → Option (ℕ × TokenBucket)
run [] b = some (0, b)
run ((length, now) ∷ calls) b = elim (try_to_drain length now b) [
  | none ↦ none
  | some (enough, b') ↦ add_drained (if enough then length else 0) (run calls b')
]

-- The clock does not go back.
abbrev pub Ordered : ℕ → List (ℕ × ℕ) → ℕ → Type 0
Ordered start [] end = start ≤ end
Ordered start ((length, now) ∷ calls) end = (start ≤ now) × Ordered now calls end

-- What one call takes out, and what it leaves.
try_to_drain-rate :
    (length now : ℕ) (b : TokenBucket)
    → IsLevel b
    → b.last_update ≤ now
    → (enough : Bool) × (b' : TokenBucket) × (try_to_drain length now b ≡ some (enough, b'))
      × IsLevel b'
      × (b'.rate ≡ b.rate)
      × (b'.last_update ≤ now)
      × (1000000 * ((if enough then length else 0) + b'.tokens) + b.rate * b.last_update
          ≤ 1000000 * b.tokens + b.rate * b'.last_update)
try_to_drain-rate length now b l h =
    let u = update now b in
    let (t, d) = update-IsLevel now b l in
    let (r, late) = update-rate now b l h in
    let same = (update-Updated now b l).same_rate in
    elim (Bool-cases (leb length u.tokens)) [
      | inl e ↦
          let k = leb→le length u.tokens e in
          (
            true,
            record u { tokens = u.tokens - length },
            try_to_drain-level length now b l ∙ rw e refl,
            (omega arith, d),
            same,
            late,
            omega (arith, r, k),
          )
      | inr e ↦ (
        false,
        u,
        try_to_drain-level length now b l ∙ rw e refl,
        (t, d),
        same,
        late,
        omega (arith, r),
      )
    ]

run-next :
    (length now : ℕ) (calls : List (ℕ × ℕ)) (b b' : TokenBucket) (enough : Bool)
    → try_to_drain length now b ≡ some (enough, b')
    → run ((length, now) ∷ calls) b ≡ add_drained (if enough then length else 0) (run calls b')
unfolding run
run-next length now calls b b' enough e = rw (run, e) refl

run-rate :
    (start end : ℕ) (calls : List (ℕ × ℕ)) (b : TokenBucket)
    → IsLevel b
    → b.last_update ≤ start
    → Ordered start calls end
    → (total : ℕ) × (b' : TokenBucket) × (run calls b ≡ some (total, b'))
      × IsLevel b'
      × (b'.last_update ≤ end)
      × (1000000 * (total + b'.tokens) + b.rate * b.last_update
          ≤ 1000000 * b.tokens + b.rate * b'.last_update)
unfolding run
run-rate start end [] b l h o = (0, b, refl, l, omega arith, omega arith)
run-rate start end ((length, now) ∷ calls) b l h (o, os) =
    let (enough, b1, e1, l1, r1, t1, k1) = try_to_drain-rate length now b l (omega arith) in
    let (total, b2, e2, l2, t2, k2) = run-rate now end calls b1 l1 t1 os in
    let n = if enough then length else 0 in
    let k : 1000000 * (total + b2.tokens) + b.rate * b1.last_update
        ≤ 1000000 * b1.tokens + b.rate * b2.last_update =
      rw r1 at k2 in
    (
      n + total,
      b2,
      run-next length now calls b b1 enough e1 ∙ ap (add_drained n) e2,
      l2,
      t2,
      omega (arith, k1, k),
    )

-- However often and for whatever lengths `try_to_drain` is called, from the last update of a bucket
-- that is not overdrawn to a time `end`, by a clock that does not go back, its assertion passes, and
-- the calls take out no more than the level at the beginning and the rate times the time that passed.
pub run-bound :
    (end : ℕ) (calls : List (ℕ × ℕ)) (b : TokenBucket)
    → IsLevel b
    → Ordered b.last_update calls end
    → (total : ℕ) × (b' : TokenBucket) × (run calls b ≡ some (total, b'))
      × IsLevel b'
      × (1000000 * total + b.rate * b.last_update ≤ 1000000 * b.tokens + b.rate * end)
run-bound end calls b l o =
    let (total, b', e, l', t, k) = run-rate b.last_update end calls b l (omega arith) o in
    (total, b', e, l', omega (arith, k, mul-le-mul_left b.rate t))
