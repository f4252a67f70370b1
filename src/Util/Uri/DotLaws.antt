-- ===== src/Util/Uri/DotLaws.antt =====
-- util/URI.cc: the loop of normalize_path ends.
use oasys.Base.{
  ℕ, zero, suc, ◌+◌, ◌-◌, ◌<◌, ◌≤◌, ◌≡◌, refl, Bool, true, ◌&&◌, ◌||◌, inl, inr, List, [], ◌∷◌,
  some, length, take, drop, arith, Bool-cases, ◌==◌, leb, length-drop, length-take, length-append,
}
use oasys.Util.Uri.Types.{char_at}
use oasys.Util.Uri.Dots.{dot_prefix, last_slash, erase, resolve_dot, resolve_dots}

dot_prefix-le : (s : List ℕ) → dot_prefix s ≤ length s
unfolding dot_prefix
dot_prefix-le [] = omega arith
dot_prefix-le (c ∷ cs) = ground (arith, dot_prefix-le cs)

-- A dot that is found has a slash behind it.
pub dot_prefix-lt : (s : List ℕ) → dot_prefix s < length s → dot_prefix s + 1 < length s
unfolding dot_prefix char_at
dot_prefix-lt [] h = absurd (omega arith)
dot_prefix-lt (c ∷ []) h = ground arith
dot_prefix-lt (c ∷ d ∷ cs) h = ground (arith, h, dot_prefix-lt (d ∷ cs))

last_slash-le : (i found : ℕ) (s : List ℕ) → found ≤ i → last_slash i found s ≤ i + length s
unfolding last_slash
last_slash-le i found [] h = omega arith
last_slash-le i found (c ∷ cs) h = elim (Bool-cases (c == b'/')) [
  | inl e ↦ rw e (omega (arith, last_slash-le (i + 1) i cs (omega arith)))
  | inr e ↦ rw e (omega (arith, last_slash-le (i + 1) found cs (omega arith)))
]

length-erase : (s : List ℕ) (i n : ℕ) → i + n ≤ length s → length (erase s i n) ≡ length s - n
length-erase s i n h =
    grind (arith, length-append (take i s) (drop (i + n) s), length-take i s, length-drop (i + n) s)

pub prev_seg-le : (n : ℕ) (s : List ℕ) → n ≤ length s → last_slash 0 0 (take n s) ≤ n
prev_seg-le n s h = grind (arith, last_slash-le 0 0 (take n s) (omega arith), length-take n s)

-- Each turn leaves less of the path behind the checkpoint, and no longer a path.
pub resolve_dot-lt :
    (checkpoint dot : ℕ) (s : List ℕ)
    → checkpoint ≤ dot
    → dot + 1 < length s
    → (length (resolve_dot checkpoint dot s).1 - (resolve_dot checkpoint dot s).0
        < length s - checkpoint)
      × (length (resolve_dot checkpoint dot s).1 ≤ length s)
unfolding resolve_dot
resolve_dot-lt checkpoint dot s h found =
    let prev = last_slash 0 0 (take (dot - 2) s) in
    let p = prev_seg-le (dot - 2) s (omega arith) in
    let e2 = length-erase s dot 2 (omega arith) in
    elim (Bool-cases (dot == 0 || char_at s (dot - 1) == b'/')) [
      | inl a ↦ rw a (omega (arith, e2), omega (arith, e2))
      | inr a ↦ elim (Bool-cases (char_at s (dot - 1) == b'.' && dot == 1)) [
        | inl b ↦
            let e3 = length-erase s (dot - 1) 3 (ground (arith, b)) in
            rw (a, b) (ground (arith, e3, b), omega (arith, e3))
        | inr b ↦ elim (Bool-cases (char_at s (dot - 1) == b'.' && char_at s (dot - 2) == b'/')) [
          | inr c ↦ rw (a, b, c) (omega arith, omega arith)
          | inl c ↦ elim (Bool-cases (dot == 2)) [
            | inl d ↦
                let e3 = length-erase s (dot - 1) 3 (ground (arith, d)) in
                rw (a, b, c, d) (ground (arith, e3), omega (arith, e3))
            | inr d ↦
                let e = length-erase s prev (dot + 1 - prev) (omega (arith, p)) in
                rw (a, b, c, d) (ground (arith, e, p, a), omega (arith, e))
          ]
        ]
      ]
    ]

-- The loop that resolves the dot segments of a path ends: as many turns as the path has
-- characters behind the checkpoint, and one, are enough. The path that it gives is not longer.
pub resolve_dots-total :
    (fuel checkpoint : ℕ) (modified : Bool) (s : List ℕ)
    → length s - checkpoint < fuel
    → (r : Bool × List ℕ) × (resolve_dots fuel checkpoint modified s ≡ some r)
      × (length r.1 ≤ length s)
unfolding resolve_dots
resolve_dots-total zero checkpoint modified s h = absurd (omega arith)
resolve_dots-total (suc fuel) checkpoint modified s h =
    let rest = drop checkpoint s in
    let dot = checkpoint + dot_prefix rest in
    let lr = length-drop checkpoint s in
    elim (Bool-cases (leb (length s) dot)) [
      | inl e ↦ ((modified, s), rw e refl, omega arith)
      | inr e ↦
          let found : dot + 1 < length s = ground (arith, e, lr, dot_prefix-lt rest) in
          let (shorter, le) = resolve_dot-lt checkpoint dot s (omega arith) found in
          let (r, eq, le') =
            resolve_dots-total fuel (resolve_dot checkpoint dot s).0 true
              (resolve_dot checkpoint dot s).1 (omega (arith, shorter)) in
          (r, rw e eq, omega (arith, le, le'))
    ]
