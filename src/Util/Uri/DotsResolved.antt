-- ===== src/Util/Uri/DotsResolved.antt =====
-- util/URI.cc: the loop of normalize_path leaves no dot segment that a slash ends.
use oasys.Base.{
  ℕ, zero, suc, ◌+◌, ◌-◌, ◌<◌, ◌≤◌, ◌≡◌, refl, ap, ◌∙◌, sym, Bool, true, false, ◌&&◌, inl, inr,
  List, some, length, drop, arith, Bool-cases, ◌==◌, leb, length-drop,
}
use oasys.Util.Uri.Types.{char_at}
use oasys.Util.Uri.Search.{char_at-drop}
use oasys.Util.Uri.Dots.{dot_prefix, resolve_dot, resolve_dots}
use oasys.Util.Uri.DotLaws.{dot_prefix-lt, resolve_dot-lt}
use oasys.Util.Uri.DotSegments.{
  is_dots, IsResolved, IsResolvedTo, char_at_end, dot_prefix-char_at, dot_prefix_first, no_slash,
}
use oasys.Util.Uri.DotTurns.{resolve_dot-IsResolvedTo}

first_from :
    (checkpoint : ℕ) (s : List ℕ) (i : ℕ)
    → checkpoint ≤ i
    → i < checkpoint + dot_prefix (drop checkpoint s)
    → (char_at s i == b'.' && char_at s (i + 1) == b'/') ≡ false
first_from checkpoint s i l u =
    let rest = drop checkpoint s in
    let j = i - checkpoint in
    let at : char_at s i ≡ char_at rest j =
      ap (char_at s) (omega arith) ∙ sym (char_at-drop s checkpoint j) in
    let next : char_at s (i + 1) ≡ char_at rest (j + 1) =
      ap (char_at s) (omega arith) ∙ sym (char_at-drop s checkpoint (j + 1)) in
    rw (at, next) (dot_prefix_first rest j (omega arith))

nothing_there : (s : List ℕ) (i : ℕ) → char_at s i ≡ 0 → is_dots i s ≡ false
unfolding is_dots
nothing_there s i e = rw e refl

-- Where there is no further "./", the whole path is resolved.
rest-IsResolved :
    (checkpoint : ℕ) (s : List ℕ)
    → ((i : ℕ) → i < checkpoint → is_dots i s ≡ false)
    → length s ≤ checkpoint + dot_prefix (drop checkpoint s)
    → IsResolved s
rest-IsResolved checkpoint s done last i = elim (Bool-cases (leb (length s) i)) [
  | inl e ↦ nothing_there s i (char_at_end s i (ground (arith, e)))
  | inr e ↦ elim (Bool-cases (leb checkpoint i)) [
    | inl f ↦ no_slash s i (first_from checkpoint s i (ground (arith, f)) (ground (arith, e, last)))
    | inr f ↦ done i (ground (arith, f))
  ]
]

resolve_dots_from :
    (fuel checkpoint : ℕ) (modified : Bool) (s : List ℕ)
    → length s - checkpoint < fuel
    → IsResolvedTo checkpoint s
    → (r : Bool × List ℕ) × (resolve_dots fuel checkpoint modified s ≡ some r) × IsResolved r.1
unfolding resolve_dots
resolve_dots_from zero checkpoint modified s h inv = absurd (omega arith)
resolve_dots_from (suc fuel) checkpoint modified s h inv =
    let rest = drop checkpoint s in
    let k = dot_prefix rest in
    let dot = checkpoint + k in
    let lr = length-drop checkpoint s in
    let first = first_from checkpoint s in
    elim (Bool-cases (leb (length s) dot)) [
      | inl e ↦
          ((modified, s), rw e refl, λ i. rest-IsResolved checkpoint s inv.0 (ground (arith, e)) i)
      | inr e ↦
          let in_rest : k < length rest = ground (arith, e, lr) in
          let found : dot + 1 < length s = omega (arith, in_rest, lr, dot_prefix-lt rest in_rest) in
          let (d, sl) = dot_prefix-char_at rest in_rest in
          let dot_at : char_at s dot ≡ b'.' = sym (char_at-drop s checkpoint k) ∙ d in
          let slash_at : char_at s (dot + 1) ≡ b'/' =
            ap (char_at s) (omega arith) ∙ (sym (char_at-drop s checkpoint (k + 1)) ∙ sl) in
          let (shorter, le) = resolve_dot-lt checkpoint dot s (omega arith) found in
          let next =
            resolve_dot-IsResolvedTo checkpoint dot s (omega arith) found dot_at slash_at first
              inv.0 inv.1 in
          let (r, eq, res) =
            resolve_dots_from fuel (resolve_dot checkpoint dot s).0 true
              (resolve_dot checkpoint dot s).1 (omega (arith, shorter)) next in
          (r, rw e eq, res)
    ]

-- The loop that resolves the dot segments of a path ends with as many turns as the path has
-- characters, and one. In the path that it gives, no "./" and no "../" makes up a segment.
pub resolve_dots-IsResolved :
    (s : List ℕ)
    → (r : Bool × List ℕ) × (resolve_dots (suc (length s)) 0 false s ≡ some r) × IsResolved r.1
resolve_dots-IsResolved s =
    resolve_dots_from (suc (length s)) 0 false s (omega arith)
      (λ i h. absurd (omega arith), inl refl)
