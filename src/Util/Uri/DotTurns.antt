-- ===== src/Util/Uri/DotTurns.antt =====
-- util/URI.cc: each turn of the loop of normalize_path keeps what stands before its checkpoint resolved.
use oasys.Base.{
  ℕ, ◌+◌, ◌-◌, ◌<◌, ◌≤◌, ◌≡◌, ap, ◌∙◌, sym, subst, true, false, ◌&&◌, ◌||◌, ◌⊎◌, inl, inr, List,
  length, take, arith, Bool-cases, ◌==◌, ==_iff, leb,
}
use oasys.Util.Uri.Types.{char_at}
use oasys.Util.Uri.Dots.{last_slash, erase, resolve_dot}
use oasys.Util.Uri.DotLaws.{prev_seg-le}
use oasys.Util.Uri.DotSegments.{
  is_dots, IsResolvedTo, prev_seg_at, same_dots, not_dots, no_slash, char_at-erase_before,
  char_at-erase_after,
}

module _ (checkpoint dot : ℕ) (s : List ℕ) (le : checkpoint ≤ dot) (lt : dot + 1 < length s)
    (dot_at : char_at s dot ≡ b'.') (slash_at : char_at s (dot + 1) ≡ b'/')
    (first : (i : ℕ)
      → checkpoint ≤ i
      → i < dot
      → (char_at s i == b'.' && char_at s (i + 1) == b'/') ≡ false)
    (done : (i : ℕ) → i < checkpoint → is_dots i s ≡ false)
    (mark : (checkpoint ≡ 0)
      ⊎ ((char_at s (checkpoint - 1) ≡ b'/') ⊎ (char_at s checkpoint ≡ b'/'))) where
  -- Before the dot that has been found.
  done_before : (i : ℕ) → i < dot → is_dots i s ≡ false
  done_before i h = elim (Bool-cases (leb checkpoint i)) [
    | inl e ↦ no_slash s i (first i (ground (arith, e)) h)
    | inr e ↦ done i (ground (arith, e))
  ]

  before_dot : char_at s checkpoint ≡ b'/' → checkpoint < dot
  before_dot p = elim (Bool-cases (checkpoint == dot)) [
    | inl e ↦
        let q : char_at s dot ≡ b'/' =
          subst (λ x. char_at s x ≡ b'/') ((==_iff checkpoint dot).0 e) p in
        absurd (ground (arith, q))
    | inr e ↦ ground (arith, e)
  ]

  -- A "." segment is erased.
  erase_dot :
      (dot == 0 || char_at s (dot - 1) == b'/') ≡ true → IsResolvedTo checkpoint (erase s dot 2)
  erase_dot a =
      let t = erase s dot 2 in
      let before = char_at-erase_before s dot 2 (omega arith) in
      (
        λ i h. elim (Bool-cases (i + 1 == dot)) [
          | inl e ↦
              let d : i ≡ dot - 1 = ground (arith, e) in
              not_dots t i (before i (omega arith) ∙ (ap (char_at s) d ∙ ground (arith, a, e)))
          | inr e ↦
              let l : i + 1 < dot = ground (arith, e) in
              same_dots s t i (before i (omega arith)) (before (i + 1) l)
                (before (i - 1) (omega arith)) (before (i - 2) (omega arith))
              ∙ done i h
        ],
        elim mark [
          | inl z ↦ inl z
          | inr (inl p) ↦ elim (Bool-cases (checkpoint == 0)) [
            | inl z ↦ inl ((==_iff checkpoint 0).0 z)
            | inr z ↦ inr (inl (before (checkpoint - 1) (ground (arith, z)) ∙ p))
          ]
          | inr (inr p) ↦
              let l : checkpoint < dot = before_dot p in inr (inr (before checkpoint l ∙ p))
        ],
      )

  -- The dots of a ".." segment do not stand at a checkpoint, but for the start.
  not_there : char_at s (dot - 1) ≡ b'.' → 0 < dot → (checkpoint ≡ 0) ⊎ (checkpoint < dot)
  not_there d z = elim mark [
    | inl e ↦ inl e
    | inr (inr p) ↦ inr (before_dot p)
    | inr (inl p) ↦ elim (Bool-cases (checkpoint == dot)) [
      | inr e ↦ inr (ground (arith, e))
      | inl e ↦
          let q : char_at s (dot - 1) ≡ b'/' =
            subst (λ x. char_at s (x - 1) ≡ b'/') ((==_iff checkpoint dot).0 e) p in
          absurd (ground (arith, q, d))
    ]
  ]

  -- A ".." segment is erased at the start.
  erase_first : char_at s (dot - 1) ≡ b'.' → dot ≡ 1 → IsResolvedTo checkpoint (erase s (dot - 1) 3)
  erase_first d one =
      let z : checkpoint ≡ 0 = elim (not_there d (omega arith)) [
        | inl e ↦ e
        | inr e ↦ omega arith
      ] in
      (λ i h. absurd (omega arith), inl z)

  erase_second :
      char_at s (dot - 1) ≡ b'.'
      → char_at s (dot - 2) ≡ b'/'
      → dot ≡ 2
      → IsResolvedTo checkpoint (erase s (dot - 1) 3)
  erase_second d f two =
      let t = erase s (dot - 1) 3 in
      let start : char_at t 0 ≡ b'/' =
        char_at-erase_before s (dot - 1) 3 (omega arith) 0 (omega arith)
        ∙ (ap (char_at s) (omega arith) ∙ f) in
      let l : checkpoint ≤ 1 = elim (not_there d (omega arith)) [
        | inl e ↦ omega arith
        | inr e ↦ omega arith
      ] in
      (
        λ i h. let z : i ≡ 0 = omega arith in not_dots t i (ap (char_at t) z ∙ start),
        inr (inl (ap (char_at t) (omega arith) ∙ start)),
      )

  -- A ".." segment is erased with the one before it.
  erase_segment :
      (prev : ℕ)
      → prev + 2 ≤ dot
      → (prev ≡ 0) ⊎ (char_at s prev ≡ b'/')
      → IsResolvedTo prev (erase s prev (dot + 1 - prev))
  erase_segment prev h p =
      let n = dot + 1 - prev in
      let t = erase s prev n in
      let inside : prev + n ≤ length s = omega arith in
      let before = char_at-erase_before s prev n inside in
      let here : char_at t prev ≡ b'/' =
        char_at-erase_after s prev n inside prev (omega arith)
        ∙ (ap (char_at s) (omega arith) ∙ slash_at) in
      (
        λ i k.
            let next : char_at t (i + 1) ≡ char_at s (i + 1) = elim (Bool-cases (i + 1 == prev)) [
              | inr e ↦ before (i + 1) (ground (arith, e))
              | inl e ↦
                  let q : i + 1 ≡ prev = (==_iff (i + 1) prev).0 e in
                  let r : char_at s prev ≡ b'/' = elim p [
                    | inl z ↦ absurd (omega arith)
                    | inr r ↦ r
                  ] in
                  ap (char_at t) q ∙ (here ∙ (sym r ∙ ap (char_at s) (sym q)))
            ] in
            same_dots s t i (before i k) next (before (i - 1) (omega arith))
              (before (i - 2) (omega arith))
            ∙ done_before i (omega arith),
        inr (inr here),
      )

  -- The dot is the end of another segment.
  keep_dot :
      (dot == 0 || char_at s (dot - 1) == b'/') ≡ false
      → (char_at s (dot - 1) == b'.' && dot == 1) ≡ false
      → (char_at s (dot - 1) == b'.' && char_at s (dot - 2) == b'/') ≡ false
      → IsResolvedTo (dot + 2) s
  keep_dot a b c = (
    λ i h. elim (Bool-cases (leb dot i)) [
      | inr e ↦ done_before i (ground (arith, e))
      | inl e ↦ elim (Bool-cases (i == dot)) [
        | inl d ↦
            let q : i ≡ dot = (==_iff i dot).0 d in
            ap (λ x. is_dots x s) q ∙ unfold is_dots in ground (arith, a, b, c)
        | inr d ↦
            let q : i ≡ dot + 1 = ground (arith, d, e) in not_dots s i (ap (char_at s) q ∙ slash_at)
      ]
    ],
    inr (inl (ap (char_at s) (omega arith) ∙ slash_at)),
  )

  pub resolve_dot-IsResolvedTo :
      IsResolvedTo (resolve_dot checkpoint dot s).0 (resolve_dot checkpoint dot s).1
  unfolding resolve_dot
  resolve_dot-IsResolvedTo =
      let prev = last_slash 0 0 (take (dot - 2) s) in
      let at = ==_iff (char_at s (dot - 1)) b'.' in
      elim (Bool-cases (dot == 0 || char_at s (dot - 1) == b'/')) [
        | inl a ↦ rw a (erase_dot a)
        | inr a ↦ elim (Bool-cases (char_at s (dot - 1) == b'.' && dot == 1)) [
          | inl b ↦ rw (a, b) (erase_first (ground (arith, b)) (ground (arith, b)))
          | inr b ↦ elim (Bool-cases (char_at s (dot - 1) == b'.' && char_at s (dot - 2) == b'/')) [
            | inr c ↦ rw (a, b, c) (keep_dot a b c)
            | inl c ↦ elim (Bool-cases (dot == 2)) [
              | inl d ↦
                  rw (a, b, c, d)
                    (erase_second (ground (arith, c)) (ground (arith, c)) (ground (arith, d)))
              | inr d ↦
                  rw (a, b, c, d)
                    (erase_segment prev
                      (ground (arith, a, b, c, d, prev_seg-le (dot - 2) s (omega arith)))
                      (prev_seg_at (dot - 2) s (omega arith)))
            ]
          ]
        ]
      ]
