-- ===== src/Util/Uri/SubsumeLaws.antt =====
-- util/URI.cc: URI::subsume is a preorder on the valid URIs.
use oasys.Base.{
  ℕ, zero, suc, ◌-◌, ◌<◌, ◌≤◌, ◌≡◌, refl, true, ◌||◌, inl, inr, List, [], ◌∷◌, length, arith,
  Bool-cases, ==_refl, ltb,
}
use oasys.Util.Uri.Types.{Uri, char_at, is_ok}
use oasys.Util.Uri.Normalize.{is_prefix, is_boundary, subsume}

is_prefix-le : (s t : List ℕ) → is_prefix s t ≡ true → length s ≤ length t
unfolding is_prefix
is_prefix-le [] t h = omega arith
is_prefix-le (c ∷ s) [] h = absurd (ground (arith, h))
is_prefix-le (c ∷ s) (d ∷ t) h = omega (arith, is_prefix-le s t (ground (arith, h)))

is_prefix_refl : (s : List ℕ) → is_prefix s s ≡ true
unfolding is_prefix
is_prefix_refl [] = refl
is_prefix_refl (c ∷ s) = rw (==_refl c, is_prefix_refl s) refl

is_prefix_trans :
    (r s t : List ℕ) → is_prefix r s ≡ true → is_prefix s t ≡ true → is_prefix r t ≡ true
unfolding is_prefix
is_prefix_trans [] s t h k = refl
is_prefix_trans (c ∷ r) [] t h k = absurd (ground (arith, h))
is_prefix_trans (c ∷ r) (d ∷ s) [] h k = absurd (ground (arith, k))
is_prefix_trans (c ∷ r) (d ∷ s) (e ∷ t) h k =
    ground (arith, h, k, is_prefix_trans r s t (ground (arith, h)) (ground (arith, k)))

is_prefix-char_at :
    (s t : List ℕ) (i : ℕ) → is_prefix s t ≡ true → i < length s → char_at t i ≡ char_at s i
unfolding is_prefix char_at
is_prefix-char_at [] t i h k = absurd (omega arith)
is_prefix-char_at (c ∷ s) [] i h k = absurd (ground (arith, h))
is_prefix-char_at (c ∷ s) (d ∷ t) zero h k = ground (arith, h)
is_prefix-char_at (c ∷ s) (d ∷ t) (suc i) h k =
    is_prefix-char_at s t i (ground (arith, h)) (omega arith)

prefix_length : (s t : List ℕ) → is_prefix s t ≡ true → length s ≡ length t → s ≡ t
unfolding is_prefix
prefix_length [] [] h e = refl
prefix_length [] (d ∷ t) h e = absurd (omega arith)
prefix_length (c ∷ s) [] h e = absurd (omega arith)
prefix_length (c ∷ s) (d ∷ t) h e =
    let same : c ≡ d = ground (arith, h) in
    rw (same, prefix_length s t (ground (arith, h)) (omega arith)) refl

-- A URI that subsumes another, which subsumes a third with a text that is not empty, subsumes the third.
pub subsume_trans :
    (u v w : Uri) → 0 < length w.uri → subsume u v ≡ true → subsume v w ≡ true → subsume u w ≡ true
unfolding subsume
subsume_trans u v w z h k =
    let uo : is_ok u.parse_err ≡ true = ground (arith, h) in
    let vo : is_ok v.parse_err ≡ true = ground (arith, h) in
    let wo : is_ok w.parse_err ≡ true = ground (arith, k) in
    let pv : is_prefix v.uri u.uri ≡ true = ground (arith, h) in
    let pw : is_prefix w.uri v.uri ≡ true = ground (arith, k) in
    let p : is_prefix w.uri u.uri ≡ true = is_prefix_trans w.uri v.uri u.uri pw pv in
    let lv = is_prefix-le v.uri u.uri pv in
    let lw = is_prefix-le w.uri v.uri pw in
    let c0 = is_prefix-char_at v.uri u.uri (length w.uri) pv in
    let c1 = is_prefix-char_at v.uri u.uri (length w.uri - 1) pv in
    elim (Bool-cases (ltb (length w.uri) (length v.uri))) [
      | inl e ↦
          let b : (is_boundary (char_at v.uri (length w.uri))
                || is_boundary (char_at v.uri (length w.uri - 1)))
              ≡ true =
            rw (vo, wo, pw, e) at k in
          let lt : ltb (length w.uri) (length u.uri) ≡ true = ground arith in
          rw (uo, wo, p, lt, c0 (ground arith), c1 (ground arith)) b
      | inr e ↦
          let same : w.uri ≡ v.uri = prefix_length w.uri v.uri pw (ground arith) in
          rw (uo, wo, same) (rw (uo, vo) at h)
    ]
