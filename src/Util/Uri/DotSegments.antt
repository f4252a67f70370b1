-- ===== src/Util/Uri/DotSegments.antt =====
-- util/URI.cc: the dot segments of a path, and the searches of normalize_path for them.
use oasys.Base.{
  ℕ, zero, suc, ◌+◌, ◌-◌, ◌<◌, ◌≤◌, ◌≡◌, refl, ap, ◌∙◌, sym, Bool, false, ◌&&◌, ◌||◌, ◌⊎◌, inl, inr,
  List, [], ◌∷◌, ◌++◌, length, take, drop, arith, Bool-cases, ◌==◌, ==_iff, length-take,
}
use oasys.Util.Uri.Types.{char_at}
use oasys.Util.Uri.Search.{char_at-drop}
use oasys.Util.Uri.Dots.{dot_prefix, last_slash, erase}

-- A segment "." or ".." with its slash, whose last dot stands at `i`.
unfoldable pub is_dots : ℕ → List ℕ → Bool
is_dots i s =
    char_at s i == b'.'
    && char_at s (i + 1) == b'/'
    && (i == 0
        || char_at s (i - 1) == b'/'
        || char_at s (i - 1) == b'.' && (i == 1 || char_at s (i - 2) == b'/'))

abbrev pub IsResolved : List ℕ → Type 0
IsResolved s = (i : ℕ) → is_dots i s ≡ false

-- What has been resolved before the checkpoint, which stands at or behind a slash.
abbrev pub IsResolvedTo : ℕ → List ℕ → Type 0
IsResolvedTo checkpoint s =
    ((i : ℕ) → i < checkpoint → is_dots i s ≡ false)
    × ((checkpoint ≡ 0) ⊎ ((char_at s (checkpoint - 1) ≡ b'/') ⊎ (char_at s checkpoint ≡ b'/')))

pub char_at_end : (s : List ℕ) (i : ℕ) → length s ≤ i → char_at s i ≡ 0
unfolding char_at
char_at_end [] i h = refl
char_at_end (c ∷ s) zero h = absurd (omega arith)
char_at_end (c ∷ s) (suc i) h = char_at_end s i (omega arith)

shift_index : (c : ℕ) (s : List ℕ) (i : ℕ) → char_at (c ∷ s) (suc i + 1) ≡ char_at s (i + 1)
unfolding char_at
shift_index c s i = let e : suc i + 1 ≡ suc (i + 1) = omega arith in ap (char_at (c ∷ s)) e

pub dot_prefix-char_at :
    (s : List ℕ)
    → dot_prefix s < length s
    → (char_at s (dot_prefix s) ≡ b'.') × (char_at s (dot_prefix s + 1) ≡ b'/')
unfolding dot_prefix char_at
dot_prefix-char_at [] h = absurd (omega arith)
dot_prefix-char_at (c ∷ cs) h = elim (Bool-cases (c == b'.' && char_at cs 0 == b'/')) [
  | inl e ↦ rw e (ground (arith, e), ground (arith, e))
  | inr e ↦
      let r = dot_prefix-char_at cs (ground (arith, e, h)) in
      rw e (r.0, shift_index c cs (dot_prefix cs) ∙ r.1)
]

-- No dot with a slash before the one that is found.
pub dot_prefix_first :
    (s : List ℕ) (i : ℕ)
    → i < dot_prefix s
    → (char_at s i == b'.' && char_at s (i + 1) == b'/') ≡ false
unfolding dot_prefix char_at
dot_prefix_first [] i h = absurd (omega arith)
dot_prefix_first (c ∷ cs) zero h = ground (arith, h)
dot_prefix_first (c ∷ cs) (suc i) h =
    rw (shift_index c cs i) (dot_prefix_first cs i (ground (arith, h)))

char_at-front :
    (i : ℕ) (s y : List ℕ) (j : ℕ) → j < i → i ≤ length s → char_at (take i s ++ y) j ≡ char_at s j
unfolding char_at take
char_at-front zero s y j h k = absurd (omega arith)
char_at-front (suc i) [] y j h k = absurd (omega arith)
char_at-front (suc i) (c ∷ s) y zero h k = refl
char_at-front (suc i) (c ∷ s) y (suc j) h k = char_at-front i s y j (omega arith) (omega arith)

char_at-back :
    (i : ℕ) (s y : List ℕ) (k : ℕ) → i ≤ length s → char_at (take i s ++ y) (i + k) ≡ char_at y k
unfolding char_at take
char_at-back zero s y k h = ap (char_at y) (omega arith)
char_at-back (suc i) [] y k h = absurd (omega arith)
char_at-back (suc i) (c ∷ s) y k h =
    let e : suc i + k ≡ suc (i + k) = omega arith in
    ap (char_at (c ∷ (take i s ++ y))) e ∙ char_at-back i s y k (omega arith)

module _ (s : List ℕ) (i n : ℕ) (inside : i + n ≤ length s) where
  pub char_at-erase_before : (j : ℕ) → j < i → char_at (erase s i n) j ≡ char_at s j
  char_at-erase_before j h = char_at-front i s (drop (i + n) s) j h (omega arith)

  pub char_at-erase_after : (j : ℕ) → i ≤ j → char_at (erase s i n) j ≡ char_at s (j + n)
  char_at-erase_after j h =
      let e : j ≡ i + (j - i) = omega arith in
      ap (char_at (erase s i n)) e
      ∙ (char_at-back i s (drop (i + n) s) (j - i) (omega arith)
          ∙ (char_at-drop s (i + n) (j - i) ∙ ap (char_at s) (omega arith)))

last_slash_at :
    (i found : ℕ) (s : List ℕ)
    → (last_slash i found s ≡ found)
      ⊎ ((j : ℕ) × (last_slash i found s ≡ i + j) × (char_at s j ≡ b'/'))
unfolding last_slash char_at
last_slash_at i found [] = inl refl
last_slash_at i found (c ∷ cs) = elim (Bool-cases (c == b'/')) [
  | inl e ↦ rw e (elim (last_slash_at (i + 1) i cs) [
    | inl f ↦ inr (0, f ∙ omega arith, (==_iff c b'/').0 e)
    | inr (j, f, g) ↦ inr (suc j, f ∙ omega arith, g)
  ])
  | inr e ↦ rw e (elim (last_slash_at (i + 1) found cs) [
    | inl f ↦ inl f
    | inr (j, f, g) ↦ inr (suc j, f ∙ omega arith, g)
  ])
]

char_at-take : (n : ℕ) (s : List ℕ) (j : ℕ) → j < n → char_at (take n s) j ≡ char_at s j
unfolding char_at take
char_at-take zero s j h = absurd (omega arith)
char_at-take (suc n) [] j h = refl
char_at-take (suc n) (c ∷ s) zero h = refl
char_at-take (suc n) (c ∷ s) (suc j) h = char_at-take n s j (omega arith)

pub prev_seg_at :
    (n : ℕ) (s : List ℕ)
    → n ≤ length s
    → (last_slash 0 0 (take n s) ≡ 0) ⊎ (char_at s (last_slash 0 0 (take n s)) ≡ b'/')
prev_seg_at n s h = elim (last_slash_at 0 0 (take n s)) [
  | inl e ↦ inl e
  | inr (j, e, f) ↦
      let l : length (take n s) ≡ n = grind (arith, length-take n s) in
      let lt : j < n = ground (arith, f, l, char_at_end (take n s) j) in
      let at : last_slash 0 0 (take n s) ≡ j = e ∙ omega arith in
      inr (ap (char_at s) at ∙ (sym (char_at-take n s j lt) ∙ f))
]

pub same_dots :
    (s t : List ℕ) (i : ℕ)
    → char_at t i ≡ char_at s i
    → char_at t (i + 1) ≡ char_at s (i + 1)
    → char_at t (i - 1) ≡ char_at s (i - 1)
    → char_at t (i - 2) ≡ char_at s (i - 2)
    → is_dots i t ≡ is_dots i s
unfolding is_dots
same_dots s t i a b c d = rw (a, b, c, d) refl

pub not_dots : (s : List ℕ) (i : ℕ) → char_at s i ≡ b'/' → is_dots i s ≡ false
unfolding is_dots
not_dots s i e = rw e refl

pub no_slash :
    (s : List ℕ) (i : ℕ)
    → (char_at s i == b'.' && char_at s (i + 1) == b'/') ≡ false
    → is_dots i s ≡ false
unfolding is_dots
no_slash s i e = ground (arith, e)
