-- ===== src/Util/Uri/Search.antt =====
-- util/URI.cc: laws of the searches in a text.
use oasys.Base.{
  ℕ, zero, suc, ◌+◌, ◌<◌, ◌≤◌, ◌≡◌, refl, ap, ◌∙◌, sym, Bool, true, false, ◌⊎◌, inl, inr, List, [],
  ◌∷◌, ◌++◌, length, take, drop, arith, Bool-cases, ◌==◌, ==_iff, length-drop, drop-drop, take-nil,
}
use Prim.Native.Nat.add
use oasys.Util.Uri.Types.{Component, at_offset, text, prefix, find_or_end, char_at}

pub prefix-le : (p : ℕ → Bool) (s : List ℕ) → prefix p s ≤ length s
unfolding prefix
prefix-le p [] = omega arith
prefix-le p (c ∷ cs) = ground (arith, prefix-le p cs)

pub find_or_end-le :
    (p : ℕ → Bool) (s : List ℕ) (pos : ℕ) → pos ≤ length s → find_or_end p s pos ≤ length s
find_or_end-le p s pos h = omega (arith, prefix-le p (drop pos s), length-drop pos s)

-- The search stops at a character that passes the test.
pub prefix_stop :
    (p : ℕ → Bool) (s : List ℕ) → prefix p s < length s → p (char_at s (prefix p s)) ≡ true
unfolding prefix char_at
prefix_stop p [] h = absurd (omega arith)
prefix_stop p (c ∷ cs) h = elim (Bool-cases (p c)) [
  | inl e ↦ rw e e
  | inr e ↦ rw e (prefix_stop p cs (ground (arith, e, h)))
]

pub char_at-drop : (s : List ℕ) (n i : ℕ) → char_at (drop n s) i ≡ char_at s (n + i)
unfolding char_at drop
char_at-drop s zero i = ap (char_at s) (omega arith)
char_at-drop [] (suc n) i = refl
char_at-drop (c ∷ cs) (suc n) i = char_at-drop cs n i ∙ rw add.suc refl

pub find_or_end_stop :
    (p : ℕ → Bool) (s : List ℕ) (pos : ℕ)
    → pos ≤ length s
    → (find_or_end p s pos ≡ length s) ⊎ (p (char_at s (find_or_end p s pos)) ≡ true)
find_or_end_stop p s pos h =
    let rest = drop pos s in
    let l = length-drop pos s in
    elim (Bool-cases (prefix p rest == length rest)) [
      | inl e ↦ inl (omega (arith, (==_iff (prefix p rest) (length rest)).0 e, l))
      | inr e ↦
          let below : prefix p rest < length rest = ground (arith, e, prefix-le p rest) in
          inr (ap p (sym (char_at-drop s pos (prefix p rest))) ∙ prefix_stop p rest below)
    ]

-- The characters that the search has passed.
abbrev pub Lacks : (ℕ → Bool) → List ℕ → Type 0
Lacks p [] = Unit {0}
Lacks p (c ∷ cs) = (p c ≡ false) × Lacks p cs

pub take-prefix-Lacks : (p : ℕ → Bool) (s : List ℕ) → Lacks p (take (prefix p s) s)
unfolding prefix take
take-prefix-Lacks p [] = tt
take-prefix-Lacks p (c ∷ cs) = elim (Bool-cases (p c)) [
  | inl e ↦ rw e tt
  | inr e ↦ rw e (e, take-prefix-Lacks p cs)
]

-- A text without such a character, and what may follow it.
abbrev pub Begins : (ℕ → Bool) → List ℕ → Type 0
Begins p [] = Unit {0}
Begins p (c ∷ cs) = p c ≡ true

pub prefix-append :
    (p : ℕ → Bool) (s t : List ℕ) → Lacks p s → Begins p t → prefix p (s ++ t) ≡ length s
unfolding prefix
prefix-append p [] [] l b = refl
prefix-append p [] (c ∷ cs) l b = rw b refl
prefix-append p (c ∷ s) t (h, l) b = rw h (ap suc (prefix-append p s t l b))

take_join : (m n : ℕ) (t : List ℕ) → take m t ++ take n (drop m t) ≡ take (m + n) t
unfolding take drop
take_join zero n t = ap (λ k. take k t) (omega arith)
take_join (suc m) n [] = rw (add.suc, take-nil n) refl
take_join (suc m) n (c ∷ t) = rw add.suc (ap (◌∷◌ c) (take_join m n t))

-- Neighbouring parts of a text.
pub text-append :
    (s : List ℕ) (o m n : ℕ)
    → text s (at_offset o m) ++ text s (at_offset (o + m) n) ≡ text s (at_offset o (m + n))
text-append s o m n = rw (← drop-drop o m s) (take_join m n (drop o s))

pub text-join :
    (s : List ℕ) (a b : Component)
    → b.offset ≡ a.offset + a.length
    → text s a ++ text s b ≡ text s (at_offset a.offset (a.length + b.length))
text-join s a b e = rw e (text-append s a.offset a.length b.length)
