-- ===== src/Util/InitSequencer/Push.antt =====
-- The loop over the dependencies of a step in InitSequencer::mark_dep of util/InitSequencer.cc.
use oasys.Base.{
  ℕ, ◌+◌, ◌≤◌, Bool, true, false, ◌||◌, List, [], ◌∷◌, some, ◌==◌, ◌≡◌, refl, sym, ap, ◌∙◌, ◌⊎◌,
  inl, inr, arith, Table, find, member, false≢true, Bool-cases, length, member-cons_self, ==_cases,
  is_some,
}
use oasys.Util.InitSequencer.{Step, deps_of, push_unmarked}

-- What a marked step of the stack depends on is marked, above it in the stack or in `a`.
abbrev pub Settled : Table Step → (ℕ → Bool) → (ℕ → Bool) → List ℕ → Type 0
Settled t mark a [] = Unit {0}
Settled t mark a (n ∷ l) =
    (mark n ≡ true → (d : ℕ) → member d (deps_of t n) ≡ true → (mark d || a d) ≡ true)
    × Settled t mark (λ d. a d || d == n) l

module _ (t : Table Step) where
  pub Settled-mono :
      (mark mark' a a' : ℕ → Bool) (l : List ℕ)
      → ((d : ℕ) → (mark d || a d) ≡ true → (mark' d || a' d) ≡ true)
      → ((m : ℕ)
          → mark' m ≡ true
          → (mark m ≡ true) ⊎ ((d : ℕ) → member d (deps_of t m) ≡ true → (mark' d || a' d) ≡ true))
      → Settled t mark a l
      → Settled t mark' a' l
  Settled-mono mark mark' a a' [] h g j = tt
  Settled-mono mark mark' a a' (n ∷ l) h g j = (
    λ e d w. elim (g n e) [ inl e' ↦ h d (j.0 e' d w) | inr u ↦ u d w ],
    Settled-mono mark mark' (λ d. a d || d == n) (λ d. a' d || d == n) l
        (λ d e. ground (arith, e, h d))
        (λ m e. elim (g m e) [ inl w ↦ inl w | inr u ↦ inr (λ d w. ground (arith, u d w)) ]) j.1,
  )

  pub record Pushed (mark : ℕ → Bool) (ds stack : List ℕ) (r : List ℕ) : Type 0 where
    pub size : length r ≤ length ds + length stack
    pub when_marked : ((d : ℕ) → member d ds ≡ true → mark d ≡ true) → length r ≤ length stack
    pub stays : (d : ℕ) → member d stack ≡ true → member d r ≡ true
    pub pushed : (d : ℕ) → member d ds ≡ true → (mark d || member d r) ≡ true
    pub only : (d : ℕ) → member d r ≡ true → (member d stack || member d ds) ≡ true
    pub settled : Settled t mark (λ d. member d ds) stack → Settled t mark (λ d. false) r

  Pushed-nil : (mark : ℕ → Bool) (stack : List ℕ) → Pushed mark [] stack stack
  unfolding member
  Pushed-nil mark stack = record {
    size = omega arith;
    when_marked = λ h. omega arith;
    stays = λ d w. w;
    pushed = λ d w. absurd (false≢true w);
    only = λ d w. rw w refl;
    settled = λ j. j;
  }

  Pushed-marked :
      (mark : ℕ → Bool) (d : ℕ) (ds stack r : List ℕ)
      → mark d ≡ true
      → Pushed mark ds stack r
      → Pushed mark (d ∷ ds) stack r
  unfolding member
  Pushed-marked mark d ds stack r e v = record {
    size = omega (arith, v.size);
    when_marked = λ h. v.when_marked (λ x w. h x (grind (arith, w)));
    stays = v.stays;
    pushed = λ x w. elim (==_cases x d) [
      | inl g ↦ ground (arith, e, ap mark g)
      | inr g ↦ v.pushed x (grind (arith, w, g))
    ];
    only = λ x w. ground (arith, v.only x w);
    settled = λ j. v.settled (
        Settled-mono mark mark (λ x. member x (d ∷ ds)) (λ x. member x ds) stack
          (λ x w. elim (==_cases x d) [
            | inl g ↦ ground (arith, e, ap mark g)
            | inr g ↦ ground (arith, w, g)
          ])
          (λ m w. inl w) j);
  }

  Pushed-new :
      (mark : ℕ → Bool) (d : ℕ) (ds stack r : List ℕ)
      → mark d ≡ false
      → Pushed mark ds (d ∷ stack) r
      → Pushed mark (d ∷ ds) stack r
  unfolding member
  Pushed-new mark d ds stack r e v = record {
    size = omega (arith, v.size);
    when_marked = λ h. absurd (false≢true (sym e ∙ h d (member-cons_self d ds)));
    stays = λ x w. v.stays x (ground (arith, w));
    pushed = λ x w. elim (==_cases x d) [
      | inl g ↦ ground (arith, v.stays x (ground (arith, g)))
      | inr g ↦ v.pushed x (grind (arith, w, g))
    ];
    only = λ x w. ground (arith, v.only x w);
    settled = λ j. v.settled (
      λ w. absurd (false≢true (sym e ∙ w)),
      Settled-mono mark mark (λ x. member x (d ∷ ds)) (λ x. member x ds || x == d) stack
          (λ x w. ground (arith, w)) (λ m w. inl w) j,
    );
  }

  pub push_unmarked-Pushed :
      (mark : ℕ → Bool) (ds stack : List ℕ)
      → ((d : ℕ) → member d ds ≡ true → is_some (find d t) ≡ true)
      → (r : List ℕ) × (push_unmarked t mark ds stack ≡ some r) × Pushed mark ds stack r
  unfolding push_unmarked member
  push_unmarked-Pushed mark [] stack h = (stack, refl, Pushed-nil mark stack)
  push_unmarked-Pushed mark (d ∷ ds) stack h =
      let known = h d (member-cons_self d ds) in
      elim (Bool-cases (mark d)) [
        | inl e ↦
            let v = push_unmarked-Pushed mark ds stack (λ x w. h x (grind (arith, w))) in
            rw (known, e) (v.0, v.1, Pushed-marked mark d ds stack v.0 e v.2)
        | inr e ↦
            let v = push_unmarked-Pushed mark ds (d ∷ stack) (λ x w. h x (grind (arith, w))) in
            rw (known, e) (v.0, v.1, Pushed-new mark d ds stack v.0 e v.2)
      ]
