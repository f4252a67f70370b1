-- ===== src/Util/InitSequencer/Mark.antt =====
-- InitSequencer::mark_dep of util/InitSequencer.cc: the loop ends, with the least set of steps that has the
-- target and the dependencies of its own.
use oasys.Base.{
  ℕ, zero, suc, ◌+◌, ◌≤◌, Bool, true, false, ◌||◌, List, [], ◌∷◌, some, ◌==◌, ◌≡◌, refl, sym, ap,
  ◌↔◌, inl, inr, arith, Table, Distinct, find, member, subst, false≢true, Bool-cases, length,
  member-cons_self, ==_cases, is_some,
}
use oasys.Util.InitSequencer.{Step, Sequencer, deps_of, write_at, mark_steps, mark_fuel, mark_dep}
use oasys.Util.InitSequencer.Push.{Settled, Settled-mono, Pushed, push_unmarked-Pushed}
use oasys.Util.InitSequencer.Weight.{weight, weight_less, weight-write_at, weight_start}

abbrev pub Known : Table Step → Type 0
Known t = (x d : ℕ) → member d (deps_of t x) ≡ true → is_some (find d t) ≡ true

-- The target and, with a step, its dependencies.
pub data Needs (t : Table Step) (target : ℕ) : ℕ → Type 0 where
  itself : Needs t target target
  dependency : (x d : ℕ) → Needs t target x → member d (deps_of t x) ≡ true → Needs t target d

pub Needs-Known :
    (t : Table Step) (target x : ℕ)
    → Known t
    → is_some (find target t) ≡ true
    → Needs t target x
    → is_some (find x t) ≡ true
Needs-Known t target x known h itself = h
Needs-Known t target x known h (dependency y d n w) = known y d w

module _ (t : Table Step) (distinct : Distinct t) (known : Known t) where
  -- What the loop leaves: the least set with the marks and the stack that has all its dependencies.
  pub record Closure (mark : ℕ → Bool) (stack : List ℕ) (mark' : ℕ → Bool) : Type 1 where
    pub stays : (x : ℕ) → mark x ≡ true → mark' x ≡ true
    pub covers : (x : ℕ) → member x stack ≡ true → mark' x ≡ true
    pub closed : (x d : ℕ) → mark' x ≡ true → member d (deps_of t x) ≡ true → mark' d ≡ true
    pub least :
        (P : ℕ → Type 0)
        → ((x d : ℕ) → P x → member d (deps_of t x) ≡ true → P d)
        → ((x : ℕ) → (mark x || member x stack) ≡ true → P x)
        → (x : ℕ) → mark' x ≡ true
        → P x

  -- Before each round: a marked step has its dependencies marked or in the stack.
  abbrev Waiting : (ℕ → Bool) → List ℕ → Type 0
  Waiting mark stack =
      (x d : ℕ) → mark x ≡ true → member d (deps_of t x) ≡ true → (mark d || member d stack) ≡ true

  mark-Settled :
      (mark : ℕ → Bool) (n : ℕ) (l : List ℕ)
      → Settled t mark (λ d. false) (n ∷ l)
      → Settled t (write_at mark n true) (λ d. member d (deps_of t n)) l
  mark-Settled mark n l j =
      Settled-mono t mark (write_at mark n true) (λ d. false || d == n)
        (λ d. member d (deps_of t n)) l (λ d w. ground (arith, w))
        (λ m w. elim (==_cases m n) [
          | inl g ↦ inr (λ d u. ground (arith, u, ap (λ z. member d (deps_of t z)) g))
          | inr g ↦ inl (ground (arith, w, g))
        ])
        j.1

  -- The room that a round leaves.
  mark-room :
      (fuel : ℕ) (mark : ℕ → Bool) (n : ℕ) (l r : List ℕ)
      → Settled t mark (λ d. false) (n ∷ l)
      → Pushed t (write_at mark n true) (deps_of t n) l r
      → suc (length l) + weight t mark ≤ suc fuel
      → length r + weight t (write_at mark n true) ≤ fuel
  mark-room fuel mark n l r j v h = elim (Bool-cases (mark n)) [
    | inl e ↦
        let shorter = v.when_marked (λ d w. ground (arith, j.0 e d w)) in
        omega (arith, shorter, weight_less t mark n)
    | inr e ↦ omega (arith, v.size, weight-write_at t mark n distinct e)
  ]

  mark-Waiting :
      (mark : ℕ → Bool) (n : ℕ) (l r : List ℕ)
      → Pushed t (write_at mark n true) (deps_of t n) l r
      → Waiting mark (n ∷ l)
      → Waiting (write_at mark n true) r
  unfolding member
  mark-Waiting mark n l r v h x d e w = elim (==_cases x n) [
    | inl g ↦ v.pushed d (subst (λ z. member d (deps_of t z) ≡ true) g w)
    | inr g ↦ elim (Bool-cases (member d l)) [
      | inl u ↦ ground (arith, v.stays d u)
      | inr u ↦ ground (arith, h x d (ground (arith, e, g)) w, u)
    ]
  ]

  mark-Closure :
      (mark : ℕ → Bool) (n : ℕ) (l r : List ℕ) (mark' : ℕ → Bool)
      → Pushed t (write_at mark n true) (deps_of t n) l r
      → Closure (write_at mark n true) r mark'
      → Closure mark (n ∷ l) mark'
  unfolding member
  mark-Closure mark n l r mark' v c = record {
    stays = λ x e. c.stays x (ground (arith, e));
    covers = λ x e. elim (==_cases x n) [
      | inl g ↦ c.stays x (ground (arith, g))
      | inr g ↦ c.covers x (v.stays x (ground (arith, e, g)))
    ];
    closed = c.closed;
    least = λ p up start x e.
        c.least p up
          (λ y u. elim (Bool-cases (member y (deps_of t n))) [
            | inl w ↦ up n y (start n (ground arith)) w
            | inr w ↦ start y (ground (arith, u, v.only y, w))
          ])
          x e;
  }

  mark_steps-Closure :
      (fuel : ℕ) (mark : ℕ → Bool) (stack : List ℕ)
      → length stack + weight t mark ≤ fuel
      → Settled t mark (λ d. false) stack
      → Waiting mark stack
      → (mark' : ℕ → Bool) × (mark_steps fuel t mark stack ≡ some mark') × Closure mark stack mark'
  unfolding mark_steps member
  mark_steps-Closure fuel mark [] h j k = (
    mark,
    refl,
    record {
      stays = λ x e. e;
      covers = λ x e. absurd (false≢true e);
      closed = λ x d e w. ground (arith, k x d e w);
      least = λ p up start x e. start x (ground (arith, e));
    },
  )
  mark_steps-Closure zero mark (n ∷ l) h j k = absurd (omega arith)
  mark_steps-Closure (suc fuel) mark (n ∷ l) h j k =
      let v = push_unmarked-Pushed t (write_at mark n true) (deps_of t n) l (known n) in
      let more =
        mark_steps-Closure fuel (write_at mark n true) v.0 (mark-room fuel mark n l v.0 j v.2 h)
          (v.2.settled (mark-Settled mark n l j)) (mark-Waiting mark n l v.0 v.2 k) in
      rw (v.1) (more.0, more.1, mark-Closure mark n l v.0 more.0 v.2 more.2)

Closure-Needs :
    (t : Table Step) (distinct : Distinct t) (known : Known t) (target : ℕ) (mark : ℕ → Bool)
    → Closure t distinct known (λ x. false) (target ∷ []) mark
    → (x : ℕ) → mark x ≡ true
    → Needs t target x
unfolding member
Closure-Needs t distinct known target mark c =
    c.least (Needs t target) (λ x d n w. dependency x d n w)
      (λ x e. elim (==_cases x target) [
        | inl g ↦ subst (Needs t target) (sym g) itself
        | inr g ↦ absurd (ground (arith, e, g))
      ])

Needs-Closure :
    (t : Table Step) (distinct : Distinct t) (known : Known t) (target : ℕ) (mark : ℕ → Bool)
    → Closure t distinct known (λ x. false) (target ∷ []) mark
    → (x : ℕ) → Needs t target x
    → mark x ≡ true
Needs-Closure t distinct known target mark c x itself = c.covers target (member-cons_self target [])
Needs-Closure t distinct known target mark c x (dependency y d n w) =
    c.closed y d (Needs-Closure t distinct known target mark c y n) w

-- Where every dependency is a step, mark_dep of a step ends, without a panic, and marks the steps that
-- the target needs and no others: the target and, with a step, its dependencies.
pub mark_dep-Needs :
    (q : Sequencer) (target : ℕ)
    → Distinct q.steps
    → Known q.steps
    → is_some (find target q.steps) ≡ true
    → (mark : ℕ → Bool) × (mark_dep target q ≡ some (record q { mark = mark }))
      × ((x : ℕ) → (mark x ≡ true) ↔ Needs q.steps target x)
unfolding mark_dep
mark_dep-Needs q target distinct known h =
    let v =
      mark_steps-Closure q.steps distinct known (mark_fuel q.steps) (λ x. false) (target ∷ [])
        (omega (arith, weight_start q.steps)) (λ e. absurd (false≢true e), tt)
        (λ x d e. absurd (false≢true e)) in
    rw (h, v.1)
      (
        v.0,
        refl,
        λ x. (
          Closure-Needs q.steps distinct known target v.0 v.2 x,
          Needs-Closure q.steps distinct known target v.0 v.2 x,
        ),
      )
