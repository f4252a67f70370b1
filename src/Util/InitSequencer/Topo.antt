-- ===== src/Util/InitSequencer/Topo.antt =====
-- InitSequencer::topo_sort of util/InitSequencer.cc where the dependencies have no cycle.
use oasys.Base.{
  ℕ, zero, suc, ◌+◌, ◌<◌, ◌≤◌, true, false, [], Option, none, some, ◌==◌, ◌≡◌, refl, sym, ap, ◌∙◌,
  inl, inr, arith, Table, Distinct, find, member, false≢true, none≢some, some_injective, length,
  List-cases, member-cons_self, is_some, is_some-some,
}
use oasys.Util.InitSequencer.{Step, Sequencer, deps_of, edges, roots, topo_sort, Times, dfs_roots}
use oasys.Util.InitSequencer.Dfs.{Visited, dfs_roots-Visited}
use oasys.Util.InitSequencer.Edges.{member-edges, roots-root, roots-only, deps_of-some}

-- Each dependency is a step, on a higher level than its depender; no level reaches `depth`.
pub record Layered (t : Table Step) (level : ℕ → ℕ) (depth : ℕ) : Type 0 where
  pub known : (x d : ℕ) → member d (deps_of t x) ≡ true → is_some (find d t) ≡ true
  pub above : (x d : ℕ) → member d (deps_of t x) ≡ true → level x < level d
  pub bounded : (x : ℕ) → level x < depth

abbrev pub start_times : Times
start_times = record { time = λ x. none; dfs_time = 0 }

module _ (t : Table Step) (distinct : Distinct t) (level : ℕ → ℕ) (depth : ℕ)
    (layered : Layered t level depth) where
  down : (x y : ℕ) → member y (edges t x) ≡ true → level y < level x
  down x y h = layered.above y x (sym (member-edges t y x distinct) ∙ h)

  top : (y z : ℕ) → member y (roots t []) ≡ true → member y (edges t z) ≡ false
  unfolding member
  top y z h = elim (roots-only t y [] distinct h) [
    | inl e ↦ absurd (false≢true e)
    | inr (s, e, g) ↦ member-edges t y z distinct ∙ ap (member z) (deps_of-some t y s e ∙ g)
  ]

  times :
      Visited
        (edges t)
        level
        down
        depth
        (roots t [])
        start_times
        (dfs_roots (edges t) depth (roots t []) start_times)
  times =
      dfs_roots-Visited (edges t) level down depth (roots t []) start_times layered.bounded
        (record {
          below = λ x s e. absurd (none≢some e);
          closed = λ x s y e w. absurd (none≢some e);
        })
        top

  -- Every step gets a time: one without dependencies is a root, another is below a dependency.
  visited :
      (gap x : ℕ) (s : Step)
      → depth ≤ level x + gap
      → find x t ≡ some s
      → is_some (times.0.time x) ≡ true
  unfolding member
  visited zero x s h e = absurd (omega (arith, layered.bounded x))
  visited (suc gap) x s h e = elim (List-cases s.dependencies) [
    | inl g ↦ times.3 x (roots-root t x s [] e (ap (λ l. length l == 0) g))
    | inr (d, l, g) ↦
        let w : member d (deps_of t x) ≡ true =
          ap (member d) (deps_of-some t x s e ∙ g) ∙ member-cons_self d l in
        let r = is_some-some (find d t) (layered.known x d w) in
        let v =
          is_some-some (times.0.time d)
            (visited gap d r.0 (omega (arith, layered.above x d w)) r.1) in
        let e' = times.2.timed.closed d v.0 x v.1 (member-edges t x d distinct ∙ w) in
        ap is_some e'.1
  ]

-- `x` has a time, and each of its dependencies a later one.
abbrev pub Before : Table Step → (ℕ → Option ℕ) → ℕ → Type 0
Before t time x =
    (a : ℕ) × (time x ≡ some a)
    × ((d : ℕ) → member d (deps_of t x) ≡ true → (b : ℕ) × (time d ≡ some b) × (a < b))

-- The sort of steps of distinct names whose dependencies are steps, without a cycle, ends and gives
-- every step a time below those of its dependencies; it changes nothing but the times.
pub topo_sort-Before :
    (q : Sequencer) (level : ℕ → ℕ) (depth : ℕ)
    → Distinct q.steps
    → Layered q.steps level depth
    → (c : Times) × (topo_sort depth q ≡ some (record q { time = c.time; dfs_time = c.dfs_time }))
      × ((x : ℕ) → is_some (find x q.steps) ≡ true → Before q.steps c.time x)
unfolding topo_sort
topo_sort-Before q level depth distinct layered =
    let v = times q.steps distinct level depth layered in
    rw v.1 (
      v.0,
      refl,
      λ x h.
          let r = is_some-some (find x q.steps) h in
          let a =
            is_some-some (v.0.time x)
              (visited q.steps distinct level depth layered depth x r.0 (omega arith) r.1) in
          (
            a.0,
            a.1,
            λ d w.
                let s = is_some-some (find d q.steps) (layered.known x d w) in
                let b =
                  is_some-some (v.0.time d)
                    (visited q.steps distinct level depth layered depth d s.0 (omega arith) s.1) in
                let e = v.2.timed.closed d b.0 x b.1 (member-edges q.steps x d distinct ∙ w) in
                (b.0, b.1, omega (arith, some_injective (sym a.1 ∙ e.1), e.2)),
          ),
    )
