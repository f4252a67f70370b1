-- ===== src/Util/InitSequencer/Start.antt =====
-- InitSequencer::start of util/InitSequencer.cc as a whole.
use oasys.Base.{
  ℕ, ◌<◌, Bool, true, false, [], Option, some, ◌≡◌, refl, sym, ap, ◌∙◌, ◌⊎◌, ◌↔◌, inl, inr, arith,
  Table, Distinct, find, member, false≢true, Bool-cases, Option-cases, is_some,
}
use oasys.Util.InitSequencer.{
  Step, Sequencer, deps_of, add_deps, add_extra_deps, run_steps, start, time_key, sort_by,
}
use oasys.Util.InitSequencer.Edges.{deps_of-none}
use oasys.Util.InitSequencer.Mark.{Known, Needs, dependency, Needs-Known, mark_dep-Needs}
use oasys.Util.InitSequencer.Extra.{add_deps-Distinct}
use oasys.Util.InitSequencer.Sort.{sort_by-Sorted, member-sort_by}
use oasys.Util.InitSequencer.Run.{Ran, run_all-Ran}
use oasys.Util.InitSequencer.Topo.{Layered, Before, topo_sort-Before}

-- What a start that returns `err` has done to the sequencer.
pub record Started (run_component : ℕ → ℕ) (t : Table Step) (target : ℕ) (done : ℕ → Bool) (err : ℕ)
    (done' : ℕ → Bool) : Type 0 where
  pub stays : (x : ℕ) → done x ≡ true → done' x ≡ true
  pub only : (x : ℕ) → done' x ≡ true → (done x ≡ true) ⊎ Needs t target x
  pub all : err ≡ 0 → (x : ℕ) → Needs t target x → done' x ≡ true
  pub failed :
      (err ≡ 0) ⊎ ((x : ℕ) × Needs t target x × (done' x ≡ false) × (run_component x ≡ err))

Ran-Started :
    (run_component : ℕ → ℕ) (t : Table Step) (known : Known t) (target : ℕ) (mark done : ℕ → Bool)
    (key : ℕ → ℕ) (err : ℕ) (done' : ℕ → Bool)
    → is_some (find target t) ≡ true
    → ((x : ℕ) → (mark x ≡ true) ↔ Needs t target x)
    → Ran run_component t mark key known done err done'
    → Started run_component t target done err done'
Ran-Started run_component t known target mark done key err done' h c r = record {
  stays = r.stays;
  only = λ x e. elim (Bool-cases (done x)) [
    | inl g ↦ inl g
    | inr g ↦ inr ((c x).0 (ground (arith, r.only x e, g)))
  ];
  all = λ z x n. r.all z x ((c x).1 n) (Needs-Known t target x known h n);
  failed = elim r.failed [ inl z ↦ inl z | inr (x, e, g, f) ↦ inr (x, (c x).0 e, g, f) ];
}

time_key-later :
    (t : Table Step) (time : ℕ → Option ℕ)
    → ((x : ℕ) → is_some (find x t) ≡ true → Before t time x)
    → (x d : ℕ) → member d (deps_of t x) ≡ true
    → time_key (time x) < time_key (time d)
unfolding member
time_key-later t time h x d w = elim (Option-cases (find x t)) [
  | inl e ↦ absurd (false≢true (ap (member d) (sym (deps_of-none t x e)) ∙ w))
  | inr (s, e) ↦
      let b = h x (ap is_some e) in
      let e' = b.2 d w in omega (arith, ap time_key b.1, ap time_key e'.1, e'.2)
]

-- A start of steps of distinct names, with dependencies that are steps and no cycle of them, ends and
-- fails no assertion: each step finds its dependencies done. It runs steps that the target needs and no
-- others, all of them if it returns 0, and another error is that of a needed step that is not done. The
-- configuration steps that the target needs are assumed to be done.
pub start-Started :
    (run_component : ℕ → ℕ) (depth target : ℕ) (q : Sequencer) (t : Table Step) (level : ℕ → ℕ)
    → add_deps q.extra_dependencies q.steps ≡ some t
    → Distinct q.steps
    → Layered t level depth
    → is_some (find target t) ≡ true
    → ((x : ℕ) (s : Step)
        → find x t ≡ some s
        → s.is_config ≡ true
        → Needs t target x
        → q.done x ≡ true)
    → (err : ℕ) × (q' : Sequencer) × (start run_component depth target q ≡ some (err, q'))
      × Started run_component t target q.done err q'.done
unfolding start add_extra_deps run_steps
start-Started run_component depth target q t level extra separate layered h config =
    let distinct = add_deps-Distinct q.extra_dependencies q.steps t separate extra in
    let q1 : Sequencer = record q { steps = t; extra_dependencies = [] } in
    let m = mark_dep-Needs q1 target distinct layered.known h in
    let c = topo_sort-Before (record q1 { mark = m.0 }) level depth distinct layered in
    let key : ℕ → ℕ = λ n. time_key (c.0.time n) in
    let ran =
      run_all-Ran run_component t m.0 key layered.known
        (λ x d e w. (m.2 d).1 (dependency x d ((m.2 x).0 e) w)) (time_key-later t c.0.time c.2)
        q.done (sort_by key t) (sort_by-Sorted key t)
        (record {
          left = λ x e k. ground (arith, member-sort_by key x t, k);
          steps = λ x w. sym (member-sort_by key x t) ∙ w;
          configured = λ x s e g w. config x s e g ((m.2 x).0 w);
        }) in
    rw (extra, m.1, c.1, ran.2)
      (
        ran.0,
        record q {
          steps = t;
          done = ran.1;
          mark = m.0;
          time = c.0.time;
          dfs_time = c.0.dfs_time;
          extra_dependencies = [];
        },
        refl,
        Ran-Started run_component t layered.known target m.0 q.done key ran.0 ran.1 h m.2 ran.3,
      )
