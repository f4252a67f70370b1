-- ===== src/Util/InitSequencer.antt =====
-- util/InitSequencer.cc and util/InitSequencer.h. The name of a step is a number, in the order of the
-- strings. The members of a step that change are maps from its name in the sequencer. `none` is a
-- failed assertion or a panic, or a recursion that is deeper than `depth`.
pub mod Cycle
pub mod Dfs
pub mod Edges
pub mod Extra
pub mod Push
pub mod Weight
pub mod Mark
pub mod Run
pub mod Sort
pub mod Start
mod Tests
pub mod Topo
use oasys.Base.{
  ◌>>=◌, is_some, ℕ, zero, suc, ◌+◌, Bool, true, false, not, ◌&&◌, ◌||◌, List, [], ◌∷◌, ◌++◌,
  Option, none, some, length, ltb, leb, ◌==◌, if◌then◌else◌, Table, find, update, Option-cases,
}

-- `run` of an InitConfigStep does nothing, and its `done_` is set from outside.
pub record Step : Type 0 where
  pub dependencies : List ℕ
  pub is_config : Bool

pub record Sequencer : Type 0 where
  pub steps : Table Step
  pub done : ℕ → Bool
  pub mark : ℕ → Bool
  pub time : ℕ → Option ℕ  -- `none` is -1
  pub dfs_time : ℕ
  pub extra_dependencies : List (ℕ × ℕ)  -- new_dep_ and depender_

abbrev pub write_at {ℓ} : {A : Type ℓ} → (ℕ → A) → ℕ → A → ℕ → A
write_at f k a x = if x == k then a else f x

-- `steps_[name] = step`, of a new name.
unfoldable pub insert_step : ℕ → Step → Table Step → Table Step
insert_step n s [] = (n, s) ∷ []
insert_step n s ((m, r) ∷ t) =
    let rest = insert_step n s t in if ltb n m then (n, s) ∷ (m, r) ∷ t else (m, r) ∷ rest

unfoldable pub add_step : ℕ → Step → Sequencer → Sequencer
add_step n s q = if is_some (find n q.steps) then q else record q {
  steps = insert_step n s q.steps;
  done = write_at q.done n false;
  mark = write_at q.mark n false;
  time = write_at q.time n none;
}

unfoldable pub reset : Sequencer → Sequencer
reset q = record q { done = λ x. if is_some (find x q.steps) then false else q.done x }

abbrev pub configuration_done : ℕ → Sequencer → Sequencer
configuration_done n q = record q { done = write_at q.done n true }

abbrev pub add_extra_dep : ℕ → ℕ → Sequencer → Sequencer
add_extra_dep new_dep depender q = record q {
  extra_dependencies = q.extra_dependencies ++ (new_dep, depender) ∷ [];
}

unfoldable pub add_dep : ℕ → ℕ → Table Step → Option (Table Step)
add_dep new_dep depender t = find new_dep t >>= λ r. find depender t >>= λ s.
    some (update depender (record s { dependencies = s.dependencies ++ new_dep ∷ [] }) t)

unfoldable pub add_deps : List (ℕ × ℕ) → Table Step → Option (Table Step)
add_deps [] t = some t
add_deps ((new_dep, depender) ∷ extra) t = add_dep new_dep depender t >>= add_deps extra

unfoldable pub add_extra_deps : Sequencer → Option Sequencer
add_extra_deps q = add_deps q.extra_dependencies q.steps >>= λ t.
    some (record q { steps = t; extra_dependencies = [] })

-- The dependencies of a known step.
abbrev pub deps_or_none : Option Step → List ℕ
deps_or_none none = []
deps_or_none (some s) = s.dependencies

unfoldable pub deps_of : Table Step → ℕ → List ℕ
deps_of t n = deps_or_none (find n t)

-- The dependencies that are pushed, the last one on top; a panic where one is bogus.
unfoldable pub push_unmarked : Table Step → (ℕ → Bool) → List ℕ → List ℕ → Option (List ℕ)
push_unmarked t mark [] stack = some stack
push_unmarked t mark (d ∷ ds) stack =
    let rest = push_unmarked t mark ds (if mark d then stack else d ∷ stack) in
    if is_some (find d t) then rest else none

-- The loop of mark_dep; its last line is out of fuel.
unfoldable pub mark_steps : ℕ → Table Step → (ℕ → Bool) → List ℕ → Option (ℕ → Bool)
mark_steps fuel t mark [] = some mark
mark_steps zero t mark (n ∷ stack) = none
mark_steps (suc fuel) t mark (n ∷ stack) =
    push_unmarked t (write_at mark n true) (deps_of t n) stack
    >>= mark_steps fuel t (write_at mark n true)

unfoldable pub mark_fuel : Table Step → ℕ
mark_fuel [] = 1
mark_fuel ((n, s) ∷ t) = suc (length s.dependencies) + mark_fuel t

unfoldable pub mark_dep : ℕ → Sequencer → Option Sequencer
mark_dep target q =
    if is_some (find target q.steps)
    then (mark_steps (mark_fuel q.steps) q.steps (λ x. false) (target ∷ []) >>= λ mark.
        some (record q { mark = mark }))
    else none

-- `edges[n]`: a step stands there as often as it names `n`.
unfoldable pub copies : ℕ → ℕ → List ℕ → List ℕ
copies n m [] = []
copies n m (d ∷ ds) = let rest = copies n m ds in if d == n then m ∷ rest else rest

unfoldable pub edges : Table Step → ℕ → List ℕ
edges [] n = []
edges ((m, s) ∷ t) n = copies n m s.dependencies ++ edges t n

-- What the search writes.
pub record Times : Type 0 where
  pub time : ℕ → Option ℕ
  pub dfs_time : ℕ

abbrev pub finish : ℕ → Times → Times
finish n c = record { time = write_at c.time n (some c.dfs_time); dfs_time = suc c.dfs_time }

unfoldable pub visit_all : (ℕ → Times → Option Times) → List ℕ → Times → Option Times
visit_all visit [] c = some c
visit_all visit (m ∷ ms) c =
    (if is_some (c.time m) then some c else visit m c) >>= visit_all visit ms

unfoldable pub dfs : (ℕ → List ℕ) → ℕ → ℕ → Times → Option Times
dfs out zero n c = none
dfs out (suc depth) n c = visit_all (dfs out depth) (out n) c >>= λ c'. some (finish n c')

-- The steps without dependencies, the last one on top of the stack.
unfoldable pub roots : Table Step → List ℕ → List ℕ
roots [] stack = stack
roots ((n, s) ∷ t) stack = roots t (if length s.dependencies == 0 then n ∷ stack else stack)

unfoldable pub dfs_roots : (ℕ → List ℕ) → ℕ → List ℕ → Times → Option Times
dfs_roots out depth [] c = some c
dfs_roots out depth (n ∷ stack) c = dfs out depth n c >>= dfs_roots out depth stack

unfoldable pub topo_sort : ℕ → Sequencer → Option Sequencer
topo_sort depth q =
    dfs_roots (edges q.steps) depth (roots q.steps []) (record { time = λ x. none; dfs_time = 0 })
    >>= λ c. some (record q { time = c.time; dfs_time = c.dfs_time })

abbrev pub time_key : Option ℕ → ℕ
time_key none = 0
time_key (some t) = suc t

-- std::sort by decreasing times; which of two equal times comes first is left open there.
unfoldable pub insert_by : (ℕ → ℕ) → ℕ → List ℕ → List ℕ
insert_by key n [] = n ∷ []
insert_by key n (m ∷ ms) =
    let rest = insert_by key n ms in if leb (key m) (key n) then n ∷ m ∷ ms else m ∷ rest

unfoldable pub sort_by : (ℕ → ℕ) → Table Step → List ℕ
sort_by key [] = []
sort_by key ((n, s) ∷ t) = insert_by key n (sort_by key t)

unfoldable pub dep_are_satisfied : Table Step → (ℕ → Bool) → List ℕ → Option Bool
dep_are_satisfied t done [] = some true
dep_are_satisfied t done (d ∷ ds) =
    find d t >>= λ s. dep_are_satisfied t done ds >>= λ sat. some (done d && sat)

-- The error of `run_component` is a parameter.
module _ (run_component : ℕ → ℕ) where
  -- InitStep::run.
  unfoldable pub run : ℕ → Step → (ℕ → Bool) → ℕ × (ℕ → Bool)
  run n s done =
      if s.is_config
      then (0, done)
      else (run_component n, if run_component n == 0 then write_at done n true else done)

  unfoldable pub run_all : Table Step → (ℕ → Bool) → (ℕ → Bool) → List ℕ → Option (ℕ × (ℕ → Bool))
  run_all t mark done [] = some (0, done)
  run_all t mark done (n ∷ ns) = find n t >>= λ s.
      let rest = run_all t mark done ns in
      let after = run_all t mark (run n s done).1 ns in
      if mark n && not (done n)
      then (dep_are_satisfied t done s.dependencies >>= λ sat.
          if not sat then none else if (run n s done).0 == 0 then after else some (run n s done))
      else rest

  unfoldable pub run_steps : Sequencer → Option (ℕ × Sequencer)
  run_steps q = run_all q.steps q.mark q.done (sort_by (λ n. time_key (q.time n)) q.steps) >>= λ r.
      some (r.0, record q { done = r.1 })

  -- InitSequencer::start.
  unfoldable pub start : ℕ → ℕ → Sequencer → Option (ℕ × Sequencer)
  start depth target q =
      add_extra_deps q >>= λ q1. mark_dep target q1 >>= λ q2. topo_sort depth q2 >>= run_steps
