-- ===== src/Util/InitSequencer/Tests.antt =====
-- Runs of util/InitSequencer.cc: four steps, of which the fourth is a configuration step.
use oasys.Base.{
  ℕ, Bool, true, false, List, [], ◌∷◌, Option, none, some, ◌≡◌, refl, ap, ◌↔◌, ◌||◌, ◌&&◌, ◌==◌,
  arith, Table, find, update, Distinct, member, inl, inr, ==_cases, if◌then◌else◌, is_some,
}
use oasys.Util.InitSequencer.{
  Step, Sequencer, add_step, add_deps, mark_dep, topo_sort, start, deps_of, insert_step, add_dep,
  Times,
}
use oasys.Util.InitSequencer.Extra.{named}
use oasys.Util.InitSequencer.Mark.{Needs, mark_dep-Needs}
use oasys.Util.InitSequencer.Topo.{Layered, Before, topo_sort-Before}
use oasys.Util.InitSequencer.Cycle.{topo_sort-cycle}
use oasys.Util.InitSequencer.Start.{Started, start-Started}

abbrev step_on : List ℕ → Step
step_on ds = record { dependencies = ds; is_config = false }

abbrev config_step : Step
config_step = record { dependencies = []; is_config = true }

abbrev empty : Sequencer
empty = record {
  steps = [];
  done = λ x. false;
  mark = λ x. false;
  time = λ x. none;
  dfs_time = 0;
  extra_dependencies = [];
}

abbrev four_steps : Table Step
four_steps =
    (1, step_on []) ∷ (2, step_on (1 ∷ [])) ∷ (3, step_on (1 ∷ 4 ∷ [])) ∷ (4, config_step) ∷ []

abbrev three_steps : Table Step
three_steps =
    (1, step_on []) ∷ (2, step_on (1 ∷ [])) ∷ (3, step_on (1 ∷ [])) ∷ (4, config_step) ∷ []

abbrev four : Sequencer
four = record empty { steps = three_steps; done = λ x. x == 4; extra_dependencies = (4, 3) ∷ [] }

-- The steps come in the order of their names, and a known one is left alone.
add_step_order :
    (add_step 1
      (step_on (5 ∷ []))
      (add_step 1 (step_on []) (add_step 2 (step_on (1 ∷ [])) empty))).steps
    ≡ (1, step_on []) ∷ (2, step_on (1 ∷ [])) ∷ []
unfolding add_step insert_step find
add_step_order = refl

abbrev level : ℕ → ℕ
level x = if x == 2 || x == 3 then 0 else 1

four-Layered : Layered four_steps level 2
unfolding deps_of find member
four-Layered = record {
  known = λ x d w. ground (arith, w);
  above = λ x d w. ground (arith, w);
  bounded = λ x. ground arith;
}

add_extra : add_deps ((4, 3) ∷ []) three_steps ≡ some four_steps
unfolding add_deps add_dep find update
add_extra = refl

three-Distinct : Distinct three_steps
unfolding find
three-Distinct = (refl, (refl, (refl, (refl, tt))))

four-Distinct : Distinct four_steps
unfolding find
four-Distinct = (refl, (refl, (refl, (refl, tt))))

four-known : (x : ℕ) → (x == 2 || x == 3) ≡ true → is_some (find x four_steps) ≡ true
unfolding find
four-known x h = ground (arith, h)

abbrev is_config_or_none : Option Step → Bool
is_config_or_none none = false
is_config_or_none (some s) = s.is_config

configured :
    (x : ℕ) (s : Step)
    → find x four_steps ≡ some s
    → s.is_config ≡ true
    → Needs four_steps 3 x
    → four.done x ≡ true
unfolding find
configured x s e g n = ground (arith, ap is_config_or_none e, g)

extra_known :
    (d x : ℕ)
    → named d x ((4, 3) ∷ []) ≡ true
    → (is_some (find d three_steps) && is_some (find x three_steps)) ≡ true
unfolding find named
extra_known d x h = ground (arith, h)

start-Started_example :
    (err : ℕ) × (q' : Sequencer) × (start (λ n. 0) 2 3 four ≡ some (err, q'))
    × Started (λ n. 0) four_steps 3 four.done err q'.done
start-Started_example =
    start-Started (λ n. 0) 2 3 four four_steps level add_extra three-Distinct four-Layered
      (four-known 3 refl) configured

mark_dep-Needs_example :
    (mark : ℕ → Bool) × (mark_dep 2 (record four { steps = four_steps })
      ≡ some (record four { steps = four_steps; mark = mark }))
    × ((x : ℕ) → (mark x ≡ true) ↔ Needs four_steps 2 x)
mark_dep-Needs_example =
    mark_dep-Needs (record four { steps = four_steps }) 2 four-Distinct four-Layered.known
      (four-known 2 refl)

topo_sort-Before_example :
    (c : Times) × (topo_sort 2 (record four { steps = four_steps })
      ≡ some (record four { steps = four_steps; time = c.time; dfs_time = c.dfs_time }))
    × ((x : ℕ) → is_some (find x four_steps) ≡ true → Before four_steps c.time x)
topo_sort-Before_example =
    topo_sort-Before (record four { steps = four_steps }) level 2 four-Distinct four-Layered

abbrev cyclic : Sequencer
cyclic = record empty {
  steps = (1, step_on []) ∷ (2, step_on (1 ∷ 3 ∷ [])) ∷ (3, step_on (2 ∷ [])) ∷ [];
}

cyclic-Distinct : Distinct cyclic.steps
unfolding find
cyclic-Distinct = (refl, (refl, (refl, tt)))

cyclic-onward :
    (x : ℕ)
    → (x == 1 || x == 2 || x == 3) ≡ true
    → (y : ℕ) × (member x (deps_of cyclic.steps y) ≡ true) × ((y == 1 || y == 2 || y == 3) ≡ true)
unfolding deps_of find member
cyclic-onward x h = elim (==_cases x 2) [
  | inl e ↦ (3, ground (arith, e), refl)
  | inr e ↦ (2, ground (arith, e, h), refl)
]

cyclic-root : find 1 cyclic.steps ≡ some (step_on [])
unfolding find
cyclic-root = refl

topo_sort-cycle_example : topo_sort 100 cyclic ≡ none
topo_sort-cycle_example =
    topo_sort-cycle 100 cyclic (λ x. x == 1 || x == 2 || x == 3) 1 (step_on []) cyclic-onward
      cyclic-Distinct cyclic-root refl refl
