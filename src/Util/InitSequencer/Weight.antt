-- ===== src/Util/InitSequencer/Weight.antt =====
-- How much InitSequencer::mark_dep of util/InitSequencer.cc has left to push.
use oasys.Base.{
  ℕ, suc, ◌+◌, ◌≤◌, Bool, true, false, [], ◌∷◌, ◌≡◌, refl, ap, ◌∙◌, inl, inr, arith, Table,
  Distinct, find, length, ==_cases, if◌then◌else◌,
}
use oasys.Util.InitSequencer.{Step, deps_of, write_at, mark_fuel}
use oasys.Util.InitSequencer.Dfs.{write_at_self}
use oasys.Util.InitSequencer.Edges.{deps_of-none, deps_of-cons_self, deps_of-cons_other}

-- The dependencies that are still to be pushed, at most.
unfoldable pub weight : Table Step → (ℕ → Bool) → ℕ
weight [] mark = 0
weight ((n, s) ∷ t) mark = (if mark n then 0 else length s.dependencies) + weight t mark

pub weight_less :
    (t : Table Step) (mark : ℕ → Bool) (n : ℕ) → weight t (write_at mark n true) ≤ weight t mark
unfolding weight
weight_less [] mark n = omega arith
weight_less ((m, s) ∷ t) mark n = ground (arith, weight_less t mark n)

-- A step that is marked takes its dependencies out of the weight.
pub weight-write_at :
    (t : Table Step) (mark : ℕ → Bool) (n : ℕ)
    → Distinct t
    → mark n ≡ false
    → weight t (write_at mark n true) + length (deps_of t n) ≤ weight t mark
unfolding weight find
weight-write_at [] mark n d h = rw (deps_of-none [] n refl) (omega arith)
weight-write_at ((m, s) ∷ t) mark n d h = elim (==_cases n m) [
  | inl e ↦
      let len : deps_of ((m, s) ∷ t) n ≡ s.dependencies =
        ap (deps_of ((m, s) ∷ t)) e ∙ deps_of-cons_self m s t in
      rw len (ground (arith, ap mark e, h, weight_less t mark n, write_at_self mark n true, e))
  | inr e ↦ rw (deps_of-cons_other n m s t e) (ground (arith, e, weight-write_at t mark n d.1 h))
]

pub weight_start : (t : Table Step) → suc (weight t (λ x. false)) ≤ mark_fuel t
unfolding weight mark_fuel
weight_start [] = omega arith
weight_start ((n, s) ∷ t) = omega (arith, weight_start t)
