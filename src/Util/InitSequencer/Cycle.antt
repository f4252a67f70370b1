-- ===== src/Util/InitSequencer/Cycle.antt =====
-- InitSequencer::topo_sort of util/InitSequencer.cc where dependencies form a cycle.
use oasys.Base.{
  ℕ, zero, suc, Bool, true, false, List, [], ◌∷◌, Option, none, some, ◌==◌, ◌≡◌, refl, sym, ap, ◌∙◌,
  inl, inr, arith, Distinct, find, member, member-cons_self, subst, false≢true, none≢some,
  some_injective, Bool-cases, Option-cases, ==_cases, length, ◌>>=◌,
}
use oasys.Util.InitSequencer.{
  Step, Sequencer, Times, deps_of, edges, roots, finish, visit_all, dfs, dfs_roots, topo_sort,
}
use oasys.Util.InitSequencer.Dfs.{write_at_other}
use oasys.Util.InitSequencer.Edges.{member-edges, roots-root}
use oasys.Util.InitSequencer.Topo.{start_times}

module _ (out : ℕ → List ℕ) (c : ℕ → Bool)
    (onward : (x : ℕ) → c x ≡ true → (y : ℕ) × (member y (out x) ≡ true) × (c y ≡ true)) where
  -- No step of the set has a time.
  abbrev Untimed : Times → Type 0
  Untimed s = (x : ℕ) → c x ≡ true → s.time x ≡ none

  -- A search that ends leaves the set alone, and none of the visited steps is in it.
  abbrev Avoids : List ℕ → Option Times → Type 0
  Avoids ms r = (s : Times) → r ≡ some s → Untimed s × ((y : ℕ) → member y ms ≡ true → c y ≡ false)

  timed-outside : (s : Times) → Untimed s → (m t : ℕ) → s.time m ≡ some t → c m ≡ false
  timed-outside s u m t e = elim (Bool-cases (c m)) [
    | inl g ↦ absurd (none≢some (sym (u m g) ∙ e))
    | inr g ↦ g
  ]

  Avoids-cons :
      (m : ℕ) (ms : List ℕ) (r : Option Times) → c m ≡ false → Avoids ms r → Avoids (m ∷ ms) r
  unfolding member
  Avoids-cons m ms r h v s e = (
    (v s e).0,
    λ y w. elim (==_cases y m) [ inl g ↦ ap c g ∙ h | inr g ↦ (v s e).1 y (ground (arith, w, g)) ],
  )

  visit_all-Avoids :
      (visit : ℕ → Times → Option Times)
      → ((m : ℕ) (s : Times) → Untimed s → Avoids (m ∷ []) (visit m s))
      → (ms : List ℕ) (s : Times) → Untimed s
      → Avoids ms (visit_all visit ms s)
  unfolding visit_all member
  visit_all-Avoids visit call [] s u =
      λ s' e. (subst Untimed (some_injective e) u, λ y w. absurd (false≢true w))
  visit_all-Avoids visit call (m ∷ ms) s u = elim (Option-cases (s.time m)) [
    | inr (t, e) ↦ rw e (
        Avoids-cons m ms (visit_all visit ms s) (timed-outside s u m t e)
          (visit_all-Avoids visit call ms s u))
    | inl e ↦ elim (Option-cases (visit m s)) [
      | inl g ↦ rw (e, g) (λ s' z. absurd (none≢some z))
      | inr (s1, g) ↦
          let v = call m s u s1 g in
          rw (e, g)
            (Avoids-cons m ms (visit_all visit ms s1) (v.1 m (member-cons_self m []))
              (visit_all-Avoids visit call ms s1 v.0))
    ]
  ]

  dfs-end_Avoids :
      (x : ℕ) (r : Option Times) → Avoids (out x) r → Avoids (x ∷ []) (r >>= λ s. some (finish x s))
  unfolding member
  dfs-end_Avoids x none v s e = absurd (none≢some e)
  dfs-end_Avoids x (some s1) v s e =
      let left = v s1 refl in
      let outside : c x ≡ false = elim (Bool-cases (c x)) [
        | inl g ↦ let y = onward x g in absurd (false≢true (sym (left.1 y.0 y.1) ∙ y.2))
        | inr g ↦ g
      ] in
      let apart : (y : ℕ) → c y ≡ true → (y == x) ≡ false = λ y h. elim (==_cases y x) [
        | inl g ↦ absurd (false≢true (sym (ap c g ∙ outside) ∙ h))
        | inr g ↦ g
      ] in
      (
        λ y h.
            ap (λ r. r.time y) (sym (some_injective e))
            ∙ write_at_other s1.time x y (some s1.dfs_time) (apart y h)
            ∙ left.0 y h,
        λ y w. elim (==_cases y x) [
          | inl g ↦ ap c g ∙ outside
          | inr g ↦ absurd (ground (arith, w, g))
        ],
      )

  dfs-Avoids : (depth x : ℕ) (s : Times) → Untimed s → Avoids (x ∷ []) (dfs out depth x s)
  unfolding dfs
  dfs-Avoids zero x s u = λ s' e. absurd (none≢some e)
  dfs-Avoids (suc depth) x s u =
      dfs-end_Avoids x (visit_all (dfs out depth) (out x) s)
        (visit_all-Avoids (dfs out depth) (dfs-Avoids depth) (out x) s u)

  dfs_roots-Avoids :
      (depth : ℕ) (ns : List ℕ) (s : Times) → Untimed s → Avoids ns (dfs_roots out depth ns s)
  unfolding dfs_roots member
  dfs_roots-Avoids depth [] s u =
      λ s' e. (subst Untimed (some_injective e) u, λ y w. absurd (false≢true w))
  dfs_roots-Avoids depth (n ∷ ns) s u = elim (Option-cases (dfs out depth n s)) [
    | inl g ↦ rw g (λ s' z. absurd (none≢some z))
    | inr (s1, g) ↦
        let v = dfs-Avoids depth n s u s1 g in
        rw g (
          Avoids-cons n ns (dfs_roots out depth ns s1) (v.1 n (member-cons_self n []))
            (dfs_roots-Avoids depth ns s1 v.0))
  ]

-- Where a step without dependencies is in a set of steps, each with a depender in the set, as where a
-- cycle depends on it, the search goes on without end: no depth of the recursion is enough.
pub topo_sort-cycle :
    (depth : ℕ) (q : Sequencer) (c : ℕ → Bool) (root : ℕ) (s : Step)
    → ((x : ℕ) → c x ≡ true → (y : ℕ) × (member x (deps_of q.steps y) ≡ true) × (c y ≡ true))
    → Distinct q.steps
    → find root q.steps ≡ some s
    → s.dependencies ≡ []
    → c root ≡ true
    → topo_sort depth q ≡ none
unfolding topo_sort
topo_sort-cycle depth q c root s onward distinct e g h =
    let ahead : (x : ℕ)
        → c x ≡ true
        → (y : ℕ) × (member y (edges q.steps x) ≡ true) × (c y ≡ true) =
      λ x w. (
        (onward x w).0,
        member-edges q.steps (onward x w).0 x distinct ∙ (onward x w).1,
        (onward x w).2,
      ) in
    let avoids =
      dfs_roots-Avoids (edges q.steps) c ahead depth (roots q.steps []) start_times (λ x w. refl) in
    let rooted = roots-root q.steps root s [] e (ap (λ l. length l == 0) g) in
    elim (Option-cases (dfs_roots (edges q.steps) depth (roots q.steps []) start_times)) [
      | inl z ↦ rw z refl
      | inr (r, z) ↦ absurd (false≢true (sym ((avoids r z).1 root rooted) ∙ h))
    ]
