-- ===== src/Util/InitSequencer/Run.antt =====
-- InitSequencer::run_steps of util/InitSequencer.cc on steps that are sorted: a step runs after its
-- dependencies.
use oasys.Base.{
  ℕ, ◌<◌, Bool, true, false, not, ◌&&◌, ◌||◌, List, [], ◌∷◌, Option, some, ◌==◌, ◌≡◌, refl, sym, ap,
  ◌∙◌, ◌⊎◌, inl, inr, arith, Table, find, member, false≢true, Bool-cases, member-cons_self,
  ==_cases, is_some, is_some-some,
}
use oasys.Util.InitSequencer.{Step, deps_of, write_at, dep_are_satisfied, run, run_all}
use oasys.Util.InitSequencer.Dfs.{write_at_self}
use oasys.Util.InitSequencer.Edges.{deps_of-some}
use oasys.Util.InitSequencer.Mark.{Known}
use oasys.Util.InitSequencer.Sort.{Sorted}

satisfied :
    (t : Table Step) (done : ℕ → Bool) (ds : List ℕ)
    → ((d : ℕ) → member d ds ≡ true → is_some (find d t) ≡ true)
    → ((d : ℕ) → member d ds ≡ true → done d ≡ true)
    → dep_are_satisfied t done ds ≡ some true
unfolding dep_are_satisfied member
satisfied t done [] h g = refl
satisfied t done (d ∷ ds) h g =
    let s = is_some-some (find d t) (h d (member-cons_self d ds)) in
    let rest =
      satisfied t done ds (λ x w. h x (ground (arith, w))) (λ x w. g x (ground (arith, w))) in
    rw (s.1, rest, g d (member-cons_self d ds)) refl

module _ (run_component : ℕ → ℕ) (t : Table Step) (mark : ℕ → Bool) (key : ℕ → ℕ)
    (known : Known t) where
  -- What a run of a list from `done` on leaves.
  pub record Ran (done : ℕ → Bool) (err : ℕ) (done' : ℕ → Bool) : Type 0 where
    pub stays : (x : ℕ) → done x ≡ true → done' x ≡ true
    pub only : (x : ℕ) → done' x ≡ true → (done x || mark x) ≡ true
    pub all : err ≡ 0 → (x : ℕ) → mark x ≡ true → is_some (find x t) ≡ true → done' x ≡ true
    pub failed :
        (err ≡ 0) ⊎ ((x : ℕ) × (mark x ≡ true) × (done' x ≡ false) × (run_component x ≡ err))

  -- A marked step is done or in the list, and a marked configuration step is done.
  pub record Ready (done : ℕ → Bool) (ns : List ℕ) : Type 0 where
    pub left : (x : ℕ) → mark x ≡ true → is_some (find x t) ≡ true → (done x || member x ns) ≡ true
    pub steps : (x : ℕ) → member x ns ≡ true → is_some (find x t) ≡ true
    pub configured :
        (x : ℕ) (s : Step) → find x t ≡ some s → s.is_config ≡ true → mark x ≡ true → done x ≡ true

  abbrev pub Result : (ℕ → Bool) → Option (ℕ × (ℕ → Bool)) → Type 0
  Result done r = (err : ℕ) × (done' : ℕ → Bool) × (r ≡ some (err, done')) × Ran done err done'

  Ready-next :
      (done done' : ℕ → Bool) (n : ℕ) (ns : List ℕ)
      → Ready done (n ∷ ns)
      → ((x : ℕ) → done x ≡ true → done' x ≡ true)
      → (mark n ≡ true → done' n ≡ true)
      → Ready done' ns
  unfolding member
  Ready-next done done' n ns r up own = record {
    left = λ x h k. elim (==_cases x n) [
      | inl g ↦ ground (arith, own (ap mark (sym g) ∙ h), ap done' g)
      | inr g ↦ ground (arith, r.left x h k, up x, g)
    ];
    steps = λ x w. r.steps x (ground (arith, w));
    configured = λ x s e c h. up x (r.configured x s e c h);
  }

  Result-next :
      (done done1 : ℕ → Bool) (r : Option (ℕ × (ℕ → Bool)))
      → ((x : ℕ) → done x ≡ true → done1 x ≡ true)
      → ((x : ℕ) → done1 x ≡ true → (done x || mark x) ≡ true)
      → Result done1 r
      → Result done r
  Result-next done done1 r up only v = (
    v.0,
    v.1,
    v.2,
    record {
      stays = λ x e. v.3.stays x (up x e);
      only = λ x e. ground (arith, v.3.only x e, only x);
      all = v.3.all;
      failed = v.3.failed;
    },
  )

  Ran-end : (done : ℕ → Bool) → Ready done [] → Ran done 0 done
  unfolding member
  Ran-end done r = record {
    stays = λ x e. e;
    only = λ x e. ground (arith, e);
    all = λ e x h k. ground (arith, r.left x h k);
    failed = inl refl;
  }

  Ran-failed :
      (done : ℕ → Bool) (n : ℕ)
      → mark n ≡ true
      → done n ≡ false
      → (run_component n == 0) ≡ false
      → Ran done (run_component n) done
  Ran-failed done n h g e = record {
    stays = λ x e. e;
    only = λ x e. ground (arith, e);
    all = λ z. absurd (ground (arith, z, e));
    failed = inr (n, h, g, refl);
  }

  module _ (closed : (x d : ℕ) → mark x ≡ true → member d (deps_of t x) ≡ true → mark d ≡ true)
      (later : (x d : ℕ) → member d (deps_of t x) ≡ true → key x < key d) where
    -- The dependencies of the next step are done.
    deps_done :
        (done : ℕ → Bool) (n : ℕ) (s : Step) (ns : List ℕ)
        → find n t ≡ some s
        → mark n ≡ true
        → Sorted key (n ∷ ns)
        → Ready done (n ∷ ns)
        → dep_are_satisfied t done s.dependencies ≡ some true
    unfolding member
    deps_done done n s ns e h sorted r =
        let dep = deps_of-some t n s e in
        satisfied t done s.dependencies (λ d w. known n d (ap (member d) dep ∙ w))
          (λ d w.
            let w' = ap (member d) dep ∙ w in
            let after = later n d w' in
            let left = r.left d (closed n d h w') (known n d w') in
            elim (==_cases d n) [
              | inl g ↦ absurd (omega (arith, after, ap key g))
              | inr g ↦ elim (Bool-cases (member d ns)) [
                | inl u ↦ absurd (omega (arith, after, sorted.0 d u))
                | inr u ↦ ground (arith, left, g, u)
              ]
            ])

    pub run_all-Ran :
        (done : ℕ → Bool) (ns : List ℕ)
        → Sorted key ns
        → Ready done ns
        → Result done (run_all run_component t mark done ns)
    unfolding run_all run
    run_all-Ran done [] sorted r = (0, done, refl, Ran-end done r)
    run_all-Ran done (n ∷ ns) sorted r =
        let s = is_some-some (find n t) (r.steps n (member-cons_self n ns)) in
        elim (Bool-cases (mark n && not (done n))) [
          | inl e ↦
              let marked : mark n ≡ true = ground (arith, e) in
              let fresh : done n ≡ false = ground (arith, e) in
              let sat = deps_done done n s.0 ns s.1 marked sorted r in
              elim (Bool-cases s.0.is_config) [
                | inl c ↦ absurd (false≢true (sym fresh ∙ r.configured n s.0 s.1 c marked))
                | inr c ↦ elim (Bool-cases (run_component n == 0)) [
                  | inl z ↦
                      let up : (x : ℕ) → done x ≡ true → write_at done n true x ≡ true =
                        λ x g. ground (arith, g) in
                      let next =
                        Ready-next done (write_at done n true) n ns r up
                          (λ g. write_at_self done n true) in
                      let more = run_all-Ran (write_at done n true) ns sorted.1 next in
                      rw (s.1, e, sat, c, z)
                        (Result-next done (write_at done n true)
                          (run_all run_component t mark (write_at done n true) ns) up
                          (λ x g. elim (==_cases x n) [
                            | inl w ↦ ground (arith, marked, ap mark w)
                            | inr w ↦ ground (arith, g, w)
                          ])
                          more)
                  | inr z ↦
                      rw (s.1, e, sat, c, z)
                        (run_component n, done, refl, Ran-failed done n marked fresh z)
                ]
              ]
          | inr e ↦
              let more =
                run_all-Ran done ns sorted.1
                  (Ready-next done done n ns r (λ x g. g) (λ g. ground (arith, e, g))) in
              rw (s.1, e) more
        ]
