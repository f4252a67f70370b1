-- ===== src/Util/InitSequencer/Dfs.antt =====
-- The depth-first search of InitSequencer::topo_sort in util/InitSequencer.cc: what the times are
-- when the edges lead to lower levels.
use oasys.Base.{
  is_some-some, ℕ, zero, suc, ◌≤◌, ◌<◌, true, false, List, [], ◌∷◌, Option, none, some, ◌==◌, ◌≡◌,
  refl, sym, ap, ◌∙◌, inl, inr, arith, Option-cases, ==_cases, ==_refl, member, subst,
  member-cons_self, some_injective, none≢some, false≢true, ◌>>=◌, is_some,
}
use oasys.Util.InitSequencer.{write_at, Times, finish, visit_all, dfs, dfs_roots}

pub write_at_self {ℓ} : {A : Type ℓ} (f : ℕ → A) (k : ℕ) (a : A) → write_at f k a k ≡ a
write_at_self f k a = rw (==_refl k) refl

pub write_at_other {ℓ} :
    {A : Type ℓ} (f : ℕ → A) (k x : ℕ) (a : A) → (x == k) ≡ false → write_at f k a x ≡ f x
write_at_other f k x a h = rw h refl

module _ (out : ℕ → List ℕ) (level : ℕ → ℕ)
    (down : (x y : ℕ) → member y (out x) ≡ true → level y < level x) where
  -- A step that has a time has it above the times of all steps that depend on it.
  pub record Timed (c : Times) : Type 0 where
    pub below : (x t : ℕ) → c.time x ≡ some t → t < c.dfs_time
    pub closed :
        (x t y : ℕ)
        → c.time x ≡ some t
        → member y (out x) ≡ true
        → (s : ℕ) × (c.time y ≡ some s) × (s < t)

  -- From `c` on, only steps of a level below `b` have got a time.
  pub record Grown (b : ℕ) (c c' : Times) : Type 0 where
    pub timed : Timed c'
    pub stays : (x : ℕ) → is_some (c.time x) ≡ true → is_some (c'.time x) ≡ true
    pub frame : (x : ℕ) → b ≤ level x → c'.time x ≡ c.time x

  Grown-trans :
      (a b d : ℕ) (c c' c'' : Times) → a ≤ d → b ≤ d → Grown a c c' → Grown b c' c'' → Grown d c c''
  Grown-trans a b d c c' c'' p q g h = record {
    timed = h.timed;
    stays = λ x e. h.stays x (g.stays x e);
    frame = λ x e. h.frame x (omega arith) ∙ g.frame x (omega arith);
  }

  Grown-refl : (b : ℕ) (c : Times) → Timed c → Grown b c c
  Grown-refl b c k = record { timed = k; stays = λ x e. e; frame = λ x e. refl }

  finish-below :
      (x : ℕ) (c : Times) → Timed c → (y t : ℕ) → (finish x c).time y ≡ some t → t < suc c.dfs_time
  finish-below x c k y t e = elim (==_cases y x) [
    | inl h ↦ ground (
      arith,
      e,
      ap (write_at c.time x (some c.dfs_time)) h,
      write_at_self c.time x (some c.dfs_time),
    )
    | inr h ↦ omega (arith, k.below y t (sym (write_at_other c.time x y (some c.dfs_time) h) ∙ e))
  ]

  -- Two different levels belong to two steps.
  apart : (x y : ℕ) → level y < level x → (y == x) ≡ false
  apart x y h = elim (==_cases y x) [ inl e ↦ absurd (omega (arith, ap level e)) | inr e ↦ e ]

  finish-closed :
      (x : ℕ) (c : Times)
      → Timed c
      → ((z : ℕ) → member x (out z) ≡ true → c.time x ≡ none)
      → ((y : ℕ) → member y (out x) ≡ true → is_some (c.time y) ≡ true)
      → (z t y : ℕ) → (finish x c).time z ≡ some t
      → member y (out z) ≡ true
      → (s : ℕ) × ((finish x c).time y ≡ some s) × (s < t)
  finish-closed x c k safe children z t y e w = elim (==_cases z x) [
    | inl h ↦
        let w' : member y (out x) ≡ true = subst (λ v. member y (out v) ≡ true) h w in
        let v = is_some-some (c.time y) (children y w') in
        let end : c.dfs_time ≡ t = some_injective (
          sym (write_at_self c.time x (some c.dfs_time))
          ∙ ap (write_at c.time x (some c.dfs_time)) (sym h)
          ∙ e) in
        (
          v.0,
          write_at_other c.time x y (some c.dfs_time) (apart x y (down x y w')) ∙ v.1,
          omega (arith, k.below y v.0 v.1, end),
        )
    | inr h ↦
        let v = k.closed z t y (sym (write_at_other c.time x z (some c.dfs_time) h) ∙ e) w in
        elim (==_cases y x) [
          | inl g ↦
              let none_here = safe z (subst (λ u. member u (out z) ≡ true) g w) in
              absurd (none≢some (sym none_here ∙ ap c.time (sym g) ∙ v.1))
          | inr g ↦ (v.0, write_at_other c.time x y (some c.dfs_time) g ∙ v.1, v.2)
        ]
  ]

  finish-visited :
      (x : ℕ) (c : Times)
      → (y : ℕ) → is_some (c.time y) ≡ true
      → is_some ((finish x c).time y) ≡ true
  finish-visited x c y e = elim (==_cases y x) [
    | inl h ↦
        ap is_some
          (ap (write_at c.time x (some c.dfs_time)) h ∙ write_at_self c.time x (some c.dfs_time))
    | inr h ↦ ap is_some (write_at_other c.time x y (some c.dfs_time) h) ∙ e
  ]

  finish-Grown :
      (x : ℕ) (c : Times)
      → Timed c
      → ((z : ℕ) → member x (out z) ≡ true → c.time x ≡ none)
      → ((y : ℕ) → member y (out x) ≡ true → is_some (c.time y) ≡ true)
      → Grown (suc (level x)) c (finish x c)
  finish-Grown x c k safe children = record {
    timed = record { below = finish-below x c k; closed = finish-closed x c k safe children };
    stays = finish-visited x c;
    frame = λ y e. elim (==_cases y x) [
      | inl h ↦ absurd (omega (arith, ap level h))
      | inr h ↦ write_at_other c.time x y (some c.dfs_time) h
    ];
  }

  -- What a visit of `x` promises, and one of each of a list.
  abbrev pub Visited : (b : ℕ) → List ℕ → Times → Option Times → Type 0
  Visited b ms c r =
      (c' : Times) × (r ≡ some c')
      × Grown b c c'
      × ((y : ℕ) → member y ms ≡ true → is_some (c'.time y) ≡ true)

  Visited-cons :
      (b m : ℕ) (ms : List ℕ) (c c1 : Times) (r : Option Times)
      → Grown b c c1
      → is_some (c1.time m) ≡ true
      → Visited b ms c1 r
      → Visited b (m ∷ ms) c r
  unfolding member
  Visited-cons b m ms c c1 r g e v = (
    v.0,
    v.1,
    Grown-trans b b b c c1 v.0 (omega arith) (omega arith) g v.2,
    λ y w. elim (==_cases y m) [
      | inl h ↦ ap (λ u. is_some (v.0.time u)) h ∙ v.2.stays m e
      | inr h ↦ v.3 y (grind (arith, w, h))
    ],
  )

  visit_all-Visited :
      (visit : ℕ → Times → Option Times) (b : ℕ)
      (call : (m : ℕ) (c : Times)
        → level m < b
        → Timed c
        → c.time m ≡ none
        → Visited b (m ∷ []) c (visit m c))
      (ms : List ℕ) (c : Times)
      → ((y : ℕ) → member y ms ≡ true → level y < b)
      → Timed c
      → Visited b ms c (visit_all visit ms c)
  unfolding visit_all member
  visit_all-Visited visit b call [] c h k =
      (c, refl, Grown-refl b c k, λ y w. absurd (false≢true w))
  visit_all-Visited visit b call (m ∷ ms) c h k = elim (Option-cases (c.time m)) [
    | inl e ↦
        let v = call m c (h m (member-cons_self m ms)) k e in
        let more =
          visit_all-Visited visit b call ms v.0 (λ y w. h y (grind (arith, w))) v.2.timed in
        rw (e, v.1)
          (Visited-cons b m ms c v.0 (visit_all visit ms v.0) v.2 (v.3 m (member-cons_self m []))
            more)
    | inr (t, e) ↦
        let more = visit_all-Visited visit b call ms c (λ y w. h y (grind (arith, w))) k in
        rw e (Visited-cons b m ms c c (visit_all visit ms c) (Grown-refl b c k) (ap is_some e) more)
  ]

  Visited-weaken :
      (b d : ℕ) (ms : List ℕ) (c : Times) (r : Option Times)
      → b ≤ d
      → Visited b ms c r
      → Visited d ms c r
  Visited-weaken b d ms c r h v = (
    v.0,
    v.1,
    record { timed = v.2.timed; stays = v.2.stays; frame = λ y e. v.2.frame y (omega arith) },
    v.3,
  )

  dfs-end :
      (x : ℕ) (c : Times) (r : Option Times)
      → ((z : ℕ) → member x (out z) ≡ true → c.time x ≡ none)
      → Visited (level x) (out x) c r
      → Visited (suc (level x)) (x ∷ []) c (r >>= λ c'. some (finish x c'))
  unfolding member
  dfs-end x c r safe v =
      let g = finish-Grown x v.0 v.2.timed (λ z w. v.2.frame x (omega arith) ∙ safe z w) v.3 in
      rw v.1 (
        finish x v.0,
        refl,
        Grown-trans (level x) (suc (level x)) (suc (level x)) c v.0 (finish x v.0) (omega arith)
            (omega arith) v.2 g,
        λ y w. ap is_some (
            ap (finish x v.0).time (grind (arith, w))
            ∙ write_at_self v.0.time x (some v.0.dfs_time)),
      )

  pub dfs-Visited :
      (depth x : ℕ) (c : Times)
      → level x < depth
      → Timed c
      → ((z : ℕ) → member x (out z) ≡ true → c.time x ≡ none)
      → Visited (suc (level x)) (x ∷ []) c (dfs out depth x c)
  unfolding dfs
  dfs-Visited zero x c h k safe = absurd (omega arith)
  dfs-Visited (suc depth) x c h k safe = dfs-end x c (visit_all (dfs out depth) (out x) c) safe (
      visit_all-Visited (dfs out depth) (level x)
        (λ m c' p k' e.
          Visited-weaken (suc (level m)) (level x) (m ∷ []) c' (dfs out depth m c') (omega arith)
            (dfs-Visited depth m c' (omega arith) k' (λ z w. e)))
        (out x) c (down x) k)

  pub dfs_roots-Visited :
      (depth : ℕ) (ns : List ℕ) (c : Times)
      → ((y : ℕ) → level y < depth)
      → Timed c
      → ((y z : ℕ) → member y ns ≡ true → member y (out z) ≡ false)
      → Visited depth ns c (dfs_roots out depth ns c)
  unfolding dfs_roots member
  dfs_roots-Visited depth [] c h k top =
      (c, refl, Grown-refl depth c k, λ y w. absurd (false≢true w))
  dfs_roots-Visited depth (n ∷ ns) c h k top =
      let v =
        Visited-weaken (suc (level n)) depth (n ∷ []) c (dfs out depth n c) (omega (arith, h n)) (
          dfs-Visited depth n c (h n) k
            (λ z w. absurd (false≢true (sym (top n z (member-cons_self n ns)) ∙ w)))) in
      let more = dfs_roots-Visited depth ns v.0 h v.2.timed (λ y z w. top y z (grind (arith, w))) in
      rw v.1 (
        Visited-cons depth n ns c v.0 (dfs_roots out depth ns v.0) v.2
          (v.3 n (member-cons_self n [])) more)
