-- ===== src/Util/Cache/Room.antt =====
-- Cache::put_and_pin of util/Cache.h, with its loop.
use oasys.Base.{
  ℕ, zero, suc, ◌≤◌, ◌<◌, true, false, none, some, ◌==◌, if◌then◌else◌, ◌≡◌, refl, sym, ap, ◌∙◌,
  arith, inl, inr, ◌⊎◌, ◌>>=◌, Distinct, find, erase, length, find-erase_self, find-erase_other,
  erase-Distinct, length-erase, Bool-cases, ==_cases, none≢some, is_some, Option-cases,
  some_injective,
}
use oasys.Util.Cache.{
  Helper, Entry, Cache, first_unpinned, drop_entry, evict_last, or_stop, make_room, add_entry,
  put_found, put_and_pin,
}
use oasys.Util.Cache.Lookup.{
  first_unpinned-some, first_unpinned-none, find-append_other, find-append_self, append-Distinct,
}
use oasys.Util.Cache.Accounts.{Accounts}

module _ {V : Type 0} {h : Helper V} (accounts : Accounts h) where
  -- The names of the entries are distinct, and the helper stands for them.
  pub record Coherent (c : Cache h) : Type 0 where
    pub distinct : Distinct c.entries
    pub held : accounts.Holds c.helper c.entries

  -- From `c` on, only entries that were not pinned have left.
  pub record Evicted (c c' : Cache h) : Type 0 where
    pub coherent : Coherent c'
    pub pinned :
        (i : ℕ) (e : Entry V)
        → find i c.entries ≡ some e
        → (e.pin_count == 0) ≡ false
        → find i c'.entries ≡ some e
    pub only : (i : ℕ) (e : Entry V) → find i c'.entries ≡ some e → find i c.entries ≡ some e
    pub shorter : length c'.entries ≤ length c.entries

  Evicted-refl : (c : Cache h) → Coherent c → Evicted c c
  Evicted-refl c k = record {
    coherent = k;
    pinned = λ i e f z. f;
    only = λ i e f. f;
    shorter = omega arith;
  }

  Evicted-trans : (c c' c'' : Cache h) → Evicted c c' → Evicted c' c'' → Evicted c c''
  Evicted-trans c c' c'' g k = record {
    coherent = k.coherent;
    pinned = λ i e f z. k.pinned i e (g.pinned i e f z) z;
    only = λ i e f. g.only i e (k.only i e f);
    shorter = omega (arith, g.shorter, k.shorter);
  }

  pub drop_entry-Coherent :
      (k : ℕ) (e : Entry V) (c : Cache h)
      → find k c.entries ≡ some e
      → Coherent c
      → Coherent (drop_entry k e c)
  drop_entry-Coherent k e c f r = record {
    distinct = erase-Distinct k c.entries r.distinct;
    held = accounts.cleanup-Holds k e c.helper c.entries f r.held;
  }

  drop_entry-Evicted :
      (k : ℕ) (e : Entry V) (c : Cache h)
      → find k c.entries ≡ some e
      → e.pin_count ≡ 0
      → Coherent c
      → Evicted c (drop_entry k e c)
  drop_entry-Evicted k e c f z r = record {
    coherent = drop_entry-Coherent k e c f r;
    pinned = λ i u g p. elim (==_cases i k) [
      | inl w ↦
          let same : u ≡ e = some_injective (sym g ∙ ap (λ x. find x c.entries) w ∙ f) in
          absurd (ground (arith, p, z, ap (λ x. x.pin_count) same))
      | inr w ↦ find-erase_other i k c.entries w ∙ g
    ];
    only = λ i u g. elim (==_cases i k) [
      | inl w ↦ absurd (
          none≢some (
            sym (ap (λ x. find x (erase k c.entries)) w ∙ find-erase_self k c.entries r.distinct)
            ∙ g))
      | inr w ↦ sym (find-erase_other i k c.entries w) ∙ g
    ];
    shorter = omega (arith, length-erase k e c.entries f);
  }

  -- There is room in the cache, or all entries are pinned.
  abbrev pub Roomy : ℕ → V → Cache h → Type 0
  Roomy k v c =
      (h.over_limit k v c.helper ≡ false)
      ⊎ ((i : ℕ) (e : Entry V) → find i c.entries ≡ some e → (e.pin_count == 0) ≡ false)

  make_room-Evicted :
      (fuel k : ℕ) (v : V) (c : Cache h)
      → length c.entries < fuel
      → Coherent c
      → (c' : Cache h) × (make_room fuel k v c ≡ some c') × Evicted c c' × Roomy k v c'
  unfolding make_room evict_last
  make_room-Evicted zero k v c less r = absurd (omega arith)
  make_room-Evicted (suc fuel) k v c less r = elim (Bool-cases (h.over_limit k v c.helper)) [
    | inr e ↦ (
      c,
      ap (λ b. if b then or_stop c (evict_last c) (make_room fuel k v) else some c) e,
      Evicted-refl c r,
      inl e,
    )
    | inl e ↦
        let over =
          ap (λ b. if b then or_stop c (evict_last c) (make_room fuel k v) else some c) e in
        elim (Option-cases (first_unpinned c.entries)) [
          | inl f ↦ (
            c,
            over
                ∙ ap (λ o. or_stop c (o >>= λ p. some (drop_entry p.0 p.1 c)) (make_room fuel k v))
                    f,
            Evicted-refl c r,
            inr (first_unpinned-none c.entries f),
          )
          | inr ((j, u), f) ↦
              let found = first_unpinned-some c.entries j u r.distinct f in
              let gone = drop_entry-Evicted j u c found.0 found.1 r in
              let more =
                make_room-Evicted fuel k v (drop_entry j u c)
                  (omega (arith, length-erase j u c.entries found.0)) gone.coherent in
              (
                more.0,
                over
                    ∙ ap
                        (λ o.
                          or_stop c (o >>= λ p. some (drop_entry p.0 p.1 c)) (make_room fuel k v))
                        f
                    ∙ more.1,
                Evicted-trans c (drop_entry j u c) more.0 gone more.2,
                more.3,
              )
        ]
  ]

  -- What put_and_pin of a new key has done.
  pub record Put (k : ℕ) (v : V) (c c' : Cache h) : Type 0 where
    pub coherent : Coherent c'
    pub added : find k c'.entries ≡ some (record { val = v; pin_count = 1 })
    pub pinned :
        (i : ℕ) (e : Entry V)
        → find i c.entries ≡ some e
        → (e.pin_count == 0) ≡ false
        → find i c'.entries ≡ some e
    pub only :
        (i : ℕ) (e : Entry V) → find i c'.entries ≡ some e → (i ≡ k) ⊎ (find i c.entries ≡ some e)
    pub roomy :
        (c1 : Cache h) × (c' ≡ add_entry k v c1)
        × (length c1.entries ≤ length c.entries)
        × Roomy k v c1

  add_entry-Put :
      (k : ℕ) (v : V) (c c1 : Cache h)
      → find k c.entries ≡ none
      → Evicted c c1
      → Roomy k v c1
      → Put k v c (add_entry k v c1)
  add_entry-Put k v c c1 f g roomy =
      let fresh : find k c1.entries ≡ none = elim (Option-cases (find k c1.entries)) [
        | inl e ↦ e
        | inr (u, e) ↦ absurd (none≢some (sym f ∙ g.only k u e))
      ] in
      let new : Entry V = record { val = v; pin_count = 1 } in
      record {
        coherent = record {
          distinct = append-Distinct k new c1.entries fresh g.coherent.distinct;
          held = accounts.put-Holds k v 1 c1.helper c1.entries g.coherent.held;
        };
        added = find-append_self k new c1.entries fresh;
        pinned = λ i e w z. elim (==_cases i k) [
          | inl p ↦ absurd (none≢some (sym f ∙ ap (λ x. find x c.entries) (sym p) ∙ w))
          | inr p ↦ find-append_other i k new c1.entries p ∙ g.pinned i e w z
        ];
        only = λ i e w. elim (==_cases i k) [
          | inl p ↦ inl p
          | inr p ↦ inr (g.only i e (sym (find-append_other i k new c1.entries p) ∙ w))
        ];
        roomy = (c1, refl, g.shorter, roomy);
      }

  -- put_and_pin of a key that the cache has changes nothing; that of a new key ends, with the entry pinned
  -- once, without an eviction of a pinned entry, and with room for it made, unless all entries were pinned.
  pub put_and_pin-Put :
      (k : ℕ) (v : V) (c : Cache h)
      → Coherent c
      → ((is_some (find k c.entries) ≡ true) × (put_and_pin k v c ≡ some (false, c)))
        ⊎ ((c' : Cache h) × (put_and_pin k v c ≡ some (true, c')) × Put k v c c')
  unfolding put_and_pin
  put_and_pin-Put k v c r = elim (Option-cases (find k c.entries)) [
    | inr (e, f) ↦ inl (ap is_some f, ap (λ o. put_found k v c (is_some o)) f)
    | inl f ↦
        let made = make_room-Evicted (suc (length c.entries)) k v c (omega arith) r in
        inr (
          add_entry k v made.0,
          ap (λ o. put_found k v c (is_some o)) f
              ∙ ap (λ o. o >>= λ c'. some (true, add_entry k v c')) made.1,
          add_entry-Put k v c made.0 f made.2 made.3,
        )
  ]
