-- ===== src/Join/Round1.antt =====
-- TripleBit/SortMergeJoin.cpp: one round of `Merge1` keeps its two pages and positions in order.
use mgtag.Prelude.{
  ℕ, suc, ◌-◌, ◌≤◌, ◌<◌, ◌≡◌, ◌≢◌, inl, inr, refl, sym, ap, ◌∙◌, Bool, true, List, some, ltb, ◌==◌,
  Bool-cases, arith,
}
use mgtag.Compact.{Page, start}
use mgtag.Compact.Laws.{Compacted, start-Compacted}
use mgtag.Join.{
  Side, State, page_cells, key_at, skip_less, skip_equal, take_equal, running, round1, rounds,
}
use mgtag.Join.Rounds.{IsSide, rounds_lem, halted}
use mgtag.Join.Sides.{
  same-Run, same-Below, Run-moves, has, has_found, Below, skip_less_lem, skip_equal_lem,
}
use mgtag.Join.Taken.{skip_range, unread_key, take_equal_lem}
use mgtag.Join.Apart.{
  Apart, start-Apart, less_dropped, equal-Apart, equal_dropped, unequal-Apart, rest1_dropped,
  rest2_dropped,
}

module _ (s1 s2 : Side) (old1 old2 : List ℕ) (v1 : IsSide s1 old1) (v2 : IsSide s2 old2)
    (fresh : (a : ℕ) → a < s1.records → key_at s1 old1 a ≢ key_at s2 old2 s2.records) where
  abbrev key1 : ℕ → ℕ
  key1 = key_at s1 old1

  abbrev key2 : ℕ → ℕ
  key2 = key_at s2 old2

  abbrev test1 : ℕ → Bool
  test1 a = has key2 s2.records (key1 a)

  abbrev test2 : ℕ → Bool
  test2 b = has key1 s1.records (key2 b)

  record Both (t : State) : Type 0 where
    first : Compacted old1 page_cells s1.id_count test1 t.i t.page1
    second : Compacted old2 page_cells s2.id_count test2 t.j t.page2
    apart : Apart key1 key2 s1.records s2.records t.i t.j

  meets :
      (t : State) (x j1 i' j' : ℕ) (p q : Page)
      → skip_less s2 t.page2.cells (key_at s1 t.page1.cells t.i) s2.records t.j ≡ j1
      → key_at s1 t.page1.cells t.i ≡ x
      → key_at s2 t.page2.cells j1 ≡ x
      → take_equal s1 x (suc s1.records) t.i t.page1 ≡ some (i', p)
      → take_equal s2 x (suc s2.records) j1 t.page2 ≡ some (j', q)
      → round1 s1 s2 t ≡ some (record { i = i'; j = j'; page1 = p; page2 = q })
  unfolding round1
  meets t x j1 i' j' p q e1 e2 e3 e4 e5 = ground arith

  misses :
      (t : State) (x j1 i' : ℕ)
      → skip_less s2 t.page2.cells (key_at s1 t.page1.cells t.i) s2.records t.j ≡ j1
      → key_at s1 t.page1.cells t.i ≡ x
      → key_at s2 t.page2.cells j1 ≢ x
      → skip_equal s1 t.page1.cells x s1.records t.i ≡ i'
      → round1 s1 s2 t ≡ some (record t { i = i'; j = j1 })
  unfolding round1
  misses t x j1 i' e1 e2 e3 e4 = ground arith

  -- where the second position comes to lie
  passed :
      (t : State)
      → Both t
      → Below key2 s2.records
          (key1 t.i)
          t.j
          (skip_less s2 t.page2.cells (key_at s1 t.page1.cells t.i) s2.records t.j)
  passed t v =
      let here =
        unread_key s1 old1 test1 v1.pages v1.even v1.holds v1.room t.i t.page1 t.i (omega arith)
          v.first in
      rw here (
        same-Below _ key2 s2.records (key1 t.i) t.j _
          (λ a l.
            unread_key s2 old2 test2 v2.pages v2.even v2.holds v2.room t.j t.page2 a l v.second)
          (skip_less_lem s2 t.page2.cells (key1 t.i) s2.records t.j v.apart.upto2 (omega arith)))

  inside_second : (i j1 : ℕ) → i < s1.records → j1 ≤ s2.records → key2 j1 ≡ key1 i → j1 < s2.records
  inside_second i j1 inside upto meet = elim (Bool-cases (ltb j1 s2.records)) [
    | inl l ↦ ground arith
    | inr n ↦
        let last : j1 ≡ s2.records = ground arith in
        absurd (fresh i inside (sym meet ∙ ap key2 last))
  ]

  round1-Both :
      (t : State)
      → Both t
      → running s1 s2 t ≡ true
      → (u : State) × (round1 s1 s2 t ≡ some u) × Both u × (t.i < u.i)
  round1-Both t v on =
      let j1 = skip_less s2 t.page2.cells (key_at s1 t.page1.cells t.i) s2.records t.j in
      let x = key1 t.i in
      let inside : t.i < s1.records = ground arith in
      let here =
        unread_key s1 old1 test1 v1.pages v1.even v1.holds v1.room t.i t.page1 t.i (omega arith)
          v.first in
      let below = passed t v in
      let there =
        unread_key s2 old2 test2 v2.pages v2.even v2.holds v2.room t.j t.page2 j1 below.from
          v.second in
      let second =
        skip_range s2 old2 test2 v2.pages v2.even v2.holds v2.room (j1 - t.j) t.j j1 t.page2
          (omega (arith, below.from)) below.upto
          (λ b l u.
            less_dropped key1 key2 s1.records s2.records v1.ascends v2.ascends t.i t.j j1 v.apart
              below b inside l u)
          v.second in
      elim (Bool-cases (key_at s2 t.page2.cells j1 == x)) [
        | inl hit ↦
            let met : key_at s2 t.page2.cells j1 ≡ x = ground arith in
            let meet : key2 j1 ≡ x = sym there ∙ met in
            let within : j1 < s2.records = inside_second t.i j1 inside below.upto meet in
            let (i', p, e1, r1, c1) =
              take_equal_lem s1 old1 test1 v1.pages v1.even v1.holds v1.room x (suc s1.records) t.i
                t.page1 v.apart.upto1 (omega arith)
                (λ a l e. has_found key2 s2.records (key1 a) j1 within (meet ∙ sym e)) v.first in
            let (j', q, e2, r2, c2) =
              take_equal_lem s2 old2 test2 v2.pages v2.even v2.holds v2.room x (suc s2.records) j1
                t.page2 below.upto (omega arith)
                (λ b l e. has_found key1 s1.records (key2 b) t.i inside (sym e)) second in
            (
              record { i = i'; j = j'; page1 = p; page2 = q },
              meets t x j1 i' j' p q refl here met e1 e2,
              record {
                first = c1;
                second = c2;
                apart =
                    equal-Apart key1 key2 s1.records s2.records v1.ascends v2.ascends t.i t.j j1
                      v.apart below i' j' meet within r1 r2;
              },
              Run-moves key1 s1.records x t.i i' inside refl r1,
            )
        | inr miss ↦
            let i' = skip_equal s1 t.page1.cells x s1.records t.i in
            let apart_keys : key_at s2 t.page2.cells j1 ≢ x = ground arith in
            let run =
              same-Run _ key1 s1.records x t.i i'
                (λ a l.
                  unread_key s1 old1 test1 v1.pages v1.even v1.holds v1.room t.i t.page1 a l
                    v.first)
                (skip_equal_lem s1 t.page1.cells x s1.records t.i v.apart.upto1 (omega arith)) in
            let part : j1 < s2.records → key2 j1 ≢ x = λ l e. apart_keys (there ∙ e) in
            (
              record t { i = i'; j = j1 },
              misses t x j1 i' refl here apart_keys refl,
              record {
                first =
                    skip_range s1 old1 test1 v1.pages v1.even v1.holds v1.room (i' - t.i) t.i i'
                      t.page1 (omega (arith, run.from)) run.upto
                      (λ a l u.
                        equal_dropped key1 key2 s1.records s2.records v1.ascends v2.ascends t.i t.j
                          j1 v.apart below i' part run a l u)
                      v.first;
                second = second;
                apart =
                    unequal-Apart key1 key2 s1.records s2.records v1.ascends v2.ascends t.i t.j j1
                      v.apart below i' part run;
              },
              Run-moves key1 s1.records x t.i i' inside refl run,
            )
      ]

  start-Both : Both (record { i = 0; j = 0; page1 = start old1; page2 = start old2 })
  start-Both = record {
    first = start-Compacted old1 page_cells s1.id_count test1;
    second = start-Compacted old2 page_cells s2.id_count test2;
    apart = start-Apart key1 key2 s1.records s2.records v1.ascends v2.ascends;
  }

  pub rounds1_lem :
      (t : State) × (rounds s1 s2
          (round1 s1 s2)
          (suc s1.records)
          (record { i = 0; j = 0; page1 = start old1; page2 = start old2 })
        ≡ some t)
      × Compacted old1 page_cells s1.id_count test1 s1.records t.page1
      × Compacted old2 page_cells s2.id_count test2 s2.records t.page2
  rounds1_lem =
      let (t, e, v, off) =
        rounds_lem s1 s2 Both (round1 s1 s2) (λ t v. v.apart.upto1) round1-Both (suc s1.records)
          (record { i = 0; j = 0; page1 = start old1; page2 = start old2 }) start-Both
          (omega arith) in
      let ended = halted s1 s2 t off in
      (
        t,
        e,
        skip_range s1 old1 test1 v1.pages v1.even v1.holds v1.room (s1.records - t.i) t.i s1.records
            t.page1 (omega (arith, v.apart.upto1)) (omega arith)
            (λ a l u. elim ended [
              | inl all ↦ absurd (omega arith)
              | inr all ↦
                  rest1_dropped key1 key2 s1.records s2.records v1.ascends v2.ascends t.i t.j a
                    v.apart all l u
            ])
            v.first,
        skip_range s2 old2 test2 v2.pages v2.even v2.holds v2.room (s2.records - t.j) t.j s2.records
            t.page2 (omega (arith, v.apart.upto2)) (omega arith)
            (λ b l u. elim ended [
              | inl all ↦
                  rest2_dropped key1 key2 s1.records s2.records v1.ascends v2.ascends t.i t.j b
                    v.apart all l u
              | inr all ↦ absurd (omega arith)
            ])
            v.second,
      )
