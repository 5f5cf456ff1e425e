-- ===== src/Funding/Positions/Counts.antt =====
-- How many hedged positions are open, in all and on one base, as the table changes.
use omni_trade.Prelude.{
  ℕ, suc, ◌+◌, ◌≤◌, ltb, ◌≡◌, refl, sym, subst, ◌∙◌, String, Bool, false, ◌&&◌, ◌||◌, ◌==◌, eq_iff,
  some, List, [], ◌∷◌, ◌++◌, map, any, select, length, select-append, length-append, length-sort,
  any-sort, select-taken, select-dropped, arith, Bool-cases, inl, inr, if◌then◌else◌,
}
use omni_trade.Float.{Float}
use omni_trade.World.{HedgedRow}
use omni_trade.Funding.Positions.{close_row, position_of, open_rows}

module _ ⦃fl : Float⦄ where
  -- Open positions, and those of one base.
  abbrev pub open_count : List HedgedRow → ℕ
  open_count rows = length (select (λ r. r.is_open) rows)

  abbrev pub is_on : String → HedgedRow → Bool
  is_on b r = r.is_open && r.base == b

  abbrev pub count_on : String → List HedgedRow → ℕ
  count_on b rows = length (select (is_on b) rows)

  -- No base has two open positions.
  abbrev pub Single : List HedgedRow → Type 0
  Single rows = (b : String) → count_on b rows ≤ 1

  -- The bases of the open positions are among the given ones.
  abbrev pub Covered : List String → List HedgedRow → Type 0
  Covered bases rows = (b : String) → any (λ x. x == b) bases ≡ false → count_on b rows ≡ 0

  pub record Within (bases : List String) (n : ℕ) (rows : List HedgedRow) : Type 0 where
    pub few : open_count rows ≤ n
    pub single : Single rows
    pub covered : Covered bases rows

  length-select :
      (p : HedgedRow → Bool) (rows : List HedgedRow) (r : HedgedRow)
      → length (select p (rows ++ r ∷ [])) ≡ length (select p rows) + (if p r then 1 else 0)
  length-select p rows r = elim (Bool-cases (p r)) [
    | inl e ↦ rw (e, select-append p rows (r ∷ [])) (rw e (length-append (select p rows) (r ∷ [])))
    | inr e ↦ rw (e, select-append p rows (r ∷ [])) (rw e (length-append (select p rows) []))
  ]

  pub add-Within :
      (bases : List String) (n : ℕ) (rows : List HedgedRow) (r : HedgedRow)
      → any (λ x. x == r.base) bases ≡ false
      → Within bases n rows
      → Within (r.base ∷ bases) (suc n) (rows ++ r ∷ [])
  add-Within bases n rows r fresh h = record {
    few = ground (arith, length-select (λ r. r.is_open) rows r, h.few);
    single = λ b. elim (Bool-cases (r.base == b)) [
      | inl same ↦
          let free : count_on b rows ≡ 0 =
            h.covered b
              (subst (λ y. any (λ x. x == y) bases ≡ false) ((eq_iff _ _).0 same) fresh) in
          ground (arith, length-select (is_on b) rows r, free)
      | inr other ↦ ground (arith, length-select (is_on b) rows r, h.single b, other)
    ];
    covered = λ b e. ground (arith, length-select (is_on b) rows r, h.covered b, e);
  }

  -- A row that is closed counts nowhere, and the other rows count as before.
  length-close_row :
      (p : HedgedRow → Bool) (id closer : String) (now : ℕ) (rows : List HedgedRow)
      → ((r : HedgedRow)
          → p (record r { is_open = false; intent_close = some closer; closed_at = some now })
            ≡ false)
      → length (select p (close_row id closer now rows)) ≤ length (select p rows)
  unfolding close_row
  length-close_row p id closer now [] h = omega arith
  length-close_row p id closer now (r ∷ rows) h =
      let rest = length-close_row p id closer now rows h in
      elim (Bool-cases (r.position_id == id)) [
        | inl same ↦ rw (same, h r) (ground (arith, rest))
        | inr other ↦ rw other (ground (arith, rest))
      ]

  pub close-Within :
      (bases : List String) (n : ℕ) (id closer : String) (now : ℕ) (rows : List HedgedRow)
      → Within bases n rows
      → Within bases n (close_row id closer now rows)
  close-Within bases n id closer now rows h =
      let fewer : (b : String) → count_on b (close_row id closer now rows) ≤ count_on b rows =
        λ b. length-close_row (is_on b) id closer now rows (λ r. refl) in
      record {
        few =
            omega (arith, length-close_row (λ r. r.is_open) id closer now rows (λ r. refl), h.few);
        single = λ b. omega (arith, fewer b, h.single b);
        covered = λ b e. omega (arith, fewer b, h.covered b e);
      }

  pub more-Within :
      (bases : List String) (m n : ℕ) (rows : List HedgedRow)
      → m ≤ n
      → Within bases m rows
      → Within bases n rows
  more-Within bases m n rows le h = record {
    few = omega (arith, le, h.few);
    single = h.single;
    covered = h.covered;
  }

  pub wider-Within :
      (base : String) (bases : List String) (n : ℕ) (rows : List HedgedRow)
      → Within bases n rows
      → Within (base ∷ bases) n rows
  wider-Within base bases n rows h = record {
    few = h.few;
    single = h.single;
    covered = λ b e. h.covered b (ground (arith, e));
  }

  any-map :
      (b : String) (rows : List HedgedRow)
      → any (λ x. x == b) (map (λ p. p.base) (map position_of rows)) ≡ any (λ r. r.base == b) rows
  any-map b [] = refl
  any-map b (r ∷ rows) = ground (arith, any-map b rows)

  none_on :
      (b : String) (rows : List HedgedRow)
      → any (λ r. r.base == b) (select (λ r. r.is_open) rows) ≡ false
      → count_on b rows ≡ 0
  none_on b [] h = refl
  none_on b (r ∷ rows) h = elim (Bool-cases r.is_open) [
    | inl up ↦
        let h' : (r.base == b || any (λ r. r.base == b) (select (λ r. r.is_open) rows)) ≡ false =
          subst (λ t. any (λ r. r.base == b) t ≡ false) (select-taken (λ r. r.is_open) r rows up)
            h in
        ground (arith, none_on b rows (ground (arith, h')), h', up)
    | inr down ↦
        let h' : any (λ r. r.base == b) (select (λ r. r.is_open) rows) ≡ false =
          subst (λ t. any (λ r. r.base == b) t ≡ false)
            (select-dropped (λ r. r.is_open) r rows down) h in
        ground (arith, none_on b rows h', down)
  ]

  length-map : (rows : List HedgedRow) → length (map position_of rows) ≡ length rows
  length-map [] = refl
  length-map (r ∷ rows) = omega (arith, length-map rows)

  -- What a reading of the open positions says of the rows.
  pub read-Within :
      (rows : List HedgedRow)
      → Single rows
      → Within
          (map (λ p. p.base) (map position_of (open_rows rows)))
          (length (map position_of (open_rows rows)))
          rows
  unfolding open_rows
  read-Within rows single = record {
    few = omega (
      arith,
      length-map (open_rows rows),
      length-sort (λ r s. ltb s.opened_at r.opened_at) (select (λ r. r.is_open) rows),
    );
    single = single;
    covered = λ b e. none_on b rows (
        sym (
          any-sort (λ r. r.base == b) (λ r s. ltb s.opened_at r.opened_at)
            (select (λ r. r.is_open) rows))
        ∙ sym (any-map b (open_rows rows))
        ∙ e);
  }

  pub length-open_rows :
      (rows : List HedgedRow) → length (map position_of (open_rows rows)) ≡ open_count rows
  unfolding open_rows
  length-open_rows rows =
      length-map (open_rows rows)
      ∙ length-sort (λ r s. ltb s.opened_at r.opened_at) (select (λ r. r.is_open) rows)
