-- ===== src/Persistence/Listing/Newest.antt =====
-- Which rows the list of recent intents has, and in which order.
use omni_trade.Prelude.{
  ℕ, ◌≡◌, refl, sym, subst, ◌≤◌, ◌⊎◌, true, false, String, Option, none, some, List, [], ◌∷◌, ◌++◌,
  ◌==◌, length, sort, sort-Perm, select, arith, Ordered, sort-Ordered, left_out, limited-left_out,
  limited-length,
}
use mathlib.Core.List.{Perm}
use omni_trade.Exec.{returned, pure, ◌>>=◌}
use omni_trade.Float.{Float}
use omni_trade.Coordinator.StateMachine.{name}
use omni_trade.World.{IntentRow, Db, Env, World}
use omni_trade.Persistence.Store.{connection}
use omni_trade.Persistence.Store.Rows.{opened}
use omni_trade.Persistence.Listing.{wants_status, newer, recent, list_intents}

module _ ⦃fl : Float⦄ where
  abbrev pub NotNewer : IntentRow → IntentRow → Type 0
  NotNewer r s = s.created_at ≤ r.created_at

  newer-NotNewer : (r s : IntentRow) → newer r s ≡ true → NotNewer r s
  newer-NotNewer r s h = ground (arith, h)

  unless-NotNewer : (r s : IntentRow) → newer r s ≡ false → NotNewer s r
  unless-NotNewer r s h = ground (arith, h)

  -- The rows of a status, or all rows.
  abbrev pub of_status : Option String → List IntentRow → List IntentRow
  of_status none rows = rows
  of_status (some s) rows = select (λ r. name r.status == s) rows

  select-of_status :
      (status : Option String) (rows : List IntentRow)
      → select (wants_status status) rows ≡ of_status status rows
  select-of_status none [] = refl
  select-of_status none (r ∷ rows) = rw (select-of_status none rows) refl
  select-of_status (some s) rows = refl

  -- The rows of a list with a limit, with those that it leaves out.
  pub record Newest (wanted rows : List IntentRow) (limit : ℕ) : Type 0 where
    pub older : List IntentRow
    pub complete : Perm (rows ++ older) wanted
    pub in_order : Ordered NotNewer (rows ++ older)
    pub within : length rows ≤ limit
    pub full : (length rows ≡ limit) ⊎ (older ≡ [])

  recent-Newest :
      (status : Option String) (limit : ℕ) (rows : List IntentRow)
      → Newest (of_status status rows) (recent status limit rows) limit
  unfolding recent
  recent-Newest status limit rows =
      let wanted = select (wants_status status) rows in
      let sorted = sort newer wanted in
      let whole = sym (limited-left_out limit sorted) in
      record {
        older = left_out limit sorted;
        complete =
            subst (λ xs. Perm xs (of_status status rows)) whole
              (subst (Perm sorted) (select-of_status status rows) (sort-Perm newer wanted));
        in_order = subst (Ordered NotNewer) whole (
            sort-Ordered NotNewer newer (λ r s t h k. omega (arith, h, k)) newer-NotNewer
              unless-NotNewer _);
        within = (limited-length limit sorted).0;
        full = (limited-length limit sorted).1;
      }

module _ ⦃fl : Float⦄ ⦃env : Env⦄ where
  -- The list of recent intents changes nothing. It has at most as many rows as the limit says, and
  -- with the rows that it leaves out it is all rows of the wanted status. No row is newer than one
  -- before it, and no row that is left out is newer than one of the list. Rows are left out only if
  -- the limit is reached.
  pub list_intents-Newest :
      (status : Option String) (limit : ℕ) (d : Db) (w : World)
      → (rows : List IntentRow) × (list_intents status limit (opened d w)
          ≡ (returned rows, opened d w))
        × Newest (of_status status d.intents) rows limit
  unfolding list_intents connection pure ◌>>=◌
  list_intents-Newest status limit d w =
      (recent status limit d.intents, refl, recent-Newest status limit d.intents)
