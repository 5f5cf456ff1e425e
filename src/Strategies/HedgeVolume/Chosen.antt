-- ===== src/Strategies/HedgeVolume/Chosen.antt =====
-- Which symbols the strategy selects.
use omni_trade.Prelude.{
  ℕ, ◌≡◌, refl, sym, subst, ◌⊎◌, inl, inr, String, Bool, true, not, ltb, ◌||◌, ◌==◌, eq_refl,
  Option, none, some, List, if◌then◌else◌, [], ◌∷◌, map, any, is_empty, select, All, Bool-cases,
  arith,
}
use mathlib.Core.List.{Memᴰ}
use mathlib.Core.List.Memᴰ
use omni_trade.Exec.{Outcome, returned, raised, value_error, raise, gets, ◌>>=◌}
use omni_trade.Float.{Float, F, nought}
use omni_trade.Market.Instrument.{of_int}
use omni_trade.Strategies.HedgeVolume.{
  VolumeTarget, Chance, Strategy, reset, check_daily_reset, draw, draw_outcome, get_completion_rate,
  is_completed, offered, eligible, weight, unfinished, symbols_of, choose_from, choose_candidate,
  select_next_symbol,
}

module _ {ℓ κ} {A : Type ℓ} where
  All-select : (P : A → Type κ) (p : A → Bool) (xs : List A) → All P xs → All P (select p xs)
  All-select P p [] h = tt
  All-select P p (x ∷ xs) h = elim (Bool-cases (p x)) [
    | inl e ↦ rw e (h.0, All-select P p xs h.1)
    | inr e ↦ rw e (All-select P p xs h.1)
  ]

module _ ⦃fl : Float⦄ where
  -- The symbol is offered, or nothing is.
  abbrev pub Available : List String → String → Type 0
  Available symbols s = (symbols ≡ []) ⊎ (any (λ x. x == s) symbols ≡ true)

  -- The targets of a day: on a new day all of them start again at 0.
  abbrev pub targets_on : ℕ → Strategy → List VolumeTarget
  targets_on today st =
      if ltb st.last_reset_date today
      then map {A = VolumeTarget} (λ t. record t { current_volume = nought }) st.targets
      else st.targets

  -- The part of the target that is reached, at most 1; a target of 0 or less is reached.
  abbrev pub reached : VolumeTarget → F
  reached t =
      if fl.le t.daily_target_volume nought
      then of_int 1
      else if fl.lt (of_int 1) (fl.div t.current_volume t.daily_target_volume)
      then of_int 1
      else fl.div t.current_volume t.daily_target_volume

  -- The targets that are not reached, and a draw of their symbols with weights.
  abbrev pub lacking : List VolumeTarget → List VolumeTarget
  lacking = select (λ t. not (fl.le (of_int 1) (reached t)))

  abbrev pub draw_lacking : Chance → ℕ → List VolumeTarget → Outcome String
  draw_lacking chance n ts =
      chance.choices n (map (λ t. t.symbol) (lacking ts))
        (map (λ t. fl.mul (fl.sub (of_int 1) (reached t)) (of_int t.priority)) (lacking ts))

  -- Where a symbol comes from: `random.choices` among the targets that are not reached; a target,
  -- where all are reached; or the offer, where there is no target for it.
  abbrev pub Origin : Chance → List String → List VolumeTarget → String → Type 0
  Origin chance symbols ts s =
      ((n : ℕ) × Memᴰ s (map (λ t. t.symbol) (lacking ts))
        × (draw_lacking chance n ts ≡ returned s))
      ⊎ ((lacking ts ≡ []) × Memᴰ s (map (λ t. t.symbol) ts))
      ⊎ ((ts ≡ []) × Memᴰ s symbols)

  pub record Chosen (chance : Chance) (symbols : List String) (ts : List VolumeTarget) (s : String)
      : Type 0 where
    pub available : Available symbols s
    pub origin : Origin chance symbols ts s

  -- An exception: there is nothing to choose from, or `random.choices` refuses the weights.
  abbrev pub Selection : Chance → List String → List VolumeTarget → Outcome String → Type 0
  Selection chance symbols ts (returned s) = Chosen chance symbols ts s
  Selection chance symbols ts (raised e) =
      ((ts ≡ []) × (symbols ≡ []) × (e ≡ value_error))
      ⊎ ((n : ℕ) × (draw_lacking chance n ts ≡ raised e))

  -- The targets for the symbols that are offered, or all where none are.
  abbrev pub targets_for : List String → List VolumeTarget → List VolumeTarget
  targets_for [] ts = ts
  targets_for (s ∷ ss) ts = select (λ t. any (λ x. x == t.symbol) (s ∷ ss)) ts

  eligible-targets_for :
      (available : Option (List String)) (ts : List VolumeTarget)
      → eligible available ts ≡ targets_for (offered available) ts
  unfolding eligible
  eligible-targets_for none ts = refl
  eligible-targets_for (some []) ts = refl
  eligible-targets_for (some (s ∷ ss)) ts = refl

  mem-any : (s : String) (ss : List String) → Memᴰ s ss → any (λ x. x == s) ss ≡ true
  mem-any s [] m = absurd (Memᴰ.not-nil m)
  mem-any s (x ∷ xs) m = elim (Memᴰ.cases_cons m) [
    | inl same ↦ subst (λ y. ((y == s) || any (λ z. z == s) xs) ≡ true) same (rw (eq_refl s) refl)
    | inr rest ↦ let later = mem-any s xs rest in ground (arith, later)
  ]

  All-symbol :
      (P : String → Type 0) (ts : List VolumeTarget) (s : String)
      → All (λ t. P t.symbol) ts
      → Memᴰ s (symbols_of ts)
      → P s
  All-symbol P [] s h m = absurd (Memᴰ.not-nil m)
  All-symbol P (t ∷ ts) s h m = elim (Memᴰ.cases_cons m) [
    | inl same ↦ subst P (sym same) h.0
    | inr rest ↦ All-symbol P ts s h.1 rest
  ]

  nothing_offered : (symbols : List String) → is_empty symbols ≡ true → symbols ≡ []
  nothing_offered [] h = refl
  nothing_offered (s ∷ ss) h = absurd (cc h)

  everywhere :
      (symbols : List String) (ts : List VolumeTarget)
      → symbols ≡ []
      → All (λ t. Available symbols t.symbol) ts
  everywhere symbols [] e = tt
  everywhere symbols (t ∷ ts) e = (inl e, everywhere symbols ts e)

  selected-Available :
      (symbols : List String) (ts : List VolumeTarget)
      → All (λ t. Available symbols t.symbol) (select (λ t. any (λ s. s == t.symbol) symbols) ts)
  selected-Available symbols [] = tt
  selected-Available symbols (t ∷ ts) = elim (Bool-cases (any (λ s. s == t.symbol) symbols)) [
    | inl e ↦ rw e (inr e, selected-Available symbols ts)
    | inr e ↦ rw e (selected-Available symbols ts)
  ]

  eligible-Available :
      (available : Option (List String)) (ts : List VolumeTarget)
      → All (λ t. Available (offered available) t.symbol) (eligible available ts)
  unfolding eligible
  eligible-Available available ts = elim (Bool-cases (is_empty (offered available))) [
    | inl e ↦ rw e (everywhere (offered available) ts (nothing_offered _ e))
    | inr e ↦ rw e (selected-Available (offered available) ts)
  ]

module _ ⦃fl : Float⦄ (chance : Chance)
    (choice_mem : (n : ℕ) (s : String) (ss : List String)
      → Memᴰ (chance.choice n (s ∷ ss)) (s ∷ ss))
    (choices_mem : (n : ℕ) (ss : List String) (ws : List F) (s : String)
      → chance.choices n ss ws ≡ returned s
      → Memᴰ s ss) where
  unfinished-Available :
      (symbols : List String) (ts : List VolumeTarget) (s : String)
      → All (λ t. Available symbols t.symbol) ts
      → Memᴰ s (symbols_of (unfinished ts))
      → Available symbols s
  unfinished-Available symbols ts s h m =
      All-symbol (Available symbols) (unfinished ts) s (All-select _ _ ts h) m

  targets_today :
      (available : Option (List String)) (today : ℕ) (st : Strategy)
      → eligible available (reset today st).targets
        ≡ targets_for (offered available) (targets_on today st)
  targets_today available today st = elim (Bool-cases (ltb st.last_reset_date today)) [
    | inl new_day ↦ rw new_day (eligible-targets_for available _)
    | inr same_day ↦ rw same_day (eligible-targets_for available st.targets)
  ]

  drawn :
      (symbols : List String) (ts : List VolumeTarget) (n : ℕ) (o : Outcome String)
      → All (λ t. Available symbols t.symbol) ts
      → chance.choices n (symbols_of (unfinished ts)) (map weight (unfinished ts)) ≡ o
      → Selection chance symbols ts o
  unfolding is_completed get_completion_rate
  drawn symbols ts n (returned s) h e =
      let m = choices_mem n _ _ s e in
      record { available = unfinished-Available symbols ts s h m; origin = inl (n, m, e) }
  drawn symbols ts n (raised e) h eq = inr (n, eq)

  from-Selection :
      (symbols : List String) (t : VolumeTarget) (ts us : List VolumeTarget) (st : Strategy)
      → All (λ u. Available symbols u.symbol) (t ∷ ts)
      → unfinished (t ∷ ts) ≡ us
      → Selection chance symbols (t ∷ ts) (choose_from chance (t ∷ ts) us st).0
  unfolding draw draw_outcome is_completed get_completion_rate
  from-Selection symbols t ts [] st h e =
      let m = choice_mem st.draws t.symbol (symbols_of ts) in
      record {
        available = All-symbol (Available symbols) (t ∷ ts) _ h m;
        origin = inr (inl (e, m));
      }
  from-Selection symbols t ts (u ∷ us) st h e = drawn symbols (t ∷ ts) st.draws _ h (rw e refl)

  candidate-Selection :
      (symbols : List String) (ts : List VolumeTarget) (st : Strategy)
      → All (λ t. Available symbols t.symbol) ts
      → Selection chance symbols ts (choose_candidate chance symbols ts st).0
  unfolding raise draw
  candidate-Selection [] [] st h = inl (refl, refl, refl)
  candidate-Selection (s ∷ ss) [] st h =
      let m = choice_mem st.draws s ss in
      record { available = inr (mem-any _ (s ∷ ss) m); origin = inr (inr (refl, m)) }
  candidate-Selection symbols (t ∷ ts) st h =
      from-Selection symbols t ts (unfinished (t ∷ ts)) st h refl

  -- If `random.choice` gives an element of a list that is not empty, and `random.choices` one of its
  -- list when it returns, then the next symbol is one of those that are available, where any are
  -- given. It is what `random.choices` gives for the targets for them that are not reached, weighted
  -- by what they lack times their priority; that of a target for them, if all these are reached; or
  -- any of them, if they have no target. What is reached counts from 0 again on a new day. The
  -- method raises only if there is neither a target nor an available symbol, or if `random.choices`
  -- raises.
  pub select_next_symbol-Selection :
      (available : Option (List String)) (today : ℕ) (st : Strategy)
      → Selection chance
          (offered available)
          (targets_for (offered available) (targets_on today st))
          (select_next_symbol chance available today st).0
  unfolding select_next_symbol check_daily_reset gets ◌>>=◌
  select_next_symbol-Selection available today st =
      subst
        (λ ts.
          Selection chance (offered available) ts (select_next_symbol chance available today st).0)
        (targets_today available today st)
        (candidate-Selection (offered available) _ (reset today st)
          (eligible-Available available (reset today st).targets))
