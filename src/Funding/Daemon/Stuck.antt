-- ===== src/Funding/Daemon/Stuck.antt =====
-- Two ways in which the daemon of src/strategy/funding_arb/runner.py comes to nothing.
use omni_trade.Prelude.{
  ◌≡◌, refl, ap, arith, ◌∙◌, String, true, false, ◌==◌, eq_iff, eq_refl, is_some, List, [], ◌∷◌,
  any, Bool-cases, inl, inr,
}
use omni_trade.Exec.{Exec, raised, value_error, pure, raise, gets, catch, ◌>>=◌}
use omni_trade.Exec.Preserves.{Preserves, Preserves-pure, Preserves-if}
use omni_trade.Float.{Float, nought}
use omni_trade.Coordinator.Intent.{Intent, new_intent, sum_ratios}
use omni_trade.Coordinator.Intent.Checked.{is_sound, upper_case, new_intent-is_sound}
use omni_trade.Coordinator.Orchestrator.{Orchestrator, submit}
use omni_trade.World.{Db, Env, World}
use omni_trade.Persistence.Store.{
  connection, find_intent, create_intent, is_blocking, is_blocked_by_needs_manual,
}
use omni_trade.Persistence.Store.Rows.{opened}
use omni_trade.Funding.Comparator.{FundingSpread}
use omni_trade.Funding.Positions.{HedgedPosition}
use omni_trade.Funding.Runner.{
  Answer, ArbConfig, lift, is_short_a, opening, closing, after_open, after_close, open_position,
  close_position, decide,
}
use omni_trade.Funding.Runner.DryRun.{decide-Preserves}
use omni_trade.Funding.Daemon.{submit_through}

module _ ⦃fl : Float⦄ where
  half_split :
      (cfg : ArbConfig) (s : FundingSpread)
      → (s.pair.venue_a == s.pair.venue_b) ≡ true
      → (opening cfg s).split ≡ (s.pair.venue_b, fl.literal 5 1) ∷ []
  unfolding opening
  half_split cfg s same =
      let eq : s.pair.venue_a ≡ s.pair.venue_b = (eq_iff _ _).0 same in
      elim (Bool-cases (is_short_a s.signal)) [
        | inl short ↦ rw (short, eq, eq_refl s.pair.venue_b) refl
        | inr long ↦ rw (long, same, eq) refl
      ]

  half_only :
      (i : Intent) (venue : String)
      → fl.le (fl.literal 999 3) (fl.add nought (fl.literal 5 1)) ≡ false
      → i.split ≡ (venue, fl.literal 5 1) ∷ []
      → new_intent i ≡ raised value_error
  unfolding new_intent sum_ratios
  half_only i venue h e = rw e (rw h refl)

module _ ⦃fl : Float⦄ ⦃env : Env⦄ where
  -- Two perpetuals of one venue make a split of a single half, and the entry raises ValueError
  -- outside of the `try`: nothing is submitted.
  pub open_position-same_venue :
      (submit_intent : Intent → Exec World Answer) (cfg : ArbConfig) (s : FundingSpread) (w : World)
      → fl.le (fl.literal 999 3) (fl.add nought (fl.literal 5 1)) ≡ false
      → cfg.dry_run ≡ false
      → (s.pair.venue_a == s.pair.venue_b) ≡ true
      → open_position submit_intent cfg s w ≡ (raised value_error, w)
  unfolding open_position ◌>>=◌
  open_position-same_venue submit_intent cfg s w h live same =
      rw (live, half_only (opening cfg s) s.pair.venue_b h (half_split cfg s same)) refl

  -- The id is taken: nothing is written.
  submit-taken :
      (o : Orchestrator) (i : Intent) (d : Db) (w : World)
      → is_some (find_intent i.intent_id d.intents) ≡ true
      → any (λ r. is_blocking r.status) d.intents ≡ false
      → submit o i false (opened d w) ≡ (raised value_error, opened d w)
  unfolding submit is_blocked_by_needs_manual create_intent connection gets pure raise ◌>>=◌
  submit-taken o i d w taken free = elim (Bool-cases (i.created_at == "")) [
    | inl unset ↦ rw (free, unset, taken) refl
    | inr set ↦ rw (free, set, taken) refl
  ]

  through-taken :
      (o : Orchestrator) (i : Intent) (d : Db) (w : World)
      → is_some (find_intent i.intent_id d.intents) ≡ true
      → any (λ r. is_blocking r.status) d.intents ≡ false
      → submit_through o i (opened d w) ≡ (raised value_error, opened d w)
  unfolding submit_through ◌>>=◌
  through-taken o i d w taken free = rw (submit-taken o i d w taken free) refl

  -- What the runner does with an intent that it constructs.
  attempt :
      (o : Orchestrator) (i : Intent) (f : Answer → Exec World (Unit {0})) (d : Db) (w : World)
      → is_some (find_intent i.intent_id d.intents) ≡ true
      → any (λ r. is_blocking r.status) d.intents ≡ false
      → ((do j ← lift (new_intent i); catch (do a ← submit_through o j; f a) (λ e. pure tt))
          (opened d w)).1
        ≡ opened d w
  unfolding ◌>>=◌ catch pure
  attempt o i f d w taken free = elim (Bool-cases (is_sound i)) [
    | inl sound ↦ rw (new_intent-is_sound i) (
        rw sound (
          rw
            (through-taken o (record i { time_in_force = upper_case i.time_in_force }) d w taken
              free)
            refl))
    | inr unsound ↦ rw (new_intent-is_sound i) (rw unsound refl)
  ]

  module _ (o : Orchestrator) (cfg : ArbConfig) (d : Db) (w : World)
      (taken : is_some (find_intent "" d.intents) ≡ true)
      (free : any (λ r. is_blocking r.status) d.intents ≡ false) where
    abbrev Same : World → Type 0
    Same v = v ≡ opened d w

    run-Same : (m : Exec World (Unit {0})) → (m (opened d w)).1 ≡ opened d w → Preserves Same m
    run-Same m h = record { run = λ v e. ap (λ u. (m u).1) e ∙ h }

    opening-Same : (s : FundingSpread) → Preserves Same (open_position (submit_through o) cfg s)
    unfolding open_position opening
    opening-Same s = Preserves-if cfg.dry_run _ _ (Preserves-pure tt) (
        run-Same _ (
          attempt o (opening cfg s) (after_open (submit_through o) cfg s) d w
            (ground (arith, taken)) free))

    closing-Same : (p : HedgedPosition) → Preserves Same (close_position (submit_through o) cfg p)
    unfolding close_position closing
    closing-Same p =
        Preserves-if cfg.dry_run _ _ (Preserves-pure tt)
          (run-Same _ (attempt o (closing p) (after_close (submit_through o) p) d w taken free))

  -- Every intent of the runner has the empty id. Once one is stored and the coordinator is not
  -- blocked, no decision of the daemon changes anything: the store refuses the id, and the position
  -- is neither opened nor closed.
  pub decide-stuck :
      (o : Orchestrator) (cfg : ArbConfig) (ss : List FundingSpread) (d : Db) (w : World)
      → is_some (find_intent "" d.intents) ≡ true
      → any (λ r. is_blocking r.status) d.intents ≡ false
      → (decide (submit_through o) cfg ss (opened d w)).1 ≡ opened d w
  decide-stuck o cfg ss d w taken free =
      (decide-Preserves (submit_through o) (Same o cfg d w taken free) cfg
          (opening-Same o cfg d w taken free) (closing-Same o cfg d w taken free) ss).run
        (opened d w) refl
