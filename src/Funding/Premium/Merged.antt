-- ===== src/Funding/Premium/Merged.antt =====
-- The marks of src/strategy/funding_arb/premium_tracker.py are kept by symbol, not by venue.
use omni_trade.Prelude.{
  ◌≡◌, refl, sym, ap, subst, ◌∙◌, String, true, false, ◌==◌, List, [], ◌∷◌, Bool-cases, inl, inr,
}
use mathlib.Core.List.{Memᴰ}
use mathlib.Core.List.Memᴰ
use omni_trade.Exec.{returned}
use omni_trade.Exec.Ensures.{Ensures-pure, Ensures-bind, Ensures-any, Met-returned}
use omni_trade.Float.{Float}
use omni_trade.Market.Instrument.{Instrument}
use omni_trade.World.{Env, World}
use omni_trade.Funding.Comparator.{RateInfo}
use omni_trade.Funding.Premium.{
  PremiumSnapshot, Mark, mark_of, premium, snapshot, snapshots, fetch_snapshots,
}

module _ ⦃fl : Float⦄ where
  -- What a symbol says of a snapshot.
  abbrev pub Marked : List Mark → PremiumSnapshot → Type 0
  Marked marks s =
      s.premium_pct ≡ premium (mark_of s.symbol marks).mark (mark_of s.symbol marks).index

  snapshots-Marked :
      (rates : List (String × RateInfo)) (marks : List Mark) (is : List Instrument)
      (s : PremiumSnapshot)
      → Memᴰ s (snapshots rates marks is)
      → Marked marks s
  unfolding snapshots
  snapshots-Marked rates marks [] s m = absurd (Memᴰ.not-nil m)
  snapshots-Marked rates marks (i ∷ is) s m = elim (Bool-cases (i.market_type == "perp")) [
    | inl e ↦ elim (Memᴰ.cases_cons (subst (λ t. Memᴰ s t) (kept e) m)) [
      | inl same ↦ subst (Marked marks) (sym same) refl
      | inr rest ↦ snapshots-Marked rates marks is s rest
    ]
    | inr e ↦ snapshots-Marked rates marks is s (subst (λ t. Memᴰ s t) (passed e) m)
  ]
    where
      kept :
          (i.market_type == "perp") ≡ true
          → snapshots rates marks (i ∷ is) ≡ snapshot rates marks i ∷ snapshots rates marks is
      kept e = rw e refl

      passed :
          (i.market_type == "perp") ≡ false
          → snapshots rates marks (i ∷ is) ≡ snapshots rates marks is
      passed e = rw e refl

module _ ⦃fl : Float⦄ ⦃env : Env⦄ where
  -- Two snapshots of one symbol have the same premium, also if their venues differ: the marks of
  -- the venues overwrite each other.
  pub fetch_snapshots-merged :
      (is : List Instrument) (rates : List (String × RateInfo)) (w : World)
      (snaps : List PremiumSnapshot) (s t : PremiumSnapshot)
      → (fetch_snapshots is rates w).0 ≡ returned snaps
      → Memᴰ s snaps
      → Memᴰ t snaps
      → s.symbol ≡ t.symbol
      → s.premium_pct ≡ t.premium_pct
  unfolding fetch_snapshots
  fetch_snapshots-merged is rates w snaps s t h ms mt same =
      let built =
        Met-returned (λ snaps _. (marks : List Mark) × (snaps ≡ snapshots rates marks is))
          (λ _. Unit) snaps _ _ h
          ((Ensures-bind {Pre = λ _. Unit {0}} _ _ (Ensures-any _)
              λ marks. Ensures-pure _ λ v k. (marks, refl)).run
            w tt) in
      let of = λ (u : PremiumSnapshot) (m : Memᴰ u snaps).
        snapshots-Marked rates built.0 is u (subst (λ l. Memᴰ u l) built.1 m) in
      of s ms
      ∙ ap (λ y. premium (mark_of y built.0).mark (mark_of y built.0).index) same
      ∙ sym (of t mt)
