-- ===== src/Coordinator/Risk/Window.antt =====
-- The sliding window of src/coordinator/risk.py.
use omni_trade.Prelude.{
  ℕ, ◌≤◌, ◌<◌, leb, ◌≡◌, refl, ap, ◌⊎◌, inl, inr, true, false, List, [], ◌∷◌, ◌++◌, All, length,
  length-append, arith, Bool-cases,
}
use omni_trade.Float.{Float, F}
use omni_trade.Coordinator.Risk.{RiskFailure, rate_limited, drop_expired, admit}

module _ ⦃fl : Float⦄ where
  -- The first time stamp is not before the cutoff.
  abbrev pub StartsFresh : F → List F → Type 0
  StartsFresh cutoff [] = Unit
  StartsFresh cutoff (t ∷ ts) = fl.lt t cutoff ≡ false

  -- The time stamps are those that lie before the cutoff, up to the first that does not, and the rest.
  pub record Expiry (cutoff : F) (ts kept : List F) : Type 0 where
    pub expired : List F
    pub parts : expired ++ kept ≡ ts
    pub all_expired : All (λ t. fl.lt t cutoff ≡ true) expired
    pub starts : StartsFresh cutoff kept

  drop_expired-Expiry : (cutoff : F) (ts : List F) → Expiry cutoff ts (drop_expired cutoff ts)
  unfolding drop_expired
  drop_expired-Expiry cutoff [] = record {
    expired = [];
    parts = refl;
    all_expired = tt;
    starts = tt;
  }
  drop_expired-Expiry cutoff (t ∷ ts) = elim (Bool-cases (fl.lt t cutoff)) [
    | inl old ↦
        let rest = drop_expired-Expiry cutoff ts in
        rw old (record {
          expired = t ∷ rest.expired;
          parts = ap (λ us. t ∷ us) rest.parts;
          all_expired = (old, rest.all_expired);
          starts = rest.starts;
        })
    | inr fresh ↦ rw fresh (record { expired = []; parts = refl; all_expired = tt; starts = fresh })
  ]

  -- What a request leaves: admitted, its own time comes last; refused, only the expired go.
  abbrev pub Limits : ℕ → F → F → List F → List RiskFailure × List F → Type 0
  Limits n window now kept answer =
      ((length kept < n) × (answer.0 ≡ []) × (answer.1 ≡ kept ++ now ∷ []))
      ⊎ ((n ≤ length kept) × (answer.0 ≡ rate_limited n window ∷ []) × (answer.1 ≡ kept))

  admit-Limits :
      (n : ℕ) (window now : F) (ts : List F)
      → Limits n window now (drop_expired (fl.sub now window) ts) (admit n window now ts)
  unfolding admit
  admit-Limits n window now ts =
      let kept = drop_expired (fl.sub now window) ts in
      elim (Bool-cases (leb n (length kept))) [
        | inl full ↦ inr (ground (arith, full), rw full refl, rw full refl)
        | inr free ↦ inl (ground (arith, free), rw free refl, rw free refl)
      ]

  bounded :
      (n : ℕ) (window now : F) (kept expired ts : List F) (answer : List RiskFailure × List F)
      → length ts ≤ n
      → expired ++ kept ≡ ts
      → Limits n window now kept answer
      → length answer.1 ≤ n
  bounded n window now kept expired ts answer h e (inl l) =
      rw l.2 (omega (arith, l.0, length-append kept (now ∷ [])))
  bounded n window now kept expired ts answer h e (inr l) =
      rw l.2 (omega (arith, h, length-append expired kept, ap length e))

  -- A window of at most `n` time stamps has at most `n` after a request. From its front go those
  -- that lie before the start of the window, up to the first that does not. If fewer than `n` are
  -- left, the request is admitted and its own time comes last; otherwise it is refused as over the
  -- limit, and the rest stays.
  pub admit-bounded :
      (n : ℕ) (window now : F) (ts : List F)
      → length ts ≤ n
      → (kept : List F) × (length (admit n window now ts).1 ≤ n)
        × Expiry (fl.sub now window) ts kept
        × Limits n window now kept (admit n window now ts)
  admit-bounded n window now ts h =
      let kept = drop_expired (fl.sub now window) ts in
      let expiry = drop_expired-Expiry (fl.sub now window) ts in
      let limits = admit-Limits n window now ts in
      (kept, bounded n window now kept expiry.expired ts _ h expiry.parts limits, expiry, limits)
