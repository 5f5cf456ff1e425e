-- ===== src/Coordinator/Planner/Complete.antt =====
-- An acceptable plan of src/coordinator/planner.py leaves no venue out.
use omni_trade.Prelude.{
  ◌≡◌, refl, ap, ◌∙◌, String, Bool, true, false, not, ◌&&◌, Option, none, some, List, [], ◌∷◌, ◌++◌,
  map, is_empty, if◌then◌else◌,
}
use omni_trade.Float.{Float, F}
use omni_trade.Market.Instrument.{Instrument}
use omni_trade.Market.Quote.{Quote}
use omni_trade.Market.Registry.{Registry}
use omni_trade.Coordinator.Intent.{Intent}
use omni_trade.Coordinator.Plan.{PlannedLeg, Reason}
use omni_trade.Coordinator.Planner.{
  PlanCandidate, Verdict, planned, refused, candidate, resolve, keep_candidate, keep_refused,
  candidates, unresolved, assess_fill, assess_quote, assess, verdicts, keep_planned, keep_rejected,
  planned_legs, rejected_legs, build_plan, plan,
}

module _ ⦃fl : Float⦄ where
  abbrev venue_of : PlannedLeg → String
  venue_of l = l.venue

  abbrev candidate_venue : PlanCandidate → String
  candidate_venue c = c.venue

  abbrev split_venue : String × F → String
  split_venue s = s.0

  -- Nothing is missing: with no refusal, the option is there and is for the venue.
  keep_candidate-venue :
      (i : Intent) (venue : String) (ratio : F) (o : Option Instrument) (cs : List PlanCandidate)
      (rs : List (String × Reason)) (vs : List String)
      → keep_refused venue (candidate i venue ratio o) rs ≡ []
      → (rs ≡ [] → map candidate_venue cs ≡ vs)
      → map candidate_venue (keep_candidate (candidate i venue ratio o) cs) ≡ venue ∷ vs
  unfolding candidate
  keep_candidate-venue i venue ratio none cs rs vs h k = absurd (cc h)
  keep_candidate-venue i venue ratio (some inst) cs rs vs h k = ap (λ t. venue ∷ t) (k h)

  candidates-venue :
      (reg : Registry) (i : Intent) (split : List (String × F))
      → unresolved reg i split ≡ []
      → map candidate_venue (candidates reg i split) ≡ map split_venue split
  unfolding candidates unresolved resolve
  candidates-venue reg i [] h = refl
  candidates-venue reg i ((venue, ratio) ∷ rest) h =
      keep_candidate-venue i venue ratio _ _ _ _ h (candidates-venue reg i rest)

  -- A verdict with the venue of its candidate.
  unfoldable ForVenue : String → Verdict → Type 0
  ForVenue v (planned l) = l.venue ≡ v
  ForVenue v (refused u r) = Unit

  refused-ForVenue : (v u : String) (r : Reason) → ForVenue v (refused u r)
  unfolding ForVenue
  refused-ForVenue v u r = tt

  planned-ForVenue : (v : String) (l : PlannedLeg) → l.venue ≡ v → ForVenue v (planned l)
  unfolding ForVenue
  planned-ForVenue v l h = h

  ForVenue-if :
      (v : String) (b : Bool) (x y : Verdict)
      → ForVenue v x
      → ForVenue v y
      → ForVenue v (if b then x else y)
  ForVenue-if v true x y h k = h
  ForVenue-if v false x y h k = k

  assess-ForVenue :
      (i : Intent) (c : PlanCandidate) (o : Option Quote) → ForVenue c.venue (assess i c o)
  unfolding assess assess_quote assess_fill
  assess-ForVenue i c none = refused-ForVenue _ _ _
  assess-ForVenue i c (some q) =
      search (ForVenue-if, refused-ForVenue, planned-ForVenue, refl) depth 12

  keep_planned-venue :
      (v : String) (x : Verdict) (ls : List PlannedLeg) (rs : List (String × Reason))
      (us : List String)
      → ForVenue v x
      → keep_rejected x rs ≡ []
      → (rs ≡ [] → map venue_of ls ≡ us)
      → map venue_of (keep_planned x ls) ≡ v ∷ us
  unfolding ForVenue
  keep_planned-venue v (planned l) ls rs us f h k = rw (f, k h) refl
  keep_planned-venue v (refused u r) ls rs us f h k = absurd (cc h)

  planned_legs-venue :
      (fetch : Instrument → Option Quote) (i : Intent) (cs : List PlanCandidate)
      → rejected_legs (verdicts fetch i cs) ≡ []
      → map venue_of (planned_legs (verdicts fetch i cs)) ≡ map candidate_venue cs
  unfolding verdicts planned_legs rejected_legs
  planned_legs-venue fetch i [] h = refl
  planned_legs-venue fetch i (c ∷ cs) h =
      keep_planned-venue c.venue _ _ _ _ (assess-ForVenue i c _) h (planned_legs-venue fetch i cs)

  no_rejection :
      (legs : List PlannedLeg) (xs ys : List (String × Reason))
      → (not (is_empty legs) && is_empty (xs ++ ys)) ≡ true
      → (xs ≡ []) × (ys ≡ [])
  no_rejection legs [] [] h = (refl, refl)
  no_rejection [] [] (y ∷ ys) h = absurd (cc h)
  no_rejection (l ∷ legs) [] (y ∷ ys) h = absurd (cc h)
  no_rejection [] (x ∷ xs) ys h = absurd (cc h)
  no_rejection (l ∷ legs) (x ∷ xs) ys h = absurd (cc h)

  -- An acceptable plan has exactly one leg for each venue of the intent's split, in its order.
  pub plan_complete :
      (reg : Registry) (fetch : Instrument → Option Quote) (i : Intent)
      → (plan reg fetch i).is_acceptable ≡ true
      → map (λ l. l.venue) (plan reg fetch i).legs ≡ map (λ s. s.0) i.split
  unfolding plan build_plan
  plan_complete reg fetch i h =
      let vs = verdicts fetch i (candidates reg i i.split) in
      let ok = no_rejection (planned_legs vs) (unresolved reg i i.split) (rejected_legs vs) h in
      planned_legs-venue fetch i (candidates reg i i.split) ok.1
      ∙ candidates-venue reg i i.split ok.0
