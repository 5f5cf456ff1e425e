-- ===== src/Coordinator/Intent/Checked.antt =====
-- What the construction of an intent in src/coordinator/intent.py guarantees.
use omni_trade.Prelude.{
  ℤ, pos, is_one-pos, ◌≢◌, ◌⊎◌, ◌↔◌, ◌||◌, All, String, Bool, true, false, ◌&&◌, ◌==◌, ◌≡◌, refl,
  sym, subst, ap, ◌∙◌, eq_iff, inl, inr, Option, none, some, List, [], ◌∷◌, or_else, upper, all,
  arith, Bool-cases, if◌then◌else◌,
}
use omni_trade.Exec.{Outcome, returned, raised, value_error, and_then}
use omni_trade.Float.{Float, F, nought}
use omni_trade.Coordinator.Intent.{
  Intent, LegConfig, is_product, is_side, is_time_in_force, require, sum_ratios, normalize,
  spot_unlevered, check_legs, has_limit_price, new_intent, resolve_product, resolve_leverage,
}

module _ ⦃fl : Float⦄ where
  -- The checks of the construction as one test of the given fields.
  abbrev pub acceptable_time_in_force : Option String → Bool
  acceptable_time_in_force none = true
  acceptable_time_in_force (some t) = is_time_in_force (upper t)

  abbrev pub leg_unlevered : Intent → String × LegConfig → Bool
  leg_unlevered i c =
      spot_unlevered (resolve_product c.1 i.product) (resolve_leverage c.1 i.leverage)

  -- Every check of the construction, as one test of the fields.
  abbrev pub is_sound : Intent → Bool
  is_sound i =
      let total = sum_ratios nought i.split in
      (fl.le (fl.literal 999 3) total && fl.le total (fl.literal 1001 3))
      && (is_product i.product
          && (is_side i.side
              && (acceptable_time_in_force i.time_in_force
                  && (has_limit_price i
                      && (spot_unlevered i.product i.leverage
                          && all (leg_unlevered i) i.leg_configs)))))

  abbrev pub upper_case : Option String → Option String
  upper_case none = none
  upper_case (some t) = some (upper t)

  require-then :
      {A : Type 0} (b c : Bool) (x : A) (r : Outcome A)
      → r ≡ (if c then returned x else raised value_error)
      → and_then (require b) (λ _. r) ≡ (if b && c then returned x else raised value_error)
  require-then true c x r h = h
  require-then false c x r h = refl

  check_legs-all :
      (i : Intent) (cs : List (String × LegConfig))
      → check_legs i cs ≡ (if all (leg_unlevered i) cs then returned tt else raised value_error)
  unfolding check_legs
  check_legs-all i [] = refl
  check_legs-all i (c ∷ cs) = require-then (leg_unlevered i c) _ tt _ (check_legs-all i cs)

  check_legs-then :
      {A : Type 0} (i : Intent) (x : A)
      → and_then (check_legs i i.leg_configs) (λ _. returned x)
        ≡ (if all (leg_unlevered i) i.leg_configs then returned x else raised value_error)
  check_legs-then i x = ground (arith, check_legs-all i i.leg_configs)

  normalize-then :
      {A : Type 0} (t : Option String) (c : Bool) (f : Option String → A)
      (r : Option String → Outcome A)
      → r (upper_case t) ≡ (if c then returned (f (upper_case t)) else raised value_error)
      → and_then (normalize t) r ≡ (
          if acceptable_time_in_force t && c
          then returned (f (upper_case t))
          else raised value_error)
  unfolding normalize
  normalize-then none c f r h = h
  normalize-then (some t) c f r h = ground (arith, h)

  pub new_intent-is_sound :
      (i : Intent)
      → new_intent i ≡ (
          if is_sound i
          then returned (record i { time_in_force = upper_case i.time_in_force })
          else raised value_error)
  unfolding new_intent
  new_intent-is_sound i =
      let total = sum_ratios nought i.split in
      let legs = all (leg_unlevered i) i.leg_configs in
      let unlevered = spot_unlevered i.product i.leverage in
      let priced = has_limit_price i in
      let rest = priced && (unlevered && legs) in
      let timed = acceptable_time_in_force i.time_in_force && rest in
      let result = λ (t : Option String). record i { time_in_force = t } in
      let last = λ (t : Option String). and_then (require priced) λ _.
        and_then (require unlevered)
          λ _. and_then (check_legs i i.leg_configs) λ _. returned (result t) in
      require-then (fl.le (fl.literal 999 3) total && fl.le total (fl.literal 1001 3))
        (is_product i.product && (is_side i.side && timed)) _ _
        (require-then (is_product i.product) (is_side i.side && timed) _ _ (
          require-then (is_side i.side) timed _ _ (
            normalize-then i.time_in_force rest result last (
              require-then priced (unlevered && legs) _ _
                (require-then unlevered legs _ _ (check_legs-then i _))))))

  upper-fixed : (t : String) → is_time_in_force t ≡ true → upper t ≡ t
  unfolding upper
  upper-fixed t h =
      let fixed = λ (s : String) (e : s ≡ t) (f : upper s ≡ s). subst (λ r. upper r ≡ r) e f in
      elim (Bool-cases ("GTC" == t)) [
        | inl is_gtc ↦ fixed "GTC" ((eq_iff _ _).0 is_gtc) refl
        | inr not_gtc ↦ elim (Bool-cases ("IOC" == t)) [
          | inl is_ioc ↦ fixed "IOC" ((eq_iff _ _).0 is_ioc) refl
          | inr not_ioc ↦ fixed "FOK" ((eq_iff _ _).0 (ground (arith, h, not_gtc, not_ioc))) refl
        ]
      ]

  upper_case-fixed :
      (t : Option String)
      → acceptable_time_in_force t ≡ true
      → (upper_case (upper_case t) ≡ upper_case t)
        × (acceptable_time_in_force (upper_case t) ≡ true)
  upper_case-fixed none h = (refl, refl)
  upper_case-fixed (some t) h =
      (ap some (upper-fixed (upper t) h), ap is_time_in_force (upper-fixed (upper t) h) ∙ h)

  returned-if :
      {A : Type 0} (b : Bool) (x y : A)
      → (if b then returned x else raised value_error) ≡ returned y
      → (b ≡ true) × (x ≡ y)
  returned-if true x y h = (refl, cc h)
  returned-if false x y h = absurd (cc h)

  restamp :
      (i : Intent) (c : String)
      → is_sound i ≡ true
      → let j = record i { time_in_force = upper_case i.time_in_force; created_at = c } in
        new_intent j ≡ returned j
  restamp i c h =
      let j = record i { time_in_force = upper_case i.time_in_force; created_at = c } in
      let fixed = upper_case-fixed i.time_in_force (ground (arith, h)) in
      let still : is_sound j ≡ true = ground (arith, h, fixed) in
      new_intent-is_sound j ∙ rw (still, fixed.0) refl

  -- An intent that was constructed is constructed again, unchanged, from its own fields with another
  -- `created_at`.
  pub new_intent-stable :
      (i j : Intent) (c : String)
      → new_intent i ≡ returned j
      → new_intent (record j { created_at = c }) ≡ returned (record j { created_at = c })
  new_intent-stable i j c h =
      let done = returned-if (is_sound i) _ _ (sym (new_intent-is_sound i) ∙ h) in
      subst (λ k. new_intent (record k { created_at = c }) ≡ returned (record k { created_at = c }))
        done.1 (restamp i c done.0)

  -- The ratios of a split add up to the sum, from the first to the last.
  pub data AddsUp : F → List (String × F) → F → Type 0 where
    ended : {x : F} → AddsUp x [] x
    then_add :
        {acc ratio total : F} {venue : String} {rest : List (String × F)}
        → AddsUp (fl.add acc ratio) rest total
        → AddsUp acc ((venue, ratio) ∷ rest) total

  sums-AddsUp : (acc : F) (split : List (String × F)) → AddsUp acc split (sum_ratios acc split)
  unfolding sum_ratios
  sums-AddsUp acc [] = ended
  sums-AddsUp acc ((venue, ratio) ∷ rest) = then_add (sums-AddsUp (fl.add acc ratio) rest)

  -- Spot goes without leverage.
  abbrev pub Spot : String → ℤ → Type 0
  Spot product leverage = (product ≢ "spot") ⊎ (leverage ≡ pos 1)

  abbrev pub IsTimeInForce : Option String → Type 0
  IsTimeInForce none = Unit
  IsTimeInForce (some t) = (upper t ≡ "GTC") ⊎ (upper t ≡ "IOC") ⊎ (upper t ≡ "FOK")

  abbrev pub HasPrice : String → Option F → Type 0
  HasPrice order_type none = order_type ≢ "limit"
  HasPrice order_type (some price) = Unit

  -- A leg has its own product and leverage, or those of the intent.
  abbrev pub own {ℓ} : {A : Type ℓ} → Option A → A → A
  own none a = a
  own (some b) a = b

  -- The fields of a sound intent: its ratios add up to 1, give or take 0.001; product, side and time
  -- in force are known; a limit order has its price; and neither the intent nor a leg takes leverage
  -- on the spot market.
  pub record SoundIntent (i : Intent) : Type 0 where
    pub total : F
    pub sums : AddsUp nought i.split total
    pub near_one :
        (fl.le (fl.literal 999 3) total ≡ true) × (fl.le total (fl.literal 1001 3) ≡ true)
    pub product : (i.product ≡ "spot") ⊎ (i.product ≡ "perp")
    pub side : (i.side ≡ "buy") ⊎ (i.side ≡ "sell")
    pub time_in_force : IsTimeInForce i.time_in_force
    pub price : HasPrice i.order_type i.limit_price
    pub unlevered : Spot i.product i.leverage
    pub legs :
        All (λ c. Spot (own c.1.product i.product) (own c.1.leverage i.leverage)) i.leg_configs

  sums_unique :
      (acc total : F) (split : List (String × F))
      → AddsUp acc split total
      → sum_ratios acc split ≡ total
  unfolding sum_ratios
  sums_unique acc total [] ended = refl
  sums_unique acc total ((venue, ratio) ∷ rest) (then_add h) =
      sums_unique (fl.add acc ratio) total rest h

  one_of_two : (a b s : String) → ((a == s || b == s) ≡ true) ↔ ((s ≡ a) ⊎ (s ≡ b))
  one_of_two a b s = (
    (λ h. elim (Bool-cases (a == s)) [
      | inl e ↦ inl (sym ((eq_iff a s).0 e))
      | inr e ↦ inr (sym ((eq_iff b s).0 (ground (arith, h, e))))
    ]),
    λ h. elim h [
      | inl e ↦ rw ((eq_iff a s).1 (sym e)) refl
      | inr e ↦ ground (arith, (eq_iff b s).1 (sym e))
    ],
  )

  known_time : (t : Option String) → (acceptable_time_in_force t ≡ true) ↔ IsTimeInForce t
  known_time none = ((λ _. tt), λ _. refl)
  known_time (some t) = (
    (λ h. elim (Bool-cases ("GTC" == upper t)) [
      | inl e ↦ inl (sym ((eq_iff _ _).0 e))
      | inr e ↦ inr ((one_of_two "IOC" "FOK" (upper t)).0 (ground (arith, h, e)))
    ]),
    λ h. elim h [
      | inl e ↦ rw ((eq_iff "GTC" (upper t)).1 (sym e)) refl
      | inr e ↦ ground (arith, (one_of_two "IOC" "FOK" (upper t)).1 e)
    ],
  )

  priced : (i : Intent) → (has_limit_price i ≡ true) ↔ HasPrice i.order_type i.limit_price
  priced i = by_price i.limit_price refl
    where
      by_price :
          (p : Option F) → i.limit_price ≡ p → (has_limit_price i ≡ true) ↔ HasPrice i.order_type p
      by_price (some p) e = rw e ((λ _. tt), λ _. refl)
      by_price none e = rw e (
        (λ h is_limit. absurd (ground (arith, h, (eq_iff i.order_type "limit").1 is_limit))),
        λ h. elim (Bool-cases (i.order_type == "limit")) [
          | inl same ↦ absurd (h ((eq_iff _ _).0 same))
          | inr other ↦ rw other refl
        ],
      )

  spot : (product : String) (n : ℤ) → (spot_unlevered product n ≡ true) ↔ Spot product n
  spot product n = elim (Bool-cases (product == "spot")) [
    | inl same ↦ (
      (λ h. inr ((is_one-pos n).0 (ground (arith, h, same)))),
      λ h. elim h [
        | inl other ↦ absurd (other ((eq_iff _ _).0 same))
        | inr one ↦ ground (arith, (is_one-pos n).1 one)
      ],
    )
    | inr other ↦
        ((λ _. inl λ e. absurd (cc ((eq_iff product "spot").1 e, other))), λ _. rw other refl)
  ]

  own-lem :
      (i : Intent) (c : String × LegConfig)
      → (own c.1.product i.product ≡ resolve_product c.1 i.product)
        × (own c.1.leverage i.leverage ≡ resolve_leverage c.1 i.leverage)
  own-lem i c = (of_option c.1.product i.product, of_option c.1.leverage i.leverage)
    where
      of_option : {A : Type 0} (o : Option A) (a : A) → own o a ≡ or_else o a
      of_option none a = refl
      of_option (some b) a = refl

  Spot-legs :
      (i : Intent) (cs : List (String × LegConfig))
      → (all (leg_unlevered i) cs ≡ true)
        ↔ All (λ c. Spot (own c.1.product i.product) (own c.1.leverage i.leverage)) cs
  Spot-legs i [] = ((λ _. tt), λ _. refl)
  Spot-legs i (c ∷ cs) =
      let same = own-lem i c in
      let one = spot (resolve_product c.1 i.product) (resolve_leverage c.1 i.leverage) in
      let rest = Spot-legs i cs in
      rw (same.0, same.1)
        (
          (λ h. (one.0 (ground (arith, h)), rest.0 (ground (arith, h)))),
          λ h. rw (one.1 h.0) (rest.1 h.1),
        )

  sound-SoundIntent : (i : Intent) → is_sound i ≡ true → SoundIntent i
  sound-SoundIntent i h = record {
    total = sum_ratios nought i.split;
    sums = sums-AddsUp nought i.split;
    near_one = (ground (arith, h), ground (arith, h));
    product = (one_of_two "spot" "perp" i.product).0 (ground (arith, h));
    side = (one_of_two "buy" "sell" i.side).0 (ground (arith, h));
    time_in_force = (known_time i.time_in_force).0 (ground (arith, h));
    price = (priced i).0 (ground (arith, h));
    unlevered = (spot i.product i.leverage).0 (ground (arith, h));
    legs = (Spot-legs i i.leg_configs).0 (ground (arith, h));
  }

  SoundIntent-is_sound : (i : Intent) → SoundIntent i → is_sound i ≡ true
  SoundIntent-is_sound i h =
      let total = sums_unique nought h.total i.split h.sums in
      let product = (one_of_two "spot" "perp" i.product).1 h.product in
      let side = (one_of_two "buy" "sell" i.side).1 h.side in
      let time = (known_time i.time_in_force).1 h.time_in_force in
      let price = (priced i).1 h.price in
      let unlevered = (spot i.product i.leverage).1 h.unlevered in
      let legs = (Spot-legs i i.leg_configs).1 h.legs in
      rw (total, h.near_one.0, h.near_one.1, product, side, time, price, unlevered, legs) refl

  -- The construction of an intent succeeds exactly on sound fields, with the time in force in upper
  -- case, and raises ValueError on all others: the ratios have to add up to 1, give or take 0.001,
  -- product, side and time in force have to be known, a limit order needs its price, and neither the
  -- intent nor a leg may take leverage on the spot market.
  pub new_intent-SoundIntent :
      (i : Intent)
      → (SoundIntent i
          × (new_intent i ≡ returned (record i { time_in_force = upper_case i.time_in_force })))
        ⊎ ((SoundIntent i → ⊥) × (new_intent i ≡ raised value_error))
  new_intent-SoundIntent i = elim (Bool-cases (is_sound i)) [
    | inl sound ↦ inl (sound-SoundIntent i sound, new_intent-is_sound i ∙ rw sound refl)
    | inr unsound ↦ inr (
      (λ h. absurd (cc (SoundIntent-is_sound i h, unsound))),
      new_intent-is_sound i ∙ rw unsound refl,
    )
  ]
