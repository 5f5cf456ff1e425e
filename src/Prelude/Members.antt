-- ===== src/Prelude/Members.antt =====
-- Membership and order of places in a list, and what a condition leaves of them.
use mathlib.Core.Path.{◌≡◌, refl, sym, subst}
use mathlib.Core.Logic.{◌⊎◌, inl, inr}
use mathlib.Core.Bool.{Bool, true, false}
use mathlib.Core.List.{List, [], ◌∷◌, Memᴰ}
use mathlib.Core.List.Memᴰ
use omni_trade.Prelude.Tests.{Bool-cases}
use omni_trade.Prelude.Lists.{select, All}

module _ {ℓ} {A : Type ℓ} where
  -- `a` stands at an earlier place of the list than `b`.
  pub data Before (a b : A) : List A → Type ℓ where
    here : {x : A} {xs : List A} → a ≡ x → Memᴰ b xs → Before a b (x ∷ xs)
    later : {x : A} {xs : List A} → Before a b xs → Before a b (x ∷ xs)

  pub select-taken :
      (p : A → Bool) (x : A) (xs : List A) → p x ≡ true → select p (x ∷ xs) ≡ x ∷ select p xs
  select-taken p x xs e = rw e refl

  pub select-dropped :
      (p : A → Bool) (x : A) (xs : List A) → p x ≡ false → select p (x ∷ xs) ≡ select p xs
  select-dropped p x xs e = rw e refl

  pub keep_mem :
      (p : A → Bool) (b : A) (xs : List A) → p b ≡ true → Memᴰ b xs → Memᴰ b (select p xs)
  keep_mem p b [] h m = absurd (Memᴰ.not-nil m)
  keep_mem p b (x ∷ xs) h (Memᴰ.head e) =
      let hx : p x ≡ true = subst (λ y. p y ≡ true) e h in rw hx (Memᴰ.head e)
  keep_mem p b (x ∷ xs) h (Memᴰ.tail m) = elim (Bool-cases (p x)) [
    | inl e ↦ rw e (Memᴰ.tail (keep_mem p b xs h m))
    | inr e ↦ rw e (keep_mem p b xs h m)
  ]

  pub kept_mem :
      (p : A → Bool) (b : A) (xs : List A) → Memᴰ b (select p xs) → Memᴰ b xs × (p b ≡ true)
  kept_mem p b [] m = absurd (Memᴰ.not-nil m)
  kept_mem p b (x ∷ xs) m = elim (Bool-cases (p x)) [
    | inl e ↦ elim (Memᴰ.cases_cons (subst (λ t. Memᴰ b t) (select-taken p x xs e) m)) [
      | inl same ↦ (Memᴰ.head same, subst (λ y. p y ≡ true) (sym same) e)
      | inr rest ↦ let h = kept_mem p b xs rest in (Memᴰ.tail h.0, h.1)
    ]
    | inr e ↦
        let h = kept_mem p b xs (subst (λ t. Memᴰ b t) (select-dropped p x xs e) m) in
        (Memᴰ.tail h.0, h.1)
  ]

  Before-cases :
      {a b x : A} {xs : List A} → Before a b (x ∷ xs) → ((a ≡ x) × Memᴰ b xs) ⊎ Before a b xs
  Before-cases (here e m) = inl (e, m)
  Before-cases (later h) = inr h

  pub Before-nil : {a b : A} → Before a b [] → ⊥
  Before-nil h = elim h [ ]

  pub keep-Before :
      (p : A → Bool) (a b : A) (xs : List A)
      → p a ≡ true
      → p b ≡ true
      → Before a b xs
      → Before a b (select p xs)
  keep-Before p a b [] ha hb h = absurd (Before-nil h)
  keep-Before p a b (x ∷ xs) ha hb (here e m) =
      let hx : p x ≡ true = subst (λ y. p y ≡ true) e ha in rw hx (here e (keep_mem p b xs hb m))
  keep-Before p a b (x ∷ xs) ha hb (later h) = elim (Bool-cases (p x)) [
    | inl e ↦ rw e (later (keep-Before p a b xs ha hb h))
    | inr e ↦ rw e (keep-Before p a b xs ha hb h)
  ]

  pub kept-Before :
      (p : A → Bool) (a b : A) (xs : List A)
      → Before a b (select p xs)
      → Before a b xs × (p a ≡ true) × (p b ≡ true)
  kept-Before p a b [] h = absurd (Before-nil h)
  kept-Before p a b (x ∷ xs) h = elim (Bool-cases (p x)) [
    | inl e ↦ elim (Before-cases (subst (λ t. Before a b t) (select-taken p x xs e) h)) [
      | inl (same, m) ↦
          let k = kept_mem p b xs m in (here same k.0, subst (λ y. p y ≡ true) (sym same) e, k.1)
      | inr rest ↦ let k = kept-Before p a b xs rest in (later k.0, k.1, k.2)
    ]
    | inr e ↦
        let k = kept-Before p a b xs (subst (λ t. Before a b t) (select-dropped p x xs e) h) in
        (later k.0, k.1, k.2)
  ]

module _ {ℓ κ} {A : Type ℓ} where
  pub All-of : (P : A → Type κ) (xs : List A) → ((x : A) → Memᴰ x xs → P x) → All P xs
  All-of P [] h = tt
  All-of P (x ∷ xs) h = (h x (Memᴰ.head refl), All-of P xs λ y m. h y (Memᴰ.tail m))
