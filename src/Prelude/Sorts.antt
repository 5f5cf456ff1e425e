-- ===== src/Prelude/Sorts.antt =====
-- `sorted` and `list.sort`, which are stable, as insertion from the right, and `sorted` of a set of
-- texts; the text order is that of the code points.
use Prim.Native.Nat.{Ordering, suc}
use Prim.Native.String.{String, compare}
use mathlib.Core.Bool.{Bool, true, false, ◌||◌}
use mathlib.Core.Path.{◌≡◌, refl, subst}
use mathlib.Core.Logic.{inl, inr}
use mathlib.Core.List.{List, [], ◌∷◌, Perm, Memᴰ}
use mathlib.Core.List.Perm
use mathlib.Core.List.Memᴰ
use native.Mathlib.Omega.{arith}
use omni_trade.Prelude.Tests.{if◌then◌else◌, Bool-cases}
use omni_trade.Prelude.Lists.{All, any, length}

module _ {ℓ} {A : Type ℓ} where
  -- `x` goes before the first element that is not less than it.
  unfoldable pub insert : (A → A → Bool) → A → List A → List A
  insert less x [] = x ∷ []
  insert less x (y ∷ ys) = let rest = insert less x ys in if less y x then y ∷ rest else x ∷ y ∷ ys

  unfoldable pub sort : (A → A → Bool) → List A → List A
  unfolding insert
  sort less [] = []
  sort less (x ∷ xs) = insert less x (sort less xs)

  insert-Perm : (less : A → A → Bool) (x : A) (xs : List A) → Perm (insert less x xs) (x ∷ xs)
  unfolding insert
  insert-Perm less x [] = Perm.rfl
  insert-Perm less x (y ∷ ys) = elim (Bool-cases (less y x)) [
    | inl e ↦ rw e (Perm.trans (Perm.cons y (insert-Perm less x ys)) (Perm.swap x y ys))
    | inr e ↦ rw e Perm.rfl
  ]

  pub sort-Perm : (less : A → A → Bool) (xs : List A) → Perm (sort less xs) xs
  unfolding sort
  sort-Perm less [] = Perm.rfl
  sort-Perm less (x ∷ xs) =
      Perm.trans (insert-Perm less x (sort less xs)) (Perm.cons x (sort-Perm less xs))

  pub insert-All {κ} :
      (P : A → Type κ) (less : A → A → Bool) (x : A) (xs : List A)
      → P x
      → All P xs
      → All P (insert less x xs)
  unfolding insert
  insert-All P less x [] h hs = (h, tt)
  insert-All P less x (y ∷ ys) h hs = elim (Bool-cases (less y x)) [
    | inl e ↦ rw e (hs.0, insert-All P less x ys h hs.1)
    | inr e ↦ rw e (h, hs)
  ]

  pub sort-All {κ} :
      (P : A → Type κ) (less : A → A → Bool) (xs : List A) → All P xs → All P (sort less xs)
  unfolding sort
  sort-All P less [] h = tt
  sort-All P less (x ∷ xs) h = insert-All P less x _ h.0 (sort-All P less xs h.1)

  length-insert :
      (less : A → A → Bool) (x : A) (xs : List A) → length (insert less x xs) ≡ suc (length xs)
  unfolding insert
  length-insert less x [] = refl
  length-insert less x (y ∷ ys) = ground (arith, length-insert less x ys)

  pub length-sort : (less : A → A → Bool) (xs : List A) → length (sort less xs) ≡ length xs
  unfolding sort
  length-sort less [] = refl
  length-sort less (x ∷ xs) =
      omega (arith, length-insert less x (sort less xs), length-sort less xs)

  any-insert :
      (p : A → Bool) (less : A → A → Bool) (x : A) (xs : List A)
      → any p (insert less x xs) ≡ (p x || any p xs)
  unfolding insert
  any-insert p less x [] = refl
  any-insert p less x (y ∷ ys) = ground (arith, any-insert p less x ys)

  pub any-sort :
      (p : A → Bool) (less : A → A → Bool) (xs : List A) → any p (sort less xs) ≡ any p xs
  unfolding sort
  any-sort p less [] = refl
  any-sort p less (x ∷ xs) = ground (arith, any-insert p less x (sort less xs), any-sort p less xs)

  insert-here : (less : A → A → Bool) (x : A) (xs : List A) → Memᴰ x (insert less x xs)
  unfolding insert
  insert-here less x [] = Memᴰ.head refl
  insert-here less x (y ∷ ys) = elim (Bool-cases (less y x)) [
    | inl e ↦ rw e (Memᴰ.tail (insert-here less x ys))
    | inr e ↦ rw e (Memᴰ.head refl)
  ]

  insert-there :
      (less : A → A → Bool) (x y : A) (ys : List A) → Memᴰ y ys → Memᴰ y (insert less x ys)
  unfolding insert
  insert-there less x y [] m = absurd (Memᴰ.not-nil m)
  insert-there less x y (z ∷ ys) m = elim (Bool-cases (less z x)) [
    | inr e ↦ rw e (Memᴰ.tail m)
    | inl e ↦ rw e (elim (Memᴰ.cases_cons m) [
      | inl same ↦ Memᴰ.head same
      | inr rest ↦ Memᴰ.tail (insert-there less x y ys rest)
    ])
  ]

  pub sort-mem : (less : A → A → Bool) (x : A) (xs : List A) → Memᴰ x xs → Memᴰ x (sort less xs)
  unfolding sort
  sort-mem less x [] m = absurd (Memᴰ.not-nil m)
  sort-mem less x (y ∷ ys) m = elim (Memᴰ.cases_cons m) [
    | inl same ↦ subst (λ z. Memᴰ x (insert less z (sort less ys))) same (insert-here less x _)
    | inr rest ↦ insert-there less y x _ (sort-mem less x ys rest)
  ]

  -- All elements with the test stand before all without it.
  pub data Leading (p : A → Bool) : List A → Type ℓ where
    ended : {xs : List A} → All (λ x. p x ≡ false) xs → Leading p xs
    leads : {x : A} {xs : List A} → p x ≡ true → Leading p xs → Leading p (x ∷ xs)

  module _ (p : A → Bool) (less : A → A → Bool)
      (before : (x y : A) → p x ≡ true → p y ≡ false → less x y ≡ true)
      (after : (x y : A) → p x ≡ true → p y ≡ false → less y x ≡ false) where
    insert_ahead :
        (x : A) (xs : List A)
        → p x ≡ true
        → All (λ y. p y ≡ false) xs
        → Leading p (insert less x xs)
    unfolding insert
    insert_ahead x [] h hs = leads h (ended tt)
    insert_ahead x (y ∷ ys) h hs = rw (after x y h hs.0) (leads h (ended hs))

    insert-Leading : (x : A) (xs : List A) → Leading p xs → Leading p (insert less x xs)
    unfolding insert
    insert-Leading x xs (ended hs) = elim (Bool-cases (p x)) [
      | inl h ↦ insert_ahead x xs h hs
      | inr h ↦ ended (insert-All _ less x xs h hs)
    ]
    insert-Leading x (y ∷ ys) (leads hy l) = elim (Bool-cases (less y x)) [
      | inl e ↦ rw e (leads hy (insert-Leading x ys l))
      | inr e ↦ rw e (elim (Bool-cases (p x)) [
        | inl h ↦ leads h (leads hy l)
        | inr h ↦ absurd (cc (before y x hy h, e))
      ])
    ]

    pub sort-Leading : (xs : List A) → Leading p (sort less xs)
    unfolding sort
    sort-Leading [] = ended tt
    sort-Leading (x ∷ xs) = insert-Leading x _ (sort-Leading xs)

-- `sorted` of a set: each text once.
unfoldable pub insert_text : String → List String → List String
insert_text s [] = s ∷ []
insert_text s (t ∷ ts) =
    let rest = insert_text s ts in
    elim (compare s t) [ Ordering.lt ↦ s ∷ t ∷ ts | Ordering.eq ↦ t ∷ ts | Ordering.gt ↦ t ∷ rest ]

abbrev pub text_less : String → String → Bool
text_less s t = elim (compare s t) [ Ordering.lt ↦ true | _ ↦ false ]

unfoldable pub sorted_set : List String → List String
unfolding insert_text
sorted_set [] = []
sorted_set (s ∷ ss) = insert_text s (sorted_set ss)
