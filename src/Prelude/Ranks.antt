-- ===== src/Prelude/Ranks.antt =====
-- Sorting puts the elements in order, and a limit takes the first of them.
use Prim.Native.Nat.{ℕ, zero, suc, ◌≤◌}
use mathlib.Core.Bool.{Bool, true, false}
use mathlib.Core.Path.{◌≡◌, refl}
use mathlib.Core.Logic.{◌⊎◌, inl, inr}
use mathlib.Core.List.{List, [], ◌∷◌, ◌++◌}
use native.Mathlib.Omega.{arith}
use omni_trade.Prelude.Tests.{Bool-cases}
use omni_trade.Prelude.Lists.{All, length}
use omni_trade.Prelude.Sorts.{insert, insert-All, sort}

module _ {ℓ} {A : Type ℓ} where
  -- Each element stands in the relation to all that follow it.
  abbrev pub Ordered : (A → A → Type ℓ) → List A → Type ℓ
  Ordered R [] = Unit
  Ordered R (x ∷ xs) = All (R x) xs × Ordered R xs

  module _ (R : A → A → Type ℓ) (less : A → A → Bool)
      (R_trans : (x y z : A) → R x y → R y z → R x z)
      (of_less : (x y : A) → less x y ≡ true → R x y)
      (of_not_less : (x y : A) → less x y ≡ false → R y x) where
    weaken : (x y : A) (zs : List A) → R x y → All (R y) zs → All (R x) zs
    weaken x y [] h hs = tt
    weaken x y (z ∷ zs) h hs = (R_trans x y z h hs.0, weaken x y zs h hs.1)

    insert-Ordered : (x : A) (xs : List A) → Ordered R xs → Ordered R (insert less x xs)
    unfolding insert
    insert-Ordered x [] h = (tt, tt)
    insert-Ordered x (y ∷ ys) h = elim (Bool-cases (less y x)) [
      | inl e ↦ rw e (insert-All (R y) less x ys (of_less y x e) h.0, insert-Ordered x ys h.1)
      | inr e ↦ rw e ((of_not_less y x e, weaken x y ys (of_not_less y x e) h.0), h)
    ]

    pub sort-Ordered : (xs : List A) → Ordered R (sort less xs)
    unfolding sort
    sort-Ordered [] = tt
    sort-Ordered (x ∷ xs) = insert-Ordered x _ (sort-Ordered xs)

  -- `LIMIT n`, and what it leaves out.
  unfoldable pub limited : ℕ → List A → List A
  limited zero xs = []
  limited (suc n) [] = []
  limited (suc n) (x ∷ xs) = x ∷ limited n xs

  unfoldable pub left_out : ℕ → List A → List A
  left_out zero xs = xs
  left_out (suc n) [] = []
  left_out (suc n) (x ∷ xs) = left_out n xs

  pub limited-left_out : (n : ℕ) (xs : List A) → limited n xs ++ left_out n xs ≡ xs
  unfolding limited left_out
  limited-left_out zero xs = refl
  limited-left_out (suc n) [] = refl
  limited-left_out (suc n) (x ∷ xs) = rw (limited-left_out n xs) refl

  -- A limit is reached, or nothing is left out.
  pub limited-length :
      (n : ℕ) (xs : List A)
      → (length (limited n xs) ≤ n) × ((length (limited n xs) ≡ n) ⊎ (left_out n xs ≡ []))
  unfolding limited left_out
  limited-length zero xs = (omega arith, inl refl)
  limited-length (suc n) [] = (omega arith, inr refl)
  limited-length (suc n) (x ∷ xs) =
      let rest = limited-length n xs in
      (omega (arith, rest.0), elim rest.1 [ inl e ↦ inl (omega (arith, e)) | inr e ↦ inr e ])
