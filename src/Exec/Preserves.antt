-- ===== src/Exec/Preserves.antt =====
-- Invariants of computations, with one rule for each way to build a computation.
use omni_trade.Prelude.{Bool, true, false, if◌then◌else◌}
use omni_trade.Exec.{
  Exec, Error, Outcome, returned, raised, pure, raise, gets, catch, handle, proceed, ◌>>=◌,
}

-- `m` takes states with `P` to states with `P`, whether it returns or raises.
pub record Preserves {ℓ} {S A : Type ℓ} (P : S → Type ℓ) (m : Exec S A) : Type ℓ where
  pub run : (s : S) → P s → P (m s).1

module _ {ℓ} {S A : Type ℓ} {P : S → Type ℓ} where
  pub Preserves-pure : (a : A) → Preserves P (pure a)
  unfolding pure
  Preserves-pure a = record { run = λ s h. h }

  pub Preserves-raise : (e : Error) → Preserves P (raise {A = A} e)
  unfolding raise
  Preserves-raise e = record { run = λ s h. h }

  pub Preserves-gets : (f : S → A) → Preserves P (gets f)
  unfolding gets
  Preserves-gets f = record { run = λ s h. h }

  pub Preserves-if :
      (b : Bool) (m n : Exec S A) → Preserves P m → Preserves P n → Preserves P (if b then m else n)
  Preserves-if true m n hm hn = hm
  Preserves-if false m n hm hn = hn

  handle_preserves :
      (o : Outcome A) (h : Error → Exec S A) (s : S)
      → ((e : Error) → Preserves P (h e))
      → P s
      → P (handle o h s).1
  handle_preserves (returned a) h s hh hs = hs
  handle_preserves (raised e) h s hh hs = (hh e).run s hs

  pub Preserves-catch :
      (m : Exec S A) (h : Error → Exec S A)
      → Preserves P m
      → ((e : Error) → Preserves P (h e))
      → Preserves P (catch m h)
  unfolding catch
  Preserves-catch m h hm hh = record {
    run = λ s hs. handle_preserves (m s).0 h (m s).1 hh (hm.run s hs);
  }

module _ {ℓ} {S A B : Type ℓ} {P : S → Type ℓ} where
  proceed_preserves :
      (o : Outcome A) (f : A → Exec S B) (s : S)
      → ((a : A) → Preserves P (f a))
      → P s
      → P (proceed o f s).1
  proceed_preserves (returned a) f s hf hs = (hf a).run s hs
  proceed_preserves (raised e) f s hf hs = hs

  pub Preserves-bind :
      (m : Exec S A) (f : A → Exec S B)
      → Preserves P m
      → ((a : A) → Preserves P (f a))
      → Preserves P (m >>= f)
  unfolding ◌>>=◌
  Preserves-bind m f hm hf = record {
    run = λ s hs. proceed_preserves (m s).0 f (m s).1 hf (hm.run s hs);
  }

pub ruleset preserves_rules =
    (Preserves-pure, Preserves-raise, Preserves-gets, Preserves-if, Preserves-catch, Preserves-bind)
