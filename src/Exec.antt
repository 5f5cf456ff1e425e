-- ===== src/Exec.antt =====
-- Coroutines and methods: they change the state `S` and return or raise. What was written before a
-- raise stays written, so the state comes back on both ways out.
pub mod Preserves
pub mod Ensures
use omni_trade.Prelude.{String}

-- The exceptions that the program tells apart; `remote` is what a venue's adapter raises.
pub data Error : Type 0 where
  value_error runtime_error key_error integrity_error not_implemented zero_division
        attribute_error :
      Error
  remote : String → Error

pub data Outcome {ℓ} (A : Type ℓ) : Type ℓ where
  returned : A → Outcome A
  raised : Error → Outcome A

-- A computation without effects that may raise.
module _ {ℓ κ} {A : Type ℓ} {B : Type κ} where
  abbrev pub and_then : Outcome A → (A → Outcome B) → Outcome B
  and_then (returned a) f = f a
  and_then (raised e) f = raised e

abbrev pub Exec {ℓ} : Type ℓ → Type ℓ → Type ℓ
Exec S A = S → Outcome A × S

module _ {ℓ} {S A : Type ℓ} where
  unfoldable pub pure : A → Exec S A
  pure a s = (returned a, s)

  unfoldable pub raise : Error → Exec S A
  raise e s = (raised e, s)

  unfoldable pub gets : (S → A) → Exec S A
  gets f s = (returned (f s), s)

  abbrev pub handle : Outcome A → (Error → Exec S A) → Exec S A
  handle (returned a) h s = (returned a, s)
  handle (raised e) h s = h e s

  -- `try: m` with `except Exception as e: h`
  unfoldable pub catch : Exec S A → (Error → Exec S A) → Exec S A
  catch m h s = handle (m s).0 h (m s).1

module _ {ℓ} {S A B : Type ℓ} where
  abbrev pub proceed : Outcome A → (A → Exec S B) → Exec S B
  proceed (returned a) f s = f a s
  proceed (raised e) f s = (raised e, s)

  infixl 5 ◌>>=◌ ◌>>◌
  unfoldable pub ◌>>=◌ : Exec S A → (A → Exec S B) → Exec S B
  unfolding pure raise gets catch
  ◌>>=◌ m f s = proceed (m s).0 f (m s).1

  abbrev pub ◌>>◌ : Exec S A → Exec S B → Exec S B
  m >> n = m >>= λ _. n
