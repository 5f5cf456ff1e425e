-- ===== src/Exec/Ensures.antt =====
-- Postconditions of computations: one for the value that is returned, one for a raise.
use omni_trade.Prelude.{subst, ◌≡◌, Bool, true, false, refl, if◌then◌else◌}
use omni_trade.Exec.{Exec, Error, Outcome, returned, raised, pure, catch, handle, proceed, ◌>>=◌}
use omni_trade.Exec.Preserves.{Preserves}

module _ {ℓ} {S A : Type ℓ} where
  abbrev pub Met : (A → S → Type ℓ) → (S → Type ℓ) → Outcome A → S → Type ℓ
  Met Post Bad (returned a) s = Post a s
  Met Post Bad (raised e) s = Bad s

  -- From a state with `Pre`, `m` returns with `Post` or raises with `Bad`.
  pub record Ensures (Pre : S → Type ℓ) (m : Exec S A) (Post : A → S → Type ℓ) (Bad : S → Type ℓ)
      : Type ℓ where
    pub run : (s : S) → Pre s → Met Post Bad (m s).0 (m s).1

module _ {ℓ} {S A : Type ℓ} (Post : A → S → Type ℓ) (Bad : S → Type ℓ) where
  -- The postcondition of a run that is known to have returned.
  pub Met-returned : (a : A) (o : Outcome A) (s : S) → o ≡ returned a → Met Post Bad o s → Post a s
  Met-returned a o s h p = subst (λ r. Met Post Bad r s) h p

module _ {ℓ} {S A : Type ℓ} {Pre Bad : S → Type ℓ} where
  pub Ensures-pure :
      {Post : A → S → Type ℓ} (a : A) → ((s : S) → Pre s → Post a s) → Ensures Pre (pure a) Post Bad
  unfolding pure
  Ensures-pure a h = record { run = h }

  pub Ensures-if :
      {Post : A → S → Type ℓ} (b : Bool) (m n : Exec S A)
      → (b ≡ true → Ensures Pre m Post Bad)
      → (b ≡ false → Ensures Pre n Post Bad)
      → Ensures Pre (if b then m else n) Post Bad
  Ensures-if true m n hm hn = hm refl
  Ensures-if false m n hm hn = hn refl

  Met-of : (o : Outcome A) (s : S) → ((s : S) → Pre s → Bad s) → Pre s → Met (λ _. Pre) Bad o s
  Met-of (returned a) s h p = p
  Met-of (raised e) s h p = h s p

  -- An invariant, read as a postcondition.
  pub Preserves-Ensures :
      (m : Exec S A) → Preserves Pre m → ((s : S) → Pre s → Bad s) → Ensures Pre m (λ _. Pre) Bad
  Preserves-Ensures m h bad = record { run = λ s p. Met-of (m s).0 (m s).1 bad (h.run s p) }

module _ {ℓ} {S A B : Type ℓ} {Bad : S → Type ℓ} {Mid : A → S → Type ℓ}
    {Post : B → S → Type ℓ} where
  Met-proceed :
      (o : Outcome A) (f : A → Exec S B) (s : S)
      → ((a : A) → Ensures (Mid a) (f a) Post Bad)
      → Met Mid Bad o s
      → Met Post Bad (proceed o f s).0 (proceed o f s).1
  Met-proceed (returned a) f s h p = (h a).run s p
  Met-proceed (raised e) f s h p = p

  pub Ensures-bind :
      {Pre : S → Type ℓ} (m : Exec S A) (f : A → Exec S B)
      → Ensures Pre m Mid Bad
      → ((a : A) → Ensures (Mid a) (f a) Post Bad)
      → Ensures Pre (m >>= f) Post Bad
  unfolding ◌>>=◌
  Ensures-bind m f hm hf = record { run = λ s p. Met-proceed (m s).0 f (m s).1 hf (hm.run s p) }

module _ {ℓ} {S A : Type ℓ} {Bad Worse : S → Type ℓ} where
  Met-weaken :
      (Post : A → S → Type ℓ) (o : Outcome A) (s : S)
      → ((s : S) → Bad s → Worse s)
      → Met Post Bad o s
      → Met Post Worse o s
  Met-weaken Post (returned a) s h p = p
  Met-weaken Post (raised e) s h p = h s p

  pub Ensures-weaken :
      {Pre : S → Type ℓ} {Post : A → S → Type ℓ} {m : Exec S A}
      → Ensures Pre m Post Bad
      → ((s : S) → Bad s → Worse s)
      → Ensures Pre m Post Worse
  Ensures-weaken {Post} {m} h bad = record {
    run = λ s p. Met-weaken Post (m s).0 (m s).1 bad (h.run s p);
  }

module _ {ℓ} {S A : Type ℓ} {Bad Mid : S → Type ℓ} {Post : A → S → Type ℓ} where
  Met-handle :
      (o : Outcome A) (h : Error → Exec S A) (s : S)
      → ((e : Error) → Ensures Mid (h e) Post Bad)
      → Met Post Mid o s
      → Met Post Bad (handle o h s).0 (handle o h s).1
  Met-handle (returned a) h s k p = p
  Met-handle (raised e) h s k p = (k e).run s p

  pub Ensures-catch :
      {Pre : S → Type ℓ} (m : Exec S A) (h : Error → Exec S A)
      → Ensures Pre m Post Mid
      → ((e : Error) → Ensures Mid (h e) Post Bad)
      → Ensures Pre (catch m h) Post Bad
  unfolding catch
  Ensures-catch m h hm hh = record { run = λ s p. Met-handle (m s).0 h (m s).1 hh (hm.run s p) }

module _ {S A : Type 0} where
  Met-any : (o : Outcome A) (s : S) → Met (λ _ _. Unit {0}) (λ _. Unit {0}) o s
  Met-any (returned a) s = tt
  Met-any (raised e) s = tt

  -- Nothing is said of the run.
  pub Ensures-any :
      {Pre : S → Type 0} (m : Exec S A) → Ensures Pre m (λ _ _. Unit {0}) (λ _. Unit {0})
  Ensures-any m = record { run = λ s p. Met-any (m s).0 (m s).1 }
