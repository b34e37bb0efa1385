-- ===== src/Action.antt =====
-- Go functions that return a value and an error, and that change a state on the way: what was written
-- before an error stays written.
pub mod Always
use cluster_api_provider_elf.Base.{String, ◌+++◌, ◌≡◌, refl, ap, Result, ok, err}

abbrev pub Action {ℓ} : Type ℓ → Type ℓ → Type ℓ
Action S A = S → Result A × S

module _ {ℓ} {A : Type ℓ} where
  abbrev pub wrapped : String → Result A → Result A
  wrapped text (ok a) = ok a
  wrapped text (err e) = err (text +++ (": " +++ e))

module _ {ℓ} {S A : Type ℓ} where
  unfoldable pub pure : A → Action S A
  pure a s = (ok a, s)

  unfoldable pub raise : String → Action S A
  raise e s = (err e, s)

  -- A value that was computed with its error.
  unfoldable pub from_result : Result A → Action S A
  from_result r s = (r, s)

  unfoldable pub gets : (S → A) → Action S A
  gets f s = (ok (f s), s)

  -- A step that can not fail.
  unfoldable pub step : (S → A × S) → Action S A
  step f s = let (a, s') = f s in (ok a, s')

  -- A deferred function, which sees the result.
  unfoldable pub deferred : (Result A → S → S) → Action S A → Action S A
  deferred f m s = let (r, s') = m s in (r, f r s')

  -- errors.Wrapf
  unfoldable pub wrap : String → Action S A → Action S A
  wrap text m s = let (r, s') = m s in (wrapped text r, s')

  -- The error as a value, for code that looks at it.
  unfoldable pub attempt : Action S A → Action S (Result A)
  attempt m s = let (r, s') = m s in (ok r, s')

module _ {ℓ} {S A B : Type ℓ} where
  abbrev pub go_on : (A → Action S B) → Result A → Action S B
  go_on f (ok a) = f a
  go_on f (err e) = λ s. (err e, s)

  infixl 10 ◌>>=◌ ◌>>◌
  unfoldable pub ◌>>=◌ : Action S A → (A → Action S B) → Action S B
  (m >>= f) s = let (r, s') = m s in go_on f r s'

  unfoldable pub ◌>>◌ : Action S A → Action S B → Action S B
  unfolding ◌>>=◌
  m >> n = m >>= λ _. n

  pub bind_of_ok :
      (m : Action S A) (f : A → Action S B) (s : S) (a : A) (s' : S)
      → m s ≡ (ok a, s')
      → (m >>= f) s ≡ f a s'
  unfolding ◌>>=◌
  bind_of_ok m f s a s' h = rw h refl

  pub then_of : (m n : Action S A) (k : Action S B) (s : S) → m s ≡ n s → (m >> k) s ≡ (n >> k) s
  unfolding ◌>>◌
  then_of m n k s e = ap (λ r. go_on (λ _. k) r.0 r.1) e

module _ {ℓ} {S A : Type ℓ} where
  pub deferred_of :
      (f : Result A → S → S) (m : Action S A) (s : S) (r : Result A × S)
      → m s ≡ r
      → deferred f m s ≡ (r.0, f r.0 r.1)
  unfolding deferred
  deferred_of f m s r h = rw h refl
