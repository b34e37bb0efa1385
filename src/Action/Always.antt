-- ===== src/Action/Always.antt =====
-- What every run of an action is certain to give, one rule for each way to build an action.
use cluster_api_provider_elf.Base.{
  ◌≡◌, refl, Bool, true, false, Result, ok, err, String, if◌then◌else◌,
}
use cluster_api_provider_elf.Action.{
  Action, pure, raise, from_result, gets, step, deferred, go_on, ◌>>=◌,
}

-- From each state of `I`, the result is in `Q` and the state after it is in `I`.
pub record Always {ℓ} {S A : Type ℓ} (I : S → Type ℓ) (Q : Result A → Type ℓ) (m : Action S A)
    : Type ℓ where
  pub at : (s : S) → I s → Q (m s).0 × I (m s).1

module _ {ℓ} {S A : Type ℓ} {I : S → Type ℓ} {Q : Result A → Type ℓ} where
  pub Always-pure : (a : A) → Q (ok a) → Always I Q (pure a)
  unfolding pure
  Always-pure a q = record { at = λ s i. (q, i) }

  pub Always-raise : (e : String) → Q (err e) → Always I Q (raise e)
  unfolding raise
  Always-raise e q = record { at = λ s i. (q, i) }

  pub Always-from_result : (r : Result A) → Q r → Always I Q (from_result r)
  unfolding from_result
  Always-from_result r q = record { at = λ s i. (q, i) }

  -- A read gives what the invariant says of the state.
  pub Always-gets : (f : S → A) → ((s : S) → I s → Q (ok (f s))) → Always I Q (gets f)
  unfolding gets
  Always-gets f q = record { at = λ s i. (q s i, i) }

  pub Always-step :
      (f : S → A × S) → ((s : S) → I s → Q (ok (f s).0) × I (f s).1) → Always I Q (step f)
  unfolding step
  Always-step f q = record { at = λ s i. q s i }

  pub Always-if :
      (b : Bool) (m n : Action S A)
      → (b ≡ true → Always I Q m)
      → (b ≡ false → Always I Q n)
      → Always I Q (if b then m else n)
  Always-if true m n km kn = km refl
  Always-if false m n km kn = kn refl

  -- A deferred function that keeps the invariant changes nothing of the result.
  pub Always-deferred :
      (f : Result A → S → S) (m : Action S A)
      → ((r : Result A) (s : S) → I s → I (f r s))
      → Always I Q m
      → Always I Q (deferred f m)
  unfolding deferred
  Always-deferred f m kf km = record {
    at = λ s i. let (q, i') = km.at s i in (q, kf (m s).0 (m s).1 i');
  }

module _ {ℓ} {S A B : Type ℓ} {I : S → Type ℓ} {Q : Result B → Type ℓ} where
  go_on_lem :
      (R : Result A → Type ℓ) (f : A → Action S B)
      → ((a : A) → R (ok a) → Always I Q (f a))
      → ((e : String) → Q (err e))
      → (r : Result A) (s : S) → R r
      → I s
      → Q (go_on f r s).0 × I (go_on f r s).1
  go_on_lem R f kf ke (ok a) s q i = (kf a q).at s i
  go_on_lem R f kf ke (err e) s q i = (ke e, i)

  pub Always-bind :
      {R : Result A → Type ℓ} (m : Action S A) (f : A → Action S B)
      → Always I R m
      → ((a : A) → R (ok a) → Always I Q (f a))
      → ((e : String) → Q (err e))
      → Always I Q (m >>= f)
  unfolding ◌>>=◌
  Always-bind {R} m f km kf ke = record {
    at = λ s i. let (q, i') = km.at s i in go_on_lem R f kf ke (m s).0 (m s).1 q i';
  }

-- Nothing is asked of the result.
abbrev pub Any {ℓ} : {A : Type ℓ} → Result A → Type ℓ
Any r = Unit

-- The result is one that the action gives in some state.
abbrev pub Gives {ℓ} : {S A : Type ℓ} → Action S A → Result A → Type ℓ
Gives {S = S} m r = (s : S) × ((m s).0 ≡ r)

module _ {ℓ} {S A : Type ℓ} {I : S → Type ℓ} where
  -- An action that keeps the invariant gives what it gives.
  pub Always-Gives : (m : Action S A) → ((s : S) → I s → I (m s).1) → Always I (Gives m) m
  Always-Gives m k = record { at = λ s i. ((s, refl), k s i) }

module _ {ℓ} {S A B : Type ℓ} {I : S → Type ℓ} (Q : Result B → Type ℓ) where
  go_on_result :
      (R : Result A → Type ℓ) (f : A → Action S B)
      → ((a : A) → R (ok a) → (s : S) → I s → Q (f a s).0)
      → ((e : String) → Q (err e))
      → (r : Result A) (s : S) → R r
      → I s
      → Q (go_on f r s).0
  go_on_result R f kf ke (ok a) s q i = kf a q s i
  go_on_result R f kf ke (err e) s q i = ke e

  -- The same where nothing is asked of the last state.
  pub bind_result :
      {R : Result A → Type ℓ} (m : Action S A) (f : A → Action S B)
      → Always I R m
      → ((a : A) → R (ok a) → (s : S) → I s → Q (f a s).0)
      → ((e : String) → Q (err e))
      → (s : S) → I s
      → Q ((m >>= f) s).0
  unfolding ◌>>=◌
  bind_result {R} m f km kf ke s i =
      let (q, i') = km.at s i in go_on_result R f kf ke (m s).0 (m s).1 q i'

module _ {ℓ} {S A B : Type ℓ} (Q : Result B → Type ℓ) where
  -- Without an invariant.
  pub each_result :
      (m : Action S A) (f : A → Action S B)
      → ((a : A) → Gives m (ok a) → (s : S) → Q (f a s).0)
      → ((e : String) → Q (err e))
      → (s : S) → Q ((m >>= f) s).0
  unfolding ◌>>=◌
  each_result m f kf ke s =
      go_on_result {I = λ s. Unit} Q (Gives m) f (λ a q s' i. kf a q s') ke (m s).0 (m s).1
        (s, refl) tt

  -- From one state, by what is known of the first result.
  pub run_result :
      (R : Result A → Type ℓ) (m : Action S A) (f : A → Action S B) (s : S)
      → R (m s).0
      → ((a : A) → R (ok a) → (s : S) → Q (f a s).0)
      → ((e : String) → Q (err e))
      → Q ((m >>= f) s).0
  unfolding ◌>>=◌
  run_result R m f s q kf ke =
      go_on_result {I = λ s. Unit} Q R f (λ a r s' i. kf a r s') ke (m s).0 (m s).1 q tt

module _ {ℓ} {S A : Type ℓ} (Q : Result A → Type ℓ) where
  -- A test in an action.
  pub if_lem :
      (b : Bool) (m n : Action S A) (s : S)
      → (b ≡ true → Q (m s).0)
      → (b ≡ false → Q (n s).0)
      → Q ((if b then m else n) s).0
  if_lem true m n s p q = p refl
  if_lem false m n s p q = q refl
