-- ===== src/Util/Outcome.antt =====
-- The `invariant` and `check_errno` macros of src/util/assert.h: where the condition fails, the
-- process exits, and nothing that follows is run.
use graph_store.Prelude.{Bool, true, false, ◌≡◌, refl, ap}

pub data Outcome {ℓ} (A : Type ℓ) : Type ℓ where
  done : A → Outcome A
  exited : Outcome A

infixl 5 ◌>>=◌
abbrev pub ◌>>=◌ {ℓ κ} : {A : Type ℓ} {B : Type κ} → Outcome A → (A → Outcome B) → Outcome B
done a >>= f = f a
exited >>= f = exited

-- `invariant(cond)`, with the code that follows it
abbrev pub invariant {ℓ} : {A : Type ℓ} → Bool → Outcome A → Outcome A
invariant true rest = rest
invariant false rest = exited

-- What is returned, read by `f`.
abbrev pub map {ℓ κ} : {A : Type ℓ} {B : Type κ} → (A → B) → Outcome A → Outcome B
map f (done a) = done (f a)
map f exited = exited

module _ {ℓ} {A B C : Type ℓ} where
  pub bind_assoc :
      (m : Outcome A) (f : A → Outcome B) (g : B → Outcome C)
      → (m >>= f >>= g) ≡ (m >>= λ a. f a >>= g)
  bind_assoc (done a) f g = refl
  bind_assoc exited f g = refl

pub bind_done {ℓ} : {A : Type ℓ} (m : Outcome A) → m ≡ (m >>= λ a. done a)
bind_done (done a) = refl
bind_done exited = refl

pub done-injective {ℓ} : {A : Type ℓ} (a b : A) → done a ≡ done b → a ≡ b
done-injective {A} a b h = ap (λ (o : Outcome A). elim o [ done x ↦ x | exited ↦ a ]) h

pub bind-cong {ℓ κ} :
    {A : Type ℓ} {B : Type κ} (m : Outcome A) (f g : A → Outcome B)
    → ((a : A) → f a ≡ g a)
    → (m >>= f) ≡ (m >>= g)
bind-cong (done a) f g h = h a
bind-cong exited f g h = refl
