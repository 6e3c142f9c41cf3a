-- ===== src/Base/Outcome.antt =====
-- How a run of kernel code ends: with a value, in `panic` (which prints and then spins for ever with
-- interrupts off), in a loop that never ends, or in a fault: an access through a null pointer, a
-- division by zero. Code that can do the last three is a chain of runs.

use mathlib.Core.Path.{◌≡◌, refl, subst}
use mathlib.Core.Bool.{Bool, true, false}
use dek_os.Base.Tests.{if◌then◌else◌}

pub data Run {ℓ} (A : Type ℓ) : Type ℓ where
  ok : A → Run A
  panicked : Run A
  hung : Run A
  faulted : Run A

infixl 5 ◌>>=◌
abbrev pub ◌>>=◌ {ℓ κ} : {A : Type ℓ} {B : Type κ} → Run A → (A → Run B) → Run B
hung >>= next = hung
panicked >>= next = panicked
faulted >>= next = faulted
ok a >>= next = next a

pub ok-injective {ℓ} : {A : Type ℓ} {a b : A} → ok a ≡ ok b → a ≡ b
ok-injective h = cc

pub panicked≢ok {ℓ} : {A : Type ℓ} {a : A} → ¬ (panicked ≡ ok a)
panicked≢ok h = cc

hung≢ok {ℓ} : {A : Type ℓ} {a : A} → ¬ (hung ≡ ok a)
hung≢ok h = cc

faulted≢ok {ℓ} : {A : Type ℓ} {a : A} → ¬ (faulted ≡ ok a)
faulted≢ok h = cc

-- A chain that returns has a first part that returns.
pub >>=-eq-ok {ℓ κ} :
    {A : Type ℓ} {B : Type κ} (first : Run A) (next : A → Run B) {b : B}
    → first >>= next ≡ ok b
    → (a : A) × (first ≡ ok a) × (next a ≡ ok b)
>>=-eq-ok hung next h = cc
>>=-eq-ok panicked next h = cc
>>=-eq-ok faulted next h = cc
>>=-eq-ok (ok a) next h = (a, refl, h)

-- What a run returns, if it returns, has a property: the rules follow the shape of the code.
pub record Ensures {ℓ κ} {A : Type ℓ} (P : A → Type κ) (run : Run A) : Type (ℓ ⊔ κ) where
  pub returns : (a : A) → run ≡ ok a → P a

module _ {ℓ κ} {A : Type ℓ} {P : A → Type κ} where
  pub Ensures-ok : {a : A} → P a → Ensures P (ok a)
  Ensures-ok p = record { returns = λ b e. subst P (ok-injective e) p }

  pub Ensures-panicked : Ensures P panicked
  Ensures-panicked = record { returns = λ b e. absurd (panicked≢ok e) }

  pub Ensures-hung : Ensures P hung
  Ensures-hung = record { returns = λ b e. absurd (hung≢ok e) }

  pub Ensures-faulted : Ensures P faulted
  Ensures-faulted = record { returns = λ b e. absurd (faulted≢ok e) }

  pub Ensures-if :
      (b : Bool) {x y : Run A} → Ensures P x → Ensures P y → Ensures P (if b then x else y)
  Ensures-if true p q = p
  Ensures-if false p q = q

-- Nothing is known of the first run.
pub Ensures-then {ℓ κ ν} :
    {A : Type ℓ} {B : Type κ} {P : B → Type ν} (first : Run A) {next : A → Run B}
    → ((a : A) → Ensures P (next a))
    → Ensures P (first >>= next)
Ensures-then first {next} q = record {
  returns = λ b e. let (a, _, e') = >>=-eq-ok first next e in (q a).returns b e';
}

pub Ensures->>= {ℓ κ μ ν} :
    {A : Type ℓ} {B : Type κ} {Q : A → Type μ} {P : B → Type ν} (first : Run A) {next : A → Run B}
    → Ensures Q first
    → ((a : A) → Q a → Ensures P (next a))
    → Ensures P (first >>= next)
Ensures->>= first {next} p q = record {
  returns =
      λ b e. let (a, found, e') = >>=-eq-ok first next e in (q a (p.returns a found)).returns b e';
}
