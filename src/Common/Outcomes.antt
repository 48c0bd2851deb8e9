-- ===== src/Common/Outcomes.antt =====
-- What a call that can panic gives, with the bind for do blocks.
use mathlib.Core.Path.{◌≡◌, refl}

pub data Outcome {ℓ} (A : Type ℓ) : Type ℓ where
  done : A → Outcome A
  panic : Outcome A

infixl 5 ◌>>=◌
abbrev pub ◌>>=◌ {ℓ κ} : {A : Type ℓ} {B : Type κ} → Outcome A → (A → Outcome B) → Outcome B
panic >>= next = panic
done value >>= next = next value

pub >>=-eq-done {ℓ κ} :
    {A : Type ℓ} {B : Type κ} (call : Outcome A) (next : A → Outcome B) {result : B}
    → call >>= next ≡ done result
    → (value : A) × (call ≡ done value) × (next value ≡ done result)
>>=-eq-done panic next e = cc
>>=-eq-done (done value) next e = (value, refl, e)
