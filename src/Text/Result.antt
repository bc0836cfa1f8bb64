-- ===== src/Text/Result.antt =====
-- `Result<_, String>`, with `?` as the bind of `do`.
use lens.Prelude.{Bool, true, false, ◌≡◌, refl, ◌⊎◌, inl, inr}
use lens.Text.{Bytes}

pub data Result {ℓ} (A : Type ℓ) : Type ℓ where
  ok : A → Result A
  err : Bytes → Result A

pub Result-cases {ℓ} :
    {A : Type ℓ} (r : Result A) → ((a : A) × (r ≡ ok a)) ⊎ ((reason : Bytes) × (r ≡ err reason))
Result-cases (ok a) = inl (a, refl)
Result-cases (err reason) = inr (reason, refl)

infixl 5 ◌>>=◌ ◌>>◌
abbrev pub ◌>>=◌ {ℓ κ} : {A : Type ℓ} {B : Type κ} → Result A → (A → Result B) → Result B
ok a >>= f = f a
err reason >>= f = err reason

abbrev pub ◌>>◌ {ℓ} : {B : Type ℓ} → Result (Unit {0}) → Result B → Result B
m >> k = m >>= λ _. k

-- An early return of an error.
abbrev pub refuse_if : Bool → Bytes → Result (Unit {0})
refuse_if true reason = err reason
refuse_if false reason = ok tt
