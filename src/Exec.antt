-- ===== src/Exec.antt =====
-- Python calls that change the world and may raise.
use atlas_compliance_copilot.Prelude.{String, ◌≡◌, refl, arith}

-- GpuProviderError (JlError), TimeoutError, any other Exception, and what is a BaseException only,
-- such as KeyboardInterrupt.
pub data Error : Type 0 where
  provider_error : String → Error
  timeout_error : String → Error
  exception : String → Error
  interrupt : Error

pub data Result {ℓ} (A : Type ℓ) : Type ℓ where
  ok : A → Result A
  raise : Error → Result A

abbrev pub Exec : Type 0 → Type 0 → Type 0
Exec W A = W → Result A × W

module _ {W A B : Type 0} where
  -- What comes after a call, if it returned.
  abbrev pub continue : Result A × W → (A → Exec W B) → Result B × W
  continue (ok a, w) f = f a w
  continue (raise e, w) f = (raise e, w)

  infixl 5 ◌>>=◌
  abbrev pub ◌>>=◌ : Exec W A → (A → Exec W B) → Exec W B
  ◌>>=◌ m f w = continue (m w) f

module _ {W A : Type 0} where
  abbrev pub pure : A → Exec W A
  pure a w = (ok a, w)

  abbrev pub throw : Error → Exec W A
  throw e w = (raise e, w)

-- A chain returns only if its first call did, and then the rest did from there.
pub continue-ok :
    {W A B : Type 0} (x : Result A × W) (f : A → Exec W B) (y : B × W)
    → continue x f ≡ (ok y.0, y.1)
    → (a : A) × (w : W) × (x ≡ (ok a, w)) × (f a w ≡ (ok y.0, y.1))
continue-ok (ok a, w) f y h = (a, w, refl, h)
continue-ok (raise e, w) f y h = ground arith

pub returned :
    {W A : Type 0} (a b : A) (w v : W)
    → ◌≡◌ {A = Result A × W} (ok a, w) (ok b, v)
    → (b ≡ a) × (v ≡ w)
returned a b w v h = ground arith
