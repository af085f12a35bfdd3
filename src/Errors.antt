-- ===== src/Errors.antt =====
-- finiexragengine/exceptions/ragengine_errors.py, and a computation that may raise one of its errors.
use finiex_ragengine.Prelude.{ℕ, String, Option, ◌≡◌, refl}

-- The exact class of an exception.
pub data ErrorClass : Type 0 where
  ragengine pipeline_not_found configuration source_fetch embedding : ErrorClass
  llm llm_timeout llm_api llm_parse : ErrorClass
  vector_store budget_exceeded already_running : ErrorClass

pub record FiniexRagError : Type 0 where
  pub error_class : ErrorClass
  pub text : String
  -- `error_type` and `status` of a `SourceFetchError`
  pub error_type : Option String
  pub status : Option ℕ

-- What a call that may raise leaves: its value, or the error.
pub data Fallible {ℓ} (A : Type ℓ) : Type ℓ where
  raises : FiniexRagError → Fallible A
  gives : A → Fallible A

-- The next statement, where the one before has a value.
infixl 5 ◌>>=◌
abbrev pub ◌>>=◌ {ℓ κ} : {B : Type κ} {A : Type ℓ} → Fallible A → (A → Fallible B) → Fallible B
raises exc >>= next = raises exc
gives x >>= next = next x

pub gives-injective {ℓ} : {A : Type ℓ} {x y : A} → gives x ≡ gives y → x ≡ y
gives-injective h = cc

-- A chain that gives a value has one at its first statement.
pub >>=-gives {ℓ κ} :
    {B : Type κ} {A : Type ℓ} (first : Fallible A) (next : A → Fallible B) {y : B}
    → (first >>= next) ≡ gives y
    → (x : A) × (first ≡ gives x) × (next x ≡ gives y)
>>=-gives (raises exc) next h = cc
>>=-gives (gives x) next h = (x, refl, h)
