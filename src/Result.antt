-- ===== src/Result.antt =====
-- libraries/dbal/production/include/dbal/core/error_codes.hpp, error.hpp, error_result.hpp and
-- src/errors.cpp: an operation returns a value or an error with a code and a message.
use dbal.Prelude.{
  String, ◌≡◌, refl, Bool, true, false, Option, none, some, if◌then◌else◌, ◌⊎◌, inl, inr,
}

pub data ErrorCode : Type 0 where
  not_found_code conflict_code unauthorized_code forbidden_code : ErrorCode
  validation_code rate_limit_exceeded internal_error timeout : ErrorCode
  database_error capability_not_supported sandbox_violation malicious_code_detected : ErrorCode

pub record Error : Type 0 where
  pub code : ErrorCode
  pub message : String

pub data Result {ℓ} (A : Type ℓ) : Type ℓ where
  ok : A → Result A
  err : Error → Result A

abbrev pub validation_error : String → Error
validation_error m = record { code = validation_code; message = m }

abbrev pub not_found : String → Error
not_found m = record { code = not_found_code; message = m }

abbrev pub conflict : String → Error
conflict m = record { code = conflict_code; message = m }

abbrev pub is_ok {ℓ} : {A : Type ℓ} → Result A → Bool
is_ok (ok a) = true
is_ok (err e) = false

-- An operation returns its result and the state that it leaves, also beside an error.
module _ {ℓ κ} {S : Type ℓ} {A : Type κ} where
  -- `if (b) return error;`
  unfoldable pub reject_if : Bool → Error → S → Result A × S → Result A × S
  reject_if b e s rest = if b then (err e, s) else rest

  -- A `find` that returns the error at `end()`.
  unfoldable pub find_or {μ} :
      {B : Type μ} → Option B → Error → S → (B → Result A × S) → Result A × S
  find_or o e s found = elim o [ none ↦ (err e, s) | some b ↦ found b ]

  -- `if (o.has_value()) { ... }`, with what follows in both branches.
  unfoldable pub when_set {μ} :
      {B : Type μ} → Option B → Result A × S → (B → Result A × S) → Result A × S
  when_set o rest set = elim o [ none ↦ rest | some b ↦ set b ]

-- What a success says of the tests on its way.
module _ {ℓ κ} {S : Type ℓ} {A : Type κ} where
  pub reject_if-ok :
      (b : Bool) (e : Error) (s : S) (rest : Result A × S) {a : A} {t : S}
      → reject_if b e s rest ≡ (ok a, t)
      → (b ≡ false) × (rest ≡ (ok a, t))
  unfolding reject_if
  reject_if-ok true e s rest h = cc
  reject_if-ok false e s rest h = (refl, h)

  pub find_or-ok {μ} :
      {B : Type μ} (o : Option B) (e : Error) (s : S) (found : B → Result A × S) {a : A} {t : S}
      → find_or o e s found ≡ (ok a, t)
      → (b : B) × (o ≡ some b) × (found b ≡ (ok a, t))
  unfolding find_or
  find_or-ok none e s found h = cc
  find_or-ok (some b) e s found h = (b, refl, h)

  pub when_set-ok {μ} :
      {B : Type μ} (o : Option B) (rest : Result A × S) (set : B → Result A × S) {a : A} {t : S}
      → when_set o rest set ≡ (ok a, t)
      → ((o ≡ none) × (rest ≡ (ok a, t))) ⊎ ((b : B) × (o ≡ some b) × (set b ≡ (ok a, t)))
  unfolding when_set
  when_set-ok none rest set h = inl (refl, h)
  when_set-ok (some b) rest set h = inr (b, refl, h)

-- The state that an operation leaves has a property.
pub record Leaves {ℓ κ ι} {S : Type ℓ} {A : Type κ} (P : S → Type ι) (r : Result A × S)
    : Type ι where
  pub left : P r.1

module _ {ℓ κ ι} {S : Type ℓ} {A : Type κ} {P : S → Type ι} where
  pub leaves : (r : Result A) (s : S) → P s → Leaves P (r, s)
  leaves r s h = record { left = h }

  pub Leaves-reject_if :
      (b : Bool) (e : Error) (s : S) (rest : Result A × S)
      → P s
      → (b ≡ false → Leaves P rest)
      → Leaves P (reject_if b e s rest)
  unfolding reject_if
  Leaves-reject_if true e s rest h hr = leaves (err e) s h
  Leaves-reject_if false e s rest h hr = hr refl

  pub Leaves-find_or {μ} :
      {B : Type μ} (o : Option B) (e : Error) (s : S) (found : B → Result A × S)
      → P s
      → ((b : B) → o ≡ some b → Leaves P (found b))
      → Leaves P (find_or o e s found)
  unfolding find_or
  Leaves-find_or none e s found h hf = leaves (err e) s h
  Leaves-find_or (some b) e s found h hf = hf b refl

  pub Leaves-when_set {μ} :
      {B : Type μ} (o : Option B) (rest : Result A × S) (set : B → Result A × S)
      → Leaves P rest
      → ((b : B) → o ≡ some b → Leaves P (set b))
      → Leaves P (when_set o rest set)
  unfolding when_set
  Leaves-when_set none rest set h hf = h
  Leaves-when_set (some b) rest set h hf = hf b refl

  -- A call of one operation in another: its error returns at once, or the next step goes on.
  pub Leaves-chain {μ} :
      {B : Type μ} (r : Result B × S) (fail : Error → S → Result A × S)
      (next : B → S → Result A × S)
      → Leaves {A = B} P r
      → ((e : Error) (s : S) → P s → Leaves {A = A} P (fail e s))
      → ((b : B) (s : S) → P s → Leaves {A = A} P (next b s))
      → Leaves {A = A} P (elim r.0 [ ok b ↦ next b r.1 | err e ↦ fail e r.1 ])
  Leaves-chain (ok b, s) fail next h hf hn = hn b s h.left
  Leaves-chain (err e, s) fail next h hf hn = hf e s h.left

pub ruleset leaves_rules = (leaves, Leaves-reject_if, Leaves-find_or, Leaves-when_set)
