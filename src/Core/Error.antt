-- ===== src/Core/Error.antt =====
-- crates/pegastore/src/error.rs. A context value is kept as the value that `to_string` renders.
use pegastore.Prelude.{
  inl, inr, ◌⊎◌, ℕ, Bool, true, false, Option, none, some, List, [], ◌∷◌, ◌++◌, String, ◌≡◌, refl,
}
use pegastore.Core.Types.{Device}

pub data ErrorKind : Type 0 where
  not_found evicted already_exists spec_mismatch no_space : ErrorKind
  unsupported invalid_input unavailable unexpected : ErrorKind

pub data ErrorStatus : Type 0 where
  permanent temporary : ErrorStatus

unfoldable pub default_status : ErrorKind → ErrorStatus
default_status ErrorKind.no_space = temporary
default_status ErrorKind.unavailable = temporary
default_status _ = permanent

unfoldable pub as_str : ErrorKind → String
as_str not_found = "NotFound"
as_str evicted = "Evicted"
as_str already_exists = "AlreadyExists"
as_str spec_mismatch = "SpecMismatch"
as_str no_space = "NoSpace"
as_str unsupported = "Unsupported"
as_str invalid_input = "InvalidInput"
as_str unavailable = "Unavailable"
as_str unexpected = "Unexpected"

-- What a call of `with_context` is given: a number, a device, or a key in debug form.
pub data Shown : Type 0 where
  number : ℕ → Shown
  device : Device → Shown
  key : List ℕ → Shown

-- `source` is the text of the wrapped error.
pub record Error : Type 0 where
  pub kind : ErrorKind
  pub status : ErrorStatus
  pub message : String
  pub operation : Option String
  pub context : List (String × Shown)
  pub source : Option String

unfoldable pub new : ErrorKind → String → Error
new kind message = record {
  kind = kind;
  status = default_status kind;
  message = message;
  operation = none;
  context = [];
  source = none;
}

unfoldable pub is_temporary : Error → Bool
is_temporary e = elim e.status [ temporary ↦ true | permanent ↦ false ]

unfoldable pub with_operation : Error → String → Error
with_operation e operation = elim e.operation [
  | none ↦ record e { operation = some operation }
  | some _ ↦ e
]

unfoldable pub with_context : Error → String → Shown → Error
with_context e k v = record e { context = e.context ++ (k, v) ∷ [] }

unfoldable pub set_temporary : Error → Error
set_temporary e = record e { status = temporary }

unfoldable pub set_permanent : Error → Error
set_permanent e = record e { status = permanent }

unfoldable pub set_source : Error → String → Error
set_source e source = record e { source = some source }

pub data Result {ℓ} (A : Type ℓ) : Type ℓ where
  ok : A → Result A
  err : Error → Result A

-- `map_err`, `is_ok`, and the operator `?` as a chain.
abbrev pub map_err {ℓ} : {A : Type ℓ} → (Error → Error) → Result A → Result A
map_err f (err e) = err (f e)
map_err f (ok a) = ok a

abbrev pub is_ok {ℓ} : {A : Type ℓ} → Result A → Bool
is_ok (err e) = false
is_ok (ok a) = true

infixl 5 ◌>>=◌ ◌>>◌
abbrev pub ◌>>=◌ {ℓ κ} : {T : Type ℓ} {U : Type κ} → Result T → (T → Result U) → Result U
err e >>= next = err e
ok t >>= next = next t

abbrev pub ◌>>◌ {ℓ κ} : {T : Type ℓ} {U : Type κ} → Result T → Result U → Result U
first >> second = first >>= λ _. second

-- A chain that succeeds has succeeded in its first step.
pub >>=-eq-ok {ℓ κ} :
    {T : Type ℓ} {U : Type κ} (first : Result T) (next : T → Result U) {u : U}
    → (first >>= next) ≡ ok u
    → (t : T) × (first ≡ ok t) × (next t ≡ ok u)
>>=-eq-ok (err e) next done_ok = cc
>>=-eq-ok (ok t) next done_ok = (t, refl, done_ok)

pub ok_of_map_err {ℓ} :
    {A : Type ℓ} (f : Error → Error) (r : Result A) {a : A} → map_err f r ≡ ok a → r ≡ ok a
ok_of_map_err f (ok b) h = h
ok_of_map_err f (err e) h = cc

pub Result-cases {ℓ} :
    {A : Type ℓ} (r : Result A) → ((a : A) × (r ≡ ok a)) ⊎ ((e : Error) × (r ≡ err e))
Result-cases (ok a) = inl (a, refl)
Result-cases (err e) = inr (e, refl)
