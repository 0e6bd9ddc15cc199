-- ===== src/Errors.antt =====
-- internal/billing/errors.go: errors with a kind, and the results of operations that may fail.
use Prim.Native.String.{String}
use cpa_plugin_group_billing.Prelude.{◌≡◌, refl, ◌⊎◌, inl, inr, Bool, true, false}

pub data ErrorKind : Type 0 where
  invalid not_found conflict storage : ErrorKind

-- The message is the format string of the source, without its arguments.
pub record Error : Type 0 where
  pub kind : ErrorKind
  pub message : String

abbrev pub invalidf : String → Error
invalidf m = record { kind = invalid; message = m }

abbrev pub not_foundf : String → Error
not_foundf m = record { kind = not_found; message = m }

abbrev pub conflictf : String → Error
conflictf m = record { kind = conflict; message = m }

-- A value, or the error that is returned in its place.
pub data Result {ℓ} (V : Type ℓ) : Type ℓ where
  ok : V → Result V
  err : Error → Result V

infixl 5 ◌>>◌
infixl 5 ◌>>=◌
-- The rest of the code runs on the value unless an error is returned.
abbrev pub ◌>>=◌ {ℓ κ} : {V : Type ℓ} {W : Type κ} → Result V → (V → Result W) → Result W
err failure >>= next = err failure
ok value >>= next = next value

abbrev pub ◌>>◌ {κ} : {W : Type κ} → Result (Unit {0}) → Result W → Result W
check >> rest = check >>= λ _. rest

-- `if test { return err }`
abbrev pub refuse : Bool → Error → Result (Unit {0})
refuse false failure = ok tt
refuse true failure = err failure

pub Result-cases {ℓ} :
    {V : Type ℓ} (result : Result V)
    → ((value : V) × (result ≡ ok value)) ⊎ ((failure : Error) × (result ≡ err failure))
Result-cases (err failure) = inr (failure, refl)
Result-cases (ok value) = inl (value, refl)

-- A sequence that succeeds has a first part that succeeds.
pub bind-ok {ℓ κ} :
    {A : Type ℓ} {B : Type κ} (r : Result A) (f : A → Result B) (b : B)
    → (r >>= f) ≡ ok b
    → (a : A) × (r ≡ ok a) × (f a ≡ ok b)
bind-ok (ok a) f b h = (a, refl, h)
bind-ok (err e) f b h = absurd cc

pub refuse-ok : (test : Bool) (e : Error) (u : Unit {0}) → refuse test e ≡ ok u → test ≡ false
refuse-ok true e u h = absurd cc
refuse-ok false e u h = refl

pub ok-injective {ℓ} : {A : Type ℓ} (a b : A) → ok a ≡ ok b → a ≡ b
ok-injective a b e = cc
