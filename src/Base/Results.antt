-- ===== src/Base/Results.antt =====
-- Go's `(value, error)`: a result or one of the errors that the modelled code returns.
use mathlib.Core.Path.{◌≡◌, refl}
use mathlib.Core.Bool.{Bool, true, false, not}
use mathlib.Core.Logic.{◌⊎◌, inl, inr}
use mathlib.Core.Option.{Option, none, some}

-- The errors of x/dex, x/allocation, zk/merkle and zk/indexed that the code tells apart.
pub data Error : Type 0 where
  pool_not_found invalid_amount invalid_denom insufficient_pool slippage pool_cap : Error
  zero_shares shielded_only invalid_operands lp_share_denom : Error
  tree_full out_of_range value_exists value_zero bank_refused : Error
  option_not_found not_claimable invalid_signer : Error
  invalid_unbonding note_budget note_refused bad_address pool_creation_locked : Error
  same_denom pool_exists invalid_private_msg no_free_time : Error
  bad_percentages option_removed no_weight lease_left_behind out_of_fuel : Error

-- `err` stands for a non-nil error, with which the caller discards whatever was written.
pub data Result {ℓ} (V : Type ℓ) : Type ℓ where
  err : Error → Result V
  ok : V → Result V

abbrev pub or_err {ℓ} : {V : Type ℓ} → Option V → Error → Result V
or_err none why = err why
or_err (some v) why = ok v

-- `if cond { return err }`.
abbrev pub fail_if : Bool → Error → Result (Unit {0})
fail_if false why = ok tt
fail_if true why = err why

-- `if !cond { return err }`.
abbrev pub guard : Bool → Error → Result (Unit {0})
guard cond why = fail_if (not cond) why

infixl 5 ◌>>=◌
-- A call whose error is returned at once.
abbrev pub ◌>>=◌ {ℓ κ} : {V : Type ℓ} {W : Type κ} → Result V → (V → Result W) → Result W
err why >>= next = err why
ok v >>= next = next v

infixl 5 ◌>>◌
abbrev pub ◌>>◌ {ℓ} : {W : Type ℓ} → Result (Unit {0}) → Result W → Result W
check >> next = check >>= λ u. next

-- A chain that succeeds has a first call that succeeds.
pub >>=-eq-ok {ℓ κ} :
    {V : Type ℓ} {W : Type κ} (call : Result V) (next : V → Result W) {w : W}
    → (call >>= next) ≡ ok w
    → (v : V) × (call ≡ ok v) × (next v ≡ ok w)
>>=-eq-ok (err why) next q = cc
>>=-eq-ok (ok v) next q = (v, refl, q)

pub guard-ok : (b : Bool) (e : Error) {u : Unit {0}} → guard b e ≡ ok u → b ≡ true
guard-ok true e h = refl
guard-ok false e h = cc

pub fail_if-ok : (b : Bool) (e : Error) {u : Unit {0}} → fail_if b e ≡ ok u → b ≡ false
fail_if-ok true e h = cc
fail_if-ok false e h = refl

pub or_err-ok {ℓ} : {A : Type ℓ} (o : Option A) (e : Error) {a : A} → or_err o e ≡ ok a → o ≡ some a
or_err-ok none e h = cc
or_err-ok (some x) e h = cc

-- Inversion of a last step that only wraps the value.
pub >>=-ok-eq :
    {A B : Type 0} (m : Result A) (f : A → B) {b : B}
    → (m >>= λ a. ok (f a)) ≡ ok b
    → (a : A) × (m ≡ ok a) × (f a ≡ b)
>>=-ok-eq (ok a) f h = (a, refl, cc)
>>=-ok-eq (err e) f h = cc

-- To split on a computed result and keep the equation.
pub Result-cases {ℓ} :
    {V : Type ℓ} (r : Result V) → ((v : V) × (r ≡ ok v)) ⊎ ((e : Error) × (r ≡ err e))
Result-cases (ok v) = inl (v, refl)
Result-cases (err e) = inr (e, refl)

-- The constructors are injective and differ.
pub ok_injective {ℓ} : {V : Type ℓ} {x y : V} → ok x ≡ ok y → x ≡ y
ok_injective p = cc

pub some_injective {ℓ} : {V : Type ℓ} {x y : V} → some x ≡ some y → x ≡ y
some_injective p = cc

pub no_value {ℓ} : {V : Type ℓ} {x : V} → none ≡ some x → ⊥
no_value p = cc
