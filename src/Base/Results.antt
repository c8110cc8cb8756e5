-- ===== src/Base/Results.antt =====
-- What a call of the program's code comes to: a value, or one of the faults that end the handler.
use mathlib.Core.Path.{◌≡◌, refl, subst}

-- `out_of_range`: an index past the end of a vector. `bad_variant_access`: `std::get` of another
-- alternative. `null_mailbox`: a call through the empty `mailbox_ptr`. `file_missing`:
-- `std::filesystem::filesystem_error` thrown by `file_size`. `end_erased`: `erase(end())` of a list.
-- `name_too_long`: `std::out_of_range` thrown by the constructor of a compact string.
-- `address_refused`: `boost::system::system_error` thrown by `make_address`. `null_text`: a path
-- made of a null pointer. `folder_missing`: `std::filesystem::filesystem_error` thrown by
-- `create_directory` or by a `directory_iterator`. `iterator_erased`: a list's iterator read after
-- its element was erased. `end_dereferenced`: the end of a list read as an element.
-- `removal_failed`: `std::filesystem::filesystem_error` thrown by `remove` in a destructor, which ends
-- the program by `std::terminate`.
pub data Fault : Type 0 where
  out_of_range bad_variant_access null_mailbox file_missing end_erased name_too_long address_refused
        null_text folder_missing iterator_erased end_dereferenced removal_failed :
      Fault

pub data Outcome {ℓ} (A : Type ℓ) : Type ℓ where
  ok : A → Outcome A
  fault : Fault → Outcome A

infixl 5 ◌>>=◌
abbrev pub ◌>>=◌ {ℓ κ} : {A : Type ℓ} {B : Type κ} → Outcome A → (A → Outcome B) → Outcome B
ok a >>= f = f a
fault e >>= f = fault e

module _ {ℓ} {A : Type ℓ} where
  pub ok-injective : {a b : A} → ok a ≡ ok b → a ≡ b
  ok-injective e = cc

-- If the call returns, its value satisfies `P`.
abbrev pub Ensures {ℓ} : {A : Type ℓ} → (A → Type 0) → Outcome A → Type 0
Ensures P (ok a) = P a
Ensures P (fault e) = Unit

pub Ensures-ok {ℓ} :
    {A : Type ℓ} (P : A → Type 0) (m : Outcome A) (a : A) → Ensures P m → m ≡ ok a → P a
Ensures-ok P (ok b) a h e = subst P (ok-injective e) h
Ensures-ok P (fault b) a h e = cc

pub Ensures-bind {ℓ κ} :
    {A : Type ℓ} {B : Type κ} (P : B → Type 0) (m : Outcome A) (f : A → Outcome B)
    → ((a : A) → m ≡ ok a → Ensures P (f a))
    → Ensures P (m >>= f)
Ensures-bind P (ok a) f h = h a refl
Ensures-bind P (fault e) f h = tt

pub Ensures-mono {ℓ} :
    {A : Type ℓ} (P Q : A → Type 0) (m : Outcome A)
    → ((a : A) → P a → Q a)
    → Ensures P m
    → Ensures Q m
Ensures-mono P Q (ok a) f h = f a h
Ensures-mono P Q (fault e) f h = tt

-- A chain that returns comes from a first call that returned.
pub bind-ok {ℓ κ} :
    {A : Type ℓ} {B : Type κ} (first : Outcome A) (rest : A → Outcome B) {r : B}
    → (first >>= rest) ≡ ok r
    → (x : A) × (first ≡ ok x) × (rest x ≡ ok r)
bind-ok (fault why) rest e = cc
bind-ok (ok x) rest e = (x, refl, e)

-- A `std::variant` of a value and an error code.
pub data Variant {ℓ} (A : Type ℓ) (E : Type ℓ) : Type ℓ where
  value : A → Variant A E
  error : E → Variant A E
