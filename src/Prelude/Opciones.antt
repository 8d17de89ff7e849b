-- ===== src/Prelude/Opciones.antt =====
-- Chains of answers, for do blocks, and what holds of an answer, if there is one, through the code
-- that goes on from it.
use mathlib.Core.Path.{◌≡◌, subst}
use mathlib.Core.Option.{Option, none, some}

infixl 5 ◌>>=◌
unfoldable pub ◌>>=◌ {ℓ κ} : {A : Type ℓ} {B : Type κ} → Option A → (A → Option B) → Option B
none >>= f = none
some a >>= f = f a

abbrev pub DeSome {ℓ κ} : {A : Type ℓ} → (A → Type κ) → Option A → Type κ
DeSome P none = Unit
DeSome P (some a) = P a

-- Of no answer everything holds.
pub record Si {ℓ κ} {A : Type ℓ} (P : A → Type κ) (o : Option A) : Type κ where
  pub dentro : DeSome P o

module _ {ℓ κ} {A : Type ℓ} {P : A → Type κ} where
  pub Si-none : Si P none
  Si-none = record { dentro = tt }

  pub Si-some : {a : A} → P a → Si P (some a)
  Si-some h = record { dentro = h }

  pub de_si : {o : Option A} {a : A} → Si P o → o ≡ some a → P a
  de_si h e = subst (DeSome P) e h.dentro

  pub Si-seguir {ℓ' κ'} :
      {B : Type ℓ'} {Q : B → Type κ'} (o : Option A) {f : A → Option B}
      → Si P o
      → ((a : A) → P a → Si Q (f a))
      → Si Q (o >>= f)
  unfolding ◌>>=◌
  Si-seguir none h k = record { dentro = tt }
  Si-seguir (some a) h k = k a h.dentro

  pub Si-mono {κ'} : {Q : A → Type κ'} {o : Option A} → Si P o → ((a : A) → P a → Q a) → Si Q o
  Si-mono {o = none} h k = record { dentro = tt }
  Si-mono {o = some a} h k = record { dentro = k a h.dentro }

pub Si-y {ℓ κ κ'} :
    {A : Type ℓ} {P : A → Type κ} {Q : A → Type κ'} {o : Option A}
    → Si P o
    → Si Q o
    → Si (λ a. P a × Q a) o
Si-y {o = none} h k = Si-none
Si-y {o = some a} h k = Si-some (h.dentro, k.dentro)

pub Si-siempre {ℓ κ} : {A : Type ℓ} {P : A → Type κ} (o : Option A) → ((a : A) → P a) → Si P o
Si-siempre none h = Si-none
Si-siempre (some a) h = Si-some (h a)

-- Where nothing need be known of the first answer.
pub Si-luego {ℓ ℓ' κ} :
    {A : Type ℓ} {B : Type ℓ'} {Q : B → Type κ} (o : Option A) {f : A → Option B}
    → ((a : A) → Si Q (f a))
    → Si Q (o >>= f)
unfolding ◌>>=◌
Si-luego none k = Si-none
Si-luego (some a) k = k a
