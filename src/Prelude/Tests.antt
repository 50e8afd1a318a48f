-- ===== src/Prelude/Tests.antt =====
-- Boolean tests on numbers, the conditional, and the decision of equality that a key type has.
use Prim.Native.Nat.{ℕ, compare, Ordering}
use Prim.Native.String.{String}
use mathlib.Core.Path.{◌≡◌, refl}
use mathlib.Core.Logic.{◌⊎◌, inl, inr}
use mathlib.Core.Bool.{Bool, true, false}
use native.Mathlib.Decide.{ℕ_discrete}
use text.Mathlib.Text.{◌==◌ as str_eq}
use text.Mathlib.TextEquality.{eq_iff}

abbrev pub ltb : ℕ → ℕ → Bool
ltb a b = elim (compare a b) [ Ordering.lt ↦ true | _ ↦ false ]

abbrev pub leb : ℕ → ℕ → Bool
leb a b = elim (compare a b) [ Ordering.gt ↦ false | _ ↦ true ]

infix 50 ◌==◌
abbrev pub ◌==◌ : ℕ → ℕ → Bool
a == b = elim (compare a b) [ Ordering.eq ↦ true | _ ↦ false ]

infix 1 if◌then◌else◌
abbrev pub if◌then◌else◌ {ℓ} : {A : Type ℓ} → Bool → A → A → A
if true then x else y = x
if false then x else y = y

pub Bool-cases : (b : Bool) → (b ≡ true) ⊎ (b ≡ false)
Bool-cases true = inl refl
Bool-cases false = inr refl

-- Keys are compared by `===`, which decides the equality of numbers and of strings.
pub record Key (K : Type 0) : Type 0 where
  pub eq? : Discrete K

decide_string : (s t : String) (b : Bool) → str_eq s t ≡ b → Dec (s ≡ t)
decide_string s t true e = yes ((eq_iff s t).0 e)
decide_string s t false e = no (λ p. differ ((eq_iff s t).1 p))
  where
    differ : str_eq s t ≡ true → ⊥
    differ q = cc

unfoldable pub string_discrete : Discrete String
unfolding decide_string
string_discrete s t = decide_string s t (str_eq s t) refl

instance abbrev pub number_key : Key ℕ
number_key = record { eq? = ℕ_discrete }

instance abbrev pub string_key : Key String
string_key = record { eq? = string_discrete }
