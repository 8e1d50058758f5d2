-- ===== src/Prelude/Maps.antt =====
-- Hash maps, as the function from a key to what is stored under it. A type of keys has a `Key` instance.
use Prim.Native.Nat.{ℕ}
use Prim.Native.String.{String}
use mathlib.Core.Path.{◌≡◌}
use mathlib.Core.Logic.{◌↔◌}
use mathlib.Core.Bool.{Bool, true}
use mathlib.Core.Option.{Option, none, some}
use text.Mathlib.Text.{◌==◌ as str_eq}
use text.Mathlib.TextEquality.{eq_iff}
use oxde.Prelude.Tests.{◌==◌, ==_iff, if◌then◌else◌}

pub record Key {ℓ} (A : Type ℓ) : Type ℓ where
  pub same_key : A → A → Bool
  pub same_iff : (a b : A) → (same_key a b ≡ true) ↔ (a ≡ b)

instance abbrev pub nat_key : Key ℕ
nat_key = record { same_key = ◌==◌; same_iff = ==_iff }

instance abbrev pub string_key : Key String
string_key = record { same_key = str_eq; same_iff = eq_iff }

abbrev pub Map : Type 0 → Type 0 → Type 0
Map K V = K → Option V

abbrev pub keep_if {ℓ} : {V : Type ℓ} → (V → Bool) → Option V → Option V
keep_if p none = none
keep_if p (some v) = if p v then some v else none

module _ {K V : Type 0} where
  abbrev pub empty_map : Map K V
  empty_map k = none

  abbrev pub retain : (K → V → Bool) → Map K V → Map K V
  retain p m j = keep_if (p j) (m j)

module _ {K V : Type 0} ⦃e : Key K⦄ where
  abbrev pub insert : Map K V → K → V → Map K V
  insert m k v j = if e.same_key k j then some v else m j

  abbrev pub remove : Map K V → K → Map K V
  remove m k j = if e.same_key k j then none else m j
