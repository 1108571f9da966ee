-- ===== src/Common/JsMap.antt =====
-- A JavaScript `Map`: its entries in the order of insertion, one for each key.
use Prim.Native.Nat.{◌≤◌}
use mathlib.Core.Path.{◌≡◌, refl}
use mathlib.Core.Logic.{inl, inr}
use mathlib.Core.Bool.{Bool}
use mathlib.Core.Option.{Option, none, some}
use mathlib.Core.List.{List, [], ◌∷◌}
use native.Mathlib.Omega.{arith}
use ob2_turbo_quant.Common.Tests.{if◌then◌else◌, Bool-cases}
use ob2_turbo_quant.Common.Lists.{length}
use ob2_turbo_quant.Common.Equality.{Eq}

abbrev pub JsMap {ℓ κ} : Type ℓ → Type κ → Type (ℓ ⊔ κ)
JsMap K V = List (K × V)

-- The entry of a key after a sweep.
abbrev pub kept {κ} : {V : Type κ} → (V → Bool) → Option V → Option V
kept p none = none
kept p (some v) = if p v then some v else none

module _ {ℓ κ} {K : Type ℓ} {V : Type κ} where
  abbrev pub values : JsMap K V → List V
  values [] = []
  values ((k, v) ∷ m) = v ∷ values m

  -- `for (const [k, v] of m) if (!p(v)) m.delete(k)`
  unfoldable pub retain : (V → Bool) → JsMap K V → JsMap K V
  retain p [] = []
  retain p ((k, v) ∷ m) = if p v then (k, v) ∷ retain p m else retain p m

  -- What holds of every value.
  abbrev pub AllValues {μ} : (V → Type μ) → JsMap K V → Type μ
  AllValues P [] = Unit
  AllValues P ((k, v) ∷ m) = P v × AllValues P m

  pub length-retain : (p : V → Bool) (m : JsMap K V) → length (retain p m) ≤ length m
  unfolding retain
  length-retain p [] = omega arith
  length-retain p ((k, v) ∷ m) = ground (arith, length-retain p m)

module _ {ℓ κ} {K : Type ℓ} {V : Type κ} ⦃e : Eq K⦄ where
  unfoldable pub get : K → JsMap K V → Option V
  get k [] = none
  get k ((j, v) ∷ m) = if e.beq j k then some v else get k m

  -- A key that is there keeps its place.
  unfoldable pub set : K → V → JsMap K V → JsMap K V
  set k v [] = (k, v) ∷ []
  set k v ((j, w) ∷ m) = if e.beq j k then (k, v) ∷ m else (j, w) ∷ set k v m

  unfoldable pub delete : K → JsMap K V → JsMap K V
  delete k [] = []
  delete k ((j, v) ∷ m) = if e.beq j k then delete k m else (j, v) ∷ delete k m

  -- Each key once.
  abbrev pub IsDistinct : JsMap K V → Type κ
  IsDistinct [] = Unit
  IsDistinct ((k, v) ∷ m) = (get k m ≡ none) × IsDistinct m

  pub get-set :
      (k j : K) (v : V) (m : JsMap K V)
      → get j (set k v m) ≡ (if e.beq k j then some v else get j m)
  unfolding get set
  get-set k j v [] = refl
  get-set k j v ((i, w) ∷ m) =
      ground (arith, e.beq_iff k j, e.beq_iff i k, e.beq_iff i j, get-set k j v m)

  pub get-set_self : (k : K) (v : V) (m : JsMap K V) → get k (set k v m) ≡ some v
  get-set_self k v m = rw (get-set k k v m, (e.beq_iff k k).1 refl)

  pub get-delete :
      (k j : K) (m : JsMap K V) → get j (delete k m) ≡ (if e.beq k j then none else get j m)
  unfolding get delete
  get-delete k j [] = ground arith
  get-delete k j ((i, w) ∷ m) =
      ground (arith, e.beq_iff k j, e.beq_iff i k, e.beq_iff i j, get-delete k j m)

  pub get-delete_self : (k : K) (m : JsMap K V) → get k (delete k m) ≡ none
  get-delete_self k m = rw (get-delete k k m, (e.beq_iff k k).1 refl)

  pub get-retain :
      (p : V → Bool) (j : K) (m : JsMap K V) → IsDistinct m → get j (retain p m) ≡ kept p (get j m)
  unfolding get retain
  get-retain p j [] d = refl
  get-retain p j ((i, w) ∷ m) (fresh, d) = elim (Bool-cases (e.beq i j)) [
    | inl same ↦
        let at : get j m ≡ none = rw ((e.beq_iff i j).0 same) at fresh in
        ground (arith, get-retain p j m d)
    | inr other ↦ ground (arith, get-retain p j m d)
  ]

  pub set-IsDistinct : (k : K) (v : V) (m : JsMap K V) → IsDistinct m → IsDistinct (set k v m)
  unfolding set get
  set-IsDistinct k v [] d = (refl, tt)
  set-IsDistinct k v ((i, w) ∷ m) (fresh, d) = elim (Bool-cases (e.beq i k)) [
    | inl same ↦ rw same (rw ((e.beq_iff i k).0 same) at fresh, d)
    | inr other ↦
        ground (arith, set-IsDistinct k v m d, get-set k i v m, e.beq_iff k i, e.beq_iff i k)
  ]

  pub delete-IsDistinct : (k : K) (m : JsMap K V) → IsDistinct m → IsDistinct (delete k m)
  unfolding delete
  delete-IsDistinct k [] d = tt
  delete-IsDistinct k ((i, w) ∷ m) (fresh, d) =
      ground (arith, delete-IsDistinct k m d, get-delete k i m)

  pub retain-IsDistinct : (p : V → Bool) (m : JsMap K V) → IsDistinct m → IsDistinct (retain p m)
  unfolding retain
  retain-IsDistinct p [] d = tt
  retain-IsDistinct p ((i, w) ∷ m) (fresh, d) =
      ground (arith, retain-IsDistinct p m d, get-retain p i m d)
