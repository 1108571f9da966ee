-- ===== src/Common/Lists.antt =====
-- Lists over the native numbers: lengths, slices, and the array methods that the source calls.
use Prim.Native.Nat.{ℕ, zero, suc, ◌+◌, ◌-◌, ◌≤◌, ◌<◌, min}
use mathlib.Core.Path.{◌≡◌, refl, ap, subst}
use mathlib.Core.Logic.{◌⊎◌, inl, inr}
use mathlib.Core.Bool.{Bool, true, false, ◌||◌}
use mathlib.Core.List.{List, [], ◌∷◌, ◌++◌}
use mathlib.Core.Option.{Option, none, some}
use native.Mathlib.Omega.{arith}
use ob2_turbo_quant.Common.Tests.{if◌then◌else◌, Bool-cases, Option-cases, ◌==◌}
use mathlib.Core.Option

module _ {ℓ} {A : Type ℓ} where
  abbrev pub length : List A → ℕ
  length [] = 0
  length (x ∷ xs) = suc (length xs)

  abbrev pub take : ℕ → List A → List A
  take zero xs = []
  take (suc n) [] = []
  take (suc n) (x ∷ xs) = x ∷ take n xs

  abbrev pub drop : ℕ → List A → List A
  drop zero xs = xs
  drop (suc n) [] = []
  drop (suc n) (x ∷ xs) = drop n xs

  pub length-append : (xs ys : List A) → length (xs ++ ys) ≡ length xs + length ys
  length-append [] ys = omega arith
  length-append (x ∷ xs) ys = omega (arith, length-append xs ys)

  pub length-take : (n : ℕ) (xs : List A) → length (take n xs) ≡ min n (length xs)
  length-take zero xs = omega arith
  length-take (suc n) [] = omega arith
  length-take (suc n) (x ∷ xs) = omega (arith, length-take n xs)

  pub length-drop : (n : ℕ) (xs : List A) → length (drop n xs) ≡ length xs - n
  length-drop zero xs = omega arith
  length-drop (suc n) [] = omega arith
  length-drop (suc n) (x ∷ xs) = omega (arith, length-drop n xs)

  pub take-append-drop : (n : ℕ) (xs : List A) → take n xs ++ drop n xs ≡ xs
  take-append-drop zero xs = refl
  take-append-drop (suc n) [] = refl
  take-append-drop (suc n) (x ∷ xs) = ap (◌∷◌ x) (take-append-drop n xs)

  pub take_all : (n : ℕ) (xs : List A) → length xs ≤ n → take n xs ≡ xs
  take_all zero [] h = refl
  take_all zero (x ∷ xs) h = absurd (omega arith)
  take_all (suc n) [] h = refl
  take_all (suc n) (x ∷ xs) h = ap (◌∷◌ x) (take_all n xs (omega arith))

  -- `xs.slice(i, j)` for `0 <= i <= j`.
  abbrev pub slice : ℕ → ℕ → List A → List A
  slice i j xs = take (j - i) (drop i xs)

  -- `xs.filter(p)`
  unfoldable pub keep : (A → Bool) → List A → List A
  keep p [] = []
  keep p (x ∷ xs) = if p x then x ∷ keep p xs else keep p xs

  -- `xs.find(p)`
  unfoldable pub find : (A → Bool) → List A → Option A
  find p [] = none
  find p (x ∷ xs) = if p x then some x else find p xs

  -- `xs.some(p)`
  unfoldable pub any : (A → Bool) → List A → Bool
  any p [] = false
  any p (x ∷ xs) = p x || any p xs

  -- `xs.splice(xs.findIndex(p), 1)`, and `xs` itself where no element passes.
  unfoldable pub remove_first : (A → Bool) → List A → List A
  remove_first p [] = []
  remove_first p (x ∷ xs) = if p x then xs else x ∷ remove_first p xs

  -- A write to `xs[xs.findIndex(p)]`, and `xs` itself where no element passes.
  unfoldable pub update_first : (A → Bool) → (A → A) → List A → List A
  update_first p f [] = []
  update_first p f (x ∷ xs) = if p x then f x ∷ xs else x ∷ update_first p f xs

  pub length-keep : (p : A → Bool) (xs : List A) → length (keep p xs) ≤ length xs
  unfolding keep
  length-keep p [] = omega arith
  length-keep p (x ∷ xs) = ground (arith, length-keep p xs)

  -- A filter that removes nothing leaves the list as it is.
  pub keep_whole : (p : A → Bool) (xs : List A) → length xs ≤ length (keep p xs) → keep p xs ≡ xs
  unfolding keep
  keep_whole p [] h = refl
  keep_whole p (x ∷ xs) h = elim (Bool-cases (p x)) [
    | inl passes ↦ rw passes (ap (◌∷◌ x) (keep_whole p xs (unfold keep in ground (arith, passes))))
    | inr fails ↦ absurd (ground (arith, length-keep p xs))
  ]

  pub find_sound : (p : A → Bool) (xs : List A) (a : A) → find p xs ≡ some a → p a ≡ true
  unfolding find
  find_sound p [] a h = cc
  find_sound p (x ∷ xs) a h = ground (arith, find_sound p xs a)

  pub find-keep :
      (p q : A → Bool) (xs : List A)
      → ((a : A) → p a ≡ true → q a ≡ true)
      → find p (keep q xs) ≡ find p xs
  unfolding find keep
  find-keep p q [] h = refl
  find-keep p q (x ∷ xs) h = ground (arith, find-keep p q xs h, h x)

  pub find-keep-none :
      (p q : A → Bool) (xs : List A)
      → ((a : A) → p a ≡ true → q a ≡ false)
      → find p (keep q xs) ≡ none
  unfolding find keep
  find-keep-none p q [] h = refl
  find-keep-none p q (x ∷ xs) h = ground (arith, find-keep-none p q xs h, h x)

  -- What a search in a filtered list finds has passed the filter.
  pub find-keep_passes :
      (p q : A → Bool) (xs : List A) (a : A) → find p (keep q xs) ≡ some a → q a ≡ true
  unfolding find keep
  find-keep_passes p q [] a h = cc
  find-keep_passes p q (x ∷ xs) a h = ground (arith, find-keep_passes p q xs a)

  -- A new last element is found where no other fits.
  pub find-keep_last :
      (p q : A → Bool) (xs : List A) (x : A)
      → find p xs ≡ none
      → p x ≡ true
      → q x ≡ true
      → find p (keep q (xs ++ (x ∷ []))) ≡ some x
  unfolding find keep
  find-keep_last p q [] x h k l = ground arith
  find-keep_last p q (y ∷ xs) x h k l = ground (arith, find-keep_last p q xs x)

  pub find-append :
      (p : A → Bool) (xs ys : List A) → find p xs ≡ none → find p (xs ++ ys) ≡ find p ys
  unfolding find
  find-append p [] ys h = refl
  find-append p (x ∷ xs) ys h = ground (arith, find-append p xs ys)

module _ {ℓ κ} {A : Type ℓ} (P : A → Type κ) where
  abbrev pub All : List A → Type κ
  All [] = Unit
  All (x ∷ xs) = P x × All xs

  pub All-append : (xs ys : List A) → All xs → All ys → All (xs ++ ys)
  All-append [] ys h k = k
  All-append (x ∷ xs) ys (p, h) k = (p, All-append xs ys h k)

pub All-imp {ℓ κ μ} :
    {A : Type ℓ} {P : A → Type κ} {Q : A → Type μ} (f : (x : A) → P x → Q x) (xs : List A)
    → All P xs
    → All Q xs
All-imp f [] h = tt
All-imp f (x ∷ xs) (p, h) = (f x p, All-imp f xs h)

-- Where the first `c` stands, by its position: `s.indexOf(c)`, with `none` for -1.
unfoldable pub index_of : ℕ → List ℕ → Option ℕ
index_of c [] = none
index_of c (x ∷ xs) = if x == c then some 0 else Option.map suc (index_of c xs)

-- No element of the list is `c`.
abbrev pub Lacks : ℕ → List ℕ → Type 0
Lacks c [] = Unit
Lacks c (x ∷ xs) = ((x == c) ≡ false) × Lacks c xs

pub index_of-append :
    (c : ℕ) (xs ys : List ℕ) → Lacks c xs → index_of c (xs ++ (c ∷ ys)) ≡ some (length xs)
unfolding index_of
index_of-append c [] ys h = ground arith
index_of-append c (x ∷ xs) ys (h, hs) = rw (h, index_of-append c xs ys hs)

index_of-suc :
    (c x : ℕ) (xs : List ℕ) (i : ℕ) → index_of c (x ∷ xs) ≡ some (suc i) → index_of c xs ≡ some i
unfolding index_of
index_of-suc c x xs i h = ground (arith, Option-cases (index_of c xs))

-- What stands before and after the first `c` makes up the list.
pub index_of-split :
    (c : ℕ) (xs : List ℕ) (i : ℕ)
    → index_of c xs ≡ some i
    → (xs ≡ take i xs ++ (c ∷ drop (suc i) xs)) × (i < length xs)
index_of-split c [] i h = unfold index_of in cc
index_of-split c (x ∷ xs) zero h = (unfold index_of in ground arith, omega arith)
index_of-split c (x ∷ xs) (suc i) h =
    let (parts, bound) = index_of-split c xs i (index_of-suc c x xs i h) in
    (ap (◌∷◌ x) parts, omega arith)

pub take_of_append {ℓ} : {A : Type ℓ} (xs ys : List A) → take (length xs) (xs ++ ys) ≡ xs
take_of_append [] ys = refl
take_of_append (x ∷ xs) ys = ap (◌∷◌ x) (take_of_append xs ys)

pub drop_of_append {ℓ} : {A : Type ℓ} (xs ys : List A) → drop (length xs) (xs ++ ys) ≡ ys
drop_of_append [] ys = refl
drop_of_append (x ∷ xs) ys = drop_of_append xs ys

-- What holds of every element holds of the one found.
pub find-All {ℓ κ} :
    {A : Type ℓ} (P : A → Type κ) (p : A → Bool) (xs : List A) (a : A)
    → All P xs
    → find p xs ≡ some a
    → P a
unfolding find
find-All P p [] a all h = cc
find-All P p (x ∷ xs) a (here, later) h = elim (Bool-cases (p x)) [
  | inl passes ↦ subst P (ground arith) here
  | inr fails ↦ find-All P p xs a later (ground arith)
]

-- The element is one of the list's.
abbrev pub IsIn : {A : Type 0} → A → List A → Type 0
IsIn x [] = ⊥
IsIn x (y ∷ ys) = (x ≡ y) ⊎ IsIn x ys

pub find-IsIn : {A : Type 0} (p : A → Bool) (xs : List A) (a : A) → find p xs ≡ some a → IsIn a xs
unfolding find
find-IsIn p [] a h = cc
find-IsIn p (x ∷ xs) a h = elim (Bool-cases (p x)) [
  | inl passes ↦ inl (ground arith)
  | inr fails ↦ inr (find-IsIn p xs a (ground arith))
]
