-- ===== src/Knowledge/Run.antt =====
-- A handler that asks the sidecar: its outcome, and the requests that it made, in order. A handler
-- may answer early, and what throws is caught by the handler's own `try`.
use ob2_turbo_quant.Common.{
  ◌≡◌, refl, Bool, true, false, Option, none, some, List, [], ◌∷◌, ◌++◌, All, All-append,
  append-nil, if◌then◌else◌,
}
use ob2_turbo_quant.Knowledge.{Request, Reply}

-- `halt` is an early answer.
pub data Outcome (R A : Type 0) : Type 0 where
  halt : R → Outcome R A
  go : A → Outcome R A

abbrev pub Run : Type 0 → Type 0 → Type 0
Run R A = Outcome R A × List Request

abbrev pub also : {R A : Type 0} → List Request → Run R A → Run R A
also made (o, more) = (o, made ++ more)

infixl 5 ◌>>=◌ ◌>>◌
abbrev pub ◌>>=◌ : {R A B : Type 0} → Run R A → (A → Run R B) → Run R B
(halt answer, made) >>= f = (halt answer, made)
(go x, made) >>= f = also made (f x)

abbrev pub ◌>>◌ : {R B : Type 0} → Run R (Unit {0}) → Run R B → Run R B
first >> next = first >>= λ _. next

abbrev pub answer : {R A : Type 0} → R → Run R A
answer r = (halt r, [])

abbrev pub pass : {R A : Type 0} → A → Run R A
pass x = (go x, [])

abbrev pub require : {R : Type 0} → Bool → R → Run R (Unit {0})
require true r = pass tt
require false r = answer r

abbrev pub require_some : {R A : Type 0} → Option A → R → Run R A
require_some none r = answer r
require_some (some x) r = pass x

-- `await sidecar.call(…)`, where what throws is answered with `r`.
abbrev pub reply_or : {R : Type 0} → Option Reply → R → Outcome R Reply
reply_or none r = halt r
reply_or (some reply) r = go reply

unfoldable pub ask : {R : Type 0} → (Request → Option Reply) → Request → R → Run R Reply
ask sidecar request r = (reply_or (sidecar request) r, request ∷ [])

-- `P` holds of every request that was made.
abbrev pub KeepsTo : {R A : Type 0} → (Request → Type 0) → Run R A → Type 0
KeepsTo P run = All P run.1

-- What a run goes on with has `Q`.
abbrev pub Ends : {R A : Type 0} → (A → Type 0) → Run R A → Type 0
Ends Q (halt r, made) = Unit
Ends Q (go x, made) = Q x

module _ (P : Request → Type 0) where
  pub >>=-Ends-KeepsTo :
      {R A B : Type 0} (Q : A → Type 0) (run : Run R A) (f : A → Run R B)
      → KeepsTo P run
      → Ends Q run
      → ((x : A) → Q x → KeepsTo P (f x))
      → KeepsTo P (run >>= f)
  >>=-Ends-KeepsTo Q (halt r, made) f h q k = h
  >>=-Ends-KeepsTo Q (go x, made) f h q k = All-append P made (f x).1 h (k x q)

  pub ask-KeepsTo :
      {R : Type 0} (sidecar : Request → Option Reply) (request : Request) (r : R)
      → P request
      → KeepsTo P (ask sidecar request r)
  unfolding ask
  ask-KeepsTo sidecar request r h = (h, tt)

  pub >>=-KeepsTo :
      {R A B : Type 0} (run : Run R A) (f : A → Run R B)
      → KeepsTo P run
      → ((x : A) → KeepsTo P (f x))
      → KeepsTo P (run >>= f)
  >>=-KeepsTo (halt r, made) f h k = h
  >>=-KeepsTo (go x, made) f h k = All-append P made (f x).1 h (k x)

  -- A request and what follows from its reply.
  pub ask->>=-KeepsTo :
      {R B : Type 0} (sidecar : Request → Option Reply) (request : Request) (r : R)
      (f : Reply → Run R B)
      → P request
      → ((reply : Reply) → KeepsTo P (f reply))
      → KeepsTo P (ask sidecar request r >>= f)
  ask->>=-KeepsTo sidecar request r f h =
      >>=-KeepsTo (ask sidecar request r) f (ask-KeepsTo sidecar request r h)

  -- After a requirement, what follows may rely on it.
  pub require-KeepsTo :
      {R B : Type 0} (b : Bool) (r : R) (next : Run R B)
      → (b ≡ true → KeepsTo P next)
      → KeepsTo P (require b r >> next)
  require-KeepsTo true r next k = k refl
  require-KeepsTo false r next k = tt

  pub require_some-KeepsTo :
      {R A B : Type 0} (o : Option A) (r : R) (next : A → Run R B)
      → ((x : A) → o ≡ some x → KeepsTo P (next x))
      → KeepsTo P (require_some o r >>= next)
  require_some-KeepsTo none r next k = tt
  require_some-KeepsTo (some x) r next k = k x refl

  pub if-KeepsTo :
      {R A : Type 0} (b : Bool) (x y : Run R A)
      → KeepsTo P x
      → KeepsTo P y
      → KeepsTo P (if b then x else y)
  if-KeepsTo true x y h k = h
  if-KeepsTo false x y h k = k

-- A last step that asks nothing.
pub made-pass : {R A B : Type 0} (run : Run R A) (f : A → B) → (run >>= λ x. pass (f x)).1 ≡ run.1
made-pass (halt r, made) f = refl
made-pass (go x, made) f = append-nil made

pub >>=_outcome :
    {R A B : Type 0} (run : Run R A) (f : A → Run R B) (x : A)
    → run.0 ≡ go x
    → (run >>= f).0 ≡ (f x).0
>>=_outcome (halt r, made) f x h = cc
>>=_outcome (go y, made) f x h = cc
