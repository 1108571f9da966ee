-- ===== src/Auth/RateLimit/Laws.antt =====
-- The limiter admits no more than its quota, key by key.
use ob2_turbo_quant.Common.{
  ℕ, ◌+◌, ◌-◌, ◌≤◌, ◌<◌, max, ◌≡◌, refl, ◌↔◌, inl, inr, Bool, true, false, Option, none, some, List,
  [], ◌∷◌, arith, Text, text_eq, text_eq_iff, text_key, leb, not, sym, ap, ◌∙◌, if◌then◌else◌, All,
  Bool-cases,
}
use ob2_turbo_quant.Common.JsMap
use ob2_turbo_quant.Common.JsMap.{IsDistinct, get-set, get-retain, set-IsDistinct, get-set_self}
use ob2_turbo_quant.Auth.RateLimit.{Bucket, Buckets, take_slot, check, sweep}

pub record Call : Type 0 where
  pub key : Text
  pub limit : ℕ
  pub window_ms : ℕ
  pub now : ℕ

abbrev one_if : Bool → ℕ
one_if true = 1
one_if false = 0

-- How many of the calls are admitted under the key `k`, calls under other keys in between.
pub admitted : Text → List Call → Buckets → ℕ
admitted k [] b = 0
admitted k (c ∷ cs) b =
    let (b', verdict) = check c.key c.limit c.window_ms c.now b in
    let rest = admitted k cs b' in if text_eq c.key k then one_if verdict.allowed + rest else rest

check-get_ne :
    (key k : Text) (limit window_ms now : ℕ) (b : Buckets)
    → text_eq key k ≡ false
    → JsMap.get k (check key limit window_ms now b).0 ≡ JsMap.get k b
unfolding check
check-get_ne key k limit window_ms now b h =
    rw (get-set key k (take_slot (JsMap.get key b) limit window_ms now).0 b, h)

check-get_self :
    (key : Text) (limit window_ms now : ℕ) (b : Buckets)
    → JsMap.get key (check key limit window_ms now b).0
      ≡ some (take_slot (JsMap.get key b) limit window_ms now).0
unfolding check
check-get_self key limit window_ms now b =
    get-set_self key (take_slot (JsMap.get key b) limit window_ms now).0 b

check-verdict :
    (key : Text) (limit window_ms now : ℕ) (b : Buckets)
    → (check key limit window_ms now b).1 ≡ (take_slot (JsMap.get key b) limit window_ms now).1
unfolding check
check-verdict key limit window_ms now b = refl

-- The calls under `k` ask for at most `limit` and fall before `deadline`.
abbrev pub IsWithin : Text → ℕ → ℕ → Call → Type 0
IsWithin k limit deadline c = c.key ≡ k → (c.limit ≤ limit) × (c.now < deadline)

-- A live bucket keeps its deadline, and each admission uses up one of the slots left.
take_slot_live :
    (limit c_limit window_ms now : ℕ) (bucket : Bucket)
    → c_limit ≤ limit
    → now < bucket.reset_at
    → let (after, verdict) = take_slot (some bucket) c_limit window_ms now in
      (after.reset_at ≡ bucket.reset_at)
      × (one_if verdict.allowed + (limit - after.count) ≤ limit - bucket.count)
unfolding take_slot
take_slot_live limit c_limit window_ms now bucket h k = ground arith

quota_open :
    (k : Text) (limit : ℕ) (cs : List Call) (b : Buckets) (bucket : Bucket)
    → JsMap.get k b ≡ some bucket
    → All (IsWithin k limit bucket.reset_at) cs
    → admitted k cs b ≤ limit - bucket.count
unfolding admitted
quota_open k limit [] b bucket at within = omega arith
quota_open k limit (c ∷ cs) b bucket at (here, later) = elim (Bool-cases (text_eq c.key k)) [
  | inl same ↦
      let e : c.key ≡ k = (text_eq_iff c.key k).0 same in
      let at' : JsMap.get c.key b ≡ some bucket = rw e at in
      let live = take_slot_live limit c.limit c.window_ms c.now bucket (here e).0 (here e).1 in
      let after : Bucket = (take_slot (some bucket) c.limit c.window_ms c.now).0 in
      let stored : JsMap.get k (check c.key c.limit c.window_ms c.now b).0 ≡ some after =
        rw (← e) (rw at' at (check-get_self c.key c.limit c.window_ms c.now b)) in
      let verdict = rw at' at (check-verdict c.key c.limit c.window_ms c.now b) in
      let rest =
        quota_open k limit cs (check c.key c.limit c.window_ms c.now b).0 after stored
          (rw live.0 later) in
      rw (same, verdict) (omega (arith, rest, live.1))
  | inr other ↦ rw other (
      quota_open k limit cs (check c.key c.limit c.window_ms c.now b).0 bucket
        (rw (check-get_ne c.key k c.limit c.window_ms c.now b other) at) later)
]

-- No window is running.
abbrev pub IsClosed : ℕ → Option Bucket → Type 0
IsClosed now none = Unit
IsClosed now (some bucket) = bucket.reset_at ≤ now

take_slot_closed :
    (o : Option Bucket) (limit window_ms now : ℕ)
    → IsClosed now o
    → take_slot o limit window_ms now ≡ (
      record { count = 1; reset_at = now + window_ms },
      record { allowed = true; retry_after_ms = 0 },
    )
unfolding take_slot
take_slot_closed none limit window_ms now h = refl
take_slot_closed (some bucket) limit window_ms now h = ground arith

-- A call that opens a window, and the calls that follow under its key inside the window and with
-- no higher limit, are admitted at most `limit` times together (once, if the limit is 0), whatever
-- calls under other keys come in between.
pub quota :
    (c : Call) (cs : List Call) (b : Buckets)
    → IsClosed c.now (JsMap.get c.key b)
    → All (IsWithin c.key c.limit (c.now + c.window_ms)) cs
    → admitted c.key (c ∷ cs) b ≤ max 1 c.limit
unfolding admitted
quota c cs b closed within =
    let opened = take_slot_closed (JsMap.get c.key b) c.limit c.window_ms c.now closed in
    let bucket : Bucket = record { count = 1; reset_at = c.now + c.window_ms } in
    let stored : JsMap.get c.key (check c.key c.limit c.window_ms c.now b).0 ≡ some bucket =
      rw opened at (check-get_self c.key c.limit c.window_ms c.now b) in
    let verdict = rw opened at (check-verdict c.key c.limit c.window_ms c.now b) in
    let rest =
      quota_open c.key c.limit cs (check c.key c.limit c.window_ms c.now b).0 bucket stored
        within in
    rw ((text_eq_iff c.key c.key).1 refl, verdict) (omega (arith, rest))

take_slot_refused_iff :
    (o : Option Bucket) (limit window_ms now : ℕ)
    → ((take_slot o limit window_ms now).1.allowed ≡ false)
      ↔ ((bucket : Bucket) × (o ≡ some bucket) × (now < bucket.reset_at) × (limit ≤ bucket.count))
unfolding take_slot
take_slot_refused_iff none limit window_ms now = ground arith
take_slot_refused_iff (some bucket) limit window_ms now =
    (λ h. (bucket, refl, ground arith, ground arith), λ (bucket', e, k, l). ground arith)

-- A call is refused exactly when its key's window is running and the limit is used up.
pub check-refused_iff :
    (key : Text) (limit window_ms now : ℕ) (b : Buckets)
    → ((check key limit window_ms now b).1.allowed ≡ false) ↔ (
        (bucket : Bucket) × (JsMap.get key b ≡ some bucket)
        × (now < bucket.reset_at)
        × (limit ≤ bucket.count))
unfolding check
check-refused_iff key limit window_ms now b =
    take_slot_refused_iff (JsMap.get key b) limit window_ms now

take_slot-kept :
    (o : Option Bucket) (limit window_ms now t : ℕ)
    → t ≤ now
    → take_slot (JsMap.kept (λ x. not (leb x.reset_at t)) o) limit window_ms now
      ≡ take_slot o limit window_ms now
unfolding take_slot
take_slot-kept none limit window_ms now t h = refl
take_slot-kept (some bucket) limit window_ms now t h = ground arith

-- Where no key stands twice, a sweep changes neither the verdict of a call at the same time or
-- later nor the bucket that the call leaves.
pub check-sweep :
    (key : Text) (limit window_ms now t : ℕ) (b : Buckets)
    → IsDistinct b
    → t ≤ now
    → ((check key limit window_ms now (sweep t b)).1 ≡ (check key limit window_ms now b).1)
      × (JsMap.get key (check key limit window_ms now (sweep t b)).0
          ≡ JsMap.get key (check key limit window_ms now b).0)
unfolding sweep
check-sweep key limit window_ms now t b d h =
    let swept = JsMap.retain (λ x. not (leb x.reset_at t)) b in
    let same : take_slot (JsMap.get key swept) limit window_ms now
        ≡ take_slot (JsMap.get key b) limit window_ms now =
      rw (get-retain (λ x. not (leb x.reset_at t)) key b d)
        (take_slot-kept (JsMap.get key b) limit window_ms now t h) in
    (
      check-verdict key limit window_ms now swept
          ∙ ap (λ r. r.1) same
          ∙ sym (check-verdict key limit window_ms now b),
      check-get_self key limit window_ms now swept
          ∙ ap (λ r. some r.0) same
          ∙ sym (check-get_self key limit window_ms now b),
    )

pub check-IsDistinct :
    (key : Text) (limit window_ms now : ℕ) (b : Buckets)
    → IsDistinct b
    → IsDistinct (check key limit window_ms now b).0
unfolding check
check-IsDistinct key limit window_ms now b d =
    set-IsDistinct key (take_slot (JsMap.get key b) limit window_ms now).0 b d
