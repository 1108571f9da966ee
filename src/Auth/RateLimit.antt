-- ===== src/Auth/RateLimit.antt =====
-- server/auth/rate-limit.ts. `now` is the value of `Date.now()` at the call.
pub mod Laws
use ob2_turbo_quant.Common.{
  ℕ, ◌+◌, ◌-◌, Bool, true, false, not, Option, none, some, leb, ltb, if◌then◌else◌, Text, text_key,
}
use ob2_turbo_quant.Common.JsMap
use ob2_turbo_quant.Common.JsMap.{JsMap}

pub record Bucket : Type 0 where
  pub count : ℕ
  pub reset_at : ℕ

pub record Verdict : Type 0 where
  pub allowed : Bool
  pub retry_after_ms : ℕ

abbrev pub Buckets : Type 0
Buckets = JsMap Text Bucket

abbrev pub passed : Verdict
passed = record { allowed = true; retry_after_ms = 0 }

-- What `check` does to the bucket of its key.
pub take_slot : Option Bucket → ℕ → ℕ → ℕ → Bucket × Verdict
take_slot none limit window_ms now = (record { count = 1; reset_at = now + window_ms }, passed)
take_slot (some existing) limit window_ms now =
    if leb existing.reset_at now
    then (record { count = 1; reset_at = now + window_ms }, passed)
    else if ltb existing.count limit
    then (record existing { count = existing.count + 1 }, passed)
    else (existing, record { allowed = false; retry_after_ms = existing.reset_at - now })

unfoldable pub check : Text → ℕ → ℕ → ℕ → Buckets → Buckets × Verdict
unfolding take_slot
check key limit window_ms now buckets =
    let (bucket, verdict) = take_slot (JsMap.get key buckets) limit window_ms now in
    (JsMap.set key bucket buckets, verdict)

pub reset : Text → Buckets → Buckets
reset key buckets = JsMap.delete key buckets

pub sweep : ℕ → Buckets → Buckets
sweep now buckets = JsMap.retain (λ b. not (leb b.reset_at now)) buckets
