-- ===== src/Ledger/Price.antt =====
-- The upload price of internal/web/handlers_jobs.go.
use satfarm.Prelude.{ℕ, ◌+◌, ◌*◌, ◌/◌, ◌^◌, ◌≤◌, ◌<◌, ◌≡◌, arith}
use satfarm.Prelude.Int.{pos}
use satfarm.Ledger.{upload_cost_satc}

-- For a size that the multiplication does not overflow, the price is 1000 satoshi for 1024 bytes,
-- rounded up to a whole satoshi.
pub upload_cost_satc-ceil :
    (size : ℕ)
    → size * 1000 + 1023 < 2 ^ 63
    → (cost : ℕ) × (upload_cost_satc (pos size) ≡ pos cost)
      × (size * 1000 ≤ cost * 1024)
      × (cost * 1024 < size * 1000 + 1024)
unfolding upload_cost_satc
upload_cost_satc-ceil size fits =
    ((size * 1000 + 1023) / 1024, ground arith, omega arith, omega arith)
