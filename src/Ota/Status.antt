-- ===== src/Ota/Status.antt =====
-- src/data/ota.rs: the progress of an update, and the percentage that is shown of it.
use native.Mathlib.Nat.{
  le-div_iff_mul-le, div-mul-le_self, le_trans, mul-le-mul_right, mod-eq_of_lt,
}
use project_emerge_dropbot_f.Prelude.{
  ℕ, ◌*◌, ◌/◌, ◌<◌, ◌≤◌, ◌≡◌, ◌↔◌, refl, Bool, true, false, Option, ◌⊎◌, inl, inr, none, some, min,
  ltb, if◌then◌else◌, arith,
}
use project_emerge_dropbot_f.Prelude.Text.{Text}
use project_emerge_dropbot_f.Prelude.Words.{u8, u64, IsU32}

-- The manifest, with its texts as code points.
pub record FirmwareManifest : Type 0 where
  pub version : Text
  pub url : Text
  pub size : ℕ

pub data OtaStatus : Type 0 where
  idle preparing : OtaStatus
  downloading : ℕ → ℕ → OtaStatus
  applying : OtaStatus

unfoldable pub is_active : OtaStatus → Bool
is_active idle = false
is_active _ = true

unfoldable pub percent : OtaStatus → Option ℕ
percent (downloading written total) =
    if ltb 0 total then some (u8 (min (u64 (written * 100) / total) 100)) else none
percent applying = some 100
percent _ = none

-- While a transfer with a known size runs, the figure is the exact share rounded down and capped at
-- 100: neither the 64-bit product nor the 8-bit cast loses anything of a 32-bit byte count.
pub percent-exact :
    (written total : ℕ)
    → IsU32 written
    → 0 < total
    → percent (downloading written total) ≡ some (min (written * 100 / total) 100)
unfolding percent
percent-exact written total w t =
    let exact : u64 (written * 100) ≡ written * 100 = mod-eq_of_lt (omega arith) in
    rw exact (ground arith)

-- More bytes written never show as a smaller figure, and the figure is 100 exactly from the moment
-- that all bytes are written.
pub percent_mono :
    (written later total : ℕ)
    → IsU32 later
    → written ≤ later
    → 0 < total
    → (p : ℕ) × (q : ℕ) × (percent (downloading written total) ≡ some p)
      × (percent (downloading later total) ≡ some q)
      × (p ≤ q)
      × ((q ≡ 100) ↔ (total ≤ later))
percent_mono written later total w h t = (
  min (written * 100 / total) 100,
  min (later * 100 / total) 100,
  percent-exact written total (omega arith) t,
  percent-exact later total w t,
  omega (arith, share),
  (λ e. omega (arith, full.0 (omega arith)), λ e. omega (arith, full.1 (omega arith))),
)
  where
    share : written * 100 / total ≤ later * 100 / total
    share =
        (le-div_iff_mul-le t).1
          (le_trans (div-mul-le_self (written * 100) total) (mul-le-mul_right 100 h))

    full : (100 ≤ later * 100 / total) ↔ (100 * total ≤ later * 100)
    full = le-div_iff_mul-le t

-- A percentage is known exactly while a transfer of a known size runs, or the image is complete.
pub percent_known :
    (s : OtaStatus)
    → ((percent s ≡ none) ↔ ((s ≡ idle) ⊎ (s ≡ preparing) ⊎ ((w : ℕ) × (s ≡ downloading w 0))))
unfolding percent
percent_known idle = (λ e. inl refl, λ h. refl)
percent_known preparing = (λ e. inr (inl refl), λ h. refl)
percent_known (downloading w t) = ground arith
percent_known applying = ground arith
