-- ===== src/Battery/Charger/Decode.antt =====
-- The thermistor field of the NTC status register: its codes, and the bits around it.
use Prim.Native.Nat.{bit_and}
use project_emerge_dropbot_f.Prelude.{
  ℕ, zero, suc, ◌%◌, ◌<◌, sym, ◌∙◌, ◌≡◌, ◌≢◌, ◌↔◌, refl, Bool, true, false, if◌then◌else◌, Option,
  none, some, ◌==◌, ==_iff, arith,
}
use project_emerge_dropbot_f.Prelude.Words.{IsU8}
use project_emerge_dropbot_f.Battery.{ThermistorState, normal, warm, cool, cold, hot}
use project_emerge_dropbot_f.Battery.Charger.{thermistor_state, ts_stat_mask}

-- The mask keeps the remainder by 8, tried on every byte.
abbrev keeps_low_bits : ℕ → Bool
keeps_low_bits zero = true
keeps_low_bits (suc byte) =
    let rest = keeps_low_bits byte in if bit_and byte ts_stat_mask == byte % 8 then rest else false

mask_at :
    (bound byte : ℕ)
    → byte < bound
    → keeps_low_bits bound ≡ true
    → (bit_and byte ts_stat_mask == byte % 8) ≡ true
mask_at zero byte low h = absurd (omega arith)
mask_at (suc bound) byte low h = ground (arith, mask_at bound byte)

mask-mod : (x : ℕ) → IsU8 x → bit_and x ts_stat_mask ≡ x % 8
mask-mod x h = (==_iff _ _).0 (mask_at 256 x h refl)

-- The datasheet's code of a state; the states that the firmware does not know have none.
abbrev pub code_of : ThermistorState → Option ℕ
code_of normal = some 0
code_of warm = some 2
code_of cool = some 3
code_of cold = some 5
code_of hot = some 6
code_of ThermistorState.unknown = none

-- What the low three bits hold where a state is to be reported: its code, or for `unknown` a value
-- that is no state's code.
abbrev pub IsCodeOf : ThermistorState → ℕ → Type 0
IsCodeOf ThermistorState.unknown c = (u : ThermistorState) → code_of u ≢ some c
IsCodeOf t c = code_of t ≡ some c

decode-code_of : (u : ThermistorState) (c : ℕ) → code_of u ≡ some c → thermistor_state c ≡ u
unfolding thermistor_state
decode-code_of ThermistorState.unknown c h = cc
decode-code_of _ c h = ground arith

unknown_has_none : (u : ThermistorState) (c : ℕ) → code_of u ≡ some c → u ≢ ThermistorState.unknown
unknown_has_none ThermistorState.unknown c h e = cc
unknown_has_none _ c h e = cc

thermistor_state-IsCodeOf : (t : ThermistorState) (c : ℕ) → (thermistor_state c ≡ t) ↔ IsCodeOf t c
unfolding thermistor_state
thermistor_state-IsCodeOf ThermistorState.unknown c = (
  (λ e u h. unknown_has_none u c h (sym (decode-code_of u c h) ∙ e)),
  (λ none_of.
      ground (arith, none_of normal, none_of warm, none_of cool, none_of cold, none_of hot)),
)
thermistor_state-IsCodeOf _ c = ground arith

-- Whatever the other five bits of the register hold: a known state is reported exactly where its own
-- code stands in the low three bits, and `unknown` exactly where they hold no state's code.
pub thermistor_state_iff :
    (ntc : ℕ) (t : ThermistorState)
    → IsU8 ntc
    → (thermistor_state (bit_and ntc ts_stat_mask) ≡ t) ↔ IsCodeOf t (ntc % 8)
thermistor_state_iff ntc t h = rw (mask-mod ntc h) (thermistor_state-IsCodeOf t (ntc % 8))
