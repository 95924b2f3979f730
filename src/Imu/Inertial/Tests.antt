-- ===== src/Imu/Inertial/Tests.antt =====
-- The driver on a bus whose part answers, and on one that is silent.
use project_emerge_dropbot_f.Prelude.{ℕ, ◌≡◌, refl, [], ◌∷◌, Result, ok, err, ◌==◌, if◌then◌else◌}
use project_emerge_dropbot_f.Prelude.Text.{Text}
use project_emerge_dropbot_f.Imu.Bus.{BusCall, write, write_read, pause, Bus}
use project_emerge_dropbot_f.Imu.Inertial.{wrong_chip_id, init_failed, probe, init}
use project_emerge_dropbot_f.Imu.Inertial.Probe.{ProbedAt, probe-ProbedAt}

-- A part at 0x69 only, with this identifier and this status.
abbrev register_of : Text → ℕ
register_of [] = 0
register_of (register ∷ bytes) = register

abbrev answers : ℕ → ℕ → BusCall → Result ℕ (ℕ → ℕ)
answers id status (write_read address bytes count) =
    if address == 0x69 then ok (λ _. if register_of bytes == 0 then id else status) else err 5
answers id status (write address bytes) = err 5
answers id status (pause micros) = err 5

abbrev part_bus : ℕ → ℕ → Bus ℕ
part_bus id status = record {
  on_write = λ cs call. ok tt;
  on_read = λ cs call. answers id status call;
}

abbrev image : Text
image = 7 ∷ 9 ∷ []

initialised : (init (part_bus 0x24 1) image []).1 ≡ ok 0x69
unfolding init
initialised = refl

not_ready : (init (part_bus 0x24 2) image []).1 ≡ err (init_failed 2)
unfolding init
not_ready = refl

another : (init (part_bus 0x42 1) image []).1 ≡ err (wrong_chip_id 0x42)
unfolding init
another = refl

abbrev burst : ℕ → ℕ
burst offset = if offset == 23 then 128 else 0

probe-ProbedAt_example : ProbedAt (part_bus 0x42 1) (probe (part_bus 0x42 1) []).1
probe-ProbedAt_example = probe-ProbedAt (part_bus 0x42 1) []

abbrev minus_two : ℕ → ℕ
minus_two offset = if offset == 3 then 254 else 255
