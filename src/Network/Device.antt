-- ===== src/Network/Device.antt =====
-- src/device_id.rs: the device ID, the three low bytes of the factory MAC address in upper-case
-- hexadecimal. The eFuse is hardware: its six bytes are an argument.
use project_emerge_dropbot_f.Prelude.{
  ℕ, ◌+◌, ◌*◌, ◌-◌, ◌/◌, ◌%◌, ◌≡◌, refl, List, [], ◌∷◌, map, ◌++◌, ap, length, drop, ltb,
  if◌then◌else◌, arith,
}
use project_emerge_dropbot_f.Prelude.Text.{Text}
use project_emerge_dropbot_f.Prelude.Words.{IsU8}
use project_emerge_dropbot_f.Network.Heapless.{Heapless, write_pieces, write_pieces-fits}

abbrev pub device_id_len : ℕ
device_id_len = 6

abbrev pub hex_digit : ℕ → ℕ
hex_digit n = if ltb n 10 then 48 + n else 55 + n

-- `{byte:02X}`
unfoldable pub hex_byte : ℕ → Text
hex_byte byte = hex_digit (byte / 16) ∷ hex_digit (byte % 16) ∷ []

-- `init`, on the bytes that the eFuse holds. A piece that does not fit is dropped.
unfoldable pub device_id : Heapless → List ℕ → Text
unfolding hex_byte
device_id h mac = (write_pieces h device_id_len [] (map hex_byte (drop 3 mac))).0

-- What a hexadecimal text stands for, to read an ID back.
abbrev pub hex_value : ℕ → ℕ
hex_value c = if ltb c 58 then c - 48 else c - 55

abbrev pub read_hex : Text → List ℕ
read_hex [] = []
read_hex (c ∷ []) = []
read_hex (c ∷ d ∷ rest) = (16 * hex_value c + hex_value d) ∷ read_hex rest

read_hex-hex_byte :
    (x : ℕ) (rest : Text) → IsU8 x → read_hex (hex_byte x ++ rest) ≡ x ∷ read_hex rest
unfolding hex_byte
read_hex-hex_byte x rest h = ground arith

pub device_id-eq :
    (h : Heapless) (a b c x y z : ℕ)
    → device_id h (a ∷ b ∷ c ∷ x ∷ y ∷ z ∷ []) ≡ hex_byte x ++ (hex_byte y ++ (hex_byte z ++ []))
unfolding device_id
device_id-eq h a b c x y z =
    ap (λ r. r.0)
      (write_pieces-fits h device_id_len [] (map hex_byte (x ∷ y ∷ z ∷ [])) (omega arith))

abbrev pub IsIdOf : Text → ℕ → ℕ → ℕ → Type 0
IsIdOf id x y z = (length id ≡ device_id_len) × (read_hex id ≡ x ∷ y ∷ z ∷ [])

-- The ID of a board is six characters long, and it reads back as the three low bytes of its MAC
-- address: two boards whose low bytes differ have different IDs.
pub device_id-IsIdOf :
    (h : Heapless) (a b c x y z : ℕ)
    → IsU8 x
    → IsU8 y
    → IsU8 z
    → IsIdOf (device_id h (a ∷ b ∷ c ∷ x ∷ y ∷ z ∷ [])) x y z
unfolding hex_byte
device_id-IsIdOf h a b c x y z hx hy hz = rw (device_id-eq h a b c x y z) (
  refl,
  cc (
    read_hex-hex_byte x (hex_byte y ++ (hex_byte z ++ [])) hx,
    read_hex-hex_byte y (hex_byte z ++ []) hy,
    read_hex-hex_byte z [] hz,
  ),
)
