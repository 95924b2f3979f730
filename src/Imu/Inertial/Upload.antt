-- ===== src/Imu/Inertial/Upload.antt =====
-- The upload of the feature engine's image puts every byte of it at its place.
use Prim.Native.Nat.{bit_and}
use project_emerge_dropbot_f.Prelude.{
  ℕ, zero, suc, ◌+◌, ◌-◌, ◌*◌, ◌/◌, ◌<◌, ◌≤◌, ◌≡◌, refl, ap, ◌∙◌, Option, none, some, List, [], ◌∷◌,
  length, length-drop, take, drop, get_elem?, ltb, if◌then◌else◌, arith, inl, inr, le_or_lt,
}
use project_emerge_dropbot_f.Prelude.Text.{Text}
use project_emerge_dropbot_f.Prelude.Bits.{and_fifteen, and_byte}
use project_emerge_dropbot_f.Prelude.Words.{u8, u16}
use project_emerge_dropbot_f.Imu.Bus.{BusCall, write, Bus}
use project_emerge_dropbot_f.Imu.Bus.Rules.{IfOk, write-IfOk, weaken-IfOk}
use project_emerge_dropbot_f.Imu.Inertial.{
  bus_error, register_init_addr_0, register_init_addr_1, register_init_data, config_chunk,
  upload_chunks, upload_config_file,
}
use project_emerge_dropbot_f.Imu.Inertial.Part.{store, receive, replay, replay-write}

get_elem?-take :
    (n j : ℕ) (xs : Text) → get_elem? (take n xs) j ≡ (if ltb j n then get_elem? xs j else none)
get_elem?-take zero j xs = ground arith
get_elem?-take (suc n) j [] = ground arith
get_elem?-take (suc n) zero (x ∷ xs) = ground arith
get_elem?-take (suc n) (suc j) (x ∷ xs) = ground (arith, get_elem?-take n j xs)

suc_add : (n j : ℕ) → suc (n + j) ≡ suc n + j
suc_add n j = omega arith

get_elem?-drop : (n j : ℕ) (xs : Text) → get_elem? (drop n xs) j ≡ get_elem? xs (n + j)
get_elem?-drop zero j xs = ap (get_elem? xs) (omega arith)
get_elem?-drop (suc n) j [] = refl
get_elem?-drop (suc n) j (x ∷ xs) = get_elem?-drop n j xs ∙ ap (get_elem? (x ∷ xs)) (suc_add n j)

-- A memory that is written in two parts.
store_split :
    (n offset i : ℕ) (bytes : Text) (memory : ℕ → Option ℕ)
    → store (offset + n) (drop n bytes) (store offset (take n bytes) memory) i
      ≡ store offset bytes memory i
store_split n offset i bytes memory = elim (le_or_lt (offset + n) i) [
  | inr low ↦ ground (arith, get_elem?-take n (i - offset) bytes)
  | inl high ↦
      let at : n + (i - (offset + n)) ≡ i - offset = omega arith in
      ground (
        arith,
        get_elem?-take n (i - offset) bytes,
        get_elem?-drop n (i - (offset + n)) bytes,
        ap (get_elem? bytes) at,
      )
]

-- The three writes of a chunk.
abbrev chunk_calls : ℕ → ℕ → Text → List BusCall → List BusCall
chunk_calls address index chunk cs =
    let word_address = u16 (index * config_chunk / 2) in
    write address (register_init_data ∷ chunk)
    ∷ write address (register_init_addr_1 ∷ u8 (bit_and (word_address / 16) 255) ∷ [])
    ∷ write address (register_init_addr_0 ∷ u8 (bit_and word_address 15) ∷ [])
    ∷ cs

pointer_at :
    (index : ℕ)
    → index < 64
    → let w = u16 (index * config_chunk / 2) in
      2 * (16 * u8 (bit_and (w / 16) 255) + u8 (bit_and w 15)) ≡ index * 128
pointer_at index h = omega (
  arith,
  and_byte (u16 (index * config_chunk / 2) / 16),
  and_fifteen (u16 (index * config_chunk / 2)),
)

chunk-image :
    (address index : ℕ) (b : ℕ) (bs : Text) (cs : List BusCall)
    → index < 64
    → (replay address (chunk_calls address index (b ∷ bs) cs)).image
      ≡ store (index * 128) (b ∷ bs) (replay address cs).image
chunk-image address index b bs cs h =
    let w = u16 (index * config_chunk / 2) in
    let low = register_init_addr_0 ∷ u8 (bit_and w 15) ∷ [] in
    let high = register_init_addr_1 ∷ u8 (bit_and (w / 16) 255) ∷ [] in
    let before = write address high ∷ write address low ∷ cs in
    let pointed =
      replay-write address high (write address low ∷ cs)
      ∙ ap (receive high) (replay-write address low cs) in
    ap (λ p. p.image)
      (replay-write address (register_init_data ∷ b ∷ bs) before
        ∙ ap (receive (register_init_data ∷ b ∷ bs)) pointed)
    ∙ ap (λ o. store o (b ∷ bs) (replay address cs).image) (pointer_at index h)

two_parts :
    (index : ℕ) (bytes : Text) (before now : ℕ → Option ℕ) (i : ℕ)
    → now ≡ store (index * 128) (take config_chunk bytes) before
    → store ((index + 1) * 128) (drop config_chunk bytes) now i ≡ store (index * 128) bytes before i
two_parts index bytes before now i e =
    let next : (index + 1) * 128 ≡ index * 128 + 128 = omega arith in
    rw (e, next) (store_split 128 (index * 128) i bytes before)

get_elem?-inside : (xs : Text) (i : ℕ) → i < length xs → (b : ℕ) × (get_elem? xs i ≡ some b)
get_elem?-inside [] i h = absurd (omega arith)
get_elem?-inside (x ∷ xs) zero h = (x, refl)
get_elem?-inside (x ∷ xs) (suc i) h = get_elem?-inside xs i (omega arith)

store_inside :
    (bytes : Text) (memory : ℕ → Option ℕ) (i : ℕ)
    → i < length bytes
    → store 0 bytes memory i ≡ get_elem? bytes i
store_inside bytes memory i h =
    let (b, e) = get_elem?-inside bytes i h in
    let at : i - 0 ≡ i = omega arith in ground (arith, e, ap (get_elem? bytes) at)

module _ {E : Type 0} (bus : Bus E) (address i : ℕ) where
  -- What is at one offset after the chunks from an index on.
  upload_chunks-image :
      (fuel index : ℕ) (rest : Text) (cs : List BusCall)
      → length rest ≤ fuel
      → index * 128 + length rest ≤ 8192
      → IfOk
          (λ cs' _.
            (replay address cs').image i ≡ store (index * 128) rest (replay address cs).image i)
          (upload_chunks bus address fuel index rest cs)
  unfolding upload_chunks
  upload_chunks-image fuel index [] cs enough fits = ground arith
  upload_chunks-image zero index (b ∷ bs) cs enough fits = absurd (omega arith)
  upload_chunks-image (suc fuel) index (b ∷ bs) cs enough fits =
      let bytes = b ∷ bs in
      let before = (replay address cs).image in
      let w = u16 (index * config_chunk / 2) in
      let calls = chunk_calls address index (take config_chunk bytes) cs in
      let rest = upload_chunks bus address fuel (index + 1) (drop config_chunk bytes) in
      let Stored : List BusCall → Unit {0} → Type 0 =
        λ cs' _. (replay address cs').image i ≡ store (index * 128) bytes before i in
      write-IfOk bus bus_error Stored address (register_init_addr_0 ∷ u8 (bit_and w 15) ∷ []) _ cs (
        write-IfOk bus bus_error Stored address
          (register_init_addr_1 ∷ u8 (bit_and (w / 16) 255) ∷ []) _ _
          (write-IfOk bus bus_error Stored address (register_init_data ∷ take config_chunk bytes)
            rest _
            (weaken-IfOk
              (λ cs' _.
                (replay address cs').image i
                ≡ store ((index + 1) * 128) (drop config_chunk bytes) (replay address calls).image
                    i)
              Stored (rest calls)
              (λ cs' _ e.
                e
                ∙ two_parts index bytes before (replay address calls).image i
                    (chunk-image address index b (take 127 bs) cs (omega arith)))
              (upload_chunks-image fuel (index + 1) (drop config_chunk bytes) calls
                (omega (arith, length-drop config_chunk bytes))
                (omega (arith, length-drop config_chunk bytes))))))

  -- Where the upload of an image of at most 8192 bytes succeeds, the part holds at every offset of the
  -- image the byte that the image has there, whatever the memory held before.
  pub upload_config_file-image :
      (config_file : Text) (cs : List BusCall)
      → length config_file ≤ 8192
      → i < length config_file
      → IfOk
          (λ cs' _. (replay address cs').image i ≡ get_elem? config_file i)
          (upload_config_file bus address config_file cs)
  unfolding upload_config_file
  upload_config_file-image config_file cs fits inside =
      weaken-IfOk
        (λ cs' _. (replay address cs').image i ≡ store 0 config_file (replay address cs).image i) _
        (upload_chunks bus address (length config_file) 0 config_file cs)
        (λ cs' _ e. e ∙ store_inside config_file (replay address cs).image i inside)
        (upload_chunks-image (length config_file) 0 config_file cs (omega arith) (omega arith))
