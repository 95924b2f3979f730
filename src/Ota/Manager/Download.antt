-- ===== src/Ota/Manager/Download.antt =====
-- The download loop: what it writes to the slot, where, and what it shows meanwhile.
use mathlib.Core.List.{append-nil, append_assoc}
use project_emerge_dropbot_f.Prelude.{
  ℕ, ◌+◌, ◌≡◌, sym, ap, ◌∙◌, Bool, true, false, Option, List, [], ◌∷◌, ◌++◌, length, length-append,
  Result, ok, err, arith,
}
use project_emerge_dropbot_f.Prelude.Text.{Text}
use project_emerge_dropbot_f.Prelude.Words.{u32}
use project_emerge_dropbot_f.Sync.{Watch}
use project_emerge_dropbot_f.Network.Heapless.{Heapless}
use project_emerge_dropbot_f.Ota.Status.{OtaStatus}
use project_emerge_dropbot_f.Ota.Manager.{
  OtaError, Call, read_chunk, write_flash, activate_next_partition, partition, World, Session,
  record_call, show_progress, send_status, download,
}
use project_emerge_dropbot_f.Ota.Manager.Ensures.{Ensures, weaken-Ensures}

-- The bytes written to the slot, in the order of the writes; the latest call comes first.
abbrev pub image : List Call → Text
image [] = []
image (write_flash offset chunk ∷ cs) = image cs ++ chunk
image (_ ∷ cs) = image cs

-- Every write goes directly behind what is written already, at its offset as a 32-bit number.
abbrev pub IsContiguous : List Call → Type 0
IsContiguous [] = Unit {0}
IsContiguous (write_flash offset chunk ∷ cs) = (offset ≡ u32 (length (image cs))) × IsContiguous cs
IsContiguous (_ ∷ cs) = IsContiguous cs

abbrev pub is_activated : List Call → Bool
is_activated [] = false
is_activated (activate_next_partition ∷ cs) = true
is_activated (_ ∷ cs) = is_activated cs

-- What the reads of a body serve up to its end: a read of no bytes, an error, or the end of the list.
abbrev pub served : {H : Type 0} → List (Result H Text) → Text
served [] = []
served (err e ∷ reads) = []
served (ok [] ∷ reads) = []
served (ok (b ∷ bs) ∷ reads) = (b ∷ bs) ++ served reads

-- Writing goes on behind the bytes written so far, and the slot is not active.
pub record IsWriting (written : ℕ) (cs : List Call) : Type 0 where
  pub position : written ≡ u32 (length (image cs))
  pub contiguous : IsContiguous cs
  pub inactive : is_activated cs ≡ false

-- Where nothing was activated whatever was written is contiguous.
abbrev pub IsInactive : List Call → Type 0
IsInactive cs = IsContiguous cs × (is_activated cs ≡ false)

-- Nothing is written and nothing is activated.
abbrev pub IsFresh : List Call → Type 0
IsFresh cs = (image cs ≡ []) × IsInactive cs

abbrev pub Complete : {W : Type 0} → Text → ℕ → Session W → Type 0
Complete bytes n s = IsWriting n s.calls × (image s.calls ≡ bytes)

u32_add : (a b n k : ℕ) → n ≡ u32 a → b ≡ a + k → u32 (n + k) ≡ u32 b
u32_add a b n k e f = omega arith

module _ {H J T W : Type 0} (h : Heapless) (watch : Watch W OtaStatus) (world : World H J T) where
  show_progress-IsWriting :
      (written total : ℕ) (published : Option ℕ) (s : Session W) (n : ℕ)
      → IsWriting n s.calls
      → IsWriting n (show_progress h watch world written total published s).0.calls
        × (image (show_progress h watch world written total published s).0.calls ≡ image s.calls)
  unfolding show_progress send_status
  show_progress-IsWriting written total published s n w = ground arith

  -- After a chunk is written, and whatever is shown, writing goes on behind it.
  write_flash-IsWriting :
      (total written : ℕ) (published : Option ℕ) (s : Session W) (chunk : Text)
      → IsWriting written s.calls
      → let written' = u32 (written + length chunk) in
        let flashed = record_call (write_flash written chunk) (record_call read_chunk s) in
        let shown = (show_progress h watch world written' total published flashed).0 in
        IsWriting written' shown.calls × (image shown.calls ≡ image s.calls ++ chunk)
  write_flash-IsWriting total written published s chunk w =
      show_progress-IsWriting (u32 (written + length chunk)) total published
        (record_call (write_flash written chunk) (record_call read_chunk s))
        (u32 (written + length chunk))
        (record {
          position =
              u32_add (length (image s.calls)) _ written (length chunk) w.position
                (length-append (image s.calls) chunk);
          contiguous = (w.position, w.contiguous);
          inactive = w.inactive;
        })

  -- A reply of the flash: a failed write ends the loop with its bytes in the list of calls.
  flash-Ensures :
      (r : Result T (Unit {0})) (wrap : T → OtaError H J T) {A : Type 0} (P : Session W → Type 0)
      (Q : Session W → A → Type 0) (rest : Session W × Result (OtaError H J T) A)
      (flashed : Session W)
      → P flashed
      → Ensures {H = H} {J = J} {T = T} P Q rest
      → Ensures {H = H} {J = J} {T = T} P Q
          (elim r [ ok _ ↦ rest | err e ↦ (flashed, err (wrap e)) ])
  flash-Ensures (ok _) wrap P Q rest flashed p q = q
  flash-Ensures (err e) wrap P Q rest flashed p q = p

  -- From a slot that holds as many bytes as are counted, contiguously, the loop writes each chunk
  -- behind the one before and activates nothing. Where it succeeds, the slot holds what it held and
  -- then the whole body, and the count that it gives is the length of both, modulo 2 ^ 32.
  pub download-Ensures :
      (total : ℕ) (reads : List (Result H Text)) (written : ℕ) (published : Option ℕ)
      (s : Session W)
      → IsWriting written s.calls
      → Ensures
          (λ t. IsInactive t.calls)
          (λ t n. Complete (image s.calls ++ served reads) n t)
          (download h watch world total reads written published s)
  unfolding download
  download-Ensures total [] written published s w = (
    record { position = w.position; contiguous = w.contiguous; inactive = w.inactive },
    sym (append-nil _),
  )
  download-Ensures total (err e ∷ reads) written published s w = (w.contiguous, w.inactive)
  download-Ensures total (ok [] ∷ reads) written published s w = (
    record { position = w.position; contiguous = w.contiguous; inactive = w.inactive },
    sym (append-nil _),
  )
  download-Ensures total (ok (b ∷ bs) ∷ reads) written published s w =
      let chunk = b ∷ bs in
      let flashed = record_call (write_flash written chunk) (record_call read_chunk s) in
      let written' = u32 (written + length chunk) in
      let (shown, published') = show_progress h watch world written' total published flashed in
      let (w', same) = write_flash-IsWriting total written published s chunk w in
      flash-Ensures (world.on_flash (read_chunk ∷ s.calls) (write_flash written chunk)) partition
        (λ t. IsInactive t.calls) (λ t n. Complete (image s.calls ++ (chunk ++ served reads)) n t)
        (download h watch world total reads written' published' shown) flashed
        ((w.position, w.contiguous), w.inactive)
        (weaken-Ensures (λ t. IsInactive t.calls) (λ t. IsInactive t.calls)
          (λ t n. Complete (image shown.calls ++ served reads) n t)
          (λ t n. Complete (image s.calls ++ (chunk ++ served reads)) n t)
          (download h watch world total reads written' published' shown) (λ _ p. p)
          (λ n t (at, all).
            (at, all ∙ ap (λ held. held ++ served reads) same ∙ append_assoc _ chunk _))
          (download-Ensures total reads written' published' shown w'))
