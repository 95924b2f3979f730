-- ===== src/Ota/Manager.antt =====
-- src/tasks/ota_manager.rs: a check of the update server, the download into the inactive slot, and the
-- task around them. The HTTP client, the JSON parser and the flash are not part of this repository:
-- each call on them is recorded, and its reply is asked of an arbitrary function of the calls before
-- it. The body of a download is the finite list of what its reads give; after the list they give
-- nothing. Log lines and buffer set-up are left out.
pub mod Ensures
pub mod Urls
pub mod Fetch
pub mod Download
pub mod Install
pub mod Round
mod Tests
use project_emerge_dropbot_f.Prelude.{
  ℕ, zero, ◌+◌, ◌≡◌, Bool, true, false, not, Option, none, some, List, [], ◌∷◌, ◌++◌, length, ltb,
  ◌==◌, if◌then◌else◌, Result, ok, err, map_err,
}
use project_emerge_dropbot_f.Prelude.Text.{Text, codes, text_eq}
use project_emerge_dropbot_f.Prelude.Words.{u32}
use project_emerge_dropbot_f.Sync.{Watch}
use project_emerge_dropbot_f.Network.Heapless.{Heapless, write_pieces}
use project_emerge_dropbot_f.Ota.Status.{
  FirmwareManifest, OtaStatus, idle, preparing, downloading, applying, percent,
}

abbrev pub url_buffer_size : ℕ
url_buffer_size = 128

-- The errors of the HTTP client, the JSON parser and the partition table, and the task's own.
pub data OtaError (H J T : Type 0) : Type 0 where
  http : H → OtaError H J T
  json : J → OtaError H J T
  partition : T → OtaError H J T
  url_too_long image_too_large : OtaError H J T
  size_mismatch : ℕ → ℕ → OtaError H J T

-- What the task does to the outside, in the order in which it does it.
pub data Call : Type 0 where
  -- A request is made for a URL, it is sent, and a body is read.
  request : Text → Call
  send_request read_body read_chunk : Call
  -- The partition table is opened, the inactive slot found, written at an offset, and made active.
  open_updater next_partition : Call
  write_flash : ℕ → Text → Call
  activate_next_partition set_state_new : Call
  -- A status is sent to the watch, and the board restarts.
  show : OtaStatus → Call
  reset : Call

-- The reply to a download: whether its status is a success, and what the reads of its body give.
pub record Reply (H : Type 0) : Type 0 where
  pub is_successful : Bool
  pub reads : List (Result H Text)

-- The world that replies, given the calls made before, the latest first.
pub record World (H J T : Type 0) : Type 0 where
  pub on_request : List Call → Text → Result H (Unit {0})
  pub on_send : List Call → Result H (Reply H)
  pub on_read_body : List Call → Result H Text
  pub parse : Text → Result J FirmwareManifest
  pub on_open : List Call → Result T (Unit {0})
  pub on_next_partition : List Call → Result T ℕ
  pub on_flash : List Call → Call → Result T (Unit {0})

-- The task's view of the watch, and the calls that it made, the latest first.
pub record Session (W : Type 0) : Type 0 where
  pub watch : W
  pub calls : List Call

unfoldable pub option_eq : Option ℕ → Option ℕ → Bool
option_eq none none = true
option_eq none (some b) = false
option_eq (some a) none = false
option_eq (some a) (some b) = a == b

-- The derived equality of `OtaStatus`.
unfoldable pub status_eq : OtaStatus → OtaStatus → Bool
status_eq idle idle = true
status_eq preparing preparing = true
status_eq applying applying = true
status_eq (downloading w t) (downloading w' t') = if w == w' then t == t' else false
status_eq _ _ = false

abbrev pub is_shown : Option OtaStatus → OtaStatus → Bool
is_shown none s = false
is_shown (some t) s = status_eq t s

-- The two URLs, and the path of the image, in buffers of the source's size; `none` is an overflow.
abbrev pub whole : Text × Bool → Option Text
whole (t, true) = some t
whole (t, false) = none

unfoldable pub manifest_url : Heapless → Text → Option Text
manifest_url h server = whole (
    write_pieces h url_buffer_size []
      (codes "http://" ∷ server ∷ codes "/api/firmware/latest" ∷ []))

unfoldable pub firmware_url : Heapless → Text → Text → Option Text
firmware_url h server path =
    whole (write_pieces h url_buffer_size [] (codes "http://" ∷ server ∷ path ∷ []))

abbrev pub Action : Type 0 → Type 0 → Type 0 → Type 0 → Type 0 → Type 0
Action H J T W A = Session W → Session W × Result (OtaError H J T) A

abbrev pub follow :
    {H J T W A B : Type 0}
    → Session W × Result (OtaError H J T) A
    → (A → Action H J T W B)
    → Session W × Result (OtaError H J T) B
follow (s, ok a) k = k a s
follow (s, err e) k = (s, err e)

infixl 5 ◌>>=◌ ◌>>◌
abbrev pub ◌>>=◌ :
    {H J T W A B : Type 0} → Action H J T W A → (A → Action H J T W B) → Action H J T W B
◌>>=◌ m k s = follow (m s) k

abbrev pub ◌>>◌ :
    {H J T W B : Type 0} → Action H J T W (Unit {0}) → Action H J T W B → Action H J T W B
m >> k = m >>= λ _. k

abbrev pub pure : {H J T W A : Type 0} → A → Action H J T W A
pure a s = (s, ok a)

abbrev pub fail : {H J T W A : Type 0} → OtaError H J T → Action H J T W A
fail e s = (s, err e)

abbrev pub or_fail : {H J T W A : Type 0} → Option A → OtaError H J T → Action H J T W A
or_fail none e s = (s, err e)
or_fail (some a) e s = (s, ok a)

-- A call that is recorded, with the reply that the calls before it give.
abbrev pub record_call : {W : Type 0} → Call → Session W → Session W
record_call c s = record s { calls = c ∷ s.calls }

abbrev pub perform :
    {H J T W A E : Type 0}
    → (E → OtaError H J T)
    → Call
    → (List Call → Result E A)
    → Action H J T W A
perform wrap c reply s = (record_call c s, map_err wrap (reply s.calls))

module _ {H J T W : Type 0} (h : Heapless) (watch : Watch W OtaStatus) (world : World H J T) where
  -- `ota_status.send`
  unfoldable pub send_status : OtaStatus → Session W → Session W
  send_status status s = record s {
    watch = watch.send s.watch status;
    calls = show status ∷ s.calls;
  }

  unfoldable pub publish_status : OtaStatus → Session W → Session W
  unfolding send_status
  publish_status status s =
      if is_shown (watch.try_get s.watch) status then s else send_status status s

  unfoldable pub publishing : OtaStatus → Action H J T W (Unit {0})
  unfolding publish_status
  publishing status s = (publish_status status s, ok tt)

  -- The status after a chunk is sent only where its percentage is not the one sent last.
  unfoldable pub show_progress : ℕ → ℕ → Option ℕ → Session W → Session W × Option ℕ
  show_progress written total published s =
      let now = percent (downloading written total) in
      if option_eq now published
      then (s, published)
      else (send_status (downloading written total) s, now)

  -- The loop over the body: the bytes written so far, and the percentage sent last.
  unfoldable pub download : ℕ → List (Result H Text) → ℕ → Option ℕ → Action H J T W ℕ
  download total [] written published s = (record_call read_chunk s, ok written)
  download total (err e ∷ reads) written published s = (record_call read_chunk s, err (http e))
  download total (ok [] ∷ reads) written published s = (record_call read_chunk s, ok written)
  download total (ok (b ∷ bs) ∷ reads) written published s =
      let chunk = b ∷ bs in
      let read = record_call read_chunk s in
      let flashed = record_call (write_flash written chunk) read in
      let written' = u32 (written + length chunk) in
      let (shown, published') = show_progress written' total published flashed in
      let rest = download total reads written' published' shown in
      elim (world.on_flash read.calls (write_flash written chunk)) [
        | ok _ ↦ rest
        | err e ↦ (flashed, err (partition e))
      ]

  -- The manifest: its path and size if it names another version, and `none` where there is nothing to
  -- install.
  unfoldable pub fetch_manifest : Text → Text → Action H J T W (Option (Text × ℕ))
  unfolding publishing
  fetch_manifest firmware_version url = do
    perform http (request url) (λ cs. world.on_request cs url)
    response ← perform http send_request world.on_send
    if not response.is_successful then pure none else (do
      body ← perform http read_body world.on_read_body
      manifest ← λ s. (s, map_err json (world.parse body))
      if text_eq manifest.version firmware_version then pure none else (do
        publishing preparing
        path ← or_fail (whole (write_pieces h url_buffer_size [] (manifest.url ∷ []))) url_too_long
        pure (some (path, manifest.size))))

  -- The image, from its slot to the last byte; `false` where the server does not serve it.
  unfoldable pub install : Text → Text → ℕ → Action H J T W Bool
  unfolding firmware_url download
  install ota_server firmware_path expected_size = do
    perform partition open_updater world.on_open
    partition_size ← perform partition next_partition world.on_next_partition
    if ltb partition_size expected_size then fail image_too_large else (do
      url ← or_fail (firmware_url h ota_server firmware_path) url_too_long
      perform http (request url) (λ cs. world.on_request cs url)
      response ← perform http send_request world.on_send
      if not response.is_successful then pure false else (do
        total ← download expected_size response.reads 0 none
        if not (total == expected_size) then fail (size_mismatch expected_size total) else (do
          perform partition activate_next_partition
              (λ cs. world.on_flash cs activate_next_partition)
          perform partition set_state_new (λ cs. world.on_flash cs set_state_new)
          pure true)))

  unfoldable pub install_found : Text → Option (Text × ℕ) → Action H J T W Bool
  unfolding install
  install_found ota_server none = pure false
  install_found ota_server (some (firmware_path, expected_size)) =
      install ota_server firmware_path expected_size

  unfoldable pub check_and_apply_update : Text → Text → Action H J T W Bool
  unfolding manifest_url fetch_manifest install_found
  check_and_apply_update firmware_version ota_server = do
    url ← or_fail (manifest_url h ota_server) url_too_long
    found ← fetch_manifest firmware_version url
    install_found ota_server found

  -- One round of the task after its wait: a success restarts the board, all else releases the tasks
  -- that paused for the update.
  unfoldable pub conclude : Session W × Result (OtaError H J T) Bool → Session W
  unfolding publish_status
  conclude (s, ok true) = record_call reset (publish_status applying s)
  conclude (s, ok false) = publish_status idle s
  conclude (s, err e) = publish_status idle s

  unfoldable pub round : Text → Text → Session W → Session W
  unfolding conclude
  round firmware_version ota_server s =
      conclude (check_and_apply_update firmware_version ota_server s)
