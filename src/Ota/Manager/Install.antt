-- ===== src/Ota/Manager/Install.antt =====
-- What an update leaves in the slot: what was written of a body, which is not active, or the whole body
-- that the server serves under the URL of the image.

use mathlib.Core.Path.{subst}
use project_emerge_dropbot_f.Prelude.{
  ℕ, ◌≤◌, ◌≡◌, refl, sym, ◌∙◌, ap, Bool, true, false, not, none, List, ◌∷◌, ◌++◌, length, ltb, ◌==◌,
  ◌⊎◌, inl, inr, ok, arith, if◌then◌else◌,
}
use project_emerge_dropbot_f.Prelude.Text.{Text}
use project_emerge_dropbot_f.Prelude.Words.{u32}
use project_emerge_dropbot_f.Sync.{Watch}
use project_emerge_dropbot_f.Network.Heapless.{Heapless}
use project_emerge_dropbot_f.Ota.Status.{OtaStatus}
use project_emerge_dropbot_f.Ota.Manager.{
  http, partition, url_too_long, size_mismatch, Call, request, send_request, open_updater,
  next_partition, activate_next_partition, set_state_new, Reply, World, Session, Action, perform,
  follow, fail, pure, firmware_url, download, install,
}
use project_emerge_dropbot_f.Ota.Manager.Urls.{image_url, firmware_url_asked}
use project_emerge_dropbot_f.Ota.Manager.Ensures.{
  Ensures, follow-Ensures, perform-Ensures, or_fail-Ensures, if-Ensures, weaken-Ensures,
}
use project_emerge_dropbot_f.Ota.Manager.Download.{
  IsFresh, image, IsContiguous, is_activated, served, IsWriting, IsInactive, Complete,
  download-Ensures,
}

starts : (cs : List Call) → IsFresh cs → IsWriting 0 cs
starts cs (e, (c, i)) = record {
  position = ap (λ t. u32 (length t)) (sym e);
  contiguous = c;
  inactive = i;
}

not-false : (b : Bool) → not b ≡ false → b ≡ true
not-false b h = ground arith

fits_of : (slot size : ℕ) → ltb slot size ≡ false → size ≤ slot
fits_of slot size h = ground arith

same_size : (a b : ℕ) → not (a == b) ≡ false → a ≡ b
same_size a b h = ground arith

module _ {H J T W : Type 0} (h : Heapless) (watch : Watch W OtaStatus) (world : World H J T) where
  -- The slot holds the whole body of a successful reply to a request for `url`, of the expected size
  -- modulo 2 ^ 32, each chunk written behind the one before.
  pub record IsInstalled (url : Text) (expected_size : ℕ) (cs : List Call) : Type 0 where
    pub slot : ℕ
    pub found : List Call
    pub located : world.on_next_partition found ≡ ok slot
    pub fits : expected_size ≤ slot
    pub before : List Call
    pub reply : Reply H
    pub answered : world.on_send (request url ∷ before) ≡ ok reply
    pub successful : reply.is_successful ≡ true
    pub whole_body : image cs ≡ served reply.reads
    pub sized : u32 (length (image cs)) ≡ expected_size
    pub contiguous : IsContiguous cs

  abbrev pub Harmless : Text → ℕ → Session W → Type 0
  Harmless url size s = IsInactive s.calls ⊎ IsInstalled url size s.calls

  abbrev pub Verdict : Text → ℕ → Session W → Bool → Type 0
  Verdict url size s true = IsInstalled url size s.calls × (is_activated s.calls ≡ true)
  Verdict url size s false = IsFresh s.calls

  pub installed :
      {url : Text} {size : ℕ} {cs : List Call}
      → IsInstalled url size cs
      → (cs' : List Call) → image cs' ≡ image cs
      → IsContiguous cs'
      → IsInstalled url size cs'
  installed i cs' same c = record {
    slot = i.slot;
    found = i.found;
    located = i.located;
    fits = i.fits;
    before = i.before;
    reply = i.reply;
    answered = i.answered;
    successful = i.successful;
    whole_body = same ∙ i.whole_body;
    sized = ap (λ t. u32 (length t)) same ∙ i.sized;
    contiguous = c;
  }

  -- The end of an install: the image is made active and marked as new.
  activate-Ensures :
      (url : Text) (size : ℕ) (s : Session W)
      → IsInstalled url size s.calls
      → Ensures {H = H} {J = J} {T = T} (Harmless url size) (Verdict url size) (
          follow
            (perform partition activate_next_partition
              (λ cs. world.on_flash cs activate_next_partition)
              s)
            (λ _ t.
              follow
                (perform partition set_state_new (λ cs. world.on_flash cs set_state_new) t)
                (λ _. pure true)))
  activate-Ensures url size s i =
      follow-Ensures (Harmless url size)
        (λ t _. IsInstalled url size t.calls × (is_activated t.calls ≡ true)) (Verdict url size) _ _
        (perform-Ensures (Harmless url size)
          (λ t _. IsInstalled url size t.calls × (is_activated t.calls ≡ true)) partition
          activate_next_partition (λ cs. world.on_flash cs activate_next_partition) s
          (inr (installed i _ refl i.contiguous)) (λ _ _. (installed i _ refl i.contiguous, refl)))
        (λ _ t (i, active).
          follow-Ensures (Harmless url size)
            (λ t _. IsInstalled url size t.calls × (is_activated t.calls ≡ true)) (Verdict url size)
            _ _
            (perform-Ensures (Harmless url size)
              (λ t _. IsInstalled url size t.calls × (is_activated t.calls ≡ true)) partition
              set_state_new (λ cs. world.on_flash cs set_state_new) t
              (inr (installed i _ refl i.contiguous))
              (λ _ _. (installed i _ refl i.contiguous, active)))
            (λ _ t done. done))

  -- What the source does after the reply to the request for the image.
  abbrev replied : ℕ → Reply H → Action H J T W Bool
  replied size reply =
      (if not reply.is_successful then pure false else (λ s.
        follow (download h watch world size reply.reads 0 none s) (λ total.
          if not (total == size) then fail (size_mismatch size total) else (λ s.
            follow
              (perform partition activate_next_partition
                (λ cs. world.on_flash cs activate_next_partition) s)
              (λ _ t.
                follow (perform partition set_state_new (λ cs. world.on_flash cs set_state_new) t)
                  (λ _. pure true))))))

  -- What follows a request for the image that is sent.
  response-Ensures :
      (url : Text) (size slot : ℕ) (found : List Call)
      → world.on_next_partition found ≡ ok slot
      → size ≤ slot
      → (before : List Call) (reply : Reply H) (s : Session W)
      → world.on_send (request url ∷ before) ≡ ok reply
      → IsFresh s.calls
      → Ensures {H = H} {J = J} {T = T}
          (Harmless url size)
          (Verdict url size)
          (replied size reply s)
  response-Ensures url size slot found located fits before reply s answered f =
      if-Ensures (Harmless url size) (Verdict url size) (not reply.is_successful) _ _ s (λ _. f)
        (λ successful.
          follow-Ensures (Harmless url size)
            (λ t n. Complete (image s.calls ++ served reply.reads) n t) (Verdict url size) _ _
            (weaken-Ensures (λ t. IsInactive t.calls) (Harmless url size)
              (λ t n. Complete (image s.calls ++ served reply.reads) n t)
              (λ t n. Complete (image s.calls ++ served reply.reads) n t)
              (download h watch world size reply.reads 0 none s) (λ _ p. inl p) (λ _ _ q. q)
              (download-Ensures h watch world size reply.reads 0 none s (starts s.calls f)))
            (λ total t (w, all).
              if-Ensures (Harmless url size) (Verdict url size) (not (total == size)) _ _ t
                (λ _. inl (w.contiguous, w.inactive))
                (λ same. activate-Ensures url size t (record {
                  slot = slot;
                  found = found;
                  located = located;
                  fits = fits;
                  before = before;
                  reply = reply;
                  answered = answered;
                  successful = not-false reply.is_successful successful;
                  whole_body = all ∙ ap (λ held. held ++ served reply.reads) f.0;
                  sized = sym w.position ∙ same_size total size same;
                  contiguous = w.contiguous;
                }))))

  -- The request for the image, and what follows it.
  request-Ensures :
      (asked url : Text)
      → url ≡ asked
      → (size slot : ℕ) (found : List Call) → world.on_next_partition found ≡ ok slot
      → size ≤ slot
      → (t : Session W) → IsFresh t.calls
      → Ensures {H = H} {J = J} {T = T} (Harmless asked size) (Verdict asked size) (
          follow
            (perform http (request url) (λ cs. world.on_request cs url) t)
            (λ _ t. follow (perform http send_request world.on_send t) (replied size)))
  request-Ensures asked url e size slot found located fits t f =
      follow-Ensures (Harmless asked size)
        (λ t' _. IsFresh t'.calls × (t'.calls ≡ request asked ∷ t.calls)) (Verdict asked size) _ _
        (perform-Ensures (Harmless asked size)
          (λ t' _. IsFresh t'.calls × (t'.calls ≡ request asked ∷ t.calls)) http (request url)
          (λ cs. world.on_request cs url) t (inl f.1) (λ _ _. (f, ap (λ u. request u ∷ t.calls) e)))
        (λ _ t' (f, same).
          follow-Ensures (Harmless asked size)
            (λ t'' reply. IsFresh t''.calls × (world.on_send (request asked ∷ t.calls) ≡ ok reply))
            (Verdict asked size) _ _
            (perform-Ensures (Harmless asked size)
              (λ t'' reply.
                IsFresh t''.calls × (world.on_send (request asked ∷ t.calls) ≡ ok reply))
              http send_request world.on_send t' (inl f.1)
              (λ reply a. (f, subst (λ cs. world.on_send cs ≡ ok reply) same a)))
            (λ reply t'' (f, answered).
              response-Ensures asked size slot found located fits t.calls reply t'' answered f))

  pub install-Ensures :
      (ota_server firmware_path : Text) (size : ℕ) (s : Session W)
      → IsFresh s.calls
      → let url = image_url ota_server firmware_path in
        Ensures
          (Harmless url size)
          (Verdict url size)
          (install h watch world ota_server firmware_path size s)
  unfolding install
  install-Ensures server path size s f =
      let asked = image_url server path in
      follow-Ensures (Harmless asked size) (λ t _. IsFresh t.calls) (Verdict asked size) _ _
        (perform-Ensures (Harmless asked size) (λ t _. IsFresh t.calls) partition open_updater
          world.on_open s (inl f.1) (λ _ _. f))
        (λ _ found f.
          follow-Ensures (Harmless asked size)
            (λ t slot. IsFresh t.calls × (world.on_next_partition found.calls ≡ ok slot))
            (Verdict asked size) _ _
            (perform-Ensures (Harmless asked size)
              (λ t slot. IsFresh t.calls × (world.on_next_partition found.calls ≡ ok slot))
              partition next_partition world.on_next_partition found (inl f.1) (λ _ e. (f, e)))
            (λ partition_size t (f, located).
              if-Ensures (Harmless asked size) (Verdict asked size) (ltb partition_size size) _ _ t
                (λ _. inl f.1)
                (λ fits.
                  follow-Ensures (Harmless asked size) (λ t url. IsFresh t.calls × (url ≡ asked))
                    (Verdict asked size) _ _
                    (or_fail-Ensures (Harmless asked size)
                      (λ t url. IsFresh t.calls × (url ≡ asked)) (firmware_url h server path)
                      url_too_long t (inl f.1)
                      (λ url e. (f, firmware_url_asked h server path url e)))
                    (λ url t (f, e).
                      request-Ensures asked url e size partition_size found.calls located
                        (fits_of partition_size size fits) t f))))
