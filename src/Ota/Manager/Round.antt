-- ===== src/Ota/Manager/Round.antt =====
-- A check for an update as a whole, and a round of the task around it.
use mathlib.Core.Bool.{false≢true}
use mathlib.Core.Path.{subst}
use project_emerge_dropbot_f.Prelude.{
  ℕ, Bool-cases, ◌≡◌, refl, ap, Bool, true, false, Option, none, some, List, ◌∷◌, ◌⊎◌, inl, inr,
  Result, ok, err, arith,
}
use project_emerge_dropbot_f.Prelude.Text.{Text}
use project_emerge_dropbot_f.Sync.{Watch}
use project_emerge_dropbot_f.Network.Heapless.{Heapless}
use project_emerge_dropbot_f.Ota.Status.{FirmwareManifest, OtaStatus, idle, applying}
use project_emerge_dropbot_f.Ota.Manager.{
  OtaError, url_too_long, Call, show, reset, World, Session, manifest_url, publish_status,
  send_status, status_eq, is_shown, round, conclude, fetch_manifest, install, install_found,
  check_and_apply_update,
}
use project_emerge_dropbot_f.Ota.Manager.Urls.{image_url, latest_url, manifest_url_latest}
use project_emerge_dropbot_f.Ota.Manager.Fetch.{
  IsFound, IsPromise, Fetched, publish_status-keeps, fetch_manifest-Ensures,
}
use project_emerge_dropbot_f.Ota.Manager.Ensures.{
  Ensures, follow-Ensures, or_fail-Ensures, weaken-Ensures,
}
use project_emerge_dropbot_f.Ota.Manager.Download.{IsFresh, is_activated, IsInactive}
use project_emerge_dropbot_f.Ota.Manager.Install.{
  IsInstalled, installed, Harmless, Verdict, install-Ensures,
}

status_eq_sound : (a b : OtaStatus) → status_eq a b ≡ true → a ≡ b
unfolding status_eq
status_eq_sound a b h = ground arith

is_shown_sound : (o : Option OtaStatus) (b : OtaStatus) → is_shown o b ≡ true → o ≡ some b
is_shown_sound none b h = absurd (false≢true h)
is_shown_sound (some a) b h = ap some (status_eq_sound a b h)

module _ {H J T W : Type 0} (h : Heapless) (watch : Watch W OtaStatus) (world : World H J T) where
  -- An update was found, and the slot holds what the server serves at the path of its manifest.
  pub record IsUpdated (version server : Text) (cs : List Call) : Type 0 where
    pub manifest : FirmwareManifest
    pub found : IsFound h watch world version server manifest
    pub installed : IsInstalled h watch world (image_url server manifest.url) manifest.size cs

  abbrev pub Stays : Text → Text → Session W → Type 0
  Stays version server s = IsInactive s.calls ⊎ IsUpdated version server s.calls

  abbrev pub Checked : Text → Text → Session W → Bool → Type 0
  Checked version server s true = IsUpdated version server s.calls × (is_activated s.calls ≡ true)
  Checked version server s false = IsFresh s.calls

  updated :
      (version server path : Text) (size : ℕ) (cs : List Call)
      → IsPromise h watch world version server path size
      → IsInstalled h watch world (image_url server path) size cs
      → IsUpdated version server cs
  updated version server path size cs p i = record {
    manifest = p.manifest;
    found = p.found;
    installed =
        subst (λ n. IsInstalled h watch world (image_url server p.manifest.url) n cs) p.promised
          (subst (λ u. IsInstalled h watch world (image_url server u) size cs) p.located i);
  }

  stays :
      (version server path : Text) (size : ℕ) (t : Session W)
      → IsPromise h watch world version server path size
      → Harmless h watch world (image_url server path) size t
      → Stays version server t
  stays version server path size t p (inl c) = inl c
  stays version server path size t p (inr i) = inr (updated version server path size t.calls p i)

  checked :
      (version server path : Text) (size : ℕ) (b : Bool) (t : Session W)
      → IsPromise h watch world version server path size
      → Verdict h watch world (image_url server path) size t b
      → Checked version server t b
  checked version server path size true t p (i, a) =
      (updated version server path size t.calls p i, a)
  checked version server path size false t p f = f

  IsUpdated-show :
      (version server : Text) (status : OtaStatus) (cs : List Call)
      → IsUpdated version server cs
      → IsUpdated version server (show status ∷ cs)
  IsUpdated-show version server status cs u = record {
    manifest = u.manifest;
    found = u.found;
    installed = installed h watch world u.installed (show status ∷ cs) refl u.installed.contiguous;
  }

  install_found-Ensures :
      (version server : Text) (found : Option (Text × ℕ)) (s : Session W)
      → Fetched h watch world version server s found
      → Ensures
          (Stays version server)
          (Checked version server)
          (install_found h watch world server found s)
  unfolding install_found
  install_found-Ensures version server none s f = f
  install_found-Ensures version server (some (path, size)) s (f, p) =
      let url = image_url server path in
      weaken-Ensures (Harmless h watch world url size) (Stays version server)
        (Verdict h watch world url size) (Checked version server)
        (install h watch world server path size s) (λ t c. stays version server path size t p c)
        (λ b t q. checked version server path size b t p q)
        (install-Ensures h watch world server path size s f)

  -- A check for an update that starts with an unwritten slot writes it contiguously. Where the check
  -- reports an update, a body that was read from the server, after a request for
  -- "http://<server>/api/firmware/latest", parses as a manifest that names another version, and the slot
  -- is active and holds the whole body of a successful reply to a request for "http://<server><path>",
  -- with the manifest's path; the body is of the manifest's size modulo 2 ^ 32, and that size is not
  -- larger than the slot that the partition table gave. Where the check reports that there is none,
  -- nothing was written. Where it fails, the slot is not active, or it holds all that and fits.
  pub check_and_apply_update-Ensures :
      (version server : Text) (s : Session W)
      → IsFresh s.calls
      → Ensures
          (Stays version server)
          (Checked version server)
          (check_and_apply_update h watch world version server s)
  unfolding check_and_apply_update
  check_and_apply_update-Ensures version server s f =
      follow-Ensures (Stays version server) (λ t url. IsFresh t.calls × (url ≡ latest_url server))
        (Checked version server) _ _
        (or_fail-Ensures (Stays version server)
          (λ t url. IsFresh t.calls × (url ≡ latest_url server)) (manifest_url h server)
          url_too_long s (inl f.1) (λ url e. (f, manifest_url_latest h server url e)))
        (λ url t (f, e).
          follow-Ensures (Stays version server) (Fetched h watch world version server)
            (Checked version server) (fetch_manifest h watch world version url t) _
            (weaken-Ensures (λ t. IsFresh t.calls) (Stays version server)
              (Fetched h watch world version server) (Fetched h watch world version server)
              (fetch_manifest h watch world version url t) (λ _ p. inl p.1) (λ _ _ q. q)
              (fetch_manifest-Ensures h watch world version server url t e f))
            (λ found t g. install_found-Ensures version server found t g))

  pub publish_status-shows :
      (status : OtaStatus) (s : Session W)
      → watch.try_get (publish_status h watch world status s).watch ≡ some status
  unfolding publish_status send_status
  publish_status-shows status s = elim (Bool-cases (is_shown (watch.try_get s.watch) status)) [
    | inl e ↦ rw (e, is_shown_sound (watch.try_get s.watch) status e)
    | inr e ↦ rw (e, watch.try_get-send s.watch status)
  ]

  abbrev pub Settled : Text → Text → Session W → Type 0
  Settled version server t =
      (watch.try_get t.watch ≡ some idle)
      ⊎ ((cs : List Call) × (t.calls ≡ reset ∷ cs)
          × IsUpdated version server cs
          × (is_activated cs ≡ true)
          × (watch.try_get t.watch ≡ some applying))

  conclude-Settled :
      (version server : Text) (r : Session W × Result (OtaError H J T) Bool)
      → Ensures (Stays version server) (Checked version server) r
      → Settled version server (conclude h watch world r)
  unfolding conclude
  conclude-Settled version server (s, ok true) (u, a) = inr (
    _,
    refl,
    publish_status-keeps h watch world (IsUpdated version server) applying s
        (λ cs u. IsUpdated-show version server applying cs u) u,
    publish_status-keeps h watch world (λ cs. is_activated cs ≡ true) applying s (λ _ a. a) a,
    publish_status-shows applying s,
  )
  conclude-Settled version server (s, ok false) e = inl (publish_status-shows idle s)
  conclude-Settled version server (s, err e) p = inl (publish_status-shows idle s)

  -- A round of the task that starts with an unwritten slot ends with the watch at `idle`, so that the
  -- tasks that paused go on, on a watch that showed nothing before as well; or its last call restarts the
  -- board, with the watch at `applying`, and the slot that became active before holds the whole body of a
  -- successful reply to a request for "http://<server><path>", where the path, and the size that the body
  -- has modulo 2 ^ 32 and that fits the slot, are those of a manifest of another version, read from the
  -- server after a request for "http://<server>/api/firmware/latest".
  pub round-Settled :
      (version server : Text) (s : Session W)
      → IsFresh s.calls
      → Settled version server (round h watch world version server s)
  unfolding round
  round-Settled version server s f =
      conclude-Settled version server (check_and_apply_update h watch world version server s)
        (check_and_apply_update-Ensures version server s f)
