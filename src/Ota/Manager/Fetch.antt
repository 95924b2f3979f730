-- ===== src/Ota/Manager/Fetch.antt =====
-- The request for the manifest, and what is known of the path and the size that it gives.

use mathlib.Core.List.{append-nil}
use mathlib.Core.Path.{subst}
use project_emerge_dropbot_f.Prelude.{
  ℕ, ◌≡◌, refl, ap, true, false, not, Option, none, some, List, [], ◌∷◌, ◌∙◌, map_err, ok,
  if◌then◌else◌,
}
use project_emerge_dropbot_f.Prelude.Text.{Text, text_eq}
use project_emerge_dropbot_f.Sync.{Watch}
use project_emerge_dropbot_f.Network.Heapless.{Heapless, write_pieces}
use project_emerge_dropbot_f.Ota.Status.{FirmwareManifest, OtaStatus, preparing}
use project_emerge_dropbot_f.Ota.Manager.{
  http, json, url_too_long, Call, request, send_request, read_body, show, World, Session, Action,
  ◌>>=◌, ◌>>◌, pure, perform, follow, or_fail, whole, publish_status, send_status, is_shown,
  url_buffer_size, publishing, fetch_manifest,
}
use project_emerge_dropbot_f.Ota.Manager.Urls.{latest_url, whole-concat}
use project_emerge_dropbot_f.Ota.Manager.Ensures.{
  Ensures, follow-Ensures, perform-Ensures, reply-Ensures, or_fail-Ensures, if-Ensures,
}
use project_emerge_dropbot_f.Ota.Manager.Download.{IsFresh}

module _ {H J T W : Type 0} (h : Heapless) (watch : Watch W OtaStatus) (world : World H J T) where
  -- A request for the server's manifest was answered, and the manifest names another version.
  pub record IsFound (version server : Text) (manifest : FirmwareManifest) : Type 0 where
    pub before : List Call
    pub body : Text
    pub answered :
        world.on_read_body (send_request ∷ request (latest_url server) ∷ before) ≡ ok body
    pub parsed : world.parse body ≡ ok manifest
    pub newer : text_eq manifest.version version ≡ false

  -- The path and the size that are handed on are those of a manifest that was found.
  pub record IsPromise (version server path : Text) (size : ℕ) : Type 0 where
    pub manifest : FirmwareManifest
    pub found : IsFound version server manifest
    pub located : path ≡ manifest.url
    pub promised : size ≡ manifest.size

  abbrev pub Fetched : Text → Text → Session W → Option (Text × ℕ) → Type 0
  Fetched version server s none = IsFresh s.calls
  Fetched version server s (some (path, size)) =
      IsFresh s.calls × IsPromise version server path size

  -- What a status shown does not change holds after it is published.
  pub publish_status-keeps :
      (P : List Call → Type 0) (status : OtaStatus) (s : Session W)
      → ((cs : List Call) → P cs → P (show status ∷ cs))
      → P s.calls
      → P (publish_status h watch world status s).calls
  unfolding publish_status send_status
  publish_status-keeps P status s keeps p =
      elim (is_shown (watch.try_get s.watch) status)
        as (λ b. P (if b then s else send_status h watch world status s).calls) [
          | true ↦ p
          | false ↦ keeps s.calls p
        ]

  -- What the source does with a body that was read, and with a manifest that names another version.
  abbrev accept : FirmwareManifest → Action H J T W (Option (Text × ℕ))
  accept manifest =
      publishing h watch world preparing
      >> (or_fail (whole (write_pieces h url_buffer_size [] (manifest.url ∷ []))) url_too_long
          >>= λ path. pure (some (path, manifest.size)))

  abbrev examine : Text → Text → Action H J T W (Option (Text × ℕ))
  examine version body = (λ s. (s, map_err json (world.parse body))) >>= λ manifest.
      if text_eq manifest.version version then pure none else accept manifest

  promise-Ensures :
      (version server : Text) (manifest : FirmwareManifest) (t : Session W)
      → IsFresh t.calls
      → IsFound version server manifest
      → Ensures (λ t. IsFresh t.calls) (Fetched version server) (accept manifest t)
  unfolding publishing
  promise-Ensures version server manifest t f found =
      let t' = publish_status h watch world preparing t in
      let fresh = publish_status-keeps IsFresh preparing t (λ _ f. f) f in
      follow-Ensures (λ t. IsFresh t.calls) (λ t path. IsFresh t.calls × (path ≡ manifest.url))
        (Fetched version server)
        (or_fail (whole (write_pieces h url_buffer_size [] (manifest.url ∷ []))) url_too_long t') _
        (or_fail-Ensures (λ t. IsFresh t.calls) (λ t path. IsFresh t.calls × (path ≡ manifest.url))
          _ url_too_long t' fresh
          (λ path e. (
            fresh,
            whole-concat h url_buffer_size (manifest.url ∷ []) path e ∙ append-nil manifest.url,
          )))
        (λ path t (f, located).
          (f, record { manifest = manifest; found = found; located = located; promised = refl }))

  -- What the reply to the request for the manifest leads to.
  read-Ensures :
      (version server : Text) (before : List Call) (s : Session W)
      → s.calls ≡ send_request ∷ request (latest_url server) ∷ before
      → IsFresh s.calls
      → Ensures
          (λ t. IsFresh t.calls)
          (Fetched version server)
          (follow (perform http read_body world.on_read_body s) (examine version))
  read-Ensures version server before s asked f =
      follow-Ensures (λ t. IsFresh t.calls)
        (λ t body.
          IsFresh t.calls
          × (world.on_read_body (send_request ∷ request (latest_url server) ∷ before) ≡ ok body))
        (Fetched version server) _ _
        (perform-Ensures (λ t. IsFresh t.calls)
          (λ t body.
            IsFresh t.calls
            × (world.on_read_body (send_request ∷ request (latest_url server) ∷ before) ≡ ok body))
          http read_body world.on_read_body s f
          (λ body e. (f, subst (λ cs. world.on_read_body cs ≡ ok body) asked e)))
        (λ body t (f, answered).
          follow-Ensures (λ t. IsFresh t.calls)
            (λ t manifest. IsFresh t.calls × (world.parse body ≡ ok manifest))
            (Fetched version server) _ _
            (reply-Ensures (λ t. IsFresh t.calls)
              (λ t manifest. IsFresh t.calls × (world.parse body ≡ ok manifest)) json t
              (world.parse body) f (λ _ e. (f, e)))
            (λ manifest t (f, parsed).
              if-Ensures (λ t. IsFresh t.calls) (Fetched version server)
                (text_eq manifest.version version) _ _ t (λ _. f)
                (λ newer. promise-Ensures version server manifest t f (record {
                  before = before;
                  body = body;
                  answered = answered;
                  parsed = parsed;
                  newer = newer;
                }))))

  pub fetch_manifest-Ensures :
      (version server url : Text) (s : Session W)
      → url ≡ latest_url server
      → IsFresh s.calls
      → Ensures
          (λ t. IsFresh t.calls)
          (Fetched version server)
          (fetch_manifest h watch world version url s)
  unfolding fetch_manifest publishing
  fetch_manifest-Ensures version server url s e f =
      let asked = request (latest_url server) ∷ s.calls in
      follow-Ensures (λ t. IsFresh t.calls) (λ t _. IsFresh t.calls × (t.calls ≡ asked))
        (Fetched version server) _ _
        (perform-Ensures (λ t. IsFresh t.calls) (λ t _. IsFresh t.calls × (t.calls ≡ asked)) http
          (request url) (λ cs. world.on_request cs url) s f
          (λ _ _. (f, ap (λ u. request u ∷ s.calls) e)))
        (λ _ t (f, same).
          follow-Ensures (λ t. IsFresh t.calls)
            (λ t _. IsFresh t.calls × (t.calls ≡ send_request ∷ asked)) (Fetched version server) _ _
            (perform-Ensures (λ t. IsFresh t.calls)
              (λ t _. IsFresh t.calls × (t.calls ≡ send_request ∷ asked)) http send_request
              world.on_send t f (λ _ _. (f, ap (λ cs. send_request ∷ cs) same)))
            (λ response t (f, same).
              if-Ensures (λ t. IsFresh t.calls) (Fetched version server)
                (not response.is_successful) _ _ t (λ _. f)
                (λ _. read-Ensures version server s.calls t same f)))
