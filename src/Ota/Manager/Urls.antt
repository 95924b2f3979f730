-- ===== src/Ota/Manager/Urls.antt =====
-- The two URLs that a check asks for, as the texts that they are where the buffers hold them.
use mathlib.Core.List.{append-nil}
use project_emerge_dropbot_f.Prelude.{
  ℕ, ◌≡◌, refl, sym, ◌∙◌, ap, Bool, true, false, some, List, [], ◌∷◌, ◌++◌,
}
use project_emerge_dropbot_f.Prelude.Text.{Text, codes}
use project_emerge_dropbot_f.Network.Heapless.{Heapless, write_pieces, write_pieces_whole, concat}
use project_emerge_dropbot_f.Ota.Manager.{firmware_url, manifest_url, url_buffer_size, whole}

-- The URL under which a server keeps the image at a path of its manifest.
abbrev pub image_url : Text → Text → Text
image_url server path = codes "http://" ++ server ++ path

whole_sound : (w : Text × Bool) (t : Text) → whole w ≡ some t → (w.1 ≡ true) × (w.0 ≡ t)
whole_sound (u, true) t e = (refl, cc)
whole_sound (u, false) t e = cc

-- What a buffer holds after all pieces were written.
pub whole-concat :
    (h : Heapless) (cap : ℕ) (ts : List Text) (t : Text)
    → whole (write_pieces h cap [] ts) ≡ some t
    → t ≡ concat ts
whole-concat h cap ts t e =
    let sound = whole_sound (write_pieces h cap [] ts) t e in
    sym sound.1 ∙ write_pieces_whole h cap ts sound.0

pub firmware_url_asked :
    (h : Heapless) (server path url : Text)
    → firmware_url h server path ≡ some url
    → url ≡ image_url server path
unfolding firmware_url
firmware_url_asked h server path url e =
    whole-concat h url_buffer_size (codes "http://" ∷ server ∷ path ∷ []) url e
    ∙ ap (λ rest. codes "http://" ++ server ++ rest) (append-nil path)

-- The URL of a server's manifest.
abbrev pub latest_url : Text → Text
latest_url server = codes "http://" ++ server ++ codes "/api/firmware/latest"

pub manifest_url_latest :
    (h : Heapless) (server url : Text) → manifest_url h server ≡ some url → url ≡ latest_url server
unfolding manifest_url
manifest_url_latest h server url e =
    whole-concat h url_buffer_size (codes "http://" ∷ server ∷ codes "/api/firmware/latest" ∷ [])
      url e
