-- ===== src/Network/Configuration.antt =====
-- src/data/configurations.rs: the configuration of the update server, and what its validation means
-- for the URLs that the update task builds from it. Texts are their UTF-8 bytes.
mod Tests
use project_emerge_dropbot_f.Prelude.{
  ℕ, ◌+◌, ◌≤◌, ◌≡◌, ◌≢◌, ◌↔◌, refl, sym, ap, ◌∙◌, Bool, true, false, not, ◌&&◌, ◌||◌, Option, none,
  some, List, [], ◌∷◌, ◌++◌, length, length-append, ◌==◌, if◌then◌else◌, arith, Bool-cases, inl,
  inr,
}
use project_emerge_dropbot_f.Prelude.Text.{Text, codes}
use project_emerge_dropbot_f.Network.Heapless.{Heapless, write_pieces, write_pieces-fits, concat}
use project_emerge_dropbot_f.Ota.Manager.{manifest_url, whole}

abbrev pub ota_server_max_len : ℕ
ota_server_max_len = 96

pub record OtaConfiguration : Type 0 where
  pub server : Text

abbrev pub is_ascii_whitespace : ℕ → Bool
is_ascii_whitespace byte = byte == 32 || (byte == 9 || (byte == 10 || (byte == 12 || byte == 13)))

unfoldable pub is_forbidden : ℕ → Bool
is_forbidden byte = is_ascii_whitespace byte || (byte == 47 || (byte == 35 || byte == 63))

-- `bytes().any(..)`
unfoldable pub any_forbidden : Text → Bool
any_forbidden [] = false
any_forbidden (b ∷ bs) = is_forbidden b || any_forbidden bs

abbrev pub is_empty : Text → Bool
is_empty [] = true
is_empty (b ∷ bs) = false

unfoldable pub is_valid : OtaConfiguration → Bool
is_valid c = not (is_empty c.server) && not (any_forbidden c.server)

-- The authority of a URL behind its scheme, as RFC 3986 has it: up to a slash, a question mark or a
-- number sign.
abbrev pub ends_authority : ℕ → Bool
ends_authority byte = byte == 47 || (byte == 63 || byte == 35)

unfoldable pub authority_of : Text → Text
authority_of [] = []
authority_of (b ∷ bs) = let rest = authority_of bs in if ends_authority b then [] else b ∷ rest

abbrev pub drop_text : Text → Text → Option Text
drop_text [] t = some t
drop_text (p ∷ ps) [] = none
drop_text (p ∷ ps) (b ∷ bs) = if p == b then drop_text ps bs else none

abbrev pub authority : Text → Option Text
authority url = elim (drop_text (codes "http://") url) [
  | none ↦ none
  | some rest ↦ some (authority_of rest)
]

clean_cons :
    (b : ℕ) (bs : Text)
    → any_forbidden (b ∷ bs) ≡ false
    → (ends_authority b ≡ false) × (any_forbidden bs ≡ false)
unfolding any_forbidden is_forbidden
clean_cons b bs h = ground arith

authority_of-append :
    (server path : Text)
    → any_forbidden server ≡ false
    → authority_of (server ++ 47 ∷ path) ≡ server
unfolding any_forbidden authority_of is_forbidden
authority_of-append [] path h = refl
authority_of-append (b ∷ bs) path h =
    let (e, clean) = clean_cons b bs h in rw (e, authority_of-append bs path clean)

valid_clean : (c : OtaConfiguration) → is_valid c ≡ true → any_forbidden c.server ≡ false
unfolding is_valid
valid_clean c v = ground arith

abbrev url_pieces : Text → List Text
url_pieces server = codes "http://" ∷ server ∷ codes "/api/firmware/latest" ∷ []

url_fits :
    (server : Text)
    → length server ≤ ota_server_max_len
    → length {A = ℕ} [] + length (concat (url_pieces server)) ≤ 128
url_fits server fit = omega (arith, length-append server (codes "/api/firmware/latest"))

-- A valid configuration of at most 96 bytes gives the URL of the manifest: it fits its buffer of 128
-- bytes, and the authority that a reader of the URL finds in it is the configured server, no more and
-- no less.
pub authority-manifest_url :
    (h : Heapless) (c : OtaConfiguration)
    → length c.server ≤ ota_server_max_len
    → is_valid c ≡ true
    → (url : Text) × (manifest_url h c.server ≡ some url) × (authority url ≡ some c.server)
unfolding manifest_url
authority-manifest_url h c fit v = (
  concat (url_pieces c.server),
  ap whole (write_pieces-fits h 128 [] (url_pieces c.server) (url_fits c.server fit)),
  ap some (authority_of-append c.server (codes "api/firmware/latest") (valid_clean c v)),
)
