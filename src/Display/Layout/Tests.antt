-- ===== src/Display/Layout/Tests.antt =====
-- The messages that the display task shows.
use project_emerge_dropbot_f.Prelude.{◌≡◌, refl, [], ◌∷◌}
use project_emerge_dropbot_f.Prelude.Text.{codes}
use project_emerge_dropbot_f.Display.Layout.{is_whitespace, scan, wrap_message}
use project_emerge_dropbot_f.Display.Layout.Content.{Holds, wrap_message-Holds}

loading_wraps :
    wrap_message (codes "Loading new firmware...") ≡ codes "Loading new" ∷ codes "firmware..." ∷ []
unfolding wrap_message is_whitespace scan
loading_wraps = refl

-- A line that ends exactly at twenty characters before a space is broken at an earlier space.
exact_wraps :
    wrap_message (codes "aaa bbbbbbbbbbbbbbbb cc") ≡ codes "aaa" ∷ codes "bbbbbbbbbbbbbbbb cc" ∷ []
unfolding wrap_message is_whitespace scan
exact_wraps = refl

wrap_message-Holds_example :
    Holds 3 (codes "Loading new firmware...") (wrap_message (codes "Loading new firmware..."))
wrap_message-Holds_example = wrap_message-Holds (codes "Loading new firmware...")
