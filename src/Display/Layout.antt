-- ===== src/Display/Layout.antt =====
-- src/drivers/display_driver/mod.rs: where texts go on the panel. A text is the list of its
-- characters; offsets in bytes are offsets in characters. The coordinates are signed in the source,
-- and every difference that may be negative is raised to 0 there, which is what `-` of ℕ gives.
pub mod Fit
pub mod Content
mod Tests
use project_emerge_dropbot_f.Prelude.{
  ℕ, zero, suc, ◌+◌, ◌-◌, ◌*◌, ◌/◌, ◌≡◌, Bool, true, false, ◌&&◌, ◌||◌, Option, none, some, List,
  [], ◌∷◌, ◌++◌, length, take, drop, leb, ltb, ◌==◌, if◌then◌else◌,
}
use project_emerge_dropbot_f.Prelude.Text.{Text}

abbrev pub display_width : ℕ
display_width = 128

-- The width of a character of the font, FONT_6X10.
abbrev pub char_width : ℕ
char_width = 6

abbrev pub margin : ℕ
margin = 4

abbrev pub page_value_x : ℕ
page_value_x = 40

abbrev pub screen_message_max_chars : ℕ
screen_message_max_chars = 20

abbrev pub screen_message_max_lines : ℕ
screen_message_max_lines = 3

unfoldable pub text_width : Text → ℕ
text_width text = length text * char_width

unfoldable pub centered_x : Text → ℕ
unfolding text_width
centered_x text = (display_width - text_width text) / 2

unfoldable pub right_aligned_x : Text → ℕ
unfolding text_width
right_aligned_x text = display_width - margin - text_width text

unfoldable pub clip_to_row : Text → ℕ → Text
clip_to_row text x = take ((display_width - margin - x) / char_width) text

-- `char::is_whitespace`: the White_Space property of Unicode.
abbrev between : ℕ → ℕ → ℕ → Bool
between low high c = leb low c && leb c high

unfoldable pub is_whitespace : ℕ → Bool
is_whitespace c =
    between 9 13 c
    || (c == 32
        || (c == 133
            || (c == 160
                || (c == 5760
                    || (between 8192 8202 c
                        || (between 8232 8233 c || (c == 8239 || (c == 8287 || c == 12288))))))))

unfoldable pub trim_start : Text → Text
trim_start [] = []
trim_start (c ∷ cs) = let rest = trim_start cs in if is_whitespace c then rest else c ∷ cs

-- A character ends the text where only white space follows it.
abbrev pub keep_before : Bool → ℕ → Text → Text
keep_before true c [] = []
keep_before _ c cs = c ∷ cs

unfoldable pub trim_end : Text → Text
trim_end [] = []
trim_end (c ∷ cs) = keep_before (is_whitespace c) c (trim_end cs)

unfoldable pub trim : Text → Text
unfolding trim_start trim_end
trim text = trim_end (trim_start text)

-- The offset of the first character that no longer fits, if there is one, and of the last space
-- before it.
unfoldable pub scan : ℕ → Option ℕ → Text → Option ℕ × Option ℕ
scan index last_space [] = (none, last_space)
scan index last_space (c ∷ cs) =
    let rest = scan (suc index) (if c == 32 then some index else last_space) cs in
    if index == screen_message_max_chars then (some index, last_space) else rest

abbrev pub or_at : Option ℕ → ℕ → ℕ
or_at none at = at
or_at (some space) at = space

-- The loop, on the number of lines that are free; the other branch of the length test takes the rest.
unfoldable pub wrap : ℕ → Text → List Text
unfolding trim_start trim_end
wrap zero rest = []
wrap (suc free) [] = []
wrap (suc free) (c ∷ cs) =
    let rest = c ∷ cs in
    let (overflow, last_space) = scan 0 none rest in
    elim overflow [
      | none ↦ rest ∷ []
      | some at ↦
          trim_end (take (or_at last_space at) rest)
          ∷ wrap free (trim_start (drop (or_at last_space at) rest))
    ]

unfoldable pub wrap_message : Text → List Text
unfolding trim wrap
wrap_message text = wrap screen_message_max_lines (trim text)
