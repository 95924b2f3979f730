-- ===== src/Display/Layout/Fit.antt =====
-- The lines of a message are few enough and short enough, and no text runs past the border.
use project_emerge_dropbot_f.Prelude.{
  ℕ, zero, suc, ◌+◌, ◌-◌, ◌*◌, ◌/◌, ◌≤◌, ◌≡◌, refl, ◌⊎◌, inl, inr, Bool, true, false, Option, none,
  some, List, [], ◌∷◌, length, length-take, take, drop, ◌==◌, if◌then◌else◌, arith, Bool-cases,
  ==_iff, le_or_lt, ◌<◌, ap,
}
use project_emerge_dropbot_f.Prelude.Text.{Text}
use project_emerge_dropbot_f.Display.Layout.{
  text_width, centered_x, right_aligned_x, clip_to_row, is_whitespace, keep_before, trim_start,
  trim_end, scan, or_at, trim, wrap, wrap_message,
}

abbrev pub IsBounded : Option ℕ → Type 0
IsBounded none = Unit {0}
IsBounded (some space) = space ≤ 20

abbrev pub Scanned : ℕ → Text → Option ℕ × Option ℕ → Type 0
Scanned index text (none, last) = index + length text ≤ 20
Scanned index text (some at, last) = (at ≡ 20) × IsBounded last

below : (index : ℕ) → index ≤ 20 → (index == 20) ≡ false → suc index ≤ 20
below index small e = ground arith

IsBounded-if :
    (b : Bool) (index : ℕ) (last : Option ℕ)
    → index ≤ 20
    → IsBounded last
    → IsBounded (if b then some index else last)
IsBounded-if true index last small b = small
IsBounded-if false index last small b = b

shift :
    (index c : ℕ) (cs : Text) (r : Option ℕ × Option ℕ)
    → Scanned (suc index) cs r
    → Scanned index (c ∷ cs) r
shift index c cs (none, last) s = omega arith
shift index c cs (some at, last) s = s

pub scan-Scanned :
    (index : ℕ) (last : Option ℕ) (text : Text)
    → index ≤ 20
    → IsBounded last
    → Scanned index text (scan index last text)
unfolding scan
scan-Scanned index last [] small b = omega arith
scan-Scanned index last (c ∷ cs) small b = elim (Bool-cases (index == 20)) [
  | inl e ↦ rw e ((==_iff index 20).0 e, b)
  | inr e ↦ rw e (
      shift index c cs (scan (suc index) (if c == 32 then some index else last) cs) (
        scan-Scanned (suc index) (if c == 32 then some index else last) cs (below index small e)
          (IsBounded-if (c == 32) index last small b)))
]

keep_before-length :
    (b : Bool) (c : ℕ) (cs : Text) (n : ℕ) → length cs ≤ n → length (keep_before b c cs) ≤ suc n
keep_before-length true c [] n h = omega arith
keep_before-length true c (d ∷ cs) n h = omega arith
keep_before-length false c [] n h = omega arith
keep_before-length false c (d ∷ cs) n h = omega arith

trim_end-length : (t : Text) → length (trim_end t) ≤ length t
unfolding trim_end
trim_end-length [] = omega arith
trim_end-length (c ∷ cs) =
    keep_before-length (is_whitespace c) c (trim_end cs) (length cs) (trim_end-length cs)

-- Every line fits
abbrev pub AllFit : List Text → Type 0
AllFit [] = Unit {0}
AllFit (line ∷ lines) =
    (length line ≤ 20) × (centered_x line + text_width line ≤ 128) × AllFit lines

centered_x-fits : (line : Text) → length line ≤ 20 → centered_x line + text_width line ≤ 128
unfolding centered_x text_width
centered_x-fits line h = omega arith

or_at_bound : (last : Option ℕ) (at : ℕ) → at ≡ 20 → IsBounded last → or_at last at ≤ 20
or_at_bound none at e b = omega arith
or_at_bound (some space) at e b = b

line_bound : (n : ℕ) (rest : Text) → n ≤ 20 → length (trim_end (take n rest)) ≤ 20
line_bound n rest h = omega (arith, trim_end-length (take n rest), length-take n rest)

split-fits :
    (free : ℕ) (rest : Text) (r : Option ℕ × Option ℕ) (tail : ℕ → List Text)
    → Scanned 0 rest r
    → ((at : ℕ) → (length (tail at) ≤ free) × AllFit (tail at))
    → let lines = elim r.0 as (λ _. List Text) [
      | none ↦ rest ∷ []
      | some at ↦ trim_end (take (or_at r.1 at) rest) ∷ tail (or_at r.1 at)
    ] in
      (length lines ≤ suc free) × AllFit lines
split-fits free rest (none, last) tail s fit =
    let short : length rest ≤ 20 = omega arith in
    (omega arith, (short, centered_x-fits rest short, tt))
split-fits free rest (some at, last) tail (e, b) fit =
    let short = line_bound (or_at last at) rest (or_at_bound last at e b) in
    let (few, all) = fit (or_at last at) in
    (omega arith, (short, centered_x-fits (trim_end (take (or_at last at) rest)) short, all))

wrap-fits : (free : ℕ) (rest : Text) → (length (wrap free rest) ≤ free) × AllFit (wrap free rest)
unfolding wrap
wrap-fits zero rest = (omega arith, tt)
wrap-fits (suc free) [] = (omega arith, tt)
wrap-fits (suc free) (c ∷ cs) =
    split-fits free (c ∷ cs) (scan 0 none (c ∷ cs))
      (λ at. wrap free (trim_start (drop at (c ∷ cs))))
      (scan-Scanned 0 none (c ∷ cs) (omega arith) tt)
      (λ at. wrap-fits free (trim_start (drop at (c ∷ cs))))

-- A message of any length wraps to at most three lines, each of at most twenty characters, which
-- centred do not run past the panel's 128 pixels.
pub wrap_message-fits :
    (text : Text) → (length (wrap_message text) ≤ 3) × AllFit (wrap_message text)
unfolding wrap_message
wrap_message-fits text = wrap-fits 3 (trim text)

short_take : (text : Text) (room : ℕ) → length text ≤ room → take room text ≡ text
short_take [] zero short = refl
short_take [] (suc room) short = refl
short_take (c ∷ cs) zero short = absurd (omega arith)
short_take (c ∷ cs) (suc room) short = ap (λ t. c ∷ t) (short_take cs room (omega arith))

-- In a row, a value that is clipped at any column up to the border ends there at the latest, and loses
-- nothing unless it would run past the border; a text against the right border ends exactly there,
-- unless it is wider than the row.
pub row-fits :
    (text : Text) (x : ℕ)
    → x ≤ 124
    → (x + text_width (clip_to_row text x) ≤ 124)
      × ((clip_to_row text x ≡ text) ⊎ (124 < x + text_width text))
      × ((right_aligned_x text + text_width text ≡ 124) ⊎ (124 < text_width text))
unfolding text_width clip_to_row right_aligned_x
row-fits text x h = (
  omega (arith, length-take ((124 - x) / 6) text),
  elim (le_or_lt (x + length text * 6) 124) [
    | inl fits ↦ inl (short_take text ((124 - x) / 6) (omega arith))
    | inr wide ↦ inr wide
  ],
  omega arith,
)
