-- ===== src/Display/Layout/Content.antt =====
-- The lines of a message hold its words in their order.
use mathlib.Core.List.{append-nil, append_assoc}
use project_emerge_dropbot_f.Prelude.{
  ℕ, zero, suc, ◌≡◌, refl, sym, ap, ◌∙◌, ◌⊎◌, inl, inr, Bool, true, false, Option, none, some, List,
  [], ◌∷◌, ◌++◌, length, take, drop, take-append-drop, if◌then◌else◌, Bool-cases,
}
use project_emerge_dropbot_f.Prelude.Text.{Text}
use project_emerge_dropbot_f.Network.Heapless.{concat}
use project_emerge_dropbot_f.Display.Layout.{
  is_whitespace, keep_before, trim_start, trim_end, trim, scan, or_at, wrap, wrap_message,
}

-- A text without its white space.
abbrev pub solid : Text → Text
solid [] = []
solid (c ∷ cs) = if is_whitespace c then solid cs else c ∷ solid cs

solid-append : (s t : Text) → solid (s ++ t) ≡ solid s ++ solid t
solid-append [] t = refl
solid-append (c ∷ cs) t = elim (Bool-cases (is_whitespace c)) [
  | inl e ↦ rw e (solid-append cs t)
  | inr e ↦ rw e (ap (λ xs. c ∷ xs) (solid-append cs t))
]

solid-trim_start : (t : Text) → solid (trim_start t) ≡ solid t
unfolding trim_start
solid-trim_start [] = refl
solid-trim_start (c ∷ cs) = elim (Bool-cases (is_whitespace c)) [
  | inl e ↦ rw e (solid-trim_start cs)
  | inr e ↦ rw (e, e)
]

solid-keep_before :
    (b : Bool) (c : ℕ) (cs : Text)
    → is_whitespace c ≡ b
    → solid (keep_before b c cs) ≡ solid (c ∷ cs)
solid-keep_before true c [] e = rw e
solid-keep_before true c (d ∷ cs) e = refl
solid-keep_before false c [] e = refl
solid-keep_before false c (d ∷ cs) e = refl

solid_cons : (c : ℕ) (s t : Text) → solid s ≡ solid t → solid (c ∷ s) ≡ solid (c ∷ t)
solid_cons c s t h = rw h

solid-trim_end : (t : Text) → solid (trim_end t) ≡ solid t
unfolding trim_end
solid-trim_end [] = refl
solid-trim_end (c ∷ cs) =
    solid-keep_before (is_whitespace c) c (trim_end cs) refl
    ∙ solid_cons c (trim_end cs) cs (solid-trim_end cs)

abbrev pub Holds : ℕ → Text → List Text → Type 0
Holds free rest lines =
    (dropped : Text) × (solid rest ≡ solid (concat lines) ++ dropped)
    × ((dropped ≡ []) ⊎ (length lines ≡ free))

split_solid :
    (n : ℕ) (rest more dropped : Text)
    → solid (trim_start (drop n rest)) ≡ solid more ++ dropped
    → solid rest ≡ solid (trim_end (take n rest) ++ more) ++ dropped
split_solid n rest more dropped same =
    ap solid (sym (take-append-drop n rest))
    ∙ solid-append (take n rest) (drop n rest)
    ∙ ap (λ t. solid (take n rest) ++ t) (sym (solid-trim_start (drop n rest)) ∙ same)
    ∙ sym (append_assoc (solid (take n rest)) (solid more) dropped)
    ∙ ap (λ t. (t ++ solid more) ++ dropped) (sym (solid-trim_end (take n rest)))
    ∙ ap (λ t. t ++ dropped) (sym (solid-append (trim_end (take n rest)) more))

split-Holds :
    (free : ℕ) (rest : Text) (r : Option ℕ × Option ℕ) (tail : ℕ → List Text)
    → ((at : ℕ) → Holds free (trim_start (drop at rest)) (tail at))
    → Holds (suc free) rest (elim r.0 as (λ _. List Text) [
      | none ↦ rest ∷ []
      | some at ↦ trim_end (take (or_at r.1 at) rest) ∷ tail (or_at r.1 at)
    ])
split-Holds free rest (none, last) tail h = ([], rw (append-nil, append-nil), inl refl)
split-Holds free rest (some at, last) tail h =
    let n = or_at last at in
    let (dropped, same, why) = h n in
    (
      dropped,
      split_solid n rest (concat (tail n)) dropped same,
      elim why [ inl e ↦ inl e | inr e ↦ inr (ap suc e) ],
    )

wrap-Holds : (free : ℕ) (rest : Text) → Holds free rest (wrap free rest)
unfolding wrap
wrap-Holds zero rest = (solid rest, refl, inr refl)
wrap-Holds (suc free) [] = ([], refl, inl refl)
wrap-Holds (suc free) (c ∷ cs) =
    split-Holds free (c ∷ cs) (scan 0 none (c ∷ cs))
      (λ at. wrap free (trim_start (drop at (c ∷ cs))))
      (λ at. wrap-Holds free (trim_start (drop at (c ∷ cs))))

-- White space aside, the lines of a message are the beginning of it, with every character once and in
-- its place; and they are all of it unless there are three lines.
pub wrap_message-Holds : (text : Text) → Holds 3 text (wrap_message text)
unfolding wrap_message trim
wrap_message-Holds text =
    let (dropped, same, why) = wrap-Holds 3 (trim text) in
    (dropped, sym (solid-trim_end (trim_start text) ∙ solid-trim_start text) ∙ same, why)
