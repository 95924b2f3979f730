-- ===== src/Network/Heapless.antt =====
-- The fixed-capacity buffers of the `heapless` crate, which is not part of this repository: an
-- interface with the documented behaviour of `push_str` and `extend_from_slice`, and the `write!`
-- of formatted pieces, which stops at the first piece that does not fit.
use mathlib.Core.Bool.{true≢false}
use mathlib.Core.List.{append-nil, append_assoc}
use project_emerge_dropbot_f.Prelude.{
  le_or_lt, inl, inr, ℕ, ◌+◌, ◌<◌, ◌≤◌, ◌≡◌, Bool, true, false, Option, none, some, List, [], ◌∷◌,
  ◌++◌, length, length-append, leb, sym, ap, ◌∙◌, if◌then◌else◌, arith,
}
use project_emerge_dropbot_f.Prelude.Text.{Text}

pub record Heapless : Type 0 where
  -- Capacity, what is held, what is added; `none` where it does not fit.
  pub push : ℕ → Text → Text → Option Text
  pub push_fits : (cap : ℕ) (s t : Text) → length s + length t ≤ cap → push cap s t ≡ some (s ++ t)
  pub push_full : (cap : ℕ) (s t : Text) → cap < length s + length t → push cap s t ≡ none

module _ (h : Heapless) where
  -- What the buffer holds afterwards, and whether every piece was written.
  unfoldable pub write_pieces : ℕ → Text → List Text → Text × Bool
  write_pieces cap held [] = (held, true)
  write_pieces cap held (t ∷ ts) = elim (h.push cap held t) [
    | none ↦ (held, false)
    | some held' ↦ write_pieces cap held' ts
  ]

abbrev pub concat : List Text → Text
concat [] = []
concat (t ∷ ts) = t ++ concat ts

pub write_pieces-fits :
    (h : Heapless) (cap : ℕ) (held : Text) (ts : List Text)
    → length held + length (concat ts) ≤ cap
    → write_pieces h cap held ts ≡ (held ++ concat ts, true)
unfolding write_pieces
write_pieces-fits h cap held [] fit = rw append-nil
write_pieces-fits h cap held (t ∷ ts) fit =
    rw
      (
        h.push_fits cap held t (omega (arith, length-append t (concat ts))),
        write_pieces,
        ← append_assoc held t (concat ts),
      )
      (write_pieces-fits h cap (held ++ t) ts
        (omega (arith, length-append t (concat ts), length-append held t)))

pub write_pieces-full :
    (h : Heapless) (cap : ℕ) (held : Text) (ts : List Text)
    → cap < length held + length (concat ts)
    → length held ≤ cap
    → (write_pieces h cap held ts).1 ≡ false
unfolding write_pieces
write_pieces-full h cap held [] full fit = absurd (omega arith)
write_pieces-full h cap held (t ∷ ts) full fit = elim (le_or_lt (length held + length t) cap) [
  | inl room ↦
      rw (h.push_fits cap held t room, write_pieces)
        (write_pieces-full h cap (held ++ t) ts
          (omega (arith, length-append t (concat ts), length-append held t))
          (omega (arith, length-append held t)))
  | inr over ↦ rw (h.push_full cap held t over, write_pieces)
]

-- Whatever is written, a buffer holds no more than its capacity.
pub write_pieces_bound :
    (h : Heapless) (cap : ℕ) (held : Text) (ts : List Text)
    → length held ≤ cap
    → length (write_pieces h cap held ts).0 ≤ cap
unfolding write_pieces
write_pieces_bound h cap held [] fit = fit
write_pieces_bound h cap held (t ∷ ts) fit = elim (le_or_lt (length held + length t) cap) [
  | inl room ↦
      rw (h.push_fits cap held t room, write_pieces)
        (write_pieces_bound h cap (held ++ t) ts (omega (arith, length-append held t)))
  | inr over ↦ rw (h.push_full cap held t over, write_pieces) fit
]

-- A text of which all pieces were written is all of them, one behind the other.
pub write_pieces_whole :
    (h : Heapless) (cap : ℕ) (ts : List Text)
    → (write_pieces h cap [] ts).1 ≡ true
    → (write_pieces h cap [] ts).0 ≡ concat ts
write_pieces_whole h cap ts all = elim (le_or_lt (length (concat ts)) cap) [
  | inl room ↦ ap (λ w. w.0) (write_pieces-fits h cap [] ts (omega arith))
  | inr over ↦
      absurd (true≢false (sym all ∙ write_pieces-full h cap [] ts (omega arith) (omega arith)))
]

-- A buffer that behaves so.
unfoldable pub list_push : ℕ → Text → Text → Option Text
list_push cap s t = if leb (length s + length t) cap then some (s ++ t) else none

pub list_push_fits :
    (cap : ℕ) (s t : Text) → length s + length t ≤ cap → list_push cap s t ≡ some (s ++ t)
unfolding list_push
list_push_fits cap s t fit = ground arith

pub list_push_full : (cap : ℕ) (s t : Text) → cap < length s + length t → list_push cap s t ≡ none
unfolding list_push
list_push_full cap s t full = ground arith

abbrev pub list_heapless : Heapless
list_heapless = record { push = list_push; push_fits = list_push_fits; push_full = list_push_full }
