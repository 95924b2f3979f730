-- ===== src/Menu.antt =====
-- src/data/menu.rs: the pages of the on-device menu, walked in the order of their table.
mod Tests
use project_emerge_dropbot_f.Prelude.{
  ℕ, ◌+◌, ◌%◌, ◌≡◌, refl, Bool, true, false, Option, none, some, List, [], ◌∷◌, length, get_or,
  get_elem?, if◌then◌else◌, zero, suc,
}

pub data MenuPage : Type 0 where
  network battery : MenuPage

unfoldable pub page_eq : MenuPage → MenuPage → Bool
page_eq network network = true
page_eq battery battery = true
page_eq _ _ = false

abbrev pub all_pages : List MenuPage
all_pages = network ∷ battery ∷ []

-- `iter().position(|page| *page == self)`
unfoldable pub position : MenuPage → List MenuPage → Option ℕ
unfolding page_eq
position p [] = none
position p (q ∷ qs) =
    if page_eq q p then some 0 else elim (position p qs) [ none ↦ none | some i ↦ some (suc i) ]

abbrev pub unwrap_or {ℓ} : {A : Type ℓ} → Option A → A → A
unwrap_or none d = d
unwrap_or (some a) d = a

-- The index that `next` reads the table at.
unfoldable pub next_index : MenuPage → ℕ
unfolding position
next_index p = (unwrap_or (position p all_pages) 0 + 1) % length all_pages

unfoldable pub next : MenuPage → MenuPage
unfolding next_index
next p = get_or all_pages (next_index p) network

abbrev pub press : ℕ → MenuPage → MenuPage
press zero p = p
press (suc n) p = press n (next p)

-- The table is never read out of range; a press always shows another page; as many presses as there
-- are pages lead back to the page that they began at; and every page is reached by presses from
-- every other.
pub next-cycles :
    (p : MenuPage)
    → (get_elem? all_pages (next_index p) ≡ some (next p))
      × (page_eq (next p) p ≡ false)
      × (press (length all_pages) p ≡ p)
      × ((q : MenuPage) → (n : ℕ) × (press n p ≡ q))
unfolding next
next-cycles network = (
  refl,
  refl,
  refl,
  λ q. elim q as (λ r. (n : ℕ) × (press n network ≡ r)) [
    | network ↦ (0, refl)
    | battery ↦ (1, refl)
  ],
)
next-cycles battery = (
  refl,
  refl,
  refl,
  λ q. elim q as (λ r. (n : ℕ) × (press n battery ≡ r)) [
    | network ↦ (1, refl)
    | battery ↦ (0, refl)
  ],
)
