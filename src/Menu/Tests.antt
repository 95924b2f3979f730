-- ===== src/Menu/Tests.antt =====
-- The theorem on the menu, at its first page.
use project_emerge_dropbot_f.Prelude.{ℕ, ◌≡◌, some, length, get_elem?, false}
use project_emerge_dropbot_f.Menu.{
  MenuPage, network, all_pages, next_index, next, page_eq, press, next-cycles,
}

next-cycles_example :
    (get_elem? all_pages (next_index network) ≡ some (next network))
    × (page_eq (next network) network ≡ false)
    × (press (length all_pages) network ≡ network)
    × ((q : MenuPage) → (n : ℕ) × (press n network ≡ q))
next-cycles_example = next-cycles network
