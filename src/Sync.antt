-- ===== src/Sync.antt =====
-- src/task_sync.rs: the primitives of the `embassy-sync` crate that tasks share state by. They are not
-- part of this repository: an interface with the documented behaviour that the tasks rely on.
use project_emerge_dropbot_f.Prelude.{
  ℕ, ◌<◌, ◌≤◌, ◌≡◌, refl, sym, ap, ◌∙◌, ◌⊎◌, inl, inr, le_or_lt, Option, none, some, List, [], ◌∷◌,
  ◌++◌, length, ltb, if◌then◌else◌, arith,
}

-- A watch: the value that was last sent, for those that look, and `none` before the first.
pub record Watch (W A : Type 0) : Type 0 where
  pub try_get : W → Option A
  pub send : W → A → W
  pub try_get-send : (w : W) (a : A) → try_get (send w a) ≡ some a

-- A watch that keeps the value itself.
abbrev pub option_watch : {A : Type 0} → Watch (Option A) A
option_watch = record { try_get = λ w. w; send = λ w a. some a; try_get-send = λ w a. refl }

-- A channel of bounded capacity: what it holds, the earliest first.
pub record Channel (Q A : Type 0) : Type 0 where
  pub held : Q → List A
  pub capacity : ℕ
  pub try_send : Q → A → Option Q
  pub try_receive : Q → Option (A × Q)
  -- A channel with room takes a value behind those that it holds; one without refuses it.
  pub send_room :
      (q : Q) (a : A)
      → length (held q) < capacity
      → (q' : Q) × (try_send q a ≡ some q') × (held q' ≡ held q ++ a ∷ [])
  pub send_full : (q : Q) (a : A) → capacity ≤ length (held q) → try_send q a ≡ none
  -- One that holds something gives the earliest; one that does not gives nothing.
  pub receive_some :
      (q : Q) (a : A) (rest : List A)
      → held q ≡ a ∷ rest
      → (q' : Q) × (try_receive q ≡ some (a, q')) × (held q' ≡ rest)
  pub receive_none : (q : Q) → held q ≡ [] → try_receive q ≡ none

-- A channel that is the list that it holds.
unfoldable pub list_send : {A : Type 0} → ℕ → List A → A → Option (List A)
list_send n q a = if ltb (length q) n then some (q ++ a ∷ []) else none

abbrev pub list_receive : {A : Type 0} → List A → Option (A × List A)
list_receive [] = none
list_receive (a ∷ q) = some (a, q)

pub list_send_room :
    {A : Type 0} (n : ℕ) (q : List A) (a : A) → length q < n → list_send n q a ≡ some (q ++ a ∷ [])
unfolding list_send
list_send_room n q a h = ground arith

pub list_send_full :
    {A : Type 0} (n : ℕ) (q : List A) (a : A) → n ≤ length q → list_send n q a ≡ none
unfolding list_send
list_send_full n q a h = ground arith

pub list_receive-some :
    {A : Type 0} (q : List A) (a : A) (rest : List A)
    → q ≡ a ∷ rest
    → (q' : List A) × (list_receive q ≡ some (a, q')) × (q' ≡ rest)
list_receive-some q a rest e = (rest, ap list_receive e, refl)

abbrev pub list_channel : {A : Type 0} → ℕ → Channel (List A) A
list_channel n = record {
  held = λ q. q;
  capacity = n;
  try_send = list_send n;
  try_receive = list_receive;
  send_room = λ q a h. (q ++ a ∷ [], list_send_room n q a h, refl);
  send_full = list_send_full n;
  receive_some = list_receive-some;
  receive_none = λ q e. ap list_receive e;
}

List-cases : {A : Type 0} (xs : List A) → (xs ≡ []) ⊎ ((a : A) × (rest : List A) × (xs ≡ a ∷ rest))
List-cases [] = inl refl
List-cases (x ∷ xs) = inr (x, xs, refl)

module _ {Q A : Type 0} (channel : Channel Q A) where
  pub try_receive-cases :
      (q : Q)
      → ((channel.held q ≡ []) × (channel.try_receive q ≡ none))
        ⊎ ((a : A) × (q' : Q) × (channel.try_receive q ≡ some (a, q'))
            × (channel.held q ≡ a ∷ channel.held q'))
  try_receive-cases q = elim (List-cases (channel.held q)) [
    | inl e ↦ inl (e, channel.receive_none q e)
    | inr (a, rest, e) ↦
        let (q', got, left) = channel.receive_some q a rest e in
        inr (a, q', got, e ∙ ap (λ xs. a ∷ xs) (sym left))
  ]

  pub try_send-cases :
      (q : Q) (a : A)
      → ((q' : Q) × (channel.try_send q a ≡ some q') × (channel.held q' ≡ channel.held q ++ a ∷ []))
        ⊎ ((channel.try_send q a ≡ none) × (channel.capacity ≤ length (channel.held q)))
  try_send-cases q a = elim (le_or_lt channel.capacity (length (channel.held q))) [
    | inl full ↦ inr (channel.send_full q a full, full)
    | inr room ↦ inl (channel.send_room q a room)
  ]
