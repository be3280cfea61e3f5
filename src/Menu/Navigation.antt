-- ===== src/Menu/Navigation.antt =====
-- fruitchip-menu/src/components/list.c: a list with a highlighted item.
pub mod Bounds
use fruitchip.Common.{
  ℕ, zero, suc, Bool, true, false, List, [], ◌∷◌, ◌++◌, ◌+◌, ◌-◌, ◌==◌, if◌then◌else◌, ltb, leb,
  u32, sub32, Option, none, some, length,
}

-- `list_state_t`, with items of any type.
pub record ListState (A : Type 0) : Type 0 where
  pub items : List A
  pub hilite_idx : ℕ
  pub start_item_idx : ℕ
  pub max_items : ℕ

-- An array without one of its elements.
abbrev pub remove_at : {A : Type 0} → ℕ → List A → List A
remove_at i [] = []
remove_at zero (x ∷ xs) = xs
remove_at (suc i) (x ∷ xs) = x ∷ remove_at i xs

-- The loop that moves the highlight back into the list; none is a loop that has not ended.
unfoldable pub move_back : ℕ → ℕ → ℕ → Option ℕ
move_back zero len hilite_idx = none
move_back (suc fuel) len hilite_idx =
    let rest = move_back fuel len (sub32 hilite_idx 1) in
    if leb len hilite_idx then rest else some hilite_idx

module _ {A : Type 0} where
  abbrev pub list_len : ListState A → ℕ
  list_len state = length state.items

  -- `up` and `down` are the bits of the input that are tested.
  unfoldable pub list_handle_input : Bool → Bool → ListState A → Bool × ListState A
  list_handle_input true down state =
      if state.hilite_idx == 0
      then (true, record state { hilite_idx = sub32 (list_len state) 1 })
      else (true, record state { hilite_idx = state.hilite_idx - 1 })
  list_handle_input false true state =
      let next = u32 (state.hilite_idx + 1) in
      if ltb (sub32 (list_len state) 1) next
      then (true, record state { hilite_idx = 0 })
      else (true, record state { hilite_idx = next })
  list_handle_input false false state = (false, state)

  -- `start_idx` and `end_idx` of `list_draw_items`.
  unfoldable pub drawn_range : ListState A → Option (ℕ × ℕ)
  drawn_range state =
      if list_len state == 0
      then none
      else if ltb state.hilite_idx state.max_items
      then some (
        0,
        (if ltb state.max_items (list_len state) then state.max_items else list_len state) - 1,
      )
      else some (state.hilite_idx - (state.max_items - 1), state.hilite_idx)

  unfoldable pub list_push_item : ListState A → A → ℕ × ListState A
  list_push_item state item = (list_len state, record state { items = state.items ++ item ∷ [] })

  unfoldable pub list_remove_item : ℕ → ListState A → ℕ → Option (ListState A)
  list_remove_item fuel state idx =
      placed (move_back fuel (length (remove_at idx state.items)) state.hilite_idx)
    where
      placed : Option ℕ → Option (ListState A)
      placed none = none
      placed (some hilite) =
          some (record state { items = remove_at idx state.items; hilite_idx = hilite })

  unfoldable pub list_clear : ListState A → ListState A
  list_clear state = record state { items = []; hilite_idx = 0 }
