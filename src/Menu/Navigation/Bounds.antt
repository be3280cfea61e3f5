-- ===== src/Menu/Navigation/Bounds.antt =====
-- The highlight stays in the list and in what is drawn of it.
use fruitchip.Common.{
  Bool-cases, inl, inr, ℕ, zero, suc, Bool, true, false, List, [], ◌∷◌, ◌+◌, ◌-◌, ◌^◌, ◌<◌, ◌≤◌,
  ◌≡◌, refl, arith, ap, ◌==◌, if◌then◌else◌, ltb, leb, u32, sub32, none, some, length,
}
use fruitchip.Menu.Navigation.{
  ListState, list_len, list_handle_input, list_remove_item, drawn_range, move_back, remove_at,
}

pub length-remove_at :
    {A : Type 0} (i : ℕ) (xs : List A) → i < length xs → length (remove_at i xs) ≡ length xs - 1
length-remove_at i [] h = absurd (omega arith)
length-remove_at zero (x ∷ xs) h = omega arith
length-remove_at (suc i) (x ∷ xs) h = omega (arith, length-remove_at i xs (omega arith))

module _ {A : Type 0} (state : ListState A) (here : state.hilite_idx < list_len state)
    (fits : list_len state < 2 ^ 32) where
  -- With any input the highlight of a list that is not empty stays in the list, and the items stay.
  pub list_handle_input-lt :
      (up down : Bool)
      → let (repaint, t) = list_handle_input up down state in
        (t.hilite_idx < list_len t) × (t.items ≡ state.items)
  unfolding list_handle_input
  list_handle_input-lt true down = elim (Bool-cases (state.hilite_idx == 0)) [
    | inl e ↦ rw e (omega arith, refl)
    | inr e ↦ rw e (omega arith, refl)
  ]
  list_handle_input-lt false true =
      elim (Bool-cases (ltb (sub32 (list_len state) 1) (u32 (state.hilite_idx + 1)))) [
        | inl e ↦ rw e (omega arith, refl)
        | inr e ↦ rw e (ground (arith, e), refl)
      ]
  list_handle_input-lt false false = (here, refl)

  -- What is drawn of the list has the highlighted item, ends inside the list, and fits the rows of the
  -- screen.
  pub drawn_range-le :
      0 < state.max_items
      → state.max_items < 2 ^ 32
      → (first : ℕ) × (last : ℕ) × (drawn_range state ≡ some (first, last))
        × (first ≤ state.hilite_idx)
        × (state.hilite_idx ≤ last)
        × (last < list_len state)
        × (last < first + state.max_items)
  unfolding drawn_range
  drawn_range-le rows small = elim (Bool-cases (list_len state == 0)) [
    | inl e ↦ absurd (ground (arith, e))
    | inr e ↦ elim (Bool-cases (ltb state.hilite_idx state.max_items)) [
      | inl e' ↦ (
        0,
        (if ltb state.max_items (list_len state) then state.max_items else list_len state) - 1,
        rw (e, e') refl,
        omega arith,
        ground (arith, e'),
        ground arith,
        ground arith,
      )
      | inr e' ↦ (
        state.hilite_idx - (state.max_items - 1),
        state.hilite_idx,
        rw (e, e') refl,
        omega arith,
        omega arith,
        here,
        ground (arith, e'),
      )
    ]
  ]

  -- If an item of a list of at least two is removed, the highlight is inside the list again after at
  -- most one step.
  pub list_remove_item-some :
      (idx : ℕ)
      → idx < list_len state
      → 1 < list_len state
      → (t : ListState A) × (list_remove_item 2 state idx ≡ some t)
        × (t.items ≡ remove_at idx state.items)
        × (t.hilite_idx < list_len t)
  unfolding list_remove_item move_back
  list_remove_item-some idx valid two =
      let shorter = length-remove_at idx state.items valid in
      elim (Bool-cases (leb (length (remove_at idx state.items)) state.hilite_idx)) [
        | inr e ↦
            (record state { items = remove_at idx state.items }, rw e refl, refl, ground (arith, e))
        | inl e ↦ (
          record state { items = remove_at idx state.items; hilite_idx = sub32 state.hilite_idx 1 },
          rw (e, once shorter e) refl,
          refl,
          ground (arith, shorter, e),
        )
      ]
    where
      once :
          length (remove_at idx state.items) ≡ list_len state - 1
          → leb (length (remove_at idx state.items)) state.hilite_idx ≡ true
          → leb (length (remove_at idx state.items)) (sub32 state.hilite_idx 1) ≡ false
      once shorter e = ground (arith, shorter, e)

-- The loop of a list without items never ends.
move_back-none : (fuel hilite : ℕ) → move_back fuel 0 hilite ≡ none
unfolding move_back
move_back-none zero hilite = refl
move_back-none (suc fuel) hilite = rw (always hilite) (move_back-none fuel (sub32 hilite 1))
  where
    always : (n : ℕ) → leb 0 n ≡ true
    always n = ground arith

-- If the only item of a list is removed, the loop that moves the highlight back never ends, whatever
-- the fuel.
pub list_remove_item-none :
    {A : Type 0} (x : A) (state : ListState A) (fuel : ℕ)
    → state.items ≡ x ∷ []
    → list_remove_item fuel state 0 ≡ none
unfolding list_remove_item
list_remove_item-none x state fuel e =
    rw (ap (λ xs. length (remove_at 0 xs)) e) (rw (move_back-none fuel state.hilite_idx) refl)
