-- ===== src/Ui/Buttons.antt =====
-- The unit buttons and the move button of gameUI.js.
use hax_war.Base.{
  ℕ, Bool, true, false, not, ◌||◌, none, some, List, [], ◌∷◌, find, leb, ltb, ◌==◌, if◌then◌else◌,
  is_some,
}
use hax_war.Ui.{allowed, barred, UnitButton, Ui}

-- A button for more units than `most` is disabled and unselected.
unfoldable pub limit_button : ℕ → UnitButton → UnitButton
limit_button most b =
    if ltb most b.count
    then record b { disabled = true; selected = false; look = barred }
    else record b { disabled = false; look = allowed }

unfoldable pub limit_buttons : ℕ → List UnitButton → List UnitButton
unfolding limit_button
limit_buttons most [] = []
limit_buttons most (b ∷ bs) = limit_button most b ∷ limit_buttons most bs

unfoldable pub unselect_buttons : List UnitButton → List UnitButton
unselect_buttons [] = []
unselect_buttons (b ∷ bs) = record b { selected = false } ∷ unselect_buttons bs

-- `classList.add('selected')` at the first button with a count.
unfoldable pub select_first : ℕ → List UnitButton → List UnitButton
select_first n [] = []
select_first n (b ∷ bs) =
    if b.count == n then record b { selected = true } ∷ bs else b ∷ select_first n bs

-- `btn1 && !btn1.disabled` for the first button with a count.
abbrev pub is_enabled : ℕ → List UnitButton → Bool
is_enabled n bs = elim (find (λ b. b.count == n) bs) [ none ↦ false | some b ↦ not b.disabled ]

unfoldable pub update_move_button : Ui → Ui
update_move_button ui = record ui {
  screen = record (ui.screen) {
    move_disabled = not (is_some ui.selected_from) || leb ui.selected_units 0;
  };
}
