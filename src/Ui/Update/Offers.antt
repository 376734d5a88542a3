-- ===== src/Ui/Update/Offers.antt =====
-- Which unit buttons an update of the state enables.
use hax_war.Base.{ℕ, ◌≤◌, ◌≡◌, false, ltb, List, [], ◌∷◌, if_ind, subst, All, arith}
use hax_war.Protocol.{StateView}
use hax_war.Ui.{UnitButton, Ui}
use hax_war.Ui.Optimism.{keep_moves, local_state}
use hax_war.Ui.Buttons.{limit_button, limit_buttons, unselect_buttons, update_move_button}
use hax_war.Ui.Update.{limit_selection, show_pending, handle_state_update}
use hax_war.Ui.Update.Selection.{left_after, local_state-remaining}

-- A button for at most so many units is enabled.
abbrev pub IsOffered : ℕ → UnitButton → Type 0
IsOffered most b = b.count ≤ most → b.disabled ≡ false

limit_button-IsOffered : (most : ℕ) (b : UnitButton) → IsOffered most (limit_button most b)
unfolding limit_button
limit_button-IsOffered most b = λ le. ground arith

limit_buttons-IsOffered :
    (most : ℕ) (bs : List UnitButton) → All (IsOffered most) (limit_buttons most bs)
unfolding limit_buttons
limit_buttons-IsOffered most [] = tt
limit_buttons-IsOffered most (b ∷ bs) =
    (limit_button-IsOffered most b, limit_buttons-IsOffered most bs)

unselect-IsOffered :
    (most : ℕ) (bs : List UnitButton)
    → All (IsOffered most) bs
    → All (IsOffered most) (unselect_buttons bs)
unfolding unselect_buttons
unselect-IsOffered most [] h = tt
unselect-IsOffered most (b ∷ bs) (h, hs) = (h, unselect-IsOffered most bs hs)

limit_selection-IsOffered :
    (most : ℕ) (ui : Ui) → All (IsOffered most) (limit_selection most ui).screen.unit_buttons
unfolding limit_selection update_move_button
limit_selection-IsOffered most ui =
    let limited = limit_buttons-IsOffered most ui.screen.unit_buttons in
    if_ind (λ (u : Ui). All (IsOffered most) u.screen.unit_buttons) (ltb most ui.selected_units)
      (unselect-IsOffered most _ limited) limited

-- After an update every button for at most the units that are left is enabled, whichever source is
-- selected and however few units are on it.
pub update-IsOffered :
    (now now_ms : ℕ) (state : StateView) (ui : Ui)
    → All
        (IsOffered (left_after now state ui))
        (handle_state_update now now_ms state ui).screen.unit_buttons
unfolding handle_state_update show_pending
update-IsOffered now now_ms state ui =
    let local = local_state (keep_moves state now ui.optimistic_moves) state in
    subst
      (λ most. All (IsOffered most) (handle_state_update now now_ms state ui).screen.unit_buttons)
      (local_state-remaining now state ui) (limit_selection-IsOffered local.my_remaining_units _)
