-- ===== src/Ui/Update/Selection.antt =====
-- What an update of the state does to a selection.
use hax_war.Base.{
  ℕ, ◌-◌, ◌≤◌, ◌≡◌, refl, false, ltb, Option, none, some, List, [], ◌∷◌, if_ind, Bool-cases, inl,
  inr, subst, ap, ◌∙◌, All, sum_by, show, arith,
}
use hax_war.Protocol.{Scores, StateView}
use hax_war.Ui.{UnitButton, Screen, Ui}
use hax_war.Ui.Standing.{face, standing}
use hax_war.Ui.Optimism.{keep_moves, local_state, apply_moves_lem}
use hax_war.Ui.Buttons.{limit_button, limit_buttons, unselect_buttons, update_move_button}
use hax_war.Ui.Update.{
  take_state, show_round, run_timer, show_counts, limit_selection, show_pending, show_score,
  handle_state_update,
}

-- A button that is enabled is for at most so many units.
abbrev pub IsLimited : ℕ → UnitButton → Type 0
IsLimited most b = b.disabled ≡ false → b.count ≤ most

limit_button-IsLimited : (most : ℕ) (b : UnitButton) → IsLimited most (limit_button most b)
unfolding limit_button
limit_button-IsLimited most b = λ e. ground arith

pub limit_buttons-IsLimited :
    (most : ℕ) (bs : List UnitButton) → All (IsLimited most) (limit_buttons most bs)
unfolding limit_buttons
limit_buttons-IsLimited most [] = tt
limit_buttons-IsLimited most (b ∷ bs) =
    (limit_button-IsLimited most b, limit_buttons-IsLimited most bs)

pub unselect-IsLimited :
    (most : ℕ) (bs : List UnitButton)
    → All (IsLimited most) bs
    → All (IsLimited most) (unselect_buttons bs)
unfolding unselect_buttons
unselect-IsLimited most [] h = tt
unselect-IsLimited most (b ∷ bs) (h, hs) = (h, unselect-IsLimited most bs hs)

-- The units that the player may select, and the buttons that allow it.
pub record IsWithin (most : ℕ) (ui : Ui) : Type 0 where
  pub selection : ui.selected_units ≤ most
  pub buttons : All (IsLimited most) ui.screen.unit_buttons

limit_selection-IsWithin : (most : ℕ) (ui : Ui) → IsWithin most (limit_selection most ui)
unfolding limit_selection update_move_button
limit_selection-IsWithin most ui = elim (Bool-cases (ltb most ui.selected_units)) [
  | inl over ↦ rw over (record {
    selection = omega arith;
    buttons = unselect-IsLimited most _ (limit_buttons-IsLimited most ui.screen.unit_buttons);
  })
  | inr fits ↦ rw fits (record {
    selection = ground arith;
    buttons = limit_buttons-IsLimited most ui.screen.unit_buttons;
  })
]

-- The units that are left once the optimistic moves that are kept are paid for.
abbrev pub left_after : ℕ → StateView → Ui → ℕ
left_after now state ui =
    state.my_remaining_units - sum_by (λ m. m.unit_count) (keep_moves state now ui.optimistic_moves)

-- What an update leaves alone, and what it stores.
pub record Keeps (state : StateView) (ui after : Ui) : Type 0 where
  pub from : after.selected_from ≡ ui.selected_from
  pub to : after.selected_to ≡ ui.selected_to
  pub stored : after.state_view ≡ some state
  pub standing : standing after ≡ standing ui

limit_selection-Keeps :
    (most : ℕ) (state : StateView) (ui : Ui)
    → ui.state_view ≡ some state
    → Keeps state ui (limit_selection most ui)
unfolding limit_selection update_move_button
limit_selection-Keeps most state ui h =
    if_ind (Keeps state ui) (ltb most ui.selected_units)
      (record { from = refl; to = refl; stored = h; standing = refl })
      (record { from = refl; to = refl; stored = h; standing = refl })

show_score-face : (scores : Option Scores) (s : Screen) → face (show_score scores s) ≡ face s
show_score-face none s = refl
show_score-face (some p) s = refl

show_counts-standing : (local : StateView) (ui : Ui) → standing (show_counts local ui) ≡ standing ui
unfolding show_counts
show_counts-standing local ui =
    λ i. record { client = ui.client; shown = show_score-face local.scores ui.screen i }

pub update-Keeps :
    (now now_ms : ℕ) (state : StateView) (ui : Ui)
    → Keeps state ui (handle_state_update now now_ms state ui)
unfolding handle_state_update
update-Keeps now now_ms state ui =
    let opts = keep_moves state now ui.optimistic_moves in
    let local = local_state opts state in
    let drawn = run_timer now_ms local (show_round local (take_state opts local state ui)) in
    let v = limit_selection-Keeps _ state _ refl in
    record {
      from = v.from;
      to = v.to;
      stored = v.stored;
      standing = v.standing ∙ show_counts-standing local drawn;
    }

-- The units that the local state has left.
pub local_state-remaining :
    (now : ℕ) (state : StateView) (ui : Ui)
    → (local_state (keep_moves state now ui.optimistic_moves) state).my_remaining_units
      ≡ left_after now state ui
unfolding local_state
local_state-remaining now state ui =
    (apply_moves_lem (keep_moves state now ui.optimistic_moves) state).0

shown-IsWithin :
    (most : ℕ) (local : StateView) (ui : Ui)
    → IsWithin most (show_pending local (limit_selection most ui))
unfolding show_pending
shown-IsWithin most local ui =
    let v = limit_selection-IsWithin most ui in
    record { selection = v.selection; buttons = v.buttons }

shown-available :
    (most : ℕ) (local : StateView) (ui : Ui)
    → (show_pending local (limit_selection most (show_counts local ui))).screen.available_units
      ≡ show local.my_remaining_units
unfolding show_pending limit_selection show_counts update_move_button
shown-available most local ui =
    if_ind (λ (u : Ui). u.screen.available_units ≡ show local.my_remaining_units)
      (ltb most ui.selected_units) refl refl

shown-optimistic_moves :
    (most : ℕ) (local : StateView) (ui : Ui)
    → (show_pending local (limit_selection most ui)).optimistic_moves ≡ ui.optimistic_moves
unfolding show_pending limit_selection update_move_button
shown-optimistic_moves most local ui =
    if_ind (λ (u : Ui). u.optimistic_moves ≡ ui.optimistic_moves) (ltb most ui.selected_units) refl
      refl

pub update-optimistic_moves :
    (now now_ms : ℕ) (state : StateView) (ui : Ui)
    → (handle_state_update now now_ms state ui).optimistic_moves
      ≡ keep_moves state now ui.optimistic_moves
unfolding handle_state_update
update-optimistic_moves now now_ms state ui =
    let opts = keep_moves state now ui.optimistic_moves in
    let local = local_state opts state in
    let drawn = run_timer now_ms local (show_round local (take_state opts local state ui)) in
    shown-optimistic_moves local.my_remaining_units local (show_counts local drawn)

-- After an update the page shows as available what the server says remains, less the optimistic
-- moves that are kept; no more units are selected than that, and no button for more is enabled.
pub update-IsWithin :
    (now now_ms : ℕ) (state : StateView) (ui : Ui)
    → IsWithin (left_after now state ui) (handle_state_update now now_ms state ui)
      × ((handle_state_update now now_ms state ui).screen.available_units
          ≡ show (left_after now state ui))
unfolding handle_state_update
update-IsWithin now now_ms state ui =
    let e = local_state-remaining now state ui in
    let opts = keep_moves state now ui.optimistic_moves in
    let local = local_state opts state in
    let drawn = run_timer now_ms local (show_round local (take_state opts local state ui)) in
    (
      subst (λ most. IsWithin most (handle_state_update now now_ms state ui)) e
          (shown-IsWithin local.my_remaining_units local (show_counts local drawn)),
      shown-available local.my_remaining_units local drawn ∙ ap show e,
    )
