-- ===== src/Ui/Update/Order.antt =====
-- The user interface does not depend on the order in which the server lists what a state holds.
use hax_war.Base.{ℕ, ◌≡◌, sym, ap, subst, ◌∙◌}
use hax_war.Protocol.{StateView}
use hax_war.Renderer.Order.{SameBut, LookSame, update_state-LookSame}
use hax_war.Renderer.Update.{update_state}
use hax_war.Ui.{Ui}
use hax_war.Ui.Optimism.{keep_moves, local_state}
use hax_war.Ui.Optimism.Order.{local_state-SameBut, keep_moves_same}
use hax_war.Ui.Update.{handle_state_update}
use hax_war.Ui.Update.Selection.{update-optimistic_moves}
use hax_war.Ui.Update.Shown.{update-renderer}

-- Two user interfaces with the same optimistic moves and boards that look the same.
pub record DrawSame (u w : Ui) : Type 0 where
  pub waiting : u.optimistic_moves ≡ w.optimistic_moves
  pub boards : LookSame u.renderer w.renderer

-- If a state lists no node and no edge twice, the order in which it lists its nodes, edges and
-- pending moves does not matter to what `handleStateUpdate` draws: the same optimistic moves are
-- kept, and the board that is drawn from the state and them has the same nodes, the same edges but
-- for the handles of their labels, and the same labels, in another order at most.
pub update-DrawSame :
    (now now_ms : ℕ) (s t : StateView) (ui : Ui)
    → SameBut s t
    → DrawSame (handle_state_update now now_ms s ui) (handle_state_update now now_ms t ui)
update-DrawSame now now_ms s t ui v =
    let same = keep_moves_same s t v now ui.optimistic_moves in
    let opts = keep_moves s now ui.optimistic_moves in
    let drawn =
      update_state-LookSame (local_state opts s) (local_state opts t) ui.renderer
        (local_state-SameBut opts s t v) in
    record {
      waiting =
          update-optimistic_moves now now_ms s ui
          ∙ same
          ∙ sym (update-optimistic_moves now now_ms t ui);
      boards =
          subst (λ r. LookSame r (handle_state_update now now_ms t ui).renderer)
            (sym (update-renderer now now_ms s ui))
            (subst (LookSame (update_state (local_state opts s) ui.renderer))
              (ap (λ ms. update_state (local_state ms t) ui.renderer) same
                ∙ sym (update-renderer now now_ms t ui))
              drawn);
    }
