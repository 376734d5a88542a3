-- ===== src/Ui/Moves/Orders.antt =====
-- What `executeMoveTo` does, whatever is selected.
use hax_war.Base.{
  ℕ, zero, suc, ◌≡◌, refl, sym, subst, false, Option, none, some, List, [], ◌∷◌, ◌++◌, arith, leb,
  if◌then◌else◌,
}
use hax_war.Base.Picks.{Picks}
use hax_war.Protocol.{StateView, Move, move_units}
use hax_war.Client.{Effect, send_move}
use hax_war.Client.Sent.{GoesOut, send-GoesOut}
use hax_war.Ui.{Ui}
use hax_war.Ui.Optimism.Kept.{IsOnItsWay, keep_moves-Picks}
use hax_war.Ui.Update.{handle_state_update}
use hax_war.Ui.Update.Selection.{update-optimistic_moves}
use hax_war.Ui.Moves.{Clock, optimistic_move, reset_selection, refresh, order_move, execute_move_to}

-- Which moves wait: all of them before a state has come, and then those that are on their way.
abbrev pub Wait : Option StateView → ℕ → List Move → List Move → Type 0
Wait none now ms ks = ks ≡ ms
Wait (some s) now ms ks = Picks (IsOnItsWay s now) ms ks

-- What an order does: its command, its optimistic move, and no selection.
pub record IsOrdered (clock : Clock) (f t : ℕ) (ui : Ui) (r : Ui × List Effect) : Type 0 where
  pub command : GoesOut ui.client.sockets (move_units f t ui.selected_units) r.1
  pub moves :
      Wait ui.state_view clock.now
        (ui.optimistic_moves ++ (optimistic_move clock f t ui.selected_units ∷ []))
        r.0.optimistic_moves
  pub from : r.0.selected_from ≡ none
  pub to : r.0.selected_to ≡ none
  pub units : r.0.selected_units ≡ 0

-- By the source and the number of units that are selected.
abbrev pub IsAsked : Clock → ℕ → Ui → Option ℕ → ℕ → Ui × List Effect → Type 0
IsAsked clock t ui none n r = r ≡ (ui, [])
IsAsked clock t ui (some f) zero r = r ≡ (ui, [])
IsAsked clock t ui (some f) (suc n) r = IsOrdered clock f t ui r

update-Picks :
    (clock : Clock) (s : StateView) (ui : Ui)
    → Picks
        (IsOnItsWay s clock.now)
        ui.optimistic_moves
        (handle_state_update clock.now clock.now_ms s ui).optimistic_moves
update-Picks clock s ui =
    subst (Picks (IsOnItsWay s clock.now) ui.optimistic_moves)
      (sym (update-optimistic_moves clock.now clock.now_ms s ui))
      (keep_moves-Picks s clock.now ui.optimistic_moves)

refresh-Wait :
    (clock : Clock) (ui : Ui)
    → Wait ui.state_view clock.now ui.optimistic_moves (refresh clock ui).optimistic_moves
unfolding refresh
refresh-Wait clock ui = of_state ui.state_view
  where
    of_state :
        (o : Option StateView)
        → Wait o clock.now ui.optimistic_moves
            (elim o as (λ _. Ui) [
              | none ↦ ui
              | some s ↦ handle_state_update clock.now clock.now_ms s ui
            ]).optimistic_moves
    of_state none = refl
    of_state (some s) = update-Picks clock s ui

order_move-IsOrdered :
    (clock : Clock) (f t : ℕ) (ui : Ui) → IsOrdered clock f t ui (order_move clock f t ui)
unfolding order_move reset_selection send_move
order_move-IsOrdered clock f t ui = record {
  command = send-GoesOut ui.client (move_units f t ui.selected_units);
  moves = refresh-Wait clock _;
  from = refl;
  to = refl;
  units = refl;
}

some_units : (n : ℕ) → leb (suc n) 0 ≡ false
some_units n = ground arith

-- Whatever is selected: without a source or with no units, `executeMoveTo` does nothing. Else the
-- command for the move goes out if the newest socket is open, and is lost if not; in either case
-- the move joins the optimistic ones, of which, once a state has come, exactly those wait on that
-- were ordered less than three seconds ago and that the state does not list; and then nothing is
-- selected.
pub execute_move_to_lem :
    (clock : Clock) (t : ℕ) (ui : Ui)
    → IsAsked clock t ui ui.selected_from ui.selected_units (execute_move_to clock t ui)
unfolding execute_move_to
execute_move_to_lem clock t ui = of_selected ui.selected_from ui.selected_units
  where
    of_selected :
        (o : Option ℕ) (n : ℕ)
        → IsAsked clock t ui o n (elim o [
          | none ↦ (ui, [])
          | some f ↦ if leb n 0 then (ui, []) else order_move clock f t ui
        ])
    of_selected none n = refl
    of_selected (some f) zero = refl
    of_selected (some f) (suc n) = rw (some_units n) (order_move-IsOrdered clock f t ui)
