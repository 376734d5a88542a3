-- ===== src/Ui/Update/Shown.antt =====
-- What the page shows after an update of the state.
use hax_war.Base.{
  nat_eq, pair_eq, true, false, any, lookup, subst, ℕ, ◌≡◌, refl, sym, ap, ◌∙◌, Bool, ltb, Option,
  none, some, List, ◌++◌, if_ind, if◌then◌else◌, Text, txt, show,
}
use hax_war.Protocol.{Move, Scores, StateView, is_planning, Phase}
use hax_war.Base.Picks.{Picks}
use hax_war.Renderer.{Renderer}
use hax_war.Renderer.Update.{update_state}
use hax_war.Renderer.Circles.{last_view}
use hax_war.Renderer.Views.{IsDrawn, update_state-IsDrawn}
use hax_war.Renderer.Pending.{has, is_pending, joins, pending_iff}
use hax_war.Ui.Optimism.Kept.{IsOnItsWay, keep_moves-Picks}
use hax_war.Ui.Update.Selection.{update-optimistic_moves}
use hax_war.Ui.Update.Listing.{
  IsListed, IsDisclosed, most_rounds, rounds_or_lem, show_panel-IsListed, disclosed_lem,
}
use hax_war.Ui.{Ui, Screen, PendingPanel}
use hax_war.Ui.Optimism.{
  keep_moves, local_state, apply_moves_lem, apply_moves-fixed, apply_moves-fixed_round,
}
use hax_war.Ui.Buttons.{update_move_button}
use hax_war.Ui.Update.Clockwork.{update_complete}
use hax_war.Ui.Update.{
  take_state, rounds_or, show_round, show_score, run_timer, show_counts, limit_selection,
  show_panel, is_nonempty, show_pending, handle_state_update,
}

-- What the elements that an update writes whole hold.
pub record Faces : Type 0 where
  pub round : Text
  pub phase : Text
  pub moves : Option PendingPanel
  pub encounters : Bool
  pub scores : Text × Text

abbrev pub faces_of : Screen → Faces
faces_of s = record {
  round = s.round_info;
  phase = s.phase_info;
  moves = s.pending_moves;
  encounters = s.encounter_shown;
  scores = (s.score_a, s.score_b);
}

abbrev pub score_texts : Option Scores → Text × Text → Text × Text
score_texts none before = before
score_texts (some p) before = (txt "A: " ++ show p.score_a, txt "B: " ++ show p.score_b)

abbrev pub round_text : StateView → Text
round_text s = txt "라운드 " ++ (show s.current_round ++ (txt " / " ++ show (rounds_or s.max_rounds)))

abbrev pub phase_text : Phase → Text
phase_text p = if is_planning p then txt "📋 계획 단계" else txt "⚡ 해소 단계"

abbrev pub complete_text : Bool → Text → Text
complete_text complete t = if complete then txt "✅ 명령 완료 (상대 기다리는 중)" else t

-- The parts of an update, as changes of what is shown.
abbrev round_faces : StateView → Faces → Faces
round_faces s f = record f { round = round_text s; phase = phase_text s.phase }

abbrev count_faces : StateView → Faces → Faces
count_faces s f = record f {
  phase = complete_text s.is_my_planning_complete f.phase;
  scores = score_texts s.scores f.scores;
}

abbrev pending_faces : StateView → Faces → Faces
pending_faces s f = record f {
  moves = show_panel s.my_pending_moves f.moves;
  encounters = (if is_nonempty s.undecided_encounter_edge_ids then true else f.encounters);
}

round-faces :
    (local : StateView) (ui : Ui)
    → faces_of (show_round local ui).screen ≡ round_faces local (faces_of ui.screen)
unfolding show_round
round-faces local ui = refl

timer-faces :
    (now : ℕ) (local : StateView) (ui : Ui)
    → faces_of (run_timer now local ui).screen ≡ faces_of ui.screen
unfolding run_timer
timer-faces now local ui = refl

score-faces :
    (o : Option Scores) (s : Screen)
    → faces_of (show_score o s)
      ≡ record (faces_of s) { scores = score_texts o (s.score_a, s.score_b) }
score-faces none s = refl
score-faces (some p) s = refl

counts-faces :
    (local : StateView) (ui : Ui)
    → faces_of (show_counts local ui).screen ≡ count_faces local (faces_of ui.screen)
unfolding show_counts
counts-faces local ui =
    ap (λ (f : Faces). record f { phase = complete_text local.is_my_planning_complete f.phase })
      (score-faces local.scores ui.screen)

limit-faces : (most : ℕ) (ui : Ui) → faces_of (limit_selection most ui).screen ≡ faces_of ui.screen
unfolding limit_selection update_move_button
limit-faces most ui =
    if_ind (λ (u : Ui). faces_of u.screen ≡ faces_of ui.screen) (ltb most ui.selected_units) refl
      refl

pending-faces :
    (local : StateView) (ui : Ui)
    → faces_of (show_pending local ui).screen ≡ pending_faces local (faces_of ui.screen)
unfolding show_pending
pending-faces local ui = refl

limit-renderer : (most : ℕ) (ui : Ui) → (limit_selection most ui).renderer ≡ ui.renderer
unfolding limit_selection update_move_button
limit-renderer most ui =
    if_ind (λ (u : Ui). u.renderer ≡ ui.renderer) (ltb most ui.selected_units) refl refl

-- What the elements are to hold for a state with these moves on their way.
abbrev pub faces_for : Bool → List Move → StateView → Faces → Faces
faces_for complete opts state before = record {
  round = round_text state;
  phase = complete_text complete (phase_text state.phase);
  moves = show_panel (state.my_pending_moves ++ opts) before.moves;
  encounters = (if is_nonempty state.undecided_encounter_edge_ids then true else before.encounters);
  scores = score_texts state.scores before.scores;
}

local_state-faces :
    (opts : List Move) (state : StateView) (before : Faces)
    → let local = local_state opts state in
      pending_faces local (count_faces local (round_faces local before))
      ≡ faces_for local.is_my_planning_complete opts state before
unfolding local_state
local_state-faces opts state before =
    let local = local_state opts state in
    let (phase, deadline, undecided) = apply_moves-fixed opts state in
    let (current, most, scores) = apply_moves-fixed_round opts state in
    let (left, moves) = apply_moves_lem opts state in
    λ i. record {
      round = txt "라운드 " ++ (show (current i) ++ (txt " / " ++ show (rounds_or (most i))));
      phase = complete_text local.is_my_planning_complete (phase_text (phase i));
      moves = show_panel (moves i) before.moves;
      encounters = (if is_nonempty (undecided i) then true else before.encounters);
      scores = score_texts (scores i) before.scores;
    }

update-faces_local :
    (now now_ms : ℕ) (state : StateView) (ui : Ui)
    → let opts = keep_moves state now ui.optimistic_moves in
      let local = local_state opts state in
      faces_of (handle_state_update now now_ms state ui).screen
      ≡ pending_faces local (count_faces local (round_faces local (faces_of ui.screen)))
unfolding handle_state_update
update-faces_local now now_ms state ui =
    let opts = keep_moves state now ui.optimistic_moves in
    let local = local_state opts state in
    let taken = take_state opts local state ui in
    let timed = run_timer now_ms local (show_round local taken) in
    let counted = show_counts local timed in
    pending-faces local (limit_selection local.my_remaining_units counted)
    ∙ ap (pending_faces local) (
        limit-faces local.my_remaining_units counted
        ∙ counts-faces local timed
        ∙ ap (count_faces local)
            (timer-faces now_ms local (show_round local taken) ∙ round-faces local taken))

-- The board is drawn from the local state.
pub update-renderer :
    (now now_ms : ℕ) (state : StateView) (ui : Ui)
    → (handle_state_update now now_ms state ui).renderer
      ≡ update_state (local_state (keep_moves state now ui.optimistic_moves) state) ui.renderer
unfolding handle_state_update
update-renderer now now_ms state ui =
    let opts = keep_moves state now ui.optimistic_moves in
    let local = local_state opts state in
    let taken = take_state opts local state ui in
    let counted = show_counts local (run_timer now_ms local (show_round local taken)) in
    limit-renderer local.my_remaining_units counted

update-faces :
    (now now_ms : ℕ) (state : StateView) (ui : Ui)
    → let after = handle_state_update now now_ms state ui in
      faces_of after.screen
      ≡ faces_for after.is_my_planning_complete
          (keep_moves state now ui.optimistic_moves)
          state
          (faces_of ui.screen)
update-faces now now_ms state ui =
    update-faces_local now now_ms state ui
    ∙ local_state-faces (keep_moves state now ui.optimistic_moves) state (faces_of ui.screen)
    ∙ ap (λ b. faces_for b (keep_moves state now ui.optimistic_moves) state (faces_of ui.screen))
        (sym (update_complete now now_ms state ui))

-- What a page shows of a state: on its screen, and on the board. The moves are those that the state
-- lists, and after them those that are on their way.
pub record IsShown (now : ℕ) (state : StateView) (ui after : Ui) : Type 0 where
  pub waiting : Picks (IsOnItsWay state now) ui.optimistic_moves after.optimistic_moves
  pub round :
      after.screen.round_info
      ≡ txt "라운드 "
        ++ (show state.current_round ++ (txt " / " ++ show (most_rounds state.max_rounds)))
  pub phase :
      after.screen.phase_info ≡ complete_text after.is_my_planning_complete (phase_text state.phase)
  pub scores :
      (after.screen.score_a, after.screen.score_b)
      ≡ score_texts state.scores (ui.screen.score_a, ui.screen.score_b)
  pub moves :
      IsListed
        (state.my_pending_moves ++ after.optimistic_moves)
        ui.screen.pending_moves
        after.screen.pending_moves
  pub encounters :
      IsDisclosed state.undecided_encounter_edge_ids ui.screen.encounter_shown
        after.screen.encounter_shown
  pub marks :
      (i j : ℕ)
      → has (i, j) ui.renderer.edge_els ≡ true
      → has (j, i) ui.renderer.edge_els ≡ false
      → is_pending (i, j) after.renderer.edge_els
        ≡ any (joins i j) (state.my_pending_moves ++ after.optimistic_moves)
  pub nodes :
      (id : ℕ)
      → IsDrawn
          (last_view id (local_state after.optimistic_moves state).nodes)
          (lookup id ui.renderer.nodes)
          (lookup id after.renderer.nodes)

-- What an update with these optimistic moves leaves.
abbrev Leaves : ℕ → StateView → Ui → Ui → List Move → Type 0
Leaves now state ui after opts =
    Picks (IsOnItsWay state now) ui.optimistic_moves opts
    × (faces_of after.screen
        ≡ faces_for after.is_my_planning_complete opts state (faces_of ui.screen))
    × (after.renderer ≡ update_state (local_state opts state) ui.renderer)

local_state-moves :
    (opts : List Move) (state : StateView)
    → (local_state opts state).my_pending_moves ≡ state.my_pending_moves ++ opts
unfolding local_state
local_state-moves opts state = (apply_moves_lem opts state).1

Leaves-IsShown :
    (now : ℕ) (state : StateView) (ui after : Ui)
    → Leaves now state ui after after.optimistic_moves
    → IsShown now state ui after
Leaves-IsShown now state ui after (picks, faces, drawn) =
    let opts = after.optimistic_moves in
    let local = local_state opts state in
    let pending = state.my_pending_moves ++ opts in
    record {
      waiting = picks;
      round =
          ap (λ (f : Faces). f.round) faces
          ∙ ap (λ n. txt "라운드 " ++ (show state.current_round ++ (txt " / " ++ show n)))
              (rounds_or_lem state.max_rounds);
      phase = ap (λ (f : Faces). f.phase) faces;
      scores = ap (λ (f : Faces). f.scores) faces;
      moves =
          subst (IsListed pending ui.screen.pending_moves) (sym (ap (λ (f : Faces). f.moves) faces))
            (show_panel-IsListed pending ui.screen.pending_moves);
      encounters =
          subst (IsDisclosed state.undecided_encounter_edge_ids ui.screen.encounter_shown)
            (sym (ap (λ (f : Faces). f.encounters) faces))
            (disclosed_lem state.undecided_encounter_edge_ids ui.screen.encounter_shown);
      marks = λ i j here there.
          ap (λ (r : Renderer). is_pending (i, j) r.edge_els) drawn
          ∙ pending_iff local ui.renderer i j here there
          ∙ ap (any (joins i j)) (local_state-moves opts state);
      nodes = λ id.
          subst
            (λ (r : Renderer).
              IsDrawn (last_view id local.nodes) (lookup id ui.renderer.nodes) (lookup id r.nodes))
            (sym drawn) (update_state-IsDrawn local ui.renderer id);
    }

-- After an update exactly those optimistic moves wait on that were ordered less than three seconds
-- ago and that the state does not list. The page shows the round, the phase or that the orders are
-- complete, the scores if the state has them, an item with names and units for each move of the
-- state and then for each that waits, and the section of encounters if some are undecided; on the
-- board an edge is marked exactly if one of these moves joins its nodes, and every drawn node shows
-- the last view of it in the local state.
pub update-IsShown :
    (now now_ms : ℕ) (state : StateView) (ui : Ui)
    → IsShown now state ui (handle_state_update now now_ms state ui)
update-IsShown now now_ms state ui =
    let after = handle_state_update now now_ms state ui in
    Leaves-IsShown now state ui after (
      subst (Leaves now state ui after) (sym (update-optimistic_moves now now_ms state ui)) (
        keep_moves-Picks state now ui.optimistic_moves,
        update-faces now now_ms state ui,
        update-renderer now now_ms state ui,
      ))
