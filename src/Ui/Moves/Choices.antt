-- ===== src/Ui/Moves/Choices.antt =====
-- The choices of units, sources and destinations keep a page valid.
use hax_war.Base.{
  ℕ, ◌≤◌, ◌≡◌, ◌≢◌, refl, sym, subst, ◌∙◌, min, false, not, ◌||◌, ◌&&◌, none, some, find, get_elem?,
  leb, ltb, ◌==◌, if_ind, Option_cases, if_cases, arith,
}
use hax_war.Protocol.{StateView, is_planning}
use hax_war.Ui.{UnitButton, Ui}
use hax_war.Ui.Buttons.{is_enabled, update_move_button}
use hax_war.Ui.Update.Selection.{limit_buttons-IsLimited, unselect-IsLimited, IsWithin}
use hax_war.Ui.Timer.Truthful.{IsTruthful}
use hax_war.Ui.Moves.{
  Clock, choose_units, click_unit, default_units, mark_source, choose_source, cancel_source,
  choose_target, click_planning, mark_target, handle_node_click, available_on, can_select,
}
use hax_war.Ui.Moves.Proper.{
  IsValid, LeadsFrom, IsValid-at, weaken-IsLimited, select_first-IsLimited, press-IsLimited,
  get_elem?-IsLimited, execute_move_to-IsValid, execute_move-IsValid,
}

choose_units-IsValid :
    (i : ℕ) (b : UnitButton) (ui : Ui)
    → IsValid ui
    → get_elem? ui.screen.unit_buttons i ≡ some b
    → b.disabled ≡ false
    → IsValid (choose_units i b ui)
unfolding choose_units update_move_button
choose_units-IsValid i b ui v at on = record {
  target = v.target;
  source = v.source;
  within = λ s e.
      let w = v.within s e in
      record {
        selection = get_elem?-IsLimited i _ ui.screen.unit_buttons w.buttons at on;
        buttons = press-IsLimited i _ _ (unselect-IsLimited _ _ w.buttons);
      };
  timer = v.timer;
}

pub click_unit-IsValid :
    (clock : Clock) (i : ℕ) (ui : Ui) → IsValid ui → LeadsFrom ui (click_unit clock i ui)
unfolding click_unit choose_units update_move_button
click_unit-IsValid clock i ui v =
    Option_cases (LeadsFrom ui) (get_elem? ui.screen.unit_buttons i) (λ e. (v, tt))
      (λ b e.
        if_cases (LeadsFrom ui) b.disabled (λ off. (v, tt))
          (λ on.
            execute_move-IsValid clock (choose_units i b ui) (choose_units-IsValid i b ui v e on)))

default_units-IsWithin :
    (most limit : ℕ) (ui : Ui)
    → most ≤ limit
    → IsWithin limit ui
    → IsWithin limit (default_units most ui)
unfolding default_units
default_units-IsWithin most limit ui le w =
    if_cases (IsWithin limit)
      (leb 1 most && (leb ui.selected_units 0 || ltb most ui.selected_units))
      (λ bad.
        if_cases (IsWithin limit) (is_enabled 1 ui.screen.unit_buttons)
          (λ on. record {
            selection = ground arith;
            buttons = select_first-IsLimited 1 limit _ (unselect-IsLimited limit _ w.buttons);
          })
          (λ off. w))
      (λ good.
        if_cases (IsWithin limit) (ltb most ui.selected_units)
          (λ over. record {
            selection = omega arith;
            buttons = unselect-IsLimited limit _ w.buttons;
          })
          (λ fits. w))

-- What neither `default_units` nor `update_move_button` changes.
abbrev KeepsEnds : Ui → Ui → Type 0
KeepsEnds ui after =
    (after.selected_from ≡ ui.selected_from)
    × (after.selected_to ≡ ui.selected_to)
    × (after.state_view ≡ ui.state_view)
    × (after.timer ≡ ui.timer)
    × (after.is_my_planning_complete ≡ ui.is_my_planning_complete)

default_units-KeepsEnds : (most : ℕ) (ui : Ui) → KeepsEnds ui (default_units most ui)
unfolding default_units
default_units-KeepsEnds most ui =
    let same : KeepsEnds ui ui = (refl, refl, refl, refl, refl) in
    if_ind (KeepsEnds ui) (leb 1 most && (leb ui.selected_units 0 || ltb most ui.selected_units))
      (if_ind (KeepsEnds ui) (is_enabled 1 ui.screen.unit_buttons) same same)
      (if_ind (KeepsEnds ui) (ltb most ui.selected_units) same same)

-- A page whose source is chosen anew, from a state.
source-IsValid :
    (s : StateView) (id most : ℕ) (ui : Ui)
    → IsValid ui
    → ui.state_view ≡ some s
    → ui.selected_from ≡ none
    → most ≤ s.my_remaining_units
    → IsValid (update_move_button (default_units most (mark_source id most ui)))
unfolding mark_source update_move_button
source-IsValid s id most ui v h e le =
    let marked = mark_source id most ui in
    let (_, to, kept, timer, flag) = default_units-KeepsEnds most marked in
    let w = default_units-IsWithin most s.my_remaining_units marked le (record {
      selection = (v.within s h).selection;
      buttons = weaken-IsLimited _ le (limit_buttons-IsLimited most ui.screen.unit_buttons);
    }) in
    IsValid-at s _ (kept ∙ h) (λ t e'. let (f, e'', ne) = v.target t (sym to ∙ e') in cc)
      (record { selection = w.selection; buttons = w.buttons })
      (subst (λ b. IsTruthful b (default_units most marked).timer) (sym flag)
        (subst (IsTruthful ui.is_my_planning_complete) (sym timer) v.timer))

choose_source-IsValid :
    (s : StateView) (id : ℕ) (ui : Ui)
    → IsValid ui
    → ui.state_view ≡ some s
    → ui.selected_from ≡ none
    → IsValid (choose_source s id ui)
unfolding choose_source
choose_source-IsValid s id ui v h e =
    Option_cases IsValid (find (λ n. n.id == id) s.nodes) (λ gone. v)
      (λ node found.
        if_ind IsValid (can_select node && ltb 0 (available_on s node id))
          (source-IsValid s id (min s.my_remaining_units (available_on s node id)) ui v h e
            (omega arith))
          v)

cancel_source-IsValid :
    (s : StateView) (ui : Ui) → IsValid ui → ui.state_view ≡ some s → IsValid (cancel_source s ui)
unfolding cancel_source update_move_button
cancel_source-IsValid s ui v h =
    IsValid-at s _ h (λ t e. cc)
      (record {
        selection = omega arith;
        buttons =
            unselect-IsLimited _ _
              (limit_buttons-IsLimited s.my_remaining_units ui.screen.unit_buttons);
      })
      v.timer

mark_target-IsValid :
    (f id : ℕ) (ui : Ui)
    → IsValid ui
    → ui.selected_from ≡ some f
    → f ≢ id
    → IsValid (mark_target id ui)
unfolding mark_target
mark_target-IsValid f id ui v e ne = record {
  target = λ t e'. let same : id ≡ t = cc in (f, e, subst (λ x. f ≢ x) same ne);
  source = v.source;
  within = λ s h. let w = v.within s h in record { selection = w.selection; buttons = w.buttons };
  timer = v.timer;
}

choose_target-IsValid :
    (clock : Clock) (f id : ℕ) (ui : Ui)
    → IsValid ui
    → ui.selected_from ≡ some f
    → f ≢ id
    → LeadsFrom ui (choose_target clock id ui)
unfolding choose_target update_move_button
choose_target-IsValid clock f id ui v e ne =
    let m = mark_target-IsValid f id ui v e ne in
    if_ind (LeadsFrom ui) (ltb 0 ui.selected_units)
      (execute_move_to-IsValid clock id (mark_target id ui) m
        (λ g h. let same : f ≡ g = cc in subst (λ x. x ≢ id) same ne))
      (
        record {
          target = m.target;
          source = m.source;
          within = λ s h.
              let w = m.within s h in record { selection = w.selection; buttons = w.buttons };
          timer = m.timer;
        },
        tt,
      )

pub handle_node_click-IsValid :
    (clock : Clock) (id : ℕ) (ui : Ui) → IsValid ui → LeadsFrom ui (handle_node_click clock id ui)
unfolding handle_node_click click_planning
handle_node_click-IsValid clock id ui v =
    Option_cases (LeadsFrom ui) ui.state_view (λ e. (v, tt))
      (λ s h.
        if_ind (LeadsFrom ui) (is_planning s.phase && not s.is_my_planning_complete)
          (Option_cases (LeadsFrom ui) ui.selected_from
            (λ e. (choose_source-IsValid s id ui v h e, tt))
            (λ f e.
              if_cases (LeadsFrom ui) (f == id) (λ same. (cancel_source-IsValid s ui v h, tt))
                (λ other. choose_target-IsValid clock f id ui v e (ground arith))))
          (v, tt))
