-- ===== src/Ui/Moves/Proper.antt =====
-- The moves that the page sends are proper.
use hax_war.Base.{
  ℕ, zero, suc, ◌≤◌, ◌<◌, ◌≡◌, ◌≢◌, sym, subst, ◌∙◌, Option, none, some, List, [], ◌∷◌, get_elem?,
  leb, ◌==◌, if_ind, Option_cases, if_cases, All, arith,
}
use hax_war.Protocol.{StateView, move_units}
use hax_war.Client.{Effect, sent, Client, send, send_move, is_open}
use hax_war.Ui.{UnitButton, Ui}
use hax_war.Ui.Buttons.{select_first}
use hax_war.Ui.Update.{handle_state_update}
use hax_war.Ui.Update.Selection.{
  IsLimited, unselect-IsLimited, IsWithin, update-Keeps, update-IsWithin,
}
use hax_war.Ui.Update.Interval.{update-IsTruthful}
use hax_war.Ui.Timer.Truthful.{IsTruthful}
use hax_war.Ui.Moves.{
  Clock, reset_selection, refresh, order_move, execute_move_to, execute_move, press,
}

-- What every page keeps: a destination has a source, which is another node; a source was chosen
-- from a state; and no more units are selected, or can be, than that state has left. At most one
-- interval runs, and while it does, the timer element shows the seconds that are left.
pub record IsValid (ui : Ui) : Type 0 where
  pub target : (t : ℕ) → ui.selected_to ≡ some t → (f : ℕ) × (ui.selected_from ≡ some f) × (f ≢ t)
  pub source : (f : ℕ) → ui.selected_from ≡ some f → (s : StateView) × (ui.state_view ≡ some s)
  pub within : (s : StateView) → ui.state_view ≡ some s → IsWithin s.my_remaining_units ui
  pub timer : IsTruthful ui.is_my_planning_complete ui.timer

-- A move that a page in such a state may send, and nothing else.
abbrev pub IsProper : Option StateView → Effect → Type 0
IsProper (some s) (sent (move_units f t n)) = (f ≢ t) × (0 < n) × (n ≤ s.my_remaining_units)
IsProper none (sent (move_units f t n)) = ⊥
IsProper _ _ = ⊥

-- A page and the effects that led to it, from a page with such a state.
abbrev pub Leads : Option StateView → Ui × List Effect → Type 0
Leads o (ui, es) = IsValid ui × All (IsProper o) es

pub weaken-IsLimited :
    {m n : ℕ} (bs : List UnitButton) → m ≤ n → All (IsLimited m) bs → All (IsLimited n) bs
weaken-IsLimited [] le h = tt
weaken-IsLimited (b ∷ bs) le (h, hs) = (λ e. omega (arith, h e), weaken-IsLimited bs le hs)

pub select_first-IsLimited :
    (n m : ℕ) (bs : List UnitButton) → All (IsLimited m) bs → All (IsLimited m) (select_first n bs)
unfolding select_first
select_first-IsLimited n m [] h = tt
select_first-IsLimited n m (b ∷ bs) (h, hs) =
    if_ind (All (IsLimited m)) (b.count == n) (h, hs) (h, select_first-IsLimited n m bs hs)

pub press-IsLimited :
    (i m : ℕ) (bs : List UnitButton) → All (IsLimited m) bs → All (IsLimited m) (press i bs)
unfolding press
press-IsLimited i m [] h = tt
press-IsLimited zero m (b ∷ bs) h = h
press-IsLimited (suc i) m (b ∷ bs) (h, hs) = (h, press-IsLimited i m bs hs)

pub get_elem?-IsLimited :
    (i m : ℕ) (bs : List UnitButton) {b : UnitButton}
    → All (IsLimited m) bs
    → get_elem? bs i ≡ some b
    → IsLimited m b
get_elem?-IsLimited i m [] h e = cc
get_elem?-IsLimited zero m (c ∷ bs) {b} (h, hs) e =
    let same : c ≡ b = cc in subst (IsLimited m) same h
get_elem?-IsLimited (suc i) m (c ∷ bs) (h, hs) e = get_elem?-IsLimited i m bs hs e

pub weaken-IsWithin : {m n : ℕ} {ui : Ui} → m ≤ n → IsWithin m ui → IsWithin n ui
weaken-IsWithin le w = record {
  selection = omega (arith, w.selection);
  buttons = weaken-IsLimited _ le w.buttons;
}

-- A destination is another node than the source.
abbrev pub HasTarget : Ui → Type 0
HasTarget ui = (t : ℕ) → ui.selected_to ≡ some t → (f : ℕ) × (ui.selected_from ≡ some f) × (f ≢ t)

pub IsValid-at :
    (s : StateView) (ui : Ui)
    → ui.state_view ≡ some s
    → HasTarget ui
    → IsWithin s.my_remaining_units ui
    → IsTruthful ui.is_my_planning_complete ui.timer
    → IsValid ui
IsValid-at s ui h t w timed = record {
  target = t;
  source = λ f e. (s, h);
  within = λ s' e. let same : s ≡ s' = cc in subst (λ r. IsWithin r.my_remaining_units ui) same w;
  timer = timed;
}

pub update-IsValid :
    (now now_ms : ℕ) (state : StateView) (ui : Ui)
    → IsValid ui
    → IsValid (handle_state_update now now_ms state ui)
update-IsValid now now_ms state ui v =
    let k = update-Keeps now now_ms state ui in
    IsValid-at state _ k.stored
      (λ t e. let (f, h, ne) = v.target t (sym k.to ∙ e) in (f, k.from ∙ h, ne))
      (weaken-IsWithin (omega arith) (update-IsWithin now now_ms state ui).0)
      (update-IsTruthful now now_ms state ui v.timer)

refresh-IsValid : (clock : Clock) (ui : Ui) → IsValid ui → IsValid (refresh clock ui)
unfolding refresh
refresh-IsValid clock ui v =
    Option_cases IsValid ui.state_view (λ e. v)
      (λ s e. update-IsValid clock.now clock.now_ms s ui v)

reset-IsValid : (ui : Ui) → IsValid ui → IsValid (reset_selection ui)
unfolding reset_selection
reset-IsValid ui v = record {
  target = λ t e. cc;
  source = λ f e. cc;
  within = λ s e. record {
    selection = omega arith;
    buttons = unselect-IsLimited _ _ (v.within s e).buttons;
  };
  timer = v.timer;
}

send_move-IsProper :
    (o : Option StateView) (c : Client) (f t n : ℕ)
    → IsProper o (sent (move_units f t n))
    → All (IsProper o) (send_move c f t n)
unfolding send_move send
send_move-IsProper o c f t n h = if_ind (All (IsProper o)) (is_open c.sockets) (h, tt) tt

order-IsProper :
    (ui : Ui) (f t : ℕ)
    → IsValid ui
    → ui.selected_from ≡ some f
    → f ≢ t
    → 0 < ui.selected_units
    → IsProper ui.state_view (sent (move_units f t ui.selected_units))
order-IsProper ui f t v e ne lt =
    let (s, h) = v.source f e in
    subst (λ o. IsProper o (sent (move_units f t ui.selected_units))) (sym h)
      (ne, lt, (v.within s h).selection)

-- The orders of a page and what they keep.
abbrev pub LeadsFrom : Ui → Ui × List Effect → Type 0
LeadsFrom ui r = Leads ui.state_view r

order_move-IsValid :
    (clock : Clock) (f t : ℕ) (ui : Ui)
    → IsValid ui
    → ui.selected_from ≡ some f
    → f ≢ t
    → 0 < ui.selected_units
    → LeadsFrom ui (order_move clock f t ui)
unfolding order_move
order_move-IsValid clock f t ui v e ne lt = (
  reset-IsValid _ (
      refresh-IsValid clock _ (record {
        target = v.target;
        source = v.source;
        within =
            λ s h. let w = v.within s h in record { selection = w.selection; buttons = w.buttons };
        timer = v.timer;
      })),
  send_move-IsProper ui.state_view ui.client f t ui.selected_units
      (order-IsProper ui f t v e ne lt),
)

pub execute_move_to-IsValid :
    (clock : Clock) (t : ℕ) (ui : Ui)
    → IsValid ui
    → ((f : ℕ) → ui.selected_from ≡ some f → f ≢ t)
    → LeadsFrom ui (execute_move_to clock t ui)
unfolding execute_move_to
execute_move_to-IsValid clock t ui v ne =
    Option_cases (LeadsFrom ui) ui.selected_from (λ e. (v, tt))
      (λ f e.
        if_cases (LeadsFrom ui) (leb ui.selected_units 0) (λ few. (v, tt))
          (λ enough. order_move-IsValid clock f t ui v e (ne f e) (ground arith)))

pub execute_move-IsValid :
    (clock : Clock) (ui : Ui) → IsValid ui → LeadsFrom ui (execute_move clock ui)
unfolding execute_move
execute_move-IsValid clock ui v =
    Option_cases (LeadsFrom ui) ui.selected_to (λ e. (v, tt))
      (λ t e. execute_move_to-IsValid clock t ui v (λ f h.
        let (g, h', ne) = v.target t e in let same : g ≡ f = cc in subst (λ x. x ≢ t) same ne))
