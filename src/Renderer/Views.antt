-- ===== src/Renderer/Views.antt =====
-- What the board shows of a node, by the texts, classes and styles that its view calls for.
use hax_war.Base.{
  nat_eq, ℕ, ◌≡◌, ◌↔◌, ◌⊎◌, inl, inr, refl, sym, subst, Bool, true, false, not, ◌&&◌, if◌then◌else◌,
  Option, none, some, ◌++◌, lookup, Text, txt, show,
}
use hax_war.Protocol.{Ownership, neutral, contested, player_a, player_b, Units, NodeView, StateView}
use hax_war.Renderer.{dashed, solid, NodeEl, Renderer}
use hax_war.Renderer.Circles.{last_view, paint_last, update_state_nodes}
use hax_war.Renderer.Update.{is_player, units_text, paint_node, update_state}

abbrev own_units : Option Units → ℕ
own_units none = 0
own_units (some u) = u.total

abbrev enemy_units : Option ℕ → ℕ
enemy_units none = 0
enemy_units (some n) = n

-- Of a headquarters the own units alone are written.
abbrev Says : Bool → ℕ → ℕ → Text → Type 0
Says true mine theirs t = t ≡ txt "내 " ++ show mine
Says false mine theirs t = t ≡ show mine ++ (txt "/" ++ show theirs)

-- An element after it was painted from a view.
pub record Shows (v : NodeView) (before after : NodeEl) : Type 0 where
  pub colour : after.circle.colour ≡ v.ownership
  pub headquarters : after.circle.headquarters ≡ v.is_headquarters
  pub supplyline : after.circle.supplyline ≡ v.is_supply_line
  pub mine : after.circle.mine ≡ v.is_owned_by_me
  pub opponent :
      (after.circle.opponent ≡ true)
      ↔ ((v.is_owned_by_me ≡ false) × ((v.ownership ≡ player_a) ⊎ (v.ownership ≡ player_b)))
  pub unselected : after.circle.selected ≡ false
  pub own_dashes : (after.dashes ≡ dashed) ↔ (v.is_owned_by_me ≡ true)
  pub other_dashes : (after.dashes ≡ solid) ↔ (v.is_owned_by_me ≡ false)
  pub units : Says v.is_headquarters (own_units v.my_units) (enemy_units v.enemy_units) after.units
  pub label : after.label ≡ before.label
  pub opacity : after.opacity ≡ before.opacity
  pub place :
      (after.cx ≡ before.cx)
      × (after.cy ≡ before.cy)
      × (after.label_y ≡ before.label_y)
      × (after.units_y ≡ before.units_y)

-- By the last view of a node and its element before.
abbrev pub IsDrawn : Option NodeView → Option NodeEl → Option NodeEl → Type 0
IsDrawn none before after = after ≡ before
IsDrawn (some v) none after = after ≡ none
IsDrawn (some v) (some el) after = (el' : NodeEl) × (after ≡ some el') × Shows v el el'

is_player_iff : (o : Ownership) → (is_player o ≡ true) ↔ ((o ≡ player_a) ⊎ (o ≡ player_b))
is_player_iff neutral = (λ e. cc, λ e. elim e [ inl a ↦ cc | inr b ↦ cc ])
is_player_iff player_a = (λ e. inl refl, λ e. refl)
is_player_iff player_b = (λ e. inr refl, λ e. refl)
is_player_iff contested = (λ e. cc, λ e. elim e [ inl a ↦ cc | inr b ↦ cc ])

opponent_iff :
    (mine : Bool) (o : Ownership)
    → (not mine && is_player o ≡ true) ↔ ((mine ≡ false) × ((o ≡ player_a) ⊎ (o ≡ player_b)))
opponent_iff true o = (λ e. cc, λ h. cc)
opponent_iff false o = let (to, of) = is_player_iff o in (λ e. (refl, to e), λ h. of h.1)

dashed_iff : (mine : Bool) → ((if mine then dashed else solid) ≡ dashed) ↔ (mine ≡ true)
dashed_iff true = (λ e. refl, λ e. refl)
dashed_iff false = (λ e. cc, λ e. cc)

solid_iff : (mine : Bool) → ((if mine then dashed else solid) ≡ solid) ↔ (mine ≡ false)
solid_iff true = (λ e. cc, λ e. cc)
solid_iff false = (λ e. refl, λ e. refl)

units-Says :
    (v : NodeView) (h : Bool) (o : Option Units) (e : Option ℕ)
    → Says h
        (own_units o)
        (enemy_units e)
        (units_text (record v { is_headquarters = h; my_units = o; enemy_units = e }))
unfolding units_text
units-Says v true none e = refl
units-Says v true (some u) e = refl
units-Says v false none none = refl
units-Says v false none (some n) = refl
units-Says v false (some u) none = refl
units-Says v false (some u) (some n) = refl

paint_node-Shows : (v : NodeView) (el : NodeEl) → Shows v el (paint_node v el)
unfolding paint_node
paint_node-Shows v el = record {
  colour = refl;
  headquarters = refl;
  supplyline = refl;
  mine = refl;
  opponent = opponent_iff v.is_owned_by_me v.ownership;
  unselected = refl;
  own_dashes = dashed_iff v.is_owned_by_me;
  other_dashes = solid_iff v.is_owned_by_me;
  units = units-Says v v.is_headquarters v.my_units v.enemy_units;
  label = refl;
  opacity = refl;
  place = (refl, refl, refl, refl);
}

paint_last-IsDrawn :
    (o : Option NodeView) (before : Option NodeEl) → IsDrawn o before (paint_last o before)
paint_last-IsDrawn none before = refl
paint_last-IsDrawn (some v) none = refl
paint_last-IsDrawn (some v) (some el) = (paint_node v el, refl, paint_node-Shows v el)

-- After `updateState` every drawn node that the state lists shows the state's last view of it: the
-- classes of its owner, of a headquarters and of a supply line, whether it is the player's own or
-- the opponent's, the dashes of an own node, and the numbers of units; it is not selected, and its
-- name, opacity and place are as they were. Every other node is as it was, and none is added.
pub update_state-IsDrawn :
    (s : StateView) (r : Renderer) (id : ℕ)
    → IsDrawn (last_view id s.nodes) (lookup id r.nodes) (lookup id (update_state s r).nodes)
update_state-IsDrawn s r id =
    subst (IsDrawn (last_view id s.nodes) (lookup id r.nodes)) (sym (update_state_nodes s r id))
      (paint_last-IsDrawn (last_view id s.nodes) (lookup id r.nodes))
