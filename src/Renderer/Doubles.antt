-- ===== src/Renderer/Doubles.antt =====
-- Two pending moves along one edge: what becomes of the first label.
use hax_war.Base.{
  nat_eq, pair_eq, ℕ, ◌≤◌, ◌<◌, ◌≡◌, true, false, some, List, [], ◌∷◌, ◌==◌, adjust, lookup,
  is_some,
}
use hax_war.Protocol.{Move, StateView}
use hax_war.Renderer.{Renderer}
use hax_war.Renderer.Board.{Position, position}
use hax_war.Renderer.Strokes.{Edges}
use hax_war.Renderer.Update.{set_label, edge_key, update_state}
use hax_war.Renderer.Labels.{present, refers, IsOrphan}

-- A label in the SVG to which at most the edge at a key refers.
record IsHeld (n : ℕ) (key : ℕ × ℕ) (r : Renderer) : Type 0 where
  pub shown : present n r.labels ≡ true
  pub old : n < r.next_label
  pub replaced : (g : ℕ) → (g == n) ≡ false → refers n (adjust key (set_label g) r.edge_els) ≡ false

-- No edge refers to a label that is still to come.
abbrev IsFresh : Renderer → Type 0
IsFresh r = (h : ℕ) → r.next_label ≤ h → refers h r.edge_els ≡ false

abbrev LeadsOn : Renderer → Renderer → Type 0
LeadsOn r r' = IsFresh r' × (r.next_label ≤ r'.next_label)

-- The move runs along the edge that is drawn at the key, between nodes that have positions.
pub record RunsAlong (key : ℕ × ℕ) (es : Edges) (m : Move) : Type 0 where
  pub edge : edge_key es m.from_node_id m.to_node_id ≡ key
  pub drawn : is_some (lookup key es) ≡ true
  pub start : Position
  pub end : Position
  pub source : position m.from_node_id ≡ some start
  pub target : position m.to_node_id ≡ some end

-- The states that come later.
abbrev pub update_states : List StateView → Renderer → Renderer
update_states [] r = r
update_states (s ∷ ss) r = update_states ss (update_state s r)

-- A label that is new after some renderer, and that no edge refers to.
pub record HasNewOrphan (before after : Renderer) : Type 0 where
  pub handle : ℕ
  pub recent : before.next_label ≤ handle
  pub orphan : IsOrphan handle after
