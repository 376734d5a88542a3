-- ===== src/Renderer.antt =====
-- Class `GameRenderer` of gameRenderer.js: the board's SVG elements and what draws and selects
-- them. An element is a record of the attributes that the class sets, its class list a record of
-- Booleans; `updateState` is in Update.antt, the tables of nodes and edges in Board.antt.
pub mod Board
pub mod Update
pub mod Pending
pub mod Labels
pub mod Doubles
pub mod Marks
pub mod History
pub mod Circles
pub mod Views
pub mod Strokes
pub mod Latest
pub mod Loops
pub mod Written
pub mod Order
pub mod Drawing
mod Tests
use hax_war.Base.{
  nat_eq, pair_eq, ℕ, ◌+◌, ◌/◌, Bool, true, false, Option, none, some, List, [], ◌∷◌, take, insert,
  adjust, map_values, Text, txt,
}
use hax_war.Base.Int.{ℤ, sub_ℕ}
use hax_war.Protocol.{Side, Ownership, neutral}
use Board.{Position, node_positions, edges, position}

-- `style.opacity`.
pub data Opacity : Type 0 where
  unset dim full : Opacity

-- `style.strokeDasharray`.
pub data Dashes : Type 0 where
  no_style dashed solid : Dashes

-- The class attribute of a node's circle: `node-circle`, the ownership in lower case, and which
-- further classes are there.
pub record CircleClasses : Type 0 where
  pub colour : Ownership
  pub headquarters : Bool
  pub supplyline : Bool
  pub mine : Bool
  pub opponent : Bool
  pub selected : Bool

pub record NodeEl : Type 0 where
  pub circle : CircleClasses
  pub dashes : Dashes
  pub opacity : Opacity
  pub label : Text
  pub units : Text
  pub cx : ℕ
  pub cy : ℕ
  pub label_y : ℕ
  pub units_y : ℤ

-- The class list of an edge's line, besides `edge-line`, and the handle of its pending label.
pub record EdgeEl : Type 0 where
  pub pending_move : Bool
  pub optimistic : Bool
  pub has_units : Bool
  pub encounter : Bool
  pub x1 : ℕ
  pub y1 : ℕ
  pub x2 : ℕ
  pub y2 : ℕ
  pub label_x : ℕ
  pub label_y : ℤ
  pub pending_label : Option ℕ

-- A text element of class `pending-edge-label` in the SVG.
pub record Label : Type 0 where
  pub handle : ℕ
  pub x : ℕ
  pub y : ℕ
  pub is_optimistic : Bool
  pub content : Text

pub record Renderer : Type 0 where
  pub nodes : List (ℕ × NodeEl)
  pub edge_els : List ((ℕ × ℕ) × EdgeEl)
  -- The pending labels in the SVG, and the next one's handle.
  pub labels : List Label
  pub next_label : ℕ
  pub selected_node : Option ℕ
  pub player_side : Option Side

pub new_renderer : Renderer
new_renderer = record {
  nodes = [];
  edge_els = [];
  labels = [];
  next_label = 0;
  selected_node = none;
  player_side = none;
}

-- The middle of two coordinates: every sum on the board is even (Board.antt).
abbrev pub middle : ℕ → ℕ → ℕ
middle a b = (a + b) / 2

unfoldable pub new_edge : Position → Position → EdgeEl
new_edge p q = record {
  pending_move = false;
  optimistic = false;
  has_units = false;
  encounter = false;
  x1 = p.x;
  y1 = p.y;
  x2 = q.x;
  y2 = q.y;
  label_x = middle p.x q.x;
  label_y = sub_ℕ (middle p.y q.y) 8;
  pending_label = none;
}

unfoldable pub new_node : Position → NodeEl
new_node p = record {
  circle = record {
    colour = neutral;
    headquarters = false;
    supplyline = false;
    mine = false;
    opponent = false;
    selected = false;
  };
  dashes = no_style;
  opacity = unset;
  label = take 2 p.name;
  units = txt "0";
  cx = p.x;
  cy = p.y;
  label_y = p.y + 4;
  units_y = sub_ℕ p.y 40;
}

-- An edge between two nodes that have positions.
unfoldable pub draw_between : Renderer → ℕ → ℕ → Option Position → Option Position → Renderer
unfolding new_edge
draw_between r from to (some p) (some q) = record r {
  edge_els = insert (from, to) (new_edge p q) r.edge_els;
}
draw_between r from to _ _ = r

-- An edge of the table between unknown nodes would throw; there is none (Drawing.antt).
unfoldable pub draw_edge : Renderer → ℕ → ℕ → Renderer
unfolding draw_between
draw_edge r from to = draw_between r from to (position from) (position to)

unfoldable pub draw_node : Renderer → ℕ → Position → Renderer
unfolding new_node
draw_node r id pos = record r { nodes = insert id (new_node pos) r.nodes }

unfoldable pub draw_edges : Renderer → List (ℕ × ℕ) → Renderer
unfolding draw_edge
draw_edges r [] = r
draw_edges r ((from, to) ∷ es) = draw_edges (draw_edge r from to) es

unfoldable pub draw_nodes : Renderer → List (ℕ × Position) → Renderer
unfolding draw_node
draw_nodes r [] = r
draw_nodes r ((id, pos) ∷ ps) = draw_nodes (draw_node r id pos) ps

-- `innerHTML = ''` takes the labels out of the SVG.
unfoldable pub initialize : Renderer → Option Side → Renderer
unfolding draw_edges draw_nodes
initialize r side =
    draw_nodes (draw_edges (record r { player_side = side; labels = [] }) edges) node_positions

unfoldable pub set_selected : Bool → NodeEl → NodeEl
set_selected b el = record el { circle = record (el.circle) { selected = b } }

-- A change at the selected node, if there is one.
abbrev pub at_node : Option ℕ → (NodeEl → NodeEl) → List (ℕ × NodeEl) → List (ℕ × NodeEl)
at_node none f nodes = nodes
at_node (some id) f nodes = adjust id f nodes

unfoldable pub select_node : Renderer → Option ℕ → Renderer
unfolding set_selected
select_node r node_id = record r {
  nodes =
      at_node node_id (set_selected true) (at_node r.selected_node (set_selected false) r.nodes);
  selected_node = node_id;
}

unfoldable pub set_opacity : Opacity → NodeEl → NodeEl
set_opacity o el = record el { opacity = o }

unfoldable pub highlight_neighbors : Renderer → Option ℕ → Renderer
unfolding set_opacity
highlight_neighbors r node_id = record r {
  nodes = at_node node_id (set_opacity full) (map_values (set_opacity dim) r.nodes);
}

unfoldable pub reset_highlight : Renderer → Renderer
unfolding set_opacity
reset_highlight r = record r { nodes = map_values (set_opacity full) r.nodes }
