-- ===== src/Renderer/Board.antt =====
-- The tables `NODE_POSITIONS` and `EDGES` of gameRenderer.js.
use hax_war.Base.{nat_eq, pair_eq, ℕ, Option, List, [], ◌∷◌, lookup, Text, txt}

pub record Position : Type 0 where
  pub x : ℕ
  pub y : ℕ
  pub name : Text

unfoldable pub node_positions : List (ℕ × Position)
node_positions =
    (1, record { x = 100; y = 200; name = txt "서부 전초기지" })
    ∷ (2, record { x = 250; y = 80; name = txt "북부 고지" })
    ∷ (3, record { x = 400; y = 200; name = txt "동부 교차로" })
    ∷ (4, record { x = 250; y = 400; name = txt "남부 통로" })
    ∷ (5, record { x = 500; y = 300; name = txt "동부 전초기지" })
    ∷ (6, record { x = 300; y = 250; name = txt "중앙 사령부" })
    ∷ []

unfoldable pub edges : List (ℕ × ℕ)
edges =
    (1, 2)
    ∷ (1, 4)
    ∷ (1, 5)
    ∷ (1, 6)
    ∷ (2, 3)
    ∷ (2, 6)
    ∷ (3, 4)
    ∷ (3, 5)
    ∷ (3, 6)
    ∷ (4, 5)
    ∷ (4, 6)
    ∷ (5, 6)
    ∷ []

-- `NODE_POSITIONS[id]`.
unfoldable pub position : ℕ → Option Position
unfolding node_positions lookup
position id = lookup id node_positions
