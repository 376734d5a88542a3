-- ===== src/Ui/Update/Listing.antt =====
-- What the list of pending moves and the section of encounters are to show.
use hax_war.Base.{
  ℕ, zero, suc, ◌≡◌, refl, Bool, true, false, Option, none, some, List, [], ◌∷◌, ◌++◌, map,
  if◌then◌else◌, Text, txt, show, arith,
}
use hax_war.Protocol.{Move}
use hax_war.Renderer.Board.{Position, position}
use hax_war.Ui.{PendingRow, PendingPanel}
use hax_war.Ui.Update.{
  rounds_or, node_name, pending_row, pending_panel, show_panel, is_nonempty,
  highlight_undecided_encounters,
}

-- A node is called by its name on the board, or by its number if it has no place there.
abbrev IsCalled : Option Position → ℕ → Text → Type 0
IsCalled none id t = t ≡ txt "노드 " ++ show id
IsCalled (some p) id t = t ≡ p.name

pub record Describes (m : Move) (row : PendingRow) : Type 0 where
  pub source : IsCalled (position m.from_node_id) m.from_node_id row.from_name
  pub target : IsCalled (position m.to_node_id) m.to_node_id row.to_name
  pub count : row.unit_count ≡ m.unit_count
  pub optimistic : row.is_optimistic ≡ m.is_optimistic

-- An item for each move, in their order.
abbrev pub AllDescribe : List Move → List PendingRow → Type 0
AllDescribe [] [] = Unit {0}
AllDescribe [] (row ∷ rows) = ⊥
AllDescribe (m ∷ ms) [] = ⊥
AllDescribe (m ∷ ms) (row ∷ rows) = Describes m row × AllDescribe ms rows

-- There is a header exactly over some moves.
abbrev pub IsHeaded : List Move → Bool → Type 0
IsHeaded [] b = b ≡ false
IsHeaded (m ∷ ms) b = b ≡ true

-- The element lists the moves, if the page has it.
abbrev pub IsListed : List Move → Option PendingPanel → Option PendingPanel → Type 0
IsListed ms none after = after ≡ none
IsListed ms (some before) after =
    (panel : PendingPanel) × (after ≡ some panel)
    × IsHeaded ms panel.has_header
    × AllDescribe ms panel.rows

-- Undecided encounters show the section, and else it is as before.
abbrev pub IsDisclosed : List Text → Bool → Bool → Type 0
IsDisclosed [] before after = after ≡ before
IsDisclosed (id ∷ ids) before after = after ≡ true

-- A game has 20 rounds if the state does not say.
abbrev pub most_rounds : ℕ → ℕ
most_rounds zero = 20
most_rounds (suc n) = suc n

pub rounds_or_lem : (n : ℕ) → rounds_or n ≡ most_rounds n
rounds_or_lem zero = refl
rounds_or_lem (suc n) = ground arith

node_name-IsCalled : (id : ℕ) → IsCalled (position id) id (node_name id)
unfolding node_name
node_name-IsCalled id = of_position (position id)
  where
    of_position :
        (o : Option Position)
        → IsCalled o id (elim o as (λ _. Text) [ none ↦ txt "노드 " ++ show id | some p ↦ p.name ])
    of_position none = refl
    of_position (some p) = refl

rows-AllDescribe : (ms : List Move) → AllDescribe ms (map pending_row ms)
unfolding pending_row
rows-AllDescribe [] = tt
rows-AllDescribe (m ∷ ms) = (
  record {
    source = node_name-IsCalled m.from_node_id;
    target = node_name-IsCalled m.to_node_id;
    count = refl;
    optimistic = refl;
  },
  rows-AllDescribe ms,
)

pub show_panel-IsListed :
    (ms : List Move) (before : Option PendingPanel) → IsListed ms before (show_panel ms before)
show_panel-IsListed ms none = refl
show_panel-IsListed [] (some before) = (pending_panel [], refl, refl, tt)
show_panel-IsListed (m ∷ ms) (some before) =
    (pending_panel (m ∷ ms), refl, refl, rows-AllDescribe (m ∷ ms))

pub disclosed_lem :
    (ids : List Text) (before : Bool)
    → IsDisclosed ids before
        (if is_nonempty ids then highlight_undecided_encounters ids else before)
disclosed_lem [] before = refl
disclosed_lem (id ∷ ids) before = refl
