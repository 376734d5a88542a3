-- ===== src/Ui/Optimism.antt =====
-- The optimistic moves of `handleStateUpdate`: which are kept, and the local state that they make
-- of the server's.
pub mod Bounds
pub mod Order
pub mod Kept
use hax_war.Base.{
  ℕ, ◌+◌, ◌-◌, ◌<◌, ◌≡◌, refl, ◌∙◌, Bool, false, not, ◌||◌, ◌&&◌, Option, none, some, List, [], ◌∷◌,
  ◌++◌, filter, any, sum_by, leb, ltb, ◌==◌, if◌then◌else◌, All, arith, append_assoc, append-nil,
  sym, Bool-cases, inl, inr,
}
use hax_war.Protocol.{Units, NodeView, Move, StateView}

-- The two moves have the same ends and the same number of units.
abbrev pub same_order : Move → Move → Bool
same_order m opt =
    m.from_node_id == opt.from_node_id
    && (m.to_node_id == opt.to_node_id && m.unit_count == opt.unit_count)

abbrev pub is_confirmed : StateView → Move → Bool
is_confirmed state opt = any (λ m. same_order m opt) state.my_pending_moves

-- `!confirmed && (now - optMove.timestamp < 3000)`, where the difference may be negative.
abbrev pub is_kept : StateView → ℕ → Move → Bool
is_kept state now opt = not (is_confirmed state opt) && ltb now (opt.timestamp + 3000)

unfoldable pub keep_moves : StateView → ℕ → List Move → List Move
keep_moves state now = filter (is_kept state now)

-- `Math.max(0, a - b)` is the subtraction of natural numbers.
abbrev pub spend : ℕ → Option Units → Option Units
spend count none = none
spend count (some u) = some (record { mobile = u.mobile - count; total = u.total - count })

-- The first node with an id loses the units.
unfoldable pub spend_at : ℕ → ℕ → List NodeView → List NodeView
spend_at id count [] = []
spend_at id count (n ∷ ns) =
    if n.id == id
    then record n { my_units = spend count n.my_units } ∷ ns
    else n ∷ spend_at id count ns

unfoldable pub apply_move : Move → StateView → StateView
unfolding spend_at
apply_move opt s = record s {
  my_remaining_units = s.my_remaining_units - opt.unit_count;
  nodes = spend_at opt.from_node_id opt.unit_count s.nodes;
  my_pending_moves = s.my_pending_moves ++ (opt ∷ []);
}

unfoldable pub apply_moves : List Move → StateView → StateView
unfolding apply_move
apply_moves [] s = s
apply_moves (m ∷ ms) s = apply_moves ms (apply_move m s)

abbrev pub mobile_of : NodeView → ℕ
mobile_of n = elim n.my_units [ none ↦ 0 | some u ↦ u.mobile ]

-- `isMyPlanningComplete` of the local state.
unfoldable pub planning_complete : StateView → Bool
planning_complete s = leb s.my_remaining_units 0 || leb (sum_by mobile_of s.nodes) 0

-- The deep copy is the value itself.
unfoldable pub local_state : List Move → StateView → StateView
unfolding apply_moves planning_complete
local_state opts state =
    let s = apply_moves opts state in record s { is_my_planning_complete = planning_complete s }

-- No kept move is older than three seconds or already pending on the server.
pub keep_moves-All :
    (state : StateView) (now : ℕ) (opts : List Move)
    → All
        (λ m. (now < m.timestamp + 3000) × (is_confirmed state m ≡ false))
        (keep_moves state now opts)
unfolding keep_moves
keep_moves-All state now [] = tt
keep_moves-All state now (m ∷ opts) = elim (Bool-cases (is_kept state now m)) [
  | inl kept ↦ rw kept ((ground arith, ground arith), keep_moves-All state now opts)
  | inr gone ↦ rw gone (keep_moves-All state now opts)
]

-- What optimistic moves make of a state: its remaining units fall by theirs, down to 0, and its
-- pending moves are followed by them.
pub apply_moves_lem :
    (opts : List Move) (s : StateView)
    → ((apply_moves opts s).my_remaining_units
        ≡ s.my_remaining_units - sum_by (λ m. m.unit_count) opts)
      × ((apply_moves opts s).my_pending_moves ≡ s.my_pending_moves ++ opts)
unfolding apply_moves
apply_moves_lem [] s = (omega arith, sym (append-nil s.my_pending_moves))
apply_moves_lem (m ∷ opts) s =
    let rest = apply_moves_lem opts (apply_move m s) in
    (omega (arith, rest.0), rest.1 ∙ append_assoc s.my_pending_moves (m ∷ []) opts)

-- Optimistic moves change neither the phase nor the deadline nor the undecided encounters.
pub apply_moves-fixed :
    (opts : List Move) (s : StateView)
    → ((apply_moves opts s).phase ≡ s.phase)
      × ((apply_moves opts s).deadline ≡ s.deadline)
      × ((apply_moves opts s).undecided_encounter_edge_ids ≡ s.undecided_encounter_edge_ids)
unfolding apply_moves
apply_moves-fixed [] s = (refl, refl, refl)
apply_moves-fixed (m ∷ opts) s = apply_moves-fixed opts (apply_move m s)

-- Nor the round, the number of rounds and the scores.
pub apply_moves-fixed_round :
    (opts : List Move) (s : StateView)
    → ((apply_moves opts s).current_round ≡ s.current_round)
      × ((apply_moves opts s).max_rounds ≡ s.max_rounds)
      × ((apply_moves opts s).scores ≡ s.scores)
unfolding apply_moves
apply_moves-fixed_round [] s = (refl, refl, refl)
apply_moves-fixed_round (m ∷ opts) s = apply_moves-fixed_round opts (apply_move m s)
