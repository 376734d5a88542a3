-- ===== src/Ui/Optimism/Bounds.antt =====
-- What the optimistic moves take from the nodes of a state.
use hax_war.Base.{
  ℕ, ◌+◌, ◌≤◌, ◌≡◌, refl, ◌∙◌, Option, none, some, List, [], ◌∷◌, ◌==◌, sum_by, if_ind, arith,
}
use hax_war.Protocol.{Units, NodeView, Move, StateView}
use hax_war.Ui.Optimism.{spend, spend_at, apply_move, apply_moves, mobile_of, local_state}

-- The own units at a node, as the board shows them.
abbrev pub total_of : NodeView → ℕ
total_of n = elim n.my_units [ none ↦ 0 | some u ↦ u.total ]

-- The node but for its units, of which there are no more, and no more can move.
pub record HasFewer (before after : NodeView) : Type 0 where
  pub rest : after ≡ record before { my_units = after.my_units }
  pub mobile : mobile_of after ≤ mobile_of before
  pub total : total_of after ≤ total_of before

-- Node by node.
abbrev pub AllFewer : List NodeView → List NodeView → Type 0
AllFewer [] [] = Unit {0}
AllFewer [] (n ∷ ns) = ⊥
AllFewer (m ∷ ms) [] = ⊥
AllFewer (m ∷ ms) (n ∷ ns) = HasFewer m n × AllFewer ms ns

-- All together the nodes have lost at most so many of their units, and of those that can move, each
-- of them some or none, and else they are the same.
pub record HasSpent (count : ℕ) (before after : List NodeView) : Type 0 where
  pub each : AllFewer before after
  pub mobile : sum_by mobile_of before ≤ sum_by mobile_of after + count
  pub total : sum_by total_of before ≤ sum_by total_of after + count

HasFewer-itself : (n : NodeView) → HasFewer n n
HasFewer-itself n = record { rest = refl; mobile = omega arith; total = omega arith }

AllFewer-itself : (ns : List NodeView) → AllFewer ns ns
AllFewer-itself [] = tt
AllFewer-itself (n ∷ ns) = (HasFewer-itself n, AllFewer-itself ns)

HasFewer-twice : {a b c : NodeView} → HasFewer a b → HasFewer b c → HasFewer a c
HasFewer-twice {a} {b} {c} h k = record {
  rest = k.rest ∙ (λ i. record (h.rest i) { my_units = c.my_units });
  mobile = omega (arith, h.mobile, k.mobile);
  total = omega (arith, h.total, k.total);
}

AllFewer-twice : (ns ms ks : List NodeView) → AllFewer ns ms → AllFewer ms ks → AllFewer ns ks
AllFewer-twice [] [] [] h k = tt
AllFewer-twice [] [] (c ∷ ks) h k = absurd k
AllFewer-twice [] (b ∷ ms) ks h k = absurd h
AllFewer-twice (a ∷ ns) [] ks h k = absurd h
AllFewer-twice (a ∷ ns) (b ∷ ms) [] h k = absurd k
AllFewer-twice (a ∷ ns) (b ∷ ms) (c ∷ ks) (h, hs) (k, more) =
    (HasFewer-twice h k, AllFewer-twice ns ms ks hs more)

-- One node that pays for a move.
abbrev Pays : ℕ → NodeView → NodeView → Type 0
Pays count n m =
    HasFewer n m × (mobile_of n ≤ mobile_of m + count) × (total_of n ≤ total_of m + count)

paid :
    (n : NodeView) (count : ℕ) (o : Option Units)
    → Pays count (record n { my_units = o }) (record n { my_units = spend count o })
paid n count none =
    (record { rest = refl; mobile = omega arith; total = omega arith }, omega arith, omega arith)
paid n count (some u) =
    (record { rest = refl; mobile = omega arith; total = omega arith }, omega arith, omega arith)

spend_at-HasSpent : (id count : ℕ) (ns : List NodeView) → HasSpent count ns (spend_at id count ns)
unfolding spend_at
spend_at-HasSpent id count [] = record { each = tt; mobile = omega arith; total = omega arith }
spend_at-HasSpent id count (n ∷ ns) =
    let (fewer, pays, costs) = paid n count n.my_units in
    let rest = spend_at-HasSpent id count ns in
    if_ind (HasSpent count (n ∷ ns)) (n.id == id)
      (record {
        each = (fewer, AllFewer-itself ns);
        mobile = omega (arith, pays);
        total = omega (arith, costs);
      })
      (record {
        each = (HasFewer-itself n, rest.each);
        mobile = omega (arith, rest.mobile);
        total = omega (arith, rest.total);
      })

apply_moves-HasSpent :
    (opts : List Move) (s : StateView)
    → HasSpent (sum_by (λ m. m.unit_count) opts) s.nodes (apply_moves opts s).nodes
unfolding apply_moves apply_move
apply_moves-HasSpent [] s = record {
  each = AllFewer-itself s.nodes;
  mobile = omega arith;
  total = omega arith;
}
apply_moves-HasSpent (m ∷ opts) s =
    let here = spend_at-HasSpent m.from_node_id m.unit_count s.nodes in
    let later = apply_moves-HasSpent opts (apply_move m s) in
    record {
      each = AllFewer-twice s.nodes _ _ here.each later.each;
      mobile = omega (arith, here.mobile, later.mobile);
      total = omega (arith, here.total, later.total);
    }

-- The local state that the board is drawn from has the nodes of the server's in their order, each
-- as the server has it but for its units, of which there are no more and no more can move; and all
-- together they have lost at most the units of the optimistic moves, of their units and of those
-- that can move.
pub local_state-HasSpent :
    (opts : List Move) (state : StateView)
    → HasSpent (sum_by (λ m. m.unit_count) opts) state.nodes (local_state opts state).nodes
unfolding local_state
local_state-HasSpent opts state = apply_moves-HasSpent opts state
