-- ===== src/Protocol.antt =====
-- What the browser client reads and writes on the game's WebSocket: the state view of
-- `get_state`, the game events, and the commands. Strings that the client only compares with
-- fixed words are data types with a constructor for all other words. A list that the client
-- guards against being absent is the empty list then, which each guarded use treats alike.
use hax_war.Base.{if◌then◌else◌, true, false, ℕ, Bool, Option, List, Text, txt, text_eq}

pub data Phase : Type 0 where
  waiting_for_players planning resolution game_over_phase : Phase

-- `===` on two phases.
abbrev pub phase_eq : Phase → Phase → Bool
phase_eq waiting_for_players waiting_for_players = true
phase_eq planning planning = true
phase_eq resolution resolution = true
phase_eq game_over_phase game_over_phase = true
phase_eq _ _ = false

abbrev pub is_planning : Phase → Bool
is_planning p = phase_eq p planning

pub data Ownership : Type 0 where
  neutral player_a player_b contested : Ownership

-- `node.myUnits`.
pub record Units : Type 0 where
  pub mobile : ℕ
  pub total : ℕ

pub record NodeView : Type 0 where
  pub id : ℕ
  pub ownership : Ownership
  pub is_headquarters : Bool
  pub is_supply_line : Bool
  pub is_owned_by_me : Bool
  pub my_units : Option Units
  -- `node.enemyUnits.totalCount`.
  pub enemy_units : Option ℕ

pub record EdgeView : Type 0 where
  pub from_node_id : ℕ
  pub to_node_id : ℕ
  pub has_my_units_traveling : Bool
  pub has_encounter : Bool

-- A move of `myPendingMoves`, the server's or an optimistic one. The server's have no
-- `isOptimistic` and no `timestamp`: false and 0 here.
pub record Move : Type 0 where
  pub from_node_id : ℕ
  pub to_node_id : ℕ
  pub unit_count : ℕ
  pub is_optimistic : Bool
  pub timestamp : ℕ

pub record Scores : Type 0 where
  pub score_a : ℕ
  pub score_b : ℕ

pub record StateView : Type 0 where
  pub phase : Phase
  pub current_round : ℕ
  pub max_rounds : ℕ
  pub my_remaining_units : ℕ
  pub my_pending_moves : List Move
  -- The deadline's instant in milliseconds.
  pub deadline : Option ℕ
  pub is_my_planning_complete : Bool
  pub nodes : List NodeView
  pub edges : List EdgeView
  pub undecided_encounter_edge_ids : List Text
  pub scores : Option Scores

-- "A", "B", or any other text.
pub data Side : Type 0 where
  side_a side_b : Side
  other_side : Text → Side

-- The side as a template literal prints it.
abbrev pub side_text : Side → Text
side_text side_a = txt "A"
side_text side_b = txt "B"
side_text (other_side t) = t

-- A side in a string.
abbrev pub side_of : Text → Side
side_of t =
    if text_eq t (txt "A") then side_a else (if text_eq t (txt "B") then side_b else other_side t)

-- `===` on two sides.
abbrev pub side_eq : Side → Side → Bool
side_eq s t = text_eq (side_text s) (side_text t)

pub data Decision : Type 0 where
  advance retreat : Decision

abbrev pub decision_text : Decision → Text
decision_text advance = txt "Advance"
decision_text retreat = txt "Retreat"

-- A node in an event: a number, or an object with a `value`.
pub data NodeRef : Type 0 where
  bare : ℕ → NodeRef
  boxed : ℕ → NodeRef

pub record Encounter : Type 0 where
  pub from_node : NodeRef
  pub to_node : NodeRef
  pub participant_a : ℕ
  pub participant_b : ℕ

pub record Arrival : Type 0 where
  pub side : Side
  pub unit_count : ℕ
  pub destination_node_id : NodeRef

pub record ResolvedEncounter : Type 0 where
  pub decision_a : Decision
  pub decision_b : Decision
  pub outcome_a_units : ℕ
  pub outcome_b_units : ℕ

pub data NewOwner : Type 0 where
  owner_a owner_b owner_other : NewOwner

pub record OwnershipChange : Type 0 where
  pub node_id : NodeRef
  pub new_owner : NewOwner
  pub is_supply_line_active : Bool

pub record RoundSummary : Type 0 where
  pub completed_round : ℕ
  pub arrivals : List Arrival
  pub resolved_encounters : List ResolvedEncounter
  pub ownership_changes : List OwnershipChange

-- An event's type with the payload that the server sends for it.
pub data GameEvent : Type 0 where
  game_started : GameEvent
  round_started : (round_number : ℕ) → GameEvent
  units_departed : Side → NodeRef → ℕ → GameEvent
  units_arrived : Side → NodeRef → ℕ → GameEvent
  encounter_occurred : Encounter → GameEvent
  encounter_resolved : Decision → Decision → GameEvent
  round_resolved : RoundSummary → GameEvent
  game_over : Option Side → (reason : Text) → GameEvent
  other_event : GameEvent

pub data Body : Type 0 where
  state_update : StateView → Body
  game_event : GameEvent → Body
  error_message : Text → Body
  pong : Body
  other_message : Body

-- A parsed message. `sequence` and `round` are 0 where the field is absent: the client tests
-- both for truth only.
pub record Message : Type 0 where
  pub sequence : ℕ
  pub round : ℕ
  pub body : Body

-- What the client sends.
pub data Command : Type 0 where
  get_state : Command
  reconnect_sync : (last_seen_sequence : ℕ) → Command
  move_units : (from to count : ℕ) → Command
  encounter_decision : (from_node to_node : NodeRef) → Decision → Command

-- `x?.value ?? x`.
abbrev pub node_value : NodeRef → ℕ
node_value (bare n) = n
node_value (boxed n) = n
