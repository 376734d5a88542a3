-- ===== src/Ui/Broadcast/Feed.antt =====
-- The list of cards that `handleBroadcastEvent` keeps.
use hax_war.Base.{
  ℕ, ◌≡◌, refl, ap, ◌∙◌, Bool, false, ltb, Option, none, some, List, [], ◌∷◌, ◌++◌, take,
  if◌then◌else◌, Text, txt, show,
}
use hax_war.Protocol.{Side, GameEvent, StateView}
use hax_war.Ui.Trim.{trim, trim-take, take_cons-take}
use hax_war.Ui.Broadcast.{Card, story_of}

-- The element `broadcast-list`: its placeholder, and the cards, the newest first.
pub record Feed : Type 0 where
  pub has_placeholder : Bool
  pub cards : List Card

-- What the handler reads besides the message: the client's side, the round of the state, and the
-- time of day.
pub record Setting : Type 0 where
  pub player_side : Option Side
  pub state_view : Option StateView
  pub time : Text

-- `message.round || this.stateView?.currentRound || 0`.
abbrev pub round_of : Setting → ℕ → ℕ
round_of w round =
    if ltb 0 round then round else (elim w.state_view [ none ↦ 0 | some s ↦ s.current_round ])

unfoldable pub card_of : Setting → ℕ → GameEvent → Option Card
unfolding story_of
card_of w round event = elim (story_of w.player_side (round_of w round) event) [
  | none ↦ none
  | some story ↦
      some (record { header = txt "라운드 " ++ show (round_of w round); time = w.time; story = story })
]

abbrev pub add_card : Option Card → List Card → List Card
add_card none cards = cards
add_card (some c) cards = trim 30 (c ∷ cards)

-- The placeholder goes before the event is looked at.
unfoldable pub handle_broadcast : Setting → ℕ → GameEvent → Feed → Feed
unfolding card_of trim
handle_broadcast w round event feed = record {
  has_placeholder = false;
  cards = add_card (card_of w round event) feed.cards;
}

-- An event with its round and its setting.
pub record Notice : Type 0 where
  pub setting : Setting
  pub round : ℕ
  pub event : GameEvent

abbrev pub run : List Notice → Feed → Feed
run [] feed = feed
run (n ∷ ns) feed = run ns (handle_broadcast n.setting n.round n.event feed)

-- The cards of a history of events, the newest first.
abbrev pub all_cards : List Notice → List Card → List Card
all_cards [] cards = cards
all_cards (n ∷ ns) cards =
    all_cards ns (elim (card_of n.setting n.round n.event) [ none ↦ cards | some c ↦ c ∷ cards ])

add_card-take :
    (o : Option Card) (cards : List Card)
    → add_card o (take 30 cards) ≡ take 30 (elim o [ none ↦ cards | some c ↦ c ∷ cards ])
add_card-take none cards = refl
add_card-take (some c) cards = trim-take 30 (c ∷ take 30 cards) ∙ take_cons-take 30 c cards

run-take :
    (ns : List Notice) (feed : Feed) (cards : List Card)
    → feed.cards ≡ take 30 cards
    → (run ns feed).cards ≡ take 30 (all_cards ns cards)
unfolding handle_broadcast
run-take [] feed cards h = h
run-take (n ∷ ns) feed cards h =
    let o = card_of n.setting n.round n.event in
    run-take ns _ _ (ap (add_card o) h ∙ add_card-take o cards)

-- After any history of events the list holds the cards of the last 30 events that have one, the
-- newest first.
pub run-cards :
    (b : Bool) (ns : List Notice)
    → (run ns (record { has_placeholder = b; cards = [] })).cards ≡ take 30 (all_cards ns [])
run-cards b ns = run-take ns (record { has_placeholder = b; cards = [] }) [] refl
