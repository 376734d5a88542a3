-- ===== src/Ui/Broadcast/Layout.antt =====
-- How `handleBroadcastEvent` of gameUI.js puts the parts of a card together.
use hax_war.Base.{
  ℕ, zero, suc, ◌≡◌, ◌≢◌, ◌↔◌, refl, subst, Bool, true, false, Option, none, some, List, [], ◌∷◌,
  ◌++◌, if◌then◌else◌, if_ind, Text, txt,
}
use hax_war.Protocol.{
  Side, NodeRef, GameEvent, game_started, round_started, units_departed, units_arrived,
  encounter_occurred, encounter_resolved, round_resolved, game_over, other_event,
}
use hax_war.Ui.Panels.{is_own_side}
use hax_war.Ui.Broadcast.{
  CardType, card_side_a, card_side_b, card_system, card_alert, card_success, Story, Card, story_of,
  departed_story, occurred_story, resolved_story, round_story, over_story,
}
use hax_war.Ui.Broadcast.Feed.{Setting, round_of, card_of}

-- A `broadcast-header` with its two texts, the element with a `broadcast-title` and a
-- `broadcast-body`, or a `broadcast-sub-list`.
pub data Part : Type 0 where
  header : Text → Text → Part
  content : Text → Text → Part
  sub_list : List Text → Part

-- The classes of a card.
abbrev pub class_name : CardType → Text
class_name card_side_a = txt "broadcast-card side-a"
class_name card_side_b = txt "broadcast-card side-b"
class_name card_system = txt "broadcast-card system"
class_name card_alert = txt "broadcast-card alert"
class_name card_success = txt "broadcast-card success"

-- `insertBefore(part, childNodes[i])`: at the end if there is no such child.
abbrev pub insert_before : ℕ → Part → List Part → List Part
insert_before zero part parts = part ∷ parts
insert_before (suc i) part [] = part ∷ []
insert_before (suc i) part (p ∷ parts) = p ∷ insert_before i part parts

-- What the `switch` has appended.
abbrev pub appended : Option (List Text) → List Part
appended none = []
appended (some items) = sub_list items ∷ []

abbrev pub is_round_resolved : GameEvent → Bool
is_round_resolved (round_resolved r) = true
is_round_resolved _ = false

-- The children of a card.
unfoldable pub card_parts : GameEvent → Card → List Part
card_parts event c =
    let headed = insert_before 0 (header c.header c.time) (appended c.story.sub_items) in
    let inner = content c.story.title c.story.body in
    if is_round_resolved event then insert_before 1 inner headed else headed ++ (inner ∷ [])

-- The header comes first, then the title and the body, and last the list of a round, which the
-- cards of other events lack.
abbrev pub IsLaidOut : GameEvent → Card → Type 0
IsLaidOut event c =
    (card_parts event c
      ≡ header c.header c.time ∷ (content c.story.title c.story.body ∷ appended c.story.sub_items))
    × ((is_round_resolved event ≡ false) ↔ (c.story.sub_items ≡ none))

departed_story-plain :
    (mine : Option Side) (side : Side) (from_node : NodeRef) (count : ℕ)
    → (departed_story mine side from_node count).sub_items ≡ none
unfolding departed_story
departed_story-plain mine side from_node count =
    if_ind (λ (s : Story). s.sub_items ≡ none) (is_own_side mine side) refl refl

over_story-plain :
    (winner : Option Side) (reason : Text) → (over_story winner reason).sub_items ≡ none
unfolding over_story
over_story-plain none reason = refl
over_story-plain (some winner) reason = refl

-- Whether the story of an event has a list.
abbrev Lists : Bool → Option Story → Type 0
Lists b none = Unit {0}
Lists false (some s) = s.sub_items ≡ none
Lists true (some s) = s.sub_items ≢ none

story_of-Lists :
    (mine : Option Side) (round : ℕ) (event : GameEvent)
    → Lists (is_round_resolved event) (story_of mine round event)
unfolding story_of occurred_story resolved_story round_story
story_of-Lists mine round game_started = refl
story_of-Lists mine round (round_started n) = refl
story_of-Lists mine round (units_departed side from_node count) =
    departed_story-plain mine side from_node count
story_of-Lists mine round (units_arrived side to count) = tt
story_of-Lists mine round (encounter_occurred e) = refl
story_of-Lists mine round (encounter_resolved a b) = refl
story_of-Lists mine round (round_resolved r) = λ e. cc
story_of-Lists mine round (game_over winner reason) = over_story-plain winner reason
story_of-Lists mine round other_event = tt

Lists-IsLaidOut :
    (event : GameEvent) (c : Card)
    → Lists (is_round_resolved event) (some c.story)
    → IsLaidOut event c
unfolding card_parts
Lists-IsLaidOut (round_resolved r) c h = (refl, (λ e. cc, λ e. absurd (h e)))
Lists-IsLaidOut game_started c h = (rw h refl, (λ e. h, λ e. refl))
Lists-IsLaidOut (round_started n) c h = (rw h refl, (λ e. h, λ e. refl))
Lists-IsLaidOut _ c h = (rw h refl, (λ e. h, λ e. refl))

-- The same of a card.
abbrev CardLists : Bool → Option Card → Type 0
CardLists b none = Unit {0}
CardLists b (some c) = Lists b (some c.story)

card_of-CardLists :
    (w : Setting) (round : ℕ) (event : GameEvent) (b : Bool) (o : Option Story)
    → story_of w.player_side (round_of w round) event ≡ o
    → Lists b o
    → CardLists b (card_of w round event)
unfolding card_of
card_of-CardLists w round event b none e h = rw (e, card_of) tt
card_of-CardLists w round event b (some s) e h = rw (e, card_of) h

-- Every card that an event makes has first its header, then its title and body, and last a list of
-- items, if it has one; and it has one exactly if the event is the end of a round.
pub card_of-IsLaidOut :
    (w : Setting) (round : ℕ) (event : GameEvent) (c : Card)
    → card_of w round event ≡ some c
    → IsLaidOut event c
card_of-IsLaidOut w round event c h =
    let b = is_round_resolved event in
    let story = story_of-Lists w.player_side (round_of w round) event in
    Lists-IsLaidOut event c (subst (CardLists b) h (card_of-CardLists w round event b _ refl story))
