-- ===== src/Ui/Broadcast.antt =====
-- `handleBroadcastEvent` of gameUI.js. A card's HTML is kept as the texts that the template
-- literals put in, with the markup between them.
pub mod Feed
pub mod Layout
use hax_war.Base.{
  ℕ, Bool, true, false, not, Option, none, some, List, [], ◌∷◌, ◌++◌, map, if◌then◌else◌, Text, txt,
  emoji, show, concat,
}
use hax_war.Protocol.{
  Side, side_a, side_b, other_side, side_text, Decision, advance, retreat, NodeRef, node_value,
  Encounter, Arrival, ResolvedEncounter, NewOwner, owner_a, owner_b, owner_other, OwnershipChange,
  RoundSummary, GameEvent, game_started, round_started, units_departed, units_arrived,
  encounter_occurred, encounter_resolved, round_resolved, game_over, other_event,
}
use hax_war.Ui.Panels.{is_own_side, is_side_a}
use hax_war.Ui.Update.{node_name}

pub data CardType : Type 0 where
  card_side_a card_side_b card_system card_alert card_success : CardType

-- The title, body and type that the `switch` finds, and the items of a `broadcast-sub-list`.
pub record Story : Type 0 where
  pub card_type : CardType
  pub title : Text
  pub body : Text
  pub sub_items : Option (List Text)

-- A `.broadcast-card`: its header, its time and its story.
pub record Card : Type 0 where
  pub header : Text
  pub time : Text
  pub story : Story

abbrev plain : CardType → Text → Text → Story
plain kind title body = record { card_type = kind; title = title; body = body; sub_items = none }

unfoldable pub get_node_name : NodeRef → Text
unfolding node_name
get_node_name r = node_name (node_value r)

unfoldable pub get_player_label : Side → Text
get_player_label side_a = txt "🔵 Player A"
get_player_label side_b = txt "🔴 Player B"
get_player_label (other_side t) = t

unfoldable pub departed_story : Option Side → Side → NodeRef → ℕ → Story
unfolding get_node_name get_player_label
departed_story mine side from_node count =
    let kind = if is_side_a side then card_side_a else card_side_b in
    if is_own_side mine side
    then plain kind (concat (txt "🚀 아군 이동 시작 (" ∷ get_player_label side ∷ txt ")" ∷ [])) (
        concat (
          txt "<strong>"
          ∷ get_node_name from_node
          ∷ txt "</strong>에서 유닛 <span style=\"font-weight:bold; color:#3b82f6;\">"
          ∷ show count
          ∷ txt "기</span>가 출발했습니다."
          ∷ []))
    else plain kind (concat (emoji "⚠" ∷ txt " 적군 감지 (" ∷ get_player_label side ∷ txt ")" ∷ [])) (
        concat (
          txt "<strong style=\"color: #ef4444;\">"
          ∷ get_node_name from_node
          ∷ txt "</strong>에서 유닛 <span style=\"font-weight:bold; color:#ef4444;\">"
          ∷ show count
          ∷ txt "기</span>가 이동을 시작했습니다! (행선지 미확인)"
          ∷ []))

unfoldable pub occurred_story : Encounter → Story
unfolding get_node_name
occurred_story e = plain card_alert (emoji "⚔" ++ txt " 간선 조우 발생!") (
    concat (
      txt "경로 (<strong>"
      ∷ get_node_name e.from_node
      ∷ txt " ↔ "
      ∷ get_node_name e.to_node
      ∷ txt "</strong>)에서 서로의 유닛이 맞닥뜨렸습니다! 각 진영은 진격 또는 복귀를 결정해야 합니다."
      ∷ []))

abbrev decision_label : Decision → Text
decision_label advance = emoji "⚔" ++ txt " 진격"
decision_label retreat = txt "🏃 복귀"

abbrev decision_word : Decision → Text
decision_word advance = txt "진격"
decision_word retreat = txt "후퇴"

unfoldable pub resolved_story : Decision → Decision → Story
resolved_story a b = plain card_alert (txt "🔨 조우 해소 완료") (
    concat (
      txt "조우 판단 결과: Player A ("
      ∷ decision_label a
      ∷ txt ") vs Player B ("
      ∷ decision_label b
      ∷ txt ")"
      ∷ []))

unfoldable pub arrival_item : Arrival → Text
unfolding get_player_label get_node_name
arrival_item a = concat (
    txt "<span>✔</span><span><strong style=\"color: "
    ∷ (if is_side_a a.side then txt "#3b82f6" else txt "#ef4444")
    ∷ txt "\">"
    ∷ get_player_label a.side
    ∷ txt "</strong> 유닛 "
    ∷ show a.unit_count
    ∷ txt "기 ➔ <strong>"
    ∷ get_node_name a.destination_node_id
    ∷ txt "</strong> 도착</span>"
    ∷ [])

unfoldable pub encounter_item : ResolvedEncounter → Text
encounter_item e = concat (
    txt "<span>💥</span><span>결과: A("
    ∷ decision_word e.decision_a
    ∷ txt ", "
    ∷ show e.outcome_a_units
    ∷ txt "기 생존) vs B("
    ∷ decision_word e.decision_b
    ∷ txt ", "
    ∷ show e.outcome_b_units
    ∷ txt "기 생존)</span>"
    ∷ [])

abbrev owner_label : NewOwner → Text
owner_label owner_a = txt "A"
owner_label owner_b = txt "B"
owner_label owner_other = txt "중립"

abbrev owner_colour : NewOwner → Text
owner_colour owner_a = txt "#3b82f6"
owner_colour owner_b = txt "#ef4444"
owner_colour owner_other = txt "#888"

unfoldable pub ownership_item : OwnershipChange → Text
unfolding get_node_name
ownership_item c = concat (
    txt "<span>🚩</span><span><strong>"
    ∷ get_node_name c.node_id
    ∷ txt "</strong> 소유권 변경: <strong style=\"color: "
    ∷ owner_colour c.new_owner
    ∷ txt "\">"
    ∷ owner_label c.new_owner
    ∷ txt "</strong> 점령 "
    ∷ (if c.is_supply_line_active then txt "(보급 가동)" else [])
    ∷ txt "</span>"
    ∷ [])

-- One item that says so if there is none.
abbrev pub or_nothing : List Text → List Text
or_nothing [] = txt "이번 라운드에 발생한 특이 변화가 없습니다." ∷ []
or_nothing items = items

unfoldable pub round_story : RoundSummary → Story
unfolding arrival_item encounter_item ownership_item
round_story r = record {
  card_type = card_success;
  title = concat (txt "🔄 라운드 " ∷ show r.completed_round ∷ txt " 결과 해소" ∷ []);
  body = txt "라운드 해소가 완료되었습니다. 세부 변화:";
  sub_items = some (
      or_nothing (
        map arrival_item r.arrivals
        ++ (map encounter_item r.resolved_encounters ++ map ownership_item r.ownership_changes)));
}

abbrev winner_style : Side → Text
winner_style side_a = txt "color: #3b82f6;"
winner_style _ = txt "color: #ef4444;"

unfoldable pub over_story : Option Side → Text → Story
unfolding get_player_label
over_story none reason =
    plain card_system (txt "🏆 게임 종료") (concat (txt "무승부로 종료되었습니다. (" ∷ reason ∷ txt ")" ∷ []))
over_story (some winner) reason = plain card_system (txt "🏆 게임 종료") (
    concat (
      txt "최종 승자: <strong style=\""
      ∷ winner_style winner
      ∷ txt "\">"
      ∷ get_player_label winner
      ∷ txt "</strong> ("
      ∷ reason
      ∷ txt ")"
      ∷ []))

-- The `switch`, with the client's side and the round; none in its default.
unfoldable pub story_of : Option Side → ℕ → GameEvent → Option Story
unfolding departed_story occurred_story resolved_story round_story over_story
story_of mine round game_started =
    some (plain card_system (txt "🎮 게임 시작") (txt "전투가 시작되었습니다. 사령부를 방어하고 전장을 지배하십시오!"))
story_of mine round (round_started number) = some (
    plain card_system (concat (txt "📍 라운드 " ∷ show round ∷ txt " 시작" ∷ []))
      (txt "새로운 계획 단계가 시작되었습니다. 이동 명령을 설정하세요."))
story_of mine round (units_departed side from_node count) =
    some (departed_story mine side from_node count)
story_of mine round (units_arrived side to count) = none
story_of mine round (encounter_occurred e) = some (occurred_story e)
story_of mine round (encounter_resolved a b) = some (resolved_story a b)
story_of mine round (round_resolved r) = some (round_story r)
story_of mine round (game_over winner reason) = some (over_story winner reason)
story_of mine round other_event = none
