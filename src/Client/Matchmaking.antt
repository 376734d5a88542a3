-- ===== src/Client/Matchmaking.antt =====
-- `findMatch` of gameClient.js: the request, and the stream of updates that settles a promise.
-- The stream itself is the gRPC library's: its events are a list.
use hax_war.Base.{
  Bool, sym, ◌≡◌, refl, false, Option, none, some, List, [], ◌∷◌, ◌++◌, ◌==◌, if◌then◌else◌, ap,
  Text, txt, Bool-cases, inl, inr, ◌∙◌,
}
use hax_war.Protocol.{Side, side_of}
use hax_war.Matchmaking.Queue.{JoinQueueRequest, new_join_queue_request}
use hax_war.Matchmaking.Updates.{MatchFoundResult, MatchmakingUpdate}
use hax_war.Base.Int.{pos, negsuc}
use hax_war.Client.{Client}

pub record MatchResult : Type 0 where
  pub room_id : Text
  pub player_side : Side
  pub opponent_id : Text

-- A `data` event with its message, or an `error` event.
pub data StreamEvent : Type 0 where
  update : MatchmakingUpdate → StreamEvent
  error : Text → StreamEvent

pub data Promise : Type 0 where
  pending : Promise
  resolved : MatchResult → Promise
  rejected : Text → Promise

-- A promise settles once.
abbrev pub settle : Promise → Promise → Promise
settle pending p = p
settle p _ = p

-- `playerName || 'player-' + …`, with the random part given.
abbrev pub name_or : Text → Text → Text
name_or [] random = txt "player-" ++ random
name_or name random = name

-- What the setters of the request leave.
abbrev pub join_request : Client → JoinQueueRequest
join_request c = record new_join_queue_request { player_id = c.player_id; rating = pos 1500 }

-- The part before the stream is opened, if nothing happens while the bundle is imported.
unfoldable pub begin_match : Client → Text → Text → Client × JoinQueueRequest
begin_match c name random =
    let named : Client = record c { player_id = name_or name random } in (named, join_request named)

-- `status === 1`.
abbrev pub is_matched : MatchmakingUpdate → Bool
is_matched u = elim u.status [ pos n ↦ n == 1 | negsuc n ↦ false ]

-- What the promise resolves to.
abbrev pub result_of : MatchFoundResult → MatchResult
result_of r = record {
  room_id = r.room_id;
  player_side = side_of r.player_side;
  opponent_id = r.opponent_id;
}

-- The handler of a `data` event with status MATCHED. Without a result it throws on `getRoomId`.
abbrev pub matched : Client × Promise → Option MatchFoundResult → Client × Promise
matched (c, p) none = (c, p)
matched (c, p) (some r) = (
  record c { room_id = r.room_id; player_side = some (side_of r.player_side) },
  settle p (resolved (result_of r)),
)

unfoldable pub handle_stream : Client × Promise → StreamEvent → Client × Promise
handle_stream s (update u) = if is_matched u then matched s u.match_result else s
handle_stream (c, p) (error e) = (c, settle p (rejected e))

unfoldable pub await_match : Client × Promise → List StreamEvent → Client × Promise
unfolding handle_stream
await_match s [] = s
await_match s (e ∷ es) = await_match (handle_stream s e) es

-- The outcome of an event on its own: a match, a failure, or none.
abbrev pub outcome : StreamEvent → Promise
outcome (error e) = rejected e
outcome (update u) =
    if is_matched u
    then (elim u.match_result [ none ↦ pending | some r ↦ resolved (result_of r) ])
    else pending

-- The first outcome of a list of events.
abbrev pub first_outcome : List StreamEvent → Promise
first_outcome [] = pending
first_outcome (e ∷ es) = settle (outcome e) (first_outcome es)

settle_assoc : (p q r : Promise) → settle (settle p q) r ≡ settle p (settle q r)
settle_assoc pending q r = refl
settle_assoc (resolved m) q r = refl
settle_assoc (rejected e) q r = refl

settle-pending : (p : Promise) → settle p pending ≡ p
settle-pending pending = refl
settle-pending (resolved m) = refl
settle-pending (rejected e) = refl

handle_stream-promise :
    (s : Client × Promise) (e : StreamEvent) → (handle_stream s e).1 ≡ settle s.1 (outcome e)
unfolding handle_stream
handle_stream-promise s (error e) = refl
handle_stream-promise s (update u) = elim (Bool-cases (is_matched u)) [
  | inl hit ↦ rw hit (of_result u.match_result)
  | inr miss ↦ rw miss (sym (settle-pending s.1))
]
  where
    of_result :
        (r : Option MatchFoundResult)
        → (matched s r).1 ≡ settle s.1 (elim r [ none ↦ pending | some r ↦ resolved (result_of r) ])
    of_result none = sym (settle-pending s.1)
    of_result (some r) = refl

await_match-from :
    (s : Client × Promise) (es : List StreamEvent)
    → (await_match s es).1 ≡ settle s.1 (first_outcome es)
unfolding await_match
await_match-from s [] = sym (settle-pending s.1)
await_match-from s (e ∷ es) =
    await_match-from (handle_stream s e) es
    ∙ ap (λ p. settle p (first_outcome es)) (handle_stream-promise s e)
    ∙ settle_assoc s.1 (outcome e) (first_outcome es)

-- Whatever the stream brings, the promise of `findMatch` is settled by the first match or failure,
-- and by nothing later; it is pending if there was none.
pub await_match-first :
    (c : Client) (es : List StreamEvent) → (await_match (c, pending) es).1 ≡ first_outcome es
await_match-first c es = await_match-from (c, pending) es

-- The stream brings only updates of another status than MATCHED: searching, cancelled, timed out
-- or failed.
abbrev pub NeverMatched : List StreamEvent → Type 0
NeverMatched [] = Unit {0}
NeverMatched (update u ∷ es) = (is_matched u ≡ false) × NeverMatched es
NeverMatched (error e ∷ es) = ⊥

-- Then the promise stays pending however many updates come, and the client is as before: a
-- cancelled, timed out or failed search is never reported.
pub await_match-unmatched :
    (c : Client) (es : List StreamEvent)
    → NeverMatched es
    → await_match (c, pending) es ≡ (c, pending)
unfolding await_match
await_match-unmatched c [] h = refl
await_match-unmatched c (update u ∷ es) (miss, h) = rw miss (await_match-unmatched c es h)
await_match-unmatched c (error e ∷ es) h = absurd h
