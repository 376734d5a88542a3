-- ===== src/Client/Statuses.antt =====
-- What `findMatch` of gameClient.js makes of the statuses of matchmaking.proto.
use hax_war.Base.{◌≡◌, refl, false, List, [], ◌∷◌, map}
use hax_war.Matchmaking.Status.{
  MatchmakingStatus, searching, matched, cancelled, timeout, error, status_number,
}
use hax_war.Matchmaking.Updates.{MatchmakingUpdate}
use hax_war.Client.{Client}
use hax_war.Client.Matchmaking.{
  StreamEvent, update, pending, is_matched, await_match, await_match-unmatched, NeverMatched,
}

-- An update with a status other than MATCHED.
abbrev pub IsOther : MatchmakingStatus → Type 0
IsOther matched = ⊥
IsOther _ = Unit {0}

abbrev pub with_status : MatchmakingStatus × MatchmakingUpdate → StreamEvent
with_status (s, u) = update (record u { status = status_number s })

abbrev pub AreOther : List (MatchmakingStatus × MatchmakingUpdate) → Type 0
AreOther [] = Unit {0}
AreOther ((s, u) ∷ us) = IsOther s × AreOther us

unmatched_status :
    (s : MatchmakingStatus) (u : MatchmakingUpdate)
    → IsOther s
    → is_matched (record u { status = status_number s }) ≡ false
unmatched_status searching u h = refl
unmatched_status matched u h = absurd h
unmatched_status cancelled u h = refl
unmatched_status timeout u h = refl
unmatched_status error u h = refl

others-NeverMatched :
    (us : List (MatchmakingStatus × MatchmakingUpdate))
    → AreOther us
    → NeverMatched (map with_status us)
others-NeverMatched [] h = tt
others-NeverMatched ((s, u) ∷ us) (hs, h) = (unmatched_status s u hs, others-NeverMatched us h)

-- However many updates come whose status is SEARCHING, CANCELLED, TIMEOUT or ERROR, whatever else
-- they hold, the promise stays pending and the client is as before: a search that the server has
-- cancelled, timed out or failed is never reported.
pub other_statuses_pending :
    (c : Client) (us : List (MatchmakingStatus × MatchmakingUpdate))
    → AreOther us
    → await_match (c, pending) (map with_status us) ≡ (c, pending)
other_statuses_pending c us h = await_match-unmatched c _ (others-NeverMatched us h)
