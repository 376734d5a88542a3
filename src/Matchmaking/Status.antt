-- ===== src/Matchmaking/Status.antt =====
-- The statuses of an update.
use hax_war.Base.Int.{ℤ, pos}

pub data MatchmakingStatus : Type 0 where
  searching matched cancelled timeout error : MatchmakingStatus

-- Their numbers in a message.
abbrev pub status_number : MatchmakingStatus → ℤ
status_number searching = pos 0
status_number matched = pos 1
status_number cancelled = pos 2
status_number timeout = pos 3
status_number error = pos 4
