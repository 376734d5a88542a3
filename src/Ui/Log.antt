-- ===== src/Ui/Log.antt =====
-- `addLog` of gameUI.js.
use hax_war.Base.{
  ◌≡◌, refl, ap, ◌∙◌, Bool, true, false, ◌||◌, Option, none, some, List, [], ◌∷◌, ◌++◌, take,
  if◌then◌else◌, Text, txt, includes,
}
use hax_war.Ui.Trim.{trim, trim-take, take_cons-take}

-- `style.color` where it is set, and whether the weight is bold.
pub record Entry : Type 0 where
  pub colour : Option Text
  pub is_bold : Bool
  pub content : Text

abbrev pub Style : Type 0
Style = Option Text × Bool

unfoldable pub style_of : Text → Style
unfolding includes
style_of m =
    if includes m (txt "❌ 오류") || includes m (txt "오류:")
    then (some (txt "#ef4444"), true)
    else (if includes m (txt "🎮 게임 시작") || includes m (txt "🏆 게임 종료")
        then (some (txt "#fbbf24"), true)
        else (if includes m (txt "🚀")
            then (some (txt "#38bdf8"), false)
            else (if includes m (txt "✅") || includes m (txt "도착")
                then (some (txt "#34d399"), false)
                else (if includes m (txt "⚡") || includes m (txt "조우")
                    then (some (txt "#f472b6"), true)
                    else (if includes m (txt "📍 라운드")
                        then (some (txt "#a78bfa"), true)
                        else (if includes m (txt "서버 연결됨") || includes m (txt "연결됨")
                            then (some (txt "#10b981"), false)
                            else (if includes m (txt "연결 끊김")
                                then (some (txt "#f87171"), false)
                                else (none, false))))))))

abbrev pub entry_of : Text → Text → Entry
entry_of time m =
    let (colour, is_bold) = style_of m in
    record { colour = colour; is_bold = is_bold; content = time ++ (txt " " ++ m) }

-- The newest entry comes first, and the last ones go while there are more than 50.
unfoldable pub add_log : Text → Text → List Entry → List Entry
unfolding style_of trim
add_log time m log = trim 50 (entry_of time m ∷ log)

-- The entries of a history of messages with their times, the newest first.
abbrev pub add_logs : List (Text × Text) → List Entry → List Entry
add_logs [] log = log
add_logs ((time, m) ∷ ms) log = add_logs ms (add_log time m log)

abbrev pub newest : List (Text × Text) → List Entry → List Entry
newest [] log = log
newest ((time, m) ∷ ms) log = newest ms (entry_of time m ∷ log)

-- Adding to a log that was cut is adding to the whole one, and cutting.
add_logs-trim :
    (ms : List (Text × Text)) (log : List Entry)
    → add_logs ms (take 50 log) ≡ take 50 (newest ms log)
unfolding add_log
add_logs-trim [] log = refl
add_logs-trim ((time, m) ∷ ms) log =
    ap (add_logs ms)
      (trim-take 50 (entry_of time m ∷ take 50 log) ∙ take_cons-take 50 (entry_of time m) log)
    ∙ add_logs-trim ms (entry_of time m ∷ log)

-- After any history of messages the log holds the last 50 of them, the newest first.
pub add_logs-newest : (ms : List (Text × Text)) → add_logs ms [] ≡ take 50 (newest ms [])
add_logs-newest ms = add_logs-trim ms []
