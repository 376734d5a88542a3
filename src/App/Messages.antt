-- ===== src/App/Messages.antt =====
-- What the login form says of a search.
use hax_war.Base.{
  ℕ, zero, suc, ◌<◌, ◌≡◌, ◌≢◌, refl, false, some, List, [], ◌∷◌, ◌++◌, get_elem?, set, Text, txt,
  arith, subst, sym, if_cases,
}
use hax_war.Client.Matchmaking.{rejected}
use hax_war.Ui.Panels.{start_matchmaking, continue_match}
use hax_war.App.{
  importing, waiting, continued, App, Html, find_clicked, continues, message_cleared, Act,
  clears_later, asked, click_find, continue_search, clear_message, step, Enabled,
}
use hax_war.App.Form.{trim_name}

-- What a failed search leaves.
pub record IsReported (html : Html) (i : ℕ) (e : Text) (a : App) (r : App × List Act) : Type 0 where
  pub told : r.0.page.ui.screen.match_status ≡ txt "매칭 실패: " ++ e
  pub acts : r.1 ≡ clears_later 3000 ∷ []
  pub client : r.0.page.ui.client ≡ a.page.ui.client
  pub done : get_elem? r.0.searches i ≡ some (continued (rejected e))
  pub clears : Enabled r.0 message_cleared
  pub cleared : (step html r.0 message_cleared).0.page.ui.screen.match_status ≡ []
  pub restored : (step html r.0 message_cleared).0.clears ≡ a.clears

get_elem?-set :
    {A : Type 0} (xs : List A) (i : ℕ) (v : A) {old : A}
    → get_elem? xs i ≡ some old
    → get_elem? (set xs i v) i ≡ some v
get_elem?-set [] i v h = cc
get_elem?-set (x ∷ xs) zero v h = refl
get_elem?-set (x ∷ xs) (suc i) v h = get_elem?-set xs i v h

-- A search that failed is reported once: the form shows the message of the failure, the client does
-- nothing, and a timeout is set that clears the message.
pub failure-IsReported :
    (html : Html) (i : ℕ) (e : Text) (a : App)
    → get_elem? a.searches i ≡ some (waiting (rejected e))
    → IsReported html i e a (step html a (continues i))
unfolding step continue_search continue_match clear_message
failure-IsReported html i e a h =
    let r = continue_search i (some (waiting (rejected e))) a in
    let reported : IsReported html i e a r = record {
      told = refl;
      acts = refl;
      client = refl;
      done = get_elem?-set a.searches i (continued (rejected e)) h;
      clears = omega arith;
      cleared = refl;
      restored = omega arith;
    } in
    subst (λ s. IsReported html i e a (continue_search i s a)) (sym h) reported

-- A search that a click starts.
pub record IsLost (html : Html) (a b : App) : Type 0 where
  pub told : b.page.ui.screen.match_status ≡ txt "매치 찾는 중..."
  pub started : b.searches ≡ a.searches ++ (importing ∷ [])
  pub clears : Enabled b message_cleared
  pub cleared : (step html b message_cleared).0.page.ui.screen.match_status ≡ []
  pub searches : (step html b message_cleared).0.searches ≡ b.searches

asked-IsLost :
    (html : Html) (a : App) (name random : Text)
    → 0 < a.clears
    → name ≢ []
    → IsLost html a (asked a (start_matchmaking name random a.page.ui))
unfolding step start_matchmaking clear_message
asked-IsLost html a [] random h ne = absurd (ne refl)
asked-IsLost html a (c ∷ name) random h ne = record {
  told = refl;
  started = refl;
  clears = h;
  cleared = refl;
  searches = refl;
}

-- A click starts a new search while the timeout of a failed one is set: the form says that it
-- searches, until that timeout clears the text of the new search, which goes on.
pub newer_message-IsLost :
    (html : Html) (random : Text) (a : App)
    → a.find_disabled ≡ false
    → trim_name a.name ≢ []
    → 0 < a.clears
    → IsLost html a (step html a (find_clicked random)).0
unfolding step click_find
newer_message-IsLost html random a on ne h =
    if_cases (IsLost html a) a.find_disabled (λ off. cc)
      (λ enabled. asked-IsLost html a (trim_name a.name) random h ne)
