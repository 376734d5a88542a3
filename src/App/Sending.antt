-- ===== src/App/Sending.antt =====
-- What the page sends, and on which socket.
use hax_war.Base.{ℕ, Option, none, some, List, [], ◌∷◌, map, get_elem?, All}
use hax_war.Client.{Client, Effect, connect}
use hax_war.Client.Session.Heard.{IsHeard, AreHeard}
use hax_war.Client.Matchmaking.{pending, resolved, rejected}
use hax_war.Ui.Panels.{continue_match, enter_game}
use hax_war.Page
use hax_war.Page.Refines.{page-AreHeard}
use hax_war.App.{
  Search, importing, waiting, continued, App, Html, Event, typed, find_clicked, imported,
  import_failed, streamed, continues, message_cleared, plays, reloads, Act, does, finish_import,
  continue_search, step,
}

-- A command goes out only on an open socket; other acts send none.
abbrev pub IsHeardAct : Client → Act → Type 0
IsHeardAct c (does e) = IsHeard c e
IsHeardAct c _ = Unit {0}

does-AreHeard : (c : Client) (es : List Effect) → AreHeard c es → All (IsHeardAct c) (map does es)
does-AreHeard c [] h = tt
does-AreHeard c (e ∷ es) (he, h) = (he, does-AreHeard c es h)

continue-AreHeard :
    (c : Client) (i : ℕ) (o : Option Search) (a : App)
    → All (IsHeardAct c) (continue_search i o a).1
unfolding continue_search continue_match enter_game connect
continue-AreHeard c i none a = tt
continue-AreHeard c i (some importing) a = tt
continue-AreHeard c i (some (continued p)) a = tt
continue-AreHeard c i (some (waiting pending)) a = tt
continue-AreHeard c i (some (waiting (resolved m))) a = (tt, tt)
continue-AreHeard c i (some (waiting (rejected e))) a = (tt, tt)

-- Whatever state a page is in and whatever happens to it, every command that it sends goes out while
-- the newest socket of its client is open: no move, decision or request is sent on a socket that is
-- still connecting, that closes or that is closed, nor before there is one.
pub step-IsHeard :
    (html : Html) (a : App) (e : Event)
    → All (IsHeardAct (step html a e).0.page.ui.client) (step html a e).1
unfolding step finish_import
step-IsHeard html a (typed name) = tt
step-IsHeard html a (find_clicked random) = tt
step-IsHeard html a (imported i) = (tt, tt)
step-IsHeard html a (import_failed i e) = tt
step-IsHeard html a (streamed i e) = tt
step-IsHeard html a (continues i) =
    continue-AreHeard (step html a (continues i)).0.page.ui.client i (get_elem? a.searches i) a
step-IsHeard html a message_cleared = tt
step-IsHeard html a (plays e) =
    does-AreHeard (Page.step a.page e).0.ui.client (Page.step a.page e).1 (page-AreHeard a.page e)
step-IsHeard html a reloads = tt
