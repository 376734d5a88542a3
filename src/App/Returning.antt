-- ===== src/App/Returning.antt =====
-- How a page comes back to its game after its connection was lost.
use hax_war.Base.{
  ℕ, ◌≡◌, refl, sym, subst, ap, true, false, none, List, [], ◌∷◌, ◌++◌, map, ltb, if◌then◌else◌,
  if_ind, append-nil, txt, show, arith,
}
use hax_war.Protocol.{get_state, reconnect_sync}
use hax_war.Client.{
  ReadyState, opened, closed, Client, Effect, console_log, on_log, on_connection_change,
  open_socket, sent, timeout_set, log, send, ws_url, connect, clear_reconnect, handle_open,
  handle_close, reconnect,
}
use hax_war.Client.Session
use hax_war.Client.Session.{socket_opened, socket_closed, timeout_fired}
use hax_war.Ui.{Ui}
use hax_war.Ui.Panels.{update_connection_status}
use hax_war.Page
use hax_war.Page.{Page, Moment, session, session_step, handle_effects, handle_effect}
use hax_war.App.{App, Html, Event, plays, does, acts, with_client, step, run}
use hax_war.App.Entering.{Comes}

-- The newest socket closes, the timeout fires, and the socket that it makes opens.
abbrev pub returning : Moment → Moment → Moment → ℕ → List Event
returning lost later back t =
    plays (session lost (socket_closed 0))
    ∷ plays (session later (timeout_fired t))
    ∷ plays (session back (socket_opened 0))
    ∷ []

-- What is asked for on the new socket, by the greatest sequence number that was seen.
abbrev pub asks_again : ℕ → List Effect
asks_again n =
    if ltb 0 n
    then console_log (txt "누락된 이벤트 동기화 요청 (마지막 시퀀스: " ++ (show n ++ txt ")"))
      ∷ on_log (txt "누락된 이벤트 동기화 요청 (마지막 시퀀스: " ++ (show n ++ txt ")"))
      ∷ sent (reconnect_sync n)
      ∷ []
    else sent get_state ∷ []

abbrev pub comes_back : Client → List Effect
comes_back c =
    console_log (txt "서버 연결 끊김")
    ∷ on_log (txt "서버 연결 끊김")
    ∷ on_connection_change false
    ∷ timeout_set c.next_timeout 3000
    ∷ console_log (txt "서버 재연결 시도 중...")
    ∷ on_log (txt "서버 재연결 시도 중...")
    ∷ open_socket (ws_url c)
    ∷ console_log (txt "서버 연결됨")
    ∷ on_log (txt "서버 연결됨")
    ∷ on_connection_change true
    ∷ asks_again c.last_seen_sequence

-- The page is connected again: by a new socket, with no reconnect left.
pub record HasReturned (c : Client) (rest : List ReadyState) (b : App) : Type 0 where
  pub sockets : b.page.ui.client.sockets ≡ opened ∷ (closed ∷ rest)
  pub handle : b.page.ui.client.reconnect_timeout ≡ none
  pub sequence : b.page.ui.client.last_seen_sequence ≡ c.last_seen_sequence
  pub status : b.page.ui.screen.connection_status ≡ txt "🟢 연결됨"

-- To ask again changes nothing of the user interface, whatever was seen.
asks_again-ui : (m : Moment) (p : Page) (n : ℕ) → (handle_effects m p (asks_again n)).ui ≡ p.ui
unfolding handle_effects handle_effect
asks_again-ui m p n =
    if_ind (λ (es : List Effect). (handle_effects m p es).ui ≡ p.ui) (ltb 0 n) refl refl

module _ (html : Html) where
  -- The page with its newest socket open.
  abbrev live : App → List ReadyState → App
  live a rest =
      with_client a
        (record (a.page.ui.client) { sockets = opened ∷ rest; is_closed_intentionally = false })

  live-same :
      (a : App) (rest : List ReadyState)
      → a.page.ui.client.sockets ≡ opened ∷ rest
      → a.page.ui.client.is_closed_intentionally ≡ false
      → live a rest ≡ a
  live-same a rest o h = λ i.
      with_client a
        (record (a.page.ui.client) { sockets = (sym o) i; is_closed_intentionally = (sym h) i })

  -- The page comes back from the loss of its newest socket.
  abbrev ReturnsFrom : List ReadyState → Moment → Moment → Moment → App → Type 0
  ReturnsFrom rest m1 m2 m3 a =
      let c = a.page.ui.client in
      Comes html (HasReturned c rest) (map does (comes_back c)) a
        (returning m1 m2 m3 c.next_timeout)

  live-Comes :
      (a : App) (rest : List ReadyState) (m1 m2 m3 : Moment)
      → ReturnsFrom rest m1 m2 m3 (live a rest)
  unfolding step run acts Page.step session_step Session.step handle_close reconnect connect
      clear_reconnect handle_open log send ws_url handle_effects handle_effect
      update_connection_status
  live-Comes a rest m1 m2 m3 = record {
    possible = (((opened, refl, λ e. cc), tt), ((ground arith, tt), ((refl, tt), tt)));
    acted = append-nil (map does (comes_back (live a rest).page.ui.client));
    reached = record {
      sockets =
          ap (λ (u : Ui). u.client.sockets)
            (asks_again-ui m3 _ a.page.ui.client.last_seen_sequence);
      handle =
          ap (λ (u : Ui). u.client.reconnect_timeout)
            (asks_again-ui m3 _ a.page.ui.client.last_seen_sequence);
      sequence =
          ap (λ (u : Ui). u.client.last_seen_sequence)
            (asks_again-ui m3 _ a.page.ui.client.last_seen_sequence);
      status =
          ap (λ (u : Ui). u.screen.connection_status)
            (asks_again-ui m3 _ a.page.ui.client.last_seen_sequence);
    };
  }

  -- If a page's newest socket is open and the user has not left, the socket may close, the timeout
  -- that this sets may fire, and the new socket may open. The page then does exactly what
  -- `comes_back` lists: it logs each step, asks for a timeout of three seconds, opens a new socket
  -- at the same address, and asks on it for the events after the last one that it saw, or for the
  -- whole state if it saw none. It ends connected by the new socket, with no timeout left to
  -- reconnect, the last sequence number kept and the connection shown.
  pub returning-Comes :
      (a : App) (rest : List ReadyState) (m1 m2 m3 : Moment)
      → a.page.ui.client.sockets ≡ opened ∷ rest
      → a.page.ui.client.is_closed_intentionally ≡ false
      → Comes html
          (HasReturned a.page.ui.client rest)
          (map does (comes_back a.page.ui.client))
          a
          (returning m1 m2 m3 a.page.ui.client.next_timeout)
  returning-Comes a rest m1 m2 m3 o h =
      subst (ReturnsFrom rest m1 m2 m3) (live-same a rest o h) (live-Comes a rest m1 m2 m3)
