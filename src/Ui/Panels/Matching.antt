-- ===== src/Ui/Panels/Matching.antt =====
-- From the button of the login form to the game.
use hax_war.Base.{
  ℕ, ◌≡◌, refl, sym, ap, ◌∙◌, true, Option_cases, subst, some, List, [], ◌∷◌, ◌++◌, Text, txt,
}
use hax_war.Protocol.{side_text, side_of}
use hax_war.Base.Int.{pos}
use hax_war.Matchmaking.Updates.{MatchFoundResult, new_matchmaking_update}
use hax_war.Client.{Client, Effect, connecting, open_socket, connect, clear_reconnect, ws_url}
use hax_war.Client.Matchmaking.{
  StreamEvent, update, result_of, begin_match, Promise, pending, resolved, handle_stream,
  await_match, NeverMatched, await_match-unmatched,
}
use hax_war.Renderer.{initialize}
use hax_war.Ui.{Ui}
use hax_war.Ui.Panels.{start_matchmaking, enter_game, continue_match}

await_match-append :
    (s : Client × Promise) (es fs : List StreamEvent)
    → await_match s (es ++ fs) ≡ await_match (await_match s es) fs
unfolding await_match
await_match-append s [] fs = refl
await_match-append s (e ∷ es) fs = await_match-append (handle_stream s e) es fs

-- The client after a match.
abbrev pub joined : MatchFoundResult → Client → Client
joined m c = record c { room_id = m.room_id; player_side = some (side_of m.player_side) }

-- The update that reports a match.
abbrev pub found : MatchFoundResult → StreamEvent
found m = update (record new_matchmaking_update { status = pos 1; match_result = some m })

await_match-found :
    (c : Client) (es : List StreamEvent) (m : MatchFoundResult)
    → NeverMatched es
    → await_match (c, pending) (es ++ (found m ∷ [])) ≡ (joined m c, resolved (result_of m))
unfolding await_match handle_stream
await_match-found c es m h =
    await_match-append (c, pending) es (found m ∷ [])
    ∙ ap (λ s. await_match s (found m ∷ [])) (await_match-unmatched c es h)

clear_reconnect-sockets : (c : Client) → (clear_reconnect c).sockets ≡ c.sockets
unfolding clear_reconnect
clear_reconnect-sockets c =
    Option_cases (λ (d : Client). d.sockets ≡ c.sockets) c.reconnect_timeout (λ e. refl)
      (λ h e. refl)

-- What the page is once a match is entered, with what the client did.
pub record IsInGame (m : MatchFoundResult) (before : Ui) (r : Ui × List Effect) : Type 0 where
  pub opens :
      r.1
      ≡ open_socket (
          txt "ws://"
          ++ (before.client.host
              ++ (txt "/ws/game/"
                  ++ (m.room_id ++ (txt "/" ++ side_text (side_of m.player_side))))))
        ∷ []
  pub socket : r.0.client.sockets ≡ connecting ∷ before.client.sockets
  pub screen : r.0.screen.game_active ≡ true
  pub board : r.0.renderer ≡ initialize before.renderer (some (side_of m.player_side))

enter_game-IsInGame :
    (m : MatchFoundResult) (c : Client) (ui : Ui)
    → c.host ≡ ui.client.host
    → c.sockets ≡ ui.client.sockets
    → IsInGame m ui (continue_match (joined m c, resolved (result_of m)) ui)
unfolding continue_match enter_game connect ws_url
enter_game-IsInGame m c ui host sockets = record {
  opens =
      ap
        (λ h.
          open_socket (
            txt "ws://"
            ++ (h
                ++ (txt "/ws/game/"
                    ++ (m.room_id ++ (txt "/" ++ side_text (side_of m.player_side))))))
          ∷ [])
        host;
  socket = ap (◌∷◌ connecting) (clear_reconnect-sockets (joined m c) ∙ sockets);
  screen = refl;
  board = refl;
}

-- A player with a name starts a search: the request has that name; and whatever updates come
-- before the match is found, the page then enters the game, with the board drawn for the player's
-- side and a socket opened to the room of the match.
pub search-IsInGame :
    (letter : ℕ) (name random : Text) (ui : Ui) (es : List StreamEvent) (m : MatchFoundResult)
    → NeverMatched es
    → let (searching, request) = start_matchmaking (letter ∷ name) random ui in
      (request ≡ some (record { player_id = letter ∷ name; rating = pos 1500 }))
      × IsInGame m searching (
          continue_match (await_match (searching.client, pending) (es ++ (found m ∷ []))) searching)
unfolding start_matchmaking begin_match
search-IsInGame letter name random ui es m h =
    let searching = (start_matchmaking (letter ∷ name) random ui).0 in
    (
      refl,
      subst (λ s. IsInGame m searching (continue_match s searching))
          (sym (await_match-found searching.client es m h))
          (enter_game-IsInGame m searching.client searching refl refl),
    )
