-- ===== src/Client/Stream.antt =====
-- `findMatch` of gameClient.js through the generated service client: the call that it makes, and
-- its promise over the messages as the library brings them.
use hax_war.Base.{ℕ, ◌≡◌, refl, ap, ◌∙◌, false, none, List, [], ◌∷◌, ◌++◌, Text, txt, map, arith}
use hax_war.Base.Int.{pos}
use hax_war.Matchmaking.{Wire, IsFaithful, IsInt32}
use hax_war.Matchmaking.Queue.{join_queue_request-roundtrip}
use hax_war.Matchmaking.Updates.{matchmaking_update-roundtrip}
use hax_war.Matchmaking.Binary.{
  deserialize_binary_join_queue_request, serialize_binary_matchmaking_update,
}
use hax_war.Matchmaking.Binary.Through.{
  join_queue_request-through_bytes, matchmaking_update-through_bytes,
}
use hax_war.Matchmaking.Service.{Call, Reaches, join_queue, join_queue_method, new_service_client}
use hax_war.Matchmaking.Hostname.{slashes, ends_with_slash, strip_slashes_lem}
use hax_war.Client.{Client}
use hax_war.Client.Matchmaking.{
  StreamEvent, update, error, Promise, pending, begin_match, name_or, await_match, first_outcome,
  await_match-first,
}

module _ (w : Wire) where
  -- What comes in: the bytes of a message, or a failure.
  pub data Incoming : Type 0 where
    message : w.Bytes → Incoming
    failure : Text → Incoming

  -- The library decodes a message with the method's descriptor.
  unfoldable pub incoming : Incoming → StreamEvent
  incoming (message bytes) = update ((join_queue_method w).decode bytes)
  incoming (failure e) = error e

  -- The client and the call, up to `client.joinQueue(request)`.
  unfoldable pub open_stream : Text → Client → Text → Text → Client × Call w
  unfolding begin_match new_service_client join_queue
  open_stream origin c name random =
      let begun = begin_match c name random in
      (begun.0, join_queue w (new_service_client origin) begun.1 none)

  -- The whole of `findMatch`.
  unfoldable pub find_match :
      Text → Client → Text → Text → List Incoming → Call w × (Client × Promise)
  unfolding open_stream incoming await_match
  find_match origin c name random received =
      let opened = open_stream origin c name random in
      (opened.1, await_match (opened.0, pending) (map incoming received))

  -- A server that writes its updates with the same descriptor.
  abbrev pub sends : StreamEvent → Incoming
  sends (update u) = message (serialize_binary_matchmaking_update w u)
  sends (error e) = failure e

-- The numbers of the updates have 32 bits.
abbrev pub AreInt32 : List StreamEvent → Type 0
AreInt32 [] = Unit {0}
AreInt32 (update u ∷ es) =
    (IsInt32 u.status × IsInt32 u.queue_position × IsInt32 u.estimated_wait_seconds) × AreInt32 es
AreInt32 (error e ∷ es) = AreInt32 es

module _ {w : Wire} (ok : IsFaithful w) where
  incoming-sends : (es : List StreamEvent) → AreInt32 es → map (incoming w) (map (sends w) es) ≡ es
  unfolding incoming
  incoming-sends [] h = refl
  incoming-sends (update u ∷ es) ((hs, hq, he), h) =
      ap (λ v. update v ∷ map (incoming w) (map (sends w) es))
        (matchmaking_update-through_bytes ok (matchmaking_update-roundtrip ok u hs hq he))
      ∙ ap (◌∷◌ (update u)) (incoming-sends es h)
  incoming-sends (error e ∷ es) h = ap (◌∷◌ (error e)) (incoming-sends es h)

  -- A search calls JoinQueue at the origin of the page; a server whose wire reads back what was
  -- written finds the name of the player in the request, or the random name if it is empty, and
  -- the rating 1500. If the server sends updates whose numbers have 32 bits, and perhaps a failure,
  -- then the promise is settled by the first match or failure that it sent, and by nothing else.
  pub find_match-Served :
      (origin : Text) (n : ℕ) (c : Client) (name random : Text) (es : List StreamEvent)
      → ends_with_slash origin ≡ false
      → AreInt32 es
      → let found = find_match w (origin ++ slashes n) c name random (map (sends w) es) in
        Reaches
          (origin ++ txt "/matchmaking.MatchmakingService/JoinQueue")
          (deserialize_binary_join_queue_request w)
          (record { player_id = name_or name random; rating = pos 1500 })
          found.0
        × (found.1.1 ≡ first_outcome es)
  unfolding find_match join_queue new_service_client begin_match
  find_match-Served origin n c name random es plain h =
      let client : Client = (begin_match c name random).0 in
      let at =
        ap (λ t. t ++ txt "/matchmaking.MatchmakingService/JoinQueue")
          (strip_slashes_lem origin n plain) in
      (
        record {
          addressed = at;
          understood =
              join_queue_request-through_bytes ok (join_queue_request-roundtrip ok _ (omega arith));
        },
        ap (λ es. (await_match (client, pending) es).1) (incoming-sends es h)
            ∙ await_match-first client es,
      )
