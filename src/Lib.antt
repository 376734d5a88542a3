-- ===== src/Lib.antt =====
-- HaxWar's browser client: the three classes of src/HexWar.Client/wwwroot/js that are written by
-- hand, GameClient (gameClient.js), GameRenderer (gameRenderer.js) and GameUI (gameUI.js), and the
-- messages and service clients that protoc generated from matchmaking.proto
-- (generated/matchmaking_bundle.js).
--
-- The parts and how they interact. GameClient keeps the WebSocket, the sequence numbers and the
-- reconnect timeout, and calls callbacks. GameUI sets those callbacks: it keeps the state that the
-- server sent, the optimistic moves, the selection, the timer, the panels, the log and the
-- broadcast list, it draws through GameRenderer, and it sends moves and decisions through
-- GameClient.
--
--   Base          lists, options, texts, integers and association lists that the parts share
--   Protocol      what the client reads and writes on the WebSocket
--   Client        gameClient.js: the constructor, connect with the handlers of the socket,
--                 disconnect, send, moveUnits, resolveEncounter, getState, log
--     Events      handleMessage, handleGameEvent
--     Matchmaking findMatch, with the stream of updates as a list of events
--     Stream      findMatch through the generated service client
--     Statuses    findMatch and the statuses of matchmaking.proto
--     Session     the browser's events that drive a client, and what holds over their histories;
--                 Session.Link is the state machine that a connection is to follow, Session.Heard
--                 what is sent on which socket
--   Renderer      gameRenderer.js: initialize, drawEdge, drawNode, selectNode, highlightNeighbors,
--                 resetHighlight
--     Board       NODE_POSITIONS and EDGES
--     Update      updateState; Strokes has what it draws at the edges, Latest what is left of the
--                 states before
--   Ui            gameUI.js: the fields of the class and the elements of the page
--     Timer       startCountdown, stopCountdown, updateTimerDisplay, the browser's intervals
--     Buttons     the unit buttons, updateMoveButton
--     Optimism    the optimistic moves of handleStateUpdate; Optimism.Bounds what they take,
--                 Optimism.Kept which of them wait on
--     Update      handleStateUpdate, highlightUndecidedEncounters
--     Moves       handleNodeClick, executeMoveTo (Moves.Orders), executeMove, the unit buttons'
--                 listener
--     Panels      handleEncounter, resolveEncounter, handleGameOver, updateConnectionStatus,
--                 startMatchmaking with findMatch
--     Standing    what only a new match changes: the client, the screen shown, the own side
--     Trim, Log   addLog
--     Broadcast   handleBroadcastEvent: the stories (the switch), the list of cards (Feed), and the
--                 parts of a card (Layout)
--   Matchmaking   the messages of the bundle (Queue, Updates, Rooms): constructors, setters,
--                 serializeBinaryToWriter, deserializeBinaryFromReader
--     Binary      serializeBinary, deserializeBinary; Kinds has the eleven types together
--     Objects     toObject (Objects.Messages), as JavaScript values
--     Status      MatchmakingStatus
--     Hostname    the host of a service client without the slashes at its end
--     Service     the generated service clients: constructors, method descriptors, methods
--   Page          initialize: the callbacks and listeners that join the three classes
--   App           the page from its login form on: the form's listeners, startMatchmaking with the
--                 searches that wait for findMatch, the new match; the states that it comes to
--
-- State is passed explicitly: a method takes the record of its class and returns the new one with
-- the list of what it did, in order (Client.Effect). An element of the page is a record of the
-- attributes and classes that the code sets. An asynchronous part is a list of events: the events
-- of the sockets and timeouts (Client.Session.Event), of the intervals (Ui.Timer.Single.Event), of
-- the renderer's callers (Renderer.History), of the player and the server
-- (Ui.Moves.History.Event), of the game (Page.Event) and of the whole page (App.Event). What the
-- browser allows of them is stated where it is used: a socket closes once, an interval or timeout
-- calls back only while it is set, a disabled button gets no click. App.Entering and App.Returning
-- follow the page into its game and back to it after its connection was lost. App.Reach are the states that
-- the whole page comes to by allowed events.
--
-- Bounds and fuel. Numbers are natural numbers; node identifiers are positive, so the code's tests
-- for truth are tests for presence. A subtraction that can go below zero is on integers
-- (Base.Int) or stands under Math.max(0, ...), which the subtraction of natural numbers is.
-- `show` has the successor of the number as fuel, more than one for each digit, and the loop of
-- Ui.Trim has as many turns as there are children. Readings of the clock and texts of the
-- time of day are arguments.
--
-- Not modelled. JSON.parse and the browser itself are the language and its platform; messages are
-- well-formed, with the payload that the server sends for the event type. Inline styles other than
-- those listed and white space between tags do not enter the state. The libraries grpc-web and
-- google-protobuf in the bundle are third-party: what the messages call of them is the record
-- Matchmaking.Wire, with what the messages rely on in Matchmaking.IsFaithful, and what a service
-- client gives the library is the record Matchmaking.Service.Call; toObjectList of the library is an
-- argument of Matchmaking.Objects. The C# server, the pages and styles are outside.
pub mod Base
pub mod Protocol
pub mod Client
pub mod Renderer
pub mod Ui
pub mod Page
pub mod App
pub mod Matchmaking
