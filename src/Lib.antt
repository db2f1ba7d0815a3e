-- ===== src/Lib.antt =====
-- The factory console of EV Factory Twin (apps/frontend): a verification development.
--
-- The console shows a factory that runs elsewhere. The backend streams events over a WebSocket and
-- serves snapshots over REST; the console keeps the current picture in a store, lets the user pause
-- it, recovers from lost connections, signs users in and out, lets Designers edit layouts and run
-- scenarios on them, and Monitors review and apply the candidates. This development models that code
-- and states what it guarantees.
--
-- Parts, and how they interact:
-- - Schema (Fleet, Planning, Layout, Event): the types inferred from apps/frontend/src/schemas; Content,
--   Request and Factory: what the schemas of a layout's content, of a scenario's run and of a layout to be
--   shown ask of the fields.
-- - Store: stores/factory-store.ts. `FactoryStore` is the state, one function for each action;
--   Store.Actions gives all of them as one type. Metrics, Alerts, Commands, Fleet: contracts of single
--   actions; Invariant: what every sequence of actions keeps; Board: the commands without the objects
--   that hold them.
-- - Socket: lib/websocket-client.ts. `FactorySocket` holds the fields of the class (Socket.State), one
--   function for each handler, timer and method; `step` takes the browser's events and the owner's
--   calls; what the client does to the outside is the list `calls`. Sound: invariant; Delivery and
--   Order: which events reach the owner; Closing: how connections end.
-- - Snapshot: lib/factory-snapshot.ts, the storing of a snapshot; Snapshot.Fetch: the race that gets it.
-- - Sync: hooks/use-factory-socket.ts, which owns a socket and writes the store. `Sync` holds the
--   closure's variables of one mount; the answers of fetches carry the generation that they were asked
--   for. Sound: invariant; Replay: how a snapshot and the events around it are put together; Pausing:
--   the pause button.
-- - Console: the socket together with the hook's callbacks; Handover: what reaches the store.
-- - Auth: components/auth/auth-provider.tsx. `Auth` holds states and refs; Inputs: the callbacks, cut
--   at each `await`; Coherent: invariant; Racing: answers that come late; Ending: the end of a session.
-- - Workflow: lib/workflow.ts. Stages, Queues, Actions.
-- - LayoutDiff: lib/layout-diff.ts. Unchanged, Reported: empty reports.
-- - Layout: lib/factory-layout.ts, lib/layout-projection.ts and the point check of schemas/factory.ts;
--   Layout.Live: hooks/use-applied-factory-layout.ts.
-- - LayoutEditor: app/layouts/page.tsx, with the types of components/layout/layout-zone-editor.tsx and
--   the presses of components/factory/factory-plant-map-2d.tsx. `LayoutWorkspace` is the state of the
--   page and what it asked of the API and the toasts; Stations, Routes, Zones and Saving have one
--   function for each handler, cut at each `await`; Inputs has all that can happen as one type. Sound and
--   Attached: invariants; Sending: what is sent to be stored; Fresh, Validation, Snapping: single
--   operations; Crash, Switching, Loading: what can go wrong.
-- - ScenarioWorkspace: app/scenarios/page.tsx, with the buttons of components/scenarios/
--   scenario-actions.tsx, in the same manner: Loading, Review, Inputs. It reads Workflow and Permissions
--   and writes the store. Form: the defaults of components/scenarios/scenario-run-form.tsx; Duties: who
--   may ask for what.
-- - CommandHistory: app/commands/page.tsx, with the store it writes; Retrying: its retries.
-- - Optimization: components/scenarios/optimization-panel.tsx and schemas/optimization.ts; Counting: the
--   number of candidates.
-- - Routing: middleware.ts, lib/auth/return-to.ts and where components/auth/login-form.tsx goes.
-- - Api: lib/api-client.ts. Headers and endings of a request; Responses; Endpoints: the table of calls.
-- - InitialData: hooks/use-initial-factory-data.ts; Races: loads that overtake each other.
-- - Permissions: lib/auth/permissions.ts. Toasts: stores/toast-store.ts.
-- - Prelude: lists, maps, sorting, dates and signed integers that the parts share. Samples and the
--   modules called Tests: concrete values and runs.
--
-- Conventions: a number that need not be whole is a signed count of thousandths, a time a count of
-- milliseconds. `Date.parse` is a parameter wherever it is used, since how a text is read is the
-- engine's business; NaN is `none`. Texts are compared by their characters. Maps are association lists
-- in insertion order. A handler that runs in one turn of the event loop is one function; what it awaits
-- ends it, and the answer is another input, at any later time and in any order. A click that bubbles to
-- an enclosing element is two inputs. `new URL`, and the reading and
-- the printing of numbers where a form needs them, are parameters. Every loop
-- of the source runs over a list, but for the search for an unused id in the layout editor: it has one
-- round more than there are ids as fuel.
--
-- Bounds are the source's: 1000 waiting events in the socket and in the hook, 500 while paused, 60
-- samples of metrics, 50 alerts, 10 seconds of backoff.
--
-- Not modelled: rendering (the React components and the 3D scene), the Supabase client and the browser's
-- sockets and timers (their events are inputs), the checks that zod makes of single fields of answers, the
-- views of the 2D map and its measurements, the navigation's labels, and the backend.
pub mod Prelude
pub mod Samples
pub mod Schema
pub mod Store
pub mod Socket
pub mod Snapshot
pub mod Sync
pub mod Workflow
pub mod Console
pub mod Api
pub mod InitialData
pub mod CommandHistory
pub mod Permissions
pub mod Routing
pub mod Toasts
pub mod Layout
pub mod LayoutDiff
pub mod LayoutEditor
pub mod ScenarioWorkspace
pub mod Optimization
pub mod Auth
