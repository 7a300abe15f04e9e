-- ===== src/Lib.antt =====
-- A model of the core of the web client: the logic of lists and tables, of the permission panel, of
-- the signed-in session and of the realtime connection, in TypeScript under web/src.
--
-- Base holds what the parts share: Boolean tests, lists measured by native numbers, `Set` and `Map`
-- as lists in insertion order, stable sorting, decimal numbers, and texts: trimmed as strings, or walked by
-- character as lists of code units (Codes).
-- Pagination (lib/pagination.ts) clamps and slices pages, and Jump reads a typed page; ListPaging (hooks/useClientPagination.ts,
-- lib/tenant-expiry.ts) is the state of a paged list above it, with the guards of an expired tenant; its
-- child Mobile is the list of a phone (hooks/use-server-mobile-infinite-scroll.ts).
-- TablePreference (types/table-preference.ts) has the types; its children Widths, Actions, Normalized,
-- Config, Columns and Rows the functions of that file; Mutations and Loading the changes and the load
-- of hooks/table-preferences-helpers.ts, over `applyConfig` of hooks/useTablePreferences.ts; Saving its
-- save with a timer; Moves the moves of a column (components/table/table-column-order-moves.ts), with Drag
-- for the drag of one (use-table-column-drag-reorder.ts and its two helper files).
-- Permissions (lib/permissions.ts) is the permission tree, in the children Options (buttons with
-- their menus), Selection (check states, toggles) and Expand (what is saved).
-- AuthSession is the store of stores/auth-session-lifecycle.ts and stores/auth-store-actions.ts with
-- the browser's storage: NavTree (lib/nav-tree-cache.ts, which sorts by Permissions), Storage
-- (db/session-repo.ts, lib/session-token.ts, lib/tenant-display.ts, lib/purge-local-data.ts,
-- db/app-db.ts and lib/session-expired.ts), Lifecycle (the actions) and Sequence (the actions one after
-- the other). An answer of status 401 that ends the session clears the token of the requests as it
-- arrives; the rest of its handler, which purges the storage and resets the store, is a later step.
-- Realtime (lib/realtime/ws-client.ts) is the client with the browser's sockets and timers; Events
-- has the callbacks and the relation of all steps.
-- ApiClient (lib/api/client.ts) sends requests: it asks the guard of ListPaging,
-- takes the token of AuthSession and ends its session. There the handler of an end is taken when it
-- has completed, and the flag of an expired tenant is kept beside the session.
-- Roles (pages/RolesPage/hooks/use-roles-page-actions.ts) creates a role and saves its permissions and
-- scope, by Permissions and DataScope.
-- DateRangePicker (components/form/date-range-filter-utils.ts, use-date-range-picker.ts) picks two days;
-- DeviceNavLayout (lib/device-nav-layout.ts) keeps the layout of the navigation; FilterGrid
-- (lib/filter-grid.ts, components/layout/page-filter-toolbar-layouts.tsx) puts filters in rows and shows
-- them.
-- Cron (lib/cron-builder.ts) has the form of a schedule; Field builds and reads one part, Expression
-- the whole text.
-- DataScope (lib/data-scope.ts) is the cascading selection of departments.
-- Scenarios applies the theorems to concrete data.
--
-- A function of the source has its name in snake case. State is a record that is passed on; a request
-- to the server is an argument that holds its answer; `localeCompare` and the order of `sort` are
-- parameters. A number of the source that may have a fraction is a Fraction; a number that is a count,
-- an index or a time is a natural number. Loops run over lists and trees. Two have fuel: printing a
-- number, one step more than the number, where each step divides by ten; and cutting filters into rows,
-- as many steps as fields, where each step takes one field at least.
--
-- Not modelled: rendering, the phone's page reset of a list, the functions that name each address of
-- the server, the database library, steps of others between two steps of one session action, saved ids of
-- columns that are integers or names of `Object.prototype`, `waitForEvent`, formatting
-- of dates and labels, the texts of a schedule's description, the overlay and scrolling of a drag, and
-- the server in Python.
pub mod Base
pub mod Pagination
pub mod TablePreference
pub mod Permissions
pub mod Realtime
pub mod ApiClient
pub mod AuthSession
pub mod ListPaging
pub mod Cron
pub mod DataScope
pub mod DateRangePicker
pub mod DeviceNavLayout
pub mod FilterGrid
pub mod Roles
pub mod Scenarios
