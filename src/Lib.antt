-- ===== src/Lib.antt =====
-- chaindash is a terminal dashboard for PlatON nodes. Collectors (src/collect) read blocks, consensus
-- states, node details and system figures and write them into `Data` (src/collect/data.rs), which stands
-- behind one lock. `Data` marks what changed as dirty and wakes the interface through a channel of
-- capacity 1; the event loop (src/main.rs) then takes the flags and updates the widgets that show what
-- changed (src/app.rs, src/widgets). The notifier (src/notify.rs) turns connection failures, ranking
-- changes and the daily summary into Telegram messages. The geography of the peers (src/geo) is kept in
-- an SQLite database that one worker owns.
--
-- Base holds what the other modules share: tests and conditionals, lists, text, association lists for
-- `HashMap`, signed integers, and the sort that stands for `sort_by`. Text is a list of code points;
-- `str::len` and `bytes` go through UTF-8.
--
-- * Opts models the value parsers of src/opts.rs: Number (positive integers, `u16`), QuietHours
--   (`TelegramQuietHours`, `parse_telegram_quiet_hours`), NotifyEvent.
-- * Notify models src/notify.rs: Filter (`TelegramNotificationFilter`), Template
--   (`normalize_template`, `render_template`), Config (`TelegramConfig`), State (the part of
--   `NotificationState` for connections, rankings and the rate limit), Summary
--   (`QuietSummaryBuffer`), Delivery (from an event to the texts for each chat), Daily (the daily
--   summary, and the errors of Telegram).
-- * Data models src/collect/data.rs: Chain (`ChainStats`), NodeStates, NodeDetails, Status
--   (`UiStatusStore`), System (`SystemState`, with the disk selection of src/app.rs), and Store (`Data`,
--   `UiDirtyState`): `perform` runs the method that a `Write` names.
-- * Widgets models src/widgets. Helpers is helpers.rs, with the lines that stay where rows are few in
--   Helpers.Priority. Countries is countries.rs, with what it draws as a list of texts and places.
--   Nodes (node.rs), Details (node_detail.rs) and Disks (disk_list.rs) build the lines, paragraphs and
--   tables of Lines, which ratatui draws. Chart is chart.rs with its users txs.rs and time.rs: the
--   series, the figures (Figures) and trends (Trends), and each write into the buffer: characters and
--   lines (Marks), labelled boxes (Boxes), the plot (Plot), the grid that stands in for it (Grid), the
--   panel (Panel) and both charts (Blocks).
-- * Draw models src/draw.rs: the heights of the rows, and which panel is drawn where.
-- * App models src/app.rs with the `update` of each widget. App.Loop is the event loop beside the
--   collectors as a step relation: each step is what happens under one lock. App.Wake and App.Fresh hold
--   the invariants, App.Rest the interface's own runs, and App.Settles what follows.
-- * Collect models the collectors of src/collect. Snapshots is src/collect/daily_snapshot.rs: the stored
--   snapshots and the deltas of a summary, and in Snapshots.Files the file, with the errors of its
--   system calls. Types and Details are src/collect/types.rs and src/collect/node_detail.rs: a round
--   of requests to the explorer, and the rankings with what the notifier makes of them. Endpoints is
--   what src/collect/collector.rs reads from the options, Subscription a round of
--   src/collect/block_subscription.rs, NodeState the turns of src/collect/node_state.rs, SystemStats the
--   samples of src/collect/system_stats.rs, PeerGeo the lookups of src/collect/peer_geo.rs.
-- * Geo models src/geo: Snapshot (src/geo/snapshot.rs), Store (src/geo/store.rs), Peers
--   (src/geo/peers.rs) and Ipinfo (src/geo/ipinfo.rs).
--
-- Each component has its tests and witnesses in a module Examples.
--
-- Numbers are natural numbers, or signed where the source compares with numbers below 0. The block
-- intervals saturate at the largest `u64`, as in the source; the other counters of the program grow by
-- one for each event, and their overflow is not modelled. A sum of `u64` over a chart's last points is
-- `none` where it overflows. `decimal_from` takes the number itself, plus
-- one, as its fuel, which is enough since each digit divides it by ten; `trim_start_matches` takes the
-- length of the text, which is enough since each prefix it drops has a character or more. Every other
-- function recurses on its data. Floating-point numbers are a type that is a parameter, and so are the
-- operations that the source uses on them, as the records Floats, FloatText, Percentages, Coordinates,
-- Amounts, SizeTexts, PlotFloats, SeriesFloats and ChartFloats. Places on the screen are `u16`.
--
-- Not modelled: HTTP and RPC requests, the terminal, threads and the runtime, and SQLite itself, whose
-- errors are a parameter of each transaction. What ratatui computes is a parameter: the width of a text,
-- the inside of a block and the parts of a layout (the records Panels and Layouts). What it does with a
-- paragraph or a table is not modelled, and neither is the panel of src/widgets/system_summary.rs, which
-- prints floating-point numbers into one row of a table. A notifier's clock and that of
-- the database are arguments. A map is only read by key, sorted, or counted, so that the order of its
-- entries does not show. `try_send` on the wake channel is a flag: the one message is there or not.
pub mod Base
pub mod Opts
pub mod Notify
pub mod Data
pub mod Widgets
pub mod App
pub mod Collect
pub mod Geo
pub mod Draw
