-- ===== src/Lib.antt =====
-- Vibe Print, a gateway that queues print jobs and routes them to printers: a model of its Python code
-- in app/, and what holds of it.
--
-- A request comes to a handler of the print API, which resolves what to print, checks the quota and
-- the idempotency key, and puts a job into the table `jobs`. The worker polls that table, claims jobs,
-- resolves pools to printers, renders, sends, and records the outcome. Printers, formats, templates and
-- overlays are rows of the registry, with a version as the token of optimistic concurrency.
--
-- State is passed explicitly: a method takes the state of its class and returns its result beside the
-- new state, also when it raises, so what an error leaves behind can be stated. Readings of the clock,
-- new ids, hashes and the devices are arguments. Timestamps are the texts that are stored and compared.
--
--   Prelude       lists, counting, sorting, texts and integers that the other files share
--   Errors        app/errors.py: ERROR_STATUS, ApiError, and results that may be exceptions
--   Json          the JSON values of requests and params. Values: str, int, loops and subscripts on them
--   Models        app/models.py and app/backends/base.py: the enums and requests. Params: the params of
--                 printers and their stored form. Sizes: what rendering reads of them
--   Clock         app/db.py utcnow_iso and the midnight of app/api/print.py; Clock/Order compares them
--   JobTable      a row of `jobs` and the statements on one row
--   Jobs          app/queue.py, class JobStore. Backpressure: enqueue. Lifecycle: claim, mark, requeue.
--                 Ready: what is given out. Retention: listing, keys, prune. Kept: what these keep
--   Registry      app/registry.py. Versioned: one table. Updates: its laws. Config: the methods.
--                 Keys, References: foreign keys. Yaml: import_yaml. Named, Upserted: an import as
--                 writes by name. Planned: against its plan
--   Pools         app/pools.py. Targets: dispatch. Common: capabilities of a pool
--   Devices       app/backends/*.py capabilities, app/backends/factory.py, app/context.py
--   Backends      app/backends: make_backend, the constructors, send over byte streams and files.
--                 Cups, IppSend: send to a spooler and by IPP. Dispatch: send of any backend, and the
--                 limit that _send of app/queue.py puts on it. Status: status, trays, provision_queue.
--                 Built: make_backend on validated params. Delivered: outcomes against bytes. Polling:
--                 the loop on a CUPS job. Retries: what a failed send has left at the device.
--                 Requeued: the worker and the backends. Reachable: status against send
--   PrintApi      app/api/print.py. Quotas: _enforce_quota. Targets: _resolve_targets. Replay:
--                 idempotency keys. Reprint: app/api/jobs.py reprint
--   Worker        app/queue.py, class Worker, one run for one job. System: the loop, the tasks in flight
--                 and the calls of others, as a list of actions. Outcomes, Sends, Keys: what a run does.
--                 AtMostOnce, Stranded, Attempts: what any list of actions does. StoreSteps: what one
--                 operation does. Ends: how a run ends. Interrupted: what a restart finds.
--                 Machine: the states of a job as a machine of their own. StateMachine: the
--                 queue against it. Backoff: retries.
--                 Offline: alerts for printers that are out of reach
--                 Rendering: _render, from a payload to the bytes for a device. Labels: what it sends to a
--                 label printer
--   Render        app/render.py. Layout: text in columns. Zpl, Star, Escpos: the three renderers. Raster:
--                 ^GFA fields. Lines, Pixels, Commands, Injection, Refused, Support,
--                 Validated: what holds of them.
--                 Noninterference: what the data of a request cannot change in a label
--   Templating    app/templating.py. Merge: what merging keeps. Fetch: what a PDF template can open
--   Overlay       app/overlay.py: what is drawn on which page. Drawn: the strokes of each field
--   Audit         app/audit.py. Chain: what the chain of hashes shows
--   Auth          app/auth.py and require_auth of app/deps.py. Limits: what the limiter admits. Client:
--                 get_real_ip and require_access. Windows, Served: the limiter over a run of requests
--   Ipp           app/ipp_client.py: requests in bytes and the parser. Attributes: its round trip
--   Admin         app/admin.py, the handlers that change something. Printing, Operations: those beyond the
--                 registry. Calls: all of them as values. Entries, Logged: what the audit shows of
--                 them.
--                 Importing: import_config and provision. Unaudited: an import that fails.
--                 Remote: app/remote.py. Secret: what a client is shown of the tunnel's token
--   Tests         a small installation and the theorems applied to it
--
-- A run of the worker for one job is one atomic step, at the moment when it ends; the job is in flight
-- until then. The writes to its row that a run makes in between (printing) are therefore not seen by
-- other actions, but a restart may find the row of a job in flight printing. Three functions run on fuel: `digits` writes n with n + 1 steps, and n has no more
-- digits than that; `parse_from` has a step for each byte of the body, and a round takes one at least;
-- `poll` has 121 rounds, and a round of half a second each leaves room for no more before its deadline.
--
-- Rendering starts from JSON values and gives code points, bytes or calls of the driver; Jinja, the PDF
-- library, the driver's encoder and base64 are arguments.
--
-- Not modelled: what draws pixels (the raster label, the PNG preview, QR images), since PIL does it; how
-- sockets, libusb, pycups, httpx, reportlab, pypdf, ipaddress, PyJWT, pydantic and the YAML parser work,
-- which are arguments; export_yaml; listings, previews, assets and snapshots of the administration API;
-- discovery, fleet, tunnel and start-up.
mod Prelude
pub mod Errors
pub mod Json
pub mod Models
pub mod Clock
pub mod JobTable
pub mod Jobs
pub mod Registry
pub mod Pools
pub mod Worker
pub mod Devices
pub mod Backends
pub mod PrintApi
pub mod Audit
pub mod Auth
pub mod Ipp
pub mod Render
pub mod Templating
pub mod Overlay
pub mod Admin
mod Tests
