-- ===== src/Lib.antt =====
-- Open Format 3D Viewer: the API service (apps/api) and the processing worker (apps/worker),
-- both in Python.
--
--   Core: core/exceptions.py, the rows of apps/api/app/models, and a state monad with exceptions
--     for the database sessions (`Core/Session.antt`). A table is the list of its committed
--     rows; `select` keeps the rows that pass the where clause.
--   Projects: core/authorization.py (`Projects/Authorization.antt`), services/projects.py
--     (`Projects/Service.antt`) and routers/projects.py (`Projects/Handlers.antt`) of
--     apps/api/app.
--   Gate: middleware/auth_middleware.py, middleware/csrf_middleware.py, core/csrf.py,
--     core/dependencies.py and services/api_key.py, composed in the order that main.py registers
--     them (`serve` of `Gate.antt`); `Gate/Csrf.antt` is about cross-site requests,
--     `Gate/Granted.antt` about the users that requests are served for.
--   Paging: the cursor pagination of services/models.py that five list endpoints share
--     (`Paging.antt`), on the rows that the where clause keeps, in the order of the query;
--     `follow` is a client that goes from page to page, with one request of fuel more than there
--     are rows.
--   RateLimit: middleware/rate_limit.py (`RateLimit.antt`), on a record `Redis` of the commands
--     with what they keep; `RateLimit/Windows.antt` is about one clock hour of arrivals,
--     `RateLimit/Refinement.antt` about a specification without Redis, and
--     `RateLimit/Evasion.antt` about tokens that nobody has checked.
--   Session: the refresh tokens of services/auth.py and core/redis.py (`Session.antt`); Redis is
--     the list of its refresh keys, and an expiry is a logout at some time.
--   Ssrf: core/ssrf.py of the API and `_validate_webhook_url` of the worker's tasks/webhook.py
--     (`Ssrf.antt`), over a record `Net` of what Python's URL parser, name resolution and
--     ipaddress answer.
--   Uploads: `Uploads/Filenames.antt` and `Uploads/Files.antt` are services/storage.py,
--     `Uploads/Service.antt` services/models.py and `Uploads/Routes.antt` routers/models.py,
--     over the tables of `Core/Models.antt`. What Redis, the storage, libmagic and Celery's
--     broker answer to one request are the fields of `World`; deletions and scan tasks are
--     recorded in the order in which they are sent. `Uploads/Routes/Kept.antt` says what the
--     requests keep, the other files below it are about access, the daily quota, scans and
--     storage keys.
--   Share: services/share.py and routers/share.py (`Share.antt`); `elsewhere` stands for what
--     other requests make of the other tables. `Share/Live.antt` and `Share/Revoked.antt` follow
--     a link before and after its revocation.
--   Hooks: services/webhooks.py, routers/webhooks.py and schemas/webhooks.py (`Hooks.antt`),
--     with the guard of `Ssrf.antt`; `Hooks/Registered.antt` is about the rows,
--     `Hooks/Owned.antt` about their owners.
--   Annotations: services/annotations.py and routers/annotations.py (`Annotations.antt`), which
--     send webhooks through `Hooks.antt`, and services/bcf_export.py (`Annotations/Export.antt`,
--     and `Annotations/Export/Order.antt` about the comments of a topic).
--     `Annotations/Clean.antt` is about the texts that are stored, `Annotations/Access.antt`
--     about the roles.
--   Worker: apps/worker/app/tasks. `Worker/Chunks.antt` is the splitting of files of common.py
--     and ifc.py: the read loop has one round more of fuel than the file has bytes, and every
--     round but the last reads a byte. `Worker/Common.antt` is common.py and error_handler.py;
--     the lock in Redis is the record `LockStore` of operations and laws. `Worker/Stl` is
--     stl.py: the detection of the type, the stages, and one delivery of `process_stl` with its
--     guards and handlers. What trimesh, gltf-pipeline, the storage and the database answer, and
--     the exceptions that escape before the `try`, are the fields of `Tools`; the first read of
--     the row and the removal of the temporary directory do not fail. The decimal digits of a
--     part's number are computed with one more fuel than the number. The texts that format a
--     size in megabytes are left out. `Worker/Webhook.antt` is one run of `dispatch_webhook` of
--     tasks/webhook.py, and `Worker/Webhook/Attempts.antt` its runs with the redeliveries that
--     Celery documents for `self.retry`. `Worker/Scan.antt` is one run of `scan_file` of
--     tasks/scan.py, and `Worker/Scan/Framing.antt` the stream that clamd reads, with one round
--     of fuel more than the file has bytes. `Worker/Mesh.antt` is tasks/mesh.py, and
--     `Worker/Mesh/Converted.antt` the way of an upload through the scan and the mesh queue.
--     `Worker/Gltf.antt` is process_gltf of tasks/gltf.py, and `Worker/Gltf/Rejected.antt` is
--     about the files that gltf-validator refuses. `Worker/Gltf/Uploaded.antt`,
--     `Worker/Gltf/Stages.antt` and `Worker/Gltf/Stored.antt` are about what a run has stored
--     when the model is ready.
--
-- Not modelled: registration, passwords and OAuth, and the converters other than STL and glTF;
-- observability, configuration and the WebSocket server, which is not Python.
pub mod Prelude
pub mod Core
pub mod Projects
pub mod Paging
pub mod Gate
pub mod RateLimit
pub mod Session
pub mod Ssrf
pub mod Uploads
pub mod Share
pub mod Hooks
pub mod Annotations
pub mod Worker
