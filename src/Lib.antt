-- ===== src/Lib.antt =====
-- The engine of Yeoun, a service that lets a user talk with a persona of a deceased person, modelled
-- from its Python code. Spring Boot calls it over HTTP; the models run on one GPU, in one worker.
--
-- Parts, with the file that models each:
--   Config      app/config.py: the settings and `get_settings`, with Cached
--   Fs          files, directories and the `pathlib` operations on them; Nodes says what they
--               leave at a path, Listing what a directory holds
--   Storage     app/storage/filesystem.py: Range (`parse_range`, `iter_file_range`) and Resolve
--               (`safe_resolve`, `safe_rmtree`); what is proved of them in Range/InFile, Range/Echo,
--               Range/Chunks and Removal
--   Sessions    app/sessions: the store, with Sweep and Refinement; Sweeper is the loop of its task
--   Safety      app/safety: both guards, with Matching, Spacing and Detection
--   Models      app/models: Gemma, OmniVoice, Ditto and Registry, one file for each class
--   Db          app/db/models.py, and app/db/repository.py in Repository; Deletion is about
--               `delete_persona_tx`; app/db/engine.py in Engine; Mock has the helpers that fill
--               and read the tables in memory
--   Pipeline    what the two pipelines work with: the loaded models, settings and outside code
--   Creation    app/pipeline/persona_creation.py: the progress store and the pickers; the steps in
--               Steps, `process_persona` in Process; Made is about the clips that a run leaves, Again
--               about a second run, Newest about the pickers
--   Conversation  app/pipeline/conversation.py: events and `_trim_history`; step 6 in Media,
--               `process_message` in Message
--   Routers     app/auth.py, with Access; Media is app/routers/media.py, where Ready and Video are
--               about files that a pipeline has made; Messages is the counter of running messages in
--               app/routers/sessions.py, with Full, Lifetime the start and the end of a session
--               there, Lock its lock; Health is app/routers/health.py; Personas, Uploads and Clips
--               are app/routers/personas.py; Answers puts the bodies of app/schemas around what the
--               routes answer; Small is the application of the tests
--   Main        app/main.py: the life of the process, with Life; the exception handlers in Errors
--   Schemas     app/schemas/common.py
--   Prompts     app/prompts/system_prompt.py; Order is about the order of the answers
--   Base        helpers: dicts, texts, numbers, UUIDs, exceptions
--   Fixtures    the small world that the tests of each part run on
--
-- How the code corresponds. A class is a record and a method a function on it, under its name in the
-- code's words (`SessionStore.end` is `end_session`). Code that may raise is an `Exec`: from a state
-- to a `Result` and the state after it, so that what was written before an exception stays written.
-- `asyncio.CancelledError` is an exception of its own, which `except Exception` lets through. An
-- async generator is a `Run`: its events, how it ended and the state after it. A session that a
-- pipeline holds is the store's own object; its changed value is what the store holds then.
--
-- Conventions. Times are whole ticks. A text is the list of its code points; files of text hold code
-- points as well, and headers are Latin-1, so that digits are ASCII. A UUID is its number. The
-- messages of exceptions, which are for the operator, are cut to their fixed part.
--
-- Outside code is a parameter: transformers, OmniVoice, soundfile and inference.py (`Vendor`),
-- ffmpeg, `wave`, `str.lower`, `uuid4`, `mkstemp` (`Env`), PostgreSQL (`Postgres`), symbolic links
-- (`readlink`), writes that fail (`Disk`), a `mkdir` of a session's speech and a removal that stop
-- part of the way (`mkdir_stops`, `removable`). What is relied on of them is said by `IsLower` and
-- `IsPostgres`, which Fixtures shows of concrete functions.
--
-- Bounds and fuel. `iter_file_range` reads at most one chunk for each byte that is left, and is given
-- as many rounds; `resolve` has one step for each part of a path and each link that it follows, and
-- runs out only on more, which is the error that the operating system gives for a loop of links.
-- Python's integers have no bound, but `int` refuses more than 4300 digits, as `parse_int` does.
--
-- Not modelled: how FastAPI routes and validates requests, how pydantic reads the environment, the
-- logging, the pool of the database, the semaphores and the locks but that of a session (the two
-- pipelines run one at a time), unlinks that fail, a `mkdir` that fails anywhere but for the speech of
-- a session, and UTF-8.
pub mod Base
pub mod Config
pub mod Fs
pub mod Storage
pub mod Sessions
pub mod Safety
pub mod Models
pub mod Db
pub mod Pipeline
pub mod Creation
pub mod Conversation
pub mod Fixtures
pub mod Routers
pub mod Prompts
pub mod Schemas
pub mod Main
