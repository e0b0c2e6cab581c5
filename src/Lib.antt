-- ===== src/Lib.antt =====
-- A verification library for Xray Checker, a program that checks proxy nodes, asks remote probe
-- agents for a second opinion, and shows the result on an admin page.
--
-- The parts that are modelled, and how they interact:
-- * web/static/localization.js translates the admin page into Russian and back, in the browser. It
--   uses no other part.
-- * diagnostics/manager.go keeps diagnostic sessions: a caller creates a session for a node and
--   names agents, a job is registered for each agent, and a signed observation answers the job. A
--   session ends when all have answered, by its deadline, or when it is cancelled.
-- * diagnostics/verdict.go compares an accepted observation with the measurement that asked for it.
-- * reachability/ turns a finished session into a cell of a matrix of nodes and agents, and reads
--   the rows of the matrix for nodes that only some can reach. The automation asks it which agent
--   to prefer.
-- * verdictlog/ keeps the verdicts of the diagnostics in a file after their sessions are gone.
-- * observation/policy.go and checker/observation.go say which nodes the checker accounts for, by
--   the subscription source that a node comes from.
-- * checker/checker.go keeps the availability of each node: what the checks of its proxy and of its
--   host have found, since when it fails, and in checker/failure.go why. The other parts read it.
-- * pathquality/ reads the history of the speed tests by the hour of the day, to show when the path
--   to each node is bad.
--
-- Which file models what:
-- * Base and its children: Boolean tests on native numbers, lists, texts as lists of code points,
--   the trimming of Go's strings, Go maps as association lists, sorting.
-- * Localization/Russian and Localization/Patterns are the tables `ru` and `patterns`, Regex and
--   Spaces the regular expressions and the white space that they need, Translate has `readLanguage`
--   and `translate`, Page the functions from `translateTextNode` to `apply`, and Switch
--   `updateControls`, `setLanguage`, `init` and what the observer calls. A WeakMap's entry for a
--   node is a field of the node. The other files prove what the pages and the tables satisfy.
-- * Diagnostics/Types is diagnostics/types.go, Check the errors, Validate and Admission the
--   validators, Session the state of one session (`deriveSessionStateLocked`, `expireLocked`),
--   Manager the maps of the manager, Capacity `makeCapacityLocked`, Operations and its children one
--   file for each exported operation or group of them, and Calls their sequences: the lock of the
--   manager admits one at a time, so that every run of the manager is such a sequence. Lifecycle is
--   an abstract machine for one session, with what one call may do to it, and what the calls are in it; Signature is
--   diagnostics/signature.go. Verdict is diagnostics/verdict.go. Lemmas and the children of Calls
--   have the proofs.
-- * Reachability/Cells, Matrix and Rows are reachability/matrix.go, Verdict and Preference the
--   files of those names.
-- * VerdictLog/Journal is verdictlog/journal.go, over the text of the file; json.Marshal and
--   json.Unmarshal are the parameters `encode` and `decode`. An append adds to the end of the text, as
--   O_APPEND does, whether or not the last line has its end; a character of several bytes is written
--   whole.
-- * SourcePolicy is observation/policy.go and checker/observation.go, with MonitoringEnabled of
--   checker/checker.go.
-- * Availability/Failure is checker/failure.go; Status has the details of one node and what each
--   function of checker/checker.go makes of them, Checker those functions over all nodes and
--   sequences of their calls. Since reads the reports alone, and the other files prove what holds
--   after any reports.
-- * PathQuality/Measurement and Report are pathquality/report.go, and Rank its `Ranked`. The hour
--   of a time in a zone and the host of a URL are the parameters `hour_in` and `url_host`.
--
-- State is passed on: an operation takes the manager or the matrix, with the time that the clock
-- shows and the IDs that NewID gives, and returns the new state with its result. Errors are values.
-- Every loop of the code is a recursion over the list that it goes through, or over a regular
-- expression, so that no bound or fuel is chosen. A time is a natural number of nanoseconds since
-- Go's zero time; a rate is a whole number of millionths of a Mbps; the additions of times are
-- exact, as the years that the program meets are far from the limits of an int64.
--
-- Not modelled: json.Marshal and ed25519.Verify, which are parameters of Signature, while the check
-- of a signature is the parameter `verify` of AcceptObservation in the other files; the texts that
-- errors wrap; the order of map iterations where no result depends on it; the files that the matrix
-- is kept in, and a disk that fails; lines of the journal that are longer than its reader accepts; deep copies, since values are not shared here; the checker's
-- probes, metrics and runs over all nodes, which are network I/O and goroutines; all other
-- packages, which are the speed tests, the subscriptions, the agents themselves, Telegram,
-- Remnawave, backups and the web server.
pub mod Base
pub mod Localization
pub mod Diagnostics
pub mod Reachability
pub mod VerdictLog
pub mod SourcePolicy
pub mod Availability
pub mod PathQuality
