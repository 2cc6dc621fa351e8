-- ===== src/Lib.antt =====
-- A model of the multi-realm shim between Portworx (px) and a FlashArray, with the theorems about
-- it.
--
-- The shim is an HTTPS reverse proxy. px talks to the array as several realms; the shim answers
-- some calls on /hosts itself, re-issues the calls on /connections for a realm host against the
-- array-level host with the array's own token, and rewrites responses so that px reads only its
-- own host names and, if configured, an array identity of its own for each realm. On each node
-- runs the cleaner, which disconnects multipath maps whose volume has been detached. The stress
-- tool scales pools of etcd instances on such volumes and checks that no data is lost.
--
-- Which file models what:
--   Config       internal/config/config.go: HostMapping, Initiators, splitCSV, sanitizeAPIToken;
--                Config.Env FromEnv, with the environment, the file and the parsers as parameters;
--                Config.Cert LoadOrGenerateCert and generateSelfSigned, with the crypto libraries as
--                parameters.
--   Array        internal/proxy/array.go: login and do of arraySession. do is `issue`.
--   Rewriter     internal/proxy/rewrite.go: NewRewriter and its goroutine, isRealmHost, resolve,
--                realmOf, learnRealmHost; the fields byArrayHost and granted are in `Shim`, with the
--                session token and the log of calls (`Wire`) and the identity found (`known`).
--   Rewriter.Grant       ensureRealmAccess.
--   Rewriter.Connection  connection; it is cut at its calls into reissue, forward and answer_or_error.
--   Rewriter.Hosts       getHostSynth, patchHostInitiators, Intercept.
--   Rewriter.Response    ModifyHostsResponse, emptyHostsIfNoMatch, mapConnHostsBack, ModifyResponse.
--   Identity     internal/proxy/arrayident.go: ensure, synth and the two rewrites.
--   Proxy        internal/proxy/proxy.go: the handler of New, with drainBody, Director, what logResponse
--                does to a response, and the error handler; Proxy.Log internal/proxy/log.go: redact,
--                renderBody and logHeaders; Proxy.Journal the lines that are logged for one request.
--   Startup      cmd/px-smt-multirealm-shim/main.go: main up to its listener; Startup.Shutdown the
--                listener, the goroutine of the signals and the requests in flight, as steps.
--   Cleaner      cmd/fada-cleaner/main.go: mpMap, config, hostCmd; Cleaner.Match and Cleaner.Parse
--                parseMultipath; Cleaner.Scan openCount, pathState, scsiID, pathsStale,
--                fullDisconnect and scanAndClean; Cleaner.Settings loadConfig; Cleaner.Loop the
--                steps of main and watchVolumeAttachments, in any order; Cleaner.Loop.Refinement its
--                scans against a description on one function and one list, and Cleaner.Loop.Grace
--                the polls up to the grace; Cleaner.Watch the connections of
--                watchVolumeAttachments; Cleaner.Summary the closure report.
--   Stress       cmd/pxstress/main.go: opts, poolState and run; Stress.Pool its operations,
--                Stress.Cycle runPool, Stress.Manifest renderManifest, and Stress.Report the recorder of
--                all pools, the deletion of the namespaces and the exit code of main.
--   Bytes, Url, Json, Http   what the program uses of Go's strings, strconv, net/url, encoding/json
--                and net/http.
--   Common, Tests            shared names; runs on concrete inputs.
-- A child module below a part holds the proofs about it, and is named for what they show.
--
-- How it is modelled. A string is a list of bytes, and numbers are natural numbers with the
-- modulus written out (64 bits in fnv64a, 48 in the id). Code that changes state takes and returns
-- it; a result of Go's (value, error) is an Option, and a nil answer of Intercept is none. The
-- array is a function of all calls made before and of the call at hand, with none for a transport
-- error, so that it may answer the same call differently each time; a node under the cleaner is
-- the same with commands. json.Unmarshal is a parameter from bytes to a Json value; json.Marshal
-- is written out, with keys in order. A Go map that is ranged over is an association list, whose
-- order stands for the order of the iteration; in a sequence of requests (`serve`) each request
-- comes with an order of its own, and with the answers of the transport at that time. The login
-- that NewRewriter starts in a goroutine is `validate`; `run_shim` puts it between any two
-- requests. Most loops are structural. The wait of pxstress runs on fuel, `wait_bound`: one poll
-- at the start, one for every five seconds up to the deadline and one behind it, which is enough
-- where the clock of the cluster does not go back. runPool, which may go on for ever, is run for a
-- given number of cycles; a scanned line is bounded by the 64 KiB of bufio.Scanner.
--
-- Simplified: requests are handled one after another, and the login at startup between two of
-- them, so the mutexes and sync.Map are plain fields; the ranges over the hosts within one request
-- have one order; an entry in the report of pxstress ends before the text of the error, and the
-- pauses of runPool between its steps are left out; lower case, upper case and white space are
-- those of ASCII; of a URL the path and raw query are kept, of the headers those that the program
-- sets or reads. A response of the array always has a body, which may break off while it is read.
--
-- Not modelled: the parsing of the flags of pxstress, which package flag does, the other lines
-- that the programs log, and the deployment files. They are input and output around the code
-- above.
pub mod Common
pub mod Bytes
pub mod Http
pub mod Json
pub mod Url
pub mod Config
pub mod Array
pub mod Rewriter
pub mod Identity
pub mod Proxy
pub mod Startup
pub mod Cleaner
pub mod Stress
pub mod Tests
