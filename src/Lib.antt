-- ===== src/Lib.antt =====
-- The GPS tracker backend: a model of its core in functions, and theorems about them.
--
-- A tracker connects over TCP and sends frames. A device's goroutine reads one frame after the
-- other, parses its payload, and passes locations, states and command responses to a store, to
-- the subscribers of the tracker and to a table of attributes. Browsers subscribe to trackers.
-- The parts, by their paths, and the files that model them:
--   internal/gpsv2/device/device.go (NewSerial, CombineSn, SplitSn): Device, Device/Numbers.
--   internal/gpsv2/device/gt06/frame.go (readMessage) and newFrame, newCommand: Gt06/Frame.
--   internal/gpsv2/device/gt06/parser.go (the payloads): Gt06/Message, Gt06/Parser.
--   internal/gpsv2/device/gt06/gt06.go: Gt06/State (the device and what it does to the outside),
--     Gt06/Command (_send_command, handle_command_response), Gt06/Device (run and its handlers),
--     Gt06/Life (Run, _run, Stop, ReplaceConn).
--   internal/gpsv2/device/simplejson: frame.go (readMessage): SimpleJson/Frame; simplejson.go:
--     SimpleJson/Device (run and its handlers), SimpleJson/Life (Run, _run, Stop, ReplaceConn).
--   internal/gpsv2/sublist/sublist.go (GetSublist, Subscribe, Unsubscribe, Send): Sublist.
--   internal/store/impl/pgstore/pgstore.go (Put, flush, timer_flusher, handle): PgStore.
--   internal/gpsv2/server/server.go: Server (the device list, the two logins), Server/Listen (the
--     listener and the choice by the first byte).
--   internal/webapp/tracker/webstream/webstream.go: Webstream (Push and what the loops do with a
--     message and a buffer), Webstream/Loops (the two goroutines), Webstream/Door (the token).
--   internal/webapp: Web/Tables (users, sessions and the answers), Web/Login (login.go),
--     Web/Sessions (logout.go, sessioncheck.go), Web/Password (changepwd.go), Web/Dispatcher
--     (dispatcher.go and the check of the CSRF token in api.go), Web/Api (the functions of api.go).
--   internal/webapp/usermgmt/user.go (SetSuspendFlag, PurgeSession): Web/Users.
--   internal/webapp/tracker/tracker.go: Web/Tracker, with Settings, Paging (the histories page by
--     page) and History (the location history).
--   internal/broker/broker.go (Broadcast, flush, timer_flusher, handle): Broker.
--   internal/gps/serverimpl/server.go (Login, the status calls), with TryCloseWait of
--     internal/gps/gt06/gt06.go: ServerImpl.
--   internal/gps/stat/stat.go (UpdateEv, ConnectEv, getAsList, getLastEvent): Stat.
-- Base has what they share: lists, bits, Go's slices, results and strconv, values of other types.
--
-- Conventions. A byte, a word and a text are numbers and lists of numbers; wrap-around is written
-- out. A (value, error) pair and a panic are `Result`. A slice keeps the elements behind its end
-- that its capacity covers, since reslicing reads them. A connection is the list of what its
-- reader gets: bytes, deadlines that pass and breakdowns. Floats and times are parameters
-- (`Values`): nothing depends on how floats round. A mutex makes a critical section one step;
-- where goroutines meet (PgStore, Gt06/Command, the two Life, Server/Race, Broker, Webstream/Loops)
-- the steps are separate functions. ServerImpl and Webstream say which mutexes stay locked.
-- An SQL statement reads and changes tables, which are lists; whether the next statements fail is a
-- list of Booleans. bcrypt, crc16, crc32, base64, JSON and the validator are parameters.
--
-- Bounds and fuel. FormatUint has fuel for 64 digits, which a uint64 never exceeds. The loop of a
-- device, of either kind, makes one round for each reading of the clock that it is given, and is over
-- after one round more than the stream has inputs. All other recursion is structural.
--
-- Not modelled: internal/util/crc16, a copy of another library; logging, and HTTP and websocket
-- traffic below requests and answers; the routes of the router; GetTrackerCurrentConnInfo and
-- GetLastKnownLocation, which pass on what a device says; the other handlers of users and those of
-- records, vehicles and the database, which are single SQL statements that no route reaches; the log
-- store and the statements of miscpg; the wrappers below internal/util and the event bus; the older
-- devices below internal/gps, which import two packages that the repository does not have; the
-- commands below cmd.
pub mod Base
pub mod Device
pub mod Stat
pub mod PgStore
pub mod Sublist
pub mod Webstream
pub mod Gt06
pub mod SimpleJson
pub mod Broker
pub mod ServerImpl
pub mod Server
pub mod Web
