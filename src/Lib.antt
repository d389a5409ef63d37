-- ===== src/Lib.antt =====
-- go-amizone
--
-- A model of the core of go-amizone, a client and an API server for the student portal
-- Amizone. The parts Parse, Client and Server stand on each other as in the code; Captcha is the
-- solver and Tls the HTTP client that a client may be given.
--
-- Parse models amizone/internal/parse: the pages of the portal are read by pure functions.
-- Parse.Session is logged_in.go and verification_token.go, Parse.LoginForm is login_form.go
-- with the byte loops of findSubstring and of the Turnstile site key. Parse.Clean is CleanString
-- of parse.go, Parse.Schedule is class_schedule.go with the models ClassSchedule and
-- AmizoneDiaryEvent (amizone/models), and Parse.Wifi is wifi.go with WifiMacInfo and the helpers
-- of the packages marshaller and validator. Parse.Feedback is faculty_feedback.go: the scanners of
-- JavaScript calls, and in Parse.Feedback.Page the parser of the page; Parse.FeedbackForm is
-- faculty_feedback_form.go, which fills the form of one faculty. Parse.Attendance is attendance.go,
-- where an index out of range is a panic, Parse.Courses is courses.go and sem_count.go,
-- Parse.Examinations is examination_schedule.go and examination_result.go, and Parse.Profiles is
-- profile.go. What these use of libraries beside goquery stands in Parse.Library.
--
-- Client models the package amizone. Client.Types holds the state of a Client (credentials,
-- cookies, the time of the last login attempt, didLogin, and the requests sent so far),
-- and the monad M of its methods: a state that is kept also on an error, and an error text.
-- Client.Request is the part of doRequestWithHeaders (amizone/requests.go) up to the check of
-- the answer, Client.Retry is the login before and the retry after a request, and
-- Client.Login is login (amizone/amizone.go). Client.Schedule is GetClassSchedule,
-- Client.Getters are the methods that fetch one page and parse it, and Client.Wifi is
-- GetWiFiMacInformation, RegisterWifiMac and RemoveWifiMac of the same file. Client.Feedback is
-- SubmitFacultyFeedbackHack: the collection of the specs as a function, and in
-- Client.Feedback.Submissions its goroutines as steps that interleave in any order, a request with
-- its logins being one step, so requests of two goroutines do not overlap there, and the counter of the
-- WaitGroup, at 0 of which the method goes on. Client.Construct
-- holds NewClient and NewClientWithOptions with their options. The retry of the code calls the function again with tryLogin
-- false, so it is at most one level deep and needs no fuel here.
--
-- Captcha models amizone/capsolver/capsolver.go: the creation of tasks, the polling for their
-- results and the attempts of SolveTurnstile and SolveRecaptchaV2. What each select of the polling
-- yields is a list of events, so a loop that still runs at its end gives none; no fuel is chosen.
--
-- Tls models amizone/tlsclient/client.go: the choice of a browser profile with its global index, an int
-- of 64 bits that overflows, and the construction of clients; Tls.Requests holds the conversions of
-- requests, responses and cookies.
--
-- Server models the package server. Server.SessionCache is server/session_cache.go over an
-- association list, with each call of time.Now an argument; Server.SessionCache.Concurrent
-- runs the critical sections of GetOrCreate, Delete and cleanup as steps of a relation, with
-- any number of requests between the two halves of GetOrCreate. Server.Auth is authorizeCtx
-- and isGrpc of server/server.go. Server.ToProto holds the transformers of server/transformers with the
-- messages that they make, and Server.Service the methods of server/grpc_service_server.go on the
-- client that authorizeCtx left in the context.
--
-- Base holds what the parts share. A Go string is a list of characters (Text), where the
-- code looks only at ASCII separators; strings functions are modelled by clauses. A time is
-- an integer count of nanoseconds, and zero the zero Time. Maps are association lists. A Go
-- function that returns a value and an error gives a Result, with panic as a third outcome.
--
-- What lies outside the repository is a parameter. Base.Html is goquery: parsed documents
-- and the selections in them. Env in Client.Types is the network with the cookie jar, the
-- clock, and the CAPTCHA solver, of which the login uses only the result. The coding of JSON,
-- the reading of dates, sorting, the markup libraries and the spelling of hardware addresses are
-- records of functions beside the code that uses them (Base.Sort, ScheduleLib, Markup, MacLib,
-- Json, PageLib, Profiles, ProtoLib, Telemetry).
--
-- Instrumentation models amizone/instrumentation/instrumentation.go: the configuration and Init, in
-- Instrumentation.Requests the tracing of requests, and in Instrumentation.Counts requests and logins as
-- steps in any order. Client.Retry.Traced is doRequestWithHeaders with what it hands to End.
-- Server.Setup is the rest of server/server.go but Stop: Init as steps of goroutines under the lock, and
-- the router with its patterns. The reads of muInit.done outside the lock race with the write in Init,
-- so a goroutine may see an old value there, and what one that saw the new value without the lock then
-- finds in the router is left open. Cmd is EnvOrDefault of cmd/amizone-api-server/server.go.
--
-- The requests that are counted are the calls of http.Client.Do by the client of the portal; the
-- requests that SolveTurnstile sends within a login, with a client of its own, and the redirects that
-- Do follows are not among them.
--
-- Not modelled are main, Stop, the listener and the flag library, the getters of
-- amizone/instrumentation, the generated code in server/gen beyond the fields of the messages, the mock
-- portal of the tests, and the scripts in Python: they call libraries and keep no state of their own
-- that the parts above read. Logging is left out.
--
-- Loops are structural recursion. The attempts of a solver are counted down from the three of the
-- code, and only Base.Texts.decimal has fuel: twenty digits, enough for any 64-bit number.
mod Base
pub mod Parse
pub mod Client
pub mod Server
mod Tests
pub mod Captcha
pub mod Tls
pub mod Instrumentation
pub mod Cmd
