-- ===== src/Logging.antt =====
-- src/logging: the loggers (ConsoleLogger, FileLogger, LogSplitter) and the singleton Logging that
-- wires them. Loggers are shared by pointers, so they are objects of a store, and a pointer is an
-- index or null (`none`). A message is its bytes; what is printed is a list. `fopen` and the clock
-- are parameters; the mutex and the stamp before a message are left out.
pub mod Wired
pub mod Delivered
use geoml.Common.{
  ℕ, zero, suc, ◌+◌, ◌≤◌, ◌<◌, ◌≡◌, refl, Bool, true, false, ◌||◌, Option, none, some, List, [],
  ◌∷◌, ◌++◌, arith, ◌==◌, leb, if◌then◌else◌, length, get_elem?, set,
}
use geoml.Common.Result.{ReturnCode, null_pointer, open_failed, Result, ok, err, ◌>>=◌}

pub data LogLevel : Type 0 where
  silent : LogLevel
  error : LogLevel
  warning : LogLevel
  info : LogLevel
  debug : LogLevel
  debug1 : LogLevel
  debug2 : LogLevel
  debug3 : LogLevel
  debug4 : LogLevel

-- The value of the enumerator.
unfoldable pub rank : LogLevel → ℕ
rank silent = 0
rank error = 1
rank warning = 2
rank info = 3
rank debug = 4
rank debug1 = 5
rank debug2 = 6
rank debug3 = 7
rank debug4 = 8

abbrev pub Message : Type 0
Message = List ℕ

abbrev pub Pointer : Type 0
Pointer = Option ℕ

-- The objects behind an `ILogger`. `foreign` is a logger that the caller installs.
pub data Logger : Type 0 where
  console : (verbosity : LogLevel) → Logger
  file : (log_file_stream : ℕ) (file_opened : Bool) (verbosity : LogLevel) → Logger
  splitter : (loggers : List Pointer) (verbosity : LogLevel) → Logger
  foreign : (name : ℕ) → Logger

-- Lines that are printed, and messages that a foreign logger is given.
pub data Output : Type 0 where
  on_stderr : Message → Output
  on_stdout : Message → Output
  on_file : ℕ → Message → Output
  given : ℕ → LogLevel → Message → Output

unfoldable pub is_at_most : LogLevel → LogLevel → Bool
unfolding rank
is_at_most level verbosity = leb (rank level) (rank verbosity)

unfoldable pub on_console : LogLevel → Message → Output
unfolding rank
on_console level message =
    if rank level == rank error || (rank level == rank warning)
    then on_stderr message
    else on_stdout message

-- The loop of `LogSplitter::LogMessage`; null pointers are passed over.
unfoldable pub each_logger : (ℕ → List Output) → List Pointer → List Output
each_logger f [] = []
each_logger f (none ∷ ps) = each_logger f ps
each_logger f (some i ∷ ps) = f i ++ each_logger f ps

-- `LogMessage` of the object; `f` is `LogMessage` of the loggers that a splitter holds.
unfoldable pub log_by : (ℕ → List Output) → LogLevel → Message → Option Logger → List Output
unfolding is_at_most on_console each_logger
log_by f level message none = []
log_by f level message (some (console verbosity)) =
    if is_at_most level verbosity then on_console level message ∷ [] else []
log_by f level message (some (file stream opened verbosity)) =
    if is_at_most level verbosity then on_file stream message ∷ [] else []
log_by f level message (some (splitter loggers verbosity)) =
    if is_at_most level verbosity then each_logger f loggers else []
log_by f level message (some (foreign name)) = given name level message ∷ []

-- `LogMessage` of the object `i`, on fuel for splitters that hold splitters.
unfoldable pub log_message : (fuel : ℕ) → List Logger → LogLevel → Message → ℕ → List Output
unfolding log_by
log_message zero store level message i = []
log_message (suc fuel) store level message i =
    log_by (log_message fuel store level message) level message (get_elem? store i)

-- `SetVerbosity` of the object.
unfoldable pub with_verbosity : LogLevel → Logger → Logger
with_verbosity vlevel (console verbosity) = console vlevel
with_verbosity vlevel (file stream opened verbosity) = file stream opened vlevel
with_verbosity vlevel (splitter loggers verbosity) = splitter loggers vlevel
with_verbosity vlevel (foreign name) = foreign name

unfoldable pub set_verbosity : LogLevel → ℕ → List Logger → List Logger
unfolding with_verbosity
set_verbosity vlevel i store = at_place (get_elem? store i)
  where
    at_place : Option Logger → List Logger
    at_place none = store
    at_place (some l) = set store i (with_verbosity vlevel l)

-- `LogSplitter::AddLogger`
unfoldable pub add_logger : Pointer → Logger → Logger
add_logger none l = l
add_logger (some p) (splitter loggers verbosity) = splitter (loggers ++ some p ∷ []) verbosity
add_logger (some p) (console verbosity) = console verbosity
add_logger (some p) (file stream opened verbosity) = file stream opened verbosity
add_logger (some p) (foreign name) = foreign name

-- The singleton, with the store that its pointers refer to and what was printed.
pub record Logging : Type 0 where
  pub my_logger : Pointer
  pub file_ending : Message
  pub time_id_in_filename : Bool
  pub console_verbosity : LogLevel
  pub console_logger : Pointer
  pub store : List Logger
  pub output : List Output

-- `new`: the object goes to the end of the store.
unfoldable pub allocate : Logger → Logging → Logging
allocate l s = record s { store = s.store ++ l ∷ [] }

unfoldable pub set_logger : Pointer → Logging → Logging
set_logger logger s = record s { my_logger = logger; console_logger = none }

unfoldable pub get_logger : Logging → Pointer
get_logger s = s.my_logger

-- A new console logger with the console's verbosity.
unfoldable pub new_console : Logging → Logging
unfolding allocate set_verbosity
new_console s =
    let t = allocate (console warning) s in
    record t { store = set_verbosity s.console_verbosity (length s.store) t.store }

unfoldable pub log_to_console : Logging → Logging
unfolding new_console set_logger
log_to_console s =
    let console_logger = some (length s.store) in
    let t = set_logger console_logger (new_console s) in
    record t { console_logger = console_logger }

-- The members as the constructor sets them before it wires a console logger.
abbrev pub unwired : Message → Logging
unwired log = record {
  my_logger = none;
  file_ending = log;
  time_id_in_filename = true;
  console_verbosity = warning;
  console_logger = none;
  store = [];
  output = [];
}

-- The constructor.
unfoldable pub new_logging : Message → Logging
unfolding log_to_console
new_logging log = log_to_console (unwired log)

-- `FileLogger(FILE*)`
unfoldable pub file_logger : Option ℕ → Result ReturnCode Logger
file_logger none = err null_pointer
file_logger (some fp) = ok (file fp false debug4)

-- `FileLogger(const char*)`: the file is opened, and gets a line with the time.
unfoldable pub opened_logger : Option ℕ → Message → Result ReturnCode (Logger × List Output)
opened_logger none stamp = err open_failed
opened_logger (some fp) stamp = ok (file fp true debug4, on_file fp stamp ∷ [])

-- The end of `LogToFile` and `LogToStream`: the splitter with the file logger and a new console
-- logger, which stand one after the other in the store.
unfoldable pub split_to : Logger → Logging → Logging
unfolding allocate new_console set_logger add_logger
split_to file_logger s =
    let at_file = length s.store in
    let t = new_console (allocate file_logger s) in
    let at_console = at_file + 1 in
    let both = add_logger (some at_console) (add_logger (some at_file) (splitter [] debug4)) in
    let u = allocate both t in
    let w = set_logger (some (at_file + 2)) u in record w { console_logger = some at_console }

unfoldable pub log_to_stream : Option ℕ → Logging → Result ReturnCode Logging
unfolding file_logger split_to
log_to_stream fp s = do l ← file_logger fp; ok (split_to l s)

module _ (fopen : Message → Option ℕ) (time_id stamp : Message) where
  -- prefix + time + "." + ending
  unfoldable pub log_file_name : Message → Logging → Message
  log_file_name prefix s =
      prefix ++ (if s.time_id_in_filename then time_id else []) ++ 46 ∷ s.file_ending

  unfoldable pub log_to_file : Message → Logging → Result ReturnCode Logging
  unfolding log_file_name opened_logger split_to
  log_to_file prefix s = do
    (l, line) ← opened_logger (fopen (log_file_name prefix s)) stamp
    ok (split_to l (record s { output = s.output ++ line }))

unfoldable pub set_log_file_ending : Message → Logging → Logging
set_log_file_ending ending s = record s { file_ending = ending }

unfoldable pub set_time_id_in_filename_enabled : Bool → Logging → Logging
set_time_id_in_filename_enabled enabled s = record s { time_id_in_filename = enabled }

unfoldable pub set_console_verbosity : LogLevel → Logging → Logging
unfolding set_verbosity
set_console_verbosity vlevel s = record s {
  console_verbosity = vlevel;
  store = told s.console_logger;
}
  where
    told : Pointer → List Logger
    told none = s.store
    told (some i) = set_verbosity vlevel i s.store

-- `if (msg.size() > 0 && msg[msg.size()-1] == '\n') msg.resize(msg.size() - 1);`
unfoldable pub without_newline : Message → Message
without_newline [] = []
without_newline (c ∷ []) = if c == 10 then [] else c ∷ []
without_newline (c ∷ d ∷ cs) = c ∷ without_newline (d ∷ cs)

-- The destructor of `DummyLogger_`, which hands the message on.
unfoldable pub hand_on : (fuel : ℕ) → LogLevel → Message → Logging → Logging
unfolding log_message on_console without_newline
hand_on fuel level message s = record s {
  output = s.output ++ out s.my_logger (without_newline message);
}
  where
    out : Pointer → Message → List Output
    out none m = on_console level m ∷ []
    out (some i) m = log_message fuel s.store level m i
