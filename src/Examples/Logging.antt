-- ===== src/Examples/Logging.antt =====
-- A logger that writes to a stream.
use geoml.Common.{none, true, [], ◌∷◌}
use geoml.Logging.{info, debug, Message, Logging, new_logging, set_console_verbosity, set_verbosity}
use geoml.Logging.Wired.{start, next, verbosity, direct, WiredUnless, reach-WiredUnless}

abbrev log : Message
log = 108 ∷ 111 ∷ 103 ∷ []

-- The verbosity of the console logger is set, and then that of the logger itself.
abbrev told : Logging
told =
    let s = set_console_verbosity info (new_logging log) in
    record s { store = set_verbosity debug 0 s.store }

reach-WiredUnless_example : WiredUnless true told
reach-WiredUnless_example =
    reach-WiredUnless {fopen = λ n. none} {time_id = []} {stamp = []} {log = log}
      (next (next start (verbosity info)) (direct debug 0))
