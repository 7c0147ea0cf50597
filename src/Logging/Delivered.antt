-- ===== src/Logging/Delivered.antt =====
-- Where a message goes once Logging writes to a file or a stream.
use geoml.Common.{
  ℕ, suc, ◌+◌, ◌≡◌, refl, ap, ◌∙◌, Bool, true, false, some, List, [], ◌∷◌, ◌++◌, if◌then◌else◌,
  length, get_elem?, set, get_elem?-append_end, get_elem?-set_self, get_elem?-set_ne, arith,
}
use geoml.Common.Result.{ok}
use geoml.Logging.{
  LogLevel, silent, error, warning, info, debug, debug1, debug2, debug3, debug4, Message, Logger,
  console, file, splitter, Output, on_file, Logging, is_at_most, on_console, each_logger, log_by,
  log_message, split_to, log_to_stream, file_logger, set_console_verbosity, set_verbosity,
  with_verbosity, without_newline, hand_on, set_logger,
}
use geoml.Logging.Wired.{
  split_to-store, get_elem?-append_second, get_elem?-append_third, get_elem?-lt,
}

all_pass : (level : LogLevel) → is_at_most level debug4 ≡ true
unfolding is_at_most
all_pass silent = refl
all_pass error = refl
all_pass warning = refl
all_pass info = refl
all_pass debug = refl
all_pass debug1 = refl
all_pass debug2 = refl
all_pass debug3 = refl
all_pass debug4 = refl

-- The line that a console prints, or nothing.
abbrev pub console_line : LogLevel → LogLevel → Message → List Output
console_line v level m = if is_at_most level v then on_console level m ∷ [] else []

append_nil {ℓ} : {A : Type ℓ} (xs : List A) → xs ++ [] ≡ xs
append_nil [] = refl
append_nil (x ∷ xs) = rw (append_nil xs) refl

splitter_delivers :
    (n : ℕ) (store : List Logger) (i j k fp : ℕ) (opened : Bool) (v level : LogLevel) (m : Message)
    → get_elem? store k ≡ some (splitter (some i ∷ some j ∷ []) debug4)
    → get_elem? store i ≡ some (file fp opened debug4)
    → get_elem? store j ≡ some (console v)
    → log_message (suc (suc n)) store level m k ≡ on_file fp m ∷ console_line v level m
unfolding log_message log_by each_logger
splitter_delivers n store i j k fp opened v level m a b c =
    rw (a, all_pass level, b, c, all_pass level)
      (ap (λ (xs : List Output). on_file fp m ∷ xs) (append_nil (console_line v level m)))

-- The store that `split_to` leaves.
old_store : Logger → Logging → List Logger
old_store l s =
    s.store
    ++ l
      ∷ console s.console_verbosity
      ∷ splitter (some (length s.store) ∷ some (length s.store + 1) ∷ []) debug4
      ∷ []

set_verbosity-second :
    (v w : LogLevel) (xs ys : List Logger) (l : Logger)
    → set_verbosity v (length xs + 1) (xs ++ l ∷ console w ∷ ys)
      ≡ set (xs ++ l ∷ console w ∷ ys) (length xs + 1) (console v)
unfolding set_verbosity with_verbosity
set_verbosity-second v w xs ys l = rw (get_elem?-append_second xs ys l (console w)) refl

told_store :
    (v : LogLevel) (l : Logger) (s : Logging)
    → (set_console_verbosity v (split_to l s)).store
      ≡ set (old_store l s) (length s.store + 1) (console v)
unfolding set_console_verbosity split_to set_logger old_store
told_store v l s =
    ap (set_verbosity v (length s.store + 1)) (split_to-store l s)
    ∙ set_verbosity-second v s.console_verbosity s.store
        (splitter (some (length s.store) ∷ some (length s.store + 1) ∷ []) debug4 ∷ []) l

split_to_delivers :
    (n fp : ℕ) (opened : Bool) (v level : LogLevel) (m : Message) (s : Logging)
    → let k = length s.store in
      log_message
        (suc (suc n))
        (set_console_verbosity v (split_to (file fp opened debug4) s)).store
        level
        m
        (k + 2)
      ≡ on_file fp m ∷ console_line v level m
unfolding old_store
split_to_delivers n fp opened v level m s = rw (told_store v l s) (
    splitter_delivers n (set old (k + 1) (console v)) k (k + 1) (k + 2) fp opened v level m
      (get_elem?-set_ne old (console v) (λ e. omega arith)
        ∙ get_elem?-append_third s.store l (console s.console_verbosity) both)
      (get_elem?-set_ne old (console v) (λ e. omega arith)
        ∙ get_elem?-append_end s.store (console s.console_verbosity ∷ both ∷ []) l)
      (get_elem?-set_self old (k + 1) (console v) (
        get_elem?-lt old (k + 1) (console s.console_verbosity)
          (get_elem?-append_second s.store (both ∷ []) l (console s.console_verbosity)))))
  where
    l : Logger
    l = file fp opened debug4

    k : ℕ
    k = length s.store

    both : Logger
    both = splitter (some k ∷ some (k + 1) ∷ []) debug4

    old : List Logger
    old = old_store l s

-- Once Logging writes to a stream that is not null, and whatever verbosity the console is then
-- given, a message goes to the stream at every level, and to the console if its level is at most
-- the console's verbosity: to stderr for errors and warnings, to stdout else. A newline at its end
-- is dropped. Two steps of fuel are enough.
pub log_to_stream-hand_on :
    (n fp : ℕ) (v level : LogLevel) (m : Message) (s : Logging)
    → (t : Logging) × (log_to_stream (some fp) s ≡ ok t)
      × ((hand_on (suc (suc n)) level m (set_console_verbosity v t)).output
          ≡ s.output ++ on_file fp (without_newline m) ∷ console_line v level (without_newline m))
unfolding log_to_stream file_logger hand_on set_console_verbosity
log_to_stream-hand_on n fp v level m s = (
  split_to (file fp false debug4) s,
  refl,
  ap (λ (xs : List Output). s.output ++ xs)
      (split_to_delivers n fp false v level (without_newline m) s),
)
