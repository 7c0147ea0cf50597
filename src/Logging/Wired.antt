-- ===== src/Logging/Wired.antt =====
-- The console logger that Logging points to, and its verbosity, whatever calls were made.
use geoml.Common.{
  ℕ, zero, suc, ◌+◌, ◌≡◌, refl, ap, ◌∙◌, subst, Bool, false, true, ◌<◌, Option, none, some, List,
  [], ◌∷◌, ◌++◌, length, get_elem?, get_elem?-append_left, get_elem?-append_end, set-append_end,
  get_elem?-set_self, arith, ℕ_discrete, Option-cases, ◌≢◌, sym, set, inl, inr,
}
use geoml.Common.Result.{◌>>=◌, ok, ok-injective}
use geoml.Logging.{
  LogLevel, warning, debug4, Message, Pointer, Logger, console, file, splitter, foreign, Logging,
  on_file, allocate, set_logger, new_console, log_to_console, new_logging, unwired, file_logger,
  opened_logger, split_to, log_to_stream, log_to_file, log_file_name, set_log_file_ending,
  add_logger, set_time_id_in_filename_enabled, set_console_verbosity, set_verbosity, with_verbosity,
  hand_on,
}

-- A call of the public interface, a foreign logger that the caller makes, a message, or a call of
-- `SetVerbosity` on a logger itself, as `GetLogger` hands it out. The two Booleans tell whether before
-- and after it such a call may have changed the console logger behind the back of Logging: a new
-- console logger, or the loss of the old one, or `SetConsoleVerbosity` puts that right.
pub data Step (fopen : Message → Option ℕ) (time_id stamp : Message)
    : Bool → Logging → Bool → Logging → Type 0 where
  to_file :
      (prefix : Message) {b : Bool} {s t : Logging}
      → log_to_file fopen time_id stamp prefix s ≡ ok t
      → Step fopen time_id stamp b s false t
  to_stream :
      (fp : Option ℕ) {b : Bool} {s t : Logging}
      → log_to_stream fp s ≡ ok t
      → Step fopen time_id stamp b s false t
  to_console : {b : Bool} {s : Logging} → Step fopen time_id stamp b s false (log_to_console s)
  ending :
      (e : Message) {b : Bool} {s : Logging}
      → Step fopen time_id stamp b s b (set_log_file_ending e s)
  time_id_enabled :
      (enabled : Bool) {b : Bool} {s : Logging}
      → Step fopen time_id stamp b s b (set_time_id_in_filename_enabled enabled s)
  verbosity :
      (v : LogLevel) {b : Bool} {s : Logging}
      → Step fopen time_id stamp b s false (set_console_verbosity v s)
  logger :
      (p : Pointer) {b : Bool} {s : Logging} → Step fopen time_id stamp b s false (set_logger p s)
  made :
      (name : ℕ) {b : Bool} {s : Logging}
      → Step fopen time_id stamp b s b (allocate (foreign name) s)
  message :
      (fuel : ℕ) (level : LogLevel) (m : Message) {b : Bool} {s : Logging}
      → Step fopen time_id stamp b s b (hand_on fuel level m s)
  direct :
      (v : LogLevel) (i : ℕ) {b : Bool} {s : Logging}
      → Step fopen time_id stamp b s true (record s { store = set_verbosity v i s.store })

-- What a program can reach from the constructor; `log` is the default ending of a file.
pub data Reach (fopen : Message → Option ℕ) (time_id stamp log : Message)
    : Bool → Logging → Type 0 where
  start : Reach fopen time_id stamp log false (new_logging log)
  next :
      {b c : Bool} {s t : Logging}
      → Reach fopen time_id stamp log b s
      → Step fopen time_id stamp b s c t
      → Reach fopen time_id stamp log c t

-- The console logger that Logging points to is there.
abbrev pub HasConsole : Logging → Type 0
HasConsole s =
    (i : ℕ) → s.console_logger ≡ some i → (v : LogLevel) × (get_elem? s.store i ≡ some (console v))

-- The console logger that Logging points to is there, and has the console's verbosity.
abbrev pub IsWired : Logging → Type 0
IsWired s =
    (i : ℕ) → s.console_logger ≡ some i → get_elem? s.store i ≡ some (console s.console_verbosity)

abbrev pub WiredUnless : Bool → Logging → Type 0
WiredUnless b s = HasConsole s × (b ≡ false → IsWired s)

some_injective : {i j : ℕ} → ◌≡◌ {A = Option ℕ} (some i) (some j) → i ≡ j
some_injective e = cc

pub new_console-store :
    (s : Logging) → (new_console s).store ≡ s.store ++ console s.console_verbosity ∷ []
unfolding new_console allocate set_verbosity with_verbosity
new_console-store s =
    rw (get_elem?-append_end s.store [] (console warning))
      (set-append_end s.store (console warning) (console s.console_verbosity))

log_to_console-IsWired : (s : Logging) → IsWired (log_to_console s)
unfolding log_to_console set_logger new_console allocate
log_to_console-IsWired s i e =
    subst (λ (j : ℕ). get_elem? (new_console s).store j ≡ some (console s.console_verbosity))
      (some_injective e)
      (rw (new_console-store s) (get_elem?-append_end s.store [] (console s.console_verbosity)))

two_more {ℓ} :
    {A : Type ℓ} (xs : List A) (a b c : A)
    → ((xs ++ a ∷ []) ++ b ∷ []) ++ c ∷ [] ≡ xs ++ a ∷ b ∷ c ∷ []
two_more [] a b c = refl
two_more (x ∷ xs) a b c = rw (two_more xs a b c) refl

-- The file logger, the console logger and the splitter that holds the two.
pub split_to-store :
    (l : Logger) (s : Logging)
    → (split_to l s).store
      ≡ s.store
        ++ l
          ∷ console s.console_verbosity
          ∷ splitter (some (length s.store) ∷ some (length s.store + 1) ∷ []) debug4
          ∷ []
unfolding split_to allocate set_logger add_logger
split_to-store l s =
    ap
      (λ (ys : List Logger).
        ys ++ splitter (some (length s.store) ∷ some (length s.store + 1) ∷ []) debug4 ∷ [])
      (new_console-store (allocate l s))
    ∙ two_more s.store l (console s.console_verbosity)
        (splitter (some (length s.store) ∷ some (length s.store + 1) ∷ []) debug4)

get_elem?-append_next {ℓ} :
    {A : Type ℓ} (xs ys : List A) (a b : A)
    → get_elem? (xs ++ a ∷ b ∷ ys) (suc (length xs)) ≡ some b
get_elem?-append_next [] ys a b = refl
get_elem?-append_next (x ∷ xs) ys a b = get_elem?-append_next xs ys a b

pub get_elem?-append_second {ℓ} :
    {A : Type ℓ} (xs ys : List A) (a b : A) → get_elem? (xs ++ a ∷ b ∷ ys) (length xs + 1) ≡ some b
get_elem?-append_second xs ys a b =
    ap (get_elem? (xs ++ a ∷ b ∷ ys)) (omega arith) ∙ get_elem?-append_next xs ys a b

pub get_elem?-append_third {ℓ} :
    {A : Type ℓ} (xs : List A) (a b c : A)
    → get_elem? (xs ++ a ∷ b ∷ c ∷ []) (length xs + 2) ≡ some c
get_elem?-append_third xs a b c = ap (get_elem? (xs ++ a ∷ b ∷ c ∷ [])) (omega arith) ∙ last xs
  where
    last : (ys : List _) → get_elem? (ys ++ a ∷ b ∷ c ∷ []) (suc (suc (length ys))) ≡ some c
    last [] = refl
    last (y ∷ ys) = last ys

split_to-IsWired : (l : Logger) (s : Logging) → IsWired (split_to l s)
unfolding split_to allocate set_logger new_console
split_to-IsWired l s i e =
    subst (λ (j : ℕ). get_elem? (split_to l s).store j ≡ some (console s.console_verbosity))
      (some_injective e)
      (rw (split_to-store l s) (get_elem?-append_second s.store _ l (console s.console_verbosity)))

pub get_elem?-lt {ℓ} :
    {A : Type ℓ} (xs : List A) (i : ℕ) (a : A) → get_elem? xs i ≡ some a → i < length xs
get_elem?-lt [] i a h = absurd cc
get_elem?-lt (x ∷ xs) zero a h = omega arith
get_elem?-lt (x ∷ xs) (suc i) a h = omega (arith, get_elem?-lt xs i a h)

set_console_verbosity-IsWired :
    (v : LogLevel) (s : Logging) → HasConsole s → IsWired (set_console_verbosity v s)
unfolding set_console_verbosity set_verbosity with_verbosity
set_console_verbosity-IsWired v s w i e =
    let (u, there) = w i e in
    rw (e, there)
      (get_elem?-set_self s.store i (console v) (get_elem?-lt s.store i (console u) there))

get_elem?-set_other {ℓ} :
    {A : Type ℓ} (xs : List A) (i j : ℕ) (v : A) → i ≢ j → get_elem? (set xs j v) i ≡ get_elem? xs i
get_elem?-set_other [] i j v ne = refl
get_elem?-set_other (x ∷ xs) zero zero v ne = absurd (ne refl)
get_elem?-set_other (x ∷ xs) zero (suc j) v ne = refl
get_elem?-set_other (x ∷ xs) (suc i) zero v ne = refl
get_elem?-set_other (x ∷ xs) (suc i) (suc j) v ne =
    get_elem?-set_other xs i j v (λ e. ne (ap suc e))

-- `SetVerbosity` of any logger leaves a console logger one.
set_verbosity_keeps :
    (v u : LogLevel) (i j : ℕ) (store : List Logger)
    → get_elem? store i ≡ some (console u)
    → (w : LogLevel) × (get_elem? (set_verbosity v j store) i ≡ some (console w))
unfolding set_verbosity with_verbosity
set_verbosity_keeps v u i j store h = elim (ℕ_discrete i j) [
  | yes e ↦
      let g : get_elem? store j ≡ some (console u) = ap (get_elem? store) (sym e) ∙ h in
      (
        v,
        rw (set_verbosity, g, e)
            (get_elem?-set_self store j (console v) (get_elem?-lt store j (console u) g)),
      )
  | no ne ↦ elim (Option-cases (get_elem? store j)) [
    | inl g ↦ (u, rw (set_verbosity, g) h)
    | inr (l, g) ↦
        (u, rw (set_verbosity, g) (get_elem?-set_other store i j (with_verbosity v l) ne ∙ h))
  ]
]

log_to_stream-IsWired : (fp : Option ℕ) (s t : Logging) → log_to_stream fp s ≡ ok t → IsWired t
unfolding log_to_stream file_logger
log_to_stream-IsWired none s t e = absurd cc
log_to_stream-IsWired (some fp) s t e =
    subst IsWired (ok-injective e) (split_to-IsWired (file fp false debug4) s)

log_to_file-IsWired :
    (fopen : Message → Option ℕ) (time_id stamp prefix : Message) (s t : Logging)
    → log_to_file fopen time_id stamp prefix s ≡ ok t
    → IsWired t
unfolding log_to_file
log_to_file-IsWired fopen time_id stamp prefix s t e =
    opened (fopen (log_file_name fopen time_id stamp prefix s)) e
  where
    opened :
        (o : Option ℕ)
        → (opened_logger o stamp >>= λ (l, line).
            ok (split_to l (record s { output = s.output ++ line })))
          ≡ ok t
        → IsWired t
    opened none e = absurd cc
    opened (some fp) e = subst IsWired (ok-injective e) (
        split_to-IsWired (file fp true debug4)
          (record s { output = s.output ++ on_file fp stamp ∷ [] }))

wired : {b : Bool} (s : Logging) → IsWired s → WiredUnless b s
wired s w = (λ i e. (s.console_verbosity, w i e), λ h. w)

Step-WiredUnless :
    {fopen : Message → Option ℕ} {time_id stamp : Message} {b c : Bool} {s t : Logging}
    → Step fopen time_id stamp b s c t
    → WiredUnless b s
    → WiredUnless c t
unfolding set_log_file_ending set_time_id_in_filename_enabled set_logger allocate hand_on
Step-WiredUnless {t = t} (to_file prefix e) w = wired t (log_to_file-IsWired _ _ _ prefix _ _ e)
Step-WiredUnless {t = t} (to_stream fp e) w = wired t (log_to_stream-IsWired fp _ _ e)
Step-WiredUnless {s = s} to_console w = wired (log_to_console s) (log_to_console-IsWired s)
Step-WiredUnless (ending e) w = w
Step-WiredUnless (time_id_enabled enabled) w = w
Step-WiredUnless {s = s} (verbosity v) w =
    wired (set_console_verbosity v s) (set_console_verbosity-IsWired v s w.0)
Step-WiredUnless (logger p) w = (λ i e. absurd cc, λ h i e. absurd cc)
Step-WiredUnless {s = s} (made name) (w, v) = (
  λ i e.
      let (u, there) = w i e in
      (u, get_elem?-append_left s.store (foreign name ∷ []) i (console u) there),
  λ h i e.
      get_elem?-append_left s.store (foreign name ∷ []) i (console s.console_verbosity) (v h i e),
)
Step-WiredUnless (message fuel level m) w = w
Step-WiredUnless {s = s} (direct v j) (w, _) =
    (λ i e. let (u, there) = w i e in set_verbosity_keeps v u i j s.store there, λ h. absurd cc)

-- Whatever calls are made after the constructor (files and streams opened, the console asked for,
-- loggers installed, verbosities set, also on the loggers themselves, messages written), the console
-- logger that Logging points to is there. It has the console's verbosity, unless `SetVerbosity` of a
-- logger itself was called after the last call that installed a logger or set the console's verbosity.
pub reach-WiredUnless :
    {fopen : Message → Option ℕ} {time_id stamp log : Message} {b : Bool} {s : Logging}
    → Reach fopen time_id stamp log b s
    → WiredUnless b s
unfolding new_logging
reach-WiredUnless {log = log} start =
    wired (log_to_console (unwired log)) (log_to_console-IsWired (unwired log))
reach-WiredUnless (next r st) = Step-WiredUnless st (reach-WiredUnless r)
