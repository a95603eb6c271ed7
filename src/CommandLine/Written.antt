-- ===== src/CommandLine/Written.antt =====
-- What CLApp of src/command_line.h makes of arguments that spell options.
use gapbs_bfs_experiment.Base.{
  ℕ, ◌≡◌, refl, sym, ap, ◌∙◌, true, false, none, some, List, [], ◌∷◌, ◌++◌, map, append_assoc,
  append-nil, ◌==◌, Text, codes, ◌≟◌, Bool, not, ◌||◌, eq_ℤ, minus_one, Exit, done, if◌then◌else◌,
}
use gapbs_bfs_experiment.CommandLine.{
  ClApp, new_cl_app, new_cl_base, add_get_args, add_help_line, parse_args, cl_app_handler,
}
use gapbs_bfs_experiment.CommandLine.Meaning.{asked, meaning, usage, parse_args-meaning}
use gapbs_bfs_experiment.CommandLine.Getopt.{
  Event, find_letter, cluster, option_body, scan_args, getopt,
}

-- One way to write options: flags behind one '-', an option before its argument or joined to it, or
-- an operand.
pub data Written : Type 0 where
  flags : ℕ → List ℕ → Written
  separate : ℕ → Text → Written
  joined : ℕ → Text → Written
  operand : Text → Written

abbrev pub args_of : Written → List Text
args_of (flags c cs) = (b'-' ∷ c ∷ cs) ∷ []
args_of (separate c arg) = (b'-' ∷ c ∷ []) ∷ arg ∷ []
args_of (joined c arg) = (b'-' ∷ c ∷ arg) ∷ []
args_of (operand arg) = arg ∷ []

abbrev pub events_of : Written → List Event
events_of (flags c cs) = (c, []) ∷ map (λ d. (d, [])) cs
events_of (separate c arg) = (c, arg) ∷ []
events_of (joined c arg) = (c, arg) ∷ []
events_of (operand arg) = []

-- The letters are the program's, and take an argument or not as it is written.
abbrev AreFlags : Text → List ℕ → Type 0
AreFlags letters [] = Unit {0}
AreFlags letters (c ∷ cs) = (find_letter letters c ≡ some false) × AreFlags letters cs

abbrev pub Accepts : Text → Written → Type 0
Accepts letters (flags c cs) = ((c == b'-') ≡ false) × AreFlags letters (c ∷ cs)
Accepts letters (separate c arg) = ((c == b'-') ≡ false) × (find_letter letters c ≡ some true)
Accepts letters (joined c arg) =
    ((c == b'-') ≡ false) × (find_letter letters c ≡ some true) × ((arg ≟ []) ≡ false)
Accepts letters (operand arg) = option_body arg ≡ none

abbrev pub AllAccepts : Text → List Written → Type 0
AllAccepts letters [] = Unit {0}
AllAccepts letters (w ∷ ws) = Accepts letters w × AllAccepts letters ws

abbrev pub all_args : List Written → List Text
all_args [] = []
all_args (w ∷ ws) = args_of w ++ all_args ws

abbrev pub all_events : List Written → List Event
all_events [] = []
all_events (w ∷ ws) = events_of w ++ all_events ws

cluster-flags :
    (letters : Text) (cs : List ℕ)
    → AreFlags letters cs
    → cluster letters cs ≡ (map (λ d. (d, [])) cs, none)
unfolding cluster
cluster-flags letters [] h = refl
cluster-flags letters (c ∷ cs) h = rw (h.0, cluster-flags letters cs h.1) refl

scan_args-written :
    (letters : Text) (w : Written) (rest : List Text)
    → Accepts letters w
    → scan_args letters none (args_of w ++ rest) ≡ events_of w ++ scan_args letters none rest
unfolding scan_args option_body cluster
scan_args-written letters (flags c cs) rest h =
    rw (cluster-flags letters (c ∷ cs) h.1) (rw h.0 refl)
scan_args-written letters (separate c arg) rest h = rw (h.0, h.1) refl
scan_args-written letters (joined c arg) rest h = rw (h.0, h.1, h.2) refl
scan_args-written letters (operand arg) rest h = rw h refl

scan_args-all :
    (letters : Text) (ws : List Written) (rest : List Text)
    → AllAccepts letters ws
    → scan_args letters none (all_args ws ++ rest) ≡ all_events ws ++ scan_args letters none rest
scan_args-all letters [] rest h = refl
scan_args-all letters (w ∷ ws) rest h = rw (append_assoc (args_of w) (all_args ws) rest) (
    rw (scan_args-written letters w (all_args ws ++ rest) h.0)
      (rw (scan_args-all letters ws rest h.1) (sym (append_assoc (events_of w) (all_events ws) _))))

-- What is written is read back in its order, and nothing behind an argument "--".
getopt-written :
    (letters : Text) (ws : List Written) (behind : List Text)
    → AllAccepts letters ws
    → (getopt letters (all_args ws) ≡ all_events ws)
      × (getopt letters (all_args ws ++ codes "--" ∷ behind) ≡ all_events ws)
unfolding getopt scan_args option_body
getopt-written letters ws behind h = (
  ap (scan_args letters none) (sym (append-nil (all_args ws)))
      ∙ scan_args-all letters ws [] h
      ∙ append-nil (all_events ws),
  scan_args-all letters ws (codes "--" ∷ behind) h ∙ append-nil (all_events ws),
)

-- The letters that CLBase and CLApp give to getopt.
abbrev pub app_letters : Text
app_letters = codes "f:g:hk:su:man:r:vl"

-- What ParseArgs of CLApp gives for these options.
abbrev pub outcome : List Event → ClApp → Exit (Bool × ClApp)
outcome es s =
    let t = meaning es s in
    let generated = not (eq_ℤ t.cl_base.scale minus_one) in
    if asked (λ c. c == b'h') es
    then usage s.cl_base
    else done (
      not (t.cl_base.filename ≟ []) || generated,
      record t { cl_base = record (t.cl_base) { symmetrize = generated || t.cl_base.symmetrize } },
    )

letters-new_cl_app :
    (argv : List Text) (name : Text)
    → ((new_cl_app argv name).cl_base.get_args ≡ app_letters)
      × ((new_cl_app argv name).cl_base.argv ≡ argv)
unfolding new_cl_app new_cl_base add_get_args add_help_line
letters-new_cl_app argv name = (refl, refl)

parse_args-events :
    (argv : List Text) (name : Text) (es : List Event)
    → getopt app_letters argv ≡ es
    → parse_args cl_app_handler (new_cl_app argv name) ≡ outcome es (new_cl_app argv name)
parse_args-events argv name es reads =
    let s = new_cl_app argv name in
    let (letters, args) = letters-new_cl_app argv name in
    let read : getopt s.cl_base.get_args s.cl_base.argv ≡ es = rw (letters, args) reads in
    parse_args-meaning s ∙ ap (λ es'. outcome es' s) read

-- A program of CLApp that is given options written as flags behind one '-', before their arguments or
-- joined to them, with operands among them, each of its letters and with an argument if the letter takes
-- one, handles them in their order, whatever the arguments hold; and nothing behind an argument "--".
pub parse_args-written :
    (ws : List Written) (behind : List Text) (name : Text)
    → AllAccepts app_letters ws
    → let argv = all_args ws in
      let more = all_args ws ++ codes "--" ∷ behind in
      (parse_args cl_app_handler (new_cl_app argv name)
        ≡ outcome (all_events ws) (new_cl_app argv name))
      × (parse_args cl_app_handler (new_cl_app more name)
          ≡ outcome (all_events ws) (new_cl_app more name))
parse_args-written ws behind name h =
    let (plain, cut) = getopt-written app_letters ws behind h in
    (
      parse_args-events (all_args ws) name (all_events ws) plain,
      parse_args-events (all_args ws ++ codes "--" ∷ behind) name (all_events ws) cut,
    )
