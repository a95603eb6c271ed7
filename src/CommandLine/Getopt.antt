-- ===== src/CommandLine/Getopt.antt =====
-- What src/command_line.h uses of getopt: the options of the arguments in order, with operands
-- passed over, up to an argument that is "--".
use gapbs_bfs_experiment.Base.{
  ℕ, Bool, true, false, Option, none, some, List, [], ◌∷◌, ◌++◌, if◌then◌else◌, ◌==◌, Text, codes,
  ◌≟◌,
}

-- An option's letter and optarg, which is empty where the pointer is null.
abbrev pub Event : Type 0
Event = ℕ × Text

abbrev starts_colon : Text → Bool
starts_colon [] = false
starts_colon (x ∷ xs) = x == b':'

-- Whether the letters of the program have the option `c`, and with an argument.
unfoldable pub find_letter : Text → ℕ → Option Bool
find_letter [] c = none
find_letter (x ∷ xs) c =
    let rest = find_letter xs c in
    if c == b':' then none else if x == c then some (starts_colon xs) else rest

-- One letter, with the characters behind it and what they read to as letters.
abbrev pub read_letter : Option Bool → ℕ → Text → List Event × Option ℕ → List Event × Option ℕ
read_letter none c cs rest = ((b'?', []) ∷ rest.0, rest.1)
read_letter (some false) c cs rest = ((c, []) ∷ rest.0, rest.1)
read_letter (some true) c cs rest = if cs ≟ [] then ([], some c) else ((c, cs) ∷ [], none)

-- The options of one argument, behind its '-', and the option that takes the next argument.
unfoldable pub cluster : Text → Text → List Event × Option ℕ
unfolding find_letter
cluster letters [] = ([], none)
cluster letters (c ∷ cs) = read_letter (find_letter letters c) c cs (cluster letters cs)

-- What follows the first '-' of an option argument.
unfoldable pub option_body : Text → Option Text
option_body [] = none
option_body (x ∷ []) = none
option_body (x ∷ y ∷ ys) = if x == b'-' then some (y ∷ ys) else none

-- One argument, with the options that it holds if it is not an operand, and what those behind it
-- read to.
abbrev pub read_arg :
    Option Text → Text → (Text → List Event × Option ℕ) → (Option ℕ → List Event) → List Event
read_arg none arg options rest = rest none
read_arg (some body) arg options rest =
    if arg ≟ codes "--" then [] else (options body).0 ++ rest (options body).1

-- `pending` is an option whose argument comes next.
unfoldable pub scan_args : Text → Option ℕ → List Text → List Event
unfolding cluster option_body
scan_args letters none [] = []
scan_args letters (some c) [] = (b'?', []) ∷ []
scan_args letters (some c) (arg ∷ args) = (c, arg) ∷ scan_args letters none args
scan_args letters none (arg ∷ args) =
    read_arg (option_body arg) arg (cluster letters) (λ next. scan_args letters next args)

unfoldable pub getopt : Text → List Text → List Event
unfolding scan_args
getopt letters args = scan_args letters none args
