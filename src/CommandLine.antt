-- ===== src/CommandLine.antt =====
-- The classes of src/command_line.h: the state of each argument class, and ParseArgs over the
-- virtual HandleArg. The arguments after the program's name are lists of characters.
pub mod Getopt
pub mod Derived
pub mod Meaning
pub mod Written
use gapbs_bfs_experiment.Base.{
  ℕ, suc, ◌-◌, Bool, true, false, not, ◌&&◌, ◌||◌, Option, none, some, List, [], ◌∷◌, ◌++◌, length,
  take, replicate, if◌then◌else◌, ◌==◌, ℤ, pos, negsuc, minus_one, eq_ℤ, to_int32, Text, codes, ◌≟◌,
  atoi, atol, decimal_ℤ, Exit, done, exits, ◌>>=◌,
}
use gapbs_bfs_experiment.CommandLine.Getopt.{Event, getopt}

pub record ClBase : Type 0 where
  pub argv : List Text
  pub name : Text
  pub get_args : Text
  pub help_strings : List Text
  pub scale : ℤ
  pub degree : ℤ
  pub filename : Text
  pub symmetrize : Bool
  pub uniform : Bool
  pub in_place : Bool

pub record ClApp : Type 0 where
  pub cl_base : ClBase
  pub do_analysis : Bool
  pub num_trials : ℤ
  pub start_vertex : ℤ
  pub do_verify : Bool
  pub enable_logging : Bool

-- What a class derived from CLBase gives ParseArgs: its part that is CLBase, and its HandleArg.
pub record Handler (S : Type 0) : Type 0 where
  pub base_of : S → ClBase
  pub with_base : ClBase → S → S
  pub handle : ℕ → Text → S → Exit S

-- %-ns and %ns of snprintf.
abbrev pub pad_right : ℕ → Text → Text
pad_right n s = s ++ replicate (n - length s) b' '

abbrev pub pad_left : ℕ → Text → Text
pad_left n s = replicate (n - length s) b' ' ++ s

abbrev pub k_buf_len : ℕ
k_buf_len = 100

abbrev pub bracketed : ℕ → ℕ → Text → Text
bracketed first last s = if s ≟ [] then s else first ∷ (s ++ last ∷ [])

-- " -%c %-9s: %-54s%10s", cut to the buffer.
abbrev pub help_line : ℕ → Text → Text → Text → Text
help_line opt opt_arg text def = take (k_buf_len - 1) (
    codes " -"
    ++ opt ∷ codes " "
    ++ pad_right 9 (bracketed b'<' b'>' opt_arg)
    ++ codes ": "
    ++ pad_right 54 text
    ++ pad_left 10 (bracketed b'[' b']' def))

unfoldable pub add_help_line : ℕ → Text → Text → Text → ClBase → ClBase
add_help_line opt opt_arg text def b = record b {
  help_strings = b.help_strings ++ help_line opt opt_arg text def ∷ [];
}

-- get_args_ += letters
unfoldable pub add_get_args : Text → ClBase → ClBase
add_get_args letters b = record b { get_args = b.get_args ++ letters }

unfoldable pub new_cl_base : List Text → Text → ClBase
unfolding add_help_line decimal_ℤ
new_cl_base argv name =
    let b0 : ClBase = record {
      argv = argv;
      name = name;
      get_args = codes "f:g:hk:su:m";
      help_strings = [];
      scale = minus_one;
      degree = pos 16;
      filename = [];
      symmetrize = false;
      uniform = false;
      in_place = false;
    } in
    let b1 = add_help_line b'h' [] (codes "print this help message") [] b0 in
    let b2 = add_help_line b'f' (codes "file") (codes "load graph from file") [] b1 in
    let b3 = add_help_line b's' [] (codes "symmetrize input edge list") (codes "false") b2 in
    let b4 = add_help_line b'g' (codes "scale") (codes "generate 2^scale kronecker graph") [] b3 in
    let b5 =
      add_help_line b'u' (codes "scale") (codes "generate 2^scale uniform-random graph") [] b4 in
    let b6 =
      add_help_line b'k' (codes "degree") (codes "average degree for synthetic graph")
        (decimal_ℤ b0.degree) b5 in
    add_help_line b'm' [] (codes "reduces memory usage during graph building") (codes "false") b6

unfoldable pub print_usage {ℓ} : {A : Type ℓ} → ClBase → Exit A
print_usage b = exits (pos 0) (b.name ∷ b.help_strings)

unfoldable pub handle_base : ℕ → Text → ClBase → Exit ClBase
unfolding print_usage atoi
handle_base opt opt_arg b =
    if opt == b'f'
    then done (record b { filename = opt_arg })
    else if opt == b'g'
    then done (record b { scale = atoi opt_arg })
    else if opt == b'h'
    then print_usage b
    else if opt == b'k'
    then done (record b { degree = atoi opt_arg })
    else if opt == b's'
    then done (record b { symmetrize = true })
    else if opt == b'u'
    then done (record b { uniform = true; scale = atoi opt_arg })
    else if opt == b'm'
    then done (record b { in_place = true })
    else done b

abbrev pub cl_base_handler : Handler ClBase
cl_base_handler = record { base_of = λ b. b; with_base = λ b s. b; handle = handle_base }

module _ {S : Type 0} (h : Handler S) where
  -- The loop on getopt.
  unfoldable pub handle_all : List Event → S → Exit S
  handle_all [] s = done s
  handle_all ((opt, opt_arg) ∷ events) s = h.handle opt opt_arg s >>= handle_all events

  -- The checks behind the loop.
  unfoldable pub check_source : S → Bool × S
  check_source s =
      let b = h.base_of s in
      if b.filename ≟ [] && eq_ℤ b.scale minus_one
      then (false, s)
      else if not (eq_ℤ b.scale minus_one)
      then (true, h.with_base (record b { symmetrize = true }) s)
      else (true, s)

  unfoldable pub parse_args : S → Exit (Bool × S)
  unfolding handle_all check_source getopt
  parse_args s =
      let b = h.base_of s in handle_all (getopt b.get_args b.argv) s >>= λ t. done (check_source t)

unfoldable pub new_cl_app : List Text → Text → ClApp
unfolding new_cl_base add_help_line add_get_args decimal_ℤ
new_cl_app argv name =
    let b0 = add_get_args (codes "an:r:vl") (new_cl_base argv name) in
    let b1 = add_help_line b'a' [] (codes "output analysis of last run") (codes "false") b0 in
    let b2 = add_help_line b'n' (codes "n") (codes "perform n trials") (decimal_ℤ (pos 16)) b1 in
    let b3 = add_help_line b'r' (codes "node") (codes "start from node r") (codes "rand") b2 in
    let b4 = add_help_line b'v' [] (codes "verify the output of each run") (codes "false") b3 in
    let b5 = add_help_line b'l' [] (codes "log performance within each trial") (codes "false") b4 in
    record {
      cl_base = b5;
      do_analysis = false;
      num_trials = pos 16;
      start_vertex = minus_one;
      do_verify = false;
      enable_logging = false;
    }

unfoldable pub handle_app : ℕ → Text → ClApp → Exit ClApp
unfolding handle_base atoi atol
handle_app opt opt_arg s =
    if opt == b'a'
    then done (record s { do_analysis = true })
    else if opt == b'n'
    then done (record s { num_trials = atoi opt_arg })
    else if opt == b'r'
    then done (record s { start_vertex = atol opt_arg })
    else if opt == b'v'
    then done (record s { do_verify = true })
    else if opt == b'l'
    then done (record s { enable_logging = true })
    else handle_base opt opt_arg s.cl_base >>= λ b. done (record s { cl_base = b })

abbrev pub cl_app_handler : Handler ClApp
cl_app_handler = record {
  base_of = λ s. s.cl_base;
  with_base = λ b s. record s { cl_base = b };
  handle = handle_app;
}
