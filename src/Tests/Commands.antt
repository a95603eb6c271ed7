-- ===== src/Tests/Commands.antt =====
-- Command lines of src/command_line.h.
use gapbs_bfs_experiment.Base.{
  ◌≡◌, refl, true, List, [], ◌∷◌, ◌||◌, not, if◌then◌else◌, ◌==◌, pos, negsuc, ◌++◌, minus_one,
  eq_ℤ, codes, ◌≟◌, done, atoi, atol, skip_spaces, read_digits, decimal, decimal_ℤ, digits_onto,
}
use gapbs_bfs_experiment.CommandLine.Getopt.{getopt, scan_args, cluster, option_body, find_letter}
use gapbs_bfs_experiment.CommandLine.Meaning.{asked, meaning, usage, parse_args-meaning}
use gapbs_bfs_experiment.CommandLine.Written.{
  Written, flags, separate, joined, operand, all_args, all_events, outcome, parse_args-written,
}
use gapbs_bfs_experiment.CommandLine.{
  ClApp, new_cl_app, new_cl_base, parse_args, handle_all, handle_app, handle_base, check_source,
  cl_app_handler, add_get_args, help_line,
}

-- bfs -g 10 -n4 -va in.el -k 8
abbrev written : List Written
written =
    separate b'g' (codes "10")
    ∷ joined b'n' (codes "4")
    ∷ flags b'v' (b'a' ∷ [])
    ∷ operand (codes "in.el")
    ∷ separate b'k' (codes " -8x")
    ∷ []

abbrev app : ClApp
app = new_cl_app (all_args written) (codes "breadth-first search")

program : Unit {0}
unfolding parse_args handle_all handle_app handle_base check_source getopt scan_args cluster
    option_body find_letter new_cl_app new_cl_base add_get_args atoi atol skip_spaces read_digits
program = tt

-- The scale gives a graph, the last number is read up to the 'x', and the graph is symmetrized.
app_is :
    (t : ClApp) × (parse_args cl_app_handler app ≡ done (true, t))
    × (t.cl_base.scale ≡ pos 10)
    × (t.cl_base.degree ≡ negsuc 7)
    × (t.num_trials ≡ pos 4)
    × (t.cl_base.symmetrize ≡ true)
    × (t.do_verify ≡ true)
unfolding program
app_is = (_, refl, refl, refl, refl, refl, refl)

-- What the first option -k of a new CLBase has as its line of help.
k_line :
    help_line b'k'
      (codes "degree")
      (codes "average degree for synthetic graph")
      (decimal_ℤ (pos 16))
    ≡ codes " -k <degree> : average degree for synthetic graph                          [16]"
unfolding decimal_ℤ decimal digits_onto
k_line = refl

parse_args-meaning_example :
    let es = getopt app.cl_base.get_args app.cl_base.argv in
    let t = meaning es app in
    let given = not (t.cl_base.filename ≟ []) || not (eq_ℤ t.cl_base.scale minus_one) in
    let generated = not (eq_ℤ t.cl_base.scale minus_one) in
    parse_args cl_app_handler app ≡ (
      if asked (λ c. c == b'h') es
      then usage app.cl_base
      else done (
        given,
        record t {
          cl_base = record (t.cl_base) { symmetrize = generated || t.cl_base.symmetrize };
        },
      ))
parse_args-meaning_example = parse_args-meaning app

parse_args-written_example :
    let argv = all_args written in
    let more = all_args written ++ codes "--" ∷ codes "-h" ∷ [] in
    (parse_args cl_app_handler (new_cl_app argv (codes "bfs"))
      ≡ outcome (all_events written) (new_cl_app argv (codes "bfs")))
    × (parse_args cl_app_handler (new_cl_app more (codes "bfs"))
        ≡ outcome (all_events written) (new_cl_app more (codes "bfs")))
unfolding find_letter option_body
parse_args-written_example =
    parse_args-written written (codes "-h" ∷ []) (codes "bfs")
      ((refl, refl), ((refl, refl, refl), ((refl, (refl, (refl, tt))), (refl, ((refl, refl), tt)))))
