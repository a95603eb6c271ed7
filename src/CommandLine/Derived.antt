-- ===== src/CommandLine/Derived.antt =====
-- The argument classes of src/command_line.h for the kernels with options of their own and for the
-- converter.
use gapbs_bfs_experiment.Base.{
  ℕ, Bool, true, false, List, [], if◌then◌else◌, ◌==◌, ℤ, pos, to_int32, Text, codes, atoi, atol,
  decimal_ℤ, Exit, done, ◌>>=◌,
}
use gapbs_bfs_experiment.CommandLine.{
  ClBase, ClApp, Handler, add_help_line, add_get_args, new_cl_base, new_cl_app, handle_base,
  handle_app,
}

-- The constructor bodies: more letters, and a help line for each.
unfoldable pub extend_app : Text → (ClBase → ClBase) → ClApp → ClApp
unfolding add_get_args
extend_app letters add_lines s = record s { cl_base = add_lines (add_get_args letters s.cl_base) }

pub record ClIterApp : Type 0 where
  pub cl_app : ClApp
  pub num_iters : ℤ

unfoldable pub new_cl_iter_app : List Text → Text → ℤ → ClIterApp
unfolding extend_app new_cl_app add_help_line decimal_ℤ
new_cl_iter_app argv name num_iters = record {
  cl_app =
      extend_app (codes "i:")
        (add_help_line b'i' (codes "i") (codes "perform i iterations") (decimal_ℤ num_iters))
        (new_cl_app argv name);
  num_iters = num_iters;
}

unfoldable pub handle_iter_app : ℕ → Text → ClIterApp → Exit ClIterApp
unfolding handle_app atoi
handle_iter_app opt opt_arg s =
    if opt == b'i'
    then done (record s { num_iters = atoi opt_arg })
    else handle_app opt opt_arg s.cl_app >>= λ a. done (record s { cl_app = a })

abbrev pub cl_iter_app_handler : Handler ClIterApp
cl_iter_app_handler = record {
  base_of = λ s. s.cl_app.cl_base;
  with_base = λ b s. record s { cl_app = record (s.cl_app) { cl_base = b } };
  handle = handle_iter_app;
}

-- `Double` stands for double, with std::stod, which may throw, and std::to_string.
module _ {Double : Type 0} (stod : Text → Exit Double) (to_string : Double → Text) where
  pub record ClPageRank : Type 0 where
    pub cl_app : ClApp
    pub max_iters : ℤ
    pub tolerance : Double

  unfoldable pub new_cl_page_rank : List Text → Text → Double → ℤ → ClPageRank
  unfolding extend_app new_cl_app add_help_line decimal_ℤ
  new_cl_page_rank argv name tolerance max_iters =
      let lines : ClBase → ClBase = λ b.
        add_help_line b't' (codes "t") (codes "use tolerance t") (to_string tolerance) (
          add_help_line b'i' (codes "i") (codes "perform at most i iterations")
            (decimal_ℤ max_iters) b) in
      record {
        cl_app = extend_app (codes "i:t:") lines (new_cl_app argv name);
        max_iters = max_iters;
        tolerance = tolerance;
      }

  unfoldable pub handle_page_rank : ℕ → Text → ClPageRank → Exit ClPageRank
  unfolding handle_app atoi
  handle_page_rank opt opt_arg s =
      if opt == b'i'
      then done (record s { max_iters = atoi opt_arg })
      else if opt == b't'
      then (stod opt_arg >>= λ t. done (record s { tolerance = t }))
      else handle_app opt opt_arg s.cl_app >>= λ a. done (record s { cl_app = a })

-- CLDelta for the weights that the kernels use, which are 32-bit integers.
pub record ClDelta : Type 0 where
  pub cl_app : ClApp
  pub delta : ℤ

unfoldable pub new_cl_delta : List Text → Text → ClDelta
unfolding extend_app new_cl_app add_help_line decimal_ℤ
new_cl_delta argv name = record {
  cl_app =
      extend_app (codes "d:")
        (add_help_line b'd' (codes "d") (codes "delta parameter") (decimal_ℤ (pos 1)))
        (new_cl_app argv name);
  delta = pos 1;
}

unfoldable pub handle_delta : ℕ → Text → ClDelta → Exit ClDelta
unfolding handle_app atol
handle_delta opt opt_arg s =
    if opt == b'd'
    then done (record s { delta = to_int32 (atol opt_arg) })
    else handle_app opt opt_arg s.cl_app >>= λ a. done (record s { cl_app = a })

pub record ClConvert : Type 0 where
  pub cl_base : ClBase
  pub out_filename : Text
  pub out_weighted : Bool
  pub out_el : Bool
  pub out_sg : Bool

unfoldable pub new_cl_convert : List Text → Text → ClConvert
unfolding new_cl_base add_get_args add_help_line
new_cl_convert argv name =
    let b0 = add_get_args (codes "e:b:w") (new_cl_base argv name) in
    let b1 = add_help_line b'b' (codes "file") (codes "output serialized graph to file") [] b0 in
    let b2 = add_help_line b'e' (codes "file") (codes "output edge list to file") [] b1 in
    record {
      cl_base = add_help_line b'w' (codes "file") (codes "make output weighted") [] b2;
      out_filename = [];
      out_weighted = false;
      out_el = false;
      out_sg = false;
    }

unfoldable pub handle_convert : ℕ → Text → ClConvert → Exit ClConvert
unfolding handle_base
handle_convert opt opt_arg s =
    if opt == b'b'
    then done (record s { out_sg = true; out_filename = opt_arg })
    else if opt == b'e'
    then done (record s { out_el = true; out_filename = opt_arg })
    else if opt == b'w'
    then done (record s { out_weighted = true })
    else handle_base opt opt_arg s.cl_base >>= λ b. done (record s { cl_base = b })

abbrev pub cl_convert_handler : Handler ClConvert
cl_convert_handler = record {
  base_of = λ s. s.cl_base;
  with_base = λ b s. record s { cl_base = b };
  handle = handle_convert;
}
