-- ===== src/CommandLine/Meaning.antt =====
-- What the options given to CLApp (src/command_line.h) mean, field by field.
use gapbs_bfs_experiment.Base.{
  ℕ, ◌≡◌, refl, sym, arith, Bool, true, false, ◌||◌, List, [], ◌∷◌, if◌then◌else◌, ◌==◌, pos, Text,
  atoi, atol, Exit, done, exits, not, ◌≟◌, eq_ℤ, minus_one, inl, inr, Bool-cases,
}
use gapbs_bfs_experiment.CommandLine.Getopt.{Event, getopt}
use gapbs_bfs_experiment.CommandLine.{
  ClBase, ClApp, handle_all, handle_app, handle_base, print_usage, cl_app_handler, parse_args,
  check_source,
}

-- Whether an option of those letters was given.
abbrev pub asked : (ℕ → Bool) → List Event → Bool
asked p [] = false
asked p (e ∷ es) = p e.0 || asked p es

module _ {ℓ} {A : Type ℓ} (p : ℕ → Bool) (read : Text → A) where
  -- The argument of the last option of those letters, read, or `d` if there is none.
  abbrev pub last_of : A → List Event → A
  last_of d [] = d
  last_of d (e ∷ es) = if asked p es then last_of d es else if p e.0 then read e.1 else d

  last_of-asked : (d d' : A) (es : List Event) → asked p es ≡ true → last_of d es ≡ last_of d' es
  last_of-asked d d' [] h = cc
  last_of-asked d d' (e ∷ es) h = elim (Bool-cases (asked p es)) [
    | inl later ↦ rw later (last_of-asked d d' es later)
    | inr last ↦ rw last (ground arith)
  ]

  last_of-silent : (d : A) (es : List Event) → asked p es ≡ false → last_of d es ≡ d
  last_of-silent d [] h = refl
  last_of-silent d (e ∷ es) h = elim (Bool-cases (asked p es)) [
    | inl later ↦ ground arith
    | inr last ↦ rw last (ground arith)
  ]

  last_of-cons :
      (d : A) (e : Event) (es : List Event)
      → last_of d (e ∷ es) ≡ last_of (if p e.0 then read e.1 else d) es
  last_of-cons d e es = elim (Bool-cases (asked p es)) [
    | inl later ↦ rw later (last_of-asked d _ es later)
    | inr last ↦ rw last (sym (last_of-silent _ es last))
  ]

abbrev sets_scale : ℕ → Bool
sets_scale c = c == b'g' || c == b'u'

-- Each field by itself: a value comes from the last option that sets it, whatever stands between,
-- and a flag is set by any option that sets it.
abbrev pub base_meaning : List Event → ClBase → ClBase
base_meaning es b = record b {
  scale = last_of sets_scale atoi b.scale es;
  degree = last_of (λ c. c == b'k') atoi b.degree es;
  filename = last_of (λ c. c == b'f') (λ s. s) b.filename es;
  symmetrize = asked (λ c. c == b's') es || b.symmetrize;
  uniform = asked (λ c. c == b'u') es || b.uniform;
  in_place = asked (λ c. c == b'm') es || b.in_place;
}

abbrev pub meaning : List Event → ClApp → ClApp
meaning es s = record {
  cl_base = base_meaning es s.cl_base;
  do_analysis = asked (λ c. c == b'a') es || s.do_analysis;
  num_trials = last_of (λ c. c == b'n') atoi s.num_trials es;
  start_vertex = last_of (λ c. c == b'r') atol s.start_vertex es;
  do_verify = asked (λ c. c == b'v') es || s.do_verify;
  enable_logging = asked (λ c. c == b'l') es || s.enable_logging;
}

abbrev pub usage {ℓ} : {A : Type ℓ} → ClBase → Exit A
usage b = exits (pos 0) (b.name ∷ b.help_strings)

-- One option.
abbrev after : Event → ClApp → ClApp
after e s = meaning (e ∷ []) s

handle_app-after :
    (opt : ℕ) (opt_arg : Text) (s : ClApp)
    → handle_app opt opt_arg s
      ≡ (if opt == b'h' then usage s.cl_base else done (after (opt, opt_arg) s))
unfolding handle_app handle_base print_usage
handle_app-after opt opt_arg s = ground arith

asked-cons :
    (p : ℕ → Bool) (flag : Bool) (e : Event) (es : List Event)
    → (asked p (e ∷ es) || flag) ≡ (asked p es || (asked p (e ∷ []) || flag))
asked-cons p flag e es = ground arith

meaning-cons :
    (e : Event) (es : List Event) (s : ClApp) → meaning (e ∷ es) s ≡ meaning es (after e s)
meaning-cons e es s =
    let b = s.cl_base in
    rw
      (
        last_of-cons sets_scale atoi b.scale e es,
        last_of-cons (λ c. c == b'k') atoi b.degree e es,
        last_of-cons (λ c. c == b'f') (λ t. t) b.filename e es,
        last_of-cons (λ c. c == b'n') atoi s.num_trials e es,
        last_of-cons (λ c. c == b'r') atol s.start_vertex e es,
        asked-cons (λ c. c == b's') b.symmetrize e es,
        asked-cons (λ c. c == b'u') b.uniform e es,
        asked-cons (λ c. c == b'm') b.in_place e es,
        asked-cons (λ c. c == b'a') s.do_analysis e es,
        asked-cons (λ c. c == b'v') s.do_verify e es,
        asked-cons (λ c. c == b'l') s.enable_logging e es,
      )
      refl

handle_all-meaning :
    (es : List Event) (s : ClApp)
    → handle_all cl_app_handler es s
      ≡ (if asked (λ c. c == b'h') es then usage s.cl_base else done (meaning es s))
unfolding handle_all
handle_all-meaning [] s = refl
handle_all-meaning (e ∷ es) s =
    let first = handle_app-after e.0 e.1 s in
    elim (Bool-cases (e.0 == b'h')) [
      | inl help ↦ rw first (rw help refl)
      | inr other ↦
          rw first (rw (other, handle_all-meaning es (after e s), meaning-cons e es s) refl)
    ]

-- What ParseArgs of CLApp returns: -h, wherever it stands, prints the usage and ends the program
-- with 0; else each field is set by the last option that sets it, or keeps its default, a flag by any
-- option that sets it, and the result is false exactly if there is neither a file nor a scale; a
-- generated graph is symmetrized.
pub parse_args-meaning :
    (s : ClApp)
    → let es = getopt s.cl_base.get_args s.cl_base.argv in
      let t = meaning es s in
      let given = not (t.cl_base.filename ≟ []) || not (eq_ℤ t.cl_base.scale minus_one) in
      let generated = not (eq_ℤ t.cl_base.scale minus_one) in
      parse_args cl_app_handler s ≡ (
        if asked (λ c. c == b'h') es
        then usage s.cl_base
        else done (
          given,
          record t {
            cl_base = record (t.cl_base) { symmetrize = generated || t.cl_base.symmetrize };
          },
        ))
unfolding parse_args check_source
parse_args-meaning s =
    let es = getopt s.cl_base.get_args s.cl_base.argv in
    let b = base_meaning es s.cl_base in
    elim (Bool-cases (asked (λ c. c == b'h') es)) [
      | inl help ↦ rw (handle_all-meaning es s) (rw help refl)
      | inr other ↦ rw (handle_all-meaning es s) (
          rw other (elim (Bool-cases (eq_ℤ b.scale minus_one)) [
            | inl no_scale ↦
                rw no_scale
                  (elim (Bool-cases (b.filename ≟ [])) [ inl e ↦ rw e refl | inr e ↦ rw e refl ])
            | inr scale ↦
                rw scale
                  (elim (Bool-cases (b.filename ≟ [])) [ inl e ↦ rw e refl | inr e ↦ rw e refl ])
          ]))
    ]
