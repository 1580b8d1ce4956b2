-- ===== src/Args/Command.antt =====
-- The command line that gives flags and positionals, as crates/anago/src/args.rs reads it.
use mathlib.Core.List.{append-nil, append_assoc}
use anago.Prelude.{
  ◌≡◌, refl, sym, ap, subst, ◌∙◌, ◌↔◌, true, false, List, [], ◌∷◌, ◌++◌, Option, none, some, ◌==◌,
  list_eq, nat_eq, find, map, All, ok, contains, Distinct, Distinct-middle, arith, inl, inr,
  Bool-cases,
}
use anago.Text.{Text, split_once}
use anago.Text.Split.{split_once-append, split_once-none}
use anago.Args.{
  Flag, FlagKind, boolean, valued, ParsedArgs, dashes, split_flag, push_positional, push_flag,
  push_value, given, read_arg, parse_loop, parse,
}
use anago.Args.Given.{
  IsGiven, IsDeclared, names, fits, find_named, any-names, names-append, parse_loop-IsDeclared,
}

-- A flag as it is typed, its value behind `=`.
abbrev pub render_flag : Text × Option Text → Text
render_flag (name, none) = dashes ++ name
render_flag (name, some value) = dashes ++ name ++ b'=' ∷ value

-- The flags, and the positionals behind `--`.
abbrev pub render : ParsedArgs → List Text
render p = map render_flag p.flags ++ dashes ∷ p.positionals

-- A name that can be typed.
abbrev pub IsName : Flag → Type 0
IsName flag = (contains flag.name b'=' ≡ false) × ((flag.name == []) ≡ false)

split_flag-render :
    (name : Text) (value : Option Text)
    → contains name b'=' ≡ false
    → split_flag (render_flag (name, value)) ≡ (dashes ++ name, value)
unfolding split_flag split_once
split_flag-render name none c = rw (split_once-none b'=' (dashes ++ name) c) refl
split_flag-render name (some value) c = rw (split_once-append b'=' (dashes ++ name) value c) refl

module _ (spec : List Flag) (named : All IsName spec) where
  find-IsName :
      (xs : List Flag) (name : Text) {flag : Flag}
      → All IsName xs
      → find (λ (g : Flag). g.name == name) xs ≡ some flag
      → IsName flag
  find-IsName [] name all h = absurd (ground arith)
  find-IsName (g ∷ xs) name {flag} all h = elim (Bool-cases (g.name == name)) [
    | inl same ↦ let e : g ≡ flag = ground arith in subst IsName e all.0
    | inr other ↦ find-IsName xs name {flag = flag} all.1 (ground arith)
  ]

  read_arg-flag :
      (name : Text) (value : Option Text) (flag : Flag)
      → contains name b'=' ≡ false
      → (name == []) ≡ false
      → find (λ (g : Flag). g.name == name) spec ≡ some flag
      → read_arg spec (render_flag (name, value)) ≡ given flag value
  unfolding read_arg
  read_arg-flag [] value flag c n f = absurd (ground arith)
  read_arg-flag (x ∷ xs) none flag c n f = ground (arith, split_flag-render (x ∷ xs) none c, f)
  read_arg-flag (x ∷ xs) (some value) flag c n f =
      ground (arith, split_flag-render (x ∷ xs) (some value) c, f)

  parse_loop-positionals :
      (p : ParsedArgs) (argv : List Text)
      → parse_loop spec p true argv ≡ ok (record p { positionals = p.positionals ++ argv })
  unfolding parse_loop
  parse_loop-positionals p [] =
      ap (λ t. ok (record p { positionals = t })) (sym (append-nil p.positionals))
  parse_loop-positionals p (arg ∷ rest) =
      parse_loop-positionals (push_positional p arg) rest
      ∙ ap (λ t. ok (record p { positionals = t })) (append_assoc p.positionals (arg ∷ []) rest)

  push_flag-fresh :
      (p : ParsedArgs) (name : Text) (value : Option Text) (fs : List (Text × Option Text))
      → Distinct (names (p.flags ++ (name, value) ∷ fs))
      → push_flag p name value ≡ ok (record p { flags = p.flags ++ (name, value) ∷ [] })
  unfolding push_flag
  push_flag-fresh p name value fs d =
      let fresh =
        any-names p.flags name
        ∙ Distinct-middle (names p.flags) name (names fs)
            (subst Distinct (names-append p.flags ((name, value) ∷ fs)) d) in
      rw fresh refl

  -- What the loop does with a flag that has a value of its kind.
  parse_loop-given :
      (p : ParsedArgs) (arg name : Text) (kind : FlagKind) (value : Option Text) (rest : List Text)
      {q : ParsedArgs}
      → read_arg spec arg ≡ given (record { name = name; kind = kind }) value
      → fits kind value ≡ true
      → push_flag p name value ≡ ok q
      → parse_loop spec p false (arg ∷ rest) ≡ parse_loop spec q false rest
  unfolding parse_loop push_value
  parse_loop-given p arg name boolean none rest read fit pushed = ground arith
  parse_loop-given p arg name boolean (some v) rest read fit pushed = absurd (ground arith)
  parse_loop-given p arg name valued none rest read fit pushed = absurd (ground arith)
  parse_loop-given p arg name valued (some []) rest read fit pushed = absurd (ground arith)
  parse_loop-given p arg name valued (some (c ∷ cs)) rest read fit pushed = ground arith

  parse_loop-flag :
      (p : ParsedArgs) (f : Text × Option Text) (fs : List (Text × Option Text)) (rest : List Text)
      → IsGiven spec f
      → Distinct (names (p.flags ++ f ∷ fs))
      → parse_loop spec p false (render_flag f ∷ rest)
        ≡ parse_loop spec (record p { flags = p.flags ++ f ∷ [] }) false rest
  parse_loop-flag p (name, value) fs rest (flag, found, fit) d =
      let same = find_named spec name {flag = flag} found in
      let typed = find-IsName spec name {flag = flag} named found in
      let c : contains name b'=' ≡ false = subst (λ n. contains n b'=' ≡ false) same typed.0 in
      let n : (name == []) ≡ false = subst (λ n. (n == []) ≡ false) same typed.1 in
      parse_loop-given p (render_flag (name, value)) flag.name flag.kind value rest
        (read_arg-flag name value flag c n found) fit
        (ap (λ n. push_flag p n value) same ∙ push_flag-fresh p name value fs d)

  parse_loop-render :
      (p : ParsedArgs) (fs : List (Text × Option Text)) (argv : List Text)
      → All (IsGiven spec) fs
      → Distinct (names (p.flags ++ fs))
      → parse_loop spec p false (map render_flag fs ++ dashes ∷ argv)
        ≡ ok (record { positionals = p.positionals ++ argv; flags = p.flags ++ fs })
  unfolding parse_loop read_arg
  parse_loop-render p [] argv g d =
      parse_loop-positionals p argv
      ∙ ap (λ t. ok (record { positionals = p.positionals ++ argv; flags = t }))
          (sym (append-nil p.flags))
  parse_loop-render p (f ∷ fs) argv g d =
      let snoc = append_assoc p.flags (f ∷ []) fs in
      parse_loop-flag p f fs (map render_flag fs ++ dashes ∷ argv) g.0 d
      ∙ parse_loop-render (record p { flags = p.flags ++ f ∷ [] }) fs argv g.1
          (subst (λ t. Distinct (names t)) (sym snoc) d)
      ∙ ap (λ t. ok (record { positionals = p.positionals ++ argv; flags = t })) snoc

-- Where the names of the declared flags have characters and no `=`: an outcome is what some command
-- line parses to exactly if its flags are declared, each with a value of its kind (none for a
-- Boolean flag, a text that is not empty for the others), and none stands twice. The command line
-- that has the flags first, each value behind an `=`, then `--` and the positionals, is one for it.
pub parse-IsDeclared_iff :
    (spec : List Flag) (p : ParsedArgs)
    → All IsName spec
    → (IsDeclared spec p ↔ ((argv : List Text) × (parse argv spec ≡ ok p)))
      × (IsDeclared spec p ↔ (parse (render p) spec ≡ ok p))
parse-IsDeclared_iff spec p named =
    let start : ParsedArgs = record { positionals = []; flags = [] } in
    let sound : (argv : List Text) → parse argv spec ≡ ok p → IsDeclared spec p = λ argv h.
      parse_loop-IsDeclared spec start false argv {q = p} (record { flags = tt; distinct = tt })
        h in
    let complete : IsDeclared spec p → parse (render p) spec ≡ ok p =
      λ d. parse_loop-render spec named start p.flags p.positionals d.flags d.distinct in
    ((λ d. (render p, complete d), λ (argv, h). sound argv h), (complete, sound (render p)))
