-- ===== src/Args/Given.antt =====
-- The command lines that crates/anago/src/args.rs accepts, and what it reads from them.
use anago.Prelude.{
  ◌≡◌, refl, sym, ap, subst, ◌∙◌, Bool, true, false, ◌||◌, List, [], ◌∷◌, ◌++◌, Option, none, some,
  ◌==◌, list_eq, nat_eq, find, any, map, All, Result, ok, err, ◌>>=◌, contains, Distinct,
  Distinct-snoc, arith, ◌⊎◌, inl, inr, Bool-cases, Option-cases, list_beq_iff,
}
use anago.Text.{Text, strip_prefix}
use anago.Args.{
  Flag, FlagKind, is_flag_like, boolean, valued, ParsedArgs, dashes, find_flag, split_flag, is_set,
  push_positional, push_flag, push_value, Turn, ends, plain, undeclared, given, read_arg,
  parse_loop, next_value,
}

-- A value that a flag of this kind has.
abbrev pub fits : FlagKind → Option Text → Bool
fits boolean none = true
fits boolean (some v) = false
fits valued none = false
fits valued (some []) = false
fits valued (some (c ∷ cs)) = true

-- A flag as it is declared, with a value of its kind.
abbrev pub IsGiven : List Flag → Text × Option Text → Type 0
IsGiven spec f =
    (flag : Flag) × (find (λ (g : Flag). g.name == f.0) spec ≡ some flag)
    × (fits flag.kind f.1 ≡ true)

abbrev pub names : List (Text × Option Text) → List Text
names fs = map (λ (f : Text × Option Text). f.0) fs

-- Every flag is declared and has a value of its kind, and none stands twice.
pub record IsDeclared (spec : List Flag) (p : ParsedArgs) : Type 0 where
  pub flags : All (IsGiven spec) p.flags
  pub distinct : Distinct (names p.flags)

pub find_named :
    (spec : List Flag) (name : Text) {flag : Flag}
    → find (λ (g : Flag). g.name == name) spec ≡ some flag
    → flag.name ≡ name
find_named [] name h = ground arith
find_named (g ∷ spec) name {flag} h = elim (Bool-cases (g.name == name)) [
  | inl same ↦
      let e : g ≡ flag = ground arith in
      ap (λ (x : Flag). x.name) (sym e) ∙ (list_beq_iff g.name name).0 same
  | inr other ↦ find_named spec name {flag = flag} (ground arith)
]

pub any-names :
    (fs : List (Text × Option Text)) (name : Text)
    → any (λ (f : Text × Option Text). f.0 == name) fs ≡ contains (names fs) name
any-names [] name = refl
any-names (f ∷ fs) name = ap (λ b. (f.0 == name) || b) (any-names fs name)

pub names-append : (fs gs : List (Text × Option Text)) → names (fs ++ gs) ≡ names fs ++ names gs
names-append [] gs = refl
names-append (f ∷ fs) gs = ap (λ t. f.0 ∷ t) (names-append fs gs)

All-snoc {κ} :
    {A : Type 0} (P : A → Type κ) (xs : List A) (a : A) → All P xs → P a → All P (xs ++ a ∷ [])
All-snoc P [] a h k = (k, tt)
All-snoc P (x ∷ xs) a h k = (h.0, All-snoc P xs a h.1 k)

pub FlagKind-cases : (k : FlagKind) → (k ≡ boolean) ⊎ (k ≡ valued)
FlagKind-cases boolean = inl refl
FlagKind-cases valued = inr refl

>>=-ok :
    {E A B : Type 0} (r : Result E A) (rest : A → Result E B) {b : B}
    → (r >>= rest) ≡ ok b
    → (a : A) × (r ≡ ok a) × (rest a ≡ ok b)
>>=-ok (ok a) rest h = (a, refl, h)
>>=-ok (err e) rest h = absurd (ground arith)

module _ (spec : List Flag) where
  push_flag-IsDeclared :
      (p : ParsedArgs) (name : Text) (value : Option Text) {q : ParsedArgs}
      → IsDeclared spec p
      → IsGiven spec (name, value)
      → push_flag p name value ≡ ok q
      → IsDeclared spec q
  unfolding push_flag
  push_flag-IsDeclared p name value {q} d g h = elim (Bool-cases (is_set p name)) [
    | inl twice ↦ absurd (ground arith)
    | inr fresh ↦
        let e : record p { flags = p.flags ++ (name, value) ∷ [] } ≡ q = ground arith in
        subst (IsDeclared spec) e (record {
          flags = All-snoc (IsGiven spec) p.flags (name, value) d.flags g;
          distinct = subst Distinct (sym (names-append p.flags ((name, value) ∷ []))) (
              Distinct-snoc (names p.flags) name d.distinct (sym (any-names p.flags name) ∙ fresh));
        })
  ]

  find_flag-named :
      (token : Text) {flag : Flag}
      → find_flag spec token ≡ some flag
      → find (λ (g : Flag). g.name == flag.name) spec ≡ some flag
  find_flag-named token {flag} h = elim (Option-cases (strip_prefix dashes token)) [
    | inl e ↦ absurd (ground arith)
    | inr (name, e) ↦
        let found : find (λ (g : Flag). g.name == name) spec ≡ some flag = ground arith in
        subst (λ n. find (λ (g : Flag). g.name == n) spec ≡ some flag)
          (sym (find_named spec name {flag = flag} found)) found
  ]

  read_arg-given :
      (arg : Text) {flag : Flag} {inline : Option Text}
      → read_arg spec arg ≡ given flag inline
      → find (λ (g : Flag). g.name == flag.name) spec ≡ some flag
  unfolding read_arg
  read_arg-given arg {flag} {inline} h = elim (Option-cases (find_flag spec (split_flag arg).0)) [
    | inl e ↦ absurd (ground arith)
    | inr (f, e) ↦
        let same : f ≡ flag = ground arith in
        find_flag-named (split_flag arg).0 {flag = flag} (e ∙ ap some same)
  ]

  push_value-IsDeclared :
      (p : ParsedArgs) (flag : Flag) (value : Text) {q : ParsedArgs}
      → find (λ (g : Flag). g.name == flag.name) spec ≡ some flag
      → flag.kind ≡ valued
      → IsDeclared spec p
      → push_value p flag.name value ≡ ok q
      → IsDeclared spec q
  unfolding push_value
  push_value-IsDeclared p flag [] f k d h = absurd (ground arith)
  push_value-IsDeclared p flag (c ∷ cs) {q} f k d h =
      push_flag-IsDeclared p flag.name (some (c ∷ cs)) {q = q} d
        (flag, f, ap (λ x. fits x (some (c ∷ cs))) k) h

  turn-IsDeclared :
      (p : ParsedArgs) (arg : Text) (rest : List Text) (turn : Turn) {q : ParsedArgs}
      → ((r : ParsedArgs) (after : Bool)
          → IsDeclared spec r
          → parse_loop spec r after rest ≡ ok q
          → IsDeclared spec q)
      → ((flag : Flag)
          → find (λ (g : Flag). g.name == flag.name) spec ≡ some flag
          → flag.kind ≡ valued
          → IsDeclared spec p
          → next_value spec p flag.name rest ≡ ok q
          → IsDeclared spec q)
      → read_arg spec arg ≡ turn
      → IsDeclared spec p
      → parse_loop spec p false (arg ∷ rest) ≡ ok q
      → IsDeclared spec q
  unfolding parse_loop
  turn-IsDeclared p arg rest ends {q} loop_lem next_lem e d h = loop_lem p true d (ground arith)
  turn-IsDeclared p arg rest plain {q} loop_lem next_lem e d h =
      loop_lem (push_positional p arg) false (record { flags = d.flags; distinct = d.distinct })
        (ground arith)
  turn-IsDeclared p arg rest (undeclared token) {q} loop_lem next_lem e d h = absurd (ground arith)
  turn-IsDeclared p arg rest (given flag none) {q} loop_lem next_lem e d h =
      let f = read_arg-given arg {flag = flag} {inline = none} e in
      elim (FlagKind-cases flag.kind) [
        | inl k ↦
            let (r, pushed, loop) =
              >>=-ok (push_flag p flag.name none) (λ r. parse_loop spec r false rest) {b = q}
                (ground arith) in
            loop_lem r false
              (push_flag-IsDeclared p flag.name none {q = r} d (flag, f, ap (λ x. fits x none) k)
                pushed)
              loop
        | inr k ↦ next_lem flag f k d (ground arith)
      ]
  turn-IsDeclared p arg rest (given flag (some v)) {q} loop_lem next_lem e d h =
      let f = read_arg-given arg {flag = flag} {inline = some v} e in
      elim (FlagKind-cases flag.kind) [
        | inl k ↦ absurd (ground arith)
        | inr k ↦
            let (r, pushed, loop) =
              >>=-ok (push_value p flag.name v) (λ r. parse_loop spec r false rest) {b = q}
                (ground arith) in
            loop_lem r false (push_value-IsDeclared p flag v {q = r} f k d pushed) loop
      ]

  mutual
    unfolding parse_loop next_value

    pub parse_loop-IsDeclared :
        (p : ParsedArgs) (after : Bool) (argv : List Text) {q : ParsedArgs}
        → IsDeclared spec p
        → parse_loop spec p after argv ≡ ok q
        → IsDeclared spec q
    parse_loop-IsDeclared p after [] {q} d h = subst (IsDeclared spec) (ground arith) d
    parse_loop-IsDeclared p true (arg ∷ rest) {q} d h =
        parse_loop-IsDeclared (push_positional p arg) true rest {q = q}
          (record { flags = d.flags; distinct = d.distinct }) h
    parse_loop-IsDeclared p false (arg ∷ rest) {q} d h =
        turn-IsDeclared p arg rest (read_arg spec arg) {q = q}
          (λ r after. parse_loop-IsDeclared r after rest {q = q})
          (λ flag. next_value-IsDeclared p flag rest {q = q}) refl d h

    next_value-IsDeclared :
        (p : ParsedArgs) (flag : Flag) (argv : List Text) {q : ParsedArgs}
        → find (λ (g : Flag). g.name == flag.name) spec ≡ some flag
        → flag.kind ≡ valued
        → IsDeclared spec p
        → next_value spec p flag.name argv ≡ ok q
        → IsDeclared spec q
    next_value-IsDeclared p flag [] {q} f k d h = absurd (ground arith)
    next_value-IsDeclared p flag (next ∷ rest) {q} f k d h = elim (Bool-cases (is_flag_like next)) [
      | inl flagged ↦ absurd (ground arith)
      | inr other ↦
          let (r, pushed, loop) =
            >>=-ok (push_value p flag.name next) (λ r. parse_loop spec r false rest) {b = q}
              (ground arith) in
          parse_loop-IsDeclared r false rest {q = q}
            (push_value-IsDeclared p flag next {q = r} f k d pushed) loop
    ]
