-- ===== src/Json/Whole.antt =====
-- JSON texts (crates/anago-core/src/json.rs) as a whole: which values `parse` returns, and which of
-- them the written form gives back.
use anago.Prelude.{ℕ, ◌≤◌, ◌≡◌, ◌↔◌, subst, [], ◌∷◌, arith, Result, ok, err, map_err, length}
use anago.Text.{Text, byte_len}
use anago.Json.{Value}
use anago.Json.Write.{to_string, to_string_pretty}
use anago.Json.Read.{
  Fault, failed, out_of_fuel, max_depth, Problem, skip_ws, fail_at, trailing_content,
}
use anago.Json.Parse.{
  parse, parse_fault, parse_fuel, at_end, at_offset, read_value, JsonError, json_error,
}
use anago.Json.Valid.{WellFormed, nesting}
use anago.Json.Yields.{Yields, Yields-ok, Yields-fails, bind-Yields, length-skip_ws}
use anago.Json.Containers.{IsValue}
use anago.Json.Sound.{read_value-Yields}
use anago.Json.RoundTrip.{parse-to_string}

abbrev IsDocument : Value → Type 0
IsDocument v = WellFormed v × (nesting v ≤ max_depth)

at_end-Yields : (v : Value) (s : Text) → IsDocument v → Yields IsDocument (at_end (v, s))
at_end-Yields v s h = rest (skip_ws s)
  where
    rest :
        (t : Text)
        → Yields IsDocument (elim t [ [] ↦ ok v | c ∷ u ↦ fail_at trailing_content (c ∷ u) ])
    rest [] = Yields-ok IsDocument v h
    rest (c ∷ u) = Yields-fails _ _ _

parse_fault-Yields : (s : Text) → Yields IsDocument (parse_fault s)
unfolding parse_fault
parse_fault-Yields s =
    let t = skip_ws s in
    bind-Yields (IsValue 0 (length t)) IsDocument (read_value (parse_fuel s) 0 t) at_end
      (read_value-Yields (parse_fuel s) 0 t (omega (arith, length-skip_ws s)))
      (λ (v, r) q. at_end-Yields v r (q.0, omega arith))

-- What a parser may return.
pub data Returns (s : Text) : Result JsonError Value → Type 0 where
  returns : (v : Value) → WellFormed v → nesting v ≤ max_depth → Returns s (ok v)
  refuses : (p : Problem) (offset : ℕ) → offset ≤ byte_len s → Returns s (err (json_error p offset))

parse-from_fault :
    (s : Text) (m : Result Fault Value) → Yields IsDocument m → Returns s (map_err m (at_offset s))
unfolding Yields
parse-from_fault s (ok v) h = returns v h.0 h.1
parse-from_fault s (err (failed p left)) h = refuses p _ (omega arith)
parse-from_fault s (err out_of_fuel) h = absurd (ground arith)

-- Every text is parsed with the fuel given: the result is a value whose integers are in the range
-- of `i64`, whose objects have no key twice and that nests no deeper than 64, or an error at an
-- offset inside the text or at its end.
pub parse-Returns : (s : Text) → Returns s (parse s)
unfolding parse
parse-Returns s = parse-from_fault s (parse_fault s) (parse_fault-Yields s)

parse-eq-ok : (s : Text) {v : Value} → parse s ≡ ok v → WellFormed v × (nesting v ≤ max_depth)
parse-eq-ok s {v} h = elim (subst (Returns s) h (parse-Returns s)) [ returns v' w n ↦ (w, n) ]

-- A value that was parsed reads back from both of its texts.
pub parse-to_string-parse :
    (s : Text) (v : Value)
    → parse s ≡ ok v
    → (parse (to_string v) ≡ ok v) × (parse (to_string_pretty v) ≡ ok v)
parse-to_string-parse s v h = let r = parse-eq-ok s h in parse-to_string v r.0 r.1

-- A value whose integers are in the range of `i64` and whose objects have no key twice reads back
-- from its compact text exactly if it nests no deeper than 64.
pub parse-to_string-eq_iff :
    (v : Value) → WellFormed v → (parse (to_string v) ≡ ok v) ↔ (nesting v ≤ max_depth)
parse-to_string-eq_iff v w = (λ h. (parse-eq-ok (to_string v) h).1, λ n. (parse-to_string v w n).0)
