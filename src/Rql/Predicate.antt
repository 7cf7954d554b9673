-- ===== src/Rql/Predicate.antt =====
-- `ToPredicate` of internal/rql/predicate.go. `json_path` of the same file, which walks a nested
-- document, is a parameter.
use rtail.Base.{
  ℕ, Bool, true, false, not, ◌&&◌, ◌||◌, Option, none, some, List, [], ◌∷◌, ltb, ◌==◌,
  if◌then◌else◌, codes, bytes_eq, lookup,
}
use rtail.Rql.Syntax.{
  Text, Op, Literal, Node, Nodes, equals, contains, matches, less, less_equal, greater,
  greater_equal, exists, number, bool, comparison, full_text, all_of, any_of, negation, nil, cons,
}
use rtail.Rql.Parse.{contains_x, op_eq}
use rtail.Rql.Values.{
  pos, Library, int64, Value, no_value, bool_value, int_value, float_value, str_value, json_value,
  LogRecord, text_of, str_of, is_null_literal, rank, level_of, timestamp, null_needs_equals,
  bad_pattern, Compiled, fine, fails, ◌>>=◌,
}

unfoldable pub is_severity_field : Text → Bool
is_severity_field field = bytes_eq field (codes "level") || bytes_eq field (codes "severity")

unfoldable pub is_timestamp_field : Text → Bool
is_timestamp_field field =
    bytes_eq field (codes "ts")
    || (bytes_eq field (codes "time") || bytes_eq field (codes "ingest_ts"))

-- A text, or nothing where it is empty
unfoldable pub unless_empty : {F : Type 0} → Text → Option (Value F)
unless_empty [] = none
unless_empty (c ∷ cs) = some (str_value (c ∷ cs))

-- `strings.Cut(field, ".")`
unfoldable pub cut_dot : Text → Option (Text × Text)
cut_dot [] = none
cut_dot (c ∷ cs) =
    let later = cut_dot cs in
    if c == 46
    then some ([], cs)
    else elim later [ none ↦ none | some (head, tail) ↦ some (c ∷ head, tail) ]

unfoldable pub present : {F : Type 0} → Value F → Option (Value F)
present no_value = none
present v = some v

-- What `order` may be, in `compareOrder`
pub data Order : Type 0 where
  below same above : Order

unfoldable pub compare_order : Order → Op → Bool
compare_order same equals = true
compare_order below less = true
compare_order below less_equal = true
compare_order same less_equal = true
compare_order above greater = true
compare_order same greater_equal = true
compare_order above greater_equal = true
compare_order _ _ = false

-- Go's `<` on strings
unfoldable pub text_lt : Text → Text → Bool
text_lt [] [] = false
text_lt [] (d ∷ ds) = true
text_lt (c ∷ cs) [] = false
text_lt (c ∷ cs) (d ∷ ds) = let rest = text_lt cs ds in if c == d then rest else ltb c d

unfoldable pub compare_strings : Text → Text → Op → Bool
unfolding text_lt
compare_strings a b equals = bytes_eq a b
compare_strings a b less = text_lt a b
compare_strings a b less_equal = not (text_lt b a)
compare_strings a b greater = text_lt b a
compare_strings a b greater_equal = not (text_lt a b)
compare_strings a b op = false

unfoldable pub compare_bools : Bool → Bool → Op → Bool
unfolding compare_order
compare_bools true false op = compare_order above op
compare_bools false true op = compare_order below op
compare_bools _ _ op = compare_order same op

module _ {F T : Type 0} (lib : Library F T) where
  unfoldable pub compare_floats : F → F → Op → Bool
  unfolding compare_order
  compare_floats a b op =
      compare_order
        (if lib.is_nan a && lib.is_nan b
          then same
          else if lib.is_nan a || lib.float_lt b a
          then above
          else if lib.is_nan b || lib.float_lt a b
          then below
          else same)
        op

  unfoldable pub compare_times : T → T → Op → Bool
  unfolding compare_order
  compare_times a b op =
      compare_order (if lib.time_lt a b then below else if lib.time_lt b a then above else same) op

  unfoldable pub compare_ints : ℕ → ℕ → Op → Bool
  unfolding compare_floats
  compare_ints a b op = compare_floats (lib.float_of_int (pos a)) (lib.float_of_int (pos b)) op

  unfoldable pub numeric_of_text : Text → Option F
  unfolding contains_x
  numeric_of_text t = let text = lib.trim t in if contains_x text then none else lib.read_float text

  unfoldable pub numeric_of : Value F → Option F
  unfolding numeric_of_text
  numeric_of (int_value i) = some (lib.float_of_int i)
  numeric_of (float_value x) = some x
  numeric_of (str_value t) = numeric_of_text t
  numeric_of (json_value t) = numeric_of_text t
  numeric_of v = none

  -- The part of `compareValue` for text
  unfoldable pub compare_text : Value F → Literal F → Op → Bool
  unfolding numeric_of compare_floats compare_strings text_of str_of
  compare_text v (number x t) op = elim (numeric_of v) [
    | none ↦ false
    | some n ↦ compare_floats n x op
  ]
  compare_text v literal op = compare_strings (text_of lib v) (str_of literal) op

  unfoldable pub compare_number : F → Literal F → Op → Bool
  unfolding compare_floats
  compare_number n (number x t) op = compare_floats n x op
  compare_number n literal op = false

  unfoldable pub compare_value : Value F → Literal F → Op → Bool
  unfolding compare_text compare_number compare_bools
  compare_value (int_value i) literal op = compare_number (lib.float_of_int i) literal op
  compare_value (float_value n) literal op = compare_number n literal op
  compare_value (bool_value b) (bool c t) op = compare_bools b c op
  compare_value (bool_value b) literal op = false
  compare_value v literal op = compare_text v literal op

module _ {F T : Type 0} (lib : Library F T) (json_path : Text → Text → Option (Value F)) where
  unfoldable pub timestamp_of : LogRecord F T → Text → T
  timestamp_of rec field =
      lib.microseconds (if bytes_eq field (codes "ingest_ts") then rec.ingest_ts else rec.ts)

  -- The last part of `lookup`: a dotted path
  unfoldable pub lookup_path : LogRecord F T → Text → Option (Value F)
  unfolding cut_dot
  lookup_path rec field = elim (cut_dot field) [
    | none ↦ none
    | some (head, tail) ↦ elim (lookup head rec.fields) [
      | some (json_value document) ↦ json_path document tail
      | _ ↦ none
    ]
  ]

  -- `lookup`
  unfoldable pub lookup_field : LogRecord F T → Text → Option (Value F)
  unfolding int64 is_severity_field is_timestamp_field timestamp_of unless_empty present lookup_path
  lookup_field rec field =
      if is_severity_field field
      then unless_empty rec.level
      else if bytes_eq field (codes "msg") || bytes_eq field (codes "message")
      then unless_empty rec.msg
      else if bytes_eq field (codes "stream")
      then some (str_value rec.stream)
      else if bytes_eq field (codes "host")
      then unless_empty rec.host
      else if bytes_eq field (codes "raw")
      then some (str_value rec.raw)
      else if bytes_eq field (codes "seq")
      then some (int_value (int64 rec.seq))
      else if is_timestamp_field field
      then some (str_value (lib.format_time (timestamp_of rec field)))
      else if bytes_eq field (codes "is_json")
      then some (bool_value rec.is_object)
      else elim (lookup field rec.fields) [ some v ↦ present v | none ↦ lookup_path rec field ]

  abbrev pub Predicate : Type 0
  Predicate = LogRecord F T → Bool

  -- The value of a field, put to a test; an absent field fails it.
  unfoldable pub on_field : Text → (Value F → Bool) → Predicate
  unfolding lookup_field
  on_field field test rec = elim (lookup_field rec field) [ none ↦ false | some v ↦ test v ]

  unfoldable pub severity_test : Literal F → Op → Value F → Bool
  unfolding level_of rank compare_ints text_of
  severity_test literal op v =
      let level = level_of lib literal in
      if op_eq op equals
      then bytes_eq (text_of lib v) level
      else compare_ints lib (rank lib (text_of lib v)) (rank lib level) op

  unfoldable pub has_field : Text → Predicate
  unfolding lookup_field
  has_field field rec = elim (lookup_field rec field) [ none ↦ false | some v ↦ true ]

  -- `comparisonPredicate` for an operator that orders or is equality, on a value that is not null
  unfoldable pub ordered_predicate : Text → Op → Literal F → Compiled Predicate
  unfolding is_severity_field is_timestamp_field on_field severity_test timestamp compare_times
      timestamp_of compare_value
  ordered_predicate field op literal =
      if is_severity_field field
      then fine (on_field field (severity_test literal op))
      else if is_timestamp_field field
      then (timestamp lib literal >>= λ at.
          fine (λ rec. compare_times lib (timestamp_of rec field) at op))
      else fine (on_field field (λ v. compare_value lib v literal op))

  -- `comparisonPredicate`
  unfoldable pub comparison_predicate : Text → Op → Literal F → Compiled Predicate
  unfolding has_field on_field ordered_predicate text_of str_of is_null_literal op_eq
  comparison_predicate field op literal =
      if op_eq op exists
      then fine (has_field field)
      else if is_null_literal literal
      then (if op_eq op equals
          then fine (λ rec. not (has_field field rec))
          else fails null_needs_equals)
      else if op_eq op matches
      then elim (lib.compile_pattern (str_of literal)) [
        | none ↦ fails (bad_pattern (str_of literal))
        | some pattern ↦ fine (on_field field (λ v. pattern (text_of lib v)))
      ]
      else if op_eq op contains
      then fine (
          on_field field
            (λ v. lib.contained (lib.lower (text_of lib v)) (lib.lower (str_of literal))))
      else ordered_predicate field op literal

  unfoldable pub all_match : List Predicate → Predicate
  all_match [] rec = true
  all_match (p ∷ ps) rec = p rec && all_match ps rec

  unfoldable pub any_match : List Predicate → Predicate
  any_match [] rec = false
  any_match (p ∷ ps) rec = p rec || any_match ps rec

  unfoldable pub text_predicate : Text → Predicate
  text_predicate value rec =
      let needle = lib.lower value in
      lib.contained (lib.lower rec.msg) needle || lib.contained (lib.lower rec.raw) needle

  -- `ToPredicate` of a query that is not empty, and `compileAll`
  unfoldable mutual
    unfolding comparison_predicate all_match any_match text_predicate

    pub to_predicate : Node F → Compiled Predicate
    to_predicate (comparison field op literal) = comparison_predicate field op literal
    to_predicate (full_text value) = fine (text_predicate value)
    to_predicate (all_of ns) = compile_all ns >>= λ ps. fine (all_match ps)
    to_predicate (any_of ns) = compile_all ns >>= λ ps. fine (any_match ps)
    to_predicate (negation n) = to_predicate n >>= λ p. fine (λ rec. not (p rec))

    pub compile_all : Nodes F → Compiled (List Predicate)
    compile_all nil = fine []
    compile_all (cons n ns) =
        let rest = compile_all ns in to_predicate n >>= λ p. rest >>= λ ps. fine (p ∷ ps)
