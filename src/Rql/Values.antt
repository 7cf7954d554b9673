-- ===== src/Rql/Values.antt =====
-- The values of internal/model/record.go and the level names of internal/normalize/normalize.go and
-- internal/rql/sql.go, as the compilers of internal/rql read them.
use rtail.Base.{
  ◌⊎◌, inl, inr, ℕ, ◌-◌, ◌^◌, ◌≡◌, refl, ap, ◌∙◌, Bool, true, false, Option, none, some, List, [],
  ◌∷◌, ltb, ◌==◌, if◌then◌else◌, codes, bytes_eq, lookup,
}
use rtail.Rql.Syntax.{Text, Literal, string, number, bool, null, wildcard}

-- An int64
pub data ℤ : Type 0 where
  pos negsuc : ℕ → ℤ

-- Go's `int64` of a uint64
unfoldable pub int64 : ℕ → ℤ
int64 n = if ltb n (2 ^ 63) then pos n else negsuc (2 ^ 64 - n - 1)

-- What the compilers call of Go's standard library: of strings, strconv, math, time and regexp.
-- `F` stands for float64 and `T` for time.Time.
pub record Library (F T : Type 0) : Type 0 where
  pub lower : Text → Text
  pub upper : Text → Text
  pub trim : Text → Text
  -- strings.Contains of a text and a part
  pub contained : Text → Text → Bool
  pub compile_pattern : Text → Option (Text → Bool)
  -- strconv.ParseFloat, with an infinity for what is too large
  pub read_float : Text → Option F
  pub float_of_int : ℤ → F
  pub is_nan : F → Bool
  pub float_lt : F → F → Bool
  -- `num == math.Trunc(num)`, and `int64(num)`
  pub is_whole : F → Bool
  pub int_of_float : F → ℤ
  pub format_int : ℤ → Text
  pub format_float : F → Text
  pub parse_time : (layout text : Text) → Option T
  -- `UTC().Truncate(time.Microsecond)`
  pub microseconds : T → T
  pub format_time : T → Text
  pub time_lt : T → T → Bool

-- `model.Value`, split by its `Kind`
pub data Value (F : Type 0) : Type 0 where
  no_value : Value F
  bool_value : Bool → Value F
  int_value : ℤ → Value F
  float_value : F → Value F
  str_value json_value : Text → Value F

-- `model.Record`, as far as a filter reads it
pub record LogRecord (F T : Type 0) : Type 0 where
  pub ts : T
  pub ingest_ts : T
  pub stream : Text
  pub seq : ℕ
  pub host : Text
  pub level : Text
  pub msg : Text
  pub raw : Text
  pub is_object : Bool
  pub fields : List (Text × Value F)

module _ {F T : Type 0} (lib : Library F T) where
  -- `Value.Text`
  unfoldable pub text_of : Value F → Text
  text_of no_value = []
  text_of (bool_value true) = codes "true"
  text_of (bool_value false) = codes "false"
  text_of (int_value i) = lib.format_int i
  text_of (float_value x) = lib.format_float x
  text_of (str_value t) = t
  text_of (json_value t) = t

-- `Literal.Str`
unfoldable pub str_of : {F : Type 0} → Literal F → Text
str_of (string quoted t) = t
str_of (number x t) = t
str_of (bool b t) = t
str_of (null t) = t
str_of wildcard = []

unfoldable pub is_null_literal : {F : Type 0} → Literal F → Bool
is_null_literal (null t) = true
is_null_literal literal = false

unfoldable pub severity_rank : List (Text × ℕ)
severity_rank =
    (codes "TRACE", 10)
    ∷ (codes "DEBUG", 20)
    ∷ (codes "INFO", 30)
    ∷ (codes "NOTICE", 35)
    ∷ (codes "WARN", 40)
    ∷ (codes "ERROR", 50)
    ∷ (codes "CRITICAL", 55)
    ∷ (codes "ALERT", 58)
    ∷ (codes "EMERGENCY", 60)
    ∷ (codes "FATAL", 60)
    ∷ []

unfoldable pub levels : List Text
levels =
    codes "TRACE"
    ∷ codes "DEBUG"
    ∷ codes "INFO"
    ∷ codes "NOTICE"
    ∷ codes "WARN"
    ∷ codes "ERROR"
    ∷ codes "CRITICAL"
    ∷ codes "ALERT"
    ∷ codes "EMERGENCY"
    ∷ codes "FATAL"
    ∷ []

unfoldable pub default_severity_rank : ℕ
default_severity_rank = 33

unfoldable pub level_names : List (Text × Text)
level_names =
    (codes "trace", codes "TRACE")
    ∷ (codes "verbose", codes "TRACE")
    ∷ (codes "debug", codes "DEBUG")
    ∷ (codes "dbg", codes "DEBUG")
    ∷ (codes "info", codes "INFO")
    ∷ (codes "information", codes "INFO")
    ∷ (codes "informational", codes "INFO")
    ∷ (codes "notice", codes "NOTICE")
    ∷ (codes "warn", codes "WARN")
    ∷ (codes "warning", codes "WARN")
    ∷ (codes "error", codes "ERROR")
    ∷ (codes "err", codes "ERROR")
    ∷ (codes "crit", codes "CRITICAL")
    ∷ (codes "critical", codes "CRITICAL")
    ∷ (codes "alert", codes "ALERT")
    ∷ (codes "emerg", codes "EMERGENCY")
    ∷ (codes "emergency", codes "EMERGENCY")
    ∷ (codes "fatal", codes "FATAL")
    ∷ (codes "panic", codes "FATAL")
    ∷ []

unfoldable pub pino_level : ℤ → Option Text
pino_level (negsuc n) = none
pino_level (pos n) =
    if n == 10
    then some (codes "TRACE")
    else if n == 20
    then some (codes "DEBUG")
    else if n == 30
    then some (codes "INFO")
    else if n == 40
    then some (codes "WARN")
    else if n == 50
    then some (codes "ERROR")
    else if n == 60
    then some (codes "FATAL")
    else none

module _ {F T : Type 0} (lib : Library F T) where
  -- `Rank`
  unfoldable pub rank : Text → ℕ
  unfolding severity_rank default_severity_rank
  rank level = elim (lookup (lib.upper (lib.trim level)) severity_rank) [
    | some r ↦ r
    | none ↦ if bytes_eq level [] then 0 else default_severity_rank
  ]

  -- `normalize.Level`
  unfoldable pub normal_level : Text → Text
  unfolding level_names
  normal_level name =
      let trimmed = lib.trim name in
      if bytes_eq trimmed [] then [] else elim (lookup (lib.lower trimmed) level_names) [
        | some known ↦ known
        | none ↦ lib.upper trimmed
      ]

  unfoldable pub level_of : Literal F → Text
  unfolding pino_level normal_level str_of
  level_of (number x t) =
      let named = if lib.is_whole x then pino_level (lib.int_of_float x) else none in
      elim named [ some name ↦ name | none ↦ normal_level t ]
  level_of literal = normal_level (str_of literal)

  unfoldable pub timestamp_layouts : List Text
  timestamp_layouts =
      codes "2006-01-02T15:04:05.999999999Z07:00"
      ∷ codes "2006-01-02T15:04:05.999999999"
      ∷ codes "2006-01-02 15:04:05.999999999"
      ∷ codes "2006-01-02 15:04:05.999999999-07"
      ∷ codes "2006-01-02T15:04"
      ∷ codes "2006-01-02"
      ∷ []

  unfoldable pub first_time : List Text → Text → Option T
  first_time [] text = none
  first_time (layout ∷ layouts) text =
      let later = first_time layouts text in
      elim (lib.parse_time layout text) [ some at ↦ some (lib.microseconds at) | none ↦ later ]

-- The `Message` of a compile error
pub data CompileError : Type 0 where
  null_needs_equals : CompileError
  bad_pattern not_a_timestamp : Text → CompileError

pub data Compiled {ℓ} (A : Type ℓ) : Type ℓ where
  fine : A → Compiled A
  fails : CompileError → Compiled A

abbrev value_or {ℓ} : {A : Type ℓ} → A → Compiled A → A
value_or a (fine b) = b
value_or a (fails e) = a

pub fine_inj {ℓ} : {A : Type ℓ} (a b : A) → fine a ≡ fine b → a ≡ b
fine_inj a b e = ap (value_or a) e

-- `if nil != err { return nil, err }`
infixl 5 ◌>>=◌
abbrev pub ◌>>=◌ {ℓ κ} : {A : Type ℓ} {B : Type κ} → Compiled A → (A → Compiled B) → Compiled B
fine a >>= f = f a
fails e >>= f = fails e

abbrev pub map_fine {ℓ κ} : {A : Type ℓ} {B : Type κ} → (A → B) → Compiled A → Compiled B
map_fine f (fine a) = fine (f a)
map_fine f (fails e) = fails e

-- Two conditionals on the same test, branch by branch
pub if_both {ℓ κ μ} :
    {A : Type ℓ} {B : Type κ} (R : A → B → Type μ) (b : Bool) {x y : A} {u v : B}
    → (b ≡ true → R x u)
    → (b ≡ false → R y v)
    → R (if b then x else y) (if b then u else v)
if_both R true hx hy = hx refl
if_both R false hx hy = hy refl

-- What maps the first results and the last ones maps the chains.
pub bind-map_fine {ℓ κ μ ν} :
    {A : Type ℓ} {B : Type κ} {C : Type μ} {D : Type ν} (c : Compiled A) (w : A → C) (v : B → D)
    (f : C → Compiled D) (g : A → Compiled B) (x : Compiled C)
    → x ≡ map_fine w c
    → ((a : A) → f (w a) ≡ map_fine v (g a))
    → (x >>= f) ≡ map_fine v (c >>= g)
bind-map_fine (fine a) w v f g x e h = ap (◌>>= f) e ∙ h a
bind-map_fine (fails err) w v f g x e h = ap (◌>>= f) e

module _ {F T : Type 0} (lib : Library F T) where
  -- `Timestamp`
  unfoldable pub timestamp : Literal F → Compiled T
  unfolding timestamp_layouts first_time str_of
  timestamp literal = elim (first_time lib (timestamp_layouts lib) (str_of literal)) [
    | some at ↦ fine at
    | none ↦ fails (not_a_timestamp (str_of literal))
  ]

pub Compiled-cases {ℓ} :
    {A : Type ℓ} (c : Compiled A) → ((a : A) × (c ≡ fine a)) ⊎ ((e : CompileError) × (c ≡ fails e))
Compiled-cases (fine a) = inl (a, refl)
Compiled-cases (fails e) = inr (e, refl)
