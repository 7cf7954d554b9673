-- ===== src/Rql/Syntax.antt =====
-- The data of internal/rql/ast.go and of the lexer in internal/rql/parse.go. A text is the list of
-- its code points. Floats are a parameter: `F` stands for float64.
use rtail.Base.{ℕ, Bool, true, false, Bytes}

abbrev pub Text : Type 0
Text = Bytes

pub data Op : Type 0 where
  equals contains matches less less_equal greater greater_equal exists : Op

-- `Literal`, split by its `Kind`; the fields that a kind leaves at zero are gone.
pub data Literal (F : Type 0) : Type 0 where
  string : (quoted : Bool) → Text → Literal F
  number : F → Text → Literal F
  bool : Bool → Text → Literal F
  null : Text → Literal F
  wildcard : Literal F

mutual
  pub data Node (F : Type 0) : Type 0 where
    comparison : Text → Op → Literal F → Node F
    full_text : Text → Node F
    all_of : Nodes F → Node F
    any_of : Nodes F → Node F
    negation : Node F → Node F

  pub data Nodes (F : Type 0) : Type 0 where
    nil : Nodes F
    cons : Node F → Nodes F → Nodes F

pub data TokenKind : Type 0 where
  token_word token_string token_lparen token_rparen token_eof : TokenKind

-- Go's `==` on kinds.
unfoldable pub kind_eq : TokenKind → TokenKind → Bool
kind_eq token_word token_word = true
kind_eq token_string token_string = true
kind_eq token_lparen token_lparen = true
kind_eq token_rparen token_rparen = true
kind_eq token_eof token_eof = true
kind_eq _ _ = false

pub record Token : Type 0 where
  pub kind : TokenKind
  pub text : Text
  pub pos : ℕ
  pub adjacent : Bool

-- The `Message` of an `Error`, without its wording.
pub data Message : Type 0 where
  unterminated unexpected nothing_after_and nothing_after_not empty_parens : Message
  missing_close unexpected_close unexpected_end no_field no_value star_needs_equals : Message

-- Go's (value, error) pair; `stuck` is no Go value: the model ran out of fuel.
pub data Result {ℓ} (A : Type ℓ) : Type ℓ where
  ok : A → Result A
  err : Message → ℕ → Result A
  stuck : Result A

infixl 5 ◌>>=◌
abbrev pub ◌>>=◌ {ℓ κ} : {A : Type ℓ} {B : Type κ} → Result A → (A → Result B) → Result B
ok a >>= f = f a
err m p >>= f = err m p
stuck >>= f = stuck
