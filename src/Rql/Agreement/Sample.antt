-- ===== src/Rql/Agreement/Sample.antt =====
-- A record, and the row that is stored of it.
use rtail.Base.{
  ℕ, ◌≡◌, refl, false, Option, none, some, List, [], ◌∷◌, arith, codes, bytes_eq, lookup,
}
use rtail.Rql.Syntax.{Text}
use mathlib.Core.Path.{subst}
use rtail.Base.{Bool-cases, Option-cases, inl, inr, All, bytes_eq_iff}
use rtail.Rql.Values.{Value, int_value, LogRecord}
use rtail.Rql.Predicate.{is_severity_field, is_timestamp_field, timestamp_of, lookup_field}
use rtail.Rql.Sql.{
  FieldKind, field_string, field_number, field_bool, field_severity, field_timestamp, Resolver,
}
use rtail.Rql.Agreement.{
  text_cell, int_cell, bool_cell, time_cell, Holds, absent, as_text, as_level, as_int, as_bool,
  as_time, is_severity, is_timestamp, Stored,
}
use rtail.Rql.Predicate.{lookup_path, cut_dot}
use rtail.Rql.Values.{pos}
use rtail.Rql.Agreement.Example.{small, SmallCell, written_cell, small_row}

abbrev pub small_columns : List (Text × SmallCell)
small_columns =
    (codes "ts", time_cell 20)
    ∷ (codes "ingest_ts", time_cell 21)
    ∷ (codes "stream", text_cell (codes "stdout"))
    ∷ (codes "seq", int_cell (pos 3))
    ∷ (codes "level", text_cell (codes "ERROR"))
    ∷ (codes "msg", text_cell (codes "Disk full"))
    ∷ (codes "raw", text_cell (codes "Disk full"))
    ∷ (codes "is_json", bool_cell false)
    ∷ (codes "status", int_cell (pos 42))
    ∷ []

abbrev pub small_record : LogRecord ℕ ℕ
small_record = record {
  ts = 20;
  ingest_ts = 21;
  stream = codes "stdout";
  seq = 3;
  host = [];
  level = codes "ERROR";
  msg = codes "Disk full";
  raw = codes "Disk full";
  is_object = false;
  fields = (codes "status", int_value (pos 42)) ∷ [];
}

-- The columns of a scan, and one field
abbrev pub small_fields : List (Text × (Text × FieldKind))
small_fields =
    (codes "level", (codes "level", field_severity))
    ∷ (codes "severity", (codes "level", field_severity))
    ∷ (codes "msg", (codes "msg", field_string))
    ∷ (codes "message", (codes "msg", field_string))
    ∷ (codes "stream", (codes "stream", field_string))
    ∷ (codes "host", (codes "host", field_string))
    ∷ (codes "raw", (codes "raw", field_string))
    ∷ (codes "seq", (codes "seq", field_number))
    ∷ (codes "ts", (codes "ts", field_timestamp))
    ∷ (codes "time", (codes "ts", field_timestamp))
    ∷ (codes "ingest_ts", (codes "ingest_ts", field_timestamp))
    ∷ (codes "is_json", (codes "is_json", field_bool))
    ∷ (codes "status", (codes "status", field_number))
    ∷ []

abbrev pub small_resolve : Resolver
small_resolve field = lookup field small_fields

abbrev pub no_path : Text → Text → Option (Value ℕ)
no_path document tail = none

-- What is found is one of the entries.
pub lookup-each :
    {V : Type 0} (P : Text → V → Type 0) (k : Text) (m : List (Text × V)) (v : V)
    → All (λ entry. P entry.0 entry.1) m
    → lookup k m ≡ some v
    → P k v
unfolding lookup
lookup-each P k [] v h e = absurd (ground (arith, e))
lookup-each P k ((j, u) ∷ m) v h e = elim (Bool-cases (bytes_eq j k)) [
  | inl hit ↦
      let here : u ≡ v = ground (arith, hit, e) in
      subst (P k) here (subst (λ i. P i u) ((bytes_eq_iff j k).0 hit) h.0)
  | inr miss ↦ lookup-each P k m v h.1 (ground (arith, miss, e))
]

pub lookup-none :
    {V : Type 0} (k : Text) (m : List (Text × V))
    → lookup k m ≡ none
    → All (λ entry. bytes_eq k entry.0 ≡ false) m
unfolding lookup
lookup-none k [] e = tt
lookup-none k ((j, u) ∷ m) e =
    let apart : bytes_eq j k ≡ false = elim (Bool-cases (bytes_eq j k)) [
      | inl hit ↦ absurd (ground (arith, hit, e))
      | inr miss ↦ miss
    ] in
    (
      ground (arith, apart, bytes_eq_iff j k, bytes_eq_iff k j),
      lookup-none k m (ground (arith, apart, e)),
    )

-- What `Stored` asks of a field that resolves
abbrev pub SmallHeld : Text → Text × FieldKind → Type 0
SmallHeld field (e, kind) =
    (is_severity_field field ≡ is_severity kind)
    × (is_timestamp_field field ≡ is_timestamp kind)
    × Holds small written_cell kind (timestamp_of small no_path small_record field)
        (lookup_field small no_path small_record field) (lookup e small_columns)

pub small_fields-SmallHeld : All (λ entry. SmallHeld entry.0 entry.1) small_fields
unfolding is_severity_field is_timestamp_field timestamp_of lookup_field lookup bytes_eq
small_fields-SmallHeld = (
  (refl, refl, as_level 20 (codes "ERROR") (λ e. absurd (ground (arith, e))) refl),
  (
    (refl, refl, as_level 20 (codes "ERROR") (λ e. absurd (ground (arith, e))) refl),
    (
      (refl, refl, as_text 20 (codes "Disk full")),
      (
        (refl, refl, as_text 20 (codes "Disk full")),
        (
          (refl, refl, as_text 20 (codes "stdout")),
          (
            (refl, refl, absent field_string 20 (λ e. absurd (ground (arith, e)))),
            (
              (refl, refl, as_text 20 (codes "Disk full")),
              (
                (refl, refl, as_int 20 (pos 3)),
                (
                  (refl, refl, as_time 20),
                  (
                    (refl, refl, as_time 20),
                    (
                      (refl, refl, as_time 21),
                      ((refl, refl, as_bool 20 false), ((refl, refl, as_int 20 (pos 42)), tt)),
                    ),
                  ),
                ),
              ),
            ),
          ),
        ),
      ),
    ),
  ),
)

no_path_anywhere : (field : Text) → lookup_path small no_path small_record field ≡ none
unfolding lookup_path lookup
no_path_anywhere field = elim (Option-cases (cut_dot field)) [
  | inl missing ↦ rw (missing, lookup_path) refl
  | inr ((head, tail), found) ↦
      rw (found, lookup_path)
        (elim (Bool-cases (bytes_eq (codes "status") head)) [
          | inl hit ↦ rw hit refl
          | inr miss ↦ rw miss refl
        ])
]

pub no_other-lookup_field :
    (field : Text)
    → All (λ entry. bytes_eq field entry.0 ≡ false) small_fields
    → (lookup_field small no_path small_record field ≡ none) × (is_timestamp_field field ≡ false)
unfolding lookup_field is_severity_field is_timestamp_field lookup
no_other-lookup_field field
      (
        level,
        (
          severity,
          (
            msg,
            (
              message,
              (stream, (host, (raw, (seq, (ts, (time, (ingest, (is_json, (status, _))))))))),
            ),
          ),
        ),
      ) =
    let status' : bytes_eq (codes "status") field ≡ false =
      ground
        (arith, status, bytes_eq_iff field (codes "status"), bytes_eq_iff (codes "status") field) in
    rw (level, severity, msg, message, stream, host, raw, seq, ts, time, ingest, is_json)
      (rw status' (no_path_anywhere field), refl)

abbrev pub small_stored :
    Stored small no_path small_resolve small_record
      (small_row small_columns).column
      (small_row small_columns).varchar
unfolding lookup bytes_eq small_row
small_stored = record {
  msg_stored = refl;
  raw_stored = refl;
  field_stored = λ field e kind found.
      lookup-each SmallHeld field small_fields (e, kind) small_fields-SmallHeld found;
  not_stored =
      λ field missing. no_other-lookup_field field (lookup-none field small_fields missing);
}
