-- ===== src/Storage/Segment.antt =====
-- What `SafeSegment` of internal/storage/storage.go returns can be one directory's name.
use native.Mathlib.Nat.{mod-lt}
use rtail.Base.{
  ℕ, zero, suc, ◌+◌, ◌/◌, ◌%◌, ◌^◌, ◌≤◌, ◌<◌, ◌≡◌, refl, sym, ap, ◌∙◌, ◌≢◌, true, ◌||◌, inl, inr,
  [], ◌∷◌, ◌++◌, arith, ltb, if◌then◌else◌, if_split, ltb→lt, Bool-cases, length, take,
  length-append, length-take, codes, bytes_eq, bytes_eq_iff, Bytes, All, All-append, All-take,
}
use rtail.Storage.{max_segment, kept_rune, replaced, hex, capped, safe_segment}

-- A name that every file system takes, and that stays in its directory.
abbrev pub IsSegment : Bytes → Type 0
IsSegment s =
    All (λ r. kept_rune r ≡ true) s
    × (0 < length s)
    × (length s ≤ 128)
    × (s ≢ codes ".")
    × (s ≢ codes "..")

replaced-kept : (rs : Bytes) → All (λ r. kept_rune r ≡ true) (replaced rs)
unfolding replaced
replaced-kept [] = tt
replaced-kept (r ∷ rs) = (
  if_split (λ s. kept_rune s ≡ true) (kept_rune r) (λ e. e) (λ _. unfold kept_rune in refl),
  replaced-kept rs,
)

length-replaced : (rs : Bytes) → length (replaced rs) ≡ length rs
unfolding replaced
length-replaced [] = refl
length-replaced (r ∷ rs) = omega (arith, length-replaced rs)

digit-kept : (k : ℕ) → k < 16 → kept_rune (if ltb k 10 then 48 + k else 87 + k) ≡ true
unfolding kept_rune
digit-kept k h =
    if_split (λ r. kept_rune r ≡ true) (ltb k 10) (λ e. ground arith) (λ e. ground arith)

hex-kept : (digits n : ℕ) → All (λ r. kept_rune r ≡ true) (hex digits n)
unfolding hex
hex-kept zero n = tt
hex-kept (suc digits) n =
    (digit-kept (n / 16 ^ digits % 16) (mod-lt (n / 16 ^ digits) (omega arith)), hex-kept digits n)

length-hex : (digits n : ℕ) → length (hex digits n) ≡ digits
unfolding hex
length-hex zero n = refl
length-hex (suc digits) n = omega (arith, length-hex digits n)

capped-IsSegment :
    (sum : ℕ) (out : Bytes)
    → All (λ r. kept_rune r ≡ true) out
    → 0 < length out
    → out ≢ codes "."
    → out ≢ codes ".."
    → IsSegment (capped sum out)
unfolding capped max_segment
capped-IsSegment sum out kept some_there one two =
    if_split IsSegment (ltb 128 (length out))
      (λ long.
        let size : length (take 119 out ++ 45 ∷ hex 8 sum) ≡ 128 = omega (
          arith,
          length-append (take 119 out) (45 ∷ hex 8 sum),
          length-take 119 out,
          length-hex 8 sum,
          ltb→lt 128 (length out) long,
        ) in
        (
          All-append _ (take 119 out) (45 ∷ hex 8 sum) (All-take _ 119 out kept)
              (unfold kept_rune in refl, hex-kept 8 sum),
          omega (arith, size),
          omega (arith, size),
          (λ e. omega (arith, size, ap length e)),
          (λ e. omega (arith, size, ap length e)),
        ))
      (λ short. (kept, some_there, ground (arith, short), one, two))

dots-short :
    (out : Bytes) → bytes_eq out (codes ".") || bytes_eq out (codes "..") ≡ true → length out ≤ 2
dots-short out h = elim (Bool-cases (bytes_eq out (codes "."))) [
  | inl one ↦ omega (arith, ap length ((bytes_eq_iff out (codes ".")).0 one))
  | inr other ↦
      let two : bytes_eq out (codes "..") ≡ true = ground (arith, h, other) in
      omega (arith, ap length ((bytes_eq_iff out (codes "..")).0 two))
]

-- For any name and any hash, SafeSegment returns a text of 1 to 128 characters out of a to z, A to
-- Z, 0 to 9, hyphen, underscore and dot, which is neither one dot nor two.
pub safe_segment-IsSegment : (hash : Bytes → ℕ) (name : Bytes) → IsSegment (safe_segment hash name)
unfolding safe_segment
safe_segment-IsSegment hash [] = (
  unfold kept_rune in (refl, (refl, (refl, (refl, (refl, (refl, (refl, (refl, tt)))))))),
  omega arith,
  omega arith,
  (λ e. omega (arith, ap length e)),
  (λ e. omega (arith, ap length e)),
)
safe_segment-IsSegment hash (r ∷ rs) =
    let out = replaced (r ∷ rs) in
    let kept = replaced-kept (r ∷ rs) in
    let size = length-replaced (r ∷ rs) in
    if_split IsSegment (bytes_eq out (codes ".") || bytes_eq out (codes ".."))
      (λ dots.
        let small = dots-short out dots in
        (
          (unfold kept_rune in refl, kept),
          omega arith,
          omega (arith, small),
          (λ e. ground (arith, e)),
          (λ e. ground (arith, e)),
        ))
      (λ other.
        capped-IsSegment (hash (r ∷ rs) % 2 ^ 32) out kept (omega (arith, size))
          (λ e. ground (arith, other, (bytes_eq_iff out (codes ".")).1 e))
          (λ e. ground (arith, other, (bytes_eq_iff out (codes "..")).1 e)))

replaced-same : (rs : Bytes) → All (λ r. kept_rune r ≡ true) rs → replaced rs ≡ rs
unfolding replaced
replaced-same [] h = refl
replaced-same (r ∷ rs) h =
    let first : (if kept_rune r then r else 95) ≡ r = rw h.0 refl in
    ap (◌∷ replaced rs) first ∙ ap (r ∷◌) (replaced-same rs h.1)

-- A name that can be a directory's name is left alone.
safe_segment-same : (hash : Bytes → ℕ) (s : Bytes) → IsSegment s → safe_segment hash s ≡ s
unfolding safe_segment capped max_segment
safe_segment-same hash [] h = absurd (omega (arith, h.1))
safe_segment-same hash (r ∷ rs) (kept, _, small, one, two) =
    let out = replaced (r ∷ rs) in
    let same = replaced-same (r ∷ rs) kept in
    let size = length-replaced (r ∷ rs) in
    if_split (λ s. s ≡ r ∷ rs) (bytes_eq out (codes ".") || bytes_eq out (codes ".."))
      (λ dots. elim (Bool-cases (bytes_eq out (codes "."))) [
        | inl dot ↦ absurd (one (sym same ∙ (bytes_eq_iff out (codes ".")).0 dot))
        | inr other ↦
            let both : bytes_eq out (codes "..") ≡ true = ground (arith, dots, other) in
            absurd (two (sym same ∙ (bytes_eq_iff out (codes "..")).0 both))
      ])
      (λ _.
        if_split (λ s. s ≡ r ∷ rs) (ltb 128 (length out))
          (λ long. absurd (omega (arith, small, size, ltb→lt 128 (length out) long))) (λ _. same))

-- SafeSegment leaves what it has returned as it is.
pub safe_segment-idempotent :
    (hash : Bytes → ℕ) (name : Bytes)
    → safe_segment hash (safe_segment hash name) ≡ safe_segment hash name
safe_segment-idempotent hash name =
    safe_segment-same hash (safe_segment hash name) (safe_segment-IsSegment hash name)
