-- ===== src/Storage/Tests.antt =====
-- Runs of internal/storage/storage.go at concrete inputs.
use rtail.Base.{ℕ, ◌≡◌, refl, replicate, [], Bytes, bytes_eq, codes}
use rtail.Storage.{safe_segment, replaced, capped, hex, kept_rune}
use rtail.Storage.Segment.{IsSegment, safe_segment-IsSegment, safe_segment-idempotent}

abbrev sum : Bytes → ℕ
sum name = 3735928559

climbing : safe_segment sum (codes "..") ≡ codes "_.."
unfolding safe_segment replaced capped kept_rune bytes_eq
climbing = refl

slashes : safe_segment sum (codes "../etc/x y") ≡ codes ".._etc_x_y"
unfolding safe_segment replaced capped kept_rune bytes_eq
slashes = refl

digits : hex 8 (sum []) ≡ codes "deadbeef"
unfolding hex
digits = refl

safe_segment-IsSegment_example : IsSegment (safe_segment sum (replicate 300 47))
safe_segment-IsSegment_example = safe_segment-IsSegment sum (replicate 300 47)

safe_segment-idempotent_example :
    safe_segment sum (safe_segment sum (replicate 300 47)) ≡ safe_segment sum (replicate 300 47)
safe_segment-idempotent_example = safe_segment-idempotent sum (replicate 300 47)
