-- ===== src/Wal/Log/Schedule/Sound.antt =====
-- Every step of every interleaving keeps the log sound.
use rtail.Base.{
  ℕ, ◌≡◌, ◌∙◌, ap, sym, refl, Option, none, some, List, [], ◌∷◌, ◌++◌, append_assoc, append-nil,
  Bytes, All, All-append, option_split,
}
use mathlib.Core.Path.{subst}
use rtail.Wal.Log.{
  Log, LogError, Capture, Begun, nothing, failed, flying, Rotated, sealed, not_sealed,
  append_payload, sync_begin, sync_end, rotate,
}
use rtail.Wal.Log.Append.{Appended, append_payload-Appended}
use rtail.Wal.Log.Holds.{Holds}
use rtail.Wal.Log.Rotate.{IsSealed, RotatesWell, rotate-RotatesWell, open_segment-Holds}
use rtail.Wal.Log.Sync.{EndsWell, sync_end-EndsWell}
use rtail.Wal.Log.Locked.{close-Holds}
use rtail.Wal.Log.Flight.{
  InFlight, BeginsWell, sync_begin-BeginsWell, StaysCaught, append_payload-StaysCaught,
}
use rtail.Wal.Log.Schedule.{
  World, Segment, Action, append, begin_sync, end_sync, rotation, closing, appended_to, begun_to,
  rotated_to, step, run, opened, IsRecordAction, FlightHolds, all_held, IsSound,
}

flight_stays :
    (f : Option Capture) (l : Log) (ps : List Bytes)
    → ((c : Capture) → f ≡ some c → InFlight c l ps)
    → FlightHolds f l ps
flight_stays none l ps h = tt
flight_stays (some c) l ps h = h c refl

appended_to-IsSound :
    (w : World) (p : Bytes) (r : Log × Option LogError)
    → IsSound w
    → Appended w.appended p r
    → ((c : Capture) → w.flight ≡ some c → StaysCaught c w.appended p r)
    → IsSound (appended_to w p r)
unfolding appended_to
appended_to-IsSound w p (l, none) s a k = record {
  log_holds = a;
  flight_holds = flight_stays w.flight l (w.appended ++ p ∷ []) k;
  all_sealed = s.all_sealed;
  nothing_lost =
      ap (λ x. x ++ p ∷ []) s.nothing_lost ∙ append_assoc (all_held w.segments) w.appended (p ∷ []);
}
appended_to-IsSound w p (l, some e) s a k = record {
  log_holds = a;
  flight_holds = flight_stays w.flight l w.appended k;
  all_sealed = s.all_sealed;
  nothing_lost = s.nothing_lost;
}

caught :
    {c : Capture} (f : Option Capture) (l : Log) (ps : List Bytes)
    → f ≡ some c
    → FlightHolds f l ps
    → InFlight c l ps
caught none l ps e h = absurd (cc)
caught {c} (some b) l ps e h = let same : b ≡ c = cc in subst (λ x. InFlight x l ps) same h

ends-Holds :
    (c : Capture) (l : Log) (ps : List Bytes) (r : Log × Option LogError)
    → EndsWell c l ps r
    → Holds r.0 ps
ends-Holds c l ps (l', none) h = h.0
ends-Holds c l ps (l', some e) h = h

-- Only the log changes, and no sync is in flight.
quiet :
    (w : World) (l : Log)
    → IsSound w
    → w.flight ≡ none
    → Holds l w.appended
    → IsSound (record w { log = l })
quiet w l s none_yet h = record {
  log_holds = h;
  flight_holds = flight_stays w.flight l w.appended (λ c e. cc);
  all_sealed = s.all_sealed;
  nothing_lost = s.nothing_lost;
}

begun_to-IsSound :
    (w : World) (r : Log × Begun)
    → IsSound w
    → w.flight ≡ none
    → BeginsWell w.appended r
    → IsSound (begun_to w r)
unfolding begun_to
begun_to-IsSound w (l, nothing) s none_yet b = quiet w l s none_yet b
begun_to-IsSound w (l, failed e) s none_yet b = quiet w l s none_yet b
begun_to-IsSound w (l, flying c) s none_yet b = record {
  log_holds = b.0;
  flight_holds = b.1;
  all_sealed = s.all_sealed;
  nothing_lost = s.nothing_lost;
}

all_held-append :
    (ss : List Segment) (s : Segment) → all_held (ss ++ s ∷ []) ≡ all_held ss ++ s.held
all_held-append [] s = append-nil s.held
all_held-append (t ∷ ss) s =
    ap (λ x. t.held ++ x) (all_held-append ss s) ∙ sym (append_assoc t.held (all_held ss) s.held)

rotated_to-IsSound :
    (w : World) (r : Log × Rotated)
    → IsSound w
    → w.flight ≡ none
    → RotatesWell w.log.active w.appended r
    → IsSound (rotated_to w r)
unfolding rotated_to
rotated_to-IsSound w (l, not_sealed e) s none_yet g = quiet w l s none_yet g.0
rotated_to-IsSound w (l, sealed n f) s none_yet g = record {
  log_holds = g.2;
  flight_holds = flight_stays w.flight l [] (λ c e. cc);
  all_sealed = All-append (λ t. IsSealed t.file t.held) w.segments _ s.all_sealed (g.1, tt);
  nothing_lost = s.nothing_lost ∙ sym (append-nil _ ∙ all_held-append w.segments _);
}

step-IsSound : (a : Action) (w : World) → IsRecordAction a → IsSound w → IsSound (step a w)
unfolding step
step-IsSound (append d p) w positive s =
    appended_to-IsSound w p (append_payload d p w.log) s
      (append_payload-Appended d w.log w.appended p s.log_holds positive)
      (λ c e.
        append_payload-StaysCaught d c w.log w.appended p s.log_holds
          (caught w.flight w.log w.appended e s.flight_holds))
step-IsSound (begin_sync d) w _ s =
    option_split IsSound w.flight _ (λ _. w)
      (λ e.
        begun_to-IsSound w (sync_begin d w.log) s e
          (sync_begin-BeginsWell d w.log w.appended s.log_holds))
      (λ c e. s)
step-IsSound (end_sync d) w _ s =
    option_split IsSound w.flight w (λ c. record w { log = (sync_end d c w.log).0; flight = none })
      (λ e. s)
      (λ c e. record {
        log_holds = ends-Holds c w.log w.appended (sync_end d c w.log) (
            sync_end-EndsWell d c w.log w.appended s.log_holds
              (caught w.flight w.log w.appended e s.flight_holds));
        flight_holds = tt;
        all_sealed = s.all_sealed;
        nothing_lost = s.nothing_lost;
      })
step-IsSound (rotation d) w _ s =
    option_split IsSound w.flight _ (λ _. w)
      (λ e.
        rotated_to-IsSound w (rotate d w.log) s e
          (rotate-RotatesWell d w.log w.appended s.log_holds))
      (λ c e. s)
step-IsSound (closing d) w _ s =
    option_split IsSound w.flight _ (λ _. w)
      (λ e. quiet w _ s e (close-Holds d w.log w.appended s.log_holds)) (λ c e. s)

runs-IsSound :
    (actions : List Action) (w : World)
    → All IsRecordAction actions
    → IsSound w
    → IsSound (run actions w)
unfolding run
runs-IsSound [] w h s = s
runs-IsSound (a ∷ rest) w h s = runs-IsSound rest (step a w) h.1 (step-IsSound a w h.0 s)

-- After any interleaving of appends of non-empty payloads, syncs, rotations and closes from a
-- freshly opened log, whatever the disk answered: file and buffer of the active segment together
-- hold exactly the records appended to it, all but the last `pending` of them lie in the durable
-- part of the file, every sealed segment holds exactly its records, durably, and the accepted
-- records are those of the sealed segments followed by those of the active one, in order.
pub run-IsSound :
    (actions : List Action) (number : ℕ)
    → All IsRecordAction actions
    → IsSound (run actions (opened number))
run-IsSound actions number h = runs-IsSound actions (opened number) h (record {
  log_holds = open_segment-Holds number;
  flight_holds = tt;
  all_sealed = tt;
  nothing_lost = refl;
})
