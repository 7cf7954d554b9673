-- ===== src/Wal/Log/Holds.antt =====
-- The log's invariant: file and buffer together hold exactly the frames appended to the segment.
use rtail.Base.{
  ℕ, ◌-◌, ◌≤◌, ◌<◌, ◌≡◌, ◌∙◌, ap, sym, refl, true, false, Option, none, List, [], ◌∷◌, ◌++◌,
  append-nil, arith, Bytes, inl, inr, ltb, ◌==◌, length, take, drop, length-append,
  take-append-drop, take-append_self, All, Bool-cases, if_split,
}
use mathlib.Core.Path.{subst}
use rtail.Wal.Frame.{frames, image}
use rtail.Wal.Replay.RoundTrip.{IsPayload}
use rtail.Wal.Log.{
  SegmentFile, write_bytes, Log, Disk, LogError, all, fails_after, WriteAnswer, truncate,
  cut_partial, write_answer, write_buffer, write_locked,
}

-- `ps` are the payloads appended to the active segment. The file begins with the whole frames that
-- `written` counts, `junk` is what a failed write left behind them, and it is a part of what is
-- still in the buffer. All but the last `pending` records are within the first `synced` bytes.
pub record Holds (l : Log) (ps : List Bytes) : Type 0 where
  pub front : Bytes
  pub junk : Bytes
  pub rest : Bytes
  pub payloads : All IsPayload ps
  pub content_is : l.file.content ≡ front ++ junk
  pub buffer_is : l.buffer ≡ junk ++ rest
  pub image_is : image ps ≡ front ++ l.buffer
  pub written_is : l.written ≡ length front
  pub clean : l.torn ≡ false → junk ≡ []
  pub synced_le_written : l.synced ≤ l.written
  pub synced_le_stable : l.synced ≤ l.file.stable
  pub stable_le : l.file.stable ≤ length l.file.content
  pub listed_named : l.listed ≡ true → l.file.named ≡ true
  pub pending_le : l.pending ≤ length ps
  pub acked : length (frames (take (length ps - l.pending) ps)) ≤ l.synced - 6
  pub acked_listed : l.pending < length ps → l.listed ≡ true

-- Everything appended is in the file, and nothing else is.
pub record IsWritten (l : Log) (ps : List Bytes) : Type 0 where
  pub buffer_empty : l.buffer ≡ []
  pub not_torn : l.torn ≡ false
  pub content_all : l.file.content ≡ image ps
  pub written_all : l.written ≡ length (image ps)

write_nothing :
    (n : ℕ) (bs : Bytes) (f : SegmentFile) → ltb 0 n ≡ false → write_bytes (take n bs) f ≡ f
unfolding write_bytes
write_nothing n bs f h =
    let z : n ≡ 0 = ground arith in
    let e : f.content ++ take n bs ≡ f.content = rw z (append-nil f.content) in
    λ i. record f { content = e i }

pub empty_of_length : (bs : Bytes) → (length bs == 0) ≡ true → bs ≡ []
empty_of_length [] h = refl
empty_of_length (b ∷ bs) h = ground arith

module _ {ps : List Bytes} where
  content-front : {l : Log} → (h : Holds l ps) → l.torn ≡ false → l.file.content ≡ h.front
  content-front h t = h.content_is ∙ ap (λ j. h.front ++ j) (h.clean t) ∙ append-nil h.front

  pub idle-IsWritten : (l : Log) → Holds l ps → l.torn ≡ false → l.buffer ≡ [] → IsWritten l ps
  idle-IsWritten l h t b =
      let whole : image ps ≡ h.front = h.image_is ∙ rw b (append-nil h.front) in
      record {
        buffer_empty = b;
        not_torn = t;
        content_all = content-front h t ∙ sym whole;
        written_all = omega (arith, h.written_is, ap length whole);
      }

module _ (d : Disk) {ps : List Bytes} where
  write_all-Holds : (l : Log) → Holds l ps → l.torn ≡ false → Holds (write_answer d all l).0 ps
  unfolding write_answer
  write_all-Holds l h t =
      let c : l.file.content ++ l.buffer ≡ image ps =
        ap (λ x. x ++ l.buffer) (content-front h t) ∙ sym h.image_is in
      let e = ap length h.image_is ∙ length-append h.front l.buffer in
      record {
        front = image ps;
        junk = [];
        rest = [];
        payloads = h.payloads;
        content_is = c ∙ sym (append-nil (image ps));
        buffer_is = refl;
        image_is = sym (append-nil (image ps));
        written_is = omega (arith, e, h.written_is);
        clean = λ _. refl;
        synced_le_written = omega arith;
        synced_le_stable = h.synced_le_stable;
        stable_le = omega (arith, length-append l.file.content l.buffer);
        listed_named = h.listed_named;
        pending_le = h.pending_le;
        acked = h.acked;
        acked_listed = h.acked_listed;
      }

  write_all-IsWritten :
      (l : Log) → Holds l ps → l.torn ≡ false → IsWritten (write_answer d all l).0 ps
  unfolding write_answer
  write_all-IsWritten l h t =
      let e = ap length h.image_is ∙ length-append h.front l.buffer in
      record {
        buffer_empty = refl;
        not_torn = t;
        content_all = ap (λ x. x ++ l.buffer) (content-front h t) ∙ sym h.image_is;
        written_all = omega (arith, e, h.written_is);
      }

  -- A failed write leaves a part of the buffer behind what was written, or nothing of it.
  partial-Holds :
      (n : ℕ) (l : Log)
      → Holds l ps
      → l.torn ≡ false
      → Holds
          (record l {
            file = record (l.file) { content = l.file.content ++ take n l.buffer };
            torn = true;
          })
          ps
  partial-Holds n l h t = record {
    front = h.front;
    junk = take n l.buffer;
    rest = drop n l.buffer;
    payloads = h.payloads;
    content_is = ap (λ x. x ++ take n l.buffer) (content-front h t);
    buffer_is = sym (take-append-drop n l.buffer);
    image_is = h.image_is;
    written_is = h.written_is;
    clean = λ e. cc;
    synced_le_written = h.synced_le_written;
    synced_le_stable = h.synced_le_stable;
    stable_le = omega (arith, length-append l.file.content (take n l.buffer));
    listed_named = h.listed_named;
    pending_le = h.pending_le;
    acked = h.acked;
    acked_listed = h.acked_listed;
  }

  -- Truncation to `written` takes away what is no whole frame, and nothing else.
  truncate-Holds :
      (l : Log)
      → Holds l ps
      → Holds (record l { file = truncate l.written l.file; torn = false }) ps
  unfolding truncate
  truncate-Holds l h =
      let e : take l.written l.file.content ≡ h.front =
        rw (h.content_is, h.written_is) (take-append_self h.front h.junk) in
      record {
        front = h.front;
        junk = [];
        rest = l.buffer;
        payloads = h.payloads;
        content_is = e ∙ sym (append-nil h.front);
        buffer_is = refl;
        image_is = h.image_is;
        written_is = h.written_is;
        clean = λ _. refl;
        synced_le_written = h.synced_le_written;
        synced_le_stable = ground arith;
        stable_le = ground (arith, ap length e);
        listed_named = h.listed_named;
        pending_le = h.pending_le;
        acked = h.acked;
        acked_listed = h.acked_listed;
      }

  write_fails-Holds :
      (n : ℕ) (l : Log)
      → Holds l ps
      → l.torn ≡ false
      → Holds (write_answer d (fails_after n) l).0 ps
  unfolding write_answer
  write_fails-Holds n l h t = elim (Bool-cases (ltb 0 n)) [
    | inl some_bytes ↦ elim (Bool-cases d.truncate_partial) [
      | inl cut ↦
          rw (some_bytes, cut_partial)
            (rw cut (
              subst
                (λ b.
                  Holds
                    (record l {
                      file = truncate l.written (write_bytes (take n l.buffer) l.file);
                      torn = b;
                    })
                    ps)
                (sym t) (truncate-Holds _ (partial-Holds n l h t))))
      | inr left ↦ rw (some_bytes, cut_partial) (rw left (partial-Holds n l h t))
    ]
    | inr nothing ↦
        rw (nothing, cut_partial)
          (subst (λ f. Holds (record l { file = f }) ps)
            (sym (write_nothing n l.buffer l.file nothing)) h)
  ]

  write_answer-Holds :
      (w : WriteAnswer) (l : Log) → Holds l ps → l.torn ≡ false → Holds (write_answer d w l).0 ps
  write_answer-Holds all l h t = write_all-Holds l h t
  write_answer-Holds (fails_after n) l h t = write_fails-Holds n l h t

  write_answer-IsWritten :
      (w : WriteAnswer) (l : Log)
      → Holds l ps
      → l.torn ≡ false
      → (write_answer d w l).1 ≡ none
      → IsWritten (write_answer d w l).0 ps
  write_answer-IsWritten all l h t e = write_all-IsWritten l h t
  write_answer-IsWritten (fails_after n) l h t e = unfold write_answer in cc

  write_buffer-Holds : (l : Log) → Holds l ps → l.torn ≡ false → Holds (write_buffer d l).0 ps
  unfolding write_buffer
  write_buffer-Holds l h t = elim (Bool-cases (length l.buffer == 0)) [
    | inl e ↦ rw e h
    | inr e ↦ rw e (write_answer-Holds d.write l h t)
  ]

  write_buffer-IsWritten :
      (l : Log)
      → Holds l ps
      → l.torn ≡ false
      → (write_buffer d l).1 ≡ none
      → IsWritten (write_buffer d l).0 ps
  unfolding write_buffer
  write_buffer-IsWritten l h t = elim (Bool-cases (length l.buffer == 0)) [
    | inl e ↦ rw e (λ _. idle-IsWritten l h t (empty_of_length l.buffer e))
    | inr e ↦ rw e (write_answer-IsWritten d.write l h t)
  ]

  -- `writeLocked` keeps the invariant, whatever the disk answers.
  pub write_locked-Holds : (l : Log) → Holds l ps → Holds (write_locked d l).0 ps
  unfolding write_locked
  write_locked-Holds l h =
      let P = λ (r : Log × Option LogError). Holds r.0 ps in
      if_split P l.torn
        (λ t.
          if_split P d.truncate_torn (λ _. write_buffer-Holds _ (truncate-Holds l h) refl) (λ _. h))
        (λ t. write_buffer-Holds l h t)

  -- In a log whose invariant holds, a writeLocked that returns nil leaves the buffer empty, the
  -- file not torn, and in the file exactly the image of everything appended.
  pub write_locked-IsWritten :
      (l : Log) → Holds l ps → (write_locked d l).1 ≡ none → IsWritten (write_locked d l).0 ps
  unfolding write_locked
  write_locked-IsWritten l h =
      let P = λ (r : Log × Option LogError). r.1 ≡ none → IsWritten r.0 ps in
      if_split P l.torn
        (λ t.
          if_split P d.truncate_torn (λ _. write_buffer-IsWritten _ (truncate-Holds l h) refl)
            (λ _ e. cc))
        (λ t. write_buffer-IsWritten l h t)
