-- ===== src/Store/Fanout/Safety.antt =====
-- No call of internal/logstore/logstore.go's `Fanout` panics.
use rtail.Base.{
  ℕ, suc, ◌+◌, ◌%◌, ◌^◌, ◌<◌, ◌≤◌, ◌≡◌, refl, ap, ◌∙◌, true, false, not, Option, none, some, List,
  [], ◌∷◌, ltb, ◌==◌, if◌then◌else◌, Bytes, length, length-append, arith, Bool-cases, Option-cases,
  inl, inr, if_split, ==_iff,
}
use mathlib.Core.Path.{subst}
use rtail.Store.Memory.{Record, Event, streams_known, line}
use rtail.Store.Fanout.{
  find, erase, insert, keys, Subscription, Fanout, update, new_fanout, subscribe, close_channel,
  detach, remove_subscription, close_subscription, offered, send, each, wants, publish_line,
  publish_streams, close_fanout, receive, Call, subscribes, closes, publishes, lists, receives,
  shuts, call, calls,
}

module _ {V : Type 0} where
  find-erase :
      (k j : ℕ) (m : List (ℕ × V)) → find j (erase k m) ≡ (if k == j then none else find j m)
  unfolding find erase
  find-erase k j [] = ground arith
  find-erase k j ((i, v) ∷ m) = ground (arith, find-erase k j m)

  find-insert :
      (k j : ℕ) (v : V) (m : List (ℕ × V))
      → find j (insert k v m) ≡ (if k == j then some v else find j m)
  unfolding find insert
  find-insert k j v m = ground (arith, find-erase k j m)

  found_left :
      (k j : ℕ) (v : V) (m : List (ℕ × V))
      → find j (erase k m) ≡ some v
      → (k == j ≡ false) × (find j m ≡ some v)
  found_left k j v m found = elim (Bool-cases (k == j)) [
    | inl hit ↦ absurd (ground (arith, hit, found, find-erase k j m))
    | inr miss ↦ (miss, ground (arith, miss, found, find-erase k j m))
  ]

module _ {P : Type 0} where
  -- The maps mirror each other, what is registered is open, and no channel holds more than its size.
  pub record Safe (f : Fanout P) : Type 0 where
    pub paired : (id p : ℕ) → find id f.subs ≡ some p → find p f.ids ≡ some id
    pub known : (p id : ℕ) → find p f.ids ≡ some id → p < f.made
    pub live :
        (p id : ℕ)
        → find p f.ids ≡ some id
        → (s : Subscription P) × (f.heap p ≡ some s) × (s.is_open ≡ true)
    pub within : (p : ℕ) (s : Subscription P) → f.heap p ≡ some s → length s.queue ≤ s.room

  -- It returns, and keeps that.
  abbrev pub Returns : Option (Fanout P) → Type 0
  Returns none = ⊥
  Returns (some f) = Safe f

  update-at :
      (heap : ℕ → Option (Subscription P)) (p q : ℕ) (s : Subscription P)
      → update heap p s q ≡ (if p == q then some s else heap q)
  unfolding update
  update-at heap p q s = refl

  -- A change of a subscription that keeps it open if it was
  changed-Safe :
      (f : Fanout P) (p : ℕ) (s s' : Subscription P)
      → Safe f
      → f.heap p ≡ some s
      → s'.is_open ≡ s.is_open
      → length s'.queue ≤ s'.room
      → Safe (record f { heap = update f.heap p s' })
  unfolding update
  changed-Safe f p s s' safe there same_open fits = record {
    paired = safe.paired;
    known = safe.known;
    live = λ q id found. elim (Bool-cases (p == q)) [
      | inl hit ↦
          let (s0, at0, open0) = safe.live q id found in
          let here : p ≡ q = (==_iff p q).0 hit in
          let unmoved : f.heap q ≡ some s = subst (λ r. f.heap r ≡ some s) here there in
          let same : s ≡ s0 = ground (arith, unmoved, at0) in
          (s', rw hit refl, same_open ∙ ap (λ x. x.is_open) same ∙ open0)
      | inr miss ↦ rw miss (safe.live q id found)
    ];
    within = λ q u at. elim (Bool-cases (p == q)) [
      | inl hit ↦
          let same : s' ≡ u = ground (arith, hit, at) in
          subst (λ x. length x.queue ≤ x.room) same fits
      | inr miss ↦ safe.within q u (ground (arith, miss, at))
    ];
  }

  detach-Returns :
      (f : Fanout P) (id p : ℕ) → Safe f → find p f.ids ≡ some id → Returns (detach id p f)
  unfolding detach close_channel update
  detach-Returns f id p safe found =
      let (s, there, opened) = safe.live p id found in
      let s' : Subscription P = record s { is_open = false } in
      rw (there, opened)
        (record {
          paired = λ id' p' found'.
              let (other, there') = found_left id id' p' f.subs found' in
              let kept = safe.paired id' p' there' in
              elim (Bool-cases (p == p')) [
                | inl hit ↦
                    let here : p ≡ p' = (==_iff p p').0 hit in
                    let found_there : find p' f.ids ≡ some id =
                      subst (λ r. find r f.ids ≡ some id) here found in
                    let same : id ≡ id' = ground (arith, found_there, kept) in
                    absurd (ground (arith, other, (==_iff id id').1 same))
                | inr miss ↦ find-erase p p' f.ids ∙ rw miss kept
              ];
          known = λ p' id' found'. safe.known p' id' (found_left p p' id' f.ids found').1;
          live = λ p' id' found'.
              let (other, there') = found_left p p' id' f.ids found' in
              rw other (safe.live p' id' there');
          within = λ q u at. elim (Bool-cases (p == q)) [
            | inl hit ↦
                let same : s' ≡ u = ground (arith, hit, at) in
                subst (λ x. length x.queue ≤ x.room) same (safe.within p s there)
            | inr miss ↦ safe.within q u (ground (arith, miss, at))
          ];
        })

  then-Returns :
      (o : Option (Fanout P)) (k : Fanout P → Option (Fanout P))
      → Returns o
      → ((f : Fanout P) → Safe f → Returns (k f))
      → Returns (elim o [ none ↦ none | some f ↦ k f ])
  then-Returns none k h hk = absurd h
  then-Returns (some f) k h hk = hk f h

  each-Returns :
      (g : ℕ → ℕ → Fanout P → Option (Fanout P)) (ks : List ℕ) (f : Fanout P)
      → ((id p : ℕ) (f' : Fanout P) → Safe f' → find id f'.subs ≡ some p → Returns (g id p f'))
      → Safe f
      → Returns (each g ks f)
  unfolding each
  each-Returns g [] f step safe = safe
  each-Returns g (id ∷ ks) f step safe = elim (Option-cases (find id f.subs)) [
    | inl missing ↦ rw (missing, each) (each-Returns g ks f step safe)
    | inr (p, found) ↦
        rw (found, each)
          (then-Returns (g id p f) _ (step id p f safe found)
            (λ f' safe'. each-Returns g ks f' step safe'))
  ]

  offered-open : (event : Event P) (s : Subscription P) → (offered event s).is_open ≡ s.is_open
  unfolding offered
  offered-open event s =
      if_split (λ (x : Subscription P). x.is_open ≡ s.is_open) (ltb (length s.queue) s.room)
        (λ _. refl) (λ _. refl)

  offered-fits :
      (event : Event P) (s : Subscription P)
      → length s.queue ≤ s.room
      → length (offered event s).queue ≤ (offered event s).room
  unfolding offered
  offered-fits event s fits =
      if_split (λ (x : Subscription P). length x.queue ≤ x.room) (ltb (length s.queue) s.room)
        (λ less_full. ground (arith, less_full, length-append s.queue (event ∷ []))) (λ _. fits)

  send-Returns :
      (event : Event P) (id p : ℕ) (f : Fanout P)
      → Safe f
      → find id f.subs ≡ some p
      → Returns (send event p f)
  unfolding send
  send-Returns event id p f safe found =
      let (s, there, opened) = safe.live p id (safe.paired id p found) in
      rw (there, send)
        (if_split Returns s.is_open
          (λ _.
            changed-Safe f p s (offered event s) safe there (offered-open event s)
              (offered-fits event s (safe.within p s there)))
          (λ shut. absurd (ground (arith, opened, shut))))

  remove_subscription-Returns : (p : ℕ) (f : Fanout P) → Safe f → Returns (remove_subscription p f)
  unfolding remove_subscription
  remove_subscription-Returns p f safe = elim (Option-cases (find p f.ids)) [
    | inl missing ↦ rw (missing, remove_subscription) safe
    | inr (id, found) ↦ rw (found, remove_subscription) (detach-Returns f id p safe found)
  ]

  close_subscription-Returns : (p : ℕ) (f : Fanout P) → Safe f → Returns (close_subscription p f)
  unfolding close_subscription
  close_subscription-Returns p f safe = elim (Option-cases (f.heap p)) [
    | inl missing ↦ rw (missing, close_subscription) safe
    | inr (s, there) ↦
        rw (there, close_subscription)
          (if_split Returns s.detached (λ _. safe)
            (λ _. remove_subscription-Returns p _ (
              changed-Safe f p s (record s { detached = true }) safe there refl
                (safe.within p s there))))
  ]

  publish_line-Returns : (rec : Record P) (f : Fanout P) → Safe f → Returns (publish_line rec f)
  unfolding publish_line
  publish_line-Returns rec f safe =
      each-Returns _ (keys f.subs) f
        (λ id p f' safe' found.
          if_split Returns (wants rec.stream (f'.heap p))
            (λ _. send-Returns (line rec) id p f' safe' found) (λ _. safe'))
        safe

  publish_streams-Returns :
      (streams : List Bytes) (f : Fanout P) → Safe f → Returns (publish_streams streams f)
  unfolding publish_streams
  publish_streams-Returns streams f safe =
      each-Returns _ (keys f.subs) f
        (λ id p f' safe' found. send-Returns (streams_known streams) id p f' safe' found) safe

  close_fanout-Returns : (f : Fanout P) → Safe f → Returns (close_fanout f)
  unfolding close_fanout
  close_fanout-Returns f safe =
      if_split Returns f.closed (λ _. safe)
        (λ _.
          each-Returns detach (keys f.subs) (record f { closed = true })
            (λ id p f' safe' found. detach-Returns f' id p safe' (safe'.paired id p found))
            (record {
              paired = safe.paired;
              known = safe.known;
              live = safe.live;
              within = safe.within;
            }))

  receive-Safe : (p : ℕ) (f : Fanout P) → Safe f → Safe (receive p f)
  unfolding receive
  receive-Safe p f safe = elim (Option-cases (f.heap p)) [
    | inl missing ↦ rw (missing, receive) safe
    | inr (s, there) ↦ rw (there, receive) (taken s there s.queue refl)
  ]
    where
      taken :
          (s : Subscription P)
          → f.heap p ≡ some s
          → (queue : List (Event P)) → s.queue ≡ queue
          → Safe (elim queue [
            | [] ↦ f
            | event ∷ rest ↦ record f { heap = update f.heap p (record s { queue = rest }) }
          ])
      taken s there [] e = safe
      taken s there (event ∷ rest) e =
          let fits = safe.within p s there in
          changed-Safe f p s (record s { queue = rest }) safe there refl
            (let long : length s.queue ≡ suc (length rest) = ap length e in
              omega (arith, fits, long))

  fresh-Safe :
      (f : Fanout P) (s : Subscription P)
      → Safe f
      → length s.queue ≤ s.room
      → Safe (record f { made = suc f.made; heap = update f.heap f.made s })
  unfolding update
  fresh-Safe f s safe fits = record {
    paired = safe.paired;
    known = λ q id found. omega (arith, safe.known q id found);
    live = λ q id found.
        let other : f.made == q ≡ false = ground (arith, safe.known q id found, ==_iff f.made q) in
        rw other (safe.live q id found);
    within = λ q u at. elim (Bool-cases (f.made == q)) [
      | inl hit ↦
          let same : s ≡ u = ground (arith, hit, at) in
          subst (λ x. length x.queue ≤ x.room) same fits
      | inr miss ↦ safe.within q u (ground (arith, miss, at))
    ];
  }

  registered-Safe :
      (f : Fanout P) (id p n : ℕ) (s : Subscription P)
      → Safe f
      → p < f.made
      → find p f.ids ≡ none
      → f.heap p ≡ some s
      → s.is_open ≡ true
      → Safe (record f { next = n; subs = insert id p f.subs; ids = insert p id f.ids })
  registered-Safe f id p n s safe made unknown there opened = record {
    paired = λ id' p' found'. elim (Bool-cases (id == id')) [
      | inl hit ↦
          let same : p ≡ p' = ground (arith, found', hit, find-insert id id' p f.subs) in
          let same_id : id ≡ id' = (==_iff id id').0 hit in
          find-insert p p' id f.ids ∙ rw ((==_iff p p').1 same) (ap some same_id)
      | inr miss ↦
          let kept =
            safe.paired id' p' (ground (arith, found', miss, find-insert id id' p f.subs)) in
          elim (Bool-cases (p == p')) [
            | inl hit ↦
                let unknown' : find p' f.ids ≡ none =
                  subst (λ r. find r f.ids ≡ none) ((==_iff p p').0 hit) unknown in
                absurd (ground (arith, kept, unknown'))
            | inr other ↦ find-insert p p' id f.ids ∙ rw other kept
          ]
    ];
    known = λ p' id' found'. elim (Bool-cases (p == p')) [
      | inl hit ↦ subst (λ r. r < f.made) ((==_iff p p').0 hit) made
      | inr miss ↦ safe.known p' id' (ground (arith, found', miss, find-insert p p' id f.ids))
    ];
    live = λ p' id' found'. elim (Bool-cases (p == p')) [
      | inl hit ↦ (s, subst (λ r. f.heap r ≡ some s) ((==_iff p p').0 hit) there, opened)
      | inr miss ↦ safe.live p' id' (ground (arith, found', miss, find-insert p p' id f.ids))
    ];
    within = safe.within;
  }

  subscribe-Safe :
      (stream : Bytes) (buffer : ℕ) (f : Fanout P) → Safe f → Safe (subscribe stream buffer f).1
  unfolding subscribe update
  subscribe-Safe stream buffer f safe =
      let s : Subscription P = record {
        stream = stream;
        room = if ltb buffer 1 then 256 else buffer;
        queue = [];
        is_open = not f.closed;
        dropped = 0;
        detached = false;
      } in
      let safe' = fresh-Safe f s safe (omega arith) in
      let unknown : find f.made f.ids ≡ none = elim (Option-cases (find f.made f.ids)) [
        | inl missing ↦ missing
        | inr (id, found) ↦ absurd (omega (arith, safe.known f.made id found))
      ] in
      if_split (λ (r : ℕ × Fanout P). Safe r.1) f.closed (λ _. safe')
        (λ open_still.
          registered-Safe _ f.next f.made ((f.next + 1) % 2 ^ 64) s safe' (omega arith) unknown
            (rw ((==_iff f.made f.made).1 refl) refl) (ap not open_still))

  call-Returns : (c : Call P) (f : Fanout P) → Safe f → Returns (call c f)
  unfolding call
  call-Returns (subscribes stream buffer) f safe = subscribe-Safe stream buffer f safe
  call-Returns (closes p) f safe = close_subscription-Returns p f safe
  call-Returns (publishes rec) f safe = publish_line-Returns rec f safe
  call-Returns (lists streams) f safe = publish_streams-Returns streams f safe
  call-Returns (receives p) f safe = receive-Safe p f safe
  call-Returns shuts f safe = close_fanout-Returns f safe

  new_fanout-Safe : Safe (new_fanout {P = P})
  unfolding find
  new_fanout-Safe = record {
    paired = λ id p found. absurd (ground (arith, found));
    known = λ p id found. absurd (ground (arith, found));
    live = λ p id found. absurd (ground (arith, found));
    within = λ p s there. absurd (ground (arith, there));
  }

  from-Returns : (cs : List (Call P)) (f : Fanout P) → Safe f → Returns (calls cs f)
  unfolding calls
  from-Returns [] f safe = safe
  from-Returns (c ∷ cs) f safe =
      then-Returns (call c f) (calls cs) (call-Returns c f safe) (λ f'. from-Returns cs f')

  -- Any calls of a new Fanout, in any order, with closes repeated, publications after a close and
  -- readers in between, return: no event is sent on a closed channel and no channel is closed
  -- twice. Afterwards the two maps agree on every subscription that `subs` has, every one that
  -- `ids` has is open, and no channel holds more events than its size.
  pub calls-Safe : (cs : List (Call P)) → (f : Fanout P) × (calls cs new_fanout ≡ some f) × Safe f
  calls-Safe cs = elim (Option-cases (calls cs new_fanout)) [
    | inl panics ↦ absurd (subst Returns panics (from-Returns cs new_fanout new_fanout-Safe))
    | inr (f, ends) ↦ (f, ends, subst Returns ends (from-Returns cs new_fanout new_fanout-Safe))
  ]
