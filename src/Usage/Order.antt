-- ===== src/Usage/Order.antt =====
-- Which events are in the table when the flusher has stopped.
use proofrail_evidence_api.Prelude.{
  false, append-nil, arith, sym, if◌then◌else◌, ◌≤◌, All, Bool, ◌≡◌, ◌∙◌, ap, refl, true, List, [],
  ◌∷◌, ◌++◌, append_assoc, Bool-cases, inl, inr,
}
use proofrail_evidence_api.Retention.{UsageEvent, insert_usage_events}
use proofrail_evidence_api.Usage.{
  is_full, flush_if_due, put_usage, usage_flusher_loop, run_flusher, move, FlusherSettings, Flusher,
  Turn, Move, request, turn, flush_batch, flush, get_first, is_due, take_turn,
}

-- the events that the requests report
abbrev pub reported : List Move → List UsageEvent
reported [] = []
reported (request ev ∷ ms) = ev ∷ reported ms
reported (turn t ∷ ms) = reported ms

-- no insertion fails
abbrev pub Inserts : Move → Type 0
Inserts (request ev) = Unit
Inserts (turn t) = t.inserts ≡ true

-- the events from the table to the end of the queue
abbrev pub held : Flusher → List UsageEvent
held s = s.usage ++ (s.batch ++ s.queue)

flush_batch-held :
    (t : Turn) (bs : List UsageEvent) (s : Flusher)
    → t.inserts ≡ true
    → s.batch ≡ bs
    → held (flush_batch t bs s) ≡ held s
unfolding insert_usage_events
flush_batch-held t [] s ok e = refl
flush_batch-held t (ev ∷ evs) s ok e = rw (ok, e) (append_assoc s.usage (ev ∷ evs) s.queue)

flush-held : (t : Turn) (s : Flusher) → t.inserts ≡ true → held (flush t s) ≡ held s
unfolding flush
flush-held t s ok = flush_batch-held t s.batch s ok refl

get_first-held : (q : List UsageEvent) (s : Flusher) → s.queue ≡ q → held (get_first q s) ≡ held s
get_first-held [] s e = refl
get_first-held (ev ∷ evs) s e = rw e (ap (λ xs. s.usage ++ xs) (append_assoc s.batch (ev ∷ []) evs))

take_turn-held :
    (cfg : FlusherSettings) (t : Turn) (s : Flusher)
    → t.inserts ≡ true
    → held (take_turn cfg t s) ≡ held s
unfolding take_turn
take_turn-held cfg t s ok =
    let got = get_first-held s.queue s refl in
    elim (Bool-cases (is_due cfg t.now (get_first s.queue s))) [
      | inl e ↦ rw e (flush-held t (get_first s.queue s) ok ∙ got)
      | inr e ↦ rw e got
    ]

dropped-flush :
    (t : Turn) (bs : List UsageEvent) (s : Flusher) → (flush_batch t bs s).dropped ≡ s.dropped
dropped-flush t [] s = refl
dropped-flush t (ev ∷ evs) s = refl

module _ (cfg : FlusherSettings) where
  dropped-take_turn : (t : Turn) (s : Flusher) → (take_turn cfg t s).dropped ≡ s.dropped
  unfolding take_turn flush
  dropped-take_turn t s = after s.queue
    where
      once : (b : Bool) (s' : Flusher) → (if b then flush t s' else s').dropped ≡ s'.dropped
      once true s' = dropped-flush t s'.batch s'
      once false s' = refl

      after : (q : List UsageEvent) → (flush_if_due cfg t (get_first q s)).dropped ≡ s.dropped
      after [] = once (is_due cfg t.now s) s
      after (ev ∷ evs) = once (is_due cfg t.now (get_first (ev ∷ evs) s)) (get_first (ev ∷ evs) s)

  dropped-move : (m : Move) (s : Flusher) → s.dropped ≤ (move cfg m s).dropped
  unfolding move put_usage
  dropped-move (request ev) s = ground arith
  dropped-move (turn t) s = rw (dropped-take_turn t s) (omega arith)

  dropped-run_flusher : (ms : List Move) (s : Flusher) → s.dropped ≤ (run_flusher cfg ms s).dropped
  unfolding run_flusher
  dropped-run_flusher [] s = omega arith
  dropped-run_flusher (m ∷ ms) s =
      omega (arith, dropped-move m s, dropped-run_flusher ms (move cfg m s))

  move-held :
      (m : Move) (s : Flusher)
      → Inserts m
      → (move cfg m s).dropped ≤ s.dropped
      → held (move cfg m s) ≡ held s ++ reported (m ∷ [])
  unfolding move put_usage
  move-held (turn t) s ok kept = take_turn-held cfg t s ok ∙ sym (append-nil (held s))
  move-held (request ev) s ok kept = elim (Bool-cases (is_full cfg.maxsize s.queue)) [
    | inl e ↦ absurd (grind (arith, kept, e))
    | inr e ↦ rw e (
        ap (λ xs. s.usage ++ xs) (sym (append_assoc s.batch s.queue (ev ∷ [])))
        ∙ sym (append_assoc s.usage (s.batch ++ s.queue) (ev ∷ [])))
  ]

  reported-after :
      (m : Move) (ms : List Move) → reported (m ∷ []) ++ reported ms ≡ reported (m ∷ ms)
  reported-after (request ev) ms = refl
  reported-after (turn t) ms = refl

  run_flusher-held :
      (ms : List Move) (s : Flusher)
      → All Inserts ms
      → (run_flusher cfg ms s).dropped ≤ s.dropped
      → held (run_flusher cfg ms s) ≡ held s ++ reported ms
  unfolding run_flusher
  run_flusher-held [] s ok kept = sym (append-nil (held s))
  run_flusher-held (m ∷ ms) s ok kept =
      run_flusher-held ms (move cfg m s) ok.1 (omega (arith, kept, dropped-move m s))
      ∙ ap (λ xs. xs ++ reported ms)
          (move-held m s ok.0 (omega (arith, kept, dropped-run_flusher ms (move cfg m s))))
      ∙ append_assoc (held s) (reported (m ∷ [])) (reported ms)
      ∙ ap (λ xs. held s ++ xs) (reported-after m ms)

  flush_batch-nil :
      (t : Turn) (bs : List UsageEvent) (s : Flusher)
      → s.batch ≡ bs
      → (flush_batch t bs s).batch ≡ []
  flush_batch-nil t [] s e = e
  flush_batch-nil t (ev ∷ evs) s e = refl

-- If no insertion fails and no request finds the queue full, then when the flusher has stopped, the
-- table has the events of all requests in order, each once, but for those that are still in the queue,
-- which are the last ones.
pub usage_flusher_loop-keeps :
    (cfg : FlusherSettings) (ms : List Move) (last : Turn) (s : Flusher)
    → All Inserts ms
    → last.inserts ≡ true
    → (usage_flusher_loop cfg ms last s).dropped ≡ s.dropped
    → (usage_flusher_loop cfg ms last s).usage ++ (usage_flusher_loop cfg ms last s).queue
      ≡ (s.usage ++ (s.batch ++ s.queue)) ++ reported ms
unfolding usage_flusher_loop flush
usage_flusher_loop-keeps cfg ms last s ok ok_last kept =
    let end = run_flusher cfg ms s in
    let same = dropped-flush last end.batch end in
    sym (
      ap (λ b. (flush last end).usage ++ (b ++ (flush last end).queue))
        (flush_batch-nil cfg last end.batch end refl))
    ∙ flush-held last end ok_last
    ∙ run_flusher-held cfg ms s ok (omega (arith, kept, same))
