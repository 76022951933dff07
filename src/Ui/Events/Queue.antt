-- ===== src/Ui/Events/Queue.antt =====
-- The ring of src/ui/events.c and a queue of the latest seven events.
use tund.Base.{
  ℕ, zero, suc, ◌+◌, ◌%◌, ◌≤◌, ◌<◌, true, false, List, [], ◌∷◌, ◌++◌, ◌==◌, if◌then◌else◌, length,
  drop, get_or, set, ◌≡◌, refl, ap, ap₂, ◌∙◌, sym, arith, inl, inr, Bool-cases, length-set,
  length-append, length-drop, ==→eq, get_or-set_self, get_or-set_ne, get_or-append_left,
  get_or-append_last, get_or-drop_one,
}
use native.Mathlib.Decide.{ℕ_discrete}
use tund.Ui.Events.{UiEvent, EventLog, no_event, put_event, copy_events, shown_events, events_start}

-- A queue that forgets its oldest element when it holds seven.
unfoldable pub keep_latest : List UiEvent → UiEvent → List UiEvent
keep_latest q e = (if length q == 7 then drop 1 q else q) ++ e ∷ []

-- The ring holds the queue, from its start on.
pub record Holds (log : EventLog) (q : List UiEvent) : Type 0 where
  pub size : length log.events ≡ 7
  pub start_low : log.start < 7
  pub counts : log.count ≡ length q
  pub fits : length q ≤ 7
  pub entries :
      (i : ℕ)
      → i < length q
      → get_or log.events ((log.start + i) % 7) no_event ≡ get_or q i no_event

copy_events-eq :
    (log : EventLog) (q : List UiEvent) (n i : ℕ)
    → n ≡ length q
    → ((j : ℕ)
        → j < length q
        → get_or log.events ((log.start + (i + j)) % 7) no_event ≡ get_or q j no_event)
    → copy_events log n i ≡ q
unfolding copy_events
copy_events-eq log [] zero i e h = refl
copy_events-eq log [] (suc n) i e h = absurd (omega arith)
copy_events-eq log (x ∷ q) zero i e h = absurd (omega arith)
copy_events-eq log (x ∷ q) (suc n) i e h =
    ap₂ (λ a b. a ∷ b)
      (ap (λ k. get_or log.events ((log.start + k) % 7) no_event) (omega arith) ∙ h 0 (omega arith))
      (copy_events-eq log q n (i + 1) (omega arith) λ j lt.
        ap (λ k. get_or log.events ((log.start + k) % 7) no_event) (omega arith)
        ∙ h (suc j) (omega arith))

-- What the ring shows is the queue.
pub shown_events-eq : (log : EventLog) (q : List UiEvent) → Holds log q → shown_events log ≡ q
unfolding shown_events
shown_events-eq log q h = copy_events-eq log q log.count 0 h.counts λ j lt.
    ap (λ k. get_or log.events ((log.start + k) % 7) no_event) (omega arith) ∙ h.entries j lt

length-keep_latest :
    (q : List UiEvent) (e : UiEvent)
    → length (keep_latest q e) ≡ length (if length q == 7 then drop 1 q else q) + 1
unfolding keep_latest
length-keep_latest q e = length-append (if length q == 7 then drop 1 q else q) (e ∷ [])

put_event-Holds :
    (log : EventLog) (q : List UiEvent) (e : UiEvent)
    → Holds log q
    → Holds (put_event log e) (keep_latest q e)
unfolding put_event keep_latest
put_event-Holds log q e h = elim (Bool-cases (length q == 7)) [
  | inl full ↦
      rw (h.counts, full)
        (record {
          size = length-set log.events log.start e ∙ h.size;
          start_low = omega arith;
          counts =
              omega (
                arith,
                length-append (drop 1 q) (e ∷ []),
                length-drop 1 q,
                ==→eq (length q) 7 full,
              );
          fits =
              omega (
                arith,
                length-append (drop 1 q) (e ∷ []),
                length-drop 1 q,
                ==→eq (length q) 7 full,
              );
          entries = λ i lt. full_entry full i (
              omega (
                arith,
                lt,
                length-append (drop 1 q) (e ∷ []),
                length-drop 1 q,
                ==→eq (length q) 7 full,
              ));
        })
  | inr room ↦
      rw (h.counts, room)
        (record {
          size = length-set log.events ((log.start + length q) % 7) e ∙ h.size;
          start_low = h.start_low;
          counts = omega (arith, length-append q (e ∷ []));
          fits = ground (arith, length-append q (e ∷ []), h.fits);
          entries = λ i lt. room_entry room i (omega (arith, lt, length-append q (e ∷ [])));
        })
]
  where
    full_entry :
        (length q == 7) ≡ true
        → (i : ℕ) → i < 7
        → get_or (set log.events log.start e) (((log.start + 1) % 7 + i) % 7) no_event
          ≡ get_or (drop 1 q ++ e ∷ []) i no_event
    full_entry full i lt =
        let seven : length q ≡ 7 = ==→eq (length q) 7 full in
        let less : length (drop 1 q) ≡ 6 = omega (arith, length-drop 1 q) in
        elim (ℕ_discrete i 6) [
          | yes last ↦
              ap (λ k. get_or (set log.events log.start e) k no_event) (omega (arith, h.start_low))
              ∙ get_or-set_self log.events log.start e no_event (omega (arith, h.size, h.start_low))
              ∙ sym (get_or-append_last (drop 1 q) e i no_event (omega arith))
          | no ne ↦
              get_or-set_ne log.events log.start (((log.start + 1) % 7 + i) % 7) e no_event
                (omega (arith, h.start_low))
              ∙ ap (λ k. get_or log.events k no_event) (omega (arith, h.start_low))
              ∙ h.entries (i + 1) (omega arith)
              ∙ sym (
                  get_or-append_left (drop 1 q) (e ∷ []) i no_event (omega arith)
                  ∙ get_or-drop_one q i no_event)
        ]

    room_entry :
        (length q == 7) ≡ false
        → (i : ℕ) → i < length q + 1
        → get_or (set log.events ((log.start + length q) % 7) e) ((log.start + i) % 7) no_event
          ≡ get_or (q ++ e ∷ []) i no_event
    room_entry room i lt =
        let small : length q < 7 = ground (arith, h.fits) in
        elim (ℕ_discrete i (length q)) [
          | yes last ↦
              ap
                (λ k.
                  get_or (set log.events ((log.start + length q) % 7) e) ((log.start + k) % 7)
                    no_event)
                last
              ∙ get_or-set_self log.events ((log.start + length q) % 7) e no_event
                  (omega (arith, h.size))
              ∙ sym (get_or-append_last q e i no_event last)
          | no ne ↦
              get_or-set_ne log.events ((log.start + length q) % 7) ((log.start + i) % 7) e no_event
                (omega (arith, h.start_low))
              ∙ h.entries i (omega arith)
              ∙ sym (get_or-append_left q (e ∷ []) i no_event (omega arith))
        ]

-- The events put into a log one after the other.
abbrev pub put_all : EventLog → List UiEvent → EventLog
put_all log [] = log
put_all log (e ∷ es) = put_all (put_event log e) es

-- The queue after the same events.
abbrev pub keep_all : List UiEvent → List UiEvent → List UiEvent
keep_all q [] = q
keep_all q (e ∷ es) = keep_all (keep_latest q e) es

put_all-Holds :
    (log : EventLog) (q es : List UiEvent) → Holds log q → Holds (put_all log es) (keep_all q es)
put_all-Holds log q [] h = h
put_all-Holds log q (e ∷ es) h =
    put_all-Holds (put_event log e) (keep_latest q e) es (put_event-Holds log q e h)

-- In a ring of seven slots, whatever it held before tui_events_start, the events that are shown
-- after any further entries are those of a queue that drops its oldest element when a new one
-- comes to seven.
pub shown_events_latest :
    (log : EventLog) (es : List UiEvent)
    → length log.events ≡ 7
    → shown_events (put_all (events_start log) es) ≡ keep_all [] es
unfolding events_start
shown_events_latest log es size = shown_events-eq _ (keep_all [] es) (
    put_all-Holds (events_start log) [] es (record {
      size = size;
      start_low = omega arith;
      counts = refl;
      fits = omega arith;
      entries = λ i lt. absurd (omega arith);
    }))
