-- ===== src/Logs/Fits.antt =====
-- When the buffer drops no line.
use barhandler_manager.Prelude.{
  ℕ, zero, suc, ◌+◌, ◌≤◌, ◌≡◌, refl, inl, inr, true, List, [], ◌∷◌, length, ltb, arith, Bool-cases,
  length-append,
}
use barhandler_manager.Logs.Buffer.{
  Item, record_of, payload_of, line_of, Answer, taken, no_loop, raises, Shot, Handler, fresh,
  append, notice, say, emit, emitting, requeue, flush_buffer, drain, say_deferred,
}
use barhandler_manager.Logs.Account.{Op, logs, comes_back, flushes, step, run, came}

-- The buffer holds at most `k` items, and nothing was dropped.
record Fits (k limit : ℕ) (h : Handler) : Type 0 where
  same_limit : h.limit ≡ limit
  none_dropped : h.dropped ≡ []
  short : length h.buffer ≤ k

append-Fits :
    (k limit : ℕ) (item : Item) (h : Handler)
    → suc k ≤ limit
    → Fits k limit h
    → Fits (suc k) limit (append item h)
unfolding append
append-Fits k limit item h room f =
    let free : ltb (length h.buffer) h.limit ≡ true = ground (arith, f.same_limit, f.short) in
    rw free (record {
      same_limit = f.same_limit;
      none_dropped = f.none_dropped;
      short = omega (arith, length-append h.buffer (item ∷ []), f.short);
    })

emitting-Fits :
    (k limit : ℕ) (answer : Answer) (line : ℕ) (h : Handler)
    → suc k ≤ limit
    → Fits k limit h
    → Fits (suc k) limit (emitting answer line h)
unfolding emitting
emitting-Fits k limit taken line h room f = record {
  same_limit = f.same_limit;
  none_dropped = f.none_dropped;
  short = omega (arith, f.short);
}
emitting-Fits k limit no_loop line h room f =
    let g = append-Fits k limit (payload_of line) h room f in
    record { same_limit = g.same_limit; none_dropped = g.none_dropped; short = g.short }
emitting-Fits k limit raises line h room f = record {
  same_limit = f.same_limit;
  none_dropped = f.none_dropped;
  short = omega (arith, f.short);
}

emit-Fits :
    (k limit : ℕ) (shot : Shot) (line : ℕ) (h : Handler)
    → suc k ≤ limit
    → Fits k limit h
    → Fits (suc k) limit (emit shot line h)
unfolding emit
emit-Fits k limit shot line h room f = elim (Bool-cases shot.connected) [
  | inl e ↦ rw e (emitting-Fits k limit shot.answer line h room f)
  | inr e ↦ rw e (append-Fits k limit (record_of line) h room f)
]

notice-Fits :
    (k limit n : ℕ) (answer : Answer) (h : Handler)
    → Fits k limit h
    → Fits k limit (notice answer n h)
unfolding notice
notice-Fits k limit n raises h f = f
notice-Fits k limit n taken h f = record {
  same_limit = f.same_limit;
  none_dropped = f.none_dropped;
  short = f.short;
}
notice-Fits k limit n no_loop h f = record {
  same_limit = f.same_limit;
  none_dropped = f.none_dropped;
  short = f.short;
}

say-Fits :
    (k limit n : ℕ) (shot : Shot) (h : Handler) → Fits k limit h → Fits k limit (say shot n h)
unfolding say
say-Fits k limit zero shot h f = f
say-Fits k limit (suc n) shot h f = elim (Bool-cases shot.connected) [
  | inl e ↦ rw e (notice-Fits k limit (suc n) shot.answer h f)
  | inr e ↦ rw e f
]

answered-Fits :
    (k limit : ℕ) (stopped further : Handler)
    → Fits k limit stopped
    → Fits k limit further
    → (answer : Answer)
    → Fits k limit (elim answer [ taken ↦ further | no_loop ↦ stopped | raises ↦ stopped ])
answered-Fits k limit stopped further f g taken = g
answered-Fits k limit stopped further f g no_loop = f
answered-Fits k limit stopped further f g raises = f

drain-Fits :
    (k limit : ℕ) (shots : ℕ → Shot) (last : Shot) (items : List Item) (h : Handler)
    → length items ≤ k
    → h.limit ≡ limit
    → h.dropped ≡ []
    → Fits k limit (drain shots last items h)
unfolding drain say_deferred
drain-Fits k limit shots last [] h short l d =
    say-Fits k limit h.deferred last (record h { buffer = [] })
      (record { same_limit = l; none_dropped = d; short = short })
drain-Fits k limit shots last (item ∷ rest) h short l d =
    let stopped : Fits k limit (record h { buffer = item ∷ rest }) = record {
      same_limit = l;
      none_dropped = d;
      short = short;
    } in
    let further =
      drain-Fits k limit (λ n. shots (suc n)) last rest
        (record h { handed = line_of item ∷ h.handed }) (omega (arith, short)) l d in
    elim (Bool-cases (shots 0).connected) [
      | inl e ↦ rw e (answered-Fits k limit _ _ stopped further (shots 0).answer)
      | inr e ↦ rw e (say-Fits k limit h.deferred last _ stopped)
    ]

run-Fits :
    (k limit : ℕ) (ops : List Op) (h : Handler)
    → Fits k limit h
    → k + length (came ops) ≤ limit
    → (run ops h).dropped ≡ []
unfolding run step requeue flush_buffer
run-Fits k limit [] h f room = f.none_dropped
run-Fits k limit (logs shot line ∷ ops) h f room =
    run-Fits (suc k) limit ops (emit shot line h) (emit-Fits k limit shot line h (omega arith) f)
      (omega arith)
run-Fits k limit (comes_back line ∷ ops) h f room =
    run-Fits (suc k) limit ops _ (append-Fits k limit (payload_of line) h (omega arith) f)
      (omega arith)
run-Fits k limit (flushes shots last ∷ ops) h f room =
    run-Fits k limit ops _
      (drain-Fits k limit shots last h.buffer h f.short f.same_limit f.none_dropped) room

-- As long as no more lines came than the buffer has places, none is dropped, in whatever order they
-- came and whatever the client answers.
pub run_drops_none :
    (limit : ℕ) (ops : List Op) → length (came ops) ≤ limit → (run ops (fresh limit)).dropped ≡ []
run_drops_none limit ops room =
    run-Fits 0 limit ops (fresh limit)
      (record { same_limit = refl; none_dropped = refl; short = omega arith }) (omega arith)
