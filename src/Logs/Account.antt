-- ===== src/Logs/Account.antt =====
-- What becomes of every line that is logged, over any life of the handler.
use barhandler_manager.Prelude.{
  ℕ, zero, suc, ◌+◌, ◌≡◌, refl, inl, inr, List, [], ◌∷◌, ◌++◌, length, ltb, arith, ◌==◌, nat_eq,
  if◌then◌else◌, Bool-cases,
}
use barhandler_manager.Logs.Buffer.{
  Item, record_of, payload_of, line_of, Answer, taken, no_loop, raises, Shot, Handler, fresh,
  append, without_first, notice, say, emit, emitting, requeue, flush_buffer, drain, say_deferred,
}

-- How often a line stands in a list, and among the items of a buffer.
abbrev pub times : ℕ → List ℕ → ℕ
times x [] = 0
times x (n ∷ ns) = (if n == x then 1 else 0) + times x ns

abbrev pub times_in : ℕ → List Item → ℕ
times_in x [] = 0
times_in x (i ∷ is) = (if line_of i == x then 1 else 0) + times_in x is

times_in-append :
    (x : ℕ) (is : List Item) (i : Item)
    → times_in x (is ++ i ∷ []) ≡ times_in x is + times_in x (i ∷ [])
times_in-append x [] i = omega arith
times_in-append x (j ∷ is) i = omega (arith, times_in-append x is i)

-- How often a line is accounted for: handed over, kept, dropped, or lost to an exception.
pub account : ℕ → Handler → ℕ
account x h = times x h.handed + times_in x h.buffer + times x h.dropped + times x h.lost

times-without_first :
    (x : ℕ) (buffer : List Item) (item : Item) (dropped : List ℕ)
    → times_in x (without_first buffer item dropped).0
        + times x (without_first buffer item dropped).1
      ≡ times_in x buffer + times x dropped + times_in x (item ∷ [])
unfolding without_first
times-without_first x [] item dropped = omega arith
times-without_first x (old ∷ rest) item dropped = omega (arith, times_in-append x rest item)

account-append :
    (x : ℕ) (item : Item) (h : Handler)
    → account x (append item h) ≡ account x h + times_in x (item ∷ [])
unfolding account append
account-append x item h = elim (Bool-cases (ltb (length h.buffer) h.limit)) [
  | inl e ↦ rw e (omega (arith, times_in-append x h.buffer item))
  | inr e ↦ rw e (omega (arith, times-without_first x h.buffer item h.dropped))
]

account-emitting :
    (x line : ℕ) (answer : Answer) (h : Handler)
    → account x (emitting answer line h) ≡ account x h + times x (line ∷ [])
unfolding emitting account
account-emitting x line taken h = omega arith
account-emitting x line no_loop h = account-append x (payload_of line) h
account-emitting x line raises h = omega arith

account-emit :
    (x line : ℕ) (shot : Shot) (h : Handler)
    → account x (emit shot line h) ≡ account x h + times x (line ∷ [])
unfolding emit
account-emit x line shot h = elim (Bool-cases shot.connected) [
  | inl e ↦ rw e (account-emitting x line shot.answer h)
  | inr e ↦ rw e (account-append x (record_of line) h)
]

account-say : (x n : ℕ) (shot : Shot) (h : Handler) → account x (say shot n h) ≡ account x h
unfolding say
account-say x zero shot h = refl
account-say x (suc n) shot h = elim (Bool-cases shot.connected) [
  | inl e ↦ rw e (told shot.answer)
  | inr e ↦ rw e refl
]
  where
    told : (answer : Answer) → account x (notice answer (suc n) h) ≡ account x h
    told raises = unfold notice account in refl
    told taken = unfold notice account in refl
    told no_loop = unfold notice account in refl

account-answered :
    (x : ℕ) (item : Item) (rest : List Item) (h further : Handler)
    → account x further ≡ account x (record h { buffer = rest; handed = line_of item ∷ h.handed })
    → (answer : Answer)
    → account x (elim answer [
      | taken ↦ further
      | no_loop ↦ record h { buffer = item ∷ rest }
      | raises ↦ record h { buffer = item ∷ rest }
    ])
      ≡ account x (record h { buffer = item ∷ rest })
unfolding account
account-answered x item rest h further e no_loop = refl
account-answered x item rest h further e raises = refl
account-answered x item rest h further e taken = omega (arith, e)

account-drain :
    (x : ℕ) (shots : ℕ → Shot) (last : Shot) (items : List Item) (h : Handler)
    → account x (drain shots last items h) ≡ account x (record h { buffer = items })
unfolding drain say_deferred
account-drain x shots last [] h = account-say x h.deferred last (record h { buffer = [] })
account-drain x shots last (item ∷ rest) h = elim (Bool-cases (shots 0).connected) [
  | inl e ↦ rw e (
      account-answered x item rest h _
        (account-drain x (λ n. shots (suc n)) last rest
          (record h { handed = line_of item ∷ h.handed }))
        (shots 0).answer)
  | inr e ↦ rw e (account-say x h.deferred last (record h { buffer = item ∷ rest }))
]

-- What happens to the handler: a line is logged, the client gives a line back, or the buffer is
-- flushed.
pub data Op : Type 0 where
  logs : Shot → ℕ → Op
  comes_back : ℕ → Op
  flushes : (ℕ → Shot) → Shot → Op

unfoldable pub step : Op → Handler → Handler
step (logs shot line) h = emit shot line h
step (comes_back line) h = requeue line h
step (flushes shots last) h = flush_buffer shots last h

unfoldable pub run : List Op → Handler → Handler
run [] h = h
run (op ∷ ops) h = run ops (step op h)

-- The lines that came to the handler: those that were logged and those that the client gave back.
abbrev pub came : List Op → List ℕ
came [] = []
came (logs shot line ∷ ops) = line ∷ came ops
came (comes_back line ∷ ops) = line ∷ came ops
came (flushes shots last ∷ ops) = came ops

account-run :
    (x : ℕ) (ops : List Op) (h : Handler) → account x (run ops h) ≡ account x h + times x (came ops)
unfolding run step requeue flush_buffer
account-run x [] h = omega arith
account-run x (logs shot line ∷ ops) h =
    omega (arith, account-run x ops (emit shot line h), account-emit x line shot h)
account-run x (comes_back line ∷ ops) h =
    omega
      (arith, account-run x ops (append (payload_of line) h), account-append x (payload_of line) h)
account-run x (flushes shots last ∷ ops) h =
    omega (
      arith,
      account-run x ops (drain shots last h.buffer h),
      account-drain x shots last h.buffer h,
    )

-- Every line that is logged or given back, as often as it is, was taken by the client, or stands in
-- the buffer, or was dropped from a full buffer, or met an exception of the client: over any order
-- of lines, returns and flushes, whatever the client answers.
pub run_accounted :
    (x limit : ℕ) (ops : List Op)
    → times x (run ops (fresh limit)).handed
        + times_in x (run ops (fresh limit)).buffer
        + times x (run ops (fresh limit)).dropped
        + times x (run ops (fresh limit)).lost
      ≡ times x (came ops)
unfolding account
run_accounted x limit ops = omega (arith, account-run x ops (fresh limit))
